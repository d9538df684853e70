-- ===== src/Settlement/Rows.antt =====
-- What the statements of one settle event return, and which rows the keys read behind them.
use bell_markets.Prelude.{ℕ, ◌≡◌, refl, arith, true, false, Option, some}
use bell_markets.Prelude.Result.{ok}
use bell_markets.Prelude.Result.{and_then, and_then-ok}
use bell_markets.Bytes.{Bytes, eq_buffer}
use bell_markets.Bytes.Order.{eq_buffer_refl, eq_buffer_sound}
use bell_markets.Database.{find, upserted}
use bell_markets.Database.Upsert.{find-upsert, find-upsert_other}
use bell_markets.Database.Types.{
  SettleEventInput, HoldResult, won, lost, abstained, invalid, SettleEvent, UserMarketHold,
  UserStreak, Tables,
}
use bell_markets.Database.Queries.{
  has_tx_sig, has_user, has_event_and_user, new_settle_event, insert_settle_event, write_hold,
  new_streak, update_streak, apply_result_to_user_streak,
}
use bell_markets.Settlement.{
  HandleSettleEventInput, TokenHolder, hold_of, determine_result, apply_unless_abstained,
}

-- A buffer that is equal to `u` differs from what `u` differs from.
pub eq_buffer_apart :
    (x u v : Bytes) → eq_buffer u v ≡ false → eq_buffer x u ≡ true → eq_buffer x v ≡ false
eq_buffer_apart x u v differ same = rw (eq_buffer_sound x u same) differ

update_streak-user_pubkey :
    (result : HoldResult) (at : ℕ) (row : UserStreak)
    → (update_streak result at row).user_pubkey ≡ row.user_pubkey
unfolding update_streak
update_streak-user_pubkey won at row = refl
update_streak-user_pubkey lost at row = refl
update_streak-user_pubkey invalid at row = refl
update_streak-user_pubkey abstained at row = refl

new_streak-user_pubkey :
    (user : Bytes) (result : HoldResult) (at : ℕ) → (new_streak user result at).user_pubkey ≡ user
unfolding new_streak
new_streak-user_pubkey user won at = refl
new_streak-user_pubkey user lost at = refl
new_streak-user_pubkey user invalid at = refl
new_streak-user_pubkey user abstained at = refl

-- The row of the user whose result is applied.
abbrev pub applied : Bytes → HoldResult → ℕ → Option UserStreak → UserStreak
applied user result at before =
    upserted (update_streak result at) (new_streak user result at) before

pub find-apply_result :
    (user : Bytes) (result : HoldResult) (at : ℕ) (tables : Tables)
    → find (has_user user) (apply_result_to_user_streak user result at tables).0.user_streaks
      ≡ some (applied user result at (find (has_user user) tables.user_streaks))
unfolding apply_result_to_user_streak
find-apply_result user result at tables =
    find-upsert (has_user user) (update_streak result at) (new_streak user result at)
      (λ row hit. rw (update_streak-user_pubkey result at row) hit)
      (rw (new_streak-user_pubkey user result at) (eq_buffer_refl user)) tables.user_streaks

pub find-apply_result_other :
    (user other : Bytes) (result : HoldResult) (at : ℕ) (tables : Tables)
    → eq_buffer user other ≡ false
    → find (has_user other) (apply_result_to_user_streak user result at tables).0.user_streaks
      ≡ find (has_user other) tables.user_streaks
unfolding apply_result_to_user_streak
find-apply_result_other user other result at tables differ =
    find-upsert_other (has_user user) (update_streak result at) (new_streak user result at)
      (has_user other) (λ row hit. eq_buffer_apart row.user_pubkey user other differ hit)
      (λ row hit.
        rw (update_streak-user_pubkey result at row)
          (eq_buffer_apart row.user_pubkey user other differ hit))
      (rw (new_streak-user_pubkey user result at) differ) tables.user_streaks

-- No statement of a holder's turn throws, and its counts are those of the result.
pub apply_result-returns :
    (user : Bytes) (result : HoldResult) (at : ℕ) (tables : Tables)
    → (row : UserStreak) × ((apply_result_to_user_streak user result at tables).1 ≡ ok row)
unfolding apply_result_to_user_streak
apply_result-returns user result at tables = (
  applied user result at (find (has_user user) tables.user_streaks),
  rw (find-apply_result user result at tables) refl,
)

-- The tables behind the statements for one result.
unfoldable pub credited : Bytes → HoldResult → ℕ → Tables → Tables
credited user abstained at tables = tables
credited user won at tables = (apply_result_to_user_streak user won at tables).0
credited user lost at tables = (apply_result_to_user_streak user lost at tables).0
credited user invalid at tables = (apply_result_to_user_streak user invalid at tables).0

applied_then :
    {A : Type 0} (user : Bytes) (result : HoldResult) (at : ℕ) (tables : Tables) (a : A)
    → and_then
        (and_then
          (apply_result_to_user_streak user result at tables)
          (λ after row. (after, ok (some row))))
        (λ after row. (after, ok a))
      ≡ ((apply_result_to_user_streak user result at tables).0, ok a)
applied_then user result at tables a =
    let (row, returns) = apply_result-returns user result at tables in
    rw
      (and_then-ok (apply_result_to_user_streak user result at tables)
        (λ after row. (after, ok (some row))) returns)
      refl

pub apply_unless_abstained-then :
    {A : Type 0} (user : Bytes) (result : HoldResult) (at : ℕ) (tables : Tables) (a : A)
    → and_then (apply_unless_abstained user result at tables) (λ after row. (after, ok a))
      ≡ (credited user result at tables, ok a)
unfolding credited
apply_unless_abstained-then user abstained at tables a = refl
apply_unless_abstained-then user won at tables a = applied_then user won at tables a
apply_unless_abstained-then user lost at tables a = applied_then user lost at tables a
apply_unless_abstained-then user invalid at tables a = applied_then user invalid at tables a

pub find-insert_hold :
    (hold : UserMarketHold) (tables : Tables)
    → find
        (has_event_and_user hold.settle_event_id hold.user_pubkey)
        (write_hold hold tables).0.user_market_holds
      ≡ some (
          upserted
            (λ row. record row { result = hold.result })
            (record hold { id = tables.next_hold_id })
            (find
              (has_event_and_user hold.settle_event_id hold.user_pubkey)
              tables.user_market_holds))
unfolding write_hold
find-insert_hold hold tables =
    find-upsert (has_event_and_user hold.settle_event_id hold.user_pubkey)
      (λ row. record row { result = hold.result }) (record hold { id = tables.next_hold_id })
      (λ row hit. hit) (ground (arith, eq_buffer_refl hold.user_pubkey)) tables.user_market_holds

pub insert_hold-returns :
    (hold : UserMarketHold) (tables : Tables) → (id : ℕ) × ((write_hold hold tables).1 ≡ ok id)
unfolding write_hold
insert_hold-returns hold tables = (
  (upserted (λ row. record row { result = hold.result }) (record hold { id = tables.next_hold_id })
      (find (has_event_and_user hold.settle_event_id hold.user_pubkey)
        tables.user_market_holds)).id,
  rw (find-insert_hold hold tables) refl,
)

-- The tables behind one turn of the loop.
abbrev pub settled : HandleSettleEventInput → ℕ → TokenHolder → Tables → Tables
settled input event holder tables =
    credited holder.owner_pubkey (determine_result input.outcome holder.yes_held holder.no_held)
      input.observed_at (write_hold (hold_of input event holder) tables).0

-- A settle event is found under its signature, with the id that is returned.
pub find-insert_event :
    (input : SettleEventInput) (tables : Tables)
    → find (has_tx_sig input.tx_sig) (insert_settle_event input tables).0.settle_events
      ≡ some (
          upserted
            (λ row. row)
            (new_settle_event input tables.next_event_id)
            (find (has_tx_sig input.tx_sig) tables.settle_events))
unfolding insert_settle_event
find-insert_event input tables =
    find-upsert (has_tx_sig input.tx_sig) (λ row. row) (new_settle_event input tables.next_event_id)
      (λ row hit. hit) (eq_buffer_refl input.tx_sig) tables.settle_events

-- The event's row behind its insertion.
abbrev pub event_row : SettleEventInput → Tables → SettleEvent
event_row input tables =
    upserted (λ row. row) (new_settle_event input tables.next_event_id)
      (find (has_tx_sig input.tx_sig) tables.settle_events)

abbrev pub event_id : SettleEventInput → Tables → ℕ
event_id input tables = (event_row input tables).id

pub insert_settle_event-returns :
    (input : SettleEventInput) (tables : Tables)
    → (insert_settle_event input tables).1 ≡ ok (event_id input tables)
unfolding insert_settle_event
insert_settle_event-returns input tables = rw (find-insert_event input tables) refl
