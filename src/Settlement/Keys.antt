-- ===== src/Settlement/Keys.antt =====
-- What a key of user_market_holds reads behind the turns for some holders, once and a second time.
use bell_markets.Prelude.{
  ℕ, ◌≡◌, ◌≢◌, refl, sym, ap, ◌∙◌, arith, Bool, true, false, ◌&&◌, List, [], ◌∷◌, Option, none,
  some, ◌==◌, inl, inr, Bool-cases, if◌then◌else◌, Option-cases,
}
use bell_markets.Bytes.{Bytes, eq_buffer}
use bell_markets.Bytes.Order.{eq_buffer_sound}
use bell_markets.Database.{find, upserted}
use bell_markets.Database.Upsert.{find-upsert_other}
use bell_markets.Database.Types.{HoldResult, won, lost, abstained, invalid, UserMarketHold, Tables}
use bell_markets.Database.Queries.{has_event_and_user, write_hold, apply_result_to_user_streak}
use bell_markets.Settlement.{TokenHolder, HandleSettleEventInput, determine_result, hold_of}
use bell_markets.Settlement.Rows.{credited, settled, find-insert_hold}
use bell_markets.Settlement.Loop.{all_settled}

-- The statements on streaks leave the holds alone.
settled-user_market_holds :
    (input : HandleSettleEventInput) (event : ℕ) (holder : TokenHolder) (tables : Tables)
    → (settled input event holder tables).user_market_holds
      ≡ (write_hold (hold_of input event holder) tables).0.user_market_holds
unfolding credited apply_result_to_user_streak
settled-user_market_holds input event holder tables =
    go (determine_result input.outcome holder.yes_held holder.no_held)
  where
    go :
        (result : HoldResult)
        → (credited holder.owner_pubkey result input.observed_at
            (write_hold (hold_of input event holder) tables).0).user_market_holds
          ≡ (write_hold (hold_of input event holder) tables).0.user_market_holds
    go won = refl
    go lost = refl
    go invalid = refl
    go abstained = refl

-- Whether a holder's row is the one under an event's and a user's key.
abbrev is_keyed : ℕ → ℕ → Bytes → TokenHolder → Bool
is_keyed event event' user holder = (event == event') && eq_buffer holder.owner_pubkey user

key_apart :
    (event event' x : ℕ) (owner user p : Bytes)
    → ((event == event') && eq_buffer owner user) ≡ false
    → ((x == event) && eq_buffer p owner) ≡ true
    → ((x == event') && eq_buffer p user) ≡ false
key_apart event event' x owner user p differ hit = elim (Bool-cases (eq_buffer p owner)) [
  | inl same ↦ let e : p ≡ owner = eq_buffer_sound p owner same in rw e (ground arith)
  | inr other ↦ ground arith
]

find-insert_hold_other :
    (hold : UserMarketHold) (event' : ℕ) (user : Bytes) (tables : Tables)
    → ((hold.settle_event_id == event') && eq_buffer hold.user_pubkey user) ≡ false
    → find (has_event_and_user event' user) (write_hold hold tables).0.user_market_holds
      ≡ find (has_event_and_user event' user) tables.user_market_holds
unfolding write_hold
find-insert_hold_other hold event' user tables differ =
    let apart : (row : UserMarketHold)
        → has_event_and_user hold.settle_event_id hold.user_pubkey row ≡ true
        → has_event_and_user event' user row ≡ false =
      λ row hit.
        key_apart hold.settle_event_id event' row.settle_event_id hold.user_pubkey user
          row.user_pubkey differ hit in
    find-upsert_other (has_event_and_user hold.settle_event_id hold.user_pubkey)
      (λ row. record row { result = hold.result }) (record hold { id = tables.next_hold_id })
      (has_event_and_user event' user) apart apart differ tables.user_market_holds

abbrev or_earlier : {A : Type 0} → Option A → Option A → Option A
or_earlier none earlier = earlier
or_earlier (some last) earlier = some last

-- The result of the last of some holders under a key.
unfoldable last_result :
    ℕ → ℕ → Bytes → HandleSettleEventInput → List TokenHolder → Option HoldResult
last_result event event' user input [] = none
last_result event event' user input (holder ∷ holders) =
    let here =
      if is_keyed event event' user holder
      then some (determine_result input.outcome holder.yes_held holder.no_held)
      else none in
    or_earlier (last_result event event' user input holders) here

-- A row with another result.
abbrev with_result : Option HoldResult → UserMarketHold → UserMarketHold
with_result none row = row
with_result (some result) row = record row { result = result }

keyed_event :
    (event event' : ℕ) (user : Bytes) (holder : TokenHolder)
    → is_keyed event event' user holder ≡ true
    → event ≡ event'
keyed_event event event' user holder hit = ground arith

keyed_owner :
    (event event' : ℕ) (user : Bytes) (holder : TokenHolder)
    → is_keyed event event' user holder ≡ true
    → holder.owner_pubkey ≡ user
keyed_owner event event' user holder hit = eq_buffer_sound holder.owner_pubkey user (ground arith)

-- The key after one holder, when it is the holder's.
find-settled :
    (input : HandleSettleEventInput) (event : ℕ) (holder : TokenHolder) (tables : Tables)
    (event' : ℕ) (user : Bytes)
    → is_keyed event event' user holder ≡ true
    → find (has_event_and_user event' user) (settled input event holder tables).user_market_holds
      ≡ some (
          upserted
            (with_result (some (determine_result input.outcome holder.yes_held holder.no_held)))
            (record (hold_of input event holder) { id = tables.next_hold_id })
            (find (has_event_and_user event' user) tables.user_market_holds))
find-settled input event holder tables event' user hit =
    let ids : event ≡ event' = keyed_event event event' user holder hit in
    let owners : holder.owner_pubkey ≡ user = keyed_owner event event' user holder hit in
    rw (settled-user_market_holds input event holder tables, ← ids, ← owners)
      (find-insert_hold (hold_of input event holder) tables)

find-settled_other :
    (input : HandleSettleEventInput) (event : ℕ) (holder : TokenHolder) (tables : Tables)
    (event' : ℕ) (user : Bytes)
    → is_keyed event event' user holder ≡ false
    → find (has_event_and_user event' user) (settled input event holder tables).user_market_holds
      ≡ find (has_event_and_user event' user) tables.user_market_holds
find-settled_other input event holder tables event' user miss =
    rw (settled-user_market_holds input event holder tables)
      (find-insert_hold_other (hold_of input event holder) event' user tables miss)

or_earlier-some : {A : Type 0} (last : Option A) (a : A) → or_earlier last (some a) ≢ none
or_earlier-some none a e = cc
or_earlier-some (some last) a e = cc

or_earlier-none : {A : Type 0} (last : Option A) → or_earlier last none ≡ last
or_earlier-none none = refl
or_earlier-none (some last) = refl

-- Results written one after the other leave the later.
with_result_twice :
    (later : Option HoldResult) (result : HoldResult) (row : UserMarketHold)
    → with_result later (with_result (some result) row)
      ≡ with_result (or_earlier later (some result)) row
with_result_twice none result row = refl
with_result_twice (some later) result row = refl

result-with_result :
    (later : Option HoldResult) (row : UserMarketHold) (result final : HoldResult)
    → row.result ≡ result
    → or_earlier later (some result) ≡ some final
    → (with_result later row).result ≡ final
result-with_result none row result final has is = ground arith
result-with_result (some later) row result final has is = ground arith

result-upserted :
    (fresh : UserMarketHold) (before : Option UserMarketHold) (result : HoldResult)
    → fresh.result ≡ result
    → (upserted (with_result (some result)) fresh before).result ≡ result
result-upserted fresh none result has = has
result-upserted fresh (some row) result has = refl

with_result_same :
    (row : UserMarketHold) (final : HoldResult)
    → row.result ≡ final
    → with_result (some final) row ≡ row
with_result_same row final has = rw (← has) refl

module _ (input : HandleSettleEventInput) (event event' : ℕ) (user : Bytes) where
  -- Without a holder under the key it reads what it read.
  loop-absent :
      (holders : List TokenHolder) (tables : Tables)
      → last_result event event' user input holders ≡ none
      → find
          (has_event_and_user event' user)
          (all_settled input event holders tables).user_market_holds
        ≡ find (has_event_and_user event' user) tables.user_market_holds
  unfolding all_settled last_result
  loop-absent [] tables absent = refl
  loop-absent (holder ∷ holders) tables absent =
      let rest = last_result event event' user input holders in
      elim (Bool-cases (is_keyed event event' user holder)) [
        | inl hit ↦ absurd (or_earlier-some rest _ (rw hit at absent))
        | inr miss ↦
            let rest_absent : rest ≡ none = sym (or_earlier-none rest) ∙ (rw miss at absent) in
            (loop-absent holders (settled input event holder tables) rest_absent
              ∙ find-settled_other input event holder tables event' user miss)
      ]

  -- A row that the key reads takes the last result.
  loop-present :
      (holders : List TokenHolder) (tables : Tables) (row : UserMarketHold)
      → find (has_event_and_user event' user) tables.user_market_holds ≡ some row
      → find
          (has_event_and_user event' user)
          (all_settled input event holders tables).user_market_holds
        ≡ some (with_result (last_result event event' user input holders) row)
  unfolding all_settled last_result
  loop-present [] tables row present = present
  loop-present (holder ∷ holders) tables row present =
      let rest = last_result event event' user input holders in
      let result = determine_result input.outcome holder.yes_held holder.no_held in
      elim (Bool-cases (is_keyed event event' user holder)) [
        | inl hit ↦ rw hit (
            loop-present holders (settled input event holder tables) (with_result (some result) row)
              (rw present at (find-settled input event holder tables event' user hit))
            ∙ ap some (with_result_twice rest result row))
        | inr miss ↦
            rw (miss, or_earlier-none rest)
              (loop-present holders (settled input event holder tables) row
                (find-settled_other input event holder tables event' user miss ∙ present))
      ]

  -- A holder under the key leaves a row there, with the final result.
  loop-found :
      (holders : List TokenHolder) (tables : Tables) (final : HoldResult)
      → last_result event event' user input holders ≡ some final
      → (row : UserMarketHold) × (find
            (has_event_and_user event' user)
            (all_settled input event holders tables).user_market_holds
          ≡ some row)
        × (row.result ≡ final)
  unfolding all_settled last_result
  loop-found [] tables final is = cc
  loop-found (holder ∷ holders) tables final is =
      let rest = last_result event event' user input holders in
      let result = determine_result input.outcome holder.yes_held holder.no_held in
      let fresh = record (hold_of input event holder) { id = tables.next_hold_id } in
      let before = find (has_event_and_user event' user) tables.user_market_holds in
      let after = upserted (with_result (some result)) fresh before in
      elim (Bool-cases (is_keyed event event' user holder)) [
        | inl hit ↦ (
          with_result rest after,
          (loop-present holders (settled input event holder tables) after
              (find-settled input event holder tables event' user hit)),
          result-with_result rest after result final (result-upserted fresh before result refl)
              (rw hit at is),
        )
        | inr miss ↦
            (loop-found holders (settled input event holder tables) final
              (sym (or_earlier-none rest) ∙ (rw miss at is)))
      ]

  -- The turns for the same holders a second time change no key.
  pub loop-twice :
      (holders : List TokenHolder) (tables again : Tables)
      → again.user_market_holds ≡ (all_settled input event holders tables).user_market_holds
      → find
          (has_event_and_user event' user)
          (all_settled input event holders again).user_market_holds
        ≡ find (has_event_and_user event' user) again.user_market_holds
  loop-twice holders tables again same =
      elim (Option-cases (last_result event event' user input holders)) [
        | inl absent ↦ loop-absent holders again absent
        | inr (final, is) ↦
            let (row, reads, has) = loop-found holders tables final is in
            let first = rw (← same) at reads in
            loop-present holders again row first
            ∙ rw (is, first) (ap some (with_result_same row final has))
      ]
