-- ===== src/Settlement/Replay.antt =====
-- A delivery that comes a second time, as the webhook's sender does when an answer is late.
use bell_markets.Prelude.{ℕ, ◌≡◌, refl, sym, subst, ap, ap₂, ◌∙◌, List, Option, some}
use bell_markets.Prelude.Result.{Result, ok}
use bell_markets.Bytes.{Bytes}
use bell_markets.Database.{find}
use bell_markets.Database.Upsert.{upsert-found}
use bell_markets.Database.Types.{SettleEvent, Tables}
use bell_markets.Database.Queries.{has_tx_sig, has_event_and_user, Failure, insert_settle_event}
use bell_markets.Settlement.{
  settle_event_input, TokenHolder, HandleSettleEventInput, handle_settle_event,
}
use bell_markets.Settlement.Rows.{event_id, event_row, find-insert_event}
use bell_markets.Settlement.Loop.{accepted, all_accepted, all_settled, all_settled-accepts_numeric}
use bell_markets.Settlement.Tally.{
  handle_settle_event-eq, looped, tally_of, all_settled-settle_events, unless_rejected,
}
use bell_markets.Settlement.Keys.{loop-twice}

-- The settle events and what every key of the holds reads are the same.
pub record IsReplayed (once twice : Tables) : Type 0 where
  pub same_events : twice.settle_events ≡ once.settle_events
  pub same_holds :
      (event : ℕ) (user : Bytes)
      → find (has_event_and_user event user) twice.user_market_holds
        ≡ find (has_event_and_user event user) once.user_market_holds

-- What the loop leaves of the settle events and of what the database accepts.
looped-accepts_numeric :
    (input : HandleSettleEventInput) (holders : List TokenHolder) (tables : Tables)
    → (looped input holders tables).accepts_numeric ≡ tables.accepts_numeric
unfolding insert_settle_event
looped-accepts_numeric input holders tables =
    all_settled-accepts_numeric input (event_id (settle_event_input input) tables)
      (accepted tables.accepts_numeric holders)
      (insert_settle_event (settle_event_input input) tables).0

looped-settle_events :
    (input : HandleSettleEventInput) (holders : List TokenHolder) (tables : Tables)
    → (looped input holders tables).settle_events
      ≡ (insert_settle_event (settle_event_input input) tables).0.settle_events
looped-settle_events input holders tables =
    all_settled-settle_events input (event_id (settle_event_input input) tables)
      (accepted tables.accepts_numeric holders)
      (insert_settle_event (settle_event_input input) tables).0

looped-event_row :
    (input : HandleSettleEventInput) (holders : List TokenHolder) (tables : Tables)
    → event_row (settle_event_input input) (looped input holders tables)
      ≡ event_row (settle_event_input input) tables
looped-event_row input holders tables =
    rw (looped-settle_events input holders tables)
      (rw (find-insert_event (settle_event_input input) tables) refl)

looped_twice :
    (input : HandleSettleEventInput) (holders : List TokenHolder) (tables : Tables)
    → IsReplayed (looped input holders tables) (looped input holders (looped input holders tables))
unfolding insert_settle_event
looped_twice input holders tables =
    let once = looped input holders tables in
    let again = (insert_settle_event (settle_event_input input) once).0 in
    let taken = accepted tables.accepts_numeric holders in
    let found : find (has_tx_sig input.tx_sig) once.settle_events
        ≡ some (event_row (settle_event_input input) tables) =
      rw (looped-settle_events input holders tables)
        (find-insert_event (settle_event_input input) tables) in
    record {
      same_events =
          looped-settle_events input holders once
          ∙ upsert-found (has_tx_sig input.tx_sig) _ once.settle_events found;
      same_holds = λ event user.
          subst
            (λ accepts.
              find (has_event_and_user event user)
                (all_settled input (event_id (settle_event_input input) once)
                  (accepted accepts holders) again).user_market_holds
              ≡ find (has_event_and_user event user) once.user_market_holds)
            (sym (looped-accepts_numeric input holders tables))
            (subst
              (λ id.
                find (has_event_and_user event user)
                  (all_settled input id taken again).user_market_holds
                ≡ find (has_event_and_user event user) once.user_market_holds)
              (sym (ap (λ row. row.id) (looped-event_row input holders tables)))
              (loop-twice input (event_id (settle_event_input input) tables) event user taken
                (insert_settle_event (settle_event_input input) tables).0 again refl));
    }

-- A delivery that is handled a second time, with the same answer of the query for the holders,
-- returns or throws what it did the first time, and changes neither a row of settle_events nor what any
-- key of user_market_holds reads. The statement leaves out user_streaks.
pub handle_settle_event-IsReplayed :
    (fetch_token_holders : Bytes → Bytes → Bytes → Option ℕ → Result Failure (List TokenHolder))
    (input : HandleSettleEventInput) (tables : Tables) (holders : List TokenHolder)
    → fetch_token_holders input.market_pubkey input.yes_mint input.no_mint input.settle_slot
      ≡ ok holders
    → ((handle_settle_event fetch_token_holders input
          (handle_settle_event fetch_token_holders input tables).0).1
        ≡ (handle_settle_event fetch_token_holders input tables).1)
      × IsReplayed
          (handle_settle_event fetch_token_holders input tables).0
          (handle_settle_event fetch_token_holders input
            (handle_settle_event fetch_token_holders input tables).0).0
handle_settle_event-IsReplayed fetch_token_holders input tables holders fetched =
    let once = looped input holders tables in
    let first = handle_settle_event-eq fetch_token_holders input tables fetched in
    let second = handle_settle_event-eq fetch_token_holders input once fetched in
    rw (first, second)
      (
        ap₂
            (λ accepts (row : SettleEvent).
              unless_rejected (all_accepted accepts holders)
                (record (tally_of input holders tables) { settle_event_id = row.id }))
            (looped-accepts_numeric input holders tables) (looped-event_row input holders tables),
        looped_twice input holders tables,
      )
