-- ===== src/Settlement/Tally.antt =====
-- What a handled settle event returns.
use bell_markets.Prelude.{
  ℕ, ◌+◌, ◌≡◌, refl, ap, ◌∙◌, arith, ap₂, Bool, true, false, Bool-cases, inl, inr, List, [], ◌∷◌,
  Option, some, length,
}
use bell_markets.Prelude.Result.{Result, ok, throw}
use bell_markets.Prelude.Result.{and_then, and_then-ok}
use bell_markets.Bytes.{Bytes}
use bell_markets.Database.{find}
use bell_markets.Database.Types.{HoldResult, won, lost, abstained, invalid, Tables, SettleEvent}
use bell_markets.Database.Queries.{
  has_tx_sig, Failure, insert_settle_event, write_hold, hold_rejected, Ran,
  apply_result_to_user_streak,
}
use bell_markets.Settlement.{
  settle_event_input, TokenHolder, Counts, HandleSettleEventInput, HandleSettleEventResult,
  settle_holders, handle_settle_event, determine_result, count_result, no_counts, answer_of,
  hold_of,
}
use bell_markets.Settlement.Rows.{credited, settled, insert_settle_event-returns, event_id}
use bell_markets.Settlement.Loop.{
  takes, accepted, all_accepted, all_settled, settle_holder-rejected, settled-accepts_numeric,
  settle_holders-tables, settle_holder-eq,
}

-- The number of holders with a result.
unfoldable pub holders_with : (HoldResult → ℕ) → HandleSettleEventInput → List TokenHolder → ℕ
holders_with weight input [] = 0
holders_with weight input (holder ∷ holders) =
    weight (determine_result input.outcome holder.yes_held holder.no_held)
    + holders_with weight input holders

abbrev pub one_if_won : HoldResult → ℕ
one_if_won won = 1
one_if_won result = 0

abbrev pub one_if_lost : HoldResult → ℕ
one_if_lost lost = 1
one_if_lost result = 0

abbrev pub one_if_invalid : HoldResult → ℕ
one_if_invalid invalid = 1
one_if_invalid result = 0

abbrev pub one_if_abstained : HoldResult → ℕ
one_if_abstained abstained = 1
one_if_abstained result = 0

abbrev plus : Counts → ℕ → ℕ → ℕ → ℕ → Counts
plus counts w l i a = record {
  winners = counts.winners + w;
  losers = counts.losers + l;
  invalid_positions = counts.invalid_positions + i;
  abstainers = counts.abstainers + a;
}

plus-count_result :
    (result : HoldResult) (counts : Counts) (w l i a : ℕ)
    → plus (count_result result counts) w l i a
      ≡ plus counts
          (one_if_won result + w)
          (one_if_lost result + l)
          (one_if_invalid result + i)
          (one_if_abstained result + a)
unfolding count_result
plus-count_result won counts w l i a = ground arith
plus-count_result lost counts w l i a = ground arith
plus-count_result invalid counts w l i a = ground arith
plus-count_result abstained counts w l i a = ground arith

-- The counts behind some more holders.
abbrev tallied : HandleSettleEventInput → List TokenHolder → Counts → Counts
tallied input holders counts =
    plus counts (holders_with one_if_won input holders) (holders_with one_if_lost input holders)
      (holders_with one_if_invalid input holders) (holders_with one_if_abstained input holders)

-- A value, or the throw of a hold that was rejected.
abbrev pub unless_rejected : {A : Type 0} → Bool → A → Result Failure A
unless_rejected true a = ok a
unless_rejected false a = throw hold_rejected

-- The loop returns the counts of all holders, or throws at one whose balances are not accepted.
settle_holders-returns :
    (input : HandleSettleEventInput) (event : ℕ) (holders : List TokenHolder) (counts : Counts)
    (tables : Tables)
    → (settle_holders input event holders counts tables).1
      ≡ unless_rejected (all_accepted tables.accepts_numeric holders) (tallied input holders counts)
unfolding settle_holders holders_with all_accepted
settle_holders-returns input event [] counts tables = ground arith
settle_holders-returns input event (holder ∷ holders) counts tables =
    elim (Bool-cases (takes tables.accepts_numeric holder)) [
      | inl taken ↦
          rw (settle_holder-eq input event holder counts tables taken, taken)
            (settle_holders-returns input event holders _ (settled input event holder tables)
              ∙ ap₂ unless_rejected
                  (ap (λ accepts. all_accepted accepts holders)
                    (settled-accepts_numeric input event holder tables))
                  (plus-count_result (determine_result input.outcome holder.yes_held holder.no_held)
                    counts _ _ _ _))
      | inr refused ↦
          rw (settle_holder-rejected input event holder counts tables refused, refused) refl
    ]

settled-settle_events :
    (input : HandleSettleEventInput) (event : ℕ) (holder : TokenHolder) (tables : Tables)
    → (settled input event holder tables).settle_events ≡ tables.settle_events
unfolding credited write_hold apply_result_to_user_streak
settled-settle_events input event holder tables =
    go (determine_result input.outcome holder.yes_held holder.no_held)
  where
    go :
        (result : HoldResult)
        → (credited holder.owner_pubkey result input.observed_at
            (write_hold (hold_of input event holder) tables).0).settle_events
          ≡ tables.settle_events
    go won = refl
    go lost = refl
    go invalid = refl
    go abstained = refl

-- The turns leave the settle events alone.
pub all_settled-settle_events :
    (input : HandleSettleEventInput) (event : ℕ) (holders : List TokenHolder) (tables : Tables)
    → (all_settled input event holders tables).settle_events ≡ tables.settle_events
unfolding all_settled
all_settled-settle_events input event [] tables = refl
all_settled-settle_events input event (holder ∷ holders) tables =
    all_settled-settle_events input event holders (settled input event holder tables)
    ∙ settled-settle_events input event holder tables

-- The answer that counts the holders, under the id of the event's row.
abbrev pub tally_of : HandleSettleEventInput → List TokenHolder → Tables → HandleSettleEventResult
tally_of input holders tables =
    answer_of (event_id (settle_event_input input) tables) holders (tallied input holders no_counts)

-- The tables behind the loop of a settle event, over the holders before the first rejected one.
abbrev pub looped : HandleSettleEventInput → List TokenHolder → Tables → Tables
looped input holders tables =
    all_settled input (event_id (settle_event_input input) tables)
      (accepted tables.accepts_numeric holders)
      (insert_settle_event (settle_event_input input) tables).0

-- A throw, as one of another type.
abbrev thrown : {A B : Type 0} → Result Failure A → Result Failure B
thrown (ok a) = throw hold_rejected
thrown (throw e) = throw e

and_then-unless_rejected :
    {A B : Type 0} (ran : Ran A) (b : Bool) (a : A) (answer : A → B)
    → ran.1 ≡ unless_rejected b a
    → and_then ran (λ after x. (after, ok (answer x))) ≡ (ran.0, unless_rejected b (answer a))
and_then-unless_rejected ran true a answer e = and_then-ok ran _ e
and_then-unless_rejected (tables, ok x) false a answer e = cc
and_then-unless_rejected (tables, throw x) false a answer e = ap (λ r. (tables, thrown r)) e

pub handle_settle_event-eq :
    (fetch_token_holders : Bytes → Bytes → Bytes → Option ℕ → Result Failure (List TokenHolder))
    (input : HandleSettleEventInput) (tables : Tables) {holders : List TokenHolder}
    → fetch_token_holders input.market_pubkey input.yes_mint input.no_mint input.settle_slot
      ≡ ok holders
    → handle_settle_event fetch_token_holders input tables ≡ (
      looped input holders tables,
      unless_rejected (all_accepted tables.accepts_numeric holders) (tally_of input holders tables),
    )
unfolding handle_settle_event insert_settle_event
handle_settle_event-eq fetch_token_holders input tables {holders} fetched =
    let id = event_id (settle_event_input input) tables in
    let inserted = (insert_settle_event (settle_event_input input) tables).0 in
    and_then-ok (insert_settle_event (settle_event_input input) tables) _
      (insert_settle_event-returns (settle_event_input input) tables)
    ∙ rw fetched (
        and_then-unless_rejected (settle_holders input id holders no_counts inserted)
          (all_accepted tables.accepts_numeric holders) (tallied input holders no_counts)
          (answer_of id holders) (settle_holders-returns input id holders no_counts inserted)
        ∙ ap
            (λ after. (
              after,
              unless_rejected (all_accepted tables.accepts_numeric holders)
                  (tally_of input holders tables),
            ))
            (settle_holders-tables input id holders no_counts inserted))

-- What a handled settle event promises of its answer and of the tables that it leaves.
pub record IsTally (input : HandleSettleEventInput) (holders : List TokenHolder) (after : Tables)
    (answer : HandleSettleEventResult) : Type 0 where
  pub processed : answer.holders_processed ≡ length holders
  pub won_count : answer.winners ≡ holders_with one_if_won input holders
  pub lost_count : answer.losers ≡ holders_with one_if_lost input holders
  pub invalid_count : answer.invalid_positions ≡ holders_with one_if_invalid input holders
  pub abstained_count : answer.abstainers ≡ holders_with one_if_abstained input holders
  pub adds_up :
      answer.winners + answer.losers + answer.invalid_positions + answer.abstainers
      ≡ answer.holders_processed
  pub recorded :
      (event : SettleEvent) × (find (has_tx_sig input.tx_sig) after.settle_events ≡ some event)
      × (event.id ≡ answer.settle_event_id)
