-- ===== src/Payouts/Recorded.antt =====
-- The rows of distributions behind a period's payments.
use bell_markets.Prelude.{
  ℕ, zero, suc, ◌+◌, ◌≤◌, ◌≡◌, ◌≢◌, ◌⊎◌, inr, refl, sym, ap, ◌∙◌, subst, arith, true, false, List,
  [], ◌∷◌, Option, none, some, get_elem?,
}
use bell_markets.Prelude.Result.{ok, and_then-eq-ok, ok_injective}
use bell_markets.Bytes.{Bytes}
use bell_markets.Database.{find, upserted}
use bell_markets.Database.Upsert.{find-upsert, find-upsert_other}
use bell_markets.Leaderboard.{LeaderboardEntry, LeaderboardMerkleTree}
use bell_markets.Payouts.Rows.{
  DistributionRow, RewardTables, has_place, coalesce, insert_distribution,
}
use bell_markets.Payouts.Period.{
  record_outcome, payment, DistributeForPeriodDeps, PositionOutcome, Paid, amount_at, row_of,
  rolled_outcome, entry_outcome, pay_position, pay_positions, proof_of,
}

abbrev set_tx_sig : Option Bytes → DistributionRow → DistributionRow
set_tx_sig tx_sig row = record row { tx_sig = coalesce tx_sig row.tx_sig }

find-insert_distribution :
    (input : DistributionRow) (tables : RewardTables)
    → find
        (has_place input.snapshot_id input.position)
        (insert_distribution input tables).0.distributions
      ≡ some (
          upserted
            (set_tx_sig input.tx_sig)
            (record input { id = tables.next_distribution_id })
            (find (has_place input.snapshot_id input.position) tables.distributions))
unfolding insert_distribution
find-insert_distribution input tables =
    find-upsert (has_place input.snapshot_id input.position) (set_tx_sig input.tx_sig)
      (record input { id = tables.next_distribution_id }) (λ row hit. hit) (ground arith)
      tables.distributions

place_apart :
    (snapshot_id position other : ℕ) (row : DistributionRow)
    → position ≢ other
    → has_place snapshot_id position row ≡ true
    → has_place snapshot_id other row ≡ false
place_apart snapshot_id position other row differ hit = ground arith

find-insert_distribution_other :
    (input : DistributionRow) (other : ℕ) (tables : RewardTables)
    → input.position ≢ other
    → find (has_place input.snapshot_id other) (insert_distribution input tables).0.distributions
      ≡ find (has_place input.snapshot_id other) tables.distributions
unfolding insert_distribution
find-insert_distribution_other input other tables differ =
    let apart =
      λ (row : DistributionRow) (hit : has_place input.snapshot_id input.position row ≡ true).
        place_apart input.snapshot_id input.position other row differ hit in
    find-upsert_other (has_place input.snapshot_id input.position) (set_tx_sig input.tx_sig)
      (record input { id = tables.next_distribution_id }) (has_place input.snapshot_id other) apart
      apart (ground arith) tables.distributions

-- The place has a row, which holds the signature of the payment if there is one.
abbrev pub IsRecorded : RewardTables → ℕ → ℕ → PositionOutcome → Type 0
IsRecorded tables snapshot_id position outcome =
    (row : DistributionRow) × (find (has_place snapshot_id position) tables.distributions
      ≡ some row)
    × ((outcome.tx_sig ≡ none) ⊎ (row.tx_sig ≡ outcome.tx_sig))

-- The outcomes of the positions behind `i` are recorded.
abbrev pub AreRecorded : RewardTables → ℕ → ℕ → List PositionOutcome → Type 0
AreRecorded tables snapshot_id i [] = Unit
AreRecorded tables snapshot_id i (outcome ∷ outcomes) =
    IsRecorded tables snapshot_id (i + 1) outcome × AreRecorded tables snapshot_id (i + 1) outcomes

upserted-tx_sig :
    (input : DistributionRow) (id : ℕ) (before : Option DistributionRow)
    → (input.tx_sig ≡ none)
      ⊎ ((upserted (set_tx_sig input.tx_sig) (record input { id = id }) before).tx_sig
          ≡ input.tx_sig)
upserted-tx_sig input id none = inr refl
upserted-tx_sig input id (some row) = ground arith

insert_distribution-IsRecorded :
    (snapshot_id : ℕ) (outcome : PositionOutcome) (proof : Option (List (List ℕ)))
    (tables : RewardTables)
    → IsRecorded
        (insert_distribution (row_of snapshot_id outcome proof) tables).0
        snapshot_id
        outcome.position
        outcome
insert_distribution-IsRecorded snapshot_id outcome proof tables =
    let input = row_of snapshot_id outcome proof in
    let before = find (has_place snapshot_id outcome.position) tables.distributions in
    (
      upserted (set_tx_sig input.tx_sig) (record input { id = tables.next_distribution_id }) before,
      find-insert_distribution input tables,
      upserted-tx_sig input tables.next_distribution_id before,
    )

-- Recording does not throw.
pub record_outcome-eq :
    (snapshot_id : ℕ) (outcome : PositionOutcome) (proof : Option (List (List ℕ)))
    (tables : RewardTables)
    → record_outcome snapshot_id outcome proof tables
      ≡ ((insert_distribution (row_of snapshot_id outcome proof) tables).0, ok outcome)
unfolding insert_distribution
record_outcome-eq snapshot_id outcome proof tables =
    rw (find-insert_distribution (row_of snapshot_id outcome proof) tables) refl

recorded_same :
    (snapshot_id : ℕ) (paid : PositionOutcome) (proof : Option (List (List ℕ)))
    (tables : RewardTables) {outcome : PositionOutcome}
    → (record_outcome snapshot_id paid proof tables).1 ≡ ok outcome
    → paid ≡ outcome
recorded_same snapshot_id paid proof tables e =
    ok_injective _ e (ap (λ ran. ran.1) (record_outcome-eq snapshot_id paid proof tables))

module _ (deps : DistributeForPeriodDeps) (snapshot_id : ℕ)
    (tree : Option LeaderboardMerkleTree) where
  -- What a turn does, in the words of its insertion.
  turn-eq :
      (position amount_cents : ℕ) (entry : Option LeaderboardEntry) (tables : RewardTables)
      {outcome : PositionOutcome}
      → (pay_position deps snapshot_id tree position amount_cents entry tables).1 ≡ ok outcome
      → (proof : Option (List (List ℕ))) × (pay_position deps snapshot_id tree position amount_cents
            entry tables
          ≡ ((insert_distribution (row_of snapshot_id outcome proof) tables).0, ok outcome))
        × (outcome.position ≡ position)
  unfolding pay_position
  turn-eq position amount_cents none tables e =
      let paid = rolled_outcome position amount_cents in
      let same = recorded_same snapshot_id paid none tables e in
      (
        none,
        record_outcome-eq snapshot_id paid none tables
            ∙ ap (λ o. ((insert_distribution (row_of snapshot_id o none) tables).0, ok o)) same,
        sym (ap (λ (o : PositionOutcome). o.position) same),
      )
  turn-eq position amount_cents (some entry) tables e =
      let (proof, proves, run) = and_then-eq-ok (tables, proof_of tree position) _ e in
      let rest = sym (ap (λ ran. ran.1) run) ∙ e in
      let paid =
        entry_outcome position amount_cents entry
          (payment deps position amount_cents entry proof) in
      let same = recorded_same snapshot_id paid (some proof) tables rest in
      (
        some proof,
        run
            ∙ record_outcome-eq snapshot_id paid (some proof) tables
            ∙ ap (λ o. ((insert_distribution (row_of snapshot_id o (some proof)) tables).0, ok o))
                same,
        sym (ap (λ (o : PositionOutcome). o.position) same),
      )

  -- A turn records its outcome.
  pay_position-IsRecorded :
      (position amount_cents : ℕ) (entry : Option LeaderboardEntry) (tables : RewardTables)
      {outcome : PositionOutcome}
      → (pay_position deps snapshot_id tree position amount_cents entry tables).1 ≡ ok outcome
      → IsRecorded
          (pay_position deps snapshot_id tree position amount_cents entry tables).0
          snapshot_id
          position
          outcome
  pay_position-IsRecorded position amount_cents entry tables {outcome} e =
      let (proof, run, at) = turn-eq position amount_cents entry tables e in
      rw run (
        subst
          (λ p.
            IsRecorded (insert_distribution (row_of snapshot_id outcome proof) tables).0 snapshot_id
              p outcome)
          at (insert_distribution-IsRecorded snapshot_id outcome proof tables))

  -- A turn leaves the other places alone.
  pay_position-other :
      (position other amount_cents : ℕ) (entry : Option LeaderboardEntry) (tables : RewardTables)
      {outcome : PositionOutcome}
      → (pay_position deps snapshot_id tree position amount_cents entry tables).1 ≡ ok outcome
      → position ≢ other
      → find
          (has_place snapshot_id other)
          (pay_position deps snapshot_id tree position amount_cents entry tables).0.distributions
        ≡ find (has_place snapshot_id other) tables.distributions
  pay_position-other position other amount_cents entry tables {outcome} e differ =
      let (proof, run, at) = turn-eq position amount_cents entry tables e in
      rw run (
        find-insert_distribution_other (row_of snapshot_id outcome proof) other tables
          (λ same. differ (sym at ∙ same)))

  module _ (entries : List LeaderboardEntry) (amounts : List ℕ) where
    -- The turns from the index `i` on leave the places up to `i` alone.
    pay_positions-other :
        (i left other : ℕ) (tables : RewardTables) {paid : Paid}
        → (pay_positions deps snapshot_id tree entries amounts i left tables).1 ≡ ok paid
        → other ≤ i
        → find
            (has_place snapshot_id other)
            (pay_positions deps snapshot_id tree entries amounts i left tables).0.distributions
          ≡ find (has_place snapshot_id other) tables.distributions
    unfolding pay_positions
    pay_positions-other i zero other tables e low = refl
    pay_positions-other i (suc left) other tables e low =
        let entry = get_elem? entries i in
        let amount_cents = amount_at amounts i in
        let turn = pay_position deps snapshot_id tree (i + 1) amount_cents entry tables in
        let (outcome, pays, run) = and_then-eq-ok turn _ e in
        let rest = sym (ap (λ ran. ran.1) run) ∙ e in
        let later_run = pay_positions deps snapshot_id tree entries amounts (i + 1) left turn.0 in
        let (paid, later, last) = and_then-eq-ok later_run _ rest in
        rw (run, last)
          (pay_positions-other (i + 1) left other turn.0 later (omega arith)
            ∙ pay_position-other (i + 1) other amount_cents entry tables pays (omega arith))

    pub pay_positions-AreRecorded :
        (i left : ℕ) (tables : RewardTables) {paid : Paid}
        → (pay_positions deps snapshot_id tree entries amounts i left tables).1 ≡ ok paid
        → AreRecorded
            (pay_positions deps snapshot_id tree entries amounts i left tables).0
            snapshot_id
            i
            paid.per_position
    unfolding pay_positions
    pay_positions-AreRecorded i zero tables e =
        subst (λ p. AreRecorded tables snapshot_id i p.per_position) (ok_injective _ e refl) tt
    pay_positions-AreRecorded i (suc left) tables e =
        let entry = get_elem? entries i in
        let amount_cents = amount_at amounts i in
        let turn = pay_position deps snapshot_id tree (i + 1) amount_cents entry tables in
        let (outcome, pays, run) = and_then-eq-ok turn _ e in
        let rest = sym (ap (λ ran. ran.1) run) ∙ e in
        let later_run = pay_positions deps snapshot_id tree entries amounts (i + 1) left turn.0 in
        let (paid, later, last) = and_then-eq-ok later_run _ rest in
        let (row, reads, signed) = pay_position-IsRecorded (i + 1) amount_cents entry tables pays in
        rw (run, last)
          (subst (λ p. AreRecorded later_run.0 snapshot_id i p.per_position)
            (ok_injective _ rest (ap (λ ran. ran.1) last))
            (
              (
                row,
                pay_positions-other (i + 1) left (i + 1) turn.0 later (omega arith) ∙ reads,
                signed,
              ),
              pay_positions-AreRecorded (i + 1) left turn.0 later,
            ))
