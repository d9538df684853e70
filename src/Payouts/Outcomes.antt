-- ===== src/Payouts/Outcomes.antt =====
-- How the payment of a place went: what its outcome says.
use bell_markets.Prelude.{
  ℕ, zero, suc, ◌+◌, ◌*◌, ◌≡◌, ◌≢◌, ◌⊎◌, inl, inr, refl, sym, ap, ap₂, ◌∙◌, subst, List, [], ◌∷◌,
  Option, none, some, get_elem?, map,
}
use bell_markets.Prelude.Result.{ok, and_then-eq-ok, ok_injective}
use bell_markets.Bytes.{Bytes}
use bell_markets.Leaderboard.{LeaderboardEntry, LeaderboardMerkleTree}
use bell_markets.Payouts.Amounts.{sum}
use bell_markets.Payouts.Rows.{RewardTables, insert_distribution}
use bell_markets.Payouts.Period.{
  DistributeForPeriodDeps, PositionOutcome, Paid, amount_at, rolled, rolled_over, errored,
  distributed, status_of, payment, pay_position, pay_positions, proof_of,
}

-- A place behind the last entry rolls its amount over.
pub record IsRolledOver (position amount_cents : ℕ) (outcome : PositionOutcome) : Type 0 where
  pub position_is : outcome.position ≡ position
  pub nobody : outcome.user_pubkey ≡ none
  pub amount : outcome.amount_cents ≡ amount_cents
  pub status_is : outcome.status ≡ rolled_over
  pub unsigned : outcome.tx_sig ≡ none

module _ (deps : DistributeForPeriodDeps) (tree : Option LeaderboardMerkleTree) where
  -- The place of an entry: the payment of the whole amount, in base units, to the entry's user, with
  -- the tree's proof for the place, answered the outcome's signature or failed.
  pub record IsPaidOut (entry : LeaderboardEntry) (position amount_cents : ℕ)
      (outcome : PositionOutcome) : Type 0 where
    pub position_is : outcome.position ≡ position
    pub holder : outcome.user_pubkey ≡ some entry.user_pubkey
    pub amount : outcome.amount_cents ≡ amount_cents
    pub proof : List (List ℕ)
    pub proves : proof_of tree position ≡ ok proof
    pub answered :
        deps.distribute_rewards (record {
          period_kind = deps.period.kind;
          period_id = deps.period.id;
          recipient = entry.user_pubkey;
          position = position;
          amount_base_units = amount_cents * 10000;
          merkle_proof_hex = proof;
        })
        ≡ outcome.tx_sig
    pub status_is :
        (outcome.tx_sig ≡ none) × (outcome.status ≡ errored)
        ⊎ (outcome.tx_sig ≢ none) × (outcome.status ≡ distributed)

  -- The outcome of a position says who holds it and how the payment went.
  abbrev pub IsOutcomeOf : Option LeaderboardEntry → ℕ → ℕ → PositionOutcome → Type 0
  IsOutcomeOf none position amount_cents outcome = IsRolledOver position amount_cents outcome
  IsOutcomeOf (some entry) position amount_cents outcome =
      IsPaidOut entry position amount_cents outcome

  amount_of :
      (entry : Option LeaderboardEntry) (position amount_cents : ℕ) (outcome : PositionOutcome)
      → IsOutcomeOf entry position amount_cents outcome
      → outcome.amount_cents ≡ amount_cents
  amount_of none position amount_cents outcome is = is.amount
  amount_of (some entry) position amount_cents outcome is = is.amount

  status_of-cases :
      (tx_sig : Option Bytes)
      → (tx_sig ≡ none) × (status_of tx_sig ≡ errored)
        ⊎ (tx_sig ≢ none) × (status_of tx_sig ≡ distributed)
  status_of-cases none = inl (refl, refl)
  status_of-cases (some sig) = inr ((λ e. cc), refl)

  pay_position-IsOutcomeOf :
      (snapshot_id position amount_cents : ℕ) (entry : Option LeaderboardEntry)
      (tables : RewardTables) {outcome : PositionOutcome}
      → (pay_position deps snapshot_id tree position amount_cents entry tables).1 ≡ ok outcome
      → IsOutcomeOf entry position amount_cents outcome
  unfolding pay_position
  pay_position-IsOutcomeOf snapshot_id position amount_cents none tables e =
      let (id, inserts, run) = and_then-eq-ok (insert_distribution _ tables) _ e in
      subst (IsRolledOver position amount_cents) (ok_injective _ e (ap (λ ran. ran.1) run))
        (record {
          position_is = refl;
          nobody = refl;
          amount = refl;
          status_is = refl;
          unsigned = refl;
        })
  pay_position-IsOutcomeOf snapshot_id position amount_cents (some entry) tables e =
      let (proof, proves, run) = and_then-eq-ok (tables, proof_of tree position) _ e in
      let rest = sym (ap (λ ran. ran.1) run) ∙ e in
      let (id, inserts, last) = and_then-eq-ok (insert_distribution _ tables) _ rest in
      subst (IsPaidOut entry position amount_cents) (ok_injective _ rest (ap (λ ran. ran.1) last))
        (record {
          position_is = refl;
          holder = refl;
          amount = refl;
          proof = proof;
          proves = proves;
          answered = refl;
          status_is = status_of-cases (payment deps position amount_cents entry proof);
        })

module _ (deps : DistributeForPeriodDeps) (tree : Option LeaderboardMerkleTree)
    (entries : List LeaderboardEntry) (amounts : List ℕ) where
  -- The outcomes of the positions from the index `i` on.
  abbrev pub AreOutcomes : ℕ → ℕ → List PositionOutcome → Type 0
  AreOutcomes i zero [] = Unit
  AreOutcomes i zero (outcome ∷ outcomes) = ⊥
  AreOutcomes i (suc left) [] = ⊥
  AreOutcomes i (suc left) (outcome ∷ outcomes) =
      IsOutcomeOf deps tree (get_elem? entries i) (i + 1) (amount_at amounts i) outcome
      × AreOutcomes (i + 1) left outcomes

  -- The amounts of the positions without a winner.
  unfoldable pub unclaimed : ℕ → ℕ → ℕ
  unclaimed i zero = 0
  unclaimed i (suc left) =
      rolled (get_elem? entries i) (amount_at amounts i) + unclaimed (i + 1) left

  -- All the amounts of the positions.
  unfoldable pub amounts_from : ℕ → ℕ → ℕ
  amounts_from i zero = 0
  amounts_from i (suc left) = amount_at amounts i + amounts_from (i + 1) left

  pub sum-AreOutcomes :
      (i left : ℕ) (outcomes : List PositionOutcome)
      → AreOutcomes i left outcomes
      → sum (map (λ (o : PositionOutcome). o.amount_cents) outcomes) ≡ amounts_from i left
  unfolding amounts_from
  sum-AreOutcomes i zero [] _ = refl
  sum-AreOutcomes i zero (outcome ∷ outcomes) are = elim are [ ]
  sum-AreOutcomes i (suc left) [] are = elim are [ ]
  sum-AreOutcomes i (suc left) (outcome ∷ outcomes) (is, are) =
      ap₂ ◌+◌ (amount_of deps tree (get_elem? entries i) (i + 1) (amount_at amounts i) outcome is)
        (sum-AreOutcomes (i + 1) left outcomes are)

module _ (deps : DistributeForPeriodDeps) (snapshot_id : ℕ) (tree : Option LeaderboardMerkleTree)
    (entries : List LeaderboardEntry) (amounts : List ℕ) where
  pub pay_positions-AreOutcomes :
      (i left : ℕ) (tables : RewardTables) {paid : Paid}
      → (pay_positions deps snapshot_id tree entries amounts i left tables).1 ≡ ok paid
      → AreOutcomes deps tree entries amounts i left paid.per_position
        × (paid.rolled_over_cents ≡ unclaimed deps tree entries amounts i left)
  unfolding pay_positions unclaimed
  pay_positions-AreOutcomes i zero tables e =
      subst
        (λ p.
          AreOutcomes deps tree entries amounts i zero p.per_position × (p.rolled_over_cents ≡ 0))
        (ok_injective _ e refl) (tt, refl)
  pay_positions-AreOutcomes i (suc left) tables e =
      let entry = get_elem? entries i in
      let amount_cents = amount_at amounts i in
      let (outcome, pays, run) =
        and_then-eq-ok (pay_position deps snapshot_id tree (i + 1) amount_cents entry tables) _ e in
      let rest = sym (ap (λ ran. ran.1) run) ∙ e in
      let (paid, later, last) =
        and_then-eq-ok (pay_positions deps snapshot_id tree entries amounts (i + 1) left _) _
          rest in
      let (outcomes, sums) = pay_positions-AreOutcomes (i + 1) left _ later in
      subst
        (λ p.
          AreOutcomes deps tree entries amounts i (suc left) p.per_position
          × (p.rolled_over_cents
              ≡ rolled entry amount_cents + unclaimed deps tree entries amounts (i + 1) left))
        (ok_injective _ rest (ap (λ ran. ran.1) last))
        (
          (
            pay_position-IsOutcomeOf deps tree snapshot_id (i + 1) amount_cents entry tables pays,
            outcomes,
          ),
          ap (λ n. rolled entry amount_cents + n) sums,
        )
