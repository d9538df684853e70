-- ===== src/Distribution/Places.antt =====
-- Which user a rank of a metric pays, what, and with which answer.
use bell_markets.Prelude.{
  ℕ, zero, suc, ◌+◌, ◌*◌, ◌/◌, ◌≡◌, refl, subst, ap, ap₂, ◌∙◌, true, false, List, [], ◌∷◌, Option,
  none, some, get_elem?, arith,
}
use bell_markets.Prelude.Result.{ok, ok_injective, >>=-eq-ok}
use bell_markets.MetricTree.{MultiMetricMerkleTree}
use bell_markets.Distribution.{
  MetricId, MetricLeaderboardEntry, MultiMetricDistributePosition, Status, rolled_over, distributed,
  stubbed, errored, distribution_bps, position_amount, assign_from, assign_amounts_to_ranks,
}
use bell_markets.Distribution.Run.{
  DistributeAnswer, paid, refused, MultiMetricDistributeDeps, status_of, proof_of, Turn, Payout,
  pay_position, pay_ranks,
}

abbrev pub sum_amounts : List MultiMetricDistributePosition → ℕ
sum_amounts [] = 0
sum_amounts (p ∷ positions) = p.amount_base_units + sum_amounts positions

-- The amount of a position that rolled over, and zero for any other.
abbrev pub rolled_amount : Status → ℕ → ℕ
rolled_amount rolled_over n = n
rolled_amount distributed n = 0
rolled_amount errored n = 0
rolled_amount stubbed n = 0

abbrev pub sum_rolled : List MultiMetricDistributePosition → ℕ
sum_rolled [] = 0
sum_rolled (p ∷ positions) = rolled_amount p.status p.amount_base_units + sum_rolled positions

-- The share of a rank of a metric's balance.
abbrev pub share_of : ℕ → ℕ → ℕ
share_of balance i = balance * distribution_bps i / 10000

abbrev pub sum_shares : ℕ → ℕ → ℕ → ℕ
sum_shares pool i zero = 0
sum_shares pool i (suc left) = share_of pool i + sum_shares pool (i + 1) left

-- How a status answers the call of the program.
abbrev pub Answers : DistributeAnswer → Status → Type 0
Answers paid status = status ≡ distributed
Answers (refused true) status = status ≡ stubbed
Answers (refused false) status = status ≡ errored

-- A rank behind the last line of the leaderboard.
pub record IsUnclaimed (position : MultiMetricDistributePosition) : Type 0 where
  pub nobody : position.user_pubkey ≡ none
  pub status_is : position.status ≡ rolled_over

module _ (deps : MultiMetricDistributeDeps) (tree : Option MultiMetricMerkleTree)
    (metric : MetricId) where
  -- A rank with a line of the leaderboard: the program was called to pay its user the amount of the
  -- position, with the tree's proof for the metric and the rank, and the status is its answer.
  pub record IsCalled (line : MetricLeaderboardEntry) (position : MultiMetricDistributePosition)
      : Type 0 where
    pub holder : position.user_pubkey ≡ some line.recipient
    pub proof : List (List ℕ)
    pub proves : proof_of tree metric position.rank ≡ ok proof
    pub answer : DistributeAnswer
    pub called :
        deps.distribute_rewards (record {
          metric_id = metric;
          recipient = line.recipient;
          position = position.rank;
          amount_base_units = position.amount_base_units;
          merkle_proof_hex = proof;
        })
        ≡ ok answer
    pub status_is : Answers answer position.status

  abbrev pub IsHeldBy : Option MetricLeaderboardEntry → MultiMetricDistributePosition → Type 0
  IsHeldBy none position = IsUnclaimed position
  IsHeldBy (some line) position = IsCalled line position

  -- The position at the index `i`, of the line that the leaderboard has there.
  pub record IsPlace (pool i : ℕ) (line : Option MetricLeaderboardEntry)
      (position : MultiMetricDistributePosition) : Type 0 where
    pub metric_is : position.metric_id ≡ metric
    pub ranked : position.rank ≡ i + 1
    pub share : position.amount_base_units ≡ share_of pool i
    pub held : IsHeldBy line position

  module _ (pool : ℕ) (leaderboard : List MetricLeaderboardEntry) where
    -- The positions of a metric from the index `i` on.
    abbrev pub ArePlaces : ℕ → ℕ → List MultiMetricDistributePosition → Type 0
    ArePlaces i zero [] = Unit
    ArePlaces i zero (p ∷ positions) = ⊥
    ArePlaces i (suc left) [] = ⊥
    ArePlaces i (suc left) (p ∷ positions) =
        IsPlace pool i (get_elem? leaderboard i) p × ArePlaces (i + 1) left positions

    pub sum-ArePlaces :
        (i left : ℕ) (positions : List MultiMetricDistributePosition)
        → ArePlaces i left positions
        → sum_amounts positions ≡ sum_shares pool i left
    sum-ArePlaces i zero [] _ = refl
    sum-ArePlaces i zero (p ∷ positions) are = elim are [ ]
    sum-ArePlaces i (suc left) [] are = elim are [ ]
    sum-ArePlaces i (suc left) (p ∷ positions) (is, are) =
        ap₂ ◌+◌ is.share (sum-ArePlaces (i + 1) left positions are)

-- The line of the leaderboard at an index, with the share that it is assigned.
abbrev assigned : ℕ → ℕ → Option MetricLeaderboardEntry → Option MetricLeaderboardEntry
assigned pool i none = none
assigned pool i (some line) = some (record {
  recipient = line.recipient;
  rank = line.rank;
  amount_base_units = position_amount pool i;
})

get_elem?-assign_from :
    (pool k i : ℕ) (entries : List MetricLeaderboardEntry)
    → get_elem? (assign_from pool k entries) i ≡ assigned pool (k + i) (get_elem? entries i)
unfolding assign_from
get_elem?-assign_from pool k i [] = refl
get_elem?-assign_from pool k zero (entry ∷ entries) =
    ap (λ j. assigned pool j (some entry)) (omega arith)
get_elem?-assign_from pool k (suc i) (entry ∷ entries) =
    get_elem?-assign_from pool (k + 1) i entries
    ∙ ap (λ j. assigned pool j (get_elem? entries i)) (omega arith)

get_elem?-assigned :
    (pool i : ℕ) (entries : List MetricLeaderboardEntry)
    → get_elem? (assign_from pool 0 entries) i ≡ assigned pool i (get_elem? entries i)
get_elem?-assigned pool i entries =
    get_elem?-assign_from pool 0 i entries
    ∙ ap (λ j. assigned pool j (get_elem? entries i)) (omega arith)

status_of-Answers : (answer : DistributeAnswer) → Answers answer (status_of answer)
status_of-Answers paid = refl
status_of-Answers (refused true) = refl
status_of-Answers (refused false) = refl

status_of-rolled : (answer : DistributeAnswer) (n : ℕ) → rolled_amount (status_of answer) n ≡ 0
status_of-rolled paid n = refl
status_of-rolled (refused true) n = refl
status_of-rolled (refused false) n = refl

module _ (deps : MultiMetricDistributeDeps) (tree : Option MultiMetricMerkleTree)
    (metric : MetricId) (pool : ℕ) where
  -- A turn of the inner loop records its place, and rolls over what that says.
  abbrev IsTurn : ℕ → Option MetricLeaderboardEntry → Turn → Type 0
  IsTurn i line turn =
      IsPlace deps tree metric pool i line turn.position
      × (rolled_amount turn.position.status turn.position.amount_base_units ≡ turn.rolled)

  pay_position-IsTurn :
      (i : ℕ) (line : Option MetricLeaderboardEntry) {turn : Turn}
      → pay_position deps tree metric pool i (assigned pool i line) ≡ ok turn
      → IsTurn i line turn
  unfolding pay_position
  pay_position-IsTurn i none e = subst (IsTurn i none) (ok_injective _ e refl) (
    record {
      metric_is = refl;
      ranked = refl;
      share = refl;
      held = record { nobody = refl; status_is = refl };
    },
    refl,
  )
  pay_position-IsTurn i (some line) e =
      let (proof, proves, e1) = >>=-eq-ok (proof_of tree metric (i + 1)) _ e in
      let (answer, called, e2) = >>=-eq-ok (deps.distribute_rewards _) _ e1 in
      subst (IsTurn i (some line)) (ok_injective _ e2 refl) (
        record {
          metric_is = refl;
          ranked = refl;
          share = refl;
          held = record {
            holder = refl;
            proof = proof;
            proves = proves;
            answer = answer;
            called = called;
            status_is = status_of-Answers answer;
          };
        },
        status_of-rolled answer (position_amount pool i),
      )

  module _ (leaderboard : List MetricLeaderboardEntry) where
    abbrev ArePaid : ℕ → ℕ → Payout → Type 0
    ArePaid i left payout =
        ArePlaces deps tree metric pool leaderboard i left payout.per_position
        × (sum_rolled payout.per_position ≡ payout.rolled_over_base_units)

    pub pay_ranks-ArePaid :
        (i left : ℕ) {payout : Payout}
        → pay_ranks deps tree metric pool (assign_amounts_to_ranks leaderboard pool) i left
          ≡ ok payout
        → ArePaid i left payout
    unfolding pay_ranks assign_amounts_to_ranks
    pay_ranks-ArePaid i zero e = subst (ArePaid i zero) (ok_injective _ e refl) (tt, refl)
    pay_ranks-ArePaid i (suc left) e =
        let run = rw (get_elem?-assigned pool i leaderboard) at e in
        let (turn, first, e1) =
          >>=-eq-ok
            (pay_position deps tree metric pool i (assigned pool i (get_elem? leaderboard i))) _
            run in
        let (rest, later, e2) =
          >>=-eq-ok
            (pay_ranks deps tree metric pool (assign_amounts_to_ranks leaderboard pool) (i + 1)
              left)
            _ e1 in
        let (place, rolled) = pay_position-IsTurn i (get_elem? leaderboard i) first in
        let (places, sums) = pay_ranks-ArePaid (i + 1) left later in
        subst (ArePaid i (suc left)) (ok_injective _ e2 refl) ((place, places), ap₂ ◌+◌ rolled sums)
