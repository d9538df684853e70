-- ===== src/Payouts/Period.antt =====
-- `runDistributeForPeriod` of services/automation/src/indexer/distribute.ts. The query for the ten best, the
-- pool's balance, the upload, the commitment of the root, the payment and the shuffle are parameters;
-- what is logged is left out.
use bell_markets.Prelude.{
  ℕ, zero, suc, ◌+◌, List, [], ◌∷◌, Option, none, some, length, take, map, get_elem?,
}
use bell_markets.Prelude.Result.{Result, ok, throw, and_then}
use bell_markets.Prelude.Int.{pos}
use bell_markets.Bytes.{Bytes}
use bell_markets.Distribution.{cents_to_base_units}
use bell_markets.Leaderboard.{
  LeaderboardEntry, LeaderboardMerkleTree, LeaderboardError, build_leaderboard_merkle_tree,
  proof_for,
}
use bell_markets.Leaderboard.Leaf.{period_type_weekly, period_type_monthly}
use bell_markets.Payouts.Rows.{
  PeriodKind, weekly, monthly, LeaderboardSnapshot, DistributionRow, RewardTables, PayoutError,
  tree_failed, insert_snapshot, insert_distribution,
}

-- `periodKindToTypeCode`
abbrev pub period_kind_to_type_code : PeriodKind → ℕ
period_kind_to_type_code weekly = period_type_weekly
period_kind_to_type_code monthly = period_type_monthly

pub record PeriodInfo : Type 0 where
  pub kind : PeriodKind
  pub id : ℕ
  pub start : ℕ
  pub end : ℕ

-- `DistributeRewardsInput`; the metric is that of the absolute profit.
pub record DistributeRewardsInput : Type 0 where
  pub period_kind : PeriodKind
  pub period_id : ℕ
  pub recipient : List ℕ
  pub position : ℕ
  pub amount_base_units : ℕ
  pub merkle_proof_hex : List (List ℕ)

-- A signature, or `none` for `{ ok: false }`.
pub record DistributeForPeriodDeps : Type 0 where
  pub sha256 : Bytes → Bytes
  pub period : PeriodInfo
  pub top_entries : List LeaderboardEntry
  pub shuffle : List LeaderboardEntry → List LeaderboardEntry
  pub read_pool_balance : PeriodKind → Result PayoutError ℕ
  pub upload : Option (List ℕ) → List LeaderboardEntry → Result PayoutError Bytes
  pub commit_leaderboard_root : List ℕ → Bytes → Option Bytes
  pub distribute_rewards : DistributeRewardsInput → Option Bytes

pub data PayoutStatus : Type 0 where
  distributed rolled_over errored : PayoutStatus

pub record PositionOutcome : Type 0 where
  pub position : ℕ
  pub user_pubkey : Option (List ℕ)
  pub amount_cents : ℕ
  pub status : PayoutStatus
  pub tx_sig : Option Bytes

pub record Paid : Type 0 where
  pub per_position : List PositionOutcome
  pub rolled_over_cents : ℕ

abbrev or_zero : Option ℕ → ℕ
or_zero none = 0
or_zero (some n) = n

-- `positionAmounts[i] ?? "0.00"`
abbrev pub amount_at : List ℕ → ℕ → ℕ
amount_at amounts i = or_zero (get_elem? amounts i)

abbrev pub status_of : Option Bytes → PayoutStatus
status_of none = errored
status_of (some tx_sig) = distributed

abbrev tree_result : {A : Type 0} → Result LeaderboardError A → Result PayoutError A
tree_result (ok a) = ok a
tree_result (throw e) = throw (tree_failed e)

-- `tree ? tree.proofFor(position) : []`
abbrev pub proof_of : Option LeaderboardMerkleTree → ℕ → Result PayoutError (List (List ℕ))
proof_of none position = ok []
proof_of (some tree) position = tree_result (proof_for tree position)

-- The outcome of a position without an entry, and of one with it.
abbrev pub rolled_outcome : ℕ → ℕ → PositionOutcome
rolled_outcome position amount_cents = record {
  position = position;
  user_pubkey = none;
  amount_cents = amount_cents;
  status = rolled_over;
  tx_sig = none;
}

abbrev pub entry_outcome : ℕ → ℕ → LeaderboardEntry → Option Bytes → PositionOutcome
entry_outcome position amount_cents entry tx_sig = record {
  position = position;
  user_pubkey = some entry.user_pubkey;
  amount_cents = amount_cents;
  status = status_of tx_sig;
  tx_sig = tx_sig;
}

-- The row that an outcome is recorded as.
abbrev pub row_of : ℕ → PositionOutcome → Option (List (List ℕ)) → DistributionRow
row_of snapshot_id outcome merkle_proof = record {
  id = 0;
  snapshot_id = snapshot_id;
  position = outcome.position;
  user_pubkey = outcome.user_pubkey;
  amount_cents = outcome.amount_cents;
  tx_sig = outcome.tx_sig;
  merkle_proof = merkle_proof;
}

-- `insertDistribution`, then `perPosition.push`
abbrev pub record_outcome :
    ℕ
    → PositionOutcome
    → Option (List (List ℕ))
    → RewardTables
    → RewardTables × Result PayoutError PositionOutcome
record_outcome snapshot_id outcome proof tables =
    and_then (insert_distribution (row_of snapshot_id outcome proof) tables)
      (λ after id. (after, ok outcome))

-- What a position adds to `rolledOverCents`.
abbrev pub rolled : Option LeaderboardEntry → ℕ → ℕ
rolled none amount_cents = amount_cents
rolled (some entry) amount_cents = 0

module _ (deps : DistributeForPeriodDeps) where
  -- `distributeFn` for a position with an entry.
  abbrev pub payment : ℕ → ℕ → LeaderboardEntry → List (List ℕ) → Option Bytes
  payment position amount_cents entry proof = deps.distribute_rewards (record {
    period_kind = deps.period.kind;
    period_id = deps.period.id;
    recipient = entry.user_pubkey;
    position = position;
    amount_base_units = cents_to_base_units amount_cents;
    merkle_proof_hex = proof;
  })

  -- One turn of the loop over the positions, with the entry at the index.
  unfoldable pub pay_position :
      ℕ
      → Option LeaderboardMerkleTree
      → ℕ
      → ℕ
      → Option LeaderboardEntry
      → RewardTables
      → RewardTables × Result PayoutError PositionOutcome
  pay_position snapshot_id tree position amount_cents none tables =
      record_outcome snapshot_id (rolled_outcome position amount_cents) none tables
  pay_position snapshot_id tree position amount_cents (some entry) tables =
      and_then (tables, proof_of tree position)
        (λ same proof.
          record_outcome snapshot_id
            (entry_outcome position amount_cents entry (payment position amount_cents entry proof))
            (some proof) same)

  -- `left` turns of the loop, from the index `i` on.
  unfoldable pub pay_positions :
      ℕ
      → Option LeaderboardMerkleTree
      → List LeaderboardEntry
      → List ℕ
      → ℕ
      → ℕ
      → RewardTables
      → RewardTables × Result PayoutError Paid
  pay_positions snapshot_id tree entries amounts i zero tables =
      let nothing : Paid = record { per_position = []; rolled_over_cents = 0 } in
      (tables, ok nothing)
  pay_positions snapshot_id tree entries amounts i (suc left) tables =
      let entry = get_elem? entries i in
      let amount_cents = amount_at amounts i in
      and_then (pay_position snapshot_id tree (i + 1) amount_cents entry tables) (λ after outcome.
        and_then (pay_positions snapshot_id tree entries amounts (i + 1) left after) (λ final paid.
          let all : Paid = record {
            per_position = outcome ∷ paid.per_position;
            rolled_over_cents = rolled entry amount_cents + paid.rolled_over_cents;
          } in
          (final, ok all)))

  -- The tree over the winners, when there are any.
  unfoldable pub winners_tree :
      List LeaderboardEntry → List ℕ → Result PayoutError (Option LeaderboardMerkleTree)
  winners_tree [] amounts = ok none
  winners_tree (entry ∷ entries) amounts = some_tree (
      build_leaderboard_merkle_tree deps.sha256 (entry ∷ entries) (pos deps.period.id)
        (period_kind_to_type_code deps.period.kind)
        (map (λ cents. pos (cents_to_base_units cents)) (take (length (entry ∷ entries)) amounts)))
    where
      some_tree :
          Result LeaderboardError LeaderboardMerkleTree
          → Result PayoutError (Option LeaderboardMerkleTree)
      some_tree (ok tree) = ok (some tree)
      some_tree (throw e) = throw (tree_failed e)

  abbrev pub root_of : Option LeaderboardMerkleTree → Option (List ℕ)
  root_of none = none
  root_of (some tree) = some tree.root

  abbrev pub snapshot_input :
      Option (List ℕ) → Bytes → Option Bytes → List LeaderboardEntry → LeaderboardSnapshot
  snapshot_input root arweave_tx_id committed_tx_sig entries = record {
    id = 0;
    period_kind = deps.period.kind;
    period_id = deps.period.id;
    period_start = deps.period.start;
    period_end = deps.period.end;
    merkle_root = root;
    arweave_tx_id = some arweave_tx_id;
    committed_tx_sig = committed_tx_sig;
    participants_count = length entries;
    full_leaderboard_json = entries;
  }

  -- The commitment of a root, and the signature that is written back to the snapshot.
  unfoldable pub commit :
      Option (List ℕ)
      → Bytes
      → List LeaderboardEntry
      → RewardTables
      → RewardTables × Result PayoutError (Option Bytes)
  commit none arweave_tx_id entries tables = (tables, ok none)
  commit (some root) arweave_tx_id entries tables =
      committed (deps.commit_leaderboard_root root arweave_tx_id)
    where
      committed : Option Bytes → RewardTables × Result PayoutError (Option Bytes)
      committed none = (tables, ok none)
      committed (some tx_sig) =
          and_then
            (insert_snapshot (snapshot_input (some root) arweave_tx_id (some tx_sig) entries)
              tables)
            (λ after row. (after, ok (some tx_sig)))
