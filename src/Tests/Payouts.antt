-- ===== src/Tests/Payouts.antt =====
-- A distribution of ten dollars to two tied winners, and the amounts of a pool of ten cents.
use bell_markets.Prelude.{
  ℕ, ◌≡◌, ◌≤◌, ◌+◌, refl, List, [], ◌∷◌, none, some, map, length, replicate, take, ◌==◌,
  if◌then◌else◌,
}
use bell_markets.Prelude.Result.{Result, ok}
use mathlib.Core.List.{Permᴰ}
use mathlib.Core.List.Permᴰ as Permᴰ
use bell_markets.Bytes.{copy_at, le_bytes, le_buffer, hex}
use bell_markets.Base58.{
  decode_pubkey, decode_bytes, digits_from, count_leading, base58_lookup, index_of, convert,
  mul_add, push_carry,
}
use bell_markets.Merkle.{layers_from, build_sorted_pair_tree_layers, generate_sorted_pair_proof}
use bell_markets.Leaderboard.{
  make_leaf, leaves_from, build_leaderboard_merkle_tree, proof_for, proof_bytes_for,
}
use bell_markets.Leaderboard.Leaf.{leaf_message, hash_leaf, recipient_bytes, is_position}
use bell_markets.Tests.Trees.{test_sha}
use bell_markets.Database.{find, upsert}
use bell_markets.Grid.{round_ratio}
use bell_markets.Leaderboard.{LeaderboardEntry}
use bell_markets.Payouts.{
  apply_deterministic_tiebreaker, tiebreak_from, tied_count, position_amounts, position_cents,
}
use bell_markets.Payouts.Tiebreaker.{rank, apply_deterministic_tiebreaker-Permᴰ}
use bell_markets.Payouts.Amounts.{sum, position_amounts-near_pool}
use bell_markets.Payouts.Rows.{weekly, RewardTables, insert_snapshot, insert_distribution}
use bell_markets.Payouts.Period.{
  DistributeForPeriodDeps, PositionOutcome, distributed, errored, rolled_over, pay_position,
  pay_positions, winners_tree, commit,
}
use bell_markets.Payouts.Run.{
  DistributeOutcome, pay_step, commit_step, snapshot_step, upload_step, tree_step,
  run_distribute_for_period,
}
use bell_markets.Payouts.Paid.{IsPayout, run_distribute_for_period-IsPayout}

abbrev test_entry : ℕ → ℕ → LeaderboardEntry
test_entry user streak = record {
  user_pubkey = user ∷ [];
  current_streak = streak;
  longest_streak = 9;
  total_markets_traded = 20;
  total_markets_won = 12;
}

abbrev swap_two : List LeaderboardEntry → List LeaderboardEntry
swap_two (a ∷ b ∷ rest) = b ∷ a ∷ rest
swap_two rest = rest

swap_two-Permᴰ : (group : List LeaderboardEntry) → Permᴰ (swap_two group) group
swap_two-Permᴰ (a ∷ b ∷ rest) = Permᴰ.swap refl refl
swap_two-Permᴰ (a ∷ []) = Permᴰ.refl (a ∷ [])
swap_two-Permᴰ [] = Permᴰ.nil

abbrev test_top : List LeaderboardEntry
test_top = test_entry 1 5 ∷ test_entry 2 5 ∷ test_entry 3 4 ∷ []

apply_deterministic_tiebreaker-Permᴰ_example :
    Permᴰ (apply_deterministic_tiebreaker swap_two test_top) test_top
    × (map rank (apply_deterministic_tiebreaker swap_two test_top) ≡ map rank test_top)
apply_deterministic_tiebreaker-Permᴰ_example =
    apply_deterministic_tiebreaker-Permᴰ swap_two swap_two-Permᴰ test_top

tiebreaker_test :
    apply_deterministic_tiebreaker swap_two test_top
    ≡ test_entry 2 5 ∷ test_entry 1 5 ∷ test_entry 3 4 ∷ []
unfolding apply_deterministic_tiebreaker tiebreak_from tied_count
tiebreaker_test = refl

position_amounts-near_pool_example :
    (length (position_amounts 10) ≡ 10)
    × (10 ≤ sum (position_amounts 10) + 5)
    × (sum (position_amounts 10) ≤ 10 + 5)
position_amounts-near_pool_example = position_amounts-near_pool 10

-- The positions of a pool of ten cents are promised twelve.
ten_cents_test : sum (position_amounts 10) ≡ 12
unfolding position_amounts position_cents round_ratio
ten_cents_test = refl

abbrev empty_tables : RewardTables
empty_tables = record {
  leaderboard_snapshots = [];
  next_snapshot_id = 1;
  distributions = [];
  next_distribution_id = 1;
}

abbrev paid_entry : ℕ → LeaderboardEntry
paid_entry streak = record {
  user_pubkey = replicate 32 49;
  current_streak = streak;
  longest_streak = 9;
  total_markets_traded = 20;
  total_markets_won = 12;
}

-- The first place is paid, the second one errors, and eight roll over.
abbrev test_deps : DistributeForPeriodDeps
test_deps = record {
  sha256 = test_sha;
  period = record { kind = weekly; id = 7; start = 0; end = 1 };
  top_entries = paid_entry 5 ∷ paid_entry 4 ∷ [];
  shuffle = swap_two;
  read_pool_balance = λ kind. ok 1000;
  upload = λ root entries. ok (9 ∷ []);
  commit_leaderboard_root = λ root tx_id. some (6 ∷ []);
  distribute_rewards = λ input. if input.position == 1 then some (8 ∷ []) else none;
}

abbrev value_of : {E A : Type 0} → Result E A → A → A
value_of (ok a) default = a
value_of e default = default

abbrev no_outcome : DistributeOutcome
no_outcome = record {
  snapshot = record {
    id = 0;
    period_kind = weekly;
    period_id = 0;
    period_start = 0;
    period_end = 0;
    merkle_root = none;
    arweave_tx_id = none;
    committed_tx_sig = none;
    participants_count = 0;
    full_leaderboard_json = [];
  };
  per_position = [];
  pool_balance_cents = 0;
  rolled_over_cents = 0;
  commit_tx_sig = none;
  arweave_tx_id = [];
}

abbrev test_outcome : DistributeOutcome
test_outcome = value_of (run_distribute_for_period test_deps empty_tables).1 no_outcome

paid_test : (run_distribute_for_period test_deps empty_tables).1 ≡ ok test_outcome
unfolding run_distribute_for_period tree_step upload_step snapshot_step commit_step pay_step
    winners_tree commit pay_positions pay_position insert_snapshot insert_distribution find upsert
    apply_deterministic_tiebreaker tiebreak_from tied_count position_amounts position_cents
    round_ratio build_leaderboard_merkle_tree leaves_from make_leaf hash_leaf recipient_bytes
    is_position decode_pubkey decode_bytes digits_from count_leading base58_lookup index_of convert
    mul_add push_carry build_sorted_pair_tree_layers layers_from proof_for proof_bytes_for
    leaf_message generate_sorted_pair_proof copy_at le_bytes le_buffer hex
paid_test = refl

-- The run returned: its first places are paid, errored and rolled over.
first_places_test :
    map (λ (o : PositionOutcome). o.status) (take 3 test_outcome.per_position)
    ≡ distributed ∷ errored ∷ rolled_over ∷ []
unfolding run_distribute_for_period tree_step upload_step snapshot_step commit_step pay_step
    winners_tree commit pay_positions pay_position insert_snapshot insert_distribution find upsert
    apply_deterministic_tiebreaker tiebreak_from tied_count position_amounts position_cents
    round_ratio build_leaderboard_merkle_tree leaves_from make_leaf hash_leaf recipient_bytes
    is_position decode_pubkey decode_bytes digits_from count_leading base58_lookup index_of convert
    mul_add push_carry build_sorted_pair_tree_layers layers_from proof_for proof_bytes_for
    leaf_message generate_sorted_pair_proof copy_at le_bytes le_buffer hex
first_places_test = refl

run_distribute_for_period-IsPayout_example :
    IsPayout test_deps (run_distribute_for_period test_deps empty_tables).0 test_outcome
run_distribute_for_period-IsPayout_example =
    run_distribute_for_period-IsPayout test_deps empty_tables test_outcome paid_test
