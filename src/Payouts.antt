-- ===== src/Payouts.antt =====
-- services/automation/src/indexer/distribute.ts: how the reward pool of a period is paid to the ten best of
-- its leaderboard. The pool is a whole number of cents; the quotients that the code rounds are
-- exact here.
pub mod Tiebreaker
pub mod Amounts
pub mod Rows
pub mod Period
pub mod Run
pub mod Recorded
pub mod Outcomes
pub mod Paid
use bell_markets.Prelude.{
  ℕ, zero, suc, ◌+◌, ◌*◌, ◌/◌, Bool, ◌&&◌, List, [], ◌∷◌, ◌++◌, length, take, drop, map, ltb, ◌==◌,
  if◌then◌else◌,
}
use bell_markets.Leaderboard.{LeaderboardEntry}
use bell_markets.Distribution.{default_distribution_bps}
use bell_markets.Grid.{round_ratio}

-- The test of the inner loop of `applyDeterministicTiebreaker`.
abbrev pub is_tied : LeaderboardEntry → LeaderboardEntry → Bool
is_tied head peek =
    (peek.current_streak == head.current_streak)
    && (peek.total_markets_traded == head.total_markets_traded)

-- How many entries behind the head are tied with it: the inner loop's final `j`, less `i + 1`.
unfoldable pub tied_count : LeaderboardEntry → List LeaderboardEntry → ℕ
tied_count head [] = 0
tied_count head (peek ∷ entries) =
    let more = tied_count head entries in if is_tied head peek then suc more else 0

-- `if (group.length > 1) out.push(...shuffle([...group])) else out.push(...group)`
abbrev pub break_ties :
    (List LeaderboardEntry → List LeaderboardEntry) → List LeaderboardEntry → List LeaderboardEntry
break_ties shuffle group = if ltb 1 (length group) then shuffle group else group

-- The outer loop, with the number of its turns bounded by `fuel`.
unfoldable pub tiebreak_from :
    (List LeaderboardEntry → List LeaderboardEntry)
    → ℕ
    → List LeaderboardEntry
    → List LeaderboardEntry
tiebreak_from shuffle zero entries = []
tiebreak_from shuffle (suc fuel) [] = []
tiebreak_from shuffle (suc fuel) (head ∷ entries) =
    break_ties shuffle (head ∷ take (tied_count head entries) entries)
    ++ tiebreak_from shuffle fuel (drop (tied_count head entries) entries)

-- `applyDeterministicTiebreaker`: a turn takes an entry at least.
unfoldable pub apply_deterministic_tiebreaker :
    (List LeaderboardEntry → List LeaderboardEntry) → List LeaderboardEntry → List LeaderboardEntry
apply_deterministic_tiebreaker shuffle entries = tiebreak_from shuffle (length entries) entries

-- `positionAmounts[i]` in cents: `(Math.floor(pool * bps) / 10000).toFixed(2)`.
unfoldable pub position_cents : ℕ → ℕ → ℕ
position_cents pool_cents bps = round_ratio (pool_cents * bps / 100) 100

-- `positionAmounts`, in cents.
unfoldable pub position_amounts : ℕ → List ℕ
position_amounts pool_cents = map (position_cents pool_cents) default_distribution_bps
