-- ===== src/Grid/Expanded.antt =====
-- The grid of strike-calc.ts, and what an expansion of the grid keeps.
use bell_markets.Prelude.{
  ℕ, ◌+◌, ◌*◌, ◌/◌, ◌<◌, ◌==◌, false, arith, ap₂, ◌≡◌, refl, ap, ◌∙◌, subst, ◌&&◌, ◌||◌, List, ◌++◌,
  ltb,
}
use native.Mathlib.Nat.{mul-div-mul_left}
use bell_markets.Grid.Strikes.{candidates, compute_strike_grid-eq}
use bell_markets.Prelude.Result.{ok, >>=-eq-ok, ok_injective, map_result}
use bell_markets.Grid.{
  round_ratio, unique_strikes, round_to_nearest, compute_strike_grid, expanded_strike_grid,
  strike_rounding_usd, compute_strikes_for_stock,
}
use bell_markets.Grid.Sets.{
  elem, filter, distinct, Ascending, elem-filter, elem-distinct, elem-sort, elem-append,
  sort-Ascending, distinct-Distinct, filter-Distinct,
}

-- A quotient that is extended by 100 rounds to the same number.
round_ratio-hundredths : (n d : ℕ) → 0 < d → round_ratio (n * 100) (100 * d) ≡ round_ratio n d
unfolding round_ratio
round_ratio-hundredths n d positive =
    ap₂ ◌/◌ {x = 2 * (n * 100) + 100 * d} {y = 100 * (2 * n + d)} (omega arith) (omega arith)
    ∙ mul-div-mul_left (2 * n + d) (2 * d) (omega arith)

-- For a close above 0, strike-calc.ts and ticker-config.ts with a tick of 10 dollars both return,
-- and the same strikes, although each has its own offsets and rounds the price itself in its own way.
pub compute_strikes_for_stock-eq_grid :
    (unit previous_close : ℕ)
    → 0 < unit
    → 0 < previous_close
    → (strikes : List ℕ) × (compute_strikes_for_stock unit previous_close ≡ ok strikes)
      × (compute_strike_grid unit previous_close strike_rounding_usd ≡ ok strikes)
unfolding compute_strikes_for_stock round_to_nearest map_result
compute_strikes_for_stock-eq_grid unit previous_close units positive =
    let close_test : (previous_close == 0) ≡ false = ground arith in
    let extended : 100 * unit * strike_rounding_usd ≡ 100 * (unit * strike_rounding_usd) =
      omega arith in
    let middle : round_ratio (previous_close * 100) (100 * unit * strike_rounding_usd)
        ≡ round_ratio previous_close (unit * strike_rounding_usd) =
      ap (round_ratio (previous_close * 100)) extended
      ∙ round_ratio-hundredths previous_close (unit * strike_rounding_usd) (omega (arith, units)) in
    (
      unique_strikes (candidates unit previous_close strike_rounding_usd),
      rw (close_test, middle) refl,
      compute_strike_grid-eq unit previous_close strike_rounding_usd positive (omega arith),
    )

-- What an expanded grid promises.
pub record IsExpanded (existing fresh expanded : List ℕ) : Type 0 where
  pub ascending : Ascending expanded
  pub is_union :
      (strike : ℕ)
      → elem strike expanded ≡ (ltb 0 strike && (elem strike existing || elem strike fresh))

-- Whenever an expanded grid is returned, so is the fresh grid around the new price, and the
-- expansion is ascending without repetition and holds exactly the existing and the fresh strikes
-- above 0: no existing strike is dropped.
pub expanded_strike_grid-IsExpanded :
    (unit new_spot tick_size : ℕ) (existing : List ℕ) {expanded : List ℕ}
    → expanded_strike_grid unit new_spot tick_size existing ≡ ok expanded
    → (fresh : List ℕ) × (compute_strike_grid unit new_spot tick_size ≡ ok fresh)
      × IsExpanded existing fresh expanded
unfolding expanded_strike_grid
expanded_strike_grid-IsExpanded unit new_spot tick_size existing e =
    let (fresh, is_fresh, returns) = >>=-eq-ok (compute_strike_grid unit new_spot tick_size) _ e in
    let union = distinct (existing ++ fresh) in
    (
      fresh,
      is_fresh,
      subst (IsExpanded existing fresh) (ok_injective _ returns refl) (record {
        ascending =
            sort-Ascending (filter (λ s. ltb 0 s) union)
              (filter-Distinct (λ s. ltb 0 s) union (distinct-Distinct (existing ++ fresh)));
        is_union = λ strike.
            elem-sort strike (filter (λ s. ltb 0 s) union)
            ∙ elem-filter (λ s. ltb 0 s) strike union
            ∙ ap (λ b. ltb 0 strike && b)
                (elem-distinct strike (existing ++ fresh) ∙ elem-append strike existing fresh);
      }),
    )
