-- ===== src/Grid/Strikes.antt =====
-- The strikes around a price: where they lie, and what an expansion keeps.
use bell_markets.Prelude.{
  ℕ, ◌+◌, ◌*◌, ◌≤◌, ◌<◌, ◌≡◌, refl, ◌∙◌, arith, true, false, ◌&&◌, List, [], ◌∷◌, map, length, ltb,
  ◌==◌, All, ◌⊎◌, inl, inr, Bool-cases,
}
use bell_markets.Prelude.Result.{Result, ok, map_result}
use bell_markets.Grid.{
  GridError, round_ratio, round_to_tick, grid_percents, unique_strikes, compute_strike_grid,
}
use bell_markets.Grid.Rounding.{round_ratio_le, round_ratio_ge}
use bell_markets.Grid.Sets.{
  elem, filter, distinct, Ascending, elem-filter, elem-distinct, elem-sort, filter-All, All-filter,
  All-sort, All-distinct, sort-Ascending, distinct-Distinct, length-sort, length-distinct,
  length-filter,
}

map_result-eq :
    {A B : Type 0} (f : A → Result GridError B) (g : A → B) (xs : List A)
    → ((x : A) → f x ≡ ok (g x))
    → map_result f xs ≡ ok (map g xs)
unfolding map_result
map_result-eq f g [] h = refl
map_result-eq f g (x ∷ xs) h = rw (h x, map_result-eq f g xs h) refl

-- A candidate for a strike, in hundredths of the price.
abbrev pub candidate : ℕ → ℕ → ℕ → ℕ → ℕ
candidate unit cap_center tick_size percent =
    round_ratio (cap_center * percent) (100 * unit * tick_size) * tick_size

abbrev pub candidates : ℕ → ℕ → ℕ → List ℕ
candidates unit cap_center tick_size = map (candidate unit cap_center tick_size) grid_percents

round_to_tick-eq :
    (unit cap_center tick_size : ℕ)
    → 0 < tick_size
    → (percent : ℕ)
    → round_to_tick (cap_center * percent) (100 * unit) tick_size
      ≡ ok (candidate unit cap_center tick_size percent)
unfolding round_to_tick
round_to_tick-eq unit cap_center tick_size tick percent =
    let tick_test : (tick_size == 0) ≡ false = ground arith in rw tick_test refl

pub compute_strike_grid-eq :
    (unit cap_center tick_size : ℕ)
    → 0 < cap_center
    → 0 < tick_size
    → compute_strike_grid unit cap_center tick_size
      ≡ ok (unique_strikes (candidates unit cap_center tick_size))
unfolding compute_strike_grid
compute_strike_grid-eq unit cap_center tick_size cap tick =
    let cap_test : (cap_center == 0) ≡ false = ground arith in
    rw
      (
        cap_test,
        map_result-eq (λ percent. round_to_tick (cap_center * percent) (100 * unit) tick_size)
            (candidate unit cap_center tick_size) grid_percents
            (round_to_tick-eq unit cap_center tick_size tick),
      )
      refl

module _ (unit cap_center tick_size : ℕ) where
  -- Between 91% and 109% of the price, give or take half a tick.
  abbrev IsNear : ℕ → Type 0
  IsNear strike =
      (182 * cap_center ≤ 200 * unit * strike + 100 * unit * tick_size)
      × (200 * unit * strike ≤ 218 * cap_center + 100 * unit * tick_size)

  abbrev IsOnTick : ℕ → Type 0
  IsOnTick strike = (ticks : ℕ) × (strike ≡ ticks * tick_size)

  pub record IsGrid (grid : List ℕ) : Type 0 where
    pub ascending : Ascending grid
    pub positive : All (λ strike. 0 < strike) grid
    pub at_most_seven : length grid ≤ 7
    pub on_tick : All IsOnTick grid
    pub near : All IsNear grid
    pub at_money :
        (2 * cap_center ≤ unit * tick_size)
        ⊎ ((strike : ℕ) × (elem strike grid ≡ true)
            × (2 * unit * strike ≤ 2 * cap_center + unit * tick_size)
            × (2 * cap_center ≤ 2 * unit * strike + unit * tick_size))

  -- A strike is as far from its share of the price as the rounding takes it.
  candidate_le :
      (percent : ℕ)
      → 200 * unit * candidate unit cap_center tick_size percent
        ≤ 2 * (cap_center * percent) + 100 * unit * tick_size
  candidate_le percent =
      let bound = round_ratio_le (cap_center * percent) (100 * unit * tick_size) in grind arith

  candidate_ge :
      (percent : ℕ)
      → 0 < unit
      → 0 < tick_size
      → 2 * (cap_center * percent)
        ≤ 200 * unit * candidate unit cap_center tick_size percent + 100 * unit * tick_size
  candidate_ge percent some_units some_tick =
      let positive : 0 < 100 * unit * tick_size = grind arith in
      let bound = round_ratio_ge (cap_center * percent) (100 * unit * tick_size) positive in
      grind arith

  candidate-IsNear :
      (percent : ℕ)
      → 0 < unit
      → 0 < tick_size
      → 91 ≤ percent
      → percent ≤ 109
      → IsNear (candidate unit cap_center tick_size percent)
  candidate-IsNear percent some_units some_tick low high =
      let le = candidate_le percent in
      let ge = candidate_ge percent some_units some_tick in
      let above : cap_center * 91 ≤ cap_center * percent = grind arith in
      let below : cap_center * percent ≤ cap_center * 109 = grind arith in
      (grind arith, grind arith)

  candidates-All :
      (P : ℕ → Type 0)
      → ((percent : ℕ)
          → 91 ≤ percent
          → percent ≤ 109
          → P (candidate unit cap_center tick_size percent))
      → All P (candidates unit cap_center tick_size)
  candidates-All P h = (
    h 91 (omega arith) (omega arith),
    (
      h 94 (omega arith) (omega arith),
      (
        h 97 (omega arith) (omega arith),
        (
          h 103 (omega arith) (omega arith),
          (
            h 106 (omega arith) (omega arith),
            (h 109 (omega arith) (omega arith), (h 100 (omega arith) (omega arith), tt)),
          ),
        ),
      ),
    ),
  )

  at_money-positive :
      unit * tick_size < 2 * cap_center
      → 0 < unit
      → 0 < tick_size
      → 0 < candidate unit cap_center tick_size 100
  at_money-positive large some_units some_tick =
      let ge = candidate_ge 100 some_units some_tick in grind arith

-- What holds of all candidates holds of the strikes that are kept.
unique_strikes-All : (P : ℕ → Type 0) (xs : List ℕ) → All P xs → All P (unique_strikes xs)
unique_strikes-All P xs h =
    All-sort P (distinct (filter (λ s. ltb 0 s) xs))
      (All-distinct P (filter (λ s. ltb 0 s) xs) (All-filter P (λ s. ltb 0 s) xs h))

elem-unique_strikes : (y : ℕ) (xs : List ℕ) → elem y (unique_strikes xs) ≡ (ltb 0 y && elem y xs)
elem-unique_strikes y xs =
    elem-sort y (distinct (filter (λ s. ltb 0 s) xs))
    ∙ elem-distinct y (filter (λ s. ltb 0 s) xs)
    ∙ elem-filter (λ s. ltb 0 s) y xs

candidates-at_money :
    (unit cap_center tick_size : ℕ)
    → elem (candidate unit cap_center tick_size 100) (candidates unit cap_center tick_size) ≡ true
unfolding elem
candidates-at_money unit cap_center tick_size = ground arith

-- Around a price above 0, with a tick above 0, the grid is returned: at most seven strikes,
-- ascending without repetition, each above 0, a multiple of the tick, and between 91% and 109% of
-- the price give or take half a tick; when the price is more than half a tick, one of them is
-- within half a tick of it.
pub compute_strike_grid-IsGrid :
    (unit cap_center tick_size : ℕ)
    → 0 < unit
    → 0 < cap_center
    → 0 < tick_size
    → (grid : List ℕ) × (compute_strike_grid unit cap_center tick_size ≡ ok grid)
      × IsGrid unit cap_center tick_size grid
compute_strike_grid-IsGrid unit cap_center tick_size some_units cap tick =
    let all = candidates unit cap_center tick_size in
    let kept = filter (λ s. ltb 0 s) all in
    (
      unique_strikes all,
      compute_strike_grid-eq unit cap_center tick_size cap tick,
      record {
        ascending = sort-Ascending (distinct kept) (distinct-Distinct kept);
        positive =
            All-sort (λ s. 0 < s) (distinct kept)
              (All-distinct (λ s. 0 < s) kept
                (filter-All (λ s. 0 < s) (λ s. ltb 0 s) all (λ s h. ground arith)));
        at_most_seven = omega (
          arith,
          length-sort (distinct kept),
          length-distinct kept,
          length-filter (λ s. ltb 0 s) all,
        );
        on_tick = unique_strikes-All (IsOnTick unit cap_center tick_size) all (
            candidates-All unit cap_center tick_size (IsOnTick unit cap_center tick_size)
              (λ percent low high. (_, refl)));
        near = unique_strikes-All (IsNear unit cap_center tick_size) all (
            candidates-All unit cap_center tick_size (IsNear unit cap_center tick_size)
              (λ percent low high.
                candidate-IsNear unit cap_center tick_size percent some_units tick low high));
        at_money = elim (Bool-cases (ltb (unit * tick_size) (2 * cap_center))) [
          | inl large ↦
              let positive =
                at_money-positive unit cap_center tick_size (ground arith) some_units tick in
              let le = candidate_le unit cap_center tick_size 100 in
              let ge = candidate_ge unit cap_center tick_size 100 some_units tick in
              inr (
                candidate unit cap_center tick_size 100,
                elem-unique_strikes (candidate unit cap_center tick_size 100) all
                    ∙ rw (candidates-at_money unit cap_center tick_size) (ground arith),
                grind arith,
                grind arith,
              )
          | inr small ↦ inl (ground arith)
        ];
      },
    )
