-- ===== src/OrderBook/Fills.antt =====
-- What a plan of fills keeps: sizes add up, each fill is backed by its maker, and the cap holds.
use bell_markets.Prelude.{
  ℕ, zero, suc, ◌+◌, ◌-◌, ◌≤◌, ◌≡◌, refl, Bool, true, List, [], ◌∷◌, ltb, if◌then◌else◌, length,
  arith,
}
use bell_markets.OrderBook.{Order, PlannedFill, plan_from}

abbrev pub sum_fills : List PlannedFill → ℕ
sum_fills [] = 0
sum_fills (f ∷ fills) = f.fill_size + sum_fills fills

abbrev pub sum_sizes : List Order → ℕ
sum_sizes [] = 0
sum_sizes (o ∷ orders) = o.size + sum_sizes orders

-- The makers that a plan may reach: the best ones, up to the first that does not cross.
unfoldable pub reachable : (Order → Bool) → ℕ → List Order → List Order
reachable fillable zero makers = []
reachable fillable (suc n) [] = []
reachable fillable (suc n) (maker ∷ makers) =
    let rest = reachable fillable n makers in if fillable maker then maker ∷ rest else []

-- The fills numbered from `i` belong to the makers, in order; each is within its maker's size and
-- crosses the limit.
abbrev pub Backed : (Order → Bool) → ℕ → List Order → List PlannedFill → Type 0
Backed fillable i makers [] = Unit
Backed fillable i [] (f ∷ fills) = ⊥
Backed fillable i (maker ∷ makers) (f ∷ fills) =
    (f.maker_index ≡ i)
    × (f.maker_owner ≡ maker.owner)
    × (f.maker_price ≡ maker.price)
    × (f.fill_size ≤ maker.size)
    × (fillable maker ≡ true)
    × Backed fillable (i + 1) makers fills

module _ (fillable : Order → Bool) (max_fills : ℕ) where
  -- What is filled and what remains make up the size; the total is the sum of the fills.
  pub plan_from-adds_up :
      (i count : ℕ) (makers : List Order) (remaining : ℕ)
      → ((plan_from fillable max_fills i count makers remaining).total_filled
            + (plan_from fillable max_fills i count makers remaining).remaining
          ≡ remaining)
        × (sum_fills (plan_from fillable max_fills i count makers remaining).fills
            ≡ (plan_from fillable max_fills i count makers remaining).total_filled)
  unfolding plan_from
  plan_from-adds_up i count [] remaining = (omega arith, refl)
  plan_from-adds_up i count (maker ∷ makers) remaining =
      let fill_size : ℕ = if ltb maker.size remaining then maker.size else remaining in
      let ih = plan_from-adds_up (i + 1) (count + 1) makers (remaining - fill_size) in ground arith

  pub length-plan_from :
      (i count : ℕ) (makers : List Order) (remaining : ℕ)
      → length (plan_from fillable max_fills i count makers remaining).fills ≤ max_fills - count
  unfolding plan_from
  length-plan_from i count [] remaining = omega arith
  length-plan_from i count (maker ∷ makers) remaining =
      let fill_size : ℕ = if ltb maker.size remaining then maker.size else remaining in
      ground (arith, length-plan_from (i + 1) (count + 1) makers (remaining - fill_size))

  pub plan_from-Backed :
      (i count : ℕ) (makers : List Order) (remaining : ℕ)
      → Backed fillable i makers (plan_from fillable max_fills i count makers remaining).fills
  unfolding plan_from
  plan_from-Backed i count [] remaining = tt
  plan_from-Backed i count (maker ∷ makers) remaining =
      let fill_size : ℕ = if ltb maker.size remaining then maker.size else remaining in
      let ih = plan_from-Backed (i + 1) (count + 1) makers (remaining - fill_size) in ground arith
