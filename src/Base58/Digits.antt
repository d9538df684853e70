-- ===== src/Base58/Digits.antt =====
-- The value of a list of digits, and what multiplying by a factor and adding a carry does to it.
use bell_markets.Prelude.{
  ℕ, zero, suc, ◌+◌, ◌*◌, ◌/◌, ◌%◌, ◌<◌, ◌≤◌, ◌≡◌, refl, ap, ◌∙◌, List, [], ◌∷◌, All, false,
  Bool-cases, ◌==◌, inl, inr, arith,
}
use native.Mathlib.Nat.{mod-add-div, mod-lt}
use bell_markets.Base58.{push_carry, mul_add, convert}

-- Lowest digit first.
abbrev pub val : ℕ → List ℕ → ℕ
val base [] = 0
val base (x ∷ xs) = x + base * val base xs

-- Highest digit first, behind a value `acc`.
abbrev pub val_be : ℕ → ℕ → List ℕ → ℕ
val_be base acc [] = acc
val_be base acc (d ∷ ds) = val_be base (acc * base + d) ds

abbrev pub Below : ℕ → List ℕ → Type 0
Below base xs = All (λ x. x < base) xs

-- The last, highest digit is not 0.
abbrev pub HasTop : List ℕ → Type 0
HasTop [] = Unit
HasTop (x ∷ []) = 0 < x
HasTop (x ∷ y ∷ xs) = HasTop (y ∷ xs)

module _ (base : ℕ) (wide : 1 < base) where
  quotient-lt : (n : ℕ) → 0 < n → n / base < n
  quotient-lt n h = grind (arith, mod-add-div n base)

  positive-of_ne : (n : ℕ) → (n == 0) ≡ false → 0 < n
  positive-of_ne n h = ground arith

  push_carry-val : (fuel carry : ℕ) → carry ≤ fuel → val base (push_carry base fuel carry) ≡ carry
  unfolding push_carry
  push_carry-val zero carry h = omega arith
  push_carry-val (suc fuel) carry h = elim (Bool-cases (carry == 0)) [
    | inl e ↦ ground arith
    | inr e ↦
        let less : carry / base < carry = quotient-lt carry (positive-of_ne carry e) in
        rw (e, push_carry-val fuel (carry / base) (omega arith)) (mod-add-div carry base)
  ]

  push_carry-Below : (fuel carry : ℕ) → Below base (push_carry base fuel carry)
  unfolding push_carry
  push_carry-Below zero carry = tt
  push_carry-Below (suc fuel) carry = elim (Bool-cases (carry == 0)) [
    | inl e ↦ rw e tt
    | inr e ↦ rw e (mod-lt carry (omega arith), push_carry-Below fuel (carry / base))
  ]

  mul_add-val :
      (factor : ℕ) (out : List ℕ) (carry : ℕ)
      → val base (mul_add base factor out carry) ≡ val base out * factor + carry
  unfolding mul_add
  mul_add-val factor [] carry = omega (arith, push_carry-val carry carry)
  mul_add-val factor (x ∷ out) carry =
      let c : ℕ = carry + x * factor in
      omega
        (arith, mod-add-div c base, ap (λ (t : ℕ). base * t) (mul_add-val factor out (c / base)))

  mul_add-Below :
      (factor : ℕ) (out : List ℕ) (carry : ℕ) → Below base (mul_add base factor out carry)
  unfolding mul_add
  mul_add-Below factor [] carry = push_carry-Below carry carry
  mul_add-Below factor (x ∷ out) carry =
      (mod-lt _ (omega arith), mul_add-Below factor out ((carry + x * factor) / base))

  pub convert-val :
      (factor : ℕ) (out ds : List ℕ)
      → val base (convert base factor out ds) ≡ val_be factor (val base out) ds
  unfolding convert
  convert-val factor out [] = refl
  convert-val factor out (d ∷ ds) =
      convert-val factor (mul_add base factor out d) ds
      ∙ ap (λ t. val_be factor t ds) (mul_add-val factor out d)

  pub convert-Below :
      (factor : ℕ) (out ds : List ℕ) → Below base out → Below base (convert base factor out ds)
  unfolding convert
  convert-Below factor out [] h = h
  convert-Below factor out (d ∷ ds) h =
      convert-Below factor (mul_add base factor out d) ds (mul_add-Below factor out d)

  HasTop-cons : (x : ℕ) (xs : List ℕ) → HasTop xs → 0 < val base (x ∷ xs) → HasTop (x ∷ xs)
  HasTop-cons x [] h k = omega arith
  HasTop-cons x (y ∷ xs) h k = h

  HasTop-val : (x : ℕ) (xs : List ℕ) → HasTop (x ∷ xs) → 0 < val base (x ∷ xs)
  HasTop-val x [] h = omega arith
  HasTop-val x (y ∷ xs) h = let k = HasTop-val y xs h in grind arith

  HasTop-tail : (x : ℕ) (xs : List ℕ) → HasTop (x ∷ xs) → HasTop xs
  HasTop-tail x [] h = tt
  HasTop-tail x (y ∷ xs) h = h

  push_carry-HasTop : (fuel carry : ℕ) → carry ≤ fuel → HasTop (push_carry base fuel carry)
  unfolding push_carry
  push_carry-HasTop zero carry h = tt
  push_carry-HasTop (suc fuel) carry h = elim (Bool-cases (carry == 0)) [
    | inl e ↦ rw e tt
    | inr e ↦
        let positive = positive-of_ne carry e in
        let fits : carry / base ≤ fuel = omega (arith, quotient-lt carry positive) in
        rw e (
          HasTop-cons (carry % base) (push_carry base fuel (carry / base))
            (push_carry-HasTop fuel (carry / base) fits)
            (rw (push_carry-val fuel (carry / base) fits, mod-add-div carry base) positive))
  ]

  mul_add-HasTop :
      (factor : ℕ) (out : List ℕ) (carry : ℕ)
      → 0 < factor
      → HasTop out
      → HasTop (mul_add base factor out carry)
  unfolding mul_add
  mul_add-HasTop factor [] carry p h = push_carry-HasTop carry carry (omega arith)
  mul_add-HasTop factor (x ∷ out) carry p h =
      let c : ℕ = carry + x * factor in
      let total = mul_add-val factor (x ∷ out) carry in
      let some_value = HasTop-val x out h in
      HasTop-cons (c % base) (mul_add base factor out (c / base))
        (mul_add-HasTop factor out (c / base) p (HasTop-tail x out h)) (rw total (grind arith))

  pub convert-HasTop :
      (factor : ℕ) (out ds : List ℕ) → 0 < factor → HasTop out → HasTop (convert base factor out ds)
  unfolding convert
  convert-HasTop factor out [] p h = h
  convert-HasTop factor out (d ∷ ds) p h =
      convert-HasTop factor (mul_add base factor out d) ds p (mul_add-HasTop factor out d p h)
