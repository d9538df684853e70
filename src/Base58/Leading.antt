-- ===== src/Base58/Leading.antt =====
-- Leading marks of a list, and the ends of a reversed list of digits.
use bell_markets.Prelude.{
  ℕ, zero, suc, ◌<◌, ◌≡◌, refl, List, [], ◌∷◌, ◌++◌, All, All-append, Bool-cases, ◌==◌, inl, inr,
  arith, replicate, drop, false,
}
use mathlib.Core.List.{reverse, reverse-cons}
use bell_markets.Base58.{count_leading}
use bell_markets.Base58.Digits.{HasTop}

abbrev pub NotHead : ℕ → List ℕ → Type 0
NotHead mark [] = Unit
NotHead mark (y ∷ ys) = (y == mark) ≡ false

-- The first digit is not 0.
abbrev pub Leads : List ℕ → Type 0
Leads [] = Unit
Leads (d ∷ ds) = 0 < d

pub replicate-append-drop :
    (mark : ℕ) (xs : List ℕ)
    → replicate (count_leading mark xs) mark ++ drop (count_leading mark xs) xs ≡ xs
unfolding count_leading
replicate-append-drop mark [] = refl
replicate-append-drop mark (x ∷ xs) = elim (Bool-cases (x == mark)) [
  | inl e ↦ ground (arith, replicate-append-drop mark xs)
  | inr e ↦ rw e refl
]

pub drop-NotHead : (mark : ℕ) (xs : List ℕ) → NotHead mark (drop (count_leading mark xs) xs)
unfolding count_leading
drop-NotHead mark [] = tt
drop-NotHead mark (x ∷ xs) = elim (Bool-cases (x == mark)) [
  | inl e ↦ rw e (drop-NotHead mark xs)
  | inr e ↦ rw e e
]

pub count_leading-replicate :
    (mark n : ℕ) (ys : List ℕ) → NotHead mark ys → count_leading mark (replicate n mark ++ ys) ≡ n
unfolding count_leading
count_leading-replicate mark zero [] h = refl
count_leading-replicate mark zero (y ∷ ys) h = rw h
count_leading-replicate mark (suc n) ys h = ground (arith, count_leading-replicate mark n ys h)

pub drop-replicate : (mark n : ℕ) (ys : List ℕ) → drop n (replicate n mark ++ ys) ≡ ys
drop-replicate mark zero ys = refl
drop-replicate mark (suc n) ys = drop-replicate mark n ys

Leads-snoc : (xs : List ℕ) (a b : ℕ) → Leads (xs ++ a ∷ []) → Leads ((xs ++ a ∷ []) ++ b ∷ [])
Leads-snoc [] a b h = h
Leads-snoc (x ∷ xs) a b h = h

pub reverse-Leads : (ds : List ℕ) → HasTop ds → Leads (reverse ds)
reverse-Leads [] h = tt
reverse-Leads (x ∷ []) h = h
reverse-Leads (x ∷ y ∷ ds) h =
    rw (reverse-cons x (y ∷ ds), reverse-cons y ds)
      (Leads-snoc (reverse ds) y x (rw reverse-cons at (reverse-Leads (y ∷ ds) h)))

HasTop-snoc : (xs : List ℕ) (d : ℕ) → 0 < d → HasTop (xs ++ d ∷ [])
HasTop-snoc [] d h = h
HasTop-snoc (x ∷ []) d h = h
HasTop-snoc (x ∷ y ∷ xs) d h = HasTop-snoc (y ∷ xs) d h

pub reverse-HasTop : (xs : List ℕ) → NotHead 0 xs → HasTop (reverse xs)
reverse-HasTop [] h = tt
reverse-HasTop (x ∷ xs) h = rw reverse-cons (HasTop-snoc (reverse xs) x (ground arith))

module _ (P : ℕ → Type 0) where
  pub All-drop : (n : ℕ) (xs : List ℕ) → All P xs → All P (drop n xs)
  All-drop zero xs h = h
  All-drop (suc n) [] h = tt
  All-drop (suc n) (x ∷ xs) (p, h) = All-drop n xs h

  pub All-reverse : (xs : List ℕ) → All P xs → All P (reverse xs)
  All-reverse [] h = tt
  All-reverse (x ∷ xs) (p, h) =
      rw reverse-cons (All-append P (reverse xs) (x ∷ []) (All-reverse xs h) (p, tt))
