-- ===== src/Grid/Sets.antt =====
-- What services/automation/src/ticker-config.ts uses of the language's sets and arrays of numbers:
-- `new Set(xs)`, `filter` and `sort((a, b) => a - b)`.
use bell_markets.Prelude.{
  ℕ, suc, ◌≤◌, ◌<◌, ◌≡◌, refl, ap, arith, Bool, true, false, not, ◌&&◌, ◌||◌, List, [], ◌∷◌, ◌++◌,
  ltb, ◌==◌, if◌then◌else◌, All, length, inl, inr, Bool-cases,
}

unfoldable pub elem : ℕ → List ℕ → Bool
elem y [] = false
elem y (x ∷ xs) = (y == x) || elem y xs

unfoldable pub filter : (ℕ → Bool) → List ℕ → List ℕ
filter test [] = []
filter test (x ∷ xs) = let rest = filter test xs in if test x then x ∷ rest else rest

-- `Array.from(new Set(xs))`: the first of equal numbers stays in its place.
unfoldable pub distinct : List ℕ → List ℕ
distinct [] = []
distinct (x ∷ xs) = x ∷ filter (λ y. not (y == x)) (distinct xs)

unfoldable pub insert_ascending : ℕ → List ℕ → List ℕ
insert_ascending x [] = x ∷ []
insert_ascending x (y ∷ ys) =
    let rest = insert_ascending x ys in if ltb y x then y ∷ rest else x ∷ y ∷ ys

unfoldable pub sort : List ℕ → List ℕ
sort [] = []
sort (x ∷ xs) = insert_ascending x (sort xs)

-- Each number is below all that follow.
abbrev pub Ascending : List ℕ → Type 0
Ascending [] = Unit
Ascending (x ∷ xs) = All (λ y. x < y) xs × Ascending xs

abbrev pub Distinct : List ℕ → Type 0
Distinct [] = Unit
Distinct (x ∷ xs) = (elem x xs ≡ false) × Distinct xs

pub elem-filter :
    (test : ℕ → Bool) (y : ℕ) (xs : List ℕ) → elem y (filter test xs) ≡ (test y && elem y xs)
unfolding elem filter
elem-filter test y [] = ground arith
elem-filter test y (x ∷ xs) = elim (Bool-cases (y == x)) [
  | inl same ↦
      let e : y ≡ x = ground arith in
      let agree : test y ≡ test x = ap test e in ground (arith, elem-filter test y xs)
  | inr other ↦ ground (arith, elem-filter test y xs)
]

pub elem-distinct : (y : ℕ) (xs : List ℕ) → elem y (distinct xs) ≡ elem y xs
unfolding elem distinct
elem-distinct y [] = refl
elem-distinct y (x ∷ xs) =
    ground (arith, elem-distinct y xs, elem-filter (λ z. not (z == x)) y (distinct xs))

elem-insert_ascending :
    (y x : ℕ) (xs : List ℕ) → elem y (insert_ascending x xs) ≡ ((y == x) || elem y xs)
unfolding elem insert_ascending
elem-insert_ascending y x [] = refl
elem-insert_ascending y x (z ∷ xs) = ground (arith, elem-insert_ascending y x xs)

pub elem-sort : (y : ℕ) (xs : List ℕ) → elem y (sort xs) ≡ elem y xs
unfolding elem sort
elem-sort y [] = refl
elem-sort y (x ∷ xs) = ground (arith, elem-sort y xs, elem-insert_ascending y x (sort xs))

pub elem-append : (y : ℕ) (xs zs : List ℕ) → elem y (xs ++ zs) ≡ (elem y xs || elem y zs)
unfolding elem
elem-append y [] zs = refl
elem-append y (x ∷ xs) zs = ground (arith, elem-append y xs zs)

pub All-filter :
    (P : ℕ → Type 0) (test : ℕ → Bool) (xs : List ℕ) → All P xs → All P (filter test xs)
unfolding filter
All-filter P test [] _ = tt
All-filter P test (x ∷ xs) (p, h) = elim (Bool-cases (test x)) [
  | inl hit ↦ rw hit (p, All-filter P test xs h)
  | inr miss ↦ rw miss (All-filter P test xs h)
]

-- The numbers that a test lets through pass it.
pub filter-All :
    (P : ℕ → Type 0) (test : ℕ → Bool) (xs : List ℕ)
    → ((x : ℕ) → test x ≡ true → P x)
    → All P (filter test xs)
unfolding filter
filter-All P test [] h = tt
filter-All P test (x ∷ xs) h = elim (Bool-cases (test x)) [
  | inl hit ↦ rw hit (h x hit, filter-All P test xs h)
  | inr miss ↦ rw miss (filter-All P test xs h)
]

pub length-filter : (test : ℕ → Bool) (xs : List ℕ) → length (filter test xs) ≤ length xs
unfolding filter
length-filter test [] = omega arith
length-filter test (x ∷ xs) = ground (arith, length-filter test xs)

pub length-distinct : (xs : List ℕ) → length (distinct xs) ≤ length xs
unfolding distinct
length-distinct [] = omega arith
length-distinct (x ∷ xs) =
    omega (arith, length-distinct xs, length-filter (λ y. not (y == x)) (distinct xs))

pub filter-Distinct : (test : ℕ → Bool) (xs : List ℕ) → Distinct xs → Distinct (filter test xs)
unfolding filter
filter-Distinct test [] _ = tt
filter-Distinct test (x ∷ xs) (new, h) = elim (Bool-cases (test x)) [
  | inl hit ↦ rw hit (ground (arith, elem-filter test x xs), filter-Distinct test xs h)
  | inr miss ↦ rw miss (filter-Distinct test xs h)
]

pub distinct-Distinct : (xs : List ℕ) → Distinct (distinct xs)
unfolding distinct
distinct-Distinct [] = tt
distinct-Distinct (x ∷ xs) = (
  ground (arith, elem-filter (λ y. not (y == x)) x (distinct xs)),
  filter-Distinct (λ y. not (y == x)) (distinct xs) (distinct-Distinct xs),
)

All-insert_ascending :
    (P : ℕ → Type 0) (x : ℕ) (xs : List ℕ) → P x → All P xs → All P (insert_ascending x xs)
unfolding insert_ascending
All-insert_ascending P x [] p _ = (p, tt)
All-insert_ascending P x (y ∷ ys) p (q, h) = elim (Bool-cases (ltb y x)) [
  | inl below ↦ rw below (q, All-insert_ascending P x ys p h)
  | inr above ↦ rw above (p, (q, h))
]

pub All-sort : (P : ℕ → Type 0) (xs : List ℕ) → All P xs → All P (sort xs)
unfolding sort
All-sort P [] _ = tt
All-sort P (x ∷ xs) (p, h) = All-insert_ascending P x (sort xs) p (All-sort P xs h)

below-All : (x y : ℕ) (ys : List ℕ) → x < y → All (λ z. y < z) ys → All (λ z. x < z) ys
below-All x y [] lt _ = tt
below-All x y (z ∷ ys) lt (p, h) = (omega arith, below-All x y ys lt h)

insert-Ascending :
    (x : ℕ) (xs : List ℕ) → elem x xs ≡ false → Ascending xs → Ascending (insert_ascending x xs)
unfolding elem insert_ascending
insert-Ascending x [] new _ = (tt, tt)
insert-Ascending x (y ∷ ys) new (least, h) = elim (Bool-cases (ltb y x)) [
  | inl below ↦ rw below (
    All-insert_ascending (λ z. y < z) x ys (ground arith) least,
    insert-Ascending x ys (ground arith) h,
  )
  | inr above ↦
      let lt : x < y = ground arith in rw above ((lt, below-All x y ys lt least), (least, h))
]

pub sort-Ascending : (xs : List ℕ) → Distinct xs → Ascending (sort xs)
unfolding sort
sort-Ascending [] _ = tt
sort-Ascending (x ∷ xs) (new, h) =
    insert-Ascending x (sort xs) (ground (arith, elem-sort x xs)) (sort-Ascending xs h)

length-insert_ascending : (x : ℕ) (xs : List ℕ) → length (insert_ascending x xs) ≡ suc (length xs)
unfolding insert_ascending
length-insert_ascending x [] = refl
length-insert_ascending x (y ∷ ys) = ground (arith, length-insert_ascending x ys)

pub length-sort : (xs : List ℕ) → length (sort xs) ≡ length xs
unfolding sort
length-sort [] = refl
length-sort (x ∷ xs) = omega (arith, length-sort xs, length-insert_ascending x (sort xs))

pub All-distinct : (P : ℕ → Type 0) (xs : List ℕ) → All P xs → All P (distinct xs)
unfolding distinct
All-distinct P [] _ = tt
All-distinct P (x ∷ xs) (p, h) =
    (p, All-filter P (λ y. not (y == x)) (distinct xs) (All-distinct P xs h))
