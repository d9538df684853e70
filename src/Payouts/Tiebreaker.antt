-- ===== src/Payouts/Tiebreaker.antt =====
-- The tiebreaker permutes the entries and keeps the ranking.
use bell_markets.Prelude.{
  ℕ, zero, suc, ◌≤◌, ◌≡◌, refl, sym, ap, ap₂, ◌∙◌, subst, arith, true, List, [], ◌∷◌, ◌++◌, length,
  take, drop, replicate, map, ltb, All, inl, inr, Bool-cases,
}
use mathlib.Core.List.{Permᴰ}
use mathlib.Core.List.Permᴰ as Permᴰ
use bell_markets.Leaderboard.{LeaderboardEntry}
use bell_markets.Payouts.{
  is_tied, tied_count, break_ties, tiebreak_from, apply_deterministic_tiebreaker,
}

-- What the leaderboard is ranked by.
abbrev pub rank : LeaderboardEntry → ℕ × ℕ
rank entry = (entry.current_streak, entry.total_markets_traded)

module _ {A : Type 0} where
  All-Permᴰ : (P : A → Type 0) {xs ys : List A} → Permᴰ xs ys → All P ys → All P xs
  All-Permᴰ P Permᴰ.nil h = h
  All-Permᴰ P (Permᴰ.cons e d) (p, h) = (subst P (sym e) p, All-Permᴰ P d h)
  All-Permᴰ P (Permᴰ.swap e f) (p, (q, h)) = (subst P (sym e) q, (subst P (sym f) p, h))
  All-Permᴰ P (Permᴰ.trans d e) h = All-Permᴰ P d (All-Permᴰ P e h)

  length-Permᴰ : {xs ys : List A} → Permᴰ xs ys → length xs ≡ length ys
  length-Permᴰ Permᴰ.nil = refl
  length-Permᴰ (Permᴰ.cons e d) = ap suc (length-Permᴰ d)
  length-Permᴰ (Permᴰ.swap e f) = refl
  length-Permᴰ (Permᴰ.trans d e) = length-Permᴰ d ∙ length-Permᴰ e

  take-drop : (n : ℕ) (xs : List A) → take n xs ++ drop n xs ≡ xs
  take-drop zero xs = refl
  take-drop (suc n) [] = refl
  take-drop (suc n) (x ∷ xs) = ap (◌∷◌ x) (take-drop n xs)

  length-drop : (n : ℕ) (xs : List A) → length (drop n xs) ≤ length xs
  length-drop zero xs = omega arith
  length-drop (suc n) [] = omega arith
  length-drop (suc n) (x ∷ xs) = omega (arith, length-drop n xs)

  map-append : {B : Type 0} (f : A → B) (xs ys : List A) → map f (xs ++ ys) ≡ map f xs ++ map f ys
  map-append f [] ys = refl
  map-append f (x ∷ xs) ys = ap (◌∷◌ (f x)) (map-append f xs ys)

  map-constant :
      {B : Type 0} (f : A → B) (b : B) (xs : List A)
      → All (λ x. f x ≡ b) xs
      → map f xs ≡ replicate (length xs) b
  map-constant f b [] _ = refl
  map-constant f b (x ∷ xs) (e, h) = ap₂ ◌∷◌ e (map-constant f b xs h)

  -- Elements with one value keep their values in any order.
  map-Permᴰ :
      {B : Type 0} (f : A → B) (b : B) {xs ys : List A}
      → Permᴰ xs ys
      → All (λ y. f y ≡ b) ys
      → map f xs ≡ map f ys
  map-Permᴰ f b {xs} {ys} d h =
      map-constant f b xs (All-Permᴰ (λ y. f y ≡ b) d h)
      ∙ ap (λ n. replicate n b) (length-Permᴰ d)
      ∙ sym (map-constant f b ys h)

is_tied-rank : (head peek : LeaderboardEntry) → is_tied head peek ≡ true → rank peek ≡ rank head
is_tied-rank head peek tied =
    let streaks : peek.current_streak ≡ head.current_streak = ground arith in
    let traded : peek.total_markets_traded ≡ head.total_markets_traded = ground arith in
    rw (streaks, traded) refl

tied-All :
    (head : LeaderboardEntry) (entries : List LeaderboardEntry)
    → All (λ e. rank e ≡ rank head) (take (tied_count head entries) entries)
unfolding tied_count
tied-All head [] = tt
tied-All head (peek ∷ entries) = elim (Bool-cases (is_tied head peek)) [
  | inl tied ↦ rw tied (is_tied-rank head peek tied, tied-All head entries)
  | inr other ↦ rw other tt
]

module _ (shuffle : List LeaderboardEntry → List LeaderboardEntry)
    (permutes : (group : List LeaderboardEntry) → Permᴰ (shuffle group) group) where
  break_ties-Permᴰ : (group : List LeaderboardEntry) → Permᴰ (break_ties shuffle group) group
  break_ties-Permᴰ group = elim (Bool-cases (ltb 1 (length group))) [
    | inl several ↦ rw several (permutes group)
    | inr one ↦ rw one (Permᴰ.refl group)
  ]

  tiebreak_from-Permᴰ :
      (fuel : ℕ) (entries : List LeaderboardEntry)
      → length entries ≤ fuel
      → Permᴰ (tiebreak_from shuffle fuel entries) entries
        × (map rank (tiebreak_from shuffle fuel entries) ≡ map rank entries)
  unfolding tiebreak_from
  tiebreak_from-Permᴰ zero [] enough = (Permᴰ.nil, refl)
  tiebreak_from-Permᴰ zero (head ∷ entries) enough = absurd (omega arith)
  tiebreak_from-Permᴰ (suc fuel) [] enough = (Permᴰ.nil, refl)
  tiebreak_from-Permᴰ (suc fuel) (head ∷ entries) enough =
      let n = tied_count head entries in
      let group = head ∷ take n entries in
      let later = tiebreak_from shuffle fuel (drop n entries) in
      let (rest, ranks) =
        tiebreak_from-Permᴰ fuel (drop n entries) (omega (arith, length-drop n entries)) in
      let whole : group ++ drop n entries ≡ head ∷ entries = ap (◌∷◌ head) (take-drop n entries) in
      let first = break_ties-Permᴰ group in
      (
        subst (Permᴰ (break_ties shuffle group ++ later)) whole
            (Permᴰ.trans (Permᴰ.append_right later first) (Permᴰ.append_left group rest)),
        map-append rank (break_ties shuffle group) later
            ∙ ap₂ ◌++◌ (map-Permᴰ rank (rank head) first (refl, tied-All head entries)) ranks
            ∙ sym (map-append rank group (drop n entries))
            ∙ ap (map rank) whole,
      )

-- If the shuffle returns a permutation of every list, the tiebreaker returns a permutation of the
-- entries, none left out, in which every place has the streak and the number of markets that it had
-- before.
pub apply_deterministic_tiebreaker-Permᴰ :
    (shuffle : List LeaderboardEntry → List LeaderboardEntry)
    → ((group : List LeaderboardEntry) → Permᴰ (shuffle group) group)
    → (entries : List LeaderboardEntry)
    → Permᴰ (apply_deterministic_tiebreaker shuffle entries) entries
      × (map rank (apply_deterministic_tiebreaker shuffle entries) ≡ map rank entries)
unfolding apply_deterministic_tiebreaker
apply_deterministic_tiebreaker-Permᴰ shuffle permutes entries =
    tiebreak_from-Permᴰ shuffle permutes (length entries) entries (omega arith)
