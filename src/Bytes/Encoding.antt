-- ===== src/Bytes/Encoding.antt =====
-- What `copy` into a fresh buffer holds, and that the little-endian writers lose nothing.
use bell_markets.Prelude.{
  ℕ, zero, suc, ◌/◌, ◌%◌, ◌^◌, ◌<◌, ◌≡◌, refl, sym, ◌+◌, ◌∙◌, ap, [], ◌∷◌, ◌++◌, length,
  length-append, arith,
}
use mathlib.Core.List.{append_assoc}
use native.Mathlib.Nat.{pow-suc}
use bell_markets.Bytes.{Bytes, alloc, copy_at, le_bytes}

pub length-copy_at :
    (buf : Bytes) (off : ℕ) (src : Bytes) → length (copy_at buf off src) ≡ length buf
unfolding copy_at
length-copy_at [] off src = refl
length-copy_at (b ∷ buf) (suc off) src = omega (arith, length-copy_at buf off src)
length-copy_at (b ∷ buf) zero [] = refl
length-copy_at (b ∷ buf) zero (s ∷ src) = omega (arith, length-copy_at buf zero src)

pub length-le_bytes : (k n : ℕ) → length (le_bytes k n) ≡ k
unfolding le_bytes
length-le_bytes zero n = refl
length-le_bytes (suc k) n = omega (arith, length-le_bytes k (n / 256))

copy_at-alloc :
    (n k : ℕ) (src : Bytes) → n ≡ length src + k → copy_at (alloc n) 0 src ≡ src ++ alloc k
unfolding copy_at
copy_at-alloc zero k [] h = let e : 0 ≡ k = omega arith in ap alloc e
copy_at-alloc (suc n) k [] h = let e : suc n ≡ k = omega arith in ap alloc e
copy_at-alloc zero k (s ∷ src) h = absurd (omega arith)
copy_at-alloc (suc n) k (s ∷ src) h = ap (◌∷◌ s) (copy_at-alloc n k src (omega arith))

-- Writing behind a prefix leaves the prefix alone.
pub copy_at-append :
    (front buf src : Bytes) (off : ℕ)
    → off ≡ length front
    → copy_at (front ++ buf) off src ≡ front ++ copy_at buf 0 src
unfolding copy_at
copy_at-append [] buf src off h = rw h
copy_at-append (b ∷ front) buf src zero h = absurd (omega arith)
copy_at-append (b ∷ front) buf src (suc off) h =
    ap (◌∷◌ b) (copy_at-append front buf src off (omega arith))

-- The fields of a record are laid down one behind the other in a buffer of zeros.
pub copy_at-field :
    (front src : Bytes) (n k off : ℕ)
    → off ≡ length front
    → n ≡ length src + k
    → copy_at (front ++ alloc n) off src ≡ (front ++ src) ++ alloc k
copy_at-field front src n k off h e =
    copy_at-append front (alloc n) src off h
    ∙ ap (◌++◌ front) (copy_at-alloc n k src e)
    ∙ sym (append_assoc front src (alloc k))

below : (k m : ℕ) → m < 256 ^ suc k → m / 256 < 256 ^ k
below k m h = let e = pow-suc 256 k in omega arith

-- Numbers below 256^k are told apart by their k bytes.
pub le_bytes_injective :
    (k m n : ℕ) → m < 256 ^ k → n < 256 ^ k → le_bytes k m ≡ le_bytes k n → m ≡ n
unfolding le_bytes
le_bytes_injective zero m n hm hn e = omega arith
le_bytes_injective (suc k) m n hm hn e =
    let low : m % 256 ≡ n % 256 = ground arith in
    let high : le_bytes k (m / 256) ≡ le_bytes k (n / 256) = ground arith in
    let quotients : m / 256 ≡ n / 256 =
      le_bytes_injective k (m / 256) (n / 256) (below k m hm) (below k n hn) high in
    omega arith

-- Lists with front parts of one length are equal only if their parts are.
pub append_inj : (a b c d : Bytes) → length a ≡ length c → a ++ b ≡ c ++ d → (a ≡ c) × (b ≡ d)
append_inj [] b [] d h e = (refl, e)
append_inj [] b (y ∷ c) d h e = absurd (omega arith)
append_inj (x ∷ a) b [] d h e = absurd (omega arith)
append_inj (x ∷ a) b (y ∷ c) d h e =
    let (front, back) = append_inj a b c d (omega arith) (ground arith) in (ground arith, back)

-- Two lists that end in lists of one length are equal only if their parts are.
pub append_inj_back : (a b c d : Bytes) → length b ≡ length d → a ++ b ≡ c ++ d → (a ≡ c) × (b ≡ d)
append_inj_back a b c d h e =
    append_inj a b c d (omega (arith, ap length e, length-append a b, length-append c d)) e
