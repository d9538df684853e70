-- ===== src/Base58/RoundTrip.antt =====
-- Decoding an encoded pubkey gives back its bytes.
use bell_markets.Prelude.{
  Bool-cases, inl, inr, ℕ, zero, suc, ◌+◌, ◌*◌, ◌<◌, ◌≡◌, refl, sym, ap, ap₂, ◌∙◌, List, [], ◌∷◌,
  ◌++◌, All, ◌==◌, if◌then◌else◌, arith, map, replicate, drop, length, some, none, not, true, false,
  Bool, ◌&&◌,
}
use mathlib.Core.List.{reverse, reverse-cons, reverse-reverse}
use bell_markets.Prelude.Result.{ok}
use bell_markets.Bytes.{Bytes}
use bell_markets.Base58.{
  base58_lookup, convert, count_leading, digits_from, decode_bytes, decode_pubkey, base58_char,
  bytes_to_base58,
}
use bell_markets.Base58.Leading.{
  NotHead, Leads, replicate-append-drop, drop-NotHead, count_leading-replicate, drop-replicate,
  reverse-Leads, reverse-HasTop, All-drop, All-reverse,
}
use bell_markets.Base58.Digits.{
  val, val_be, Below, HasTop, convert-val, convert-Below, convert-HasTop,
}

val_be-append :
    (base acc : ℕ) (xs : List ℕ) (d : ℕ)
    → val_be base acc (xs ++ d ∷ []) ≡ val_be base acc xs * base + d
val_be-append base acc [] d = refl
val_be-append base acc (x ∷ xs) d = val_be-append base (acc * base + x) xs d

val_be-reverse : (base : ℕ) (xs : List ℕ) → val_be base 0 (reverse xs) ≡ val base xs
val_be-reverse base [] = refl
val_be-reverse base (x ∷ xs) =
    rw (reverse-cons, val_be-append)
      (omega (arith, ap (λ (t : ℕ). t * base) (val_be-reverse base xs)))

-- Lists of bytes, lowest first, with a highest byte that is not 0: one for each value.
HasTop-zero : (xs : List ℕ) → HasTop xs → val 256 xs ≡ 0 → xs ≡ []
HasTop-zero [] h e = refl
HasTop-zero (x ∷ []) h e = absurd (omega arith)
HasTop-zero (x ∷ y ∷ xs) h e = let k = HasTop-zero (y ∷ xs) h (omega arith) in cc

HasTop-tail : (x : ℕ) (xs : List ℕ) → HasTop (x ∷ xs) → HasTop xs
HasTop-tail x [] h = tt
HasTop-tail x (y ∷ xs) h = h

val_injective :
    (xs ys : List ℕ)
    → Below 256 xs
    → Below 256 ys
    → HasTop xs
    → HasTop ys
    → val 256 xs ≡ val 256 ys
    → xs ≡ ys
val_injective [] ys hx hy tx ty e = sym (HasTop-zero ys ty (sym e))
val_injective (x ∷ xs) [] hx hy tx ty e = HasTop-zero (x ∷ xs) tx e
val_injective (x ∷ xs) (y ∷ ys) (hx, hxs) (hy, hys) tx ty e =
    ap₂ ◌∷◌ (omega arith)
      (val_injective xs ys hxs hys (HasTop-tail x xs tx) (HasTop-tail y ys ty) (omega arith))

-- Every digit's character is read back as the digit, and only 0 is written as '1'.
digit_reads : ℕ → Bool
digit_reads d =
    elim (base58_lookup (base58_char d)) [ none ↦ false | some e ↦ e == d ]
    && (if d == 0 then true else not (base58_char d == b'1'))

-- Every digit below `top` reads back.
read_back : ℕ → Bool
unfolding digit_reads
read_back zero = true
read_back (suc top) = read_back top && digit_reads top

read_back-digit : (d top : ℕ) → d < top → read_back top ≡ true → digit_reads d ≡ true
unfolding read_back
read_back-digit d zero below table = absurd (omega (arith, below))
read_back-digit d (suc top) below table = elim (Bool-cases (d == top)) [
  | inl last ↦ let same : d ≡ top = ground arith in rw same (ground arith)
  | inr other ↦ read_back-digit d top (ground arith) (ground arith)
]

digit_table : read_back 58 ≡ true
unfolding read_back digit_reads base58_lookup base58_char
digit_table = refl

lookup-char : (d : ℕ) → d < 58 → base58_lookup (base58_char d) ≡ some d
unfolding digit_reads
lookup-char d h = let t = read_back-digit d 58 h digit_table in ground arith

char-ne-one : (d : ℕ) → d < 58 → 0 < d → (base58_char d == b'1') ≡ false
unfolding digit_reads
char-ne-one d h p = let t = read_back-digit d 58 h digit_table in ground arith

digits_from-map : (i : ℕ) (ds : List ℕ) → Below 58 ds → digits_from i (map base58_char ds) ≡ ok ds
unfolding digits_from
digits_from-map i [] h = refl
digits_from-map i (d ∷ ds) (p, h) = ground (arith, lookup-char d p, digits_from-map (suc i) ds h)

-- The digits that `bytes_to_base58` writes for bytes without leading zeros, highest first.
abbrev digits58 : Bytes → List ℕ
digits58 bytes = reverse (convert 58 256 [] bytes)

digits58-Below : (bytes : Bytes) → Below 58 (digits58 bytes)
digits58-Below bytes = All-reverse (λ x. x < 58) _ (convert-Below 58 (omega arith) 256 [] bytes tt)

digits58-NotHead : (ds : List ℕ) → Below 58 ds → Leads ds → NotHead b'1' (map base58_char ds)
digits58-NotHead [] h l = tt
digits58-NotHead (d ∷ ds) (p, h) l = char-ne-one d p l

-- Converting there and back, through the value that both lists of digits stand for.
convert-digits58 :
    (bytes : Bytes)
    → Below 256 bytes
    → NotHead 0 bytes
    → convert 256 58 [] (digits58 bytes) ≡ reverse bytes
convert-digits58 bytes h lead =
    val_injective (convert 256 58 [] (digits58 bytes)) (reverse bytes)
      (convert-Below 256 (omega arith) 58 [] (digits58 bytes) tt)
      (All-reverse (λ x. x < 256) bytes h)
      (convert-HasTop 256 (omega arith) 58 [] (digits58 bytes) (omega arith) tt)
      (reverse-HasTop bytes lead)
      (convert-val 256 (omega arith) 58 [] (digits58 bytes)
        ∙ val_be-reverse 58 (convert 58 256 [] bytes)
        ∙ convert-val 58 (omega arith) 256 [] bytes
        ∙ sym (ap (val_be 256 0) (reverse-reverse bytes))
        ∙ val_be-reverse 256 (reverse bytes))

decode_bytes-encoded :
    (z : ℕ) (bytes : Bytes)
    → Below 256 bytes
    → NotHead 0 bytes
    → decode_bytes (replicate z b'1' ++ map base58_char (digits58 bytes))
      ≡ ok (replicate z 0 ++ bytes)
unfolding decode_bytes
decode_bytes-encoded z bytes h lead =
    let top =
      reverse-Leads (convert 58 256 [] bytes)
        (convert-HasTop 58 (omega arith) 256 [] bytes (omega arith) tt) in
    let counted =
      count_leading-replicate b'1' z (map base58_char (digits58 bytes))
        (digits58-NotHead (digits58 bytes) (digits58-Below bytes) top) in
    rw (
      counted,
      drop-replicate b'1' z (map base58_char (digits58 bytes)),
      digits_from-map z (digits58 bytes) (digits58-Below bytes),
      convert-digits58 bytes h lead,
      reverse-reverse bytes,
    )

decode_bytes-nil : (bytes : Bytes) → decode_bytes [] ≡ ok bytes → length bytes ≡ 0
unfolding decode_bytes
decode_bytes-nil bytes e = let same : bytes ≡ [] = cc in ap length same

decode_pubkey-ok :
    (base58 : List ℕ) (bytes : Bytes)
    → decode_bytes base58 ≡ ok bytes
    → length bytes ≡ 32
    → decode_pubkey base58 ≡ ok bytes
unfolding decode_pubkey
decode_pubkey-ok [] bytes e len = absurd (omega (arith, decode_bytes-nil bytes e))
decode_pubkey-ok (c ∷ base58) bytes e len = ground arith

-- Every list of 32 bytes, encoded by `bytesToBase58`, is decoded by `decodePubkey` to itself.
pub decode_pubkey-bytes_to_base58 :
    (bytes : Bytes)
    → All (λ x. x < 256) bytes
    → length bytes ≡ 32
    → decode_pubkey (bytes_to_base58 bytes) ≡ ok bytes
unfolding bytes_to_base58
decode_pubkey-bytes_to_base58 bytes h len =
    let z = count_leading 0 bytes in
    let decoded =
      decode_bytes-encoded z (drop z bytes) (All-drop (λ x. x < 256) z bytes h)
        (drop-NotHead 0 bytes) in
    decode_pubkey-ok (bytes_to_base58 bytes) bytes (decoded ∙ ap ok (replicate-append-drop 0 bytes))
      len
