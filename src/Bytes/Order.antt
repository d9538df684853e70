-- ===== src/Bytes/Order.antt =====
-- `Buffer.compare` is a total order, and is 0 exactly on equal buffers.
use bell_markets.Prelude.{◌≡◌, refl, ◌⊎◌, inl, inr, true, [], ◌∷◌, arith}
use bell_markets.Bytes.{Bytes, le_buffer, eq_buffer}

pub le_buffer_total : (a b : Bytes) → (le_buffer a b ≡ true) ⊎ (le_buffer b a ≡ true)
unfolding le_buffer
le_buffer_total [] b = inl refl
le_buffer_total (x ∷ a) [] = inr refl
le_buffer_total (x ∷ a) (y ∷ b) = ground (arith, le_buffer_total a b)

pub le_buffer_antisymm : (a b : Bytes) → le_buffer a b ≡ true → le_buffer b a ≡ true → a ≡ b
unfolding le_buffer
le_buffer_antisymm [] [] h k = refl
le_buffer_antisymm [] (y ∷ b) h k = cc
le_buffer_antisymm (x ∷ a) [] h k = cc
le_buffer_antisymm (x ∷ a) (y ∷ b) h k = ground (arith, le_buffer_antisymm a b)

pub eq_buffer_refl : (a : Bytes) → eq_buffer a a ≡ true
unfolding eq_buffer
eq_buffer_refl [] = refl
eq_buffer_refl (x ∷ a) = ground (arith, eq_buffer_refl a)

pub eq_buffer_sound : (a b : Bytes) → eq_buffer a b ≡ true → a ≡ b
unfolding eq_buffer
eq_buffer_sound [] [] h = refl
eq_buffer_sound [] (y ∷ b) h = cc
eq_buffer_sound (x ∷ a) [] h = cc
eq_buffer_sound (x ∷ a) (y ∷ b) h = ground (arith, eq_buffer_sound a b)
