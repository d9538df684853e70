-- ===== src/Prelude/Result.antt =====
-- Code that may throw: a value, or the error thrown.
use mathlib.Core.Path.{◌≡◌, refl, ap}
use mathlib.Core.Bool.{Bool, true, false}
use mathlib.Core.List.{List, [], ◌∷◌}
use mathlib.Core.Option.{Option, none, some}

pub data Result (E : Type 0) (A : Type 0) : Type 0 where
  ok : A → Result E A
  throw : E → Result E A

infixl 5 ◌>>=◌ ◌>>◌
abbrev pub ◌>>=◌ : {E A B : Type 0} → Result E A → (A → Result E B) → Result E B
ok a >>= f = f a
throw e >>= f = throw e

abbrev pub ◌>>◌ : {E B : Type 0} → Result E (Unit {0}) → Result E B → Result E B
m >> k = m >>= λ _. k

-- `if (b) throw e`
abbrev pub throw_if : {E : Type 0} → Bool → E → Result E (Unit {0})
throw_if true e = throw e
throw_if false e = ok tt

-- A value read with `!`, or the error that stands for its absence.
abbrev pub or_throw : {E A : Type 0} → Option A → E → Result E A
or_throw none e = throw e
or_throw (some a) e = ok a

-- `xs.map(f)` where `f` may throw: the first throw ends the walk.
unfoldable pub map_result : {E A B : Type 0} → (A → Result E B) → List A → Result E (List B)
map_result f [] = ok []
map_result f (x ∷ xs) = do y ← f x; ys ← map_result f xs; ok (y ∷ ys)

-- `await` in code that keeps a state: a throw leaves the state as it is.
abbrev pub and_then :
    {S E A B : Type 0} → S × Result E A → (S → A → S × Result E B) → S × Result E B
and_then (state, ok a) next = next state a
and_then (state, throw e) next = (state, throw e)

-- The steps of a chain that came to an end without a throw.
pub >>=-eq-ok :
    {E A B : Type 0} (action : Result E A) (next : A → Result E B) {result : B}
    → (action >>= next) ≡ ok result
    → (value : A) × (action ≡ ok value) × (next value ≡ ok result)
>>=-eq-ok (ok value) next returned = (value, refl, returned)
>>=-eq-ok (throw error) next returned = cc

pub throw_if-ok : {E : Type 0} {b : Bool} (e : E) {u : Unit {0}} → throw_if b e ≡ ok u → b ≡ false
throw_if-ok {b = true} e h = cc
throw_if-ok {b = false} e h = refl

pub ok_injective : {E A : Type 0} {a : A} (m : Result E A) {b : A} → m ≡ ok b → m ≡ ok a → a ≡ b
ok_injective m e h = cc

pub and_then-ok :
    {S E A B : Type 0} (ran : S × Result E A) {a : A} (next : S → A → S × Result E B)
    → ran.1 ≡ ok a
    → and_then ran next ≡ next ran.0 a
and_then-ok (state, ok b) next returns = ap (next state) (ok_injective (ok b) returns refl)
and_then-ok (state, throw e) next returns = cc

-- The steps of a stateful chain that came to an end without a throw.
pub and_then-eq-ok :
    {S E A B : Type 0} (ran : S × Result E A) (next : S → A → S × Result E B) {b : B}
    → (and_then ran next).1 ≡ ok b
    → (a : A) × (ran.1 ≡ ok a) × (and_then ran next ≡ next ran.0 a)
and_then-eq-ok (state, ok a) next returns = (a, refl, refl)
and_then-eq-ok (state, throw e) next returns = cc

-- What every value of the first part brings about, the chain does.
pub and_then-elim :
    {S E A B : Type 0} (P : S → B → Type 0) (ran : S × Result E A) (next : S → A → S × Result E B)
    {b : B}
    → ((a : A) → ran.1 ≡ ok a → (next ran.0 a).1 ≡ ok b → P (next ran.0 a).0 b)
    → (and_then ran next).1 ≡ ok b
    → P (and_then ran next).0 b
and_then-elim P (state, ok a) next step returns = step a refl returns
and_then-elim P (state, throw e) next step returns = cc

pub >>=-ok :
    {E A B : Type 0} (action : Result E A) (next : A → Result E B) {value : A}
    → action ≡ ok value
    → (action >>= next) ≡ next value
>>=-ok action next is = rw is refl
