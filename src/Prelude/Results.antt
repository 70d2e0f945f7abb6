-- ===== src/Prelude/Results.antt =====
-- Go's pair of a value and an error: one of the two.
use mathlib.Core.Path.{◌≡◌, refl}
use mathlib.Core.Bool.{Bool, true, false}
use mathlib.Core.Logic.{◌⊎◌, inl, inr}

pub data Result (E A : Type 0) : Type 0 where
  ok : A → Result E A
  err : E → Result E A

-- `if !test { return x }`
abbrev pub guard : {E : Type 0} → Bool → E → Result E (Unit {0})
guard false x = err x
guard true x = ok tt

-- The next statement runs on the value, unless there is an error to return.
abbrev pub ◌>>=◌ : {E A B : Type 0} → Result E A → (A → Result E B) → Result E B
err x >>= next = err x
ok v >>= next = next v

abbrev pub ◌>>◌ : {E B : Type 0} → Result E (Unit {0}) → Result E B → Result E B
first >> next = first >>= λ _. next

infixl 5 ◌>>=◌ ◌>>◌
-- Inversion of a successful bind.
pub >>=-eq-ok :
    {E A B : Type 0} (m : Result E A) (next : A → Result E B) {v : B}
    → (m >>= next) ≡ ok v
    → (w : A) × (m ≡ ok w) × (next w ≡ ok v)
>>=-eq-ok (err x) next h = cc
>>=-eq-ok (ok w) next h = (w, refl, h)

pub Result-cases :
    {E A : Type 0} (m : Result E A) → ((a : A) × (m ≡ ok a)) ⊎ ((e : E) × (m ≡ err e))
Result-cases (ok a) = inl (a, refl)
Result-cases (err e) = inr (e, refl)

pub ok-injective : {E A : Type 0} (a b : A) → Path (Result E A) (ok a) (ok b) → a ≡ b
ok-injective a b h = cc
