-- ===== src/Prelude/Results.antt =====
-- A value or an error, with the bind that stops at the first error.
use mathlib.Core.Path.{◌≡◌, refl}

pub data Except (E A : Type 0) : Type 0 where
  ok : A → Except E A
  err : E → Except E A

infixl 5 ◌>>=◌
abbrev pub ◌>>=◌ : {E A B : Type 0} → Except E A → (A → Except E B) → Except E B
err failure >>= next = err failure
ok value >>= next = next value

pub ok_injective : {E A : Type 0} {a b : A} → ◌≡◌ {A = Except E A} (ok a) (ok b) → a ≡ b
ok_injective h = cc

-- Two steps that succeed together succeed one after the other.
pub >>=-eq-ok :
    {E A B : Type 0} {last : B} (first : Except E A) (next : A → Except E B)
    → (first >>= next) ≡ ok last
    → (value : A) × (first ≡ ok value) × (next value ≡ ok last)
>>=-eq-ok (err failure) next both = cc
>>=-eq-ok (ok value) next both = (value, refl, both)
