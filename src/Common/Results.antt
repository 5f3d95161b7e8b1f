-- ===== src/Common/Results.antt =====
-- Results of code that may throw.
use mathlib.Core.Path.{◌≡◌, refl}
use mathlib.Core.Logic.{◌⊎◌, inl, inr}
use mathlib.Core.Bool.{Bool, true, false}

pub data Result {ℓ κ} (E : Type κ) (A : Type ℓ) : Type (ℓ ⊔ κ) where
  ok : A → Result E A
  err : E → Result E A

module _ {ℓ κ ν} {E : Type ν} {A : Type ℓ} {B : Type κ} where
  infixl 5 ◌>>=◌
  -- What follows runs on the value, and not at all after a throw.
  abbrev pub ◌>>=◌ : Result E A → (A → Result E B) → Result E B
  err thrown >>= next = err thrown
  ok value >>= next = next value

infixl 5 ◌>>◌
-- A step that is run for its throw only.
abbrev pub ◌>>◌ {ℓ ν} : {E : Type ν} {B : Type ℓ} → Result E (Unit {0}) → Result E B → Result E B
step >> next = step >>= λ done. next

-- `if (test) throw error`
abbrev pub throw_if {ν} : {E : Type ν} → Bool → E → Result E (Unit {0})
throw_if true e = err e
throw_if false e = ok tt

pub >>=-eq-ok {ℓ κ ν} :
    {E : Type ν} {A : Type ℓ} {B : Type κ} (m : Result E A) (next : A → Result E B) {b : B}
    → (m >>= next) ≡ ok b
    → (value : A) × (m ≡ ok value) × (next value ≡ ok b)
>>=-eq-ok (ok a) f h = (a, refl, h)
>>=-eq-ok (err e) f h = cc

pub Result-cases {ℓ κ} :
    {E : Type κ} {A : Type ℓ} (r : Result E A) → ((a : A) × (r ≡ ok a)) ⊎ ((e : E) × (r ≡ err e))
Result-cases (ok a) = inl (a, refl)
Result-cases (err e) = inr (e, refl)
