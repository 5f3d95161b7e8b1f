-- ===== src/Common/Lists.antt =====
-- Lists measured by native numbers, with the Boolean searches and the predicates that they decide.
use Prim.Native.Nat.{ℕ, zero, suc, ◌+◌}
use mathlib.Core.Path.{◌≡◌, refl}
use mathlib.Core.Logic.{◌↔◌, ◌⊎◌}
use mathlib.Core.Bool.{Bool, true, false, not, ◌&&◌, ◌||◌}
use mathlib.Core.Option.{Option, none, some}
use mathlib.Core.List.{List, [], ◌∷◌, ◌++◌}
use native.Mathlib.Omega.{arith}
use atlas_rail.Common.Tests.{Eq, ◌==◌}

module _ {ℓ} {A : Type ℓ} where
  abbrev pub length : List A → ℕ
  length [] = 0
  length (x ∷ xs) = suc (length xs)

  abbrev pub all : (A → Bool) → List A → Bool
  all p [] = true
  all p (x ∷ xs) = p x && all p xs

  abbrev pub any : (A → Bool) → List A → Bool
  any p [] = false
  any p (x ∷ xs) = p x || any p xs

  abbrev pub find : (A → Bool) → List A → Option A
  find p [] = none
  find p (x ∷ xs) = elim (p x) [ true ↦ some x | false ↦ find p xs ]

  abbrev pub filterb : (A → Bool) → List A → List A
  filterb p [] = []
  filterb p (x ∷ xs) = let rest = filterb p xs in elim (p x) [ true ↦ x ∷ rest | false ↦ rest ]

  abbrev pub head_or : List A → A → A
  head_or [] d = d
  head_or (x ∷ xs) d = x

  -- `xs[i]`, none where it is undefined
  abbrev pub get_elem? : List A → ℕ → Option A
  get_elem? [] i = none
  get_elem? (x ∷ xs) zero = some x
  get_elem? (x ∷ xs) (suc i) = get_elem? xs i

  abbrev pub last? : List A → Option A
  last? [] = none
  last? (x ∷ []) = some x
  last? (x ∷ y ∷ ys) = last? (y ∷ ys)

  pub length-append : (xs ys : List A) → length (xs ++ ys) ≡ length xs + length ys
  length-append [] ys = omega arith
  length-append (x ∷ xs) ys = omega (arith, length-append xs ys)

  pub last?-append : (xs : List A) (y : A) → last? (xs ++ y ∷ []) ≡ some y
  last?-append [] y = refl
  last?-append (x ∷ []) y = refl
  last?-append (x ∷ z ∷ zs) y = last?-append (z ∷ zs) y

  pub any-append : (p : A → Bool) (xs ys : List A) → any p (xs ++ ys) ≡ (any p xs || any p ys)
  any-append p [] ys = refl
  any-append p (x ∷ xs) ys = ground (arith, any-append p xs ys)

  pub any_left : (p : A → Bool) (xs ys : List A) → any p (xs ++ ys) ≡ false → any p xs ≡ false
  any_left p xs ys h = ground (arith, any-append p xs ys)

  pub all-append : (p : A → Bool) (xs ys : List A) → all p (xs ++ ys) ≡ (all p xs && all p ys)
  all-append p [] ys = refl
  all-append p (x ∷ xs) ys = ground (arith, all-append p xs ys)

module _ {ℓ κ} {A : Type ℓ} (P : A → Type κ) where
  abbrev pub All : List A → Type κ
  All [] = Unit
  All (x ∷ xs) = P x × All xs

  pub All-append : (xs ys : List A) → All xs → All ys → All (xs ++ ys)
  All-append [] ys hx hy = hy
  All-append (x ∷ xs) ys hx hy = (hx.0, All-append xs ys hx.1 hy)

-- `P` holds of some member: a sum that computes.
module _ {ℓ} {A : Type ℓ} (P : A → Type 0) where
  abbrev pub Any : List A → Type 0
  Any [] = ⊥
  Any (x ∷ xs) = P x ⊎ Any xs

module _ {A : Type 0} where
  -- `a` is a member of the list.
  abbrev pub Member : A → List A → Type 0
  Member a = Any (λ x. x ≡ a)

  -- No member occurs twice.
  abbrev pub Distinct : List A → Type 0
  Distinct [] = Unit {0}
  Distinct (x ∷ xs) = ¬ Member x xs × Distinct xs

  module _ ⦃e : Eq A⦄ where
    -- `xs.includes(a)`
    unfoldable pub contains : A → List A → Bool
    contains a xs = any (λ x. x == a) xs

    pub contains_iff : (a : A) (xs : List A) → (contains a xs ≡ true) ↔ Member a xs
    unfolding contains
    contains_iff a [] = (λ h. cc, λ h. absurd h)
    contains_iff a (x ∷ xs) = ground (arith, e.beq_iff x a, contains_iff a xs)

    -- `new Set(xs).size === xs.length`
    unfoldable pub distinct : List A → Bool
    distinct [] = true
    distinct (x ∷ xs) = not (contains x xs) && distinct xs

    pub distinct_iff : (xs : List A) → (distinct xs ≡ true) ↔ Distinct xs
    unfolding distinct
    distinct_iff [] = (λ h. tt, λ h. refl)
    distinct_iff (x ∷ xs) = ground (arith, contains_iff x xs, distinct_iff xs)

    pub not-contains_iff : (a : A) (xs : List A) → (contains a xs ≡ false) ↔ (¬ Member a xs)
    not-contains_iff a xs = ground (arith, contains_iff a xs)
