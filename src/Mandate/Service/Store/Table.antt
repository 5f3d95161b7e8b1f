-- ===== src/Mandate/Service/Store/Table.antt =====
-- packages/mandate/src/service/memory.ts: maps as the lists of their values in the order of insertion,
-- and the ends of lists.
use atlas_rail.Common.{ℕ, zero, suc, Bool, true, false, List, [], ◌∷◌, ◌++◌, string_eq}

module _ {A : Type 0} (same : A → Bool) where
  -- `map.set`: in the place of the value with the key, or at the end.
  abbrev pub put : A → List A → List A
  put a [] = a ∷ []
  put a (x ∷ xs) = let rest = put a xs in elim (same x) [ true ↦ a ∷ xs | false ↦ x ∷ rest ]

  -- A change of the first value that passes the test.
  abbrev pub change_first : (A → A) → List A → List A
  change_first change [] = []
  change_first change (x ∷ xs) =
      let rest = change_first change xs in elim (same x) [ true ↦ change x ∷ xs | false ↦ x ∷ rest ]

abbrev pub last_first : {A : Type 0} → List A → List A
last_first [] = []
last_first (x ∷ xs) = last_first xs ++ x ∷ []

abbrev pub first_of : {A : Type 0} → ℕ → List A → List A
first_of n [] = []
first_of zero (x ∷ xs) = []
first_of (suc n) (x ∷ xs) = x ∷ first_of n xs
