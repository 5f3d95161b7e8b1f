-- ===== src/Mandate/Service/Sound.antt =====
-- What holds of every stored mandate (packages/mandate/src/service/lifecycle.ts).
use mathlib.Core.Path.{subst}
use atlas_rail.Common.{
  String, Bool, true, false, any, Option, none, some, List, [], ◌∷◌, ◌++◌, find, string_eq,
  Option-cases, Bool-cases, inl, inr, ◌≡◌, refl, sym, ap, ◌⊎◌, arith, All, Distinct, Member,
}
use atlas_rail.Mandate.Types.{role_eq, shaped}
use atlas_rail.Mandate.Documents.{Platform}
use atlas_rail.Mandate.Chain.Roles.{hash_mandate}
use atlas_rail.Mandate.Chain.Verify.{verify_mandate_chain}
use atlas_rail.Mandate.Decision.Record.{truthy}
use atlas_rail.Mandate.Service.Ports.{
  MandateStatus, mandate_status_eq, MandateSignerRecord, MandateRecord,
}
use atlas_rail.Mandate.Service.World.{}
use atlas_rail.Mandate.Service.Store.Table.{put}
use atlas_rail.Mandate.Service.Store.Mandates.{}
use atlas_rail.Mandate.Service.Lifecycle.{user_is, has_signed}
use atlas_rail.Mandate.Service.Steady.{}

module _ {A : Type 0} (P : A → Type 0) where
  pub put-All : (same : A → Bool) (a : A) (xs : List A) → All P xs → P a → All P (put same a xs)
  put-All same a [] h p = (p, tt)
  put-All same a (x ∷ xs) h p = elim (Bool-cases (same x)) [
    | inl e ↦ rw (e, put) (p, h.1)
    | inr e ↦ rw (e, put) (h.0, put-All same a xs h.1 p)
  ]

  pub find-All : (test : A → Bool) (xs : List A) (a : A) → All P xs → find test xs ≡ some a → P a
  find-All test [] a h e = absurd (ground arith)
  find-All test (x ∷ xs) a h e = elim (Bool-cases (test x)) [
    | inl k ↦ subst P (some-same (ground arith)) h.0
    | inr k ↦ find-All test xs a h.1 (ground arith)
  ]
    where
      some-same : {x y : A} → ◌≡◌ {A = Option A} (some x) (some y) → x ≡ y
      some-same e = ground arith

-- The console users who signed.
abbrev pub users : List MandateSignerRecord → List String
users [] = []
users (s ∷ ss) = let rest = users ss in elim (truthy s.user_id) [ none ↦ rest | some u ↦ u ∷ rest ]

-- `record.signers.some((s) => s.userId === params.userId)`
abbrev signed_by : String → List MandateSignerRecord → Bool
signed_by u ss = any (λ s. user_is s.user_id u) ss

users-append :
    (ss : List MandateSignerRecord) (s : MandateSignerRecord)
    → users (ss ++ s ∷ []) ≡ users ss ++ users (s ∷ [])
users-append [] s = ground arith
users-append (x ∷ ss) s = ground (arith, users-append ss s)

truthy-some : (o : Option String) {t : String} → truthy o ≡ some t → o ≡ some t
truthy-some none h = h
truthy-some (some x) h = ground arith

Member-snoc :
    (x : String) (xs : List String) (u : String) → Member x (xs ++ u ∷ []) → Member x xs ⊎ (u ≡ x)
Member-snoc x [] u m = ground arith
Member-snoc x (y ∷ xs) u m = ground (arith, Member-snoc x xs u)

append_nil : (xs : List String) → xs ≡ xs ++ []
append_nil [] = refl
append_nil (x ∷ xs) = ap (λ ys. x ∷ ys) (append_nil xs)

Member-users :
    (u : String) (ss : List MandateSignerRecord) → Member u (users ss) → signed_by u ss ≡ true
Member-users u [] h = absurd h
Member-users u (s ∷ ss) h = elim (Option-cases (truthy s.user_id)) [
  | inl e ↦ ground (arith, Member-users u ss)
  | inr (t, e) ↦ ground (arith, Member-users u ss, string_eq.beq_iff t u, truthy-some s.user_id e)
]

Distinct-snoc :
    (xs : List String) (u : String) → Distinct xs → ¬ Member u xs → Distinct (xs ++ u ∷ [])
Distinct-snoc [] u d n = (λ m. absurd m, tt)
Distinct-snoc (x ∷ xs) u d n =
    (λ m. ground (arith, d.0, n, Member-snoc x xs u m), Distinct-snoc xs u d.1 (λ m. n (inr m)))

pub users-Distinct :
    (user_id : Option String) (r : MandateRecord) (s : MandateSignerRecord)
    → s.user_id ≡ user_id
    → has_signed user_id r ≡ false
    → Distinct (users r.signers)
    → Distinct (users (r.signers ++ s ∷ []))
users-Distinct user_id r s e f d =
    let p = ap truthy e in
    subst Distinct (sym (users-append r.signers s)) (elim (Option-cases (truthy user_id)) [
      | inl g ↦
          subst (λ x. Distinct (users r.signers ++ x)) (ground arith)
            (subst Distinct (append_nil (users r.signers)) d)
      | inr (u, g) ↦
          subst (λ x. Distinct (users r.signers ++ x)) (ground arith)
            (Distinct-snoc (users r.signers) u d (λ m. ground (arith, Member-users u r.signers m)))
    ])

-- A mandate that is active has a chain that verifies, its stored hash is its hash, and no user signed
-- it twice.
pub record IsSound ⦃env : Platform⦄ (r : MandateRecord) : Type 0 where
  pub verified :
      r.status ≡ MandateStatus.active → (verify_mandate_chain (shaped r.mandate) none).valid ≡ true
  pub hashed : r.mandate_hash ≡ hash_mandate r.mandate
  pub independent : Distinct (users r.signers)
