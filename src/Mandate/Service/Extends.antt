-- ===== src/Mandate/Service/Extends.antt =====
-- How the store of mandates changes (packages/mandate/src/service/memory.ts, lifecycle.ts): a mandate
-- is added, or a record is replaced by one with the same signed content.
use mathlib.Core.Path.{subst}
use atlas_rail.Common.{
  ℕ, ◌+◌, ◌≤◌, String, Bool, true, Option, none, some, List, [], ◌∷◌, find, string_eq, Bool-cases,
  inl, inr, if◌then◌else◌, ◌≡◌, refl, sym, ◌∙◌, ap, arith,
}
use atlas_rail.Mandate.Service.Ports.{MandateRecord, MandateRevocation, SpendEntry}
use atlas_rail.Mandate.Service.World.{}
use atlas_rail.Mandate.Service.Store.Table.{put}
use atlas_rail.Mandate.Service.Store.Mandates.{keyed}
use atlas_rail.Mandate.Service.Assess.{}
use atlas_rail.Mandate.Service.Budget.{sum_of, spent_on, autonomous_on, autonomous_on-spent_on}
use atlas_rail.Mandate.Service.Limits.{Within, total_limit, window_limit, window_of}

pub find-holds : {A : Type 0} (p : A → Bool) (xs : List A) (a : A) → find p xs ≡ some a → p a ≡ true
find-holds p [] a h = absurd (ground arith)
find-holds p (x ∷ xs) a h = ground (arith, find-holds p xs a)

-- A record is found under its key after it was put there, and nothing else changes.
pub find-put :
    (o m : String) (r : MandateRecord) (rows : List MandateRecord)
    → find (keyed o m) (put (keyed r.organization_id r.mandate.id) r rows)
      ≡ (if keyed o m r then some r else find (keyed o m) rows)
find-put o m r [] = ground arith
find-put o m r (x ∷ rows) = ground (
  arith,
  find-put o m r rows,
  string_eq.beq_iff x.organization_id r.organization_id,
  string_eq.beq_iff x.mandate.id r.mandate.id,
  string_eq.beq_iff r.organization_id o,
  string_eq.beq_iff r.mandate.id m,
  string_eq.beq_iff x.organization_id o,
  string_eq.beq_iff x.mandate.id m,
)

-- A revocation is never taken back.
abbrev pub KeepsRevocation : MandateRecord → MandateRecord → Type 0
KeepsRevocation r s = (x : MandateRevocation) → r.revocation ≡ some x → s.revocation ≡ some x

-- What a key may lead to afterwards.
pub data Successor (before after : Option MandateRecord) : Type 0 where
  kept : after ≡ before → Successor before after
  added : before ≡ none → Successor before after
  replaced :
      (r s : MandateRecord)
      → before ≡ some r
      → after ≡ some s
      → s.mandate.body ≡ r.mandate.body
      → KeepsRevocation r s
      → Successor before after

abbrev pub Extends : List MandateRecord → List MandateRecord → Type 0
Extends before after = (o m : String) → Successor (find (keyed o m) before) (find (keyed o m) after)

pub Extends-refl : (rows : List MandateRecord) → Extends rows rows
Extends-refl rows o m = kept refl

put-Extends :
    (rows : List MandateRecord) (r : MandateRecord)
    → Successor (find (keyed r.organization_id r.mandate.id) rows) (some r)
    → Extends rows (put (keyed r.organization_id r.mandate.id) r rows)
put-Extends rows r s o m = elim (Bool-cases (keyed o m r)) [
  | inr e ↦ kept (ground (arith, find-put o m r rows))
  | inl e ↦
      let same_o = (string_eq.beq_iff r.organization_id o).0 (ground arith) in
      let same_m = (string_eq.beq_iff r.mandate.id m).0 (ground arith) in
      subst (Successor (find (keyed o m) rows)) (ground (arith, find-put o m r rows)) (
        subst (λ x. Successor (find (keyed x m) rows) (some r)) same_o
          (subst (λ x. Successor (find (keyed r.organization_id x) rows) (some r)) same_m s))
]

pub add-Extends :
    (rows : List MandateRecord) (r : MandateRecord)
    → find (keyed r.organization_id r.mandate.id) rows ≡ none
    → Extends rows (put (keyed r.organization_id r.mandate.id) r rows)
add-Extends rows r e = put-Extends rows r (added e)

pub replace-Extends :
    (rows : List MandateRecord) (r s : MandateRecord) (o m : String)
    → find (keyed o m) rows ≡ some r
    → s.organization_id ≡ r.organization_id
    → s.mandate.body ≡ r.mandate.body
    → KeepsRevocation r s
    → Extends rows (put (keyed s.organization_id s.mandate.id) s rows)
replace-Extends rows r s o m e same_o same_body keeps =
    let holds = find-holds (keyed o m) rows r e in
    let org = (string_eq.beq_iff r.organization_id o).0 (ground arith) in
    let id = (string_eq.beq_iff r.mandate.id m).0 (ground arith) in
    put-Extends rows s (
      replaced r s
        (ap (λ x. find (keyed x s.mandate.id) rows) (same_o ∙ org)
          ∙ ap (λ x. find (keyed o x) rows) (ap (λ b. b.id) same_body ∙ id)
          ∙ e)
        refl same_body keeps)

module _ (spend : List SpendEntry) where
  -- What a key may lead to keeps its limits.
  abbrev TotalKept : String → String → Option MandateRecord → Type 0
  TotalKept o m r = sum_of (spent_on o m) spend ≤ total_limit r

  abbrev WindowKept : String → String → ℕ → Option MandateRecord → Type 0
  WindowKept o m since r =
      sum_of (autonomous_on o m since (since + window_of r)) spend ≤ window_limit r

  total-kept :
      {before after : Option MandateRecord} (o m : String)
      → Successor before after
      → TotalKept o m before
      → TotalKept o m after
  total-kept o m (kept e) h = subst (TotalKept o m) (sym e) h
  total-kept o m (added e) h = omega (arith, h, ap total_limit e)
  total-kept o m (replaced r s e f g _) h =
      omega (arith, h, ap total_limit e, ap total_limit f, ap (λ b. b.scope.limits.max_total) g)

  window-kept :
      {before after : Option MandateRecord} (o m : String) (since : ℕ)
      → Successor before after
      → TotalKept o m before
      → WindowKept o m since before
      → WindowKept o m since after
  window-kept o m since (kept e) t h = subst (WindowKept o m since) (sym e) h
  window-kept {after = after} o m since (added e) t h =
      omega (
        arith,
        t,
        ap total_limit e,
        autonomous_on-spent_on o m since (since + window_of after) spend,
      )
  window-kept {after = after} o m since (replaced r s e f g _) t h =
      subst (λ x. sum_of (autonomous_on o m since (since + x)) spend ≤ window_limit after)
        (ap window_of e ∙ ap (λ b. b.scope.limits.window_seconds) (sym g) ∙ sym (ap window_of f))
        (omega (
          arith,
          h,
          ap window_limit e,
          ap window_limit f,
          ap (λ b. b.scope.limits.max_per_window) g,
        ))

  pub Extends-Within :
      (before after : List MandateRecord)
      → Extends before after
      → Within before spend
      → Within after spend
  Extends-Within before after x within = record {
    total = λ o m. total-kept o m (x o m) (within.total o m);
    window =
        λ o m since. window-kept o m since (x o m) (within.total o m) (within.window o m since);
  }
