-- ===== src/Mandate/Service/Settling.antt =====
-- What settling and releasing a hold does to the limits (packages/mandate/src/service/gate-service.ts,
-- `resolveSpend`).
use mathlib.Core.Path.{subst}
use atlas_rail.Common.{
  none, ok, err, Result, ◌⊎◌, String, Bool, some, List, [], ◌∷◌, find, ◌==◌, string_eq,
  Option-cases, Bool-cases, inl, inr, if◌then◌else◌, ◌≡◌, refl, sym, arith,
}
use atlas_rail.Mandate.Documents.{GateAuthorization}
use atlas_rail.Mandate.Service.Ports.{
  StoredDecision, SpendEntry, SpendStatus, spend_status_eq, PaymentOutcome, SpendResolution, Thrown,
}
use atlas_rail.Mandate.Service.World.{World, Deps}
use atlas_rail.Mandate.Service.Store.Table.{change_first}
use atlas_rail.Mandate.Service.Store.Mandates.{}
use atlas_rail.Mandate.Service.Store.Decisions.{get_decision}
use atlas_rail.Mandate.Service.Store.Spend.{settle_entry, release_entry}
use atlas_rail.Mandate.Service.Assess.{}
use atlas_rail.Mandate.Service.Evaluate.{}
use atlas_rail.Mandate.Service.Resolve.{held, payment_outcome, resolve_spend, apply_outcome}
use atlas_rail.Mandate.Service.Same.{}
use atlas_rail.Mandate.Service.Assessed.{}
use atlas_rail.Mandate.Service.Carried.{}
use atlas_rail.Mandate.Service.Answered.{}
use atlas_rail.Mandate.Service.Limits.{Within, change-Within}
use atlas_rail.Mandate.Service.Extends.{}
use atlas_rail.Mandate.Service.Steady.{}
use atlas_rail.Mandate.Service.System.{}
use atlas_rail.Mandate.Service.Spending.{Kept, same-Kept}

-- The test finds the same entry to change, and the two changes agree on it.
change_first-cong :
    (same : SpendEntry → Bool) (f g : SpendEntry → SpendEntry) (es : List SpendEntry)
    → ((e : SpendEntry) → find same es ≡ some e → f e ≡ g e)
    → change_first same f es ≡ change_first same g es
change_first-cong same f g [] h = refl
change_first-cong same f g (e ∷ es) h = elim (Bool-cases (same e)) [
  | inl k ↦ ground (arith, h e (ground arith))
  | inr k ↦ ground (arith, change_first-cong same f g es (λ x j. h x (ground arith)))
]

-- The hold of a decision was released.
abbrev pub IsReleased : String → World → Type 0
IsReleased decision_id w =
    (e : SpendEntry) × (find (λ x. x.decision_id == decision_id) w.spend ≡ some e)
    × (e.status ≡ SpendStatus.released)

-- The chain does not report a payment as landed whose hold was released.
abbrev pub IsFinal : Deps → World → Type 0
IsFinal deps w =
    (organization_id decision_id transaction signature : String) (d : StoredDecision)
    (authorization : GateAuthorization)
    → get_decision organization_id decision_id w ≡ some d
    → held d ≡ some authorization
    → payment_outcome deps authorization transaction w ≡ some (PaymentOutcome.landed signature)
    → ¬ IsReleased decision_id w

release-Kept :
    (id : String) (w : World)
    → Kept w
    → Within w.mandates (change_first (λ e. e.decision_id == id) release_entry w.spend)
release-Kept id w k =
    change-Within w.mandates (λ e. e.decision_id == id) release_entry w.spend (λ e. ground arith)
      (λ o m e h. ground arith) (λ o m since until e h. ground arith) k

abbrev settle_unreleased : String → SpendEntry → SpendEntry
settle_unreleased signature e =
    if e.status == SpendStatus.released then e else settle_entry signature e

settle-Kept :
    (id signature : String) (w : World)
    → ¬ IsReleased id w
    → Kept w
    → Within w.mandates (change_first (λ e. e.decision_id == id) (settle_entry signature) w.spend)
settle-Kept id signature w final k =
    subst (Within w.mandates)
      (sym (
        change_first-cong (λ e. e.decision_id == id) (settle_entry signature)
          (settle_unreleased signature) w.spend (λ e h. unreleased e h)))
      (change-Within w.mandates (λ e. e.decision_id == id) (settle_unreleased signature) w.spend
        (λ e. ground arith) (λ o m e h. ground arith) (λ o m since until e h. ground arith) k)
  where
    unreleased :
        (e : SpendEntry)
        → find (λ x. x.decision_id == id) w.spend ≡ some e
        → settle_entry signature e ≡ settle_unreleased signature e
    unreleased e h = elim (Bool-cases (e.status == SpendStatus.released)) [
      | inl j ↦ absurd (final (e, h, (spend_status_eq.beq_iff e.status SpendStatus.released).0 j))
      | inr j ↦ ground arith
    ]

-- The outcomes after which the payment cannot land any more.
abbrev pub IsOver : PaymentOutcome → Type 0
IsOver outcome =
    ((signature : String) × (outcome ≡ PaymentOutcome.failed signature))
    ⊎ (outcome ≡ PaymentOutcome.expired)

-- What `resolveSpend` returns or throws, and the stores after it.
pub data Resolved (deps : Deps) (organization_id id transaction : String) (w : World)
    : Result Thrown SpendResolution × World → Type 0 where
  unknown :
      get_decision organization_id id w ≡ none
      → Resolved deps organization_id id transaction w (err Thrown.not_found, w)
  unheld :
      (d : StoredDecision)
      → get_decision organization_id id w ≡ some d
      → held d ≡ none
      → Resolved deps organization_id id transaction w (err Thrown.not_an_allow, w)
  waiting :
      (d : StoredDecision) (authorization : GateAuthorization)
      → get_decision organization_id id w ≡ some d
      → held d ≡ some authorization
      → (payment_outcome deps authorization transaction w ≡ none)
        ⊎ (payment_outcome deps authorization transaction w ≡ some PaymentOutcome.pending)
      → Resolved deps organization_id id transaction w (ok SpendResolution.pending, w)
  another :
      (d : StoredDecision) (authorization : GateAuthorization)
      → get_decision organization_id id w ≡ some d
      → held d ≡ some authorization
      → payment_outcome deps authorization transaction w ≡ some PaymentOutcome.mismatch
      → Resolved deps organization_id id transaction w (err Thrown.wrong_transaction, w)
  freed :
      (d : StoredDecision) (authorization : GateAuthorization) (outcome : PaymentOutcome)
      → get_decision organization_id id w ≡ some d
      → held d ≡ some authorization
      → payment_outcome deps authorization transaction w ≡ some outcome
      → IsOver outcome
      → Resolved deps organization_id id transaction w (
        ok SpendResolution.released,
        record w { spend = change_first (λ e. e.decision_id == id) release_entry w.spend },
      )
  paid :
      (d : StoredDecision) (authorization : GateAuthorization) (signature : String)
      → get_decision organization_id id w ≡ some d
      → held d ≡ some authorization
      → payment_outcome deps authorization transaction w ≡ some (PaymentOutcome.landed signature)
      → Resolved deps organization_id id transaction w (
        ok (SpendResolution.settled signature),
        record w {
          spend = change_first (λ e. e.decision_id == id) (settle_entry signature) w.spend;
        },
      )

pub resolve-Resolved :
    (deps : Deps) (o id transaction : String) (w : World)
    → Resolved deps o id transaction w (resolve_spend deps o id transaction w)
unfolding resolve_spend apply_outcome
resolve-Resolved deps o id transaction w = elim (Option-cases (get_decision o id w)) [
  | inl e ↦ subst (Resolved deps o id transaction w) (ground arith) (unknown e)
  | inr (d, e) ↦ elim (Option-cases (held d)) [
    | inl f ↦ subst (Resolved deps o id transaction w) (ground arith) (unheld d e f)
    | inr (authorization, f) ↦
        elim (Option-cases (payment_outcome deps authorization transaction w)) [
          | inl g ↦
              subst (Resolved deps o id transaction w) (ground arith)
                (waiting d authorization e f (inl g))
          | inr (outcome, g) ↦ by_outcome outcome d authorization e f g
        ]
  ]
]
  where
    by_outcome :
        (outcome : PaymentOutcome) (d : StoredDecision) (authorization : GateAuthorization)
        → get_decision o id w ≡ some d
        → held d ≡ some authorization
        → payment_outcome deps authorization transaction w ≡ some outcome
        → Resolved deps o id transaction w (resolve_spend deps o id transaction w)
    by_outcome (PaymentOutcome.landed signature) d authorization e f g =
        subst (Resolved deps o id transaction w) (ground arith)
          (paid d authorization signature e f g)
    by_outcome (PaymentOutcome.failed signature) d authorization e f g =
        subst (Resolved deps o id transaction w) (ground arith)
          (freed d authorization _ e f g (inl (signature, refl)))
    by_outcome PaymentOutcome.expired d authorization e f g =
        subst (Resolved deps o id transaction w) (ground arith)
          (freed d authorization _ e f g (inr refl))
    by_outcome PaymentOutcome.pending d authorization e f g =
        subst (Resolved deps o id transaction w) (ground arith)
          (waiting d authorization e f (inr g))
    by_outcome PaymentOutcome.mismatch d authorization e f g =
        subst (Resolved deps o id transaction w) (ground arith) (another d authorization e f g)

pub resolve-Kept :
    (deps : Deps) (o id transaction : String) (w : World)
    → IsFinal deps w
    → Kept w
    → let v = (resolve_spend deps o id transaction w).1 in Kept v × (v.mandates ≡ w.mandates)
resolve-Kept deps o id transaction w final k = by_effect (resolve-Resolved deps o id transaction w)
  where
    by_effect :
        {r : Result Thrown SpendResolution × World}
        → Resolved deps o id transaction w r
        → Kept r.1 × (r.1.mandates ≡ w.mandates)
    by_effect (unknown _) = (k, refl)
    by_effect (unheld _ _ _) = (k, refl)
    by_effect (waiting _ _ _ _ _) = (k, refl)
    by_effect (another _ _ _ _ _) = (k, refl)
    by_effect (freed _ _ _ _ _ _ _) = (same-Kept refl refl (release-Kept id w k), refl)
    by_effect (paid d authorization signature e f g) = (
      same-Kept refl refl
          (settle-Kept id signature w (final o id transaction signature d authorization e f g) k),
      refl,
    )
