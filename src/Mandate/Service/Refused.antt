-- ===== src/Mandate/Service/Refused.antt =====
-- When carrying out the answer of the gate throws (packages/mandate/src/service/gate-service.ts,
-- `evaluateFresh`), and when the decision is not stored.
use mathlib.Core.Path.{subst}
use atlas_rail.Common.{
  String, true, false, Bool-cases, Option-cases, inl, inr, arith, Option, none, some, err, Result,
  ◌≡◌, refl, string_eq,
}
use atlas_rail.Mandate.Records.{GateVerdict, GateSimulation, GateResult}
use atlas_rail.Mandate.Documents.{Platform, SignedDecision, GateAuthorization}
use atlas_rail.Mandate.Gate.Evaluate.{}
use atlas_rail.Mandate.Decision.Record.{create_gate_authorization}
use atlas_rail.Mandate.Service.Ports.{ApprovalRecord, Thrown}
use atlas_rail.Mandate.Service.World.{World, Deps}
use atlas_rail.Mandate.Service.Store.Decisions.{id_taken}
use atlas_rail.Mandate.Service.Store.Approvals.{row, consumable, consume}
use atlas_rail.Mandate.Service.Assess.{Admitted, Assessment}
use atlas_rail.Mandate.Service.Branches.{
  authorization_body, spent_approval, consume_given, hold_spend, grant, ask, carry_out,
}
use atlas_rail.Mandate.Service.Evaluate.{file_decision}
use atlas_rail.Mandate.Service.Carried.{Verdict-cases}

thrown-same : {A : Type 0} {x e : Thrown} → ◌≡◌ {A = Result Thrown A} (err x) (err e) → x ≡ e
thrown-same h = ground arith

module _ ⦃env : Platform⦄ (deps : Deps) (a : Admitted) (s : Assessment) (id : String)
    (signed : SignedDecision) (w : World) where
  -- Why an ALLOW is not carried out: there is no simulation to authorize, the instance does not sign,
  -- or the approval that it rests on is not there to be used.
  pub data Refused : Thrown → Type 0 where
    unsimulated : s.context.simulation ≡ none → Refused Thrown.allow_without_simulation
    unauthorized :
        (simulation : GateSimulation)
        → s.context.simulation ≡ some simulation
        → create_gate_authorization
            (authorization_body deps a id signed simulation)
            deps.instance_signer
          ≡ none
        → Refused Thrown.instance_signer_failed
    used_up :
        (approval_id : String)
        → spent_approval s.result.kind a.request.approval_id ≡ some approval_id
        → consumable a.organization_id (row approval_id w) ≡ false
        → Refused Thrown.approval_already_used

  consume-Refused :
      (given : Option String) (e : Thrown)
      → spent_approval s.result.kind a.request.approval_id ≡ given
      → (consume_given a.organization_id given w).0 ≡ err e
      → Refused e
  unfolding consume
  consume-Refused none e g h = absurd (ground arith)
  consume-Refused (some approval_id) e g h =
      elim (Bool-cases (consumable a.organization_id (row approval_id w))) [
        | inl c ↦ absurd (ground (arith, c))
        | inr c ↦ subst Refused (ground (arith, c)) (used_up approval_id g c)
      ]

  hold-Refused : (e : Thrown) → (hold_spend deps a s.result id w).0 ≡ err e → Refused e
  unfolding hold_spend
  hold-Refused e h =
      consume-Refused (spent_approval s.result.kind a.request.approval_id) e refl (ground arith)

  grant-Refused : (e : Thrown) → (grant deps a s id signed w).0 ≡ err e → Refused e
  unfolding grant
  grant-Refused e h = elim (Option-cases s.context.simulation) [
    | inl f ↦ subst Refused (ground (arith, f)) (unsimulated f)
    | inr (simulation, f) ↦
        elim (Option-cases (
          create_gate_authorization (authorization_body deps a id signed simulation)
            deps.instance_signer)) [
              | inl g ↦ subst Refused (ground (arith, f, g)) (unauthorized simulation f g)
              | inr (authorization, g) ↦ hold-Refused e (ground (arith, f, g))
            ]
  ]

  pub carry-Refused :
      (e : Thrown)
      → (carry_out deps a s id signed w).0 ≡ err e
      → (s.result.decision ≡ GateVerdict.allow) × Refused e
  unfolding carry_out ask
  carry-Refused e h = elim (Verdict-cases s.result.decision) [
    | inl d ↦ (d, grant-Refused e (ground (arith, d)))
    | inr (inl d) ↦ absurd (ground (arith, d))
    | inr (inr d) ↦ absurd (ground (arith, d))
  ]

-- Storing a decision throws only where its id is taken.
pub file-taken :
    ⦃env : Platform⦄ (deps : Deps) (a : Admitted) (result : GateResult) (id : String)
    (signed : SignedDecision) (g : Option GateAuthorization × Option ApprovalRecord) (w : World)
    (e : Thrown)
    → (file_decision deps a result id signed g w).0 ≡ err e
    → (e ≡ Thrown.duplicate_decision) × (id_taken signed.body.id w ≡ true)
unfolding file_decision
file-taken deps a result id signed g w e h = ground arith
