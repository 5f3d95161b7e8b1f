-- ===== src/Mandate/Service/Carried.antt =====
-- What a request that was not answered before does to the stores
-- (packages/mandate/src/service/gate-service.ts, `evaluateFresh`), by the answer of the gate.
use mathlib.Core.Path.{subst}
use atlas_rail.Common.{String, Option-cases, inl, inr, arith, Option, none, some, ◌≡◌, ◌⊎◌, refl}
use atlas_rail.Mandate.Records.{GateVerdict}
use atlas_rail.Mandate.Documents.{Platform, SignedDecision, GateAuthorization}
use atlas_rail.Mandate.Decision.Record.{create_gate_authorization}
use atlas_rail.Mandate.Service.Ports.{ApprovalRecord, Thrown}
use atlas_rail.Mandate.Service.World.{World, Deps}
use atlas_rail.Mandate.Service.Store.Approvals.{set_approval}
use atlas_rail.Mandate.Service.Assess.{Admitted, Assessment}
use atlas_rail.Mandate.Service.Branches.{
  authorization_body, grant, ask, carry_out, approval_request,
}
use atlas_rail.Mandate.Service.Evaluate.{}
use atlas_rail.Mandate.Service.Same.{}
use atlas_rail.Mandate.Service.Assessed.{}
use atlas_rail.Mandate.Service.Effects.{Held, Does, hold-Held}

pub Verdict-cases :
    (d : GateVerdict)
    → (d ≡ GateVerdict.allow) ⊎ ((d ≡ GateVerdict.escalate) ⊎ (d ≡ GateVerdict.deny))
Verdict-cases GateVerdict.allow = inl refl
Verdict-cases GateVerdict.escalate = inr (inl refl)
Verdict-cases GateVerdict.deny = inr (inr refl)

module _ ⦃env : Platform⦄ (deps : Deps) (a : Admitted) (s : Assessment) (id : String)
    (signed : SignedDecision) where
  -- An ALLOW: the authorization, for the transaction that was simulated, and the hold on the budget.
  pub record Granted (authorization : GateAuthorization) (w v : World) : Type 0 where
    pub created :
        (simulation : _) × (s.context.simulation ≡ some simulation)
        × (create_gate_authorization
              (authorization_body deps a id signed simulation)
              deps.instance_signer
            ≡ some authorization)
    pub hold : Held deps a s.result id w v

  grant-Granted : (w : World) → Does (λ w x v. Granted x w v) w (grant deps a s id signed w)
  unfolding grant
  grant-Granted w = elim (Option-cases s.context.simulation) [
    | inl e ↦ inr (Thrown.allow_without_simulation, ground arith, ground arith)
    | inr (simulation, e) ↦
        elim (Option-cases (
          create_gate_authorization (authorization_body deps a id signed simulation)
            deps.instance_signer)) [
              | inl f ↦ inr (Thrown.instance_signer_failed, ground arith, ground arith)
              | inr (authorization, f) ↦ elim (hold-Held deps a s.result id w) [
                | inr (x, g, h) ↦ inr (x, ground arith, ground arith)
                | inl (x, g, held) ↦ inl (
                  authorization,
                  ground arith,
                  record {
                    created = (simulation, e, f);
                    hold = subst (Held deps a s.result id w) (ground arith) held;
                  },
                )
              ]
            ]
  ]

  -- An ESCALATE: a request for approval, with an id that was not drawn before.
  pub record Asked (created : ApprovalRecord) (w v : World) : Type 0 where
    pub made : created ≡ approval_request a s.result id (deps.new_id "apr" w.drawn)
    pub approvals : v.approvals ≡ (set_approval created w).approvals
    pub spend : v.spend ≡ w.spend
    pub mandates : v.mandates ≡ w.mandates
    pub decisions : v.decisions ≡ w.decisions
    pub clock : v.clock ≡ w.clock

  -- What the code does by the answer of the gate.
  pub data Carried (w : World)
      : Option GateAuthorization × Option ApprovalRecord → World → Type 0 where
    allowed :
        (authorization : GateAuthorization) (v : World)
        → s.result.decision ≡ GateVerdict.allow
        → Granted authorization w v
        → Carried w (some authorization, none) v
    escalated :
        (created : ApprovalRecord) (v : World)
        → s.result.decision ≡ GateVerdict.escalate
        → Asked created w v
        → Carried w (none, some created) v
    denied : s.result.decision ≡ GateVerdict.deny → Carried w (none, none) w

  pub carry-Carried : (w : World) → Does Carried w (carry_out deps a s id signed w)
  unfolding carry_out ask
  carry-Carried w = elim (Verdict-cases s.result.decision) [
    | inl d ↦ elim (grant-Granted w) [
      | inr (x, g, h) ↦ inr (x, ground arith, ground arith)
      | inl (authorization, g, granted) ↦ inl (
        (some authorization, none),
        ground arith,
        allowed authorization _ d (subst (Granted authorization w) (ground arith) granted),
      )
    ]
    | inr (inl d) ↦ inl (
      (none, some (approval_request a s.result id (deps.new_id "apr" w.drawn))),
      ground arith,
      escalated _ _ d (record {
        made = refl;
        approvals = ground arith;
        spend = ground arith;
        mandates = ground arith;
        decisions = ground arith;
        clock = ground arith;
      }),
    )
    | inr (inr d) ↦
        inl ((none, none), ground arith, subst (Carried w (none, none)) (ground arith) (denied d))
  ]
