-- ===== src/Mandate/Service/Evaluate.antt =====
-- packages/mandate/src/service/gate-service.ts: `AgentGateService.evaluate` and `evaluateFresh`. The
-- mandate is read and the clock is read before the lock of the mandate is taken (`admit`); the rest
-- runs with the lock held (`answer_request`).
use atlas_rail.Common.{
  ℕ, String, Bool, true, false, not, Option, none, some, List, [], ◌∷◌, ltb, ◌==◌, string_eq,
}
use atlas_rail.Mandate.Types.{AgentMandate}
use atlas_rail.Mandate.Records.{approval_status_eq, verdict_eq, GateResult}
use atlas_rail.Mandate.Documents.{
  Platform, SignedAgentGateRequest, SignedDecision, GateAuthorization,
}
use atlas_rail.Mandate.Gate.Evaluate.{}
use atlas_rail.Mandate.Decision.Record.{hash_gate_request, verify_gate_request_signature}
use atlas_rail.Mandate.Service.Ports.{
  StoredDecision, ApprovalRecord, AuditAction, ActorType, AuditEntry, AgentEvent, Thrown,
}
use atlas_rail.Mandate.Service.World.{
  Deps, Action, pure, read, or_throw, guard, ◌>>=◌, ◌>>◌, draw, emit,
}
use atlas_rail.Mandate.Service.Store.Mandates.{get_mandate}
use atlas_rail.Mandate.Service.Store.Decisions.{find_by_request, insert_decision}
use atlas_rail.Mandate.Service.Store.Spend.{}
use atlas_rail.Mandate.Service.Store.Approvals.{append_audit}
use atlas_rail.Mandate.Service.Assess.{Admitted, Assessment, distance, approval_for, assess}
use atlas_rail.Mandate.Service.Branches.{signed_decision, carry_out}

pub record GateOutcome : Type 0 where
  pub decision : SignedDecision
  pub authorization : Option GateAuthorization
  pub approval : Option ApprovalRecord
  pub mandate : AgentMandate
  pub replayed : Bool

abbrev approval_id_of : Option ApprovalRecord → Option String → Option String
approval_id_of (some created) given = some created.id
approval_id_of none given = given

abbrev approval_event : Option ApprovalRecord → ℕ → List AgentEvent
approval_event none amount = []
approval_event (some a) amount =
    AgentEvent.approval_requested a.id a.mandate_id a.decision_id amount a.expires_at
      a.required_roles
    ∷ []

abbrev pub decision_audit : Admitted → GateResult → SignedDecision → String → AuditEntry
decision_audit a result signed decision_id = record {
  organization_id = a.organization_id;
  actor_type = ActorType.agent;
  actor_id = some a.request.agent_public_key;
  action =
      AuditAction.agent_decision result.decision decision_id signed.decision_hash result.kind
        result.failed_rule result.failed_rules a.request.offer.amount a.request.offer.pay_to
        a.request.offer.resource_url;
  resource_id = a.stored.mandate.id;
  created_at = a.now;
}

abbrev pub decision_events :
    Admitted → GateResult → String → Option ApprovalRecord → List AgentEvent
decision_events a result decision_id created =
    AgentEvent.decision_made decision_id a.stored.mandate.id result.decision result.kind
      result.failed_rule a.request.offer.amount
    ∷ approval_event created a.request.offer.amount

-- The outcome of a request that was not answered before.
abbrev pub fresh_outcome :
    Admitted → SignedDecision → Option GateAuthorization × Option ApprovalRecord → GateOutcome
fresh_outcome a signed (authorization, created) = record {
  decision = signed;
  authorization = authorization;
  approval = created;
  mandate = a.stored.mandate;
  replayed = false;
}

-- `existing.requestHash !== requestHash`
abbrev pub same_hash : Option String → String → Bool
same_hash none hash = false
same_hash (some h) hash = h == hash

-- The outcome of a request that was answered before.
abbrev pub replayed_outcome : Admitted → StoredDecision → Option ApprovalRecord → GateOutcome
replayed_outcome a existing approval = record {
  decision = existing.signed;
  authorization = existing.authorization;
  approval = approval;
  mandate = a.stored.mandate;
  replayed = true;
}

-- The stored answer to a request that was answered before.
abbrev pub replay : Admitted → StoredDecision → Action GateOutcome
replay a existing = do
  guard (not (same_hash existing.request_hash a.request_hash)) Thrown.nonce_reused
  approval ← read (approval_for a.organization_id existing.approval_id)
  pure (replayed_outcome a existing approval)

abbrev pub stored_decision :
    Admitted → SignedDecision → Option GateAuthorization → Option ApprovalRecord → StoredDecision
stored_decision a signed authorization created = record {
  organization_id = a.organization_id;
  signed = signed;
  request_hash = some a.request_hash;
  authorization = authorization;
  approval_id = approval_id_of created a.request.approval_id;
  created_at = a.now;
}

module _ ⦃env : Platform⦄ (deps : Deps) where
  -- The end of `evaluateFresh`: the decision is stored and told.
  unfoldable pub file_decision :
      Admitted
      → GateResult
      → String
      → SignedDecision
      → Option GateAuthorization × Option ApprovalRecord
      → Action GateOutcome
  file_decision a result decision_id signed (authorization, created) = do
    insert_decision (stored_decision a signed authorization created)
    append_audit (decision_audit a result signed decision_id)
    emit deps (decision_events a result decision_id created)
    pure (fresh_outcome a signed (authorization, created))

  -- From the signed decision on.
  unfoldable pub act_on : Admitted → Assessment → String → SignedDecision → Action GateOutcome
  act_on a assessed decision_id signed = do
    granted ← carry_out deps a assessed decision_id signed
    file_decision a assessed.result decision_id signed granted

  -- From the recorded answer of the gate on.
  unfoldable pub record_decision : Admitted → Assessment → Action GateOutcome
  record_decision a assessed = do
    decision_id ← draw (deps.new_id "dec")
    signed ← or_throw (signed_decision deps a assessed decision_id) Thrown.instance_signer_failed
    act_on a assessed decision_id signed

  unfoldable pub evaluate_fresh : Admitted → Action GateOutcome
  evaluate_fresh a = do assessed ← assess deps a; record_decision a assessed

  -- What runs with the lock of the mandate held.
  unfoldable pub answer_request : Admitted → Action GateOutcome
  answer_request a w =
      elim (find_by_request a.organization_id a.request.mandate_id a.request.nonce w) [
        | some existing ↦ replay a existing w
        | none ↦ evaluate_fresh a w
      ]

  -- What runs before.
  unfoldable pub admit : String → SignedAgentGateRequest → Action Admitted
  admit organization_id request = do
    guard (not (verify_gate_request_signature request)) Thrown.bad_signature
    found ← read (get_mandate organization_id request.mandate_id)
    stored ← or_throw found Thrown.not_found
    guard (not (stored.mandate.agent.public_key == request.agent_public_key)) Thrown.agent_mismatch
    now ← read (λ w. w.clock)
    guard (ltb deps.request_skew_seconds (distance now request.requested_at)) Thrown.clock_skew
    pure (record {
      organization_id = organization_id;
      stored = stored;
      request = request;
      request_hash = hash_gate_request request.body;
      now = now;
    })

  -- `evaluate`, where nothing comes between.
  unfoldable pub evaluate : String → SignedAgentGateRequest → Action GateOutcome
  evaluate organization_id request = do
    admitted ← admit organization_id request
    answer_request admitted
