-- ===== src/Mandate/Service/Branches.antt =====
-- packages/mandate/src/service/gate-service.ts: what `evaluateFresh` does on ALLOW and on ESCALATE.
use atlas_rail.Common.{◌+◌, String, Bool, true, false, not, Option, none, some, string_eq}
use atlas_rail.Mandate.Types.{}
use atlas_rail.Mandate.Records.{
  ApprovalStatus, approval_status_eq, GateSimulation, GateVerdict, verdict_eq, DecisionKind,
  GateResult,
}
use atlas_rail.Mandate.Documents.{
  Platform, SignedDecision, GateAuthorization, GateAuthorizationBody,
}
use atlas_rail.Mandate.Gate.Evaluate.{hash_offer}
use atlas_rail.Mandate.Decision.Record.{
  truthy, build_decision_record, sign_decision, create_gate_authorization,
}
use atlas_rail.Mandate.Service.Ports.{SpendStatus, SpendEntry, ApprovalRecord, Thrown}
use atlas_rail.Mandate.Service.World.{Deps, Action, pure, or_throw, guard, ◌>>=◌, ◌>>◌, draw}
use atlas_rail.Mandate.Service.Store.Mandates.{}
use atlas_rail.Mandate.Service.Store.Decisions.{}
use atlas_rail.Mandate.Service.Store.Spend.{reserve}
use atlas_rail.Mandate.Service.Store.Approvals.{create_approval, consume}
use atlas_rail.Mandate.Service.Assess.{Admitted, Assessment}

-- `result.kind === 'APPROVED' && request.approvalId`
abbrev pub spent_approval : Option DecisionKind → Option String → Option String
spent_approval (some DecisionKind.approved) approval_id = truthy approval_id
spent_approval _ approval_id = none

abbrev pub consume_given : String → Option String → Action (Unit {0})
consume_given organization_id none = pure tt
consume_given organization_id (some approval_id) = do
  consumed ← consume organization_id approval_id
  guard (not consumed) Thrown.approval_already_used

abbrev pub is_autonomous : Option DecisionKind → Bool
is_autonomous (some DecisionKind.autonomous) = true
is_autonomous _ = false

abbrev pub spend_entry : Admitted → GateResult → String → String → SpendEntry
spend_entry a result decision_id id = record {
  id = id;
  organization_id = a.organization_id;
  mandate_id = a.stored.mandate.id;
  decision_id = decision_id;
  amount = a.request.offer.amount;
  autonomous = is_autonomous result.kind;
  status = SpendStatus.reserved;
  tx_signature = none;
  created_at = a.now;
}

abbrev pub approval_request :
    ⦃env : Platform⦄ → Admitted → GateResult → String → String → ApprovalRecord
approval_request ⦃env⦄ a result decision_id id = record {
  id = id;
  organization_id = a.organization_id;
  mandate_id = a.stored.mandate.id;
  decision_id = decision_id;
  offer_hash = hash_offer a.request.offer;
  offer = a.request.offer;
  status = ApprovalStatus.pending;
  required_roles = result.required_approver_roles;
  requested_at = a.now;
  expires_at = a.now + a.stored.mandate.escalation.approval_ttl_seconds;
  decided_at = none;
  decided_by = none;
  comment = none;
  escalation_rules = result.escalation_rules;
}

module _ ⦃env : Platform⦄ (deps : Deps) where
  -- The decision record of an assessment, signed by the instance.
  unfoldable pub signed_decision : Admitted → Assessment → String → Option SignedDecision
  signed_decision a assessed decision_id =
      sign_decision
        (build_decision_record (record {
          id = decision_id;
          organization_id = a.organization_id;
          mandate = a.stored.mandate;
          offer = a.request.offer;
          result = assessed.result;
          context = assessed.context;
          request = some (record {
            nonce = a.request.nonce;
            requested_at = a.request.requested_at;
            request_hash = a.request_hash;
            agent_public_key = a.request.agent_public_key;
          });
        }))
        deps.instance_signer

  abbrev pub authorization_body :
      Admitted → String → SignedDecision → GateSimulation → GateAuthorizationBody
  authorization_body a decision_id signed simulation = record {
    decision_id = decision_id;
    decision_hash = signed.decision_hash;
    mandate_hash = a.stored.mandate_hash;
    offer_hash = hash_offer a.request.offer;
    tx_message_hash = simulation.tx_message_hash;
    agent_public_key = a.request.agent_public_key;
    not_before = a.now;
    not_after = a.now + deps.authorization_ttl_seconds;
  }

  -- The hold on the budget, once an approval that is used up is consumed.
  unfoldable pub hold_spend : Admitted → GateResult → String → Action (Unit {0})
  hold_spend a result decision_id = do
    consume_given a.organization_id (spent_approval result.kind a.request.approval_id)
    spend_id ← draw (deps.new_id "spd")
    reserve (spend_entry a result decision_id spend_id)

  -- The branch of ALLOW.
  unfoldable pub grant : Admitted → Assessment → String → SignedDecision → Action GateAuthorization
  grant a assessed decision_id signed = do
    simulation ← or_throw assessed.context.simulation Thrown.allow_without_simulation
    authorization ←
        or_throw
          (create_gate_authorization (authorization_body a decision_id signed simulation)
            deps.instance_signer)
          Thrown.instance_signer_failed
    hold_spend a assessed.result decision_id
    pure authorization

  -- The branch of ESCALATE.
  unfoldable pub ask : Admitted → GateResult → String → Action ApprovalRecord
  ask a result decision_id = do
    id ← draw (deps.new_id "apr")
    let created = approval_request a result decision_id id
    create_approval created
    pure created

  -- What a verdict leads to: an authorization, an approval request, or neither.
  unfoldable pub carry_out :
      Admitted
      → Assessment
      → String
      → SignedDecision
      → Action (Option GateAuthorization × Option ApprovalRecord)
  carry_out a assessed decision_id signed = elim assessed.result.decision [
    | GateVerdict.allow ↦ do
      authorization ← grant a assessed decision_id signed
      pure (some authorization, none)
    | GateVerdict.escalate ↦ do
      created ← ask a assessed.result decision_id
      pure (none, some created)
    | GateVerdict.deny ↦ pure (none, none)
  ]
