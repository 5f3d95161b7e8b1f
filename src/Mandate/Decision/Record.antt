-- ===== src/Mandate/Decision/Record.antt =====
-- packages/mandate/src/decision.ts: gate requests, decision records and gate authorizations, as they
-- are built, hashed and signed. A signer that fails is `none`.
use atlas_rail.Common.{String, Bool, Option, none, some, ◌==◌, string_eq, if◌then◌else◌}
use atlas_rail.Mandate.Types.{AgentMandate, X402Offer}
use atlas_rail.Mandate.Records.{GateContext, GateResult}
use atlas_rail.Mandate.Documents.{
  Platform, Document, AgentGateRequestBody, SignedAgentGateRequest, DecisionContextSnapshot,
  DecisionRequest, DecisionRecord, SignedDecision, GateAuthorizationBody, GateAuthorization,
}
use atlas_rail.Mandate.Crypto.{
  SignatureDomain, MessageSigner, signature_scheme, sign_domain_hash, verify_domain_hash,
}
use atlas_rail.Mandate.Chain.Roles.{hash_mandate}
use atlas_rail.Mandate.Gate.Evaluate.{hash_offer}

-- A payer is kept in a snapshot only where it is truthy: neither null nor the empty text.
abbrev pub truthy : Option String → Option String
truthy none = none
truthy (some text) = if text == "" then none else some text

unfoldable pub context_to_snapshot : GateContext → DecisionContextSnapshot
context_to_snapshot c = record {
  evaluated_at = c.now;
  revoked = c.revoked;
  spend = c.spend;
  simulation = c.simulation;
  require_simulation = c.require_simulation;
  approval = c.approval;
  channel_payer = truthy c.channel_payer;
  review = c.review;
}

unfoldable pub snapshot_to_context : DecisionContextSnapshot → GateContext
snapshot_to_context s = record {
  now = s.evaluated_at;
  revoked = s.revoked;
  channel_payer = truthy s.channel_payer;
  spend = s.spend;
  simulation = s.simulation;
  require_simulation = s.require_simulation;
  approval = s.approval;
  review = none;
}

pub record BuildDecisionRecordInput : Type 0 where
  pub id : String
  pub organization_id : String
  pub mandate : AgentMandate
  pub offer : X402Offer
  pub result : GateResult
  pub context : GateContext
  pub request : Option DecisionRequest

module _ ⦃env : Platform⦄ where
  unfoldable pub hash_gate_request : AgentGateRequestBody → String
  hash_gate_request body = env.hash_document (Document.gate_request body)

  unfoldable pub sign_gate_request :
      AgentGateRequestBody → MessageSigner → Option SignedAgentGateRequest
  unfolding hash_gate_request sign_domain_hash
  sign_gate_request body agent =
      elim (sign_domain_hash agent SignatureDomain.agent_request (hash_gate_request body)) [
        | none ↦ none
        | some signature ↦
            some
              (record { body = body; agent_public_key = agent.public_key; signature = signature })
      ]

  unfoldable pub verify_gate_request_signature : SignedAgentGateRequest → Bool
  unfolding hash_gate_request verify_domain_hash
  verify_gate_request_signature request =
      verify_domain_hash request.agent_public_key SignatureDomain.agent_request
        (hash_gate_request request.body) request.signature

  unfoldable pub build_decision_record : BuildDecisionRecordInput → DecisionRecord
  unfolding context_to_snapshot hash_mandate
  build_decision_record input = record {
    id = input.id;
    organization_id = input.organization_id;
    mandate_id = input.mandate.id;
    mandate_hash = hash_mandate input.mandate;
    offer = input.offer;
    offer_hash = hash_offer input.offer;
    decision = input.result.decision;
    kind = input.result.kind;
    rules_evaluated = input.result.rules_evaluated;
    failed_rule = input.result.failed_rule;
    failed_rules = input.result.failed_rules;
    escalation_rules = input.result.escalation_rules;
    reason = input.result.reason;
    context = context_to_snapshot input.context;
    request = input.request;
  }

  unfoldable pub hash_decision_record : DecisionRecord → String
  hash_decision_record body = env.hash_document (Document.decision body)

  unfoldable pub sign_decision : DecisionRecord → MessageSigner → Option SignedDecision
  unfolding hash_decision_record sign_domain_hash
  sign_decision body signer =
      elim (sign_domain_hash signer SignatureDomain.decision (hash_decision_record body)) [
        | none ↦ none
        | some signature ↦ some (record {
          body = body;
          decision_hash = hash_decision_record body;
          instance_signature = record {
            public_key = signer.public_key;
            signature = signature;
            scheme = some signature_scheme;
          };
        })
      ]

  unfoldable pub hash_gate_authorization : GateAuthorizationBody → String
  hash_gate_authorization body = env.hash_document (Document.gate_authorization body)

  unfoldable pub create_gate_authorization :
      GateAuthorizationBody → MessageSigner → Option GateAuthorization
  unfolding hash_gate_authorization sign_domain_hash
  create_gate_authorization body signer =
      elim (sign_domain_hash signer SignatureDomain.gate_authorization
        (hash_gate_authorization body)) [
          | none ↦ none
          | some signature ↦ some (record {
            body = body;
            instance_signature = record {
              public_key = signer.public_key;
              signature = signature;
              scheme = some signature_scheme;
            };
          })
        ]
