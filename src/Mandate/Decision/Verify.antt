-- ===== src/Mandate/Decision/Verify.antt =====
-- packages/mandate/src/decision.ts: verifying a decision's signature, that it is what the gate answers
-- on the recorded inputs, and the authorization that a wallet checks before it signs. The error of the
-- outer result is what `evaluateGate` throws.
use atlas_rail.Common.{
  ℕ, String, Bool, false, not, ◌&&◌, ◌||◌, none, List, length, contains, ltb, leb, ◌==◌, string_eq,
  or_else, if◌then◌else◌, Result, ok, err, ◌>>=◌, ◌>>◌, throw_if,
}
use atlas_rail.Mandate.Types.{AgentMandate, shaped}
use atlas_rail.Mandate.Records.{
  GateVerdict, verdict_eq, same_kind, CheckId, CheckMessage, VerificationCheck, GateResult,
}
use atlas_rail.Mandate.Documents.{Platform, DecisionRecord, SignedDecision, GateAuthorization}
use atlas_rail.Mandate.Crypto.{SignatureDomain, signature_scheme, is_sha256_hex, verify_domain_hash}
use atlas_rail.Mandate.Chain.Roles.{hash_mandate}
use atlas_rail.Mandate.Chain.Verify.{verify_mandate_chain}
use atlas_rail.Mandate.Gate.Evaluate.{ContextError, evaluate_gate, hash_offer}
use atlas_rail.Mandate.Decision.Record.{
  snapshot_to_context, hash_decision_record, hash_gate_authorization,
}

abbrev scope_failure : CheckMessage → VerificationCheck
scope_failure message = record {
  id = CheckId.decision_matches_scope;
  passed = false;
  message = message;
}

-- What an authorization is checked against.
pub record Expected : Type 0 where
  pub trusted_instance_keys : List String
  pub now : ℕ
  pub tx_message_hash : String
  pub agent_public_key : String
  pub decision : SignedDecision
  pub mandate : AgentMandate

pub data AuthorizationError : Type 0 where
  untrusted_instance other_transaction other_agent outside_window bad_signature : AuthorizationError
  not_allowed other_decision other_instance untrusted_decision : AuthorizationError
  other_mandate other_offer invalid_chain : AuthorizationError
  check_failed : CheckMessage → AuthorizationError
  gate_threw : ContextError → AuthorizationError

module _ ⦃env : Platform⦄ where
  unfoldable pub verify_decision_signature : SignedDecision → VerificationCheck
  verify_decision_signature signed =
      let instance_signature = signed.instance_signature in
      let scheme = or_else instance_signature.scheme signature_scheme in
      let valid =
        verify_domain_hash instance_signature.public_key SignatureDomain.decision
          signed.decision_hash instance_signature.signature in
      if not (hash_decision_record signed.body == signed.decision_hash)
      then record {
        id = CheckId.decision_hash;
        passed = false;
        message = CheckMessage.decision_hash_differs;
      }
      else if not (scheme == signature_scheme)
      then record {
        id = CheckId.decision_signature;
        passed = false;
        message = CheckMessage.scheme_unsupported scheme;
      }
      else record {
        id = CheckId.decision_signature;
        passed = valid;
        message = if valid then CheckMessage.decision_signed else CheckMessage.decision_unsigned;
      }

  -- The recorded outcome is the one that the gate answers.
  unfoldable pub same_outcome : GateResult → DecisionRecord → Bool
  same_outcome replay body =
      replay.decision == body.decision
      && same_kind replay.kind body.kind
      && env.canonicalize replay.rules_evaluated == env.canonicalize body.rules_evaluated

  compared : GateResult → DecisionRecord → VerificationCheck
  unfolding same_outcome
  compared replay body =
      let same = same_outcome replay body in
      record {
        id = CheckId.decision_matches_scope;
        passed = same;
        message =
            if same
            then CheckMessage.reproduced body.decision (length body.rules_evaluated)
            else CheckMessage.differs replay.decision replay.failed_rule body.decision;
      }

  unfoldable pub verify_decision_matches_scope :
      AgentMandate → SignedDecision → Result ContextError VerificationCheck
  unfolding compared snapshot_to_context
  verify_decision_matches_scope mandate signed =
      let body = signed.body in
      if not (body.mandate_hash == hash_mandate mandate)
      then ok (scope_failure CheckMessage.other_mandate)
      else if not (body.offer_hash == hash_offer body.offer)
      then ok (scope_failure CheckMessage.other_offer)
      else do
        replay ←
            evaluate_gate (shaped mandate) (shaped body.offer) (snapshot_to_context body.context)
        ok (compared replay body)

  -- The checks on the authorization itself.
  unfoldable pub check_authorization :
      GateAuthorization → Expected → Result AuthorizationError (Unit {0})
  unfolding contains
  check_authorization a e = do
    throw_if (not (contains a.instance_signature.public_key e.trusted_instance_keys))
        AuthorizationError.untrusted_instance
    throw_if (not (is_sha256_hex a.tx_message_hash) || not (a.tx_message_hash == e.tx_message_hash))
        AuthorizationError.other_transaction
    throw_if (not (a.agent_public_key == e.agent_public_key)) AuthorizationError.other_agent
    throw_if (ltb e.now a.not_before || leb a.not_after e.now) AuthorizationError.outside_window
    throw_if
        (not (
          verify_domain_hash a.instance_signature.public_key SignatureDomain.gate_authorization
            (hash_gate_authorization a.body) a.instance_signature.signature))
        AuthorizationError.bad_signature

  -- The checks that it belongs to the decision, and the decision to the mandate.
  unfoldable pub check_reference :
      GateAuthorization → Expected → Result AuthorizationError (Unit {0})
  unfolding contains
  check_reference a e = do
    let d = e.decision
    throw_if (not (d.body.decision == GateVerdict.allow)) AuthorizationError.not_allowed
    throw_if (not (d.body.id == a.decision_id) || not (d.decision_hash == a.decision_hash))
        AuthorizationError.other_decision
    throw_if (not (d.instance_signature.public_key == a.instance_signature.public_key))
        AuthorizationError.other_instance
    throw_if (not (contains d.instance_signature.public_key e.trusted_instance_keys))
        AuthorizationError.untrusted_decision
    throw_if
        (not (a.mandate_hash == d.body.mandate_hash)
          || not (a.mandate_hash == hash_mandate e.mandate))
        AuthorizationError.other_mandate
    throw_if (not (a.offer_hash == d.body.offer_hash)) AuthorizationError.other_offer

  -- The checks of the decision and the mandate.
  unfoldable pub check_decision : Expected → Result AuthorizationError (Unit {0})
  check_decision e = do
    throw_if (not (verify_decision_signature e.decision).passed)
        (AuthorizationError.check_failed (verify_decision_signature e.decision).message)
    throw_if (not (verify_mandate_chain (shaped e.mandate) none).valid)
        AuthorizationError.invalid_chain
    elim (verify_decision_matches_scope e.mandate e.decision) [
      | err thrown ↦ err (AuthorizationError.gate_threw thrown)
      | ok scope ↦ throw_if (not scope.passed) (AuthorizationError.check_failed scope.message)
    ]

  unfoldable pub verify_gate_authorization :
      GateAuthorization → Expected → Result AuthorizationError (Unit {0})
  verify_gate_authorization a e = do check_authorization a e; check_reference a e; check_decision e
