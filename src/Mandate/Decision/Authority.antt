-- ===== src/Mandate/Decision/Authority.antt =====
-- What a wallet knows of an authorization that it accepts, and that every decision of the gate can be
-- reproduced (packages/mandate/src/decision.ts).
use atlas_rail.Common.{
  ◌≤◌, ◌<◌, ◌≡◌, ◌≢◌, true, Member, contains_iff, arith, string_eq, ok, >>=-eq-ok, Result-cases,
  inl, inr,
}
use atlas_rail.Mandate.Types.{shaped}
use atlas_rail.Mandate.Records.{GateVerdict, verdict_eq, GateResult}
use atlas_rail.Mandate.Documents.{Platform, DecisionRecord, GateAuthorization}
use atlas_rail.Mandate.Crypto.{SignatureDomain, verify_domain_hash}
use atlas_rail.Mandate.Chain.Roles.{hash_mandate}
use atlas_rail.Mandate.Gate.Evaluate.{evaluate_gate}
use atlas_rail.Mandate.Gate.Authority.{IsAllowed, shaped-IsAllowed}
use atlas_rail.Mandate.Decision.Record.{
  snapshot_to_context, hash_decision_record, hash_gate_authorization,
}
use atlas_rail.Mandate.Decision.Verify.{
  Expected, verify_decision_signature, same_outcome, verify_decision_matches_scope,
  check_authorization, check_reference, check_decision, verify_gate_authorization,
}

module _ ⦃env : Platform⦄ where
  -- The authorization is in force, for this transaction and agent, and signed by a trusted instance.
  pub record IsIssued (a : GateAuthorization) (e : Expected) : Type 0 where
    pub trusted : Member a.instance_signature.public_key e.trusted_instance_keys
    pub transaction : a.tx_message_hash ≡ e.tx_message_hash
    pub agent : a.agent_public_key ≡ e.agent_public_key
    pub started : a.not_before ≤ e.now
    pub unexpired : e.now < a.not_after
    pub signed :
        verify_domain_hash a.instance_signature.public_key SignatureDomain.gate_authorization
          (hash_gate_authorization a.body)
          a.instance_signature.signature
        ≡ true

  -- It belongs to the decision, which the same instance signed, and that to the mandate.
  pub record IsReferenced (a : GateAuthorization) (e : Expected) : Type 0 where
    pub allowed : e.decision.body.decision ≡ GateVerdict.allow
    pub decision : e.decision.body.id ≡ a.decision_id
    pub hash : e.decision.decision_hash ≡ a.decision_hash
    pub issuer : e.decision.instance_signature.public_key ≡ a.instance_signature.public_key
    pub mandate : a.mandate_hash ≡ hash_mandate e.mandate
    pub recorded : a.mandate_hash ≡ e.decision.body.mandate_hash
    pub offer : a.offer_hash ≡ e.decision.body.offer_hash

  module _ (a : GateAuthorization) (e : Expected) where
    check_authorization-IsIssued : check_authorization a e ≡ ok tt → IsIssued a e
    unfolding check_authorization
    check_authorization-IsIssued h = record {
      trusted =
          ground (arith, contains_iff a.instance_signature.public_key e.trusted_instance_keys);
      transaction = ground (arith, string_eq.beq_iff a.tx_message_hash e.tx_message_hash);
      agent = ground (arith, string_eq.beq_iff a.agent_public_key e.agent_public_key);
      started = ground arith;
      unexpired = ground arith;
      signed = ground arith;
    }

    check_reference-IsReferenced : check_reference a e ≡ ok tt → IsReferenced a e
    unfolding check_reference
    check_reference-IsReferenced h =
        let d = e.decision in
        record {
          allowed = ground (arith, verdict_eq.beq_iff d.body.decision GateVerdict.allow);
          decision = ground (arith, string_eq.beq_iff d.body.id a.decision_id);
          hash = ground (arith, string_eq.beq_iff d.decision_hash a.decision_hash);
          issuer = ground (
            arith,
            string_eq.beq_iff d.instance_signature.public_key a.instance_signature.public_key,
          );
          mandate = ground (arith, string_eq.beq_iff a.mandate_hash (hash_mandate e.mandate));
          recorded = ground (arith, string_eq.beq_iff a.mandate_hash d.body.mandate_hash);
          offer = ground (arith, string_eq.beq_iff a.offer_hash d.body.offer_hash);
        }

  -- The gate answers ALLOW on the inputs that the decision records.
  abbrev pub Reproduces : Expected → Type 0
  Reproduces e =
      let body = e.decision.body in
      (r : GateResult) × (evaluate_gate (shaped e.mandate) (shaped body.offer)
          (snapshot_to_context body.context)
        ≡ ok r)
      × (same_outcome r body ≡ true)

  module _ (e : Expected) where
    scope-Reproduces :
        (r : GateResult)
        → evaluate_gate
            (shaped e.mandate)
            (shaped e.decision.body.offer)
            (snapshot_to_context e.decision.body.context)
          ≡ ok r
        → check_decision e ≡ ok tt
        → same_outcome r e.decision.body ≡ true
    unfolding check_decision verify_decision_matches_scope
    scope-Reproduces r s h = ground arith

    check_decision-Reproduces : check_decision e ≡ ok tt → Reproduces e
    unfolding check_decision verify_decision_matches_scope
    check_decision-Reproduces h =
        let body = e.decision.body in
        elim (Result-cases (
          evaluate_gate (shaped e.mandate) (shaped body.offer)
            (snapshot_to_context body.context))) [
              | inl (r, s) ↦ (r, s, scope-Reproduces r s h)
              | inr (thrown, s) ↦ absurd (ground arith)
            ]

    signed-hash :
        check_decision e ≡ ok tt → hash_decision_record e.decision.body ≡ e.decision.decision_hash
    unfolding check_decision verify_decision_signature
    signed-hash h =
        ground
          (arith, string_eq.beq_iff (hash_decision_record e.decision.body) e.decision.decision_hash)

  reproduced_allow :
      (r : GateResult) (body : DecisionRecord)
      → same_outcome r body ≡ true
      → body.decision ≡ GateVerdict.allow
      → r.decision ≢ GateVerdict.deny
  unfolding same_outcome
  reproduced_allow r body same allowed d =
      ground (arith, verdict_eq.beq_iff r.decision body.decision)

  -- An authorization that a wallet accepts is in force, covers exactly this transaction and agent, is
  -- signed by a trusted instance and belongs to the decision given, whose hash is that of its record;
  -- and the payment recorded there is allowed under the mandate in the circumstances recorded.
  pub authorized-IsAllowed :
      (a : GateAuthorization) (e : Expected)
      → verify_gate_authorization a e ≡ ok tt
      → IsIssued a e
        × IsReferenced a e
        × (hash_decision_record e.decision.body ≡ e.decision.decision_hash)
        × IsAllowed e.mandate e.decision.body.offer (snapshot_to_context e.decision.body.context)
  unfolding verify_gate_authorization
  authorized-IsAllowed a e h =
      let (_, issued, later) = >>=-eq-ok (check_authorization a e) _ h in
      let (_, referenced, decided) = >>=-eq-ok (check_reference a e) _ later in
      let (r, answered, same) = check_decision-Reproduces e decided in
      let reference = check_reference-IsReferenced a e referenced in
      (
        check_authorization-IsIssued a e issued,
        reference,
        signed-hash e decided,
        shaped-IsAllowed e.mandate e.decision.body.offer _ r answered
            (reproduced_allow r e.decision.body same reference.allowed),
      )
