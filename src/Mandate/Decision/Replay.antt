-- ===== src/Mandate/Decision/Replay.antt =====
-- A decision of the gate that is recorded and signed verifies (packages/mandate/src/decision.ts).
use atlas_rail.Common.{
  ◌≡◌, ◌≢◌, refl, ap, ◌∙◌, String, Bool, true, Option, none, some, List, arith, string_eq, beq_refl,
  Result, ok, err, Option-cases, inl, inr,
}
use atlas_rail.Mandate.Types.{Issue, AgentMandate, X402Offer, Untyped, shaped}
use atlas_rail.Mandate.Records.{
  RuleResult, verdict_eq, DecisionKind, same_kind, GateContext, VerificationCheck,
}
use atlas_rail.Mandate.Documents.{Platform, DecisionRecord, SignedDecision}
use atlas_rail.Mandate.Crypto.{
  SignatureDomain, MessageSigner, signature_scheme, Honest, sign-verify, sign_domain_hash,
}
use atlas_rail.Mandate.Chain.Roles.{hash_mandate}
use atlas_rail.Mandate.Schema.{agent_mandate_issues, offer_issues, parse_with}
use atlas_rail.Mandate.Gate.Rules.{
  accepted_offer, verified_mandate, validity_rule, revocation_rule, pay_to_rule, window_rule,
  total_rule, simulation_rule,
}
use atlas_rail.Mandate.Gate.Evaluate.{
  evaluate_gate, assert_context, integrity_rules, limit_rules, scope_rules, presented, approval_of,
  automatic_rules, rules_of, hash_offer,
}
use atlas_rail.Mandate.Decision.Record.{
  truthy, context_to_snapshot, snapshot_to_context, BuildDecisionRecordInput, build_decision_record,
  hash_decision_record, sign_decision,
}
use atlas_rail.Mandate.Decision.Verify.{
  verify_decision_signature, same_outcome, verify_decision_matches_scope,
}

abbrev unreviewed : GateContext → GateContext
unreviewed c = record c { review = none }

truthy_twice : (p : Option String) → p ≢ some "" → truthy (truthy p) ≡ p
truthy_twice none n = refl
truthy_twice (some s) n = ground (arith, string_eq.beq_iff s "")

snapshot_round :
    (c : GateContext)
    → c.channel_payer ≢ some ""
    → snapshot_to_context (context_to_snapshot c) ≡ unreviewed c
unfolding snapshot_to_context context_to_snapshot
snapshot_round c n =
    ap (λ p. record (unreviewed c) { channel_payer = p }) (truthy_twice c.channel_payer n)

module _ ⦃env : Platform⦄ where
  module _ (c : GateContext) where
    integrity-unreviewed :
        (m : Result Issue AgentMandate) (o : Result Issue X402Offer)
        → integrity_rules m o (unreviewed c) ≡ integrity_rules m o c
    unfolding integrity_rules validity_rule revocation_rule
    integrity-unreviewed (err i) o = refl
    integrity-unreviewed (ok m) o = refl

    scope-unreviewed :
        (m : Option AgentMandate) (o : Option X402Offer) (before : List RuleResult)
        (doubtful : Bool)
        → scope_rules m o (unreviewed c) before doubtful ≡ scope_rules m o c before doubtful
    unfolding scope_rules limit_rules pay_to_rule window_rule total_rule simulation_rule
    scope-unreviewed none o before doubtful = refl
    scope-unreviewed (some m) none before doubtful = refl
    scope-unreviewed (some m) (some o) before doubtful = refl

    presented-unreviewed :
        (m : Option AgentMandate) (o : Option X402Offer)
        → presented m o (unreviewed c) ≡ presented m o c
    unfolding presented
    presented-unreviewed none o = refl
    presented-unreviewed (some m) none = refl
    presented-unreviewed (some m) (some o) = refl

    rules-unreviewed :
        (m : Result Issue AgentMandate) (o : Result Issue X402Offer)
        → rules_of m o (unreviewed c) ≡ rules_of m o c
    unfolding rules_of automatic_rules approval_of
    rules-unreviewed m o =
        let approval = presented-unreviewed (verified_mandate m) (accepted_offer o) in
        let integrity = integrity-unreviewed m o in
        rw (approval, integrity, scope-unreviewed (verified_mandate m) (accepted_offer o) _ _)

    -- The gate never reads the review.
    evaluate-unreviewed :
        (mi : Untyped AgentMandate) (oi : Untyped X402Offer)
        → evaluate_gate mi oi (unreviewed c) ≡ evaluate_gate mi oi c
    unfolding evaluate_gate assert_context
    evaluate-unreviewed mi oi =
        rw (rules-unreviewed (parse_with agent_mandate_issues mi) (parse_with offer_issues oi)) refl

  same_kind_refl : (k : Option DecisionKind) → same_kind k k ≡ true
  same_kind_refl none = refl
  same_kind_refl (some DecisionKind.autonomous) = refl
  same_kind_refl (some DecisionKind.approved) = refl

  module _ (input : BuildDecisionRecordInput) (signer : MessageSigner)
      (signed : SignedDecision) where
    abbrev body : DecisionRecord
    body = build_decision_record input

    signed-parts :
        sign_decision body signer ≡ some signed
        → (signature : String) × (sign_domain_hash signer SignatureDomain.decision
              (hash_decision_record body)
            ≡ some signature)
          × (signed ≡ record {
            body = body;
            decision_hash = hash_decision_record body;
            instance_signature = record {
              public_key = signer.public_key;
              signature = signature;
              scheme = some signature_scheme;
            };
          })
    unfolding sign_decision
    signed-parts h =
        elim (Option-cases
          (sign_domain_hash signer SignatureDomain.decision (hash_decision_record body))) [
            | inl e ↦ absurd (ground arith)
            | inr (signature, e) ↦ (signature, e, ground arith)
          ]

    replay-answer :
        evaluate_gate (shaped input.mandate) (shaped input.offer) input.context ≡ ok input.result
        → input.context.channel_payer ≢ some ""
        → evaluate_gate
            (shaped input.mandate)
            (shaped input.offer)
            (snapshot_to_context (context_to_snapshot input.context))
          ≡ ok input.result
    replay-answer e n =
        rw (snapshot_round input.context n)
          (evaluate-unreviewed input.context (shaped input.mandate) (shaped input.offer) ∙ e)

    same_outcome_refl : same_outcome input.result body ≡ true
    unfolding same_outcome build_decision_record
    same_outcome_refl = ground (
      arith,
      verdict_eq.beq_iff input.result.decision input.result.decision,
      same_kind_refl input.result.kind,
      beq_refl (env.canonicalize input.result.rules_evaluated),
    )

    body-scope :
        evaluate_gate (shaped input.mandate) (shaped input.offer) input.context ≡ ok input.result
        → input.context.channel_payer ≢ some ""
        → (s : SignedDecision) → s.body ≡ body
        → (v : VerificationCheck) × (verify_decision_matches_scope input.mandate s ≡ ok v)
          × (v.passed ≡ true)
    unfolding verify_decision_matches_scope build_decision_record
    body-scope e n s b = rw b (
        rw
          (
            beq_refl (hash_mandate input.mandate),
            beq_refl (hash_offer input.offer),
            replay-answer e n,
          )
          (_, refl, same_outcome_refl))

    -- A decision of the gate that is recorded with its inputs and signed by the instance verifies:
    -- answering the recorded inputs again reproduces it, and the instance's signature over it is good,
    -- if the context names no empty payer and the instance's signatures verify under its key.
    pub signed-replays :
        evaluate_gate (shaped input.mandate) (shaped input.offer) input.context ≡ ok input.result
        → input.context.channel_payer ≢ some ""
        → Honest signer
        → sign_decision body signer ≡ some signed
        → ((v : VerificationCheck) × (verify_decision_matches_scope input.mandate signed ≡ ok v)
            × (v.passed ≡ true))
          × ((verify_decision_signature signed).passed ≡ true)
    unfolding verify_decision_signature
    signed-replays e n honest h =
        let (signature, s, parts) = signed-parts h in
        let hash = hash_decision_record body in
        (
          body-scope e n signed (ap (λ d. d.body) parts),
          rw parts (
              ground (
                arith,
                beq_refl hash,
                beq_refl signature_scheme,
                sign-verify signer SignatureDomain.decision hash signature honest s,
              )),
        )
