-- ===== src/Mandate/Service/Issue.antt =====
-- What the gate service authorizes, a wallet accepts (packages/mandate/src/service/gate-service.ts,
-- `evaluate`, and packages/mandate/src/decision.ts, `verifyGateAuthorization`).
use mathlib.Core.Path.{subst}
use atlas_rail.Common.{
  List, Member, contains_iff, ℕ, ◌+◌, ◌≤◌, ◌<◌, String, true, false, Option, some, ◌≡◌, sym, ◌∙◌,
  ap, arith, ok, Result, beq_refl, string_eq, contains,
}
use atlas_rail.Mandate.Types.{}
use atlas_rail.Mandate.Records.{GateVerdict, verdict_eq, GateSimulation}
use atlas_rail.Mandate.Documents.{
  Platform, SignedDecision, DecisionRecord, GateAuthorization, GateAuthorizationBody,
}
use atlas_rail.Mandate.Crypto.{
  MessageSigner, Honest, SignatureDomain, is_sha256_hex, sign_domain_hash, sign-verify,
}
use atlas_rail.Mandate.Chain.Roles.{hash_mandate}
use atlas_rail.Mandate.Chain.Verify.{}
use atlas_rail.Mandate.Gate.Evaluate.{hash_offer}
use atlas_rail.Mandate.Gate.Authority.{shaped-IsAllowed}
use atlas_rail.Mandate.Decision.Record.{
  sign_decision, build_decision_record, create_gate_authorization, hash_gate_authorization,
}
use atlas_rail.Mandate.Decision.Verify.{
  Expected, check_authorization, check_reference, check_decision, verify_gate_authorization,
}
use atlas_rail.Mandate.Decision.Replay.{signed-replays}
use atlas_rail.Mandate.Service.Ports.{ApprovalRecord, Thrown}
use atlas_rail.Mandate.Service.World.{World, Deps}
use atlas_rail.Mandate.Service.Assess.{Admitted, Assessment}
use atlas_rail.Mandate.Service.Branches.{signed_decision, authorization_body}
use atlas_rail.Mandate.Service.Evaluate.{GateOutcome, fresh_outcome, answer_request}
use atlas_rail.Mandate.Service.Assessed.{Simulated, Assessed, ok-injective}
use atlas_rail.Mandate.Service.Carried.{Carried, allowed, escalated, denied}
use atlas_rail.Mandate.Service.Answered.{
  Fresh, failed, unfiled, filed, Answered, reused, again, anew, answer-Answered,
}

module _ ⦃env : Platform⦄ (signer : MessageSigner) where
  -- The parts of an authorization that the signer made.
  create-parts :
      (body : GateAuthorizationBody) (authorization : GateAuthorization)
      → create_gate_authorization body signer ≡ some authorization
      → (authorization.body ≡ body)
        × (authorization.instance_signature.public_key ≡ signer.public_key)
        × (sign_domain_hash signer SignatureDomain.gate_authorization (hash_gate_authorization body)
            ≡ some authorization.instance_signature.signature)
  unfolding create_gate_authorization
  create-parts body authorization h = ground arith

  decision-parts :
      (body : DecisionRecord) (signed : SignedDecision)
      → sign_decision body signer ≡ some signed
      → (signed.body ≡ body) × (signed.instance_signature.public_key ≡ signer.public_key)
  unfolding sign_decision
  decision-parts body signed h = ground arith

issued-same :
    {b : GateAuthorization} (a : GateAuthorization)
    → ◌≡◌ {A = Option GateAuthorization} (some a) (some b)
    → a ≡ b
issued-same a h = ground arith

-- A wallet of the agent that honours some instance keys, at a time, with the hash of a transaction, and
-- the decision and the mandate that came with the authorization.
abbrev pub wallet : List String → Admitted → GateOutcome → String → ℕ → Expected
wallet keys a outcome hash later = record {
  trusted_instance_keys = keys;
  now = later;
  tx_message_hash = hash;
  agent_public_key = a.request.agent_public_key;
  decision = outcome.decision;
  mandate = outcome.mandate;
}

-- The simulator says one thing.
simulated-same :
    (deps : Deps) (a : Admitted) (w : World) (x y : GateSimulation)
    → Simulated deps a w x
    → Simulated deps a w y
    → y ≡ x
simulated-same deps a w x y p q =
    ground (arith, p.present, q.present, p.simulator, q.simulator, p.answer, q.answer)

module _ ⦃env : Platform⦄ (deps : Deps) (a : Admitted) (authorization : GateAuthorization)
    (keys : List String) (simulation : GateSimulation) (later : ℕ)
    (honest : Honest deps.instance_signer) (trusted : Member deps.instance_signer.public_key keys)
    (digest : is_sha256_hex simulation.tx_message_hash ≡ true) (started : a.now ≤ later)
    (in_time : later < a.now + deps.authorization_ttl_seconds) where
  authorization-checks :
      (outcome : GateOutcome) (id : String) (signed : SignedDecision)
      → create_gate_authorization
          (authorization_body deps a id signed simulation)
          deps.instance_signer
        ≡ some authorization
      → check_authorization authorization (wallet keys a outcome simulation.tx_message_hash later)
        ≡ ok tt
  unfolding check_authorization
  authorization-checks outcome id signed h =
      let (b, k, s) = create-parts deps.instance_signer _ authorization h in
      let body = authorization_body deps a id signed simulation in
      rw (b, k)
        (ground (
          arith,
          digest,
          started,
          in_time,
          (contains_iff deps.instance_signer.public_key keys).1 trusted,
          beq_refl simulation.tx_message_hash,
          beq_refl a.request.agent_public_key,
          sign-verify deps.instance_signer SignatureDomain.gate_authorization
              (hash_gate_authorization body) authorization.instance_signature.signature honest s,
        ))

  module _ (w : World) (s : Assessment) (id : String) (signed : SignedDecision)
      (assessed : Assessed deps a w s) (allow : s.result.decision ≡ GateVerdict.allow)
      (made : signed_decision deps a s id ≡ some signed)
      (same_hash : a.stored.mandate_hash ≡ hash_mandate a.stored.mandate) (outcome : GateOutcome)
      (same_decision : outcome.decision ≡ signed)
      (same_mandate : outcome.mandate ≡ a.stored.mandate) where
    reference-checks :
        create_gate_authorization
            (authorization_body deps a id signed simulation)
            deps.instance_signer
          ≡ some authorization
        → check_reference authorization (wallet keys a outcome simulation.tx_message_hash later)
          ≡ ok tt
    unfolding check_reference contains signed_decision build_decision_record
    reference-checks h =
        let (b, k, _) = create-parts deps.instance_signer _ authorization h in
        let (d, l) = decision-parts deps.instance_signer _ signed made in
        rw (same_decision, same_mandate, b, k, d, l, same_hash, allow)
          (ground (
            arith,
            (contains_iff deps.instance_signer.public_key keys).1 trusted,
            beq_refl id,
            beq_refl signed.decision_hash,
            beq_refl deps.instance_signer.public_key,
            beq_refl (hash_mandate a.stored.mandate),
            beq_refl (hash_offer a.request.offer),
          ))

    decision-checks :
        check_decision (wallet keys a outcome simulation.tx_message_hash later) ≡ ok tt
    unfolding check_decision signed_decision
    decision-checks =
        let allowed =
          shaped-IsAllowed a.stored.mandate a.request.offer s.context s.result assessed.answered
            (λ d. ground (arith, allow)) in
        let ((v, scope, passed), signature) =
          signed-replays _ deps.instance_signer signed assessed.answered
            (λ e. ground (arith, e, assessed.given.payer)) honest made in
        rw (same_decision, same_mandate)
          (ground (arith, allowed.live.signed, scope, passed, signature))

  abbrev Accepts : GateOutcome → Type 0
  Accepts outcome =
      verify_gate_authorization authorization
        (wallet keys a outcome simulation.tx_message_hash later)
      ≡ ok tt

  carried-Accepts :
      {w u v : World} (s : Assessment) (id : String) (signed : SignedDecision)
      {granted : Option GateAuthorization × Option ApprovalRecord} (outcome : GateOutcome)
      → Simulated deps a w simulation
      → Assessed deps a w s
      → signed_decision deps a s id ≡ some signed
      → a.stored.mandate_hash ≡ hash_mandate a.stored.mandate
      → Carried deps a s id signed u granted v
      → fresh_outcome a signed granted ≡ outcome
      → outcome.authorization ≡ some authorization
      → Accepts outcome
  unfolding verify_gate_authorization
  carried-Accepts {w = w} s id signed outcome simulated assessed made same_hash
        (allowed issued v allow granted) o h =
      let same = issued-same issued (ap (λ x. x.authorization) o ∙ h) in
      let (x, held, created) = granted.created in
      let one = simulated-same deps a w simulation x simulated (assessed.given.simulation x held) in
      let made_here =
        subst
          (λ y.
            create_gate_authorization (authorization_body deps a id signed y) deps.instance_signer
            ≡ some authorization)
          one (created ∙ ap some same) in
      let same_decision = ap (λ x. x.decision) (sym o) in
      let same_mandate = ap (λ x. x.mandate) (sym o) in
      ground (
        arith,
        authorization-checks outcome id signed made_here,
        reference-checks w s id signed assessed allow made same_hash outcome same_decision
            same_mandate made_here,
        decision-checks w s id signed assessed allow made same_hash outcome same_decision
            same_mandate,
      )
  carried-Accepts s id signed outcome simulated assessed made same_hash
        (escalated created v d asked) o h =
      absurd (ground (arith, ap (λ x. x.authorization) o ∙ h))
  carried-Accepts s id signed outcome simulated assessed made same_hash (denied d) o h =
      absurd (ground (arith, ap (λ x. x.authorization) o ∙ h))

  Fresh-Accepts :
      {w v : World} {r : Result Thrown GateOutcome} (outcome : GateOutcome)
      → Simulated deps a w simulation
      → a.stored.mandate_hash ≡ hash_mandate a.stored.mandate
      → Fresh deps a w r v
      → r ≡ ok outcome
      → outcome.authorization ≡ some authorization
      → Accepts outcome
  Fresh-Accepts outcome simulated same_hash (failed x v _ same_stores) e h = absurd (ground arith)
  Fresh-Accepts outcome simulated same_hash (unfiled s id signed granted v _ _ _ _) e h =
      absurd (ground arith)
  Fresh-Accepts outcome simulated same_hash
        (filed s id signed granted u v assessed made carried appended) e h =
      carried-Accepts s id signed outcome simulated assessed made same_hash carried (ok-injective e)
        h

  Answered-Accepts :
      {w v : World} {r : Result Thrown GateOutcome} (outcome : GateOutcome)
      → Simulated deps a w simulation
      → a.stored.mandate_hash ≡ hash_mandate a.stored.mandate
      → Answered deps a w r v
      → r ≡ ok outcome
      → outcome.replayed ≡ false
      → outcome.authorization ≡ some authorization
      → Accepts outcome
  Answered-Accepts outcome simulated same_hash (reused _ _ _) e n h = absurd (ground arith)
  Answered-Accepts outcome simulated same_hash (again existing _ _) e n h =
      absurd (ground (arith, n, ap (λ x. x.replayed) (ok-injective e)))
  Answered-Accepts outcome simulated same_hash (anew r v _ fresh) e n h =
      Fresh-Accepts outcome simulated same_hash fresh e h

  -- An authorization that the service newly issues is accepted by every wallet of the agent that honours
  -- the instance's key, among any others, when it is given the transaction that the simulator was
  -- given, from the time of the request until the authorization runs out, if the instance's signatures
  -- verify, the hash of the transaction that the simulator gave is a digest, and the stored hash of
  -- the mandate is that of the mandate.
  pub issued-Accepts :
      (w : World) (outcome : GateOutcome)
      → Simulated deps a w simulation
      → a.stored.mandate_hash ≡ hash_mandate a.stored.mandate
      → (answer_request deps a w).0 ≡ ok outcome
      → outcome.replayed ≡ false
      → outcome.authorization ≡ some authorization
      → verify_gate_authorization authorization
          (wallet keys a outcome simulation.tx_message_hash later)
        ≡ ok tt
  issued-Accepts w outcome simulated same_hash e n h =
      Answered-Accepts outcome simulated same_hash (answer-Answered deps a w) e n h
