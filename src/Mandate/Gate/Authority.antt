-- ===== src/Mandate/Gate/Authority.antt =====
-- What an answer of `evaluateGate` (packages/mandate/src/gate.ts) guarantees, for every mandate,
-- offer and context.
use mathlib.Core.Path.{subst}
use atlas_rail.Common.{
  ◌==◌, ◌≡◌, ◌≢◌, ◌↔◌, ◌⊎◌, refl, sym, true, false, not, ◌&&◌, ◌||◌, any_left, none, some, List, [],
  arith, is_some, if◌then◌else◌, Result, ok, err,
}
use atlas_rail.Mandate.Types.{AgentMandate, X402Offer, Issue, Untyped, misshapen, shaped}
use atlas_rail.Mandate.Records.{
  RuleStatus, status_eq, GateVerdict, DecisionKind, GateContext, GateResult,
}
use atlas_rail.Mandate.Documents.{Platform}
use atlas_rail.Mandate.Schema.{agent_mandate_issues, offer_issues, parse_with}
use atlas_rail.Mandate.Gate.Rules.{offer_rule, signatures_rule}
use atlas_rail.Mandate.Gate.Evaluate.{
  has_problems, presented, approval_of, integrity_rules, automatic_rules, rules_of, verdict_of,
  kind_of, evaluate_gate,
}
use atlas_rail.Mandate.Gate.Terms.{IsPermitted, IsAutonomous, SimulationAccepts}
use atlas_rail.Mandate.Gate.Verdict.{fails, asks, verdict-apply_approval, kind-apply_approval}
use atlas_rail.Mandate.Gate.Fresh.{automatic-fresh}
use atlas_rail.Mandate.Gate.Limits.{IsLive, integrity-IsLive}
use atlas_rail.Mandate.Gate.Meaning.{automatic-fails, automatic-asks, verified-live, accepted-live}

pub parse-eq-ok :
    {A : Type 0} (issues : A → List Issue) (u : Untyped A) {a : A}
    → parse_with issues u ≡ ok a
    → (u ≡ shaped a) × (issues a ≡ [])
parse-eq-ok issues (misshapen i) h = cc
parse-eq-ok issues (shaped a) h = ground arith

module _ ⦃env : Platform⦄ where
  evaluate-verdict :
      (mi : Untyped AgentMandate) (oi : Untyped X402Offer) (c : GateContext) {r : GateResult}
      → evaluate_gate mi oi c ≡ ok r
      → let rules = rules_of (parse_with agent_mandate_issues mi) (parse_with offer_issues oi) c in
        (r.decision ≡ verdict_of rules) × (r.kind ≡ kind_of rules)
  unfolding evaluate_gate
  evaluate-verdict mi oi c h = ground arith

  verdict-rules :
      (m : Result Issue AgentMandate) (o : Result Issue X402Offer) (c : GateContext)
      → verdict_of (rules_of m o c) ≡ (
          if fails (automatic_rules m o c) || has_problems (approval_of m o c)
          then GateVerdict.deny
          else if asks (automatic_rules m o c) && not (is_some (approval_of m o c))
          then GateVerdict.escalate
          else GateVerdict.allow)
  unfolding rules_of
  verdict-rules m o c = verdict-apply_approval (approval_of m o c) (automatic_rules m o c)

  kind-rules :
      (m : Result Issue AgentMandate) (o : Result Issue X402Offer) (c : GateContext)
      → kind_of (rules_of m o c) ≡ (
          if fails (automatic_rules m o c) || has_problems (approval_of m o c)
          then none
          else if asks (automatic_rules m o c)
          then if is_some (approval_of m o c) then some DecisionKind.approved else none
          else some DecisionKind.autonomous)
  unfolding rules_of kind_of
  kind-rules m o c = ground (
    arith,
    verdict-apply_approval (approval_of m o c) (automatic_rules m o c),
    kind-apply_approval (approval_of m o c) (automatic_rules m o c) (automatic-fresh m o c),
  )

  automatic-integrity :
      (m : Result Issue AgentMandate) (o : Result Issue X402Offer) (c : GateContext)
      → fails (automatic_rules m o c) ≡ false
      → fails (integrity_rules m o c) ≡ false
  unfolding automatic_rules
  automatic-integrity m o c h =
      any_left (λ r. r.status == RuleStatus.failed) (integrity_rules m o c) _ h

  unparsed_mandate :
      (i : Issue) (o : Result Issue X402Offer) (c : GateContext)
      → fails (automatic_rules (err i) o c) ≢ false
  unfolding integrity_rules signatures_rule
  unparsed_mandate i o c h = ground (arith, automatic-integrity (err i) o c h)

  unparsed_offer :
      (m : AgentMandate) (i : Issue) (c : GateContext)
      → fails (automatic_rules (ok m) (err i) c) ≢ false
  unfolding integrity_rules offer_rule
  unparsed_offer m i c h = ground (arith, automatic-integrity (ok m) (err i) c h)

  -- What an allowed payment satisfies.
  pub record IsAllowed (m : AgentMandate) (o : X402Offer) (c : GateContext) : Type 0 where
    pub mandate_well_formed : agent_mandate_issues m ≡ []
    pub offer_well_formed : offer_issues o ≡ []
    pub live : IsLive m o c
    pub permitted : IsPermitted m o c
    pub simulation : SimulationAccepts c.simulation c.require_simulation
    pub approval_in_order : has_problems (approval_of (ok m) (ok o) c) ≡ false

  -- The parsed inputs of a payment that is not denied.
  clean-parsed :
      (m : Result Issue AgentMandate) (o : Result Issue X402Offer) (c : GateContext)
      → fails (automatic_rules m o c) ≡ false
      → has_problems (approval_of m o c) ≡ false
      → (m' : AgentMandate) × (o' : X402Offer) × (m ≡ ok m')
        × (o ≡ ok o')
        × IsLive m' o' c
        × IsPermitted m' o' c
        × SimulationAccepts c.simulation c.require_simulation
        × (has_problems (approval_of (ok m') (ok o') c) ≡ false)
  clean-parsed (err i) o c f h = absurd (unparsed_mandate i o c f)
  clean-parsed (ok m) (err i) c f h = absurd (unparsed_offer m i c f)
  clean-parsed (ok m) (ok o) c f h =
      let live = integrity-IsLive m o c (automatic-integrity (ok m) (ok o) c f) in
      let (permitted, simulation) = (automatic-fails m o c live h).0 f in
      (m, o, refl, refl, live, permitted, simulation, h)

  -- A payment that is not denied has a mandate and an offer that satisfy their schemas, the mandate
  -- signed along a valid chain, in force and not revoked, the offer within every hard limit, with an
  -- accepted simulation, and no problem in the approval if one was presented.
  pub undenied-IsAllowed :
      (mi : Untyped AgentMandate) (oi : Untyped X402Offer) (c : GateContext) (r : GateResult)
      → evaluate_gate mi oi c ≡ ok r
      → r.decision ≢ GateVerdict.deny
      → (m : AgentMandate) × (o : X402Offer) × (mi ≡ shaped m) × (oi ≡ shaped o) × IsAllowed m o c
  undenied-IsAllowed mi oi c r e d =
      let pm = parse_with agent_mandate_issues mi in
      let po = parse_with offer_issues oi in
      let verdict = verdict-rules pm po c in
      let same = (evaluate-verdict mi oi c e).0 in
      let (m, o, em, eo, live, permitted, simulation, orderly) =
        clean-parsed pm po c (ground (arith, verdict, same)) (ground (arith, verdict, same)) in
      let (mandate_shape, mandate_schema) = parse-eq-ok agent_mandate_issues mi em in
      let (offer_shape, offer_schema) = parse-eq-ok offer_issues oi eo in
      (
        m,
        o,
        mandate_shape,
        offer_shape,
        record {
          mandate_well_formed = mandate_schema;
          offer_well_formed = offer_schema;
          live = live;
          permitted = permitted;
          simulation = simulation;
          approval_in_order = orderly;
        },
      )

  -- The same of inputs that have the right shape.
  abbrev ShapedIsAllowed : Untyped AgentMandate → Untyped X402Offer → GateContext → Type 0
  ShapedIsAllowed (shaped m) (shaped o) c = IsAllowed m o c
  ShapedIsAllowed (shaped m) (misshapen i) c = ⊥
  ShapedIsAllowed (misshapen i) o c = ⊥

  pub shaped-IsAllowed :
      (m : AgentMandate) (o : X402Offer) (c : GateContext) (r : GateResult)
      → evaluate_gate (shaped m) (shaped o) c ≡ ok r
      → r.decision ≢ GateVerdict.deny
      → IsAllowed m o c
  shaped-IsAllowed m o c r e d =
      let (m', o', em, eo, allowed) = undenied-IsAllowed (shaped m) (shaped o) c r e d in
      subst (λ u. ShapedIsAllowed u (shaped o) c) (sym em)
        (subst (λ v. ShapedIsAllowed (shaped m') v c) (sym eo) allowed)

  module _ (m : AgentMandate) (o : X402Offer) (c : GateContext) where
    parsed-mandate : agent_mandate_issues m ≡ [] → parse_with agent_mandate_issues (shaped m) ≡ ok m
    parsed-mandate h = ground arith

    parsed-offer : offer_issues o ≡ [] → parse_with offer_issues (shaped o) ≡ ok o
    parsed-offer h = ground arith

    -- The verdict on an allowed payment.
    IsAllowed-verdict :
        IsAllowed m o c
        → (r : GateResult) → evaluate_gate (shaped m) (shaped o) c ≡ ok r
        → (fails (automatic_rules (ok m) (ok o) c) ≡ false)
          × (r.decision ≡ verdict_of (rules_of (ok m) (ok o) c))
          × (r.kind ≡ kind_of (rules_of (ok m) (ok o) c))
    IsAllowed-verdict a r e =
        let (decided, kinded) = evaluate-verdict (shaped m) (shaped o) c e in
        let pm = parsed-mandate a.mandate_well_formed in
        let po = parsed-offer a.offer_well_formed in
        (
          (automatic-fails m o c a.live a.approval_in_order).1 (a.permitted, a.simulation),
          cc (decided, pm, po),
          cc (kinded, pm, po),
        )

    -- The approval that counts on a live payment is the one in the context.
    approval-live : IsLive m o c → is_some (approval_of (ok m) (ok o) c) ≡ is_some c.approval
    unfolding approval_of presented
    approval-live live = rw (verified-live m o c live, accepted-live m o c live) (ground arith)

    -- An allowed payment is answered ALLOW exactly when it is within the autonomous limits or an
    -- approval was presented, and ESCALATE exactly when neither holds.
    pub IsAllowed-allow :
        (r : GateResult)
        → evaluate_gate (shaped m) (shaped o) c ≡ ok r
        → IsAllowed m o c
        → ((r.decision ≡ GateVerdict.allow) ↔ (IsAutonomous m o c ⊎ (is_some c.approval ≡ true)))
          × ((r.decision ≡ GateVerdict.escalate)
              ↔ ((¬ IsAutonomous m o c) × (is_some c.approval ≡ false)))
    IsAllowed-allow r e a =
        let (clean, decided, _) = IsAllowed-verdict a r e in
        let asks_iff = automatic-asks m o c a.live a.permitted in
        ground (arith, verdict-rules (ok m) (ok o) c, a.approval_in_order, approval-live a.live)

    -- An allowed payment is answered as autonomous exactly when it is within the autonomous limits,
    -- and as approved exactly when it is not and an approval was presented.
    pub IsAllowed-kind :
        (r : GateResult)
        → evaluate_gate (shaped m) (shaped o) c ≡ ok r
        → IsAllowed m o c
        → ((r.kind ≡ some DecisionKind.autonomous) ↔ IsAutonomous m o c)
          × ((r.kind ≡ some DecisionKind.approved)
              ↔ ((¬ IsAutonomous m o c) × (is_some c.approval ≡ true)))
    IsAllowed-kind r e a =
        let (clean, decided, kinded) = IsAllowed-verdict a r e in
        let asks_iff = automatic-asks m o c a.live a.permitted in
        ground (
          arith,
          verdict-rules (ok m) (ok o) c,
          kind-rules (ok m) (ok o) c,
          a.approval_in_order,
          approval-live a.live,
        )

  -- Only an ALLOW has a kind.
  pub kind-allow :
      (mi : Untyped AgentMandate) (oi : Untyped X402Offer) (c : GateContext) (r : GateResult)
      (k : DecisionKind)
      → evaluate_gate mi oi c ≡ ok r
      → r.kind ≡ some k
      → r.decision ≡ GateVerdict.allow
  unfolding kind_of
  kind-allow mi oi c r k e h = ground (arith, evaluate-verdict mi oi c e)

  -- An allowed payment is not denied.
  pub IsAllowed-undenied :
      (m : AgentMandate) (o : X402Offer) (c : GateContext) (r : GateResult)
      → evaluate_gate (shaped m) (shaped o) c ≡ ok r
      → IsAllowed m o c
      → r.decision ≢ GateVerdict.deny
  IsAllowed-undenied m o c r e a d =
      let (clean, decided, _) = IsAllowed-verdict m o c a r e in
      ground (arith, verdict-rules (ok m) (ok o) c, a.approval_in_order)
