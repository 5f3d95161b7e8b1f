-- ===== src/Mandate/Gate/Meaning.antt =====
-- What the verdict of the gate says of the mandate, the offer and the context.
use atlas_rail.Common.{
  ◌≡◌, ◌↔◌, sym, ◌∙◌, Bool, false, ◌||◌, some, [], ◌∷◌, ◌++◌, any-append, arith, ◌==◌, ok,
}
use atlas_rail.Mandate.Types.{AgentMandate, X402Offer}
use atlas_rail.Mandate.Records.{RuleStatus, status_eq, GateContext}
use atlas_rail.Mandate.Documents.{Platform}
use atlas_rail.Mandate.Schema.{}
use atlas_rail.Mandate.Chain.Verify.{}
use atlas_rail.Mandate.Gate.Rules.{
  has_status, accepted_offer, verified_mandate, simulation_rule, threshold_rule,
}
use atlas_rail.Mandate.Gate.Evaluate.{
  has_problems, approval_of, integrity_rules, limit_rules, scope_rules, automatic_rules,
}
use atlas_rail.Mandate.Gate.Terms.{
  IsPermitted, IsAutonomous, SimulationAccepts, simulation-fails, simulation-escalates,
  threshold-fails,
}
use atlas_rail.Mandate.Gate.Verdict.{fails, asks}
use atlas_rail.Mandate.Gate.Limits.{
  IsLive, IsLive-integrity, integrity-asks, limits-IsPermitted, IsPermitted-limits,
  asks-IsAutonomous, IsAutonomous-asks,
}

module _ ⦃env : Platform⦄ (m : AgentMandate) (o : X402Offer) (c : GateContext)
    (live : IsLive m o c) where
  pub verified-live : verified_mandate (ok m) ≡ some m
  unfolding verified_mandate
  verified-live = rw live.signed

  pub accepted-live : accepted_offer (ok o) ≡ some o
  unfolding accepted_offer
  accepted-live = ground (arith, live.positive)

  -- A live mandate and offer reach every scope rule.
  automatic-live :
      automatic_rules (ok m) (ok o) c
      ≡ integrity_rules (ok m) (ok o) c
        ++ (limit_rules m o c
            ++ simulation_rule
                (has_status RuleStatus.failed (integrity_rules (ok m) (ok o) c ++ limit_rules m o c)
                  || has_problems (approval_of (ok m) (ok o) c))
                c
              ∷ threshold_rule m o
              ∷ [])
  unfolding automatic_rules scope_rules
  automatic-live = rw (verified-live, accepted-live, IsLive-integrity m o c live)

  abbrev pub doubtful : Bool
  doubtful = has_problems (approval_of (ok m) (ok o) c)

  -- What makes the simulation rule skip a missing simulation: a failure before it, or the approval.
  doomed-live :
      (has_status RuleStatus.failed (integrity_rules (ok m) (ok o) c ++ limit_rules m o c)
        || doubtful)
      ≡ (fails (limit_rules m o c) || doubtful)
  doomed-live = rw (
    any-append {0} _ (integrity_rules (ok m) (ok o) c) (limit_rules m o c),
    IsLive-integrity m o c live,
  )

  automatic-has :
      (s : RuleStatus)
      → has_status s (integrity_rules (ok m) (ok o) c) ≡ false
      → has_status s (automatic_rules (ok m) (ok o) c) ≡ (
          has_status s (limit_rules m o c)
          || has_status s
              (simulation_rule (fails (limit_rules m o c) || doubtful) c ∷ threshold_rule m o ∷ []))
  automatic-has s h =
      rw (automatic-live, doomed-live, any-append {0} _ (integrity_rules (ok m) (ok o) c) _, h)
        (any-append _ (limit_rules m o c) _)

  -- Nothing failed exactly when the hard limits hold and the simulation is accepted.
  pub automatic-fails :
      doubtful ≡ false
      → (fails (automatic_rules (ok m) (ok o) c) ≡ false)
        ↔ (IsPermitted m o c × SimulationAccepts c.simulation c.require_simulation)
  automatic-fails h = (to, from)
    where
      split : fails (automatic_rules (ok m) (ok o) c) ≡ (
          fails (limit_rules m o c)
          || fails (simulation_rule (fails (limit_rules m o c)) c ∷ threshold_rule m o ∷ []))
      split = ground (arith, automatic-has RuleStatus.failed (IsLive-integrity m o c live))

      to :
          fails (automatic_rules (ok m) (ok o) c) ≡ false
          → IsPermitted m o c × SimulationAccepts c.simulation c.require_simulation
      to f =
          let inside : fails (limit_rules m o c) ≡ false = ground (arith, split) in
          (limits-IsPermitted m o c inside, (simulation-fails c).0 (ground (arith, split, inside)))

      from :
          IsPermitted m o c × SimulationAccepts c.simulation c.require_simulation
          → fails (automatic_rules (ok m) (ok o) c) ≡ false
      from (p, s) =
          let inside : fails (limit_rules m o c) ≡ false = IsPermitted-limits m o c p in
          ground (arith, split, inside, (simulation-fails c).1 s, threshold-fails m o c)

  -- Where the hard limits hold, nothing asks a human exactly when the autonomous limits hold too.
  pub automatic-asks :
      IsPermitted m o c → (asks (automatic_rules (ok m) (ok o) c) ≡ false) ↔ IsAutonomous m o c
  automatic-asks p =
      (λ a. asks-IsAutonomous m o c p (split ∙ a), λ a. sym split ∙ IsAutonomous-asks m o c p a)
    where
      split :
          asks (limit_rules m o c ++ threshold_rule m o ∷ [])
          ≡ asks (automatic_rules (ok m) (ok o) c)
      split = ground (
        arith,
        automatic-has RuleStatus.escalated (integrity-asks (ok m) (ok o) c),
        any-append (λ r. r.status == RuleStatus.escalated) (limit_rules m o c)
            (threshold_rule m o ∷ []),
        simulation-escalates (fails (limit_rules m o c) || doubtful) c,
      )
