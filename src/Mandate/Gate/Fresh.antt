-- ===== src/Mandate/Gate/Fresh.antt =====
-- No rule of the gate produces an overridden result: only the approval overrides.
use atlas_rail.Common.{
  ◌≡◌, refl, Bool, false, ◌||◌, Option, none, some, List, [], ◌∷◌, ◌++◌, any-append, arith, ◌==◌,
  Result, ok, err,
}
use atlas_rail.Mandate.Types.{AgentMandate, X402Offer, ResourcePriceLimit, Issue}
use atlas_rail.Mandate.Records.{RuleStatus, status_eq, RuleResult, GateContext}
use atlas_rail.Mandate.Documents.{Platform}
use atlas_rail.Mandate.Gate.Rules.{
  has_status, Lacks-iff, offer_rule, signatures_rule, validity_rule, revocation_rule, network_rule,
  asset_rule, resource_rule, pay_to_rule, ceiling_rule, price_limit_rule, applicable_price_limit,
  window_rule, total_rule, simulation_rule, threshold_rule, verified_mandate, accepted_offer,
}
use atlas_rail.Mandate.Gate.Evaluate.{
  has_problems, approval_of, integrity_rules, limit_rules, scope_rules, automatic_rules,
}

abbrev IsFresh : RuleResult → Type 0
IsFresh r = (r.status == RuleStatus.overridden) ≡ false

abbrev overridden_in : List RuleResult → Bool
overridden_in = has_status RuleStatus.overridden

module _ ⦃env : Platform⦄ where
  offer_rule-IsFresh : (o : Result Issue X402Offer) → IsFresh (offer_rule o)
  unfolding offer_rule
  offer_rule-IsFresh (err i) = refl
  offer_rule-IsFresh (ok o) = ground arith

  signatures_rule-IsFresh : (m : Result Issue AgentMandate) → IsFresh (signatures_rule m)
  unfolding signatures_rule
  signatures_rule-IsFresh (err i) = refl
  signatures_rule-IsFresh (ok m) = ground arith

  validity_rule-IsFresh :
      (m : Result Issue AgentMandate) (c : GateContext) → IsFresh (validity_rule m c)
  unfolding validity_rule
  validity_rule-IsFresh (err i) c = refl
  validity_rule-IsFresh (ok m) c = ground arith

  revocation_rule-IsFresh :
      (m : Result Issue AgentMandate) (c : GateContext) → IsFresh (revocation_rule m c)
  unfolding revocation_rule
  revocation_rule-IsFresh (err i) c = refl
  revocation_rule-IsFresh (ok m) c = ground arith

module _ ⦃env : Platform⦄ (m : AgentMandate) (o : X402Offer) (c : GateContext) where
  network_rule-IsFresh : IsFresh (network_rule m o)
  unfolding network_rule
  network_rule-IsFresh = ground arith

  asset_rule-IsFresh : IsFresh (asset_rule m o)
  unfolding asset_rule
  asset_rule-IsFresh = ground arith

  resource_rule-IsFresh : IsFresh (resource_rule m o)
  unfolding resource_rule
  resource_rule-IsFresh = ground arith

  pay_to_rule-IsFresh : IsFresh (pay_to_rule m o c)
  unfolding pay_to_rule
  pay_to_rule-IsFresh = ground arith

  ceiling_rule-IsFresh : IsFresh (ceiling_rule m o)
  unfolding ceiling_rule
  ceiling_rule-IsFresh = ground arith

  price_limit_rule-IsFresh : (l : Option ResourcePriceLimit) → IsFresh (price_limit_rule o l)
  unfolding price_limit_rule
  price_limit_rule-IsFresh none = refl
  price_limit_rule-IsFresh (some l) = ground arith

  window_rule-IsFresh : IsFresh (window_rule m o c)
  unfolding window_rule
  window_rule-IsFresh = ground arith

  total_rule-IsFresh : IsFresh (total_rule m o c)
  unfolding total_rule
  total_rule-IsFresh = ground arith

  simulation_rule-IsFresh : (doomed : Bool) → IsFresh (simulation_rule doomed c)
  unfolding simulation_rule
  simulation_rule-IsFresh doomed = ground arith

  threshold_rule-IsFresh : IsFresh (threshold_rule m o)
  unfolding threshold_rule
  threshold_rule-IsFresh = ground arith

  limit_rules-fresh :
      (doomed : Bool)
      → overridden_in (limit_rules m o c ++ simulation_rule doomed c ∷ threshold_rule m o ∷ [])
        ≡ false
  unfolding limit_rules
  limit_rules-fresh doomed =
      (Lacks-iff RuleStatus.overridden
          (limit_rules m o c ++ simulation_rule doomed c ∷ threshold_rule m o ∷ [])).1
        (
          network_rule-IsFresh,
          (
            asset_rule-IsFresh,
            (
              resource_rule-IsFresh,
              (
                pay_to_rule-IsFresh,
                (
                  ceiling_rule-IsFresh,
                  (
                    price_limit_rule-IsFresh (applicable_price_limit m o),
                    (
                      window_rule-IsFresh,
                      (
                        total_rule-IsFresh,
                        (simulation_rule-IsFresh doomed, (threshold_rule-IsFresh, tt)),
                      ),
                    ),
                  ),
                ),
              ),
            ),
          ),
        )

scope_rules-fresh :
    ⦃env : Platform⦄ (m : Option AgentMandate) (o : Option X402Offer) (c : GateContext)
    (before : List RuleResult) (doubtful : Bool)
    → overridden_in (scope_rules m o c before doubtful) ≡ false
unfolding scope_rules
scope_rules-fresh none o c before doubtful = refl
scope_rules-fresh (some m) none c before doubtful = refl
scope_rules-fresh (some m) (some o) c before doubtful = ground (
  arith,
  limit_rules-fresh m o c (has_status RuleStatus.failed (before ++ limit_rules m o c) || doubtful),
)

integrity_rules-fresh :
    ⦃env : Platform⦄ (m : Result Issue AgentMandate) (o : Result Issue X402Offer) (c : GateContext)
    → overridden_in (integrity_rules m o c) ≡ false
unfolding integrity_rules
integrity_rules-fresh m o c = (Lacks-iff RuleStatus.overridden (integrity_rules m o c)).1 (
  offer_rule-IsFresh o,
  (signatures_rule-IsFresh m, (validity_rule-IsFresh m c, (revocation_rule-IsFresh m c, tt))),
)

pub automatic-fresh :
    ⦃env : Platform⦄ (m : Result Issue AgentMandate) (o : Result Issue X402Offer) (c : GateContext)
    → has_status RuleStatus.overridden (automatic_rules m o c) ≡ false
unfolding automatic_rules
automatic-fresh m o c =
    rw (any-append {0} _ (integrity_rules m o c) _, integrity_rules-fresh m o c)
      (scope_rules-fresh (verified_mandate m) (accepted_offer o) c (integrity_rules m o c)
        (has_problems (approval_of m o c)))
