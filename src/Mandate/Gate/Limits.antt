-- ===== src/Mandate/Gate/Limits.antt =====
-- The results of the integrity rules and of the scope rules, read as the terms of the payment.
use atlas_rail.Common.{
  ◌≡◌, ◌↔◌, ◌≤◌, ◌<◌, refl, true, false, none, [], ◌∷◌, ◌++◌, arith, ◌==◌, Result, ok, err,
}
use atlas_rail.Mandate.Types.{AgentMandate, X402Offer, Issue, shaped}
use atlas_rail.Mandate.Records.{RuleStatus, status_eq, GateContext}
use atlas_rail.Mandate.Documents.{Platform}
use atlas_rail.Mandate.Chain.Verify.{verify_mandate_chain}
use atlas_rail.Mandate.Gate.Rules.{
  has_status, Lacks-iff, offer_rule, signatures_rule, validity_rule, revocation_rule,
  applicable_price_limit, threshold_rule,
}
use atlas_rail.Mandate.Gate.Evaluate.{integrity_rules, limit_rules}
use atlas_rail.Mandate.Gate.Terms.{
  IsPermitted, IsAutonomous, network-fails, network-escalates, asset-fails, asset-escalates,
  ceiling-fails, ceiling-escalates, window-fails, window-escalates, total-fails, total-escalates,
  threshold-escalates, pay_to-fails, pay_to-escalates, price-fails, price-escalates, resource-fails,
  resource-escalates,
}
use atlas_rail.Mandate.Gate.Verdict.{fails, asks}

module _ ⦃env : Platform⦄ where
  -- The mandate is signed, in force and not revoked, and the offer is for a positive amount.
  pub record IsLive (m : AgentMandate) (o : X402Offer) (c : GateContext) : Type 0 where
    pub signed : (verify_mandate_chain (shaped m) none).valid ≡ true
    pub positive : 0 < o.amount
    pub started : m.not_before ≤ c.now
    pub unexpired : c.now < m.expires_at
    pub unrevoked : c.revoked ≡ none

  offer-fails :
      (o : X402Offer)
      → (has_status RuleStatus.failed (offer_rule (ok o) ∷ []) ≡ false) ↔ (0 < o.amount)
  unfolding offer_rule
  offer-fails o = ground arith

  signatures-fails :
      (m : AgentMandate)
      → (has_status RuleStatus.failed (signatures_rule (ok m) ∷ []) ≡ false)
        ↔ ((verify_mandate_chain (shaped m) none).valid ≡ true)
  unfolding signatures_rule
  signatures-fails m = ground arith

validity-fails :
    (m : AgentMandate) (c : GateContext)
    → (has_status RuleStatus.failed (validity_rule (ok m) c ∷ []) ≡ false)
      ↔ ((m.not_before ≤ c.now) × (c.now < m.expires_at))
unfolding validity_rule
validity-fails m c = ground arith

revocation-fails :
    (m : AgentMandate) (c : GateContext)
    → (has_status RuleStatus.failed (revocation_rule (ok m) c ∷ []) ≡ false) ↔ (c.revoked ≡ none)
unfolding revocation_rule
revocation-fails m c = ground arith

module _ ⦃env : Platform⦄ (m : AgentMandate) (o : X402Offer) (c : GateContext) where
  pub integrity-IsLive : fails (integrity_rules (ok m) (ok o) c) ≡ false → IsLive m o c
  unfolding integrity_rules
  integrity-IsLive h =
      ground (arith, offer-fails o, signatures-fails m, validity-fails m c, revocation-fails m c)

  pub IsLive-integrity : IsLive m o c → fails (integrity_rules (ok m) (ok o) c) ≡ false
  unfolding integrity_rules
  IsLive-integrity h =
      ground (arith, offer-fails o, signatures-fails m, validity-fails m c, revocation-fails m c)

module _ ⦃env : Platform⦄ where
  offer-asks :
      (o : Result Issue X402Offer) → ((offer_rule o).status == RuleStatus.escalated) ≡ false
  unfolding offer_rule
  offer-asks (err i) = refl
  offer-asks (ok o) = ground arith

  signatures-asks :
      (m : Result Issue AgentMandate) → ((signatures_rule m).status == RuleStatus.escalated) ≡ false
  unfolding signatures_rule
  signatures-asks (err i) = refl
  signatures-asks (ok m) = ground arith

module _ (c : GateContext) where
  validity-asks :
      (m : Result Issue AgentMandate) → ((validity_rule m c).status == RuleStatus.escalated) ≡ false
  unfolding validity_rule
  validity-asks (err i) = refl
  validity-asks (ok m) = ground arith

  revocation-asks :
      (m : Result Issue AgentMandate)
      → ((revocation_rule m c).status == RuleStatus.escalated) ≡ false
  unfolding revocation_rule
  revocation-asks (err i) = refl
  revocation-asks (ok m) = ground arith

-- No integrity rule asks a human.
pub integrity-asks :
    ⦃env : Platform⦄ (m : Result Issue AgentMandate) (o : Result Issue X402Offer) (c : GateContext)
    → asks (integrity_rules m o c) ≡ false
unfolding integrity_rules
integrity-asks m o c =
    (Lacks-iff RuleStatus.escalated (integrity_rules m o c)).1
      (offer-asks o, (signatures-asks m, (validity-asks c m, (revocation-asks c m, tt))))

module _ ⦃env : Platform⦄ (m : AgentMandate) (o : X402Offer) (c : GateContext) where
  -- The limits that the rules 4 to 10 enforce are those of `IsPermitted`.
  pub limits-IsPermitted : fails (limit_rules m o c) ≡ false → IsPermitted m o c
  unfolding limit_rules
  limits-IsPermitted h =
      let l = (Lacks-iff RuleStatus.failed (limit_rules m o c)).0 h in
      record {
        network = ((network-fails m o c).0 l.0).0;
        network_supported = ((network-fails m o c).0 l.0).1;
        asset = (asset-fails m o c).0 l.1.0;
        resource = (resource-fails o m).0 l.1.1.0;
        pay_to = ((pay_to-fails m o c).0 l.1.1.1.0).0;
        payer = ((pay_to-fails m o c).0 l.1.1.1.0).1;
        denomination = ((ceiling-fails m o c).0 l.1.1.1.1.0).0;
        ceiling = ((ceiling-fails m o c).0 l.1.1.1.1.0).1;
        price = (price-fails o (applicable_price_limit m o)).0 l.1.1.1.1.1.0;
        lifetime = (total-fails m o c).0 l.1.1.1.1.1.1.1.0;
      }

  pub IsPermitted-limits : IsPermitted m o c → fails (limit_rules m o c) ≡ false
  unfolding limit_rules
  IsPermitted-limits p = (Lacks-iff RuleStatus.failed (limit_rules m o c)).1 (
    (network-fails m o c).1 (p.network, p.network_supported),
    (
      (asset-fails m o c).1 p.asset,
      (
        (resource-fails o m).1 p.resource,
        (
          (pay_to-fails m o c).1 (p.pay_to, p.payer),
          (
            (ceiling-fails m o c).1 (p.denomination, p.ceiling),
            (
              (price-fails o (applicable_price_limit m o)).1 p.price,
              (window-fails m o c, ((total-fails m o c).1 p.lifetime, tt)),
            ),
          ),
        ),
      ),
    ),
  )

  -- Where they hold, the rules that ask are those of `IsAutonomous`.
  pub asks-IsAutonomous :
      IsPermitted m o c
      → asks (limit_rules m o c ++ threshold_rule m o ∷ []) ≡ false
      → IsAutonomous m o c
  unfolding limit_rules
  asks-IsAutonomous p h =
      let l = (Lacks-iff RuleStatus.escalated (limit_rules m o c ++ threshold_rule m o ∷ [])).0 h in
      record {
        never_asks = (resource-escalates o m).0 l.1.1.0;
        price =
            (price-escalates o (applicable_price_limit m o)
                ((price-fails o (applicable_price_limit m o)).1 p.price)).0
              l.1.1.1.1.1.0;
        window = (window-escalates m o c).0 l.1.1.1.1.1.1.0;
        threshold = (threshold-escalates m o c).0 l.1.1.1.1.1.1.1.1.0;
      }

  pub IsAutonomous-asks :
      IsPermitted m o c
      → IsAutonomous m o c
      → asks (limit_rules m o c ++ threshold_rule m o ∷ []) ≡ false
  unfolding limit_rules
  IsAutonomous-asks p a =
      (Lacks-iff RuleStatus.escalated (limit_rules m o c ++ threshold_rule m o ∷ [])).1 (
        network-escalates m o c,
        (
          asset-escalates m o c,
          (
            (resource-escalates o m).1 a.never_asks,
            (
              pay_to-escalates m o c,
              (
                ceiling-escalates m o c,
                (
                  (price-escalates o (applicable_price_limit m o)
                        ((price-fails o (applicable_price_limit m o)).1 p.price)).1
                      a.price,
                  (
                    (window-escalates m o c).1 a.window,
                    (total-escalates m o c, ((threshold-escalates m o c).1 a.threshold, tt)),
                  ),
                ),
              ),
            ),
          ),
        ),
      )
