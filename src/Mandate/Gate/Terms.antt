-- ===== src/Mandate/Gate/Terms.antt =====
-- What a payment must satisfy, stated of the mandate, the offer and the context alone, and that each
-- rule of the gate decides its part of it.
use atlas_rail.Common.{
  ℕ, ◌+◌, ◌≤◌, ◌≡◌, ◌↔◌, ◌⊎◌, refl, String, Bool, true, false, Option, none, some, List, [], ◌∷◌,
  Any, Member, contains_iff, arith, ◌==◌, string_eq, nat_eqb_iff,
}
use atlas_rail.Mandate.Types.{AgentMandate, X402Offer, ResourcePriceLimit}
use atlas_rail.Mandate.Records.{RuleStatus, status_eq, GateSimulation, GateContext}
use atlas_rail.Mandate.Documents.{Platform}
use atlas_rail.Mandate.Schema.{supported_networks, tolerated_price}
use atlas_rail.Mandate.Resource.{matches_resource_pattern, matches_any_resource_pattern}
use atlas_rail.Mandate.Gate.Rules.{
  network_rule, asset_rule, resource_rule, pay_to_rule, ceiling_rule, price_limit_rule,
  applicable_price_limit, window_rule, total_rule, simulation_rule, simulation_faults,
  threshold_rule,
}

abbrev pub is_failed : RuleStatus → Bool
is_failed s = s == RuleStatus.failed

abbrev pub is_escalated : RuleStatus → Bool
is_escalated s = s == RuleStatus.escalated

-- The resource matches one of the patterns.
abbrev pub Covered : ⦃env : Platform⦄ → X402Offer → List String → Type 0
Covered ⦃env⦄ o patterns = Any (λ p. matches_resource_pattern o.resource_url p ≡ true) patterns

-- Where the offer and the channel both name a payer, it is the same.
abbrev pub SamePayer : Option String → Option String → Type 0
SamePayer (some a) (some b) = a ≡ b
SamePayer _ _ = Unit {0}

abbrev pub PriceCapped : ℕ → Option ResourcePriceLimit → Type 0
PriceCapped n none = Unit {0}
PriceCapped n (some l) = (n ≤ tolerated_price l) ⊎ (n ≤ l.hard_max)

abbrev pub PriceTolerated : ℕ → Option ResourcePriceLimit → Type 0
PriceTolerated n none = Unit {0}
PriceTolerated n (some l) = n ≤ tolerated_price l

-- The simulated transaction pays exactly the offer; without one, none is required.
abbrev pub SimulationAccepts : Option GateSimulation → Bool → Type 0
SimulationAccepts none required = required ≡ false
SimulationAccepts (some s) required =
    (s.success ≡ true)
    × (s.unknown_program_ids ≡ [])
    × (s.transfer_count ≡ 1)
    × (s.matches_offer ≡ true)

module _ ⦃env : Platform⦄ where
  -- The hard limits: what no approval can override.
  pub record IsPermitted (m : AgentMandate) (o : X402Offer) (c : GateContext) : Type 0 where
    pub network : Member o.network m.scope.allowed_networks
    pub network_supported : Member o.network supported_networks
    pub asset : Member o.asset m.scope.allowed_assets
    pub resource : Covered o m.escalation.resources ⊎ Covered o m.scope.allowed_resources
    pub pay_to : Member o.pay_to m.scope.allowed_pay_to
    pub payer : SamePayer o.fee_payer c.channel_payer
    pub denomination : o.asset ≡ m.scope.limits.mint
    pub ceiling : o.amount ≤ m.scope.limits.max_per_payment
    pub price : PriceCapped o.amount (applicable_price_limit m o)
    pub lifetime : c.spend.total + o.amount ≤ m.scope.limits.max_total

  -- The autonomous limits: what a human may override.
  pub record IsAutonomous (m : AgentMandate) (o : X402Offer) (c : GateContext) : Type 0 where
    pub never_asks : ¬ Covered o m.escalation.resources
    pub price : PriceTolerated o.amount (applicable_price_limit m o)
    pub window : c.spend.window_autonomous + o.amount ≤ m.scope.limits.max_per_window
    pub threshold : o.amount ≤ m.escalation.threshold

module _ (m : AgentMandate) (o : X402Offer) (c : GateContext) where
  pub network-fails :
      (is_failed (network_rule m o).status ≡ false)
      ↔ (Member o.network m.scope.allowed_networks × Member o.network supported_networks)
  unfolding network_rule
  network-fails = ground (
    arith,
    contains_iff o.network m.scope.allowed_networks,
    contains_iff o.network supported_networks,
  )

  pub network-escalates : is_escalated (network_rule m o).status ≡ false
  unfolding network_rule
  network-escalates = ground arith

  pub asset-fails :
      (is_failed (asset_rule m o).status ≡ false) ↔ Member o.asset m.scope.allowed_assets
  unfolding asset_rule
  asset-fails = ground (arith, contains_iff o.asset m.scope.allowed_assets)

  pub asset-escalates : is_escalated (asset_rule m o).status ≡ false
  unfolding asset_rule
  asset-escalates = ground arith

  pub ceiling-fails :
      (is_failed (ceiling_rule m o).status ≡ false)
      ↔ ((o.asset ≡ m.scope.limits.mint) × (o.amount ≤ m.scope.limits.max_per_payment))
  unfolding ceiling_rule
  ceiling-fails = ground (arith, string_eq.beq_iff o.asset m.scope.limits.mint)

  pub ceiling-escalates : is_escalated (ceiling_rule m o).status ≡ false
  unfolding ceiling_rule
  ceiling-escalates = ground arith

  pub window-fails : is_failed (window_rule m o c).status ≡ false
  unfolding window_rule
  window-fails = ground arith

  pub window-escalates :
      (is_escalated (window_rule m o c).status ≡ false)
      ↔ (c.spend.window_autonomous + o.amount ≤ m.scope.limits.max_per_window)
  unfolding window_rule
  window-escalates = ground arith

  pub total-fails :
      (is_failed (total_rule m o c).status ≡ false)
      ↔ (c.spend.total + o.amount ≤ m.scope.limits.max_total)
  unfolding total_rule
  total-fails = ground arith

  pub total-escalates : is_escalated (total_rule m o c).status ≡ false
  unfolding total_rule
  total-escalates = ground arith

  pub threshold-fails : is_failed (threshold_rule m o).status ≡ false
  unfolding threshold_rule
  threshold-fails = ground arith

  pub threshold-escalates :
      (is_escalated (threshold_rule m o).status ≡ false) ↔ (o.amount ≤ m.escalation.threshold)
  unfolding threshold_rule
  threshold-escalates = ground arith

  pub pay_to-escalates : is_escalated (pay_to_rule m o c).status ≡ false
  unfolding pay_to_rule
  pay_to-escalates = ground arith

module _ (o : X402Offer) where
  pub price-fails :
      (l : Option ResourcePriceLimit)
      → (is_failed (price_limit_rule o l).status ≡ false) ↔ PriceCapped o.amount l
  unfolding price_limit_rule
  price-fails none = (λ e. tt, λ h. refl)
  price-fails (some l) = ground arith

  pub price-escalates :
      (l : Option ResourcePriceLimit)
      → is_failed (price_limit_rule o l).status ≡ false
      → (is_escalated (price_limit_rule o l).status ≡ false) ↔ PriceTolerated o.amount l
  unfolding price_limit_rule
  price-escalates none h = (λ e. tt, λ h. refl)
  price-escalates (some l) h = ground arith

module _ ⦃env : Platform⦄ (o : X402Offer) where
  covered_iff :
      (ps : List String) → (matches_any_resource_pattern o.resource_url ps ≡ true) ↔ Covered o ps
  unfolding matches_any_resource_pattern
  covered_iff [] = (λ h. cc, λ h. absurd h)
  covered_iff (p ∷ ps) = ground (arith, covered_iff ps)

  pub resource-fails :
      (m : AgentMandate)
      → (is_failed (resource_rule m o).status ≡ false)
        ↔ (Covered o m.escalation.resources ⊎ Covered o m.scope.allowed_resources)
  unfolding resource_rule
  resource-fails m =
      ground (arith, covered_iff m.escalation.resources, covered_iff m.scope.allowed_resources)

  pub resource-escalates :
      (m : AgentMandate)
      → (is_escalated (resource_rule m o).status ≡ false) ↔ (¬ Covered o m.escalation.resources)
  unfolding resource_rule
  resource-escalates m = ground (arith, covered_iff m.escalation.resources)

pay_to-fails_payers :
    (m : AgentMandate) (o : X402Offer) (c : GateContext) (a b : Option String)
    → o.fee_payer ≡ a
    → c.channel_payer ≡ b
    → (is_failed (pay_to_rule m o c).status ≡ false)
      ↔ (Member o.pay_to m.scope.allowed_pay_to × SamePayer a b)
unfolding pay_to_rule
pay_to-fails_payers m o c none b ea eb =
    ground (arith, contains_iff o.pay_to m.scope.allowed_pay_to)
pay_to-fails_payers m o c (some a) none ea eb =
    ground (arith, contains_iff o.pay_to m.scope.allowed_pay_to)
pay_to-fails_payers m o c (some a) (some b) ea eb =
    ground (arith, contains_iff o.pay_to m.scope.allowed_pay_to, string_eq.beq_iff a b)

pub pay_to-fails :
    (m : AgentMandate) (o : X402Offer) (c : GateContext)
    → (is_failed (pay_to_rule m o c).status ≡ false)
      ↔ (Member o.pay_to m.scope.allowed_pay_to × SamePayer o.fee_payer c.channel_payer)
pay_to-fails m o c = pay_to-fails_payers m o c o.fee_payer c.channel_payer refl refl

faultless_iff :
    (s : GateSimulation)
    → (simulation_faults s ≡ []) ↔ (
        (s.success ≡ true)
        × (s.unknown_program_ids ≡ [])
        × (s.transfer_count ≡ 1)
        × (s.matches_offer ≡ true))
unfolding simulation_faults
faultless_iff s = ground (arith, nat_eqb_iff s.transfer_count 1)

simulation-fails_with :
    (c : GateContext) (s : Option GateSimulation)
    → c.simulation ≡ s
    → (is_failed (simulation_rule false c).status ≡ false)
      ↔ SimulationAccepts s c.require_simulation
unfolding simulation_rule
simulation-fails_with c none e = ground arith
simulation-fails_with c (some s) e = ground (arith, faultless_iff s)

pub simulation-fails :
    (c : GateContext)
    → (is_failed (simulation_rule false c).status ≡ false)
      ↔ SimulationAccepts c.simulation c.require_simulation
simulation-fails c = simulation-fails_with c c.simulation refl

pub simulation-escalates :
    (doomed : Bool) (c : GateContext) → is_escalated (simulation_rule doomed c).status ≡ false
unfolding simulation_rule
simulation-escalates doomed c = ground arith
