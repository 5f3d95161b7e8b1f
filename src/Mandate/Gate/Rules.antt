-- ===== src/Mandate/Gate/Rules.antt =====
-- The rules of `evaluateGate` (packages/mandate/src/gate.ts), a function for each, in their order.
use atlas_rail.Common.{
  ◌+◌, Bool, true, false, not, ◌&&◌, Option, none, some, List, [], ◌∷◌, ◌++◌, length, any, find,
  contains, ltb, leb, ◌==◌, nat_eq, string_eq, if◌then◌else◌, Result, ok, err, All, ◌≡◌, ◌↔◌, refl,
  arith,
}
use atlas_rail.Mandate.Types.{AgentMandate, X402Offer, ResourcePriceLimit, Issue, shaped}
use atlas_rail.Mandate.Records.{
  RuleId, RuleStatus, status_eq, Explanation, PriceDetails, RuleResult, GateSimulation,
  SimulationProblem, GateContext,
}
use atlas_rail.Mandate.Documents.{Platform}
use atlas_rail.Mandate.Schema.{supported_networks, tolerated_price}
use atlas_rail.Mandate.Resource.{matches_resource_pattern, matches_any_resource_pattern}
use atlas_rail.Mandate.Chain.Verify.{verify_mandate_chain}

abbrev pub pass : RuleId → Explanation → RuleResult
pass id e = record { id = id; status = RuleStatus.passed; explanation = e }

abbrev pub fail : RuleId → Explanation → RuleResult
fail id e = record { id = id; status = RuleStatus.failed; explanation = e }

abbrev pub escalate : RuleId → Explanation → RuleResult
escalate id e = record { id = id; status = RuleStatus.escalated; explanation = e }

abbrev pub skipped : Explanation → RuleId → RuleResult
skipped e id = record { id = id; status = RuleStatus.skipped; explanation = e }

-- Some result has the status.
abbrev pub has_status : RuleStatus → List RuleResult → Bool
has_status s rules = any (λ r. r.status == s) rules

-- No result has the status.
abbrev pub Lacks : RuleStatus → List RuleResult → Type 0
Lacks s rules = All (λ r. (r.status == s) ≡ false) rules

pub Lacks-iff :
    (s : RuleStatus) (rules : List RuleResult) → (has_status s rules ≡ false) ↔ Lacks s rules
Lacks-iff s [] = (λ h. tt, λ h. refl)
Lacks-iff s (r ∷ rules) = ground (arith, Lacks-iff s rules)

-- Rule 0, and the offer that the later rules may use.
unfoldable pub offer_rule : Result Issue X402Offer → RuleResult
offer_rule (err issue) = fail RuleId.offer_well_formed (Explanation.offer_malformed issue)
offer_rule (ok offer) =
    if leb offer.amount 0
    then fail RuleId.offer_well_formed (Explanation.offer_amount offer.amount)
    else pass RuleId.offer_well_formed Explanation.offer_ok

unfoldable pub accepted_offer : Result Issue X402Offer → Option X402Offer
accepted_offer (err issue) = none
accepted_offer (ok offer) = if leb offer.amount 0 then none else some offer

module _ ⦃env : Platform⦄ where
  -- Rule 1, and the mandate that the later rules may use.
  unfoldable pub signatures_rule : Result Issue AgentMandate → RuleResult
  signatures_rule (err issue) = fail RuleId.mandate_signatures (Explanation.mandate_malformed issue)
  signatures_rule (ok mandate) =
      let verification = verify_mandate_chain (shaped mandate) none in
      if verification.valid
      then pass RuleId.mandate_signatures
          (Explanation.chain_verifies (length mandate.delegation_chain))
      else fail RuleId.mandate_signatures (Explanation.chain_errors verification.errors)

  unfoldable pub verified_mandate : Result Issue AgentMandate → Option AgentMandate
  verified_mandate (err issue) = none
  verified_mandate (ok mandate) =
      if (verify_mandate_chain (shaped mandate) none).valid then some mandate else none

unfoldable pub validity_rule : Result Issue AgentMandate → GateContext → RuleResult
validity_rule (err issue) c = skipped Explanation.skipped_malformed RuleId.mandate_validity
validity_rule (ok m) c =
    if leb m.not_before c.now && ltb c.now m.expires_at
    then pass RuleId.mandate_validity (Explanation.inside_window m.not_before m.expires_at c.now)
    else fail RuleId.mandate_validity (
        if not (leb m.not_before c.now)
        then Explanation.not_started m.not_before m.expires_at c.now
        else Explanation.expired_at m.not_before m.expires_at c.now)

unfoldable pub revocation_rule : Result Issue AgentMandate → GateContext → RuleResult
revocation_rule (err issue) c = skipped Explanation.skipped_malformed RuleId.mandate_not_revoked
revocation_rule (ok m) c = elim c.revoked [
  | none ↦ pass RuleId.mandate_not_revoked Explanation.not_revoked
  | some r ↦ fail RuleId.mandate_not_revoked (Explanation.revoked r.revoked_at r.reason)
]

-- Rule 4.
unfoldable pub network_rule : AgentMandate → X402Offer → RuleResult
unfolding contains
network_rule m o =
    if contains o.network m.scope.allowed_networks && contains o.network supported_networks
    then pass RuleId.network_allowed (Explanation.network o.network)
    else fail RuleId.network_allowed (Explanation.network_denied o.network m.scope.allowed_networks)

-- Rule 5.
unfoldable pub asset_rule : AgentMandate → X402Offer → RuleResult
unfolding contains
asset_rule m o =
    if contains o.asset m.scope.allowed_assets
    then pass RuleId.asset_allowed (Explanation.asset o.asset)
    else fail RuleId.asset_allowed (Explanation.asset_denied o.asset m.scope.allowed_assets)

-- Rule 6: a resource that always asks comes before one that is allowed.
unfoldable pub resource_rule : ⦃env : Platform⦄ → AgentMandate → X402Offer → RuleResult
unfolding matches_any_resource_pattern
resource_rule ⦃env⦄ m o =
    if matches_any_resource_pattern o.resource_url m.escalation.resources
    then escalate RuleId.resource_allowed (Explanation.resource_always_ask o.resource_url)
    else if matches_any_resource_pattern o.resource_url m.scope.allowed_resources
    then pass RuleId.resource_allowed (Explanation.resource o.resource_url)
    else fail RuleId.resource_allowed
        (Explanation.resource_denied o.resource_url m.scope.allowed_resources)

pay_to_listed : AgentMandate → X402Offer → RuleResult
unfolding contains
pay_to_listed m o =
    if contains o.pay_to m.scope.allowed_pay_to
    then pass RuleId.payto_allowed (Explanation.pay_to o.pay_to)
    else fail RuleId.payto_allowed (Explanation.pay_to_denied o.pay_to m.scope.allowed_pay_to)

-- Rule 7: the fee payer is compared only where both sides name one.
unfoldable pub pay_to_rule : AgentMandate → X402Offer → GateContext → RuleResult
unfolding pay_to_listed
pay_to_rule m o c = elim o.fee_payer [
  | none ↦ pay_to_listed m o
  | some fee_payer ↦ elim c.channel_payer [
    | none ↦ pay_to_listed m o
    | some channel_payer ↦
        if fee_payer == channel_payer
        then pay_to_listed m o
        else fail RuleId.payto_allowed (Explanation.fee_payer_differs fee_payer channel_payer)
  ]
]

-- Rule 8.
unfoldable pub ceiling_rule : AgentMandate → X402Offer → RuleResult
ceiling_rule m o =
    if not (o.asset == m.scope.limits.mint)
    then fail RuleId.max_per_payment (Explanation.mint_differs o.asset m.scope.limits.mint)
    else if ltb m.scope.limits.max_per_payment o.amount
    then fail RuleId.max_per_payment
        (Explanation.over_ceiling o.amount m.scope.limits.max_per_payment)
    else pass RuleId.max_per_payment
        (Explanation.within_ceiling o.amount m.scope.limits.max_per_payment)

-- The price limit that applies: the first whose pattern covers the resource.
unfoldable pub applicable_price_limit :
    ⦃env : Platform⦄ → AgentMandate → X402Offer → Option ResourcePriceLimit
unfolding matches_resource_pattern
applicable_price_limit ⦃env⦄ m o =
    find (λ limit. matches_resource_pattern o.resource_url limit.resource) m.scope.price_limits

price_details : X402Offer → ResourcePriceLimit → PriceDetails
unfolding tolerated_price
price_details o l = record {
  resource = o.resource_url;
  amount = o.amount;
  expected_price = l.expected_price;
  tolerance_centipct = l.tolerance_centipct;
  tolerated_ceiling = tolerated_price l;
  hard_max = l.hard_max;
}

unfoldable pub price_limit_rule : X402Offer → Option ResourcePriceLimit → RuleResult
unfolding price_details
price_limit_rule o none = pass RuleId.price_limit (Explanation.no_price_limit o.resource_url)
price_limit_rule o (some l) =
    if leb o.amount (tolerated_price l)
    then pass RuleId.price_limit (Explanation.price_within (price_details o l))
    else if leb o.amount l.hard_max
    then escalate RuleId.price_limit (Explanation.price_above_tolerance (price_details o l))
    else fail RuleId.price_limit (Explanation.price_over_maximum (price_details o l))

-- Rule 9: the rolling window.
unfoldable pub window_rule : AgentMandate → X402Offer → GateContext → RuleResult
window_rule m o c =
    let projected = c.spend.window_autonomous + o.amount in
    let limits = m.scope.limits in
    if leb projected limits.max_per_window
    then pass RuleId.window_budget (
        Explanation.window_fits (record {
          spent_in_window = c.spend.window_autonomous;
          projected = projected;
          max_per_window = limits.max_per_window;
          window_seconds = limits.window_seconds;
        }))
    else escalate RuleId.window_budget (
        Explanation.window_exceeded (record {
          spent_in_window = c.spend.window_autonomous;
          projected = projected;
          max_per_window = limits.max_per_window;
          window_seconds = limits.window_seconds;
        }))

-- Rule 10: the lifetime cap.
unfoldable pub total_rule : AgentMandate → X402Offer → GateContext → RuleResult
total_rule m o c =
    let projected = c.spend.total + o.amount in
    let cap = m.scope.limits.max_total in
    if leb projected cap
    then pass RuleId.max_total (
        Explanation.total_fits
          (record { spent_total = c.spend.total; projected = projected; max_total = cap }))
    else fail RuleId.max_total (
        Explanation.total_exceeded
          (record { spent_total = c.spend.total; projected = projected; max_total = cap }))

abbrev when {ℓ} : {A : Type ℓ} → Bool → A → List A
when true a = a ∷ []
when false a = []

unfoldable pub simulation_faults : GateSimulation → List SimulationProblem
simulation_faults sim =
    when (not sim.success) (SimulationProblem.simulation_failed sim.error)
    ++ when (ltb 0 (length sim.unknown_program_ids))
        (SimulationProblem.unknown_programs sim.unknown_program_ids)
    ++ when (not (sim.transfer_count == 1)) (SimulationProblem.transfer_count_is sim.transfer_count)
    ++ when (not sim.matches_offer) (SimulationProblem.pays_otherwise sim.mismatch)

simulated : GateSimulation → RuleResult
unfolding simulation_faults
simulated sim = elim (simulation_faults sim) [
  | [] ↦
      pass RuleId.transaction_simulation
        (Explanation.simulation_ok sim.tx_message_hash sim.program_ids sim.units_consumed)
  | p ∷ ps ↦ fail RuleId.transaction_simulation (
      Explanation.simulation_problems (p ∷ ps) sim.tx_message_hash sim.program_ids
        sim.unknown_program_ids sim.transfer_count sim.matches_offer)
]

-- Rule 11; the first argument says whether the request is already doomed.
unfoldable pub simulation_rule : Bool → GateContext → RuleResult
unfolding simulated
simulation_rule hard_failed c = elim c.simulation [
  | some sim ↦ simulated sim
  | none ↦
      if hard_failed
      then skipped Explanation.skipped_scope RuleId.transaction_simulation
      else if c.require_simulation
      then fail RuleId.transaction_simulation Explanation.simulation_missing
      else pass RuleId.transaction_simulation Explanation.simulation_not_required
]

-- Rule 12.
unfoldable pub threshold_rule : AgentMandate → X402Offer → RuleResult
threshold_rule m o =
    if ltb m.escalation.threshold o.amount
    then escalate RuleId.escalation_threshold
        (Explanation.above_threshold o.amount m.escalation.threshold)
    else pass RuleId.escalation_threshold
        (Explanation.within_threshold o.amount m.escalation.threshold)
