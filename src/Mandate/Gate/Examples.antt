-- ===== src/Mandate/Gate/Examples.antt =====
-- The gate run on samples (packages/mandate/src/gate.ts).
use atlas_rail.Common.{
  contains, distinct, String, Bool, ◌≤◌, ℕ, ◌≡◌, ◌↔◌, ◌⊎◌, refl, true, false, Option, none, some,
  is_some, Result, ok, err, [], ◌<◌, arith,
}
use atlas_rail.Common.Decimal.{decimal}
use atlas_rail.Mandate.Types.{AgentMandate, X402Offer, shaped}
use atlas_rail.Mandate.Records.{
  GateVerdict, DecisionKind, GateApproval, GateResult, GateReason, Revocation,
}
use atlas_rail.Mandate.Schema.{
  agent_mandate_issues, offer_issues, is_base58, is_lower_hex, matches_class,
}
use atlas_rail.Mandate.Resource.{utf16_length}
use atlas_rail.Mandate.Crypto.{domain_message}
use atlas_rail.Mandate.OwnerApproval.{verify_owner_approval, approval_signers, role_text}
use atlas_rail.Mandate.Chain.Roles.{hash_mandate}
use atlas_rail.Mandate.Chain.Verify.{verify_mandate_chain, verify_mandate}
use atlas_rail.Mandate.Chain.Shape.{IsDelegated, valid_iff, verify_iff}
use atlas_rail.Mandate.Gate.Rules.{
  offer_rule, accepted_offer, signatures_rule, verified_mandate, validity_rule, revocation_rule,
  network_rule, asset_rule, resource_rule, pay_to_rule, ceiling_rule, applicable_price_limit,
  price_limit_rule, window_rule, total_rule, simulation_rule, threshold_rule,
}
use atlas_rail.Mandate.Gate.Evaluate.{
  presented, approval_of, approval_problems, owner_problems, signature_problems, scope_rules,
  limit_rules, assert_context, integrity_rules, automatic_rules, rules_of, apply_approval,
  evaluate_gate, ContextError, kind_of, verdict_of, reason_of,
}
use atlas_rail.Mandate.Gate.Terms.{IsPermitted, IsAutonomous}
use atlas_rail.Mandate.Gate.Authority.{
  IsAllowed, shaped-IsAllowed, undenied-IsAllowed, IsAllowed-allow, IsAllowed-kind,
}
use atlas_rail.Mandate.Gate.Approvals.{IsGranted, approved-IsGranted, deny_despite_approval}
use atlas_rail.Mandate.Gate.Samples.{platform, mandate, offer, context, approval}

-- All that a run of the gate computes.
unfoldable pub gate_runs : Unit {0}
unfolding is_base58 contains is_lower_hex domain_message distinct matches_class utf16_length decimal
    role_text verify_owner_approval approval_signers hash_mandate verify_mandate_chain offer_issues
    offer_rule accepted_offer signatures_rule verified_mandate validity_rule revocation_rule
    network_rule asset_rule resource_rule pay_to_rule ceiling_rule applicable_price_limit
    price_limit_rule window_rule total_rule simulation_rule threshold_rule presented approval_of
    approval_problems owner_problems signature_problems scope_rules limit_rules assert_context
    integrity_rules automatic_rules rules_of apply_approval evaluate_gate kind_of verdict_of
    reason_of
gate_runs = tt

abbrev no_answer : GateResult
no_answer = record {
  decision = GateVerdict.deny;
  kind = none;
  rules_evaluated = [];
  failed_rule = none;
  failed_rules = [];
  escalation_rules = [];
  reason = GateReason.denied [];
  required_approver_roles = [];
  offer_hash = none;
  mandate_hash = none;
}

abbrev pub answer : Result ContextError GateResult → GateResult
answer (ok r) = r
answer (err e) = no_answer

abbrev pub run : ℕ → ℕ → Option GateApproval → Result ContextError GateResult
run amount now given = evaluate_gate (shaped mandate) (shaped (offer amount)) (context now given)

abbrev pub Runs : ℕ → ℕ → Option GateApproval → GateVerdict → Option DecisionKind → Type 0
Runs amount now given d k =
    let r = answer (run amount now given) in
    (run amount now given ≡ ok r) × (r.decision ≡ d) × (r.kind ≡ k)

-- A small payment is allowed at once.
pub small-Runs : Runs 500 1500 none GateVerdict.allow (some DecisionKind.autonomous)
unfolding gate_runs
small-Runs = (refl, refl, refl)

-- A larger one asks a human.
large-Runs : Runs 800 1500 none GateVerdict.escalate none
unfolding gate_runs
large-Runs = (refl, refl, refl)

-- With the approval it is allowed.
approved-Runs : Runs 800 1500 (some approval) GateVerdict.allow (some DecisionKind.approved)
unfolding gate_runs
approved-Runs = (refl, refl, refl)

-- After the mandate has expired it is denied, with the approval and without.
expired-Runs : Runs 800 2000 (some approval) GateVerdict.deny none
unfolding gate_runs
expired-Runs = (refl, refl, refl)

expired_unapproved-Runs : Runs 800 2000 none GateVerdict.deny none
unfolding gate_runs
expired_unapproved-Runs = (refl, refl, refl)

large-IsAllowed : IsAllowed mandate (offer 800) (context 1500 none)
large-IsAllowed =
    shaped-IsAllowed mandate (offer 800) (context 1500 none) (answer (run 800 1500 none))
      large-Runs.0 (λ h. ground (arith, large-Runs.1))

undenied-IsAllowed_example :
    (m : AgentMandate) × (o : X402Offer) × (shaped mandate ≡ shaped m)
    × (shaped (offer 500) ≡ shaped o)
    × IsAllowed m o (context 1500 none)
undenied-IsAllowed_example =
    undenied-IsAllowed (shaped mandate) (shaped (offer 500)) (context 1500 none)
      (answer (run 500 1500 none)) small-Runs.0 (λ h. ground (arith, small-Runs.1))

IsAllowed-allow_example :
    let c = context 1500 none in
    let r = answer (run 800 1500 none) in
    ((r.decision ≡ GateVerdict.allow)
      ↔ (IsAutonomous mandate (offer 800) c ⊎ (is_some c.approval ≡ true)))
    × ((r.decision ≡ GateVerdict.escalate)
        ↔ ((¬ IsAutonomous mandate (offer 800) c) × (is_some c.approval ≡ false)))
IsAllowed-allow_example =
    IsAllowed-allow mandate (offer 800) (context 1500 none) (answer (run 800 1500 none))
      large-Runs.0 large-IsAllowed

IsAllowed-kind_example :
    let c = context 1500 none in
    let r = answer (run 800 1500 none) in
    ((r.kind ≡ some DecisionKind.autonomous) ↔ IsAutonomous mandate (offer 800) c)
    × ((r.kind ≡ some DecisionKind.approved)
        ↔ ((¬ IsAutonomous mandate (offer 800) c) × (is_some c.approval ≡ true)))
IsAllowed-kind_example =
    IsAllowed-kind mandate (offer 800) (context 1500 none) (answer (run 800 1500 none)) large-Runs.0
      large-IsAllowed

approved-IsGranted_example :
    (m : AgentMandate) × (o : X402Offer) × (a : GateApproval) × (shaped mandate ≡ shaped m)
    × (shaped (offer 800) ≡ shaped o)
    × ((context 1500 (some approval)).approval ≡ some a)
    × IsGranted m o 1500 a
    × IsPermitted m o (context 1500 (some approval))
    × (¬ IsAutonomous m o (context 1500 (some approval)))
approved-IsGranted_example =
    approved-IsGranted (shaped mandate) (shaped (offer 800)) (context 1500 (some approval))
      (answer (run 800 1500 (some approval))) approved-Runs.0 approved-Runs.2

deny_despite_approval_example : (answer (run 800 2000 (some approval))).decision ≡ GateVerdict.deny
deny_despite_approval_example =
    deny_despite_approval (shaped mandate) (shaped (offer 800)) (context 2000 (some approval))
      (answer (run 800 2000 none)) (answer (run 800 2000 (some approval))) expired_unapproved-Runs.0
      expired_unapproved-Runs.1 expired-Runs.0

valid_iff_example :
    ((verify_mandate_chain (shaped mandate) none).valid ≡ true)
    ↔ ((agent_mandate_issues mandate ≡ []) × IsDelegated mandate none)
valid_iff_example = valid_iff mandate none

abbrev never_revoked : String → Option Revocation
never_revoked id = none

abbrev unseen : String → String → String → Bool
unseen organization nonce id = false

verify_iff_example :
    ((verify_mandate (shaped mandate) none 1500 never_revoked unseen).valid ≡ true) ↔ (
      (agent_mandate_issues mandate ≡ [])
      × IsDelegated mandate none
      × (mandate.not_before ≤ 1500)
      × (1500 < mandate.expires_at)
      × (never_revoked mandate.id ≡ none)
      × (unseen mandate.issuer.organization_id mandate.nonce mandate.id ≡ false))
verify_iff_example = verify_iff mandate none 1500 never_revoked unseen
