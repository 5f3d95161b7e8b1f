-- ===== src/Mandate/Gate/Evaluate.antt =====
-- `evaluateGate` (packages/mandate/src/gate.ts): the rules in order, the approval that may override
-- what is approvable, and the verdict. `TypeError` of `assertContext` is the error of the result.
use atlas_rail.Common.{
  ℕ, String, Bool, true, false, not, ◌&&◌, ◌||◌, Option, none, some, List, [], ◌∷◌, ◌++◌, map,
  nat_eqb, filterb, contains, leb, ◌==◌, string_eq, if◌then◌else◌, Result, ok, err, ◌>>◌, throw_if,
}
use atlas_rail.Mandate.Types.{AgentMandate, X402Offer, Issue, Untyped}
use atlas_rail.Mandate.Records.{
  RuleId, RuleStatus, status_eq, Explanation, RuleResult, GateVerdict, DecisionKind, ApprovalStatus,
  approval_status_eq, ApprovalProblem, Approver, GateApproval, GateContext, GateReason, GateResult,
  OwnerApprovalTerms, OwnerApprovalSignature,
}
use atlas_rail.Mandate.Documents.{Platform, Document}
use atlas_rail.Mandate.Schema.{agent_mandate_issues, offer_issues, parse_with, base_units_pattern}
use atlas_rail.Mandate.OwnerApproval.{role_text, approval_signers, verify_owner_approval}
use atlas_rail.Mandate.Chain.Roles.{hash_mandate}
use atlas_rail.Mandate.Gate.Rules.{
  pass, fail, skipped, has_status, offer_rule, accepted_offer, signatures_rule, verified_mandate,
  validity_rule, revocation_rule, network_rule, asset_rule, resource_rule, pay_to_rule,
  ceiling_rule, applicable_price_limit, price_limit_rule, window_rule, total_rule, simulation_rule,
  threshold_rule,
}

-- `GateContext` values of the wrong form.
pub data ContextError : Type 0 where
  window_spend_not_base_units total_spend_not_base_units : ContextError

unfoldable pub assert_context : GateContext → Result ContextError (Unit {0})
unfolding base_units_pattern
assert_context c = do
  throw_if (not (base_units_pattern c.spend.window_autonomous))
      ContextError.window_spend_not_base_units
  throw_if (not (base_units_pattern c.spend.total)) ContextError.total_spend_not_base_units

-- `if (test) approvalProblems.push(p)`, before the pushes that follow.
abbrev pub problem_if : Bool → ApprovalProblem → List ApprovalProblem → List ApprovalProblem
problem_if true p later = p ∷ later
problem_if false p later = later

abbrev pub role_permitted : Option Approver → List String → Bool
role_permitted none roles = false
role_permitted (some a) roles = contains a.role roles

abbrev pub role_is : Option Approver → String → Bool
role_is none role = false
role_is (some a) role = a.role == role

abbrev pub hash_offer : ⦃env : Platform⦄ → X402Offer → String
hash_offer ⦃env⦄ o = env.hash_document (Document.offer o)

module _ ⦃env : Platform⦄ where
  -- The problems of a wallet's signature, where the approval carries both its parts.
  unfoldable pub signature_problems :
      AgentMandate
      → String
      → ℕ
      → GateApproval
      → OwnerApprovalTerms
      → OwnerApprovalSignature
      → List ApprovalProblem
  signature_problems m offer_hash now a terms signature =
      problem_if (not (terms.offer_hash == offer_hash)) ApprovalProblem.signed_different_offer (
        problem_if (not (terms.mandate_hash == hash_mandate m))
          ApprovalProblem.signed_different_mandate
          (problem_if
            (not (terms.approval_id == a.id) || not (nat_eqb terms.expires_at a.expires_at))
            ApprovalProblem.signature_mismatch
            (elim (verify_owner_approval terms signature (approval_signers m) m.agent.public_key
              now) [
                | err refusal ↦ ApprovalProblem.signature_rejected refusal ∷ []
                | ok signer ↦
                    problem_if (not (role_is a.approver (role_text signer.role)))
                      ApprovalProblem.role_differs_from_key []
              ])))

  unfoldable pub owner_problems : AgentMandate → String → ℕ → GateApproval → List ApprovalProblem
  owner_problems m offer_hash now a = elim a.owner_signature [
    | none ↦ elim a.terms [
      | none ↦ []
      | some terms ↦ ApprovalProblem.missing_terms_or_signature ∷ []
    ]
    | some signature ↦ elim a.terms [
      | none ↦ ApprovalProblem.missing_terms_or_signature ∷ []
      | some terms ↦ signature_problems m offer_hash now a terms signature
    ]
  ]

  -- `approvalProblems` for an approval that is presented with a verified mandate and an offer.
  unfoldable pub approval_problems : AgentMandate → String → ℕ → GateApproval → List ApprovalProblem
  approval_problems m offer_hash now a =
      problem_if (not (a.status == ApprovalStatus.approved)) (ApprovalProblem.status_is a.status) (
        problem_if (not (a.offer_hash == offer_hash)) ApprovalProblem.different_offer (
          problem_if (leb a.expires_at now) ApprovalProblem.has_expired (
            problem_if (not (role_permitted a.approver m.escalation.approver_roles))
              ApprovalProblem.role_not_permitted (owner_problems m offer_hash now a))))

-- An approval that is presented, with what is wrong with it.
pub record Presented : Type 0 where
  pub approval : GateApproval
  pub problems : List ApprovalProblem

-- An approval counts only where the mandate verified and the offer was accepted.
unfoldable pub presented :
    ⦃env : Platform⦄ → Option AgentMandate → Option X402Offer → GateContext → Option Presented
presented ⦃env⦄ none o c = none
presented ⦃env⦄ (some m) none c = none
presented ⦃env⦄ (some m) (some o) c = elim c.approval [
  | none ↦ none
  | some a ↦ some (record { approval = a; problems = approval_problems m (hash_offer o) c.now a })
]

abbrev pub has_problems : Option Presented → Bool
has_problems none = false
has_problems (some p) = elim p.problems [ [] ↦ false | q ∷ qs ↦ true ]

abbrev scope_rule_ids : List RuleId
scope_rule_ids =
    RuleId.network_allowed ∷ RuleId.asset_allowed ∷ RuleId.resource_allowed ∷ RuleId.payto_allowed
    ∷ RuleId.max_per_payment ∷ RuleId.price_limit ∷ RuleId.window_budget ∷ RuleId.max_total
    ∷ RuleId.transaction_simulation ∷ RuleId.escalation_threshold ∷ []

module _ ⦃env : Platform⦄ where
  -- Rules 4 to 10.
  unfoldable pub limit_rules : AgentMandate → X402Offer → GateContext → List RuleResult
  limit_rules m o c =
      network_rule m o
      ∷ asset_rule m o
      ∷ resource_rule m o
      ∷ pay_to_rule m o c
      ∷ ceiling_rule m o
      ∷ price_limit_rule o (applicable_price_limit m o)
      ∷ window_rule m o c
      ∷ total_rule m o c
      ∷ []

  -- Rules 4 to 12, after the results `before` of the integrity rules.
  unfoldable pub scope_rules :
      Option AgentMandate
      → Option X402Offer
      → GateContext
      → List RuleResult
      → Bool
      → List RuleResult
  scope_rules none o c before doubtful = map (skipped Explanation.skipped_integrity) scope_rule_ids
  scope_rules (some m) none c before doubtful =
      map (skipped Explanation.skipped_integrity) scope_rule_ids
  scope_rules (some m) (some o) c before doubtful =
      if has_status RuleStatus.failed before
      then map (skipped Explanation.skipped_integrity) scope_rule_ids
      else limit_rules m o c
        ++ simulation_rule (has_status RuleStatus.failed (before ++ limit_rules m o c) || doubtful)
            c
          ∷ threshold_rule m o
          ∷ []

  -- The four integrity rules; all of them are hard stops.
  unfoldable pub integrity_rules :
      Result Issue AgentMandate → Result Issue X402Offer → GateContext → List RuleResult
  integrity_rules m o c =
      offer_rule o ∷ signatures_rule m ∷ validity_rule m c ∷ revocation_rule m c ∷ []

-- An approvable rule that a human overrode.
abbrev pub override : RuleResult → RuleResult
override r =
    if r.status == RuleStatus.escalated then record r { status = RuleStatus.overridden } else r

abbrev approver_role : Option Approver → Option String
approver_role none = none
approver_role (some a) = some a.role

-- What the approval does to the results.
unfoldable pub apply_approval : Option Presented → List RuleResult → List RuleResult
apply_approval none rules = rules
apply_approval (some p) rules =
    if has_problems (some p)
    then rules
      ++ fail RuleId.escalation_approval (Explanation.approval_rejected p.problems p.approval.id)
        ∷ []
    else if has_status RuleStatus.escalated rules && not (has_status RuleStatus.failed rules)
    then map override rules
      ++ pass RuleId.escalation_approval
          (Explanation.approval_granted p.approval.id (approver_role p.approval.approver))
        ∷ []
    else rules ++ pass RuleId.escalation_approval (Explanation.approval_unneeded p.approval.id) ∷ []

unfoldable pub verdict_of : List RuleResult → GateVerdict
verdict_of rules =
    if has_status RuleStatus.failed rules
    then GateVerdict.deny
    else if has_status RuleStatus.escalated rules
    then GateVerdict.escalate
    else GateVerdict.allow

unfoldable pub kind_of : List RuleResult → Option DecisionKind
unfolding verdict_of
kind_of rules = elim (verdict_of rules) [
  | GateVerdict.allow ↦ some (
      if has_status RuleStatus.overridden rules
      then DecisionKind.approved
      else DecisionKind.autonomous)
  | _ ↦ none
]

abbrev pub with_status : RuleStatus → List RuleResult → List RuleResult
with_status s rules = filterb (λ r. r.status == s) rules

abbrev ids : List RuleResult → List RuleId
ids rules = map (λ r. r.id) rules

abbrev first_id : List RuleResult → List RuleResult → Option RuleId
first_id [] [] = none
first_id [] (r ∷ rs) = some r.id
first_id (r ∷ rs) _ = some r.id

unfoldable pub reason_of : List RuleResult → GateReason
unfolding verdict_of
reason_of rules = elim (verdict_of rules) [
  | GateVerdict.deny ↦ GateReason.denied (with_status RuleStatus.failed rules)
  | GateVerdict.escalate ↦ GateReason.approval_required (with_status RuleStatus.escalated rules)
  | GateVerdict.allow ↦
      if has_status RuleStatus.overridden rules
      then GateReason.allowed_approved
      else GateReason.allowed_autonomous
]

abbrev asked_roles : GateVerdict → Option AgentMandate → List String
asked_roles GateVerdict.escalate (some m) = m.escalation.approver_roles
asked_roles _ _ = []

module _ ⦃env : Platform⦄ where
  -- The approval that counts for the parsed inputs.
  unfoldable pub approval_of :
      Result Issue AgentMandate → Result Issue X402Offer → GateContext → Option Presented
  approval_of m o c = presented (verified_mandate m) (accepted_offer o) c

  -- The results of the rules 0 to 12, before the approval is applied.
  unfoldable pub automatic_rules :
      Result Issue AgentMandate → Result Issue X402Offer → GateContext → List RuleResult
  automatic_rules m o c =
      let before = integrity_rules m o c in
      before
      ++ scope_rules (verified_mandate m) (accepted_offer o) c before
          (has_problems (approval_of m o c))

  -- All the rule results, from the parsed inputs.
  unfoldable pub rules_of :
      Result Issue AgentMandate → Result Issue X402Offer → GateContext → List RuleResult
  rules_of m o c = apply_approval (approval_of m o c) (automatic_rules m o c)

  mandate_hash_of : Result Issue AgentMandate → Option String
  unfolding hash_mandate
  mandate_hash_of (err issue) = none
  mandate_hash_of (ok m) = some (hash_mandate m)

  offer_hash_of : Option X402Offer → Option String
  offer_hash_of none = none
  offer_hash_of (some o) = some (hash_offer o)

  unfoldable pub evaluate_gate :
      Untyped AgentMandate → Untyped X402Offer → GateContext → Result ContextError GateResult
  unfolding mandate_hash_of offer_hash_of
  evaluate_gate mandate_input offer_input c = do
    assert_context c
    let m = parse_with agent_mandate_issues mandate_input
    let o = parse_with offer_issues offer_input
    let rules = rules_of m o c
    ok (record {
      decision = verdict_of rules;
      kind = kind_of rules;
      rules_evaluated = rules;
      failed_rule =
          first_id (with_status RuleStatus.failed rules) (with_status RuleStatus.escalated rules);
      failed_rules = ids (with_status RuleStatus.failed rules);
      escalation_rules = ids (with_status RuleStatus.escalated rules);
      reason = reason_of rules;
      required_approver_roles = asked_roles (verdict_of rules) (verified_mandate m);
      offer_hash = offer_hash_of (accepted_offer o);
      mandate_hash = mandate_hash_of m;
    })
