-- ===== src/Domain/Policy/Examples.antt =====
-- Runs of packages/domain/src: a policy, the life of a payout, and the permissions of roles.
use atlas_rail.Common.{
  ℕ, ◌<◌, ◌≡◌, ◌⊎◌, ◌↔◌, inl, inr, refl, String, true, some, List, [], ◌∷◌, any, contains, Member,
}
use atlas_rail.Domain.PayoutStatus.{
  PayoutStatus, can_transition_payout_status, is_terminal_payout_status,
}
use atlas_rail.Domain.Lifecycle.{
  Life, stays, moves, confirmed-passes, dead-Life, dead_statuses, terminal_iff,
}
use atlas_rail.Domain.Rbac.{UserRole, has_permission}
use atlas_rail.Domain.Duties.{separated}
use atlas_rail.Domain.Policy.Types.{
  PolicyRules, TreasuryStatus, RecipientStatus, RiskLevel, PayoutEvaluationInput, PolicyDecision,
  Reason,
}
use atlas_rail.Domain.Policy.Evaluate.{evaluate_policy, checks, run_checks, is_blank}
use atlas_rail.Domain.Policy.Meaning.{IsAcceptable, is_blocking, decision_iff, reasons-decision}

abbrev hash : ℕ → PolicyDecision → List Reason → ℕ → String
hash version decision reasons required = "digest"

abbrev rules : PolicyRules
rules = record {
  version = 1;
  approval = record {
    required_approvals = 2;
    eligible_roles = "OWNER" ∷ [];
    prevent_creator_approval = true;
  };
  limits = record { max_single_payout = 500; daily_limit = 900; monthly_limit = 9000 };
  recipients = record {
    require_verified_recipient = true;
    allowed_recipient_ids = [];
    blocked_recipient_ids = "rcp_9" ∷ [];
  };
  allowed_mint_addresses = "usdc" ∷ [];
  transaction = record {
    require_successful_simulation = true;
    block_unknown_program_ids = true;
    allow_program_ids = "token" ∷ [];
    block_memo_required = true;
    minimum_confirmations = "confirmed";
  };
  risk = record {
    block_high_risk_recipients = true;
    manual_review_above_risk_level = RiskLevel.high;
  };
}

abbrev input : ℕ → PayoutEvaluationInput
input amount = record {
  policy_version = 3;
  rules = rules;
  treasury_status = TreasuryStatus.active;
  treasury_network = "DEVNET";
  recipient = record {
    id = "rcp_1";
    status = RecipientStatus.verified;
    risk_level = RiskLevel.low;
  };
  payout = record {
    amount = amount;
    mint_address = "usdc";
    memo = some " invoice";
    created_by_user_id = "usr_1";
  };
  daily_total = 600;
  monthly_total = 600;
  simulation = some (record { success = true; program_ids = "token" ∷ [] });
}

-- 300 fits every limit, and 301 exceeds the daily one.
fits : (evaluate_policy hash (input 300)).reasons ≡ Reason.approval_required 2 ∷ []
unfolding evaluate_policy checks run_checks contains is_blank
fits = refl

too_much : (evaluate_policy hash (input 301)).reasons ≡ Reason.exceeds_daily_limit 900 ∷ []
unfolding evaluate_policy checks run_checks contains is_blank
too_much = refl

decision_iff_example :
    let out = evaluate_policy hash (input 300) in
    ((out.decision ≡ PolicyDecision.block) ↔ (¬ IsAcceptable (input 300)))
    × ((out.decision ≡ PolicyDecision.require_approval)
        ↔ (IsAcceptable (input 300) × (0 < rules.approval.required_approvals)))
    × ((out.decision ≡ PolicyDecision.allow)
        ↔ (IsAcceptable (input 300) × (rules.approval.required_approvals ≡ 0)))
decision_iff_example = decision_iff hash (input 300)

reasons-decision_example :
    let out = evaluate_policy hash (input 301) in
    ((any is_blocking out.reasons ≡ true) ↔ (out.decision ≡ PolicyDecision.block))
    × ((out.reasons ≡ []) ↔ (out.decision ≡ PolicyDecision.allow))
    × ((0 < out.required_approvals) ↔ (out.decision ≡ PolicyDecision.require_approval))
reasons-decision_example = reasons-decision hash (input 301)

abbrev retried : List PayoutStatus
retried =
    PayoutStatus.pending_approval ∷ PayoutStatus.approved ∷ PayoutStatus.queued_for_execution
    ∷ PayoutStatus.simulating ∷ PayoutStatus.ready_to_sign ∷ PayoutStatus.submitted
    ∷ PayoutStatus.failed ∷ PayoutStatus.queued_for_execution ∷ PayoutStatus.simulating
    ∷ PayoutStatus.ready_to_sign ∷ PayoutStatus.submitted ∷ PayoutStatus.confirmed ∷ []

-- A payout that failed once and was retried.
retried-Life : Life PayoutStatus.draft retried PayoutStatus.confirmed
unfolding can_transition_payout_status
retried-Life = moves _ _ refl (
    moves _ _ refl (
      moves _ _ refl (
        moves _ _ refl (
          moves _ _ refl (
            moves _ _ refl (
              moves _ _ refl (
                moves _ _ refl (
                  moves _ _ refl
                    (moves _ _ refl (moves _ _ refl (moves _ _ refl (stays _))))))))))))

confirmed-passes_example :
    Member PayoutStatus.approved retried
    × Member PayoutStatus.queued_for_execution retried
    × Member PayoutStatus.simulating retried
    × Member PayoutStatus.ready_to_sign retried
    × Member PayoutStatus.submitted retried
confirmed-passes_example = confirmed-passes retried retried-Life

abandoned-Life :
    Life PayoutStatus.simulation_failed
      (PayoutStatus.blocked ∷ PayoutStatus.cancelled ∷ [])
      PayoutStatus.cancelled
unfolding can_transition_payout_status
abandoned-Life = moves _ _ refl (moves _ _ refl (stays _))

dead-Life_example : Member PayoutStatus.cancelled dead_statuses
dead-Life_example = dead-Life (inr (inl refl)) abandoned-Life

terminal_iff_example : (is_terminal_payout_status PayoutStatus.failed ≡ true) ↔ (
    (t : PayoutStatus)
    → can_transition_payout_status PayoutStatus.failed t ≡ true
    → t ≡ PayoutStatus.failed)
terminal_iff_example = terminal_iff PayoutStatus.failed

separated_example : (UserRole.admin ≡ UserRole.owner) ⊎ (UserRole.admin ≡ UserRole.admin)
unfolding has_permission
separated_example = separated UserRole.admin (inl (refl, refl))
