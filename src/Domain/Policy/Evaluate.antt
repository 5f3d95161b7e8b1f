-- ===== src/Domain/Policy/Evaluate.antt =====
-- `evaluatePolicy` (packages/domain/src/policy-engine.ts): its checks in order, and the decision.
use Prim.Native.Char.{code}
use atlas_rail.Common.{
  ℕ, ◌+◌, String, Bool, true, false, not, ◌&&◌, ◌||◌, Option, none, some, List, [], ◌∷◌, ◌++◌,
  length, filterb, contains, ltb, leb, ◌==◌, string_eq, nat_eq, if◌then◌else◌,
}
use atlas_rail.Domain.Policy.Types.{
  RiskLevel, TreasuryStatus, RecipientStatus, PayoutEvaluationInput, Simulation, PolicyRules,
  PolicyDecision, Reason, PolicyEvaluationOutput,
}

abbrev pub is_active : TreasuryStatus → Bool
is_active TreasuryStatus.active = true
is_active TreasuryStatus.frozen = false

abbrev pub is_verified : RecipientStatus → Bool
is_verified RecipientStatus.verified = true
is_verified _ = false

abbrev pub is_blocked_status : RecipientStatus → Bool
is_blocked_status RecipientStatus.blocked = true
is_blocked_status _ = false

abbrev pub is_high_risk : RiskLevel → Bool
is_high_risk RiskLevel.high = true
is_high_risk RiskLevel.critical = true
is_high_risk _ = false

-- What `String.prototype.trim` removes: white space and line terminators.
abbrev pub is_white_space : ℕ → Bool
is_white_space c =
    (leb 9 c && leb c 13)
    || c == 32
    || c == 0xA0
    || c == 0x1680
    || (leb 0x2000 c && leb c 0x200A)
    || c == 0x2028
    || c == 0x2029
    || c == 0x202F
    || c == 0x205F
    || c == 0x3000
    || c == 0xFEFF

-- `text.trim() === ''`
unfoldable pub is_blank : String → Bool
is_blank String.[] = true
is_blank (String.◌∷◌ c s) = is_white_space (code c) && is_blank s

abbrev pub memo_missing : Option String → Bool
memo_missing none = true
memo_missing (some memo) = is_blank memo

-- The programs of the simulated transaction that the policy does not list.
abbrev pub unknown_ids : PolicyRules → Simulation → List String
unknown_ids rules s =
    filterb (λ id. not (contains id rules.transaction.allow_program_ids)) s.program_ids

abbrev pub simulation_fails : PolicyRules → Option Simulation → Bool
simulation_fails rules none = false
simulation_fails rules (some s) = rules.transaction.require_successful_simulation && not s.success

abbrev pub unknown_programs : PolicyRules → Option Simulation → List String
unknown_programs rules none = []
unknown_programs rules (some s) =
    if rules.transaction.block_unknown_program_ids then unknown_ids rules s else []

-- The two variables that the checks write, `isBlocked` and `reasons`.
pub record Findings : Type 0 where
  pub is_blocked : Bool
  pub reasons : List Reason

-- `if (test) { isBlocked = true; reasons.push(reason); }`
abbrev pub block_if : Bool → Reason → Findings → Findings
block_if true reason f = record { is_blocked = true; reasons = f.reasons ++ reason ∷ [] }
block_if false reason f = f

module _ (i : PayoutEvaluationInput) where
  -- The tests of the checks, with the reason that each pushes, in the order of the code.
  unfoldable pub checks : List (Bool × Reason)
  unfolding contains
  checks =
      let rules = i.rules in
      (not (is_active i.treasury_status), Reason.treasury_frozen)
      ∷ (not (i.treasury_network == "DEVNET"), Reason.prohibited_network)
      ∷ (
        not (contains i.payout.mint_address rules.allowed_mint_addresses),
        Reason.mint_not_allowed i.payout.mint_address,
      )
      ∷ (
        rules.recipients.require_verified_recipient && not (is_verified i.recipient.status),
        Reason.recipient_not_verified,
      )
      ∷ (
        is_blocked_status i.recipient.status
            || contains i.recipient.id rules.recipients.blocked_recipient_ids,
        Reason.recipient_blocked,
      )
      ∷ (
        ltb 0 (length rules.recipients.allowed_recipient_ids)
            && not (contains i.recipient.id rules.recipients.allowed_recipient_ids),
        Reason.recipient_not_allowed,
      )
      ∷ (leb i.payout.amount 0, Reason.invalid_amount)
      ∷ (
        ltb rules.limits.max_single_payout i.payout.amount,
        Reason.exceeds_single_payout_limit rules.limits.max_single_payout,
      )
      ∷ (
        ltb rules.limits.daily_limit (i.daily_total + i.payout.amount),
        Reason.exceeds_daily_limit rules.limits.daily_limit,
      )
      ∷ (
        ltb rules.limits.monthly_limit (i.monthly_total + i.payout.amount),
        Reason.exceeds_monthly_limit rules.limits.monthly_limit,
      )
      ∷ (
        rules.risk.block_high_risk_recipients && is_high_risk i.recipient.risk_level,
        Reason.high_risk_recipient i.recipient.risk_level,
      )
      ∷ (simulation_fails rules i.simulation, Reason.simulation_failed)
      ∷ (
        ltb 0 (length (unknown_programs rules i.simulation)),
        Reason.unknown_program_id_detected (unknown_programs rules i.simulation),
      )
      ∷ (rules.transaction.block_memo_required && memo_missing i.payout.memo, Reason.memo_required)
      ∷ []

-- The checks run one after the other.
unfoldable pub run_checks : List (Bool × Reason) → Findings → Findings
run_checks [] f = f
run_checks ((test, reason) ∷ rest) f = run_checks rest (block_if test reason f)

abbrev pub nothing_found : Findings
nothing_found = record { is_blocked = false; reasons = [] }

unfoldable pub findings : PayoutEvaluationInput → Findings
findings i = run_checks (checks i) nothing_found

unfoldable pub decide : Bool → ℕ → PolicyDecision
decide is_blocked required =
    if is_blocked
    then PolicyDecision.block
    else if ltb 0 required
    then PolicyDecision.require_approval
    else PolicyDecision.allow

unfoldable pub with_approval : Findings → ℕ → List Reason
with_approval f required =
    if not f.is_blocked && ltb 0 required
    then f.reasons ++ Reason.approval_required required ∷ []
    else f.reasons

-- SHA-256 of the JSON text of the version, the decision, the reasons and the approvals required.
module _ (hash_payload : ℕ → PolicyDecision → List Reason → ℕ → String) where
  unfoldable pub evaluate_policy : PayoutEvaluationInput → PolicyEvaluationOutput
  unfolding findings decide with_approval
  evaluate_policy i =
      let required = i.rules.approval.required_approvals in
      let f = findings i in
      let decision = decide f.is_blocked required in
      let reasons = with_approval f required in
      record {
        decision = decision;
        required_approvals = if f.is_blocked then 0 else required;
        reasons = reasons;
        evaluated_policy_version = i.policy_version;
        evaluation_hash = hash_payload i.policy_version decision reasons required;
      }
