-- ===== src/Domain/Policy/Types.antt =====
-- The rules of packages/domain/src/policy-types.ts and the input and output of `evaluatePolicy`
-- (packages/domain/src/policy-engine.ts). An amount in base units is the number that its decimal
-- string denotes.
use atlas_rail.Common.{ℕ, String, Bool, Option, List}

pub record ApprovalRules : Type 0 where
  pub required_approvals : ℕ
  pub eligible_roles : List String
  pub prevent_creator_approval : Bool

pub record LimitRules : Type 0 where
  pub max_single_payout : ℕ
  pub daily_limit : ℕ
  pub monthly_limit : ℕ

pub record RecipientRules : Type 0 where
  pub require_verified_recipient : Bool
  pub allowed_recipient_ids : List String
  pub blocked_recipient_ids : List String

pub record TransactionRules : Type 0 where
  pub require_successful_simulation : Bool
  pub block_unknown_program_ids : Bool
  pub allow_program_ids : List String
  pub block_memo_required : Bool
  pub minimum_confirmations : String

pub data RiskLevel : Type 0 where
  low medium high critical : RiskLevel

pub record RiskRules : Type 0 where
  pub block_high_risk_recipients : Bool
  pub manual_review_above_risk_level : RiskLevel

pub record PolicyRules : Type 0 where
  pub version : ℕ
  pub approval : ApprovalRules
  pub limits : LimitRules
  pub recipients : RecipientRules
  pub allowed_mint_addresses : List String
  pub transaction : TransactionRules
  pub risk : RiskRules

pub data TreasuryStatus : Type 0 where
  active frozen : TreasuryStatus

pub data RecipientStatus : Type 0 where
  pending verified blocked archived : RecipientStatus

pub record Recipient : Type 0 where
  pub id : String
  pub status : RecipientStatus
  pub risk_level : RiskLevel

pub record Payout : Type 0 where
  pub amount : ℕ
  pub mint_address : String
  pub memo : Option String
  pub created_by_user_id : String

pub record Simulation : Type 0 where
  pub success : Bool
  pub program_ids : List String

-- `PayoutEvaluationInput`
pub record PayoutEvaluationInput : Type 0 where
  pub policy_version : ℕ
  pub rules : PolicyRules
  pub treasury_status : TreasuryStatus
  pub treasury_network : String
  pub recipient : Recipient
  pub payout : Payout
  pub daily_total : ℕ
  pub monthly_total : ℕ
  pub simulation : Option Simulation

pub data PolicyDecision : Type 0 where
  allow require_approval block : PolicyDecision

pub data Severity : Type 0 where
  info warning blocking : Severity

-- `PolicyEvaluationReason`: its code, with what the message and the details are made of.
pub data Reason : Type 0 where
  treasury_frozen prohibited_network : Reason
  mint_not_allowed : String → Reason
  recipient_not_verified recipient_blocked recipient_not_allowed invalid_amount : Reason
  exceeds_single_payout_limit exceeds_daily_limit exceeds_monthly_limit : ℕ → Reason
  high_risk_recipient : RiskLevel → Reason
  simulation_failed : Reason
  unknown_program_id_detected : List String → Reason
  memo_required : Reason
  approval_required : ℕ → Reason

-- The severity that each reason is pushed with.
unfoldable pub severity : Reason → Severity
severity (approval_required n) = info
severity _ = blocking

pub record PolicyEvaluationOutput : Type 0 where
  pub decision : PolicyDecision
  pub required_approvals : ℕ
  pub reasons : List Reason
  pub evaluated_policy_version : ℕ
  pub evaluation_hash : String
