-- ===== src/Mandate/Records.antt =====
-- What the gate reads and returns, and the records that are hashed and signed: the interfaces of
-- packages/mandate/src/gate.ts, decision.ts, owner-approval.ts and mandate.ts. A message and its
-- details are one value, a constructor for each place of the code that writes them.
use atlas_rail.Common.{
  ℕ, zero, suc, String, Bool, true, false, Option, none, some, List, ◌≡◌, refl, Eq, eq_by_rank,
}
use atlas_rail.Mandate.Types.{DelegationRole, Issue}

pub data RuleId : Type 0 where
  offer_well_formed mandate_signatures mandate_validity mandate_not_revoked : RuleId
  network_allowed asset_allowed resource_allowed payto_allowed max_per_payment : RuleId
  price_limit window_budget max_total transaction_simulation escalation_threshold : RuleId
  escalation_approval : RuleId

pub data RuleStatus : Type 0 where
  passed failed escalated overridden skipped : RuleStatus

abbrev status_rank : RuleStatus → ℕ
status_rank passed = 0
status_rank failed = 1
status_rank escalated = 2
status_rank overridden = 3
status_rank skipped = 4

abbrev status_unrank : ℕ → RuleStatus
status_unrank zero = passed
status_unrank (suc zero) = failed
status_unrank (suc (suc zero)) = escalated
status_unrank (suc (suc (suc zero))) = overridden
status_unrank (suc (suc (suc (suc n)))) = skipped

pub status_retract : (s : RuleStatus) → status_unrank (status_rank s) ≡ s
status_retract passed = refl
status_retract failed = refl
status_retract escalated = refl
status_retract overridden = refl
status_retract skipped = refl

instance abbrev pub status_eq : Eq RuleStatus
status_eq = eq_by_rank status_rank status_unrank status_retract

pub data GateVerdict : Type 0 where
  allow deny escalate : GateVerdict

abbrev verdict_rank : GateVerdict → ℕ
verdict_rank allow = 0
verdict_rank deny = 1
verdict_rank escalate = 2

abbrev verdict_unrank : ℕ → GateVerdict
verdict_unrank zero = allow
verdict_unrank (suc zero) = deny
verdict_unrank (suc (suc n)) = escalate

pub verdict_retract : (d : GateVerdict) → verdict_unrank (verdict_rank d) ≡ d
verdict_retract allow = refl
verdict_retract deny = refl
verdict_retract escalate = refl

instance abbrev pub verdict_eq : Eq GateVerdict
verdict_eq = eq_by_rank verdict_rank verdict_unrank verdict_retract

pub data DecisionKind : Type 0 where
  autonomous approved : DecisionKind

-- `kind === record.kind`, where both may be null.
abbrev pub same_kind : Option DecisionKind → Option DecisionKind → Bool
same_kind none none = true
same_kind (some autonomous) (some autonomous) = true
same_kind (some approved) (some approved) = true
same_kind _ _ = false

pub data CheckId : Type 0 where
  schema chain_shape chain_signatures distinct_signers independent_approvers : CheckId
  agent_acceptance trusted_signers validity_window not_revoked nonce_fresh : CheckId
  decision_hash decision_signature decision_matches_scope : CheckId

-- The texts of `VerificationCheck.message`.
pub data CheckMessage : Type 0 where
  schema_ok shape_ok shape_incomplete keys_distinct keys_repeat agent_accepted : CheckMessage
  agent_not_named signers_trusted inside_window mandate_live nonce_unique nonce_replayed :
      CheckMessage
  decision_hash_differs decision_signed decision_unsigned other_mandate other_offer : CheckMessage
  schema_issue : Issue → CheckMessage
  shape_unexpected : DelegationRole → Option DelegationRole → CheckMessage
  signatures_ok : ℕ → CheckMessage
  signature_bad : ℕ → DelegationRole → CheckMessage
  approvers_ok approvers_missing : ℕ → ℕ → CheckMessage
  signer_untrusted : String → DelegationRole → CheckMessage
  not_before expired_at revoked_at : ℕ → CheckMessage
  scheme_unsupported : String → CheckMessage
  reproduced : GateVerdict → ℕ → CheckMessage
  differs : GateVerdict → Option RuleId → GateVerdict → CheckMessage

pub record VerificationCheck : Type 0 where
  pub id : CheckId
  pub passed : Bool
  pub message : CheckMessage

pub data ApprovalStatus : Type 0 where
  pending approved denied expired consumed : ApprovalStatus

abbrev approval_rank : ApprovalStatus → ℕ
approval_rank pending = 0
approval_rank approved = 1
approval_rank denied = 2
approval_rank expired = 3
approval_rank consumed = 4

abbrev approval_unrank : ℕ → ApprovalStatus
approval_unrank zero = pending
approval_unrank (suc zero) = approved
approval_unrank (suc (suc zero)) = denied
approval_unrank (suc (suc (suc zero))) = expired
approval_unrank (suc (suc (suc (suc n)))) = consumed

pub approval_retract : (s : ApprovalStatus) → approval_unrank (approval_rank s) ≡ s
approval_retract pending = refl
approval_retract approved = refl
approval_retract denied = refl
approval_retract expired = refl
approval_retract consumed = refl

instance abbrev pub approval_status_eq : Eq ApprovalStatus
approval_status_eq = eq_by_rank approval_rank approval_unrank approval_retract

-- The reasons of `verifyOwnerApproval`.
pub data OwnerApprovalRefusal : Type 0 where
  scheme_not_supported : String → OwnerApprovalRefusal
  agent_cannot_approve unknown_signer approval_expired signature_invalid : OwnerApprovalRefusal

pub data ApprovalProblem : Type 0 where
  status_is : ApprovalStatus → ApprovalProblem
  different_offer has_expired role_not_permitted missing_terms_or_signature : ApprovalProblem
  signed_different_offer signed_different_mandate signature_mismatch : ApprovalProblem
  signature_rejected : OwnerApprovalRefusal → ApprovalProblem
  role_differs_from_key : ApprovalProblem

pub data SimulationProblem : Type 0 where
  simulation_failed : Option String → SimulationProblem
  unknown_programs : List String → SimulationProblem
  transfer_count_is : ℕ → SimulationProblem
  pays_otherwise : Option String → SimulationProblem

pub record PriceDetails : Type 0 where
  pub resource : String
  pub amount : ℕ
  pub expected_price : ℕ
  pub tolerance_centipct : ℕ
  pub tolerated_ceiling : ℕ
  pub hard_max : ℕ

pub record WindowDetails : Type 0 where
  pub spent_in_window : ℕ
  pub projected : ℕ
  pub max_per_window : ℕ
  pub window_seconds : ℕ

pub record TotalDetails : Type 0 where
  pub spent_total : ℕ
  pub projected : ℕ
  pub max_total : ℕ

-- The message and the details of a rule result.
pub data Explanation : Type 0 where
  offer_ok not_revoked skipped_malformed skipped_integrity skipped_scope : Explanation
  offer_malformed mandate_malformed : Issue → Explanation
  offer_amount : ℕ → Explanation
  chain_verifies : ℕ → Explanation
  chain_errors : List CheckMessage → Explanation
  inside_window not_started expired_at : ℕ → ℕ → ℕ → Explanation
  revoked : ℕ → Option String → Explanation
  network asset resource pay_to : String → Explanation
  network_denied asset_denied resource_denied pay_to_denied : String → List String → Explanation
  resource_always_ask : String → Explanation
  fee_payer_differs : String → String → Explanation
  mint_differs : String → String → Explanation
  over_ceiling within_ceiling : ℕ → ℕ → Explanation
  no_price_limit : String → Explanation
  price_within price_above_tolerance price_over_maximum : PriceDetails → Explanation
  window_fits window_exceeded : WindowDetails → Explanation
  total_fits total_exceeded : TotalDetails → Explanation
  simulation_missing simulation_not_required : Explanation
  simulation_ok : String → List String → Option ℕ → Explanation
  simulation_problems :
      List SimulationProblem → String → List String → List String → ℕ → Bool → Explanation
  above_threshold within_threshold : ℕ → ℕ → Explanation
  approval_rejected : List ApprovalProblem → String → Explanation
  approval_granted : String → Option String → Explanation
  approval_unneeded : String → Explanation

pub record RuleResult : Type 0 where
  pub id : RuleId
  pub status : RuleStatus
  pub explanation : Explanation

pub record GateSimulation : Type 0 where
  pub success : Bool
  pub error : Option String
  pub program_ids : List String
  pub unknown_program_ids : List String
  pub transfer_count : ℕ
  pub matches_offer : Bool
  pub mismatch : Option String
  pub tx_message_hash : String
  pub units_consumed : Option ℕ

pub record Approver : Type 0 where
  pub user_id : String
  pub role : String

pub record OwnerApprovalTerms : Type 0 where
  pub approval_id : String
  pub mandate_hash : String
  pub kind : String
  pub amount : String
  pub recipient : String
  pub request_hash : String
  pub offer_hash : String
  pub expires_at : ℕ

pub record OwnerApprovalSignature : Type 0 where
  pub scheme : String
  pub signer : String
  pub signature : String

pub record GateApproval : Type 0 where
  pub id : String
  pub offer_hash : String
  pub status : ApprovalStatus
  pub expires_at : ℕ
  pub approver : Option Approver
  pub terms : Option OwnerApprovalTerms
  pub owner_signature : Option OwnerApprovalSignature

pub record Revocation : Type 0 where
  pub revoked_at : ℕ
  pub reason : Option String

pub record OwnerReview : Type 0 where
  pub reason : String
  pub approval_id : Option String
  pub approved_by : Option String

pub record SpendTotals : Type 0 where
  pub window_autonomous : ℕ
  pub total : ℕ

pub record GateContext : Type 0 where
  pub now : ℕ
  pub revoked : Option Revocation
  pub channel_payer : Option String
  pub spend : SpendTotals
  pub simulation : Option GateSimulation
  pub require_simulation : Bool
  pub approval : Option GateApproval
  pub review : Option OwnerReview

-- The texts of `GateResult.reason`; the first two list the results that are summarised.
pub data GateReason : Type 0 where
  denied approval_required : List RuleResult → GateReason
  allowed_approved allowed_autonomous : GateReason

pub record GateResult : Type 0 where
  pub decision : GateVerdict
  pub kind : Option DecisionKind
  pub rules_evaluated : List RuleResult
  pub failed_rule : Option RuleId
  pub failed_rules : List RuleId
  pub escalation_rules : List RuleId
  pub reason : GateReason
  pub required_approver_roles : List String
  pub offer_hash : Option String
  pub mandate_hash : Option String
