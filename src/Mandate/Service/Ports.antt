-- ===== src/Mandate/Service/Ports.antt =====
-- packages/mandate/src/service/ports.ts: the records that the stores keep, the outcomes of payments,
-- and the errors of the services.
use atlas_rail.Common.{ℕ, zero, suc, String, Bool, Option, List, ◌≡◌, refl, Eq, eq_by_rank}
use atlas_rail.Mandate.Types.{DelegationRole, AgentMandate, X402Offer, Issue}
use atlas_rail.Mandate.Records.{
  ApprovalStatus, Approver, GateVerdict, DecisionKind, RuleId, CheckMessage,
}
use atlas_rail.Mandate.Documents.{SignedDecision, GateAuthorization}
use atlas_rail.Mandate.Gate.Evaluate.{ContextError}
use atlas_rail.Mandate.Chain.Roles.{SigningError}

pub data MandateStatus : Type 0 where
  draft active revoked : MandateStatus

abbrev status_rank : MandateStatus → ℕ
status_rank draft = 0
status_rank active = 1
status_rank revoked = 2

abbrev status_unrank : ℕ → MandateStatus
status_unrank zero = draft
status_unrank (suc zero) = active
status_unrank (suc (suc n)) = revoked

pub mandate_status_retract : (s : MandateStatus) → status_unrank (status_rank s) ≡ s
mandate_status_retract draft = refl
mandate_status_retract active = refl
mandate_status_retract revoked = refl

instance abbrev pub mandate_status_eq : Eq MandateStatus
mandate_status_eq = eq_by_rank status_rank status_unrank mandate_status_retract

pub record MandateSignerRecord : Type 0 where
  pub role : DelegationRole
  pub public_key : String
  pub user_id : Option String
  pub signed_at : ℕ

pub record MandateRevocation : Type 0 where
  pub revoked_at : ℕ
  pub reason : Option String
  pub revoked_by : Option String

pub record MandateRecord : Type 0 where
  pub organization_id : String
  pub mandate : AgentMandate
  pub mandate_hash : String
  pub status : MandateStatus
  pub created_by : Option String
  pub created_at : ℕ
  pub signers : List MandateSignerRecord
  pub revocation : Option MandateRevocation

pub record StoredDecision : Type 0 where
  pub organization_id : String
  pub signed : SignedDecision
  pub request_hash : Option String
  pub authorization : Option GateAuthorization
  pub approval_id : Option String
  pub created_at : ℕ

pub data SpendStatus : Type 0 where
  reserved settled released : SpendStatus

abbrev spend_rank : SpendStatus → ℕ
spend_rank reserved = 0
spend_rank settled = 1
spend_rank released = 2

abbrev spend_unrank : ℕ → SpendStatus
spend_unrank zero = reserved
spend_unrank (suc zero) = settled
spend_unrank (suc (suc n)) = released

pub spend_retract : (s : SpendStatus) → spend_unrank (spend_rank s) ≡ s
spend_retract reserved = refl
spend_retract settled = refl
spend_retract released = refl

instance abbrev pub spend_status_eq : Eq SpendStatus
spend_status_eq = eq_by_rank spend_rank spend_unrank spend_retract

pub record SpendEntry : Type 0 where
  pub id : String
  pub organization_id : String
  pub mandate_id : String
  pub decision_id : String
  pub amount : ℕ
  pub autonomous : Bool
  pub status : SpendStatus
  pub tx_signature : Option String
  pub created_at : ℕ

pub record ApprovalRecord : Type 0 where
  pub id : String
  pub organization_id : String
  pub mandate_id : String
  pub decision_id : String
  pub offer_hash : String
  pub offer : X402Offer
  pub status : ApprovalStatus
  pub required_roles : List String
  pub requested_at : ℕ
  pub expires_at : ℕ
  pub decided_at : Option ℕ
  pub decided_by : Option Approver
  pub comment : Option String
  pub escalation_rules : List RuleId

-- The action of an audit entry, with the metadata that the code writes beside it.
pub data AuditAction : Type 0 where
  mandate_created : String → AuditAction
  mandate_signed : DelegationRole → String → AuditAction
  mandate_revoked : Option String → AuditAction
  approval_decided : Bool → String → String → String → Option String → AuditAction
  agent_decision :
      GateVerdict
      → String
      → String
      → Option DecisionKind
      → Option RuleId
      → List RuleId
      → ℕ
      → String
      → String
      → AuditAction

pub data ActorType : Type 0 where
  user system agent : ActorType

-- Every entry is about an agent mandate; its id is `resource_id`.
pub record AuditEntry : Type 0 where
  pub organization_id : String
  pub actor_type : ActorType
  pub actor_id : Option String
  pub action : AuditAction
  pub resource_id : String
  pub created_at : ℕ

pub data PaymentOutcome : Type 0 where
  landed : String → PaymentOutcome
  failed : String → PaymentOutcome
  pending expired mismatch : PaymentOutcome

pub data SpendResolution : Type 0 where
  settled : String → SpendResolution
  released pending : SpendResolution

-- `AgentEvent` by its type, with the payload of each.
pub data AgentEvent : Type 0 where
  mandate_created : String → String → AgentEvent
  mandate_activated : String → String → AgentEvent
  mandate_revoked : String → Option String → AgentEvent
  decision_made :
      String → String → GateVerdict → Option DecisionKind → Option RuleId → ℕ → AgentEvent
  approval_requested : String → String → String → ℕ → ℕ → List String → AgentEvent
  approval_decided : String → String → Bool → AgentEvent

-- What a service throws: an `AgentServiceError` by its code, or another error.
pub data Thrown : Type 0 where
  not_found bad_signature agent_mismatch clock_skew nonce_reused : Thrown
  nonce_replay approval_already_used not_an_allow wrong_transaction : Thrown
  mandate_is_revoked already_signed same_user only_agent_links approval_has_expired : Thrown
  role_may_not_decide : String → Thrown
  approval_is : ApprovalStatus → Thrown
  invalid_input : Issue → Thrown
  signing_failed : SigningError → Thrown
  chain_invalid : List CheckMessage → Thrown
  duplicate_mandate duplicate_decision instance_signer_failed simulator_failed : Thrown
  allow_without_simulation : Thrown
  gate_threw : ContextError → Thrown
