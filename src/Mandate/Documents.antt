-- ===== src/Mandate/Documents.antt =====
-- What is hashed and signed (packages/mandate/src/decision.ts, mandate.ts), and the functions that
-- the package takes from its platform: the WHATWG URL parser, SHA-256 over the canonical JSON form
-- of a document, Ed25519 verification and the wall-clock text of a time.
use atlas_rail.Common.{ℕ, String, Bool, Option, List}
use atlas_rail.Mandate.Types.{DelegationRole, AgentMandateBody, X402Offer}
use atlas_rail.Mandate.Records.{
  RuleId, RuleResult, GateVerdict, DecisionKind, GateReason, Revocation, SpendTotals,
  GateSimulation, GateApproval, OwnerReview,
}

pub record LinkPayload : Type 0 where
  pub mandate_hash : String
  pub index : ℕ
  pub role : DelegationRole
  pub public_key : String
  pub previous_signature : Option String

pub record AgentGateRequestBody : Type 0 where
  pub mandate_id : String
  pub offer : X402Offer
  pub transaction : Option String
  pub approval_id : Option String
  pub nonce : String
  pub requested_at : ℕ

pub record SignedAgentGateRequest : Type 0 where
  pub body : AgentGateRequestBody
  pub open body use *
  pub agent_public_key : String
  pub signature : String

pub record DecisionContextSnapshot : Type 0 where
  pub evaluated_at : ℕ
  pub revoked : Option Revocation
  pub spend : SpendTotals
  pub simulation : Option GateSimulation
  pub require_simulation : Bool
  pub approval : Option GateApproval
  pub channel_payer : Option String
  pub review : Option OwnerReview

pub record DecisionRequest : Type 0 where
  pub nonce : String
  pub requested_at : ℕ
  pub request_hash : String
  pub agent_public_key : String

pub record DecisionRecord : Type 0 where
  pub id : String
  pub organization_id : String
  pub mandate_id : String
  pub mandate_hash : String
  pub offer : X402Offer
  pub offer_hash : String
  pub decision : GateVerdict
  pub kind : Option DecisionKind
  pub rules_evaluated : List RuleResult
  pub failed_rule : Option RuleId
  pub failed_rules : List RuleId
  pub escalation_rules : List RuleId
  pub reason : GateReason
  pub context : DecisionContextSnapshot
  pub request : Option DecisionRequest

-- The key of the instance, its signature, and the scheme, which may be missing.
pub record InstanceSignature : Type 0 where
  pub public_key : String
  pub signature : String
  pub scheme : Option String

pub record SignedDecision : Type 0 where
  pub body : DecisionRecord
  pub decision_hash : String
  pub instance_signature : InstanceSignature

pub record GateAuthorizationBody : Type 0 where
  pub decision_id : String
  pub decision_hash : String
  pub mandate_hash : String
  pub offer_hash : String
  pub tx_message_hash : String
  pub agent_public_key : String
  pub not_before : ℕ
  pub not_after : ℕ

pub record GateAuthorization : Type 0 where
  pub body : GateAuthorizationBody
  pub open body use *
  pub instance_signature : InstanceSignature

-- The values that `hashCanonical` is applied to.
pub data Document : Type 0 where
  mandate_body : AgentMandateBody → Document
  mandate_link : LinkPayload → Document
  offer : X402Offer → Document
  gate_request : AgentGateRequestBody → Document
  decision : DecisionRecord → Document
  gate_authorization : GateAuthorizationBody → Document

-- The fields of a parsed URL that the code reads.
pub record Url : Type 0 where
  pub protocol : String
  pub username : String
  pub password : String
  pub origin : String
  pub pathname : String

pub record Platform : Type 0 where
  -- `new URL(text)`; none where it throws.
  pub parse_url : String → Option Url
  -- SHA-256 in lowercase hex over the canonical JSON of a document.
  pub hash_document : Document → String
  -- The canonical JSON of a list of rule results.
  pub canonicalize : List RuleResult → String
  -- Ed25519 over a public key, the text signed and a signature; false on malformed keys.
  pub verify_ed25519 : String → String → String → Bool
  -- `new Date(seconds * 1000).toISOString()`
  pub iso_date : ℕ → String
