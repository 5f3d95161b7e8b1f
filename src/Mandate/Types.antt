-- ===== src/Mandate/Types.antt =====
-- The documents of packages/mandate/src/schema.ts and offer.ts. A value here has the shape that the
-- zod object schemas ask for; the ranges, patterns and cross-field rules are tests of Schema.antt.
-- An amount in base units is the number that its decimal string denotes.
use atlas_rail.Common.{ℕ, zero, suc, String, Bool, Option, List, ◌≡◌, refl, Eq, eq_by_rank}

pub data DelegationRole : Type 0 where
  owner approver agent : DelegationRole

abbrev role_rank : DelegationRole → ℕ
role_rank owner = 0
role_rank approver = 1
role_rank agent = 2

abbrev role_unrank : ℕ → DelegationRole
role_unrank zero = owner
role_unrank (suc zero) = approver
role_unrank (suc (suc n)) = agent

pub role_retract : (r : DelegationRole) → role_unrank (role_rank r) ≡ r
role_retract owner = refl
role_retract approver = refl
role_retract agent = refl

instance abbrev pub role_eq : Eq DelegationRole
role_eq = eq_by_rank role_rank role_unrank role_retract

pub record DelegationLink : Type 0 where
  pub role : DelegationRole
  pub public_key : String
  pub signature : String
  pub scheme : Option String

pub record MandateLimits : Type 0 where
  pub mint : String
  pub max_per_payment : ℕ
  pub max_per_window : ℕ
  pub window_seconds : ℕ
  pub max_total : ℕ

-- `tolerance_centipct` is `Math.trunc(tolerancePct * 100)`, which is what the code computes with. So
-- two documents whose percentages have the same whole hundredths are one here, and a percentage less
-- than a hundredth above the highest one counts as that.
pub record ResourcePriceLimit : Type 0 where
  pub resource : String
  pub expected_price : ℕ
  pub tolerance_centipct : ℕ
  pub hard_max : ℕ

pub record MandateScope : Type 0 where
  pub allowed_networks : List String
  pub allowed_assets : List String
  pub allowed_pay_to : List String
  pub allowed_resources : List String
  pub limits : MandateLimits
  pub price_limits : List ResourcePriceLimit

-- The approver roles are `OWNER`, `ADMIN` and `APPROVER`, compared as texts by the code.
pub record MandateEscalation : Type 0 where
  pub threshold : ℕ
  pub approver_roles : List String
  pub resources : List String
  pub approval_ttl_seconds : ℕ

pub record MandateDelegation : Type 0 where
  pub required_approvals : ℕ
  pub prevent_issuer_approval : Bool

pub record Issuer : Type 0 where
  pub organization_id : String
  pub name : String

pub record Agent : Type 0 where
  pub public_key : String
  pub label : String

pub record AgentMandateBody : Type 0 where
  pub kind : String
  pub version : String
  pub id : String
  pub issuer : Issuer
  pub agent : Agent
  pub delegation : MandateDelegation
  pub scope : MandateScope
  pub escalation : MandateEscalation
  pub not_before : ℕ
  pub expires_at : ℕ
  pub nonce : String
  pub revocable : Bool

pub record AgentMandate : Type 0 where
  pub body : AgentMandateBody
  pub open body use *
  pub delegation_chain : List DelegationLink

pub record X402Offer : Type 0 where
  pub x402_version : ℕ
  pub scheme : String
  pub network : String
  pub asset : String
  pub pay_to : String
  pub amount : ℕ
  pub resource_url : String
  pub fee_payer : Option String
  pub memo : Option String

-- A step into a document, as zod reports it.
pub data PathSegment : Type 0 where
  key : String → PathSegment
  index : ℕ → PathSegment

-- One problem that a schema found. Without a text the wording is zod's own.
pub record Issue : Type 0 where
  pub path : List PathSegment
  pub message : Option String

-- An untyped input to a schema: zod finds that its shape is wrong, or it has the document's fields.
pub data Untyped (A : Type 0) : Type 0 where
  misshapen : Issue → Untyped A
  shaped : A → Untyped A
