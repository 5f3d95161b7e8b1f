-- ===== src/Mandate/OwnerApproval.antt =====
-- packages/mandate/src/owner-approval.ts: a wallet's signature over the exact terms of one payment.
use Prim.Native.String.{◌++◌ as ◌+++◌}
use atlas_rail.Common.{
  ℕ, String, not, ◌||◌, none, some, List, map, filterb, find, contains, leb, ◌==◌, string_eq,
  Result, ok, err, ◌>>=◌, ◌>>◌, throw_if,
}
use atlas_rail.Common.Decimal.{decimal}
use atlas_rail.Mandate.Types.{DelegationRole, role_eq, AgentMandate}
use atlas_rail.Mandate.Records.{OwnerApprovalTerms, OwnerApprovalSignature, OwnerApprovalRefusal}
use atlas_rail.Mandate.Documents.{Platform}
use atlas_rail.Mandate.Crypto.{signature_scheme}

pub record ApprovalSigner : Type 0 where
  pub public_key : String
  pub role : DelegationRole

-- The text of a delegation role, as the documents spell it.
unfoldable pub role_text : DelegationRole → String
role_text DelegationRole.owner = "OWNER"
role_text DelegationRole.approver = "APPROVER"
role_text DelegationRole.agent = "AGENT"

abbrev pub owner_approval_header : String
owner_approval_header = "atlasrail/v0.1/owner-approval"

module _ ⦃env : Platform⦄ where
  -- `ownerApprovalText`, and `ownerApprovalMessage`, its UTF-8 bytes.
  unfoldable pub owner_approval_text : OwnerApprovalTerms → String
  owner_approval_text terms =
      owner_approval_header
      +++ "\nI approve this one payment, once."
      +++ "\nApproval: "
      +++ terms.approval_id
      +++ "\nMandate: "
      +++ terms.mandate_hash
      +++ "\nKind: "
      +++ terms.kind
      +++ "\nAmount: "
      +++ terms.amount
      +++ " base units"
      +++ "\nRecipient: "
      +++ terms.recipient
      +++ "\nRequest: "
      +++ terms.request_hash
      +++ "\nOffer: "
      +++ terms.offer_hash
      +++ "\nExpires: "
      +++ decimal terms.expires_at
      +++ " ("
      +++ env.iso_date terms.expires_at
      +++ ")"
      +++ "\nScheme: "
      +++ signature_scheme

-- The keys that may sign an approval: owners and approvers whose role the mandate lets approve,
-- never the agent's key.
unfoldable pub approval_signers : AgentMandate → List ApprovalSigner
unfolding role_text
approval_signers mandate =
    map (λ link. record { public_key = link.public_key; role = link.role })
      (filterb (λ link. not (link.public_key == mandate.agent.public_key))
        (filterb (λ link. contains (role_text link.role) mandate.escalation.approver_roles)
          (filterb
            (λ link. link.role == DelegationRole.owner || link.role == DelegationRole.approver)
            mandate.delegation_chain)))

module _ ⦃env : Platform⦄ where
  unfoldable pub verify_owner_approval :
      OwnerApprovalTerms
      → OwnerApprovalSignature
      → List ApprovalSigner
      → String
      → ℕ
      → Result OwnerApprovalRefusal ApprovalSigner
  unfolding owner_approval_text
  verify_owner_approval terms signature signers agent_public_key now = do
    throw_if (not (signature.scheme == signature_scheme))
        (OwnerApprovalRefusal.scheme_not_supported signature.scheme)
    throw_if (signature.signer == agent_public_key) OwnerApprovalRefusal.agent_cannot_approve
    signer ← elim (find (λ s. s.public_key == signature.signer) signers) [
      | none ↦ err OwnerApprovalRefusal.unknown_signer
      | some s ↦ ok s
    ]
    throw_if (leb terms.expires_at now) OwnerApprovalRefusal.approval_expired
    throw_if
        (not (env.verify_ed25519 signature.signer (owner_approval_text terms) signature.signature))
        OwnerApprovalRefusal.signature_invalid
    ok signer
