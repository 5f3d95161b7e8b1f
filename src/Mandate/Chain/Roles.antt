-- ===== src/Mandate/Chain/Roles.antt =====
-- The order of the delegation chain and the hash that each link signs (packages/mandate/src/mandate.ts).
use atlas_rail.Common.{
  ℕ, String, Bool, not, ◌&&◌, Option, none, some, List, [], ◌∷◌, ◌++◌, length, filterb, any, last?,
  contains, ltb, ◌==◌, string_eq, Result, ok, err, ◌>>=◌, ◌>>◌, throw_if,
}
use atlas_rail.Mandate.Types.{DelegationRole, role_eq, DelegationLink, AgentMandate}
use atlas_rail.Mandate.Documents.{Platform, Document}
use atlas_rail.Mandate.Crypto.{SignatureDomain, MessageSigner, sign_domain_hash, signature_scheme}

-- `NEXT_ROLES`; none is `START`.
unfoldable pub next_roles : Option DelegationRole → List DelegationRole
next_roles none = DelegationRole.owner ∷ []
next_roles (some DelegationRole.owner) = DelegationRole.approver ∷ []
next_roles (some DelegationRole.approver) = DelegationRole.approver ∷ DelegationRole.agent ∷ []
next_roles (some DelegationRole.agent) = []

-- `chain.filter(link => link.role === 'APPROVER').length`
unfoldable pub approver_count : List DelegationLink → ℕ
approver_count chain = length (filterb (λ link. link.role == DelegationRole.approver) chain)

-- The errors of `signMandate`; a signer that fails is the last.
pub data SigningError : Type 0 where
  role_out_of_order : DelegationRole → Option DelegationRole → SigningError
  key_already_signed agent_key_differs : SigningError
  approvals_missing : ℕ → SigningError
  signer_failed : SigningError

abbrev pub role_of : Option DelegationLink → Option DelegationRole
role_of none = none
role_of (some link) = some link.role

abbrev pub signature_of : Option DelegationLink → Option String
signature_of none = none
signature_of (some link) = some link.signature

abbrev is_agent : DelegationRole → Bool
is_agent role = role == DelegationRole.agent

module _ ⦃env : Platform⦄ where
  unfoldable pub hash_mandate : AgentMandate → String
  hash_mandate mandate = env.hash_document (Document.mandate_body mandate.body)

  unfoldable pub link_hash : String → ℕ → DelegationRole → String → Option String → String
  link_hash mandate_hash index role public_key previous = env.hash_document (
      Document.mandate_link (record {
        mandate_hash = mandate_hash;
        index = index;
        role = role;
        public_key = public_key;
        previous_signature = previous;
      }))

  -- The four refusals of `signMandate`, in order.
  unfoldable pub check_signing :
      AgentMandate → DelegationRole → String → Result SigningError (Unit {0})
  unfolding next_roles approver_count contains
  check_signing mandate role public_key =
      let chain = mandate.delegation_chain in
      let previous = role_of (last? chain) in
      do
        throw_if (not (contains role (next_roles previous)))
            (SigningError.role_out_of_order role previous)
        throw_if (any (λ link. link.public_key == public_key) chain) SigningError.key_already_signed
        throw_if (is_agent role && not (public_key == mandate.agent.public_key))
            SigningError.agent_key_differs
        throw_if (is_agent role && ltb (approver_count chain) mandate.delegation.required_approvals)
            (SigningError.approvals_missing mandate.delegation.required_approvals)

  unfoldable pub sign_mandate :
      AgentMandate → DelegationRole → MessageSigner → Result SigningError AgentMandate
  unfolding check_signing hash_mandate link_hash sign_domain_hash
  sign_mandate mandate role signer = do
    check_signing mandate role signer.public_key
    let chain = mandate.delegation_chain
    let hash =
        link_hash (hash_mandate mandate) (length chain) role signer.public_key
          (signature_of (last? chain))
    signature ← elim (sign_domain_hash signer SignatureDomain.mandate_link hash) [
      | none ↦ err SigningError.signer_failed
      | some s ↦ ok s
    ]
    ok (record mandate {
      delegation_chain =
          chain
          ++ record {
            role = role;
            public_key = signer.public_key;
            signature = signature;
            scheme = some signature_scheme;
          }
            ∷ [];
    })
