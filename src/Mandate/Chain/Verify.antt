-- ===== src/Mandate/Chain/Verify.antt =====
-- `verifyMandateChain` and `verifyMandate` of packages/mandate/src/mandate.ts: the list of checks, and
-- the verdict that every one of them passed.
use atlas_rail.Common.{
  ℕ, suc, String, Bool, true, false, not, ◌&&◌, Option, none, some, List, [], ◌∷◌, ◌++◌, map,
  length, all, filterb, find, last?, contains, distinct, ltb, leb, ◌==◌, string_eq, if◌then◌else◌,
  Result, ok, err,
}
use atlas_rail.Mandate.Types.{DelegationRole, role_eq, DelegationLink, AgentMandate, Untyped}
use atlas_rail.Mandate.Records.{CheckId, CheckMessage, VerificationCheck, Revocation}
use atlas_rail.Mandate.Documents.{Platform}
use atlas_rail.Mandate.Schema.{agent_mandate_issues, parse_with}
use atlas_rail.Mandate.Crypto.{SignatureDomain, verify_domain_hash}
use atlas_rail.Mandate.Chain.Roles.{next_roles, approver_count, hash_mandate, link_hash}

pub record MandateVerification : Type 0 where
  pub valid : Bool
  pub checks : List VerificationCheck
  pub errors : List CheckMessage

-- `finish`
unfoldable pub finish : List VerificationCheck → MandateVerification
finish checks = record {
  valid = all (λ c. c.passed) checks;
  checks = checks;
  errors = map (λ c. c.message) (filterb (λ c. not c.passed) checks);
}

-- The loop over the links that finds the first one out of order; `none` from `START` on. The result
-- is the role reached, or the error.
unfoldable pub walk_roles :
    Option DelegationRole → List DelegationLink → Result CheckMessage (Option DelegationRole)
unfolding next_roles
walk_roles expected [] = ok expected
walk_roles expected (link ∷ links) = elim (contains link.role (next_roles expected)) [
  | true ↦ walk_roles (some link.role) links
  | false ↦ err (CheckMessage.shape_unexpected link.role expected)
]

-- The chain must end with the agent.
unfoldable pub ends_with_agent : Result CheckMessage (Option DelegationRole) → Option CheckMessage
ends_with_agent (err message) = some message
ends_with_agent (ok none) = some CheckMessage.shape_incomplete
ends_with_agent (ok (some role)) =
    if role == DelegationRole.agent then none else some CheckMessage.shape_incomplete

unfoldable pub shape_error : List DelegationLink → Option CheckMessage
unfolding walk_roles ends_with_agent
shape_error chain = ends_with_agent (walk_roles none chain)

module _ ⦃env : Platform⦄ where
  -- The first link whose signature does not verify over its hash.
  unfoldable pub signature_error :
      String → ℕ → Option String → List DelegationLink → Option CheckMessage
  unfolding link_hash verify_domain_hash
  signature_error mandate_hash index previous [] = none
  signature_error mandate_hash index previous (link ∷ links) =
      let hash = link_hash mandate_hash index link.role link.public_key previous in
      elim (verify_domain_hash link.public_key SignatureDomain.mandate_link hash link.signature) [
        | false ↦ some (CheckMessage.signature_bad index link.role)
        | true ↦ signature_error mandate_hash (suc index) (some link.signature) links
      ]

abbrev pub check : CheckId → Bool → CheckMessage → CheckMessage → VerificationCheck
check id passed good bad = record {
  id = id;
  passed = passed;
  message = if passed then good else bad;
}

abbrev pub TrustedKeys : Type 0
TrustedKeys = List (String × List DelegationRole)

abbrev pub trusted_roles : TrustedKeys → String → List DelegationRole
trusted_roles [] k = []
trusted_roles ((j, roles) ∷ rest) k = if j == k then roles else trusted_roles rest k

-- The check against `trustedKeys`, where the caller gives them.
unfoldable pub trusted_check : Option TrustedKeys → List DelegationLink → List VerificationCheck
trusted_check none chain = []
trusted_check (some trusted) chain =
    elim (find (λ link. not (contains link.role (trusted_roles trusted link.public_key))) chain) [
      | none ↦
          check CheckId.trusted_signers true CheckMessage.signers_trusted
            CheckMessage.signers_trusted
          ∷ []
      | some link ↦
          record {
            id = CheckId.trusted_signers;
            passed = false;
            message = CheckMessage.signer_untrusted link.public_key link.role;
          }
          ∷ []
    ]

unfoldable pub schema_check : VerificationCheck
schema_check = record { id = CheckId.schema; passed = true; message = CheckMessage.schema_ok }

unfoldable pub shape_check : Option CheckMessage → VerificationCheck
shape_check none = record {
  id = CheckId.chain_shape;
  passed = true;
  message = CheckMessage.shape_ok;
}
shape_check (some e) = record { id = CheckId.chain_shape; passed = false; message = e }

unfoldable pub signature_check : Option CheckMessage → List DelegationLink → VerificationCheck
signature_check none chain = record {
  id = CheckId.chain_signatures;
  passed = true;
  message = CheckMessage.signatures_ok (length chain);
}
signature_check (some e) chain = record {
  id = CheckId.chain_signatures;
  passed = false;
  message = e;
}

abbrev pub last_key_is : Option DelegationLink → String → Bool
last_key_is none key = false
last_key_is (some link) key = link.public_key == key

module _ ⦃env : Platform⦄ where
  -- The checks that follow a well-shaped chain.
  unfoldable pub link_checks : AgentMandate → Option TrustedKeys → List VerificationCheck
  unfolding signature_error hash_mandate approver_count signature_check trusted_check
  link_checks mandate trusted =
      let chain = mandate.delegation_chain in
      let unique = distinct (map (λ link. link.public_key) chain) in
      let count = approver_count chain in
      let required = mandate.delegation.required_approvals in
      signature_check (signature_error (hash_mandate mandate) 0 none chain) chain
      ∷ check CheckId.distinct_signers unique CheckMessage.keys_distinct CheckMessage.keys_repeat
      ∷ check CheckId.independent_approvers (leb required count && unique)
          (CheckMessage.approvers_ok count required) (CheckMessage.approvers_missing required count)
      ∷ check CheckId.agent_acceptance (last_key_is (last? chain) mandate.agent.public_key)
          CheckMessage.agent_accepted CheckMessage.agent_not_named
      ∷ trusted_check trusted chain

  unfoldable pub chain_checks : AgentMandate → Option TrustedKeys → List VerificationCheck
  unfolding shape_error shape_check link_checks schema_check
  chain_checks mandate trusted =
      let shape = shape_error mandate.delegation_chain in
      schema_check
      ∷ shape_check shape
      ∷ elim shape [ none ↦ link_checks mandate trusted | some e ↦ [] ]

  unfoldable pub verify_mandate_chain :
      Untyped AgentMandate → Option TrustedKeys → MandateVerification
  unfolding finish chain_checks agent_mandate_issues
  verify_mandate_chain input trusted = elim (parse_with agent_mandate_issues input) [
    | err issue ↦ finish (
        record { id = CheckId.schema; passed = false; message = CheckMessage.schema_issue issue }
        ∷ [])
    | ok mandate ↦ finish (chain_checks mandate trusted)
  ]

unfoldable pub window_check : AgentMandate → ℕ → VerificationCheck
window_check mandate now =
    let started = leb mandate.not_before now in
    let not_expired = ltb now mandate.expires_at in
    record {
      id = CheckId.validity_window;
      passed = started && not_expired;
      message =
          if not started
          then CheckMessage.not_before mandate.not_before
          else if not not_expired
          then CheckMessage.expired_at mandate.expires_at
          else CheckMessage.inside_window;
    }

unfoldable pub revocation_check : Option Revocation → VerificationCheck
revocation_check none = record {
  id = CheckId.not_revoked;
  passed = true;
  message = CheckMessage.mandate_live;
}
revocation_check (some r) = record {
  id = CheckId.not_revoked;
  passed = false;
  message = CheckMessage.revoked_at r.revoked_at;
}

-- `verifyMandate`. Without a callback nothing is revoked and no nonce has been seen.
module _ ⦃env : Platform⦄ where
  unfoldable pub verify_mandate :
      Untyped AgentMandate
      → Option TrustedKeys
      → ℕ
      → (String → Option Revocation)
      → (String → String → String → Bool)
      → MandateVerification
  unfolding finish
  verify_mandate input trusted now revocation nonce_seen =
      let chain_result = verify_mandate_chain input trusted in
      elim (parse_with agent_mandate_issues input) [
        | err issue ↦ chain_result
        | ok mandate ↦ finish (
            chain_result.checks
            ++ window_check mandate now
              ∷ revocation_check (revocation mandate.id)
              ∷ check CheckId.nonce_fresh
                  (not (nonce_seen mandate.issuer.organization_id mandate.nonce mandate.id))
                  CheckMessage.nonce_unique CheckMessage.nonce_replayed
              ∷ [])
      ]
