-- ===== src/Mandate/Chain/Examples.antt =====
-- A mandate signed by its owner, an approver and its agent (packages/mandate/src/mandate.ts).
use atlas_rail.Common.{◌≡◌, refl, String, none, some, List, [], ◌∷◌, ok, contains}
use atlas_rail.Mandate.Types.{DelegationRole, DelegationLink, AgentMandate}
use atlas_rail.Mandate.Crypto.{MessageSigner, Honest, domain_message}
use atlas_rail.Mandate.Chain.Roles.{sign_mandate}
use atlas_rail.Mandate.Chain.Shape.{IsDelegated}
use atlas_rail.Mandate.Chain.Signing.{Built, unsigned, signs, Built-IsDelegated}
use atlas_rail.Mandate.Gate.Samples.{
  platform, mandate, link, owner_key, approver_key, agent_key, signature_text,
}

abbrev with_chain : List DelegationLink → AgentMandate
with_chain links = record mandate { delegation_chain = links }

abbrev signer : String → MessageSigner
signer key = record { public_key = key; sign = λ message. some signature_text }

signer-Honest : (key : String) → Honest (signer key)
signer-Honest key message signature h = refl

abbrev owned : AgentMandate
owned = with_chain (link DelegationRole.owner owner_key ∷ [])

abbrev approved : AgentMandate
approved =
    with_chain
      (link DelegationRole.owner owner_key ∷ link DelegationRole.approver approver_key ∷ [])

owner_signs : sign_mandate (with_chain []) DelegationRole.owner (signer owner_key) ≡ ok owned
unfolding sign_mandate domain_message contains
owner_signs = refl

approver_signs : sign_mandate owned DelegationRole.approver (signer approver_key) ≡ ok approved
unfolding sign_mandate domain_message contains
approver_signs = refl

agent_signs : sign_mandate approved DelegationRole.agent (signer agent_key) ≡ ok mandate
unfolding sign_mandate domain_message contains
agent_signs = refl

mandate-Built : Built (some DelegationRole.agent) mandate
mandate-Built =
    signs approved mandate DelegationRole.agent (signer agent_key)
      (signs owned approved DelegationRole.approver (signer approver_key)
        (signs (with_chain []) owned DelegationRole.owner (signer owner_key)
          (unsigned (with_chain []) refl) (signer-Honest owner_key) owner_signs)
        (signer-Honest approver_key) approver_signs)
      (signer-Honest agent_key) agent_signs

Built-IsDelegated_example : IsDelegated mandate none
Built-IsDelegated_example = Built-IsDelegated mandate mandate-Built
