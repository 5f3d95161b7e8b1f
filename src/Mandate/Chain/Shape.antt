-- ===== src/Mandate/Chain/Shape.antt =====
-- What a delegation chain must satisfy for `verifyMandateChain` (packages/mandate/src/mandate.ts) to
-- accept it.
use atlas_rail.Common.{
  ℕ, suc, ◌≤◌, String, Bool, true, false, not, ◌&&◌, Option, none, some, List, [], ◌∷◌, map, all,
  last?, find, contains, contains_iff, distinct_iff, Distinct, Member, All, ◌≡◌, ◌↔◌, ◌⊎◌, inl, inr,
  refl, arith, string_eq, leb, is_some, ◌<◌, all-append, ◌≢◌, ltb,
}
use atlas_rail.Mandate.Types.{DelegationRole, role_eq, DelegationLink, AgentMandate, shaped}
use atlas_rail.Mandate.Records.{Revocation, CheckId, CheckMessage}
use atlas_rail.Mandate.Documents.{Platform}
use atlas_rail.Mandate.Schema.{agent_mandate_issues}
use atlas_rail.Mandate.Crypto.{SignatureDomain, verify_domain_hash}
use atlas_rail.Mandate.Chain.Roles.{approver_count, hash_mandate, link_hash}
use atlas_rail.Mandate.Chain.Verify.{
  TrustedKeys, walk_roles, ends_with_agent, shape_error, signature_error, trusted_roles,
  last_key_is, trusted_check, link_checks, chain_checks, finish, verify_mandate_chain, schema_check,
  shape_check, verify_mandate, check, window_check, revocation_check,
}

-- After an approver: more approvers, then the agent, who is the last.
abbrev ApproversThenAgent : List DelegationLink → Type 0
ApproversThenAgent [] = ⊥
ApproversThenAgent (link ∷ links) =
    ((link.role ≡ DelegationRole.agent) × (links ≡ []))
    ⊎ ((link.role ≡ DelegationRole.approver) × ApproversThenAgent links)

-- The owner, one or more approvers, and the agent.
abbrev pub Delegates : List DelegationLink → Type 0
Delegates [] = ⊥
Delegates (owner ∷ []) = ⊥
Delegates (owner ∷ first ∷ links) =
    (owner.role ≡ DelegationRole.owner)
    × (first.role ≡ DelegationRole.approver)
    × ApproversThenAgent links

abbrev ends_well : Option DelegationRole → List DelegationLink → Bool
ends_well expected links = not (is_some (ends_with_agent (walk_roles expected links)))

agent_iff :
    (links : List DelegationLink)
    → (ends_well (some DelegationRole.agent) links ≡ true) ↔ (links ≡ [])
unfolding walk_roles ends_with_agent contains
agent_iff links = ground arith

approver_iff :
    (links : List DelegationLink)
    → (ends_well (some DelegationRole.approver) links ≡ true) ↔ ApproversThenAgent links
unfolding walk_roles ends_with_agent contains
approver_iff [] = ground arith
approver_iff (link ∷ links) = ground (arith, approver_iff links, agent_iff links)

pub shape_iff : (chain : List DelegationLink) → (shape_error chain ≡ none) ↔ Delegates chain
unfolding shape_error walk_roles ends_with_agent contains
shape_iff [] = ground arith
shape_iff (owner ∷ []) = ground arith
shape_iff (owner ∷ first ∷ links) = ground (arith, approver_iff links)

module _ ⦃env : Platform⦄ where
  -- Every link is signed by its own key, over the mandate, its position and role, and the signature of
  -- the link before it.
  abbrev pub Signed : String → ℕ → Option String → List DelegationLink → Type 0
  Signed mandate_hash index previous [] = Unit {0}
  Signed mandate_hash index previous (link ∷ links) =
      (verify_domain_hash link.public_key SignatureDomain.mandate_link
          (link_hash mandate_hash index link.role link.public_key previous) link.signature
        ≡ true)
      × Signed mandate_hash (suc index) (some link.signature) links

  signed_iff :
      (mandate_hash : String) (index : ℕ) (previous : Option String) (chain : List DelegationLink)
      → (signature_error mandate_hash index previous chain ≡ none)
        ↔ Signed mandate_hash index previous chain
  unfolding signature_error
  signed_iff mandate_hash index previous [] = (λ h. tt, λ h. refl)
  signed_iff mandate_hash index previous (link ∷ links) =
      ground (arith, signed_iff mandate_hash (suc index) (some link.signature) links)

-- Where the caller gives trusted keys, every link's key is trusted with its role.
abbrev pub Trusted : Option TrustedKeys → List DelegationLink → Type 0
Trusted none chain = Unit {0}
Trusted (some trusted) chain =
    All (λ link. Member link.role (trusted_roles trusted link.public_key)) chain

find_iff :
    (trusted : TrustedKeys) (chain : List DelegationLink)
    → (find (λ link. not (contains link.role (trusted_roles trusted link.public_key))) chain ≡ none)
      ↔ Trusted (some trusted) chain
find_iff trusted [] = (λ h. tt, λ h. refl)
find_iff trusted (link ∷ chain) =
    ground (
      arith,
      find_iff trusted chain,
      contains_iff link.role (trusted_roles trusted link.public_key),
    )

Trusted-iff :
    (trusted : Option TrustedKeys) (chain : List DelegationLink)
    → (all (λ c. c.passed) (trusted_check trusted chain) ≡ true) ↔ Trusted trusted chain
unfolding trusted_check
Trusted-iff none chain = (λ h. tt, λ h. refl)
Trusted-iff (some trusted) chain = ground (arith, find_iff trusted chain)

list_cases : {A : Type 0} (xs : List A) → (xs ≡ []) ⊎ ((x : A) × (ys : List A) × (xs ≡ x ∷ ys))
list_cases [] = inl refl
list_cases (x ∷ ys) = inr (x, ys, refl)

module _ ⦃env : Platform⦄ where
  -- A chain that delegates from the owner to the agent of the mandate.
  pub record IsDelegated (m : AgentMandate) (trusted : Option TrustedKeys) : Type 0 where
    pub delegates : Delegates m.delegation_chain
    pub signed : Signed (hash_mandate m) 0 none m.delegation_chain
    pub distinct_keys : Distinct (map (λ link. link.public_key) m.delegation_chain)
    pub approved : m.delegation.required_approvals ≤ approver_count m.delegation_chain
    pub accepted : last_key_is (last? m.delegation_chain) m.agent.public_key ≡ true
    pub trusted_keys : Trusted trusted m.delegation_chain

  module _ (m : AgentMandate) (trusted : Option TrustedKeys) where
    links_iff : (all (λ c. c.passed) (link_checks m trusted) ≡ true) ↔ (
        Signed (hash_mandate m) 0 none m.delegation_chain
        × Distinct (map (λ link. link.public_key) m.delegation_chain)
        × (m.delegation.required_approvals ≤ approver_count m.delegation_chain)
        × (last_key_is (last? m.delegation_chain) m.agent.public_key ≡ true)
        × Trusted trusted m.delegation_chain)
    unfolding link_checks
    links_iff = ground (
      arith,
      signed_iff (hash_mandate m) 0 none m.delegation_chain,
      distinct_iff (map (λ link. link.public_key) m.delegation_chain),
      Trusted-iff trusted m.delegation_chain,
    )

    all_checks : (all (λ c. c.passed) (chain_checks m trusted) ≡ true) ↔ (
        (shape_error m.delegation_chain ≡ none)
        × (all (λ c. c.passed) (link_checks m trusted) ≡ true))
    unfolding chain_checks schema_check shape_check
    all_checks = ground arith

    IsDelegated-checks : IsDelegated m trusted → all (λ c. c.passed) (chain_checks m trusted) ≡ true
    IsDelegated-checks d = all_checks.1 (
      (shape_iff m.delegation_chain).1 d.delegates,
      links_iff.1 (d.signed, d.distinct_keys, d.approved, d.accepted, d.trusted_keys),
    )

    checks-IsDelegated : all (λ c. c.passed) (chain_checks m trusted) ≡ true → IsDelegated m trusted
    checks-IsDelegated h =
        let (shape, links) = all_checks.0 h in
        let (signed, distinct_keys, approved, accepted, trusted_keys) = links_iff.0 links in
        record {
          delegates = (shape_iff m.delegation_chain).0 shape;
          signed = signed;
          distinct_keys = distinct_keys;
          approved = approved;
          accepted = accepted;
          trusted_keys = trusted_keys;
        }

    -- The chain of a mandate verifies exactly when the mandate satisfies its schema and the chain goes
    -- from the owner through approvers to the agent, each link signed over the mandate, its position,
    -- its role and the signature before it, with distinct keys, as many approvers as required, the
    -- agent's key last, and only trusted keys where the caller names any.
    pub valid_iff :
        ((verify_mandate_chain (shaped m) trusted).valid ≡ true)
        ↔ ((agent_mandate_issues m ≡ []) × IsDelegated m trusted)
    unfolding verify_mandate_chain finish
    valid_iff = elim (list_cases (agent_mandate_issues m)) [
      | inl e ↦ ground (arith, IsDelegated-checks, checks-IsDelegated)
      | inr (i, is, e) ↦ ground arith
    ]

    valid-checks :
        (verify_mandate_chain (shaped m) trusted).valid
        ≡ all (λ c. c.passed) (verify_mandate_chain (shaped m) trusted).checks
    unfolding verify_mandate_chain finish
    valid-checks = elim (list_cases (agent_mandate_issues m)) [
      | inl e ↦ ground arith
      | inr (i, is, e) ↦ ground arith
    ]

    unless_shaped :
        (now : ℕ) (revocation : String → Option Revocation) (seen : String → String → String → Bool)
        → agent_mandate_issues m ≢ []
        → verify_mandate (shaped m) trusted now revocation seen
          ≡ verify_mandate_chain (shaped m) trusted
    unfolding verify_mandate
    unless_shaped now revocation seen n = elim (list_cases (agent_mandate_issues m)) [
      | inl e ↦ absurd (n e)
      | inr (i, is, e) ↦ ground arith
    ]

    when_shaped :
        (now : ℕ) (revocation : String → Option Revocation) (seen : String → String → String → Bool)
        → agent_mandate_issues m ≡ []
        → (verify_mandate (shaped m) trusted now revocation seen).valid ≡ (
            (verify_mandate_chain (shaped m) trusted).valid
            && ((leb m.not_before now && ltb now m.expires_at)
                && (not (is_some (revocation m.id))
                    && (not (seen m.issuer.organization_id m.nonce m.id) && true))))
    unfolding verify_mandate window_check revocation_check
    when_shaped now revocation seen e = ground (
      arith,
      valid-checks,
      all-append (λ c. c.passed) (verify_mandate_chain (shaped m) trusted).checks
          (window_check m now
            ∷ revocation_check (revocation m.id)
            ∷ check CheckId.nonce_fresh (not (seen m.issuer.organization_id m.nonce m.id))
                CheckMessage.nonce_unique CheckMessage.nonce_replayed
            ∷ []),
    )

    -- A mandate verifies at a time exactly when its chain does, the time lies in its validity window,
    -- it is not revoked, and its nonce has not been seen.
    pub verify_iff :
        (now : ℕ) (revocation : String → Option Revocation) (seen : String → String → String → Bool)
        → ((verify_mandate (shaped m) trusted now revocation seen).valid ≡ true) ↔ (
            (agent_mandate_issues m ≡ [])
            × IsDelegated m trusted
            × (m.not_before ≤ now)
            × (now < m.expires_at)
            × (revocation m.id ≡ none)
            × (seen m.issuer.organization_id m.nonce m.id ≡ false))
    verify_iff now revocation seen = elim (list_cases (agent_mandate_issues m)) [
      | inl e ↦ ground (arith, valid_iff, when_shaped now revocation seen e)
      | inr (i, is, e) ↦ ground (arith, valid_iff, unless_shaped now revocation seen)
    ]
