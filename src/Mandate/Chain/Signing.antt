-- ===== src/Mandate/Chain/Signing.antt =====
-- Chains that `signMandate` (packages/mandate/src/mandate.ts) builds, one signature after the other.
use atlas_rail.Common.{
  ℕ, suc, ◌+◌, ◌≤◌, String, true, false, Option, none, some, List, [], ◌∷◌, ◌++◌, map, any, last?,
  last?-append, length, ap, contains, Distinct, Member, ◌≡◌, ◌⊎◌, inl, inr, refl, sym, ◌∙◌, arith,
  ◌==◌, string_eq, ok, >>=-eq-ok, Option-cases,
}
use atlas_rail.Mandate.Types.{DelegationRole, role_eq, DelegationLink, AgentMandate}
use atlas_rail.Mandate.Documents.{Platform}
use atlas_rail.Mandate.Crypto.{
  SignatureDomain, MessageSigner, Honest, sign-verify, signature_scheme, sign_domain_hash,
  verify_domain_hash,
}
use atlas_rail.Mandate.Chain.Roles.{
  next_roles, approver_count, hash_mandate, link_hash, role_of, signature_of, check_signing,
  sign_mandate,
}
use atlas_rail.Mandate.Chain.Verify.{walk_roles, ends_with_agent, shape_error}
use atlas_rail.Mandate.Chain.Shape.{Signed, IsDelegated, shape_iff}

abbrev previous_of : Option String → List DelegationLink → Option String
previous_of p [] = p
previous_of p (link ∷ links) = previous_of (some link.signature) links

previous_last :
    (p : Option String) (link : DelegationLink) (links : List DelegationLink)
    → previous_of p (link ∷ links) ≡ signature_of (last? (link ∷ links))
previous_last p link [] = refl
previous_last p link (next ∷ links) = previous_last (some link.signature) next links

previous-signature_of :
    (links : List DelegationLink) → previous_of none links ≡ signature_of (last? links)
previous-signature_of [] = refl
previous-signature_of (link ∷ links) = previous_last none link links

module _ ⦃env : Platform⦄ where
  Signed-append :
      (h : String) (i n : ℕ) (p : Option String) (links : List DelegationLink)
      (link : DelegationLink)
      → n ≡ i + length links
      → Signed h i p links
      → verify_domain_hash link.public_key SignatureDomain.mandate_link
          (link_hash h n link.role link.public_key (previous_of p links))
          link.signature
        ≡ true
      → Signed h i p (links ++ link ∷ [])
  Signed-append h i n p [] link e s v = (ground (arith, v, e), tt)
  Signed-append h i n p (first ∷ links) link e s v =
      (s.0, Signed-append h (suc i) n (some first.signature) links link (omega arith) s.1 v)

walk_roles-append :
    (expected reached : Option DelegationRole) (links : List DelegationLink) (link : DelegationLink)
    → walk_roles expected links ≡ ok reached
    → contains link.role (next_roles reached) ≡ true
    → walk_roles expected (links ++ link ∷ []) ≡ ok (some link.role)
unfolding walk_roles
walk_roles-append expected reached [] link w c = ground arith
walk_roles-append expected reached (first ∷ links) link w c =
    ground (arith, walk_roles-append (some first.role) reached links link)

abbrev keys : List DelegationLink → List String
keys links = map (λ link. link.public_key) links

fresh-Member :
    (key x : String) (links : List DelegationLink) (link : DelegationLink)
    → link.public_key ≡ key
    → Member x (keys (links ++ link ∷ []))
    → Member x (keys links) ⊎ (key ≡ x)
fresh-Member key x [] link e m = ground arith
fresh-Member key x (first ∷ links) link e m = ground (arith, fresh-Member key x links link)

Distinct-append :
    (links : List DelegationLink) (link : DelegationLink)
    → Distinct (keys links)
    → any (λ old. old.public_key == link.public_key) links ≡ false
    → Distinct (keys (links ++ link ∷ []))
Distinct-append [] link d f = (λ m. absurd m, tt)
Distinct-append (first ∷ links) link d f = (
  λ m. ground (
    arith,
    d.0,
    fresh-Member link.public_key first.public_key links link refl,
    string_eq.beq_iff first.public_key link.public_key,
  ),
  Distinct-append links link d.1 (ground arith),
)

agent-approver_count :
    (links : List DelegationLink) (link : DelegationLink)
    → link.role ≡ DelegationRole.agent
    → approver_count (links ++ link ∷ []) ≡ approver_count links
unfolding approver_count
agent-approver_count [] link e = ground arith
agent-approver_count (first ∷ links) link e = ground (arith, agent-approver_count links link)

module _ ⦃env : Platform⦄ where
  -- The mandate as one more link signs it.
  abbrev pub extended : AgentMandate → DelegationLink → AgentMandate
  extended m link = record m { delegation_chain = m.delegation_chain ++ link ∷ [] }

  -- A chain that is under way: in order so far, every link signed, and no key twice.
  pub record IsPartial (m : AgentMandate) : Type 0 where
    pub ordered : walk_roles none m.delegation_chain ≡ ok (role_of (last? m.delegation_chain))
    pub signed : Signed (hash_mandate m) 0 none m.delegation_chain
    pub distinct_keys : Distinct (keys m.delegation_chain)

  -- The link that `signMandate` appends.
  pub record IsAppended (m : AgentMandate) (role : DelegationRole) (signer : MessageSigner)
      (link : DelegationLink) : Type 0 where
    pub checked : check_signing m role signer.public_key ≡ ok tt
    pub same_role : link.role ≡ role
    pub same_key : link.public_key ≡ signer.public_key
    pub signing :
        sign_domain_hash signer SignatureDomain.mandate_link (
          link_hash
            (hash_mandate m)
            (length m.delegation_chain)
            role
            signer.public_key
            (signature_of (last? m.delegation_chain)))
        ≡ some link.signature

  pub sign-IsAppended :
      (m : AgentMandate) (role : DelegationRole) (signer : MessageSigner) (n : AgentMandate)
      → sign_mandate m role signer ≡ ok n
      → (link : DelegationLink) × IsAppended m role signer link × (n ≡ extended m link)
  unfolding sign_mandate
  sign-IsAppended m role signer n h =
      let (_, checked, later) = >>=-eq-ok (check_signing m role signer.public_key) _ h in
      let hash =
        link_hash (hash_mandate m) (length m.delegation_chain) role signer.public_key
          (signature_of (last? m.delegation_chain)) in
      elim (Option-cases (sign_domain_hash signer SignatureDomain.mandate_link hash)) [
        | inl e ↦ absurd (ground arith)
        | inr (signature, e) ↦ (
          record {
            role = role;
            public_key = signer.public_key;
            signature = signature;
            scheme = some signature_scheme;
          },
          record { checked = checked; same_role = refl; same_key = refl; signing = e },
          ground arith,
        )
      ]

  module _ (m : AgentMandate) (role : DelegationRole) (signer : MessageSigner)
      (link : DelegationLink) (a : IsAppended m role signer link) where
    in_order : contains role (next_roles (role_of (last? m.delegation_chain))) ≡ true
    unfolding check_signing
    in_order = ground (arith, a.checked)

    new_key : any (λ old. old.public_key == signer.public_key) m.delegation_chain ≡ false
    unfolding check_signing
    new_key = ground (arith, a.checked)

    agent_checks :
        role ≡ DelegationRole.agent
        → (signer.public_key ≡ m.agent.public_key)
          × (m.delegation.required_approvals ≤ approver_count m.delegation_chain)
    unfolding check_signing
    agent_checks e = ground (
      arith,
      a.checked,
      role_eq.beq_iff role DelegationRole.agent,
      string_eq.beq_iff signer.public_key m.agent.public_key,
    )

    link_verifies :
        Honest signer
        → verify_domain_hash link.public_key SignatureDomain.mandate_link
            (link_hash
              (hash_mandate m)
              (length m.delegation_chain)
              link.role
              link.public_key
              (previous_of none m.delegation_chain))
            link.signature
          ≡ true
    link_verifies honest =
        rw (a.same_role, a.same_key, previous-signature_of m.delegation_chain)
          (sign-verify signer SignatureDomain.mandate_link _ link.signature honest a.signing)

    extended-IsPartial : Honest signer → IsPartial m → IsPartial (extended m link)
    unfolding hash_mandate
    extended-IsPartial honest p = record {
      ordered =
          walk_roles-append none (role_of (last? m.delegation_chain)) m.delegation_chain link
            p.ordered (rw a.same_role in_order)
          ∙ ap (λ l. ok (role_of l)) (sym (last?-append m.delegation_chain link));
      signed =
          Signed-append (hash_mandate m) 0 (length m.delegation_chain) none m.delegation_chain link
            (omega arith) p.signed (link_verifies honest);
      distinct_keys =
          Distinct-append m.delegation_chain link p.distinct_keys (rw a.same_key new_key);
    }

    agent-IsDelegated :
        Honest signer
        → IsPartial m
        → role ≡ DelegationRole.agent
        → IsDelegated (extended m link) none
    unfolding shape_error ends_with_agent hash_mandate
    agent-IsDelegated honest p e =
        let q = extended-IsPartial honest p in
        let (same_agent, enough) = agent_checks e in
        let last = last?-append m.delegation_chain link in
        let is_agent = a.same_role ∙ e in
        record {
          delegates =
              (shape_iff (m.delegation_chain ++ link ∷ [])).0
                (ground (arith, q.ordered, last, is_agent));
          signed = q.signed;
          distinct_keys = q.distinct_keys;
          approved = ground (arith, enough, agent-approver_count m.delegation_chain link is_agent);
          accepted = ground (
            arith,
            last,
            a.same_key,
            same_agent,
            string_eq.beq_iff link.public_key m.agent.public_key,
          );
          trusted_keys = tt;
        }

  -- The mandates that come from one with an empty chain by `signMandate`, with signers whose
  -- signatures verify; the role is that of the last link.
  pub data Built : Option DelegationRole → AgentMandate → Type 0 where
    unsigned : (m : AgentMandate) → m.delegation_chain ≡ [] → Built none m
    signs :
        {last : Option DelegationRole} (m n : AgentMandate) (role : DelegationRole)
        (signer : MessageSigner)
        → Built last m
        → Honest signer
        → sign_mandate m role signer ≡ ok n
        → Built (some role) n

  unsigned-IsPartial : (m : AgentMandate) → m.delegation_chain ≡ [] → IsPartial m
  unfolding walk_roles
  unsigned-IsPartial m e = record { ordered = rw e refl; signed = rw e tt; distinct_keys = rw e tt }

  Built-IsPartial : {last : Option DelegationRole} {m : AgentMandate} → Built last m → IsPartial m
  Built-IsPartial (unsigned m e) = unsigned-IsPartial m e
  Built-IsPartial (signs m n role signer built honest h) =
      let (link, a, e) = sign-IsAppended m role signer n h in
      rw e (extended-IsPartial m role signer link a honest (Built-IsPartial built))

  -- A mandate that was signed step by step by `signMandate`, the agent last, has a chain that
  -- delegates from the owner to the agent, if the signers' signatures verify under their keys.
  pub Built-IsDelegated :
      (m : AgentMandate) → Built (some DelegationRole.agent) m → IsDelegated m none
  Built-IsDelegated m (signs l n role signer built honest h) =
      let (link, a, e) = sign-IsAppended l role signer n h in
      rw e (agent-IsDelegated l role signer link a honest (Built-IsPartial built) refl)
