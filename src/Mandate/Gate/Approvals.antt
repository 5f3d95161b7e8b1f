-- ===== src/Mandate/Gate/Approvals.antt =====
-- What a human approval can and cannot do at the gate (packages/mandate/src/gate.ts).
use atlas_rail.Common.{
  ℕ, ◌<◌, ◌≡◌, ◌≢◌, ◌⊎◌, refl, true, false, Option, none, some, [], arith, contains_iff, Member,
  string_eq, nat_eqb_iff, ok, Option-cases, Result-cases, inl, inr,
}
use atlas_rail.Mandate.Types.{AgentMandate, X402Offer, Untyped, shaped}
use atlas_rail.Mandate.Records.{
  GateVerdict, DecisionKind, ApprovalStatus, approval_status_eq, Approver, GateContext,
  GateApproval, GateResult, OwnerApprovalTerms, OwnerApprovalSignature,
}
use atlas_rail.Mandate.Documents.{Platform}
use atlas_rail.Mandate.OwnerApproval.{
  ApprovalSigner, role_text, approval_signers, verify_owner_approval,
}
use atlas_rail.Mandate.Chain.Roles.{hash_mandate}
use atlas_rail.Mandate.Gate.Evaluate.{
  hash_offer, has_problems, presented, approval_of, approval_problems, owner_problems,
  signature_problems, evaluate_gate, role_is,
}
use atlas_rail.Mandate.Gate.Terms.{IsPermitted, IsAutonomous}
use atlas_rail.Mandate.Gate.Limits.{IsLive}
use atlas_rail.Mandate.Gate.Meaning.{verified-live, accepted-live}
use atlas_rail.Mandate.Gate.Authority.{
  IsAllowed, IsAllowed-undenied, kind-allow, undenied-IsAllowed, IsAllowed-kind,
}

deny-cases : (d : GateVerdict) → (d ≡ GateVerdict.deny) ⊎ (d ≢ GateVerdict.deny)
deny-cases GateVerdict.deny = inl refl
deny-cases GateVerdict.allow = inr (λ h. cc)
deny-cases GateVerdict.escalate = inr (λ h. cc)

module _ ⦃env : Platform⦄ where
  -- The wallet's signature is over terms that name this offer, this mandate and this approval.
  pub record IsSigned (m : AgentMandate) (o : X402Offer) (now : ℕ) (a : GateApproval)
      (terms : OwnerApprovalTerms) (s : OwnerApprovalSignature) : Type 0 where
    pub offer : terms.offer_hash ≡ hash_offer o
    pub mandate : terms.mandate_hash ≡ hash_mandate m
    pub approval : terms.approval_id ≡ a.id
    pub expiry : terms.expires_at ≡ a.expires_at
    pub signer : ApprovalSigner
    pub verified :
        verify_owner_approval terms s (approval_signers m) m.agent.public_key now ≡ ok signer
    pub role : role_is a.approver (role_text signer.role) ≡ true

  -- Either no wallet signed, and no terms are given, or both parts are there and are in order.
  abbrev pub SignedIfPresent :
      AgentMandate
      → X402Offer
      → ℕ
      → GateApproval
      → Option OwnerApprovalTerms
      → Option OwnerApprovalSignature
      → Type 0
  SignedIfPresent m o now a none none = Unit {0}
  SignedIfPresent m o now a (some t) none = ⊥
  SignedIfPresent m o now a none (some s) = ⊥
  SignedIfPresent m o now a (some t) (some s) = IsSigned m o now a t s

  pub record IsGranted (m : AgentMandate) (o : X402Offer) (now : ℕ) (a : GateApproval)
      : Type 0 where
    pub approved : a.status ≡ ApprovalStatus.approved
    pub same_offer : a.offer_hash ≡ hash_offer o
    pub unexpired : now < a.expires_at
    pub approver : Approver
    pub named : a.approver ≡ some approver
    pub permitted : Member approver.role m.escalation.approver_roles
    pub signed : SignedIfPresent m o now a a.terms a.owner_signature

  signature-IsSigned :
      (m : AgentMandate) (o : X402Offer) (now : ℕ) (a : GateApproval) (t : OwnerApprovalTerms)
      (s : OwnerApprovalSignature)
      → signature_problems m (hash_offer o) now a t s ≡ []
      → IsSigned m o now a t s
  unfolding signature_problems
  signature-IsSigned m o now a t s h =
      elim (Result-cases (verify_owner_approval t s (approval_signers m) m.agent.public_key now)) [
        | inr (refusal, e) ↦ absurd (ground arith)
        | inl (signer, e) ↦ record {
          offer = ground (arith, string_eq.beq_iff t.offer_hash (hash_offer o));
          mandate = ground (arith, string_eq.beq_iff t.mandate_hash (hash_mandate m));
          approval = ground (arith, string_eq.beq_iff t.approval_id a.id);
          expiry = ground (arith, nat_eqb_iff t.expires_at a.expires_at);
          signer = signer;
          verified = e;
          role = ground arith;
        }
      ]

  owner-SignedIfPresent :
      (m : AgentMandate) (o : X402Offer) (now : ℕ) (a : GateApproval)
      (t : Option OwnerApprovalTerms) (s : Option OwnerApprovalSignature)
      → a.terms ≡ t
      → a.owner_signature ≡ s
      → owner_problems m (hash_offer o) now a ≡ []
      → SignedIfPresent m o now a t s
  unfolding owner_problems
  owner-SignedIfPresent m o now a none none et es h = tt
  owner-SignedIfPresent m o now a (some t) none et es h = ground arith
  owner-SignedIfPresent m o now a none (some s) et es h = ground arith
  owner-SignedIfPresent m o now a (some t) (some s) et es h =
      signature-IsSigned m o now a t s (ground arith)

  problems-IsGranted :
      (m : AgentMandate) (o : X402Offer) (now : ℕ) (a : GateApproval)
      → approval_problems m (hash_offer o) now a ≡ []
      → IsGranted m o now a
  unfolding approval_problems
  problems-IsGranted m o now a h = elim (Option-cases a.approver) [
    | inl e ↦ absurd (ground arith)
    | inr (approver, e) ↦ record {
      approved = ground (arith, approval_status_eq.beq_iff a.status ApprovalStatus.approved);
      same_offer = ground (arith, string_eq.beq_iff a.offer_hash (hash_offer o));
      unexpired = ground arith;
      approver = approver;
      named = e;
      permitted = ground (arith, contains_iff approver.role m.escalation.approver_roles);
      signed = owner-SignedIfPresent m o now a a.terms a.owner_signature refl refl (ground arith);
    }
  ]

  approval_of-IsGranted :
      (m : AgentMandate) (o : X402Offer) (c : GateContext) (a : GateApproval)
      → IsLive m o c
      → c.approval ≡ some a
      → has_problems (approval_of (ok m) (ok o) c) ≡ false
      → IsGranted m o c.now a
  unfolding approval_of presented
  approval_of-IsGranted m o c a live e h =
      problems-IsGranted m o c.now a
        (ground (arith, verified-live m o c live, accepted-live m o c live))

  -- An answer of kind APPROVED is given only on an approval that a permitted approver granted for
  -- exactly this offer, still valid, and with a wallet signature in order wherever one is given; the
  -- payment is within every hard limit and beyond an autonomous one.
  pub approved-IsGranted :
      (mi : Untyped AgentMandate) (oi : Untyped X402Offer) (c : GateContext) (r : GateResult)
      → evaluate_gate mi oi c ≡ ok r
      → r.kind ≡ some DecisionKind.approved
      → (m : AgentMandate) × (o : X402Offer) × (a : GateApproval) × (mi ≡ shaped m)
        × (oi ≡ shaped o)
        × (c.approval ≡ some a)
        × IsGranted m o c.now a
        × IsPermitted m o c
        × (¬ IsAutonomous m o c)
  approved-IsGranted mi oi c r e k =
      let d = kind-allow mi oi c r DecisionKind.approved e k in
      let (m, o, em, eo, allowed) = undenied-IsAllowed mi oi c r e (λ h. ground arith) in
      let kinds = IsAllowed-kind m o c r (ground (arith, em, eo, e)) allowed in
      let (exceeding, given) = kinds.1.0 k in
      elim (Option-cases c.approval) [
        | inl missing ↦ absurd (ground arith)
        | inr (a, present) ↦ (
          m,
          o,
          a,
          em,
          eo,
          present,
          approval_of-IsGranted m o c a allowed.live present allowed.approval_in_order,
          allowed.permitted,
          exceeding,
        )
      ]

  abbrev pub unapproved : GateContext → GateContext
  unapproved c = record c { approval = none }

  unapproved-orderly :
      (m : AgentMandate) (o : X402Offer) (c : GateContext)
      → IsLive m o (unapproved c)
      → has_problems (approval_of (ok m) (ok o) (unapproved c)) ≡ false
  unfolding approval_of presented
  unapproved-orderly m o c l =
      rw (verified-live m o (unapproved c) l, accepted-live m o (unapproved c) l)

  unapproved-IsAllowed :
      (m : AgentMandate) (o : X402Offer) (c : GateContext)
      → IsAllowed m o c
      → IsAllowed m o (unapproved c)
  unapproved-IsAllowed m o c a =
      let l : IsLive m o (unapproved c) = record {
        signed = a.live.signed;
        positive = a.live.positive;
        started = a.live.started;
        unexpired = a.live.unexpired;
        unrevoked = a.live.unrevoked;
      } in
      let p = a.permitted in
      record {
        mandate_well_formed = a.mandate_well_formed;
        offer_well_formed = a.offer_well_formed;
        live = l;
        permitted = record {
          network = p.network;
          network_supported = p.network_supported;
          asset = p.asset;
          resource = p.resource;
          pay_to = p.pay_to;
          payer = p.payer;
          denomination = p.denomination;
          ceiling = p.ceiling;
          price = p.price;
          lifetime = p.lifetime;
        };
        simulation = a.simulation;
        approval_in_order = unapproved-orderly m o c l;
      }

  -- No approval turns a DENY into another answer: what is denied without an approval is denied with
  -- any.
  pub deny_despite_approval :
      (mi : Untyped AgentMandate) (oi : Untyped X402Offer) (c : GateContext) (r s : GateResult)
      → evaluate_gate mi oi (unapproved c) ≡ ok r
      → r.decision ≡ GateVerdict.deny
      → evaluate_gate mi oi c ≡ ok s
      → s.decision ≡ GateVerdict.deny
  deny_despite_approval mi oi c r s e d f = elim (deny-cases s.decision) [
    | inl denied ↦ denied
    | inr undenied ↦
        let (m, o, em, eo, allowed) = undenied-IsAllowed mi oi c s f undenied in
        absurd (
          IsAllowed-undenied m o (unapproved c) r (ground (arith, em, eo, e))
            (unapproved-IsAllowed m o c allowed) d)
  ]
