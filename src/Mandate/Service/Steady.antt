-- ===== src/Mandate/Service/Steady.antt =====
-- The operations of packages/mandate/src/service/lifecycle.ts leave the spend and the decisions as
-- they are, and the signed content of every mandate.
use mathlib.Core.Path.{subst}
use atlas_rail.Common.{
  suc, String, not, is_some, ◌||◌, Option, some, find, ◌==◌, string_eq, Option-cases, Bool-cases,
  Result-cases, inl, inr, ◌≡◌, refl, sym, ap, ◌⊎◌, arith, ok,
}
use atlas_rail.Mandate.Types.{DelegationRole, role_eq, DelegationLink, AgentMandate}
use atlas_rail.Mandate.Documents.{Platform}
use atlas_rail.Mandate.Crypto.{MessageSigner}
use atlas_rail.Mandate.Chain.Roles.{hash_mandate, sign_mandate}
use atlas_rail.Mandate.Chain.Signing.{sign-IsAppended}
use atlas_rail.Mandate.Service.Ports.{MandateStatus, mandate_status_eq, MandateRecord}
use atlas_rail.Mandate.Service.World.{World, Deps}
use atlas_rail.Mandate.Service.Store.Table.{put}
use atlas_rail.Mandate.Service.Store.Mandates.{keyed, get_mandate, nonce_exists}
use atlas_rail.Mandate.Service.Draft.{
  CreateDraftInput, new_record, create_mandate, store_draft, create_draft,
}
use atlas_rail.Mandate.Service.Lifecycle.{
  SignParams, has_signed, store_record, signed_record, accepted_record, revoked_record,
  demand_chain, store_signed, sign, store_accepted, attach_agent_link, revoke,
}
use atlas_rail.Mandate.Service.ApprovalDecision.{DecisionParams, decide_approval}
use atlas_rail.Mandate.Service.Answered.{next_draw}
use atlas_rail.Mandate.Service.Extends.{
  Extends, Extends-refl, KeepsRevocation, replace-Extends, add-Extends,
}

pub record Steady (w v : World) : Type 0 where
  pub mandates : Extends w.mandates v.mandates
  pub spend : v.spend ≡ w.spend
  pub decisions : v.decisions ≡ w.decisions
  pub clock : v.clock ≡ w.clock

pub Steady-refl : (w : World) → Steady w w
Steady-refl w = record {
  mandates = Extends-refl w.mandates;
  spend = refl;
  decisions = refl;
  clock = refl;
}

-- Drawn ids are no part of it.
drawn-Steady : (w v : World) → Steady (next_draw (next_draw w)) v → Steady w v
drawn-Steady w v s = record {
  mandates = s.mandates;
  spend = s.spend;
  decisions = s.decisions;
  clock = s.clock;
}

-- A record that replaces the one found under its key.
replace-Steady :
    (o m : String) (r s : MandateRecord) (w v : World)
    → get_mandate o m w ≡ some r
    → s.organization_id ≡ r.organization_id
    → s.mandate.body ≡ r.mandate.body
    → KeepsRevocation r s
    → v.mandates ≡ put (keyed s.organization_id s.mandate.id) s w.mandates
    → v.spend ≡ w.spend
    → v.decisions ≡ w.decisions
    → v.clock ≡ w.clock
    → Steady w v
unfolding get_mandate
replace-Steady o m r s w v e same_o same_body keeps mandates spend decisions clock = record {
  mandates =
      subst (Extends w.mandates) (sym mandates)
        (replace-Extends w.mandates r s o m e same_o same_body keeps);
  spend = spend;
  decisions = decisions;
  clock = clock;
}

pub revoke-Steady :
    (deps : Deps) (o m : String) (user reason : Option String) (w : World)
    → Steady w (revoke deps o m user reason w).1
unfolding revoke store_record
revoke-Steady deps o m user reason w = elim (Option-cases (get_mandate o m w)) [
  | inl e ↦ subst (Steady w) (ground arith) (Steady-refl w)
  | inr (r, e) ↦ elim (Option-cases r.revocation) [
    | inr (x, f) ↦ subst (Steady w) (ground arith) (Steady-refl w)
    | inl f ↦
        replace-Steady o m r (revoked_record r user reason w.clock) w _ e refl refl
          (λ x h. absurd (ground (arith, f, h))) (ground arith) (ground arith) (ground arith)
          (ground arith)
  ]
]

pub decide-fields :
    (deps : Deps) (o id : String) (params : DecisionParams) (w : World)
    → let v = (decide_approval deps o id params w).1 in
      (v.mandates ≡ w.mandates)
      × (v.spend ≡ w.spend)
      × (v.decisions ≡ w.decisions)
      × (v.clock ≡ w.clock)
unfolding decide_approval
decide-fields deps o id params w = ground arith

pub decide-Steady :
    (deps : Deps) (o id : String) (params : DecisionParams) (w : World)
    → Steady w (decide_approval deps o id params w).1
decide-Steady deps o id params w =
    let (mandates, spend, decisions, clock) = decide-fields deps o id params w in
    record {
      mandates = subst (Extends w.mandates) (sym mandates) (Extends-refl w.mandates);
      spend = spend;
      decisions = decisions;
      clock = clock;
    }

module _ ⦃env : Platform⦄ where
  pub sign_mandate-body :
      (m : AgentMandate) (role : DelegationRole) (signer : MessageSigner) (n : AgentMandate)
      → sign_mandate m role signer ≡ ok n
      → n.body ≡ m.body
  sign_mandate-body m role signer n h =
      let (link, _, e) = sign-IsAppended m role signer n h in ap (λ x. x.body) e

  -- What stores a record that belongs under the key leaves the rest.
  abbrev Stores : (World → World) → World → MandateRecord → Type 0
  Stores step w s =
      (step w ≡ w)
      ⊎ (((step w).mandates ≡ put (keyed s.organization_id s.mandate.id) s w.mandates)
          × ((step w).spend ≡ w.spend)
          × ((step w).decisions ≡ w.decisions)
          × ((step w).clock ≡ w.clock))

  Stores-Steady :
      (o m : String) (r s : MandateRecord) (step : World → World) (w : World)
      → get_mandate o m w ≡ some r
      → s.organization_id ≡ r.organization_id
      → s.mandate.body ≡ r.mandate.body
      → KeepsRevocation r s
      → Stores step w s
      → Steady w (step w)
  Stores-Steady o m r s step w e same_o same_body keeps (inl g) =
      subst (Steady w) (sym g) (Steady-refl w)
  Stores-Steady o m r s step w e same_o same_body keeps (inr (mandates, spend, decisions, clock)) =
      replace-Steady o m r s w (step w) e same_o same_body keeps mandates spend decisions clock

  signed-Stores :
      (deps : Deps) (m : String) (params : SignParams) (r : MandateRecord) (signed : AgentMandate)
      (w : World)
      → Stores
          (λ w. (store_signed deps m params r signed w).1)
          w
          (signed_record r params signed w.clock)
  unfolding store_signed demand_chain store_record
  signed-Stores deps m params r signed w = ground arith

  pub sign-Steady :
      (deps : Deps) (o m : String) (params : SignParams) (w : World)
      → Steady w (sign deps o m params w).1
  unfolding sign
  sign-Steady deps o m params w = elim (Option-cases (get_mandate o m w)) [
    | inl e ↦ subst (Steady w) (ground arith) (Steady-refl w)
    | inr (r, e) ↦ elim (Result-cases (sign_mandate r.mandate params.role params.signer)) [
      | inr (x, f) ↦ subst (Steady w) (ground arith) (Steady-refl w)
      | inl (signed, f) ↦
          let stored =
            Stores-Steady o m r (signed_record r params signed w.clock)
              (λ w. (store_signed deps m params r signed w).1) w e refl
              (sign_mandate-body r.mandate params.role params.signer signed f) (λ x h. h)
              (signed-Stores deps m params r signed w) in
          elim (Bool-cases (
            is_some r.revocation
            || r.status == MandateStatus.active
            || has_signed params.user_id r)) [
              | inl g ↦ subst (Steady w) (ground arith) (Steady-refl w)
              | inr g ↦ subst (Steady w) (ground arith) stored
            ]
    ]
  ]

  accepted-Stores :
      (deps : Deps) (m : String) (r : MandateRecord) (link : DelegationLink) (w : World)
      → Stores (λ w. (store_accepted deps m r link w).1) w (accepted_record r link w.clock)
  unfolding store_accepted demand_chain store_record
  accepted-Stores deps m r link w = ground arith

  pub attach-Steady :
      (deps : Deps) (o m : String) (link : DelegationLink) (w : World)
      → Steady w (attach_agent_link deps o m link w).1
  unfolding attach_agent_link
  attach-Steady deps o m link w = elim (Option-cases (get_mandate o m w)) [
    | inl e ↦ subst (Steady w) (ground arith) (Steady-refl w)
    | inr (r, e) ↦
        let stored =
          Stores-Steady o m r (accepted_record r link w.clock)
            (λ w. (store_accepted deps m r link w).1) w e refl refl (λ x h. h)
            (accepted-Stores deps m r link w) in
        elim (Bool-cases (
          is_some r.revocation
          || r.status == MandateStatus.active
          || not (link.role == DelegationRole.agent)
          || not (link.public_key == r.mandate.agent.public_key))) [
            | inl g ↦ subst (Steady w) (ground arith) (Steady-refl w)
            | inr g ↦ subst (Steady w) (ground arith) stored
          ]
  ]

  store_draft-Steady :
      (deps : Deps) (o : String) (by : Option String) (mandate : AgentMandate) (w : World)
      → Steady w (store_draft deps o by mandate w).1
  unfolding store_draft get_mandate
  store_draft-Steady deps o by mandate w =
      elim (Option-cases (find (keyed o mandate.id) w.mandates)) [
        | inr (r, e) ↦ subst (Steady w) (ground arith) (Steady-refl w)
        | inl e ↦ elim (Bool-cases (nonce_exists o mandate.nonce mandate.id w)) [
          | inl f ↦ subst (Steady w) (ground arith) (Steady-refl w)
          | inr f ↦ record {
            mandates =
                subst (Extends w.mandates) (ground arith) (
                  add-Extends w.mandates (new_record o by mandate (hash_mandate mandate) w.clock)
                    e);
            spend = ground arith;
            decisions = ground arith;
            clock = ground arith;
          }
        ]
      ]

  pub draft-Steady :
      (deps : Deps) (o : String) (by : Option String) (input : CreateDraftInput) (w : World)
      → Steady w (create_draft deps o by input w).1
  unfolding create_draft
  draft-Steady deps o by input w =
      let v = next_draw (next_draw w) in
      elim (Result-cases
        (create_mandate o input (deps.new_mandate_id w.drawn) (deps.new_nonce (suc w.drawn)))) [
          | inr (x, e) ↦ subst (Steady w) (ground arith) (drawn-Steady w v (Steady-refl v))
          | inl (mandate, e) ↦
              subst (Steady w) (ground arith)
                (drawn-Steady w _ (store_draft-Steady deps o by mandate v))
        ]
