-- ===== src/Mandate/Service/Soundness.antt =====
-- What the lifecycle does to the soundness of the stored mandates
-- (packages/mandate/src/service/lifecycle.ts), and that every run keeps it.
use mathlib.Core.Path.{subst}
use atlas_rail.Common.{
  ℕ, suc, String, true, false, not, is_some, ◌||◌, Option, none, [], find, ◌==◌, string_eq,
  Option-cases, Bool-cases, Result-cases, inl, inr, ◌≡◌, refl, sym, ◌∙◌, ap, arith, All,
}
use atlas_rail.Mandate.Types.{DelegationRole, role_eq, DelegationLink, AgentMandate, shaped}
use atlas_rail.Mandate.Documents.{Platform, Document}
use atlas_rail.Mandate.Chain.Roles.{hash_mandate, sign_mandate}
use atlas_rail.Mandate.Chain.Verify.{verify_mandate_chain}
use atlas_rail.Mandate.Decision.Record.{}
use atlas_rail.Mandate.Service.Ports.{MandateStatus, mandate_status_eq, MandateRecord}
use atlas_rail.Mandate.Service.World.{World, Deps}
use atlas_rail.Mandate.Service.Store.Table.{}
use atlas_rail.Mandate.Service.Store.Mandates.{keyed, get_mandate, nonce_exists}
use atlas_rail.Mandate.Service.Lifecycle.{
  SignParams, has_signed, store_record, signed_record, accepted_record, revoked_record, with_link,
  demand_chain, store_signed, sign, store_accepted, attach_agent_link, revoke,
}
use atlas_rail.Mandate.Service.Steady.{sign_mandate-body}
use atlas_rail.Mandate.Service.Draft.{
  CreateDraftInput, new_record, create_mandate, store_draft, create_draft,
}
use atlas_rail.Mandate.Service.ApprovalDecision.{}
use atlas_rail.Mandate.Service.Answered.{next_draw, answer-Answered}
use atlas_rail.Mandate.Service.Settling.{resolve-Resolved}
use atlas_rail.Mandate.Service.Revocation.{Answered-mandates, resolved-mandates}
use atlas_rail.Mandate.Service.Steady.{decide-fields}
use atlas_rail.Mandate.Service.System.{
  System, Step, Run, arrives, is_answered, resolves, drafts, signs, accepts, revokes, decides,
  time_passes, here, next,
}
use atlas_rail.Mandate.Service.Sound.{put-All, find-All, users-Distinct, IsSound}

module _ ⦃env : Platform⦄ where
  -- What a change of the mandates does to their soundness.
  abbrev pub KeepsSound : (World → World) → World → Type 0
  KeepsSound step w = All IsSound w.mandates → All IsSound (step w).mandates

  signed-IsSound :
      (params : SignParams) (r : MandateRecord) (signed : AgentMandate) (now : ℕ)
      → IsSound r
      → has_signed params.user_id r ≡ false
      → signed.body ≡ r.mandate.body
      → ((signed_record r params signed now).status ≡ MandateStatus.active
          → (verify_mandate_chain (shaped signed) none).valid ≡ true)
      → IsSound (signed_record r params signed now)
  unfolding hash_mandate
  signed-IsSound params r signed now sound fresh same_body verified = record {
    verified = verified;
    hashed = sound.hashed ∙ ap (λ b. env.hash_document (Document.mandate_body b)) (sym same_body);
    independent = users-Distinct params.user_id r _ refl fresh sound.independent;
  }

  store_signed-KeepsSound :
      (deps : Deps) (m : String) (params : SignParams) (r : MandateRecord) (signed : AgentMandate)
      (w : World)
      → IsSound r
      → has_signed params.user_id r ≡ false
      → (r.status == MandateStatus.active) ≡ false
      → signed.body ≡ r.mandate.body
      → KeepsSound (λ w. (store_signed deps m params r signed w).1) w
  unfolding store_signed demand_chain store_record
  store_signed-KeepsSound deps m params r signed w sound fresh inactive same_body rows =
      let next = signed_record r params signed w.clock in
      let put_next =
        λ (v : next.status ≡ MandateStatus.active
            → (verify_mandate_chain (shaped signed) none).valid ≡ true).
          put-All IsSound (keyed next.organization_id next.mandate.id) next w.mandates rows
            (signed-IsSound params r signed w.clock sound fresh same_body v) in
      elim (Bool-cases (params.role == DelegationRole.agent)) [
        | inr e ↦ subst (All IsSound) (ground arith) (
            put_next (λ h.
              absurd (ground (arith, mandate_status_eq.beq_iff r.status MandateStatus.active))))
        | inl e ↦ elim (Bool-cases (verify_mandate_chain (shaped signed) none).valid) [
          | inl v ↦ subst (All IsSound) (ground arith) (put_next (λ h. v))
          | inr v ↦ subst (All IsSound) (ground arith) rows
        ]
      ]

  sign-KeepsSound :
      (deps : Deps) (o m : String) (params : SignParams) (w : World)
      → KeepsSound (λ w. (sign deps o m params w).1) w
  unfolding sign get_mandate
  sign-KeepsSound deps o m params w rows = elim (Option-cases (find (keyed o m) w.mandates)) [
    | inl e ↦ subst (All IsSound) (ground arith) rows
    | inr (r, e) ↦ elim (Result-cases (sign_mandate r.mandate params.role params.signer)) [
      | inr (x, f) ↦ subst (All IsSound) (ground arith) rows
      | inl (signed, f) ↦
          elim (Bool-cases (
            is_some r.revocation
            || r.status == MandateStatus.active
            || has_signed params.user_id r)) [
              | inl g ↦ subst (All IsSound) (ground arith) rows
              | inr g ↦ subst (All IsSound) (ground arith) (
                  store_signed-KeepsSound deps m params r signed w
                    (find-All IsSound (keyed o m) w.mandates r rows e) (ground arith) (ground arith)
                    (sign_mandate-body r.mandate params.role params.signer signed f) rows)
            ]
    ]
  ]

  accepted-IsSound :
      (r : MandateRecord) (link : DelegationLink) (now : ℕ)
      → IsSound r
      → (verify_mandate_chain (shaped (with_link r.mandate link)) none).valid ≡ true
      → IsSound (accepted_record r link now)
  unfolding hash_mandate
  accepted-IsSound r link now sound valid = record {
    verified = λ h. valid;
    hashed = sound.hashed;
    independent = users-Distinct none r _ refl refl sound.independent;
  }

  attach-KeepsSound :
      (deps : Deps) (o m : String) (link : DelegationLink) (w : World)
      → KeepsSound (λ w. (attach_agent_link deps o m link w).1) w
  unfolding attach_agent_link get_mandate store_accepted demand_chain store_record
  attach-KeepsSound deps o m link w rows = elim (Option-cases (find (keyed o m) w.mandates)) [
    | inl e ↦ subst (All IsSound) (ground arith) rows
    | inr (r, e) ↦
        elim (Bool-cases (
          is_some r.revocation
          || r.status == MandateStatus.active
          || not (link.role == DelegationRole.agent)
          || not (link.public_key == r.mandate.agent.public_key))) [
            | inl g ↦ subst (All IsSound) (ground arith) rows
            | inr g ↦
                elim (Bool-cases
                  (verify_mandate_chain (shaped (with_link r.mandate link)) none).valid) [
                    | inr v ↦ subst (All IsSound) (ground arith) rows
                    | inl v ↦
                        let s = accepted_record r link w.clock in
                        subst (All IsSound) (ground arith) (
                          put-All IsSound (keyed s.organization_id s.mandate.id) s w.mandates rows (
                            accepted-IsSound r link w.clock
                              (find-All IsSound (keyed o m) w.mandates r rows e) v))
                  ]
          ]
  ]

  revoke-KeepsSound :
      (deps : Deps) (o m : String) (user reason : Option String) (w : World)
      → KeepsSound (λ w. (revoke deps o m user reason w).1) w
  unfolding revoke get_mandate store_record
  revoke-KeepsSound deps o m user reason w rows =
      elim (Option-cases (find (keyed o m) w.mandates)) [
        | inl e ↦ subst (All IsSound) (ground arith) rows
        | inr (r, e) ↦ elim (Option-cases r.revocation) [
          | inr (x, f) ↦ subst (All IsSound) (ground arith) rows
          | inl f ↦
              let s = revoked_record r user reason w.clock in
              let sound = find-All IsSound (keyed o m) w.mandates r rows e in
              subst (All IsSound) (ground arith) (
                put-All IsSound (keyed s.organization_id s.mandate.id) s w.mandates rows (record {
                  verified = λ h. absurd (ground arith);
                  hashed = sound.hashed;
                  independent = sound.independent;
                }))
        ]
      ]

  store_draft-KeepsSound :
      (deps : Deps) (o : String) (by : Option String) (mandate : AgentMandate) (w : World)
      → KeepsSound (λ w. (store_draft deps o by mandate w).1) w
  unfolding store_draft get_mandate
  store_draft-KeepsSound deps o by mandate w rows =
      elim (Bool-cases (
        nonce_exists o mandate.nonce mandate.id w
        || is_some (find (keyed o mandate.id) w.mandates))) [
          | inl e ↦ subst (All IsSound) (ground arith) rows
          | inr e ↦
              let s = new_record o by mandate (hash_mandate mandate) w.clock in
              subst (All IsSound) (ground arith) (
                put-All IsSound (keyed o mandate.id) s w.mandates rows (record {
                  verified = λ h. absurd (ground arith);
                  hashed = refl;
                  independent = tt;
                }))
        ]

  draft-KeepsSound :
      (deps : Deps) (o : String) (by : Option String) (input : CreateDraftInput) (w : World)
      → KeepsSound (λ w. (create_draft deps o by input w).1) w
  unfolding create_draft
  draft-KeepsSound deps o by input w rows =
      let v = next_draw (next_draw w) in
      elim (Result-cases
        (create_mandate o input (deps.new_mandate_id w.drawn) (deps.new_nonce (suc w.drawn)))) [
          | inr (x, e) ↦ subst (All IsSound) (ground arith) rows
          | inl (mandate, e) ↦
              subst (All IsSound) (ground arith) (store_draft-KeepsSound deps o by mandate v rows)
        ]

  Step-All :
      (deps : Deps) (s t : System)
      → Step deps s t
      → All IsSound s.world.mandates
      → All IsSound t.world.mandates
  Step-All deps s t (arrives o request a h) rows = rows
  Step-All deps s t (is_answered a m) rows =
      subst (All IsSound) (sym (Answered-mandates deps (answer-Answered deps a s.world))) rows
  Step-All deps s t (resolves o id transaction) rows =
      subst (All IsSound)
        (sym (resolved-mandates deps (resolve-Resolved deps o id transaction s.world))) rows
  Step-All deps s t (drafts o by input) rows = draft-KeepsSound deps o by input s.world rows
  Step-All deps s t (signs o m params) rows = sign-KeepsSound deps o m params s.world rows
  Step-All deps s t (accepts o m link) rows = attach-KeepsSound deps o m link s.world rows
  Step-All deps s t (revokes o m user reason) rows =
      revoke-KeepsSound deps o m user reason s.world rows
  Step-All deps s t (decides o id params) rows =
      subst (All IsSound) (sym (decide-fields deps o id params s.world).0) rows
  Step-All deps s t (time_passes later h) rows = rows

  -- In every run from a store without mandates, each mandate that is active has a chain that verifies,
  -- each stored hash is the hash of its mandate, and no user has signed a mandate twice.
  pub run-IsSound :
      (deps : Deps) (start s : System)
      → start.world.mandates ≡ []
      → Run deps start s
      → All IsSound s.world.mandates
  run-IsSound deps start s e here = subst (All IsSound) (sym e) tt
  run-IsSound deps start s e (next t u run step) =
      Step-All deps t u step (run-IsSound deps start t e run)
