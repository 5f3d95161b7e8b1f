-- ===== src/Mandate/Service/Answered.antt =====
-- What answering a request returns and does to the stores, throws included
-- (packages/mandate/src/service/gate-service.ts, `evaluate` with the lock held).
use mathlib.Core.Path.{subst}
use atlas_rail.Common.{
  suc, String, true, false, Bool-cases, Option-cases, Result-cases, inl, inr, arith, Option, none,
  some, ok, err, Result, ◌≡◌, refl,
}
use atlas_rail.Mandate.Records.{GateVerdict}
use atlas_rail.Mandate.Documents.{Platform, SignedDecision, GateAuthorization}
use atlas_rail.Mandate.Service.Ports.{StoredDecision, ApprovalRecord, Thrown}
use atlas_rail.Mandate.Service.World.{World, Deps}
use atlas_rail.Mandate.Service.Store.Decisions.{find_by_request, id_taken}
use atlas_rail.Mandate.Service.Assess.{Admitted, Assessment, assess, approval_for}
use atlas_rail.Mandate.Service.Branches.{signed_decision, carry_out}
use atlas_rail.Mandate.Service.Evaluate.{
  GateOutcome, stored_decision, fresh_outcome, act_on, record_decision, evaluate_fresh,
  answer_request, same_hash, replayed_outcome,
}
use atlas_rail.Mandate.Service.Same.{Same, Same-refl}
use atlas_rail.Mandate.Service.Assessed.{Assessed, assess-Assessed}
use atlas_rail.Mandate.Service.Effects.{Appended, file-Filed}
use atlas_rail.Mandate.Service.Carried.{Carried, carry-Carried}
use atlas_rail.Mandate.Service.Refused.{Refused, carry-Refused, file-taken}

-- The world after an id was drawn.
abbrev pub next_draw : World → World
next_draw w = record w { drawn = suc w.drawn }

next_draw-Same : (w : World) → Same w (next_draw w)
next_draw-Same w = record {
  mandates = refl;
  decisions = refl;
  spend = refl;
  approvals = refl;
  clock = refl;
}

module _ ⦃env : Platform⦄ (deps : Deps) (a : Admitted) (w : World) where
  -- Why a request that was not answered before fails: the facts cannot be gathered or the gate throws,
  -- the instance does not sign the decision, or an ALLOW cannot be carried out.
  pub data Failed : Thrown → Type 0 where
    unassessed : (e : Thrown) → (assess deps a w).0 ≡ err e → Failed e
    unsigned :
        (s : Assessment)
        → Assessed deps a w s
        → signed_decision deps a s (deps.new_id "dec" w.drawn) ≡ none
        → Failed Thrown.instance_signer_failed
    refused :
        (s : Assessment) (signed : SignedDecision) (e : Thrown)
        → Assessed deps a w s
        → signed_decision deps a s (deps.new_id "dec" w.drawn) ≡ some signed
        → s.result.decision ≡ GateVerdict.allow
        → Refused deps a s (deps.new_id "dec" w.drawn) signed (next_draw w) e
        → Failed e

  -- A request that was not answered before: it fails and the stores are as they were; or the answer
  -- of the gate is carried out, and then the decision is stored, unless its id is taken.
  pub data Fresh : Result Thrown GateOutcome → World → Type 0 where
    failed : (e : Thrown) (v : World) → Failed e → Same w v → Fresh (err e) v
    unfiled :
        (s : Assessment) (id : String) (signed : SignedDecision)
        (granted : Option GateAuthorization × Option ApprovalRecord) (v : World)
        → Assessed deps a w s
        → signed_decision deps a s id ≡ some signed
        → Carried deps a s id signed (next_draw w) granted v
        → id_taken signed.body.id v ≡ true
        → Fresh (err Thrown.duplicate_decision) v
    filed :
        (s : Assessment) (id : String) (signed : SignedDecision)
        (granted : Option GateAuthorization × Option ApprovalRecord) (u v : World)
        → Assessed deps a w s
        → signed_decision deps a s id ≡ some signed
        → Carried deps a s id signed (next_draw w) granted u
        → Appended (stored_decision a signed granted.0 granted.1) u v
        → Fresh (ok (fresh_outcome a signed granted)) v

  abbrev IsFresh : Result Thrown GateOutcome × World → Type 0
  IsFresh r = Fresh r.0 r.1

  act-Fresh :
      (s : Assessment) (signed : SignedDecision)
      → Assessed deps a w s
      → signed_decision deps a s (deps.new_id "dec" w.drawn) ≡ some signed
      → IsFresh (act_on deps a s (deps.new_id "dec" w.drawn) signed (next_draw w))
  unfolding act_on
  act-Fresh s signed assessed e =
      let w₁ = next_draw w in
      let id = deps.new_id "dec" w.drawn in
      elim (carry-Carried deps a s id signed w₁) [
        | inr (x, g, h) ↦
            let (allow, why) = carry-Refused deps a s id signed w₁ x g in
            subst IsFresh (ground arith)
              (failed x w₁ (refused s signed x assessed e allow why) (next_draw-Same w))
        | inl (granted, g, carried) ↦
            let u = (carry_out deps a s id signed w₁).1 in
            elim (file-Filed deps a s.result id signed granted u) [
              | inl (f, appended) ↦
                  subst IsFresh (ground arith)
                    (filed s id signed granted u _ assessed e carried appended)
              | inr (x, f, h) ↦
                  let (same, taken) = file-taken deps a s.result id signed granted u x f in
                  subst IsFresh (ground (arith, same))
                    (unfiled s id signed granted u assessed e carried taken)
            ]
      ]

  record_decision-Fresh :
      (s : Assessment) → Assessed deps a w s → IsFresh (record_decision deps a s w)
  unfolding record_decision
  record_decision-Fresh s assessed =
      let id = deps.new_id "dec" w.drawn in
      elim (Option-cases (signed_decision deps a s id)) [
        | inl e ↦ subst IsFresh (ground arith) (
            failed Thrown.instance_signer_failed (next_draw w) (unsigned s assessed e)
              (next_draw-Same w))
        | inr (signed, e) ↦ subst IsFresh (ground arith) (act-Fresh s signed assessed e)
      ]

  IsFresh-Fresh : IsFresh (evaluate_fresh deps a w)
  unfolding evaluate_fresh
  IsFresh-Fresh =
      let (same, known) = assess-Assessed deps a w in
      elim (Result-cases (assess deps a w).0) [
        | inl (s, e) ↦ subst IsFresh (ground arith) (record_decision-Fresh s (known s e))
        | inr (x, e) ↦ subst IsFresh (ground arith) (failed x w (unassessed x e) (Same-refl w))
      ]

  -- A request that is answered: refused with nothing changed, as its nonce was used for another
  -- request, again from the store with nothing changed, or afresh.
  pub data Answered : Result Thrown GateOutcome → World → Type 0 where
    reused :
        (existing : StoredDecision)
        → find_by_request a.organization_id a.request.mandate_id a.request.nonce w ≡ some existing
        → same_hash existing.request_hash a.request_hash ≡ false
        → Answered (err Thrown.nonce_reused) w
    again :
        (existing : StoredDecision)
        → find_by_request a.organization_id a.request.mandate_id a.request.nonce w ≡ some existing
        → same_hash existing.request_hash a.request_hash ≡ true
        → Answered
            (ok
              (replayed_outcome a existing (approval_for a.organization_id existing.approval_id w)))
            w
    anew :
        (r : Result Thrown GateOutcome) (v : World)
        → find_by_request a.organization_id a.request.mandate_id a.request.nonce w ≡ none
        → Fresh r v
        → Answered r v

  abbrev IsAnswered : Result Thrown GateOutcome × World → Type 0
  IsAnswered r = Answered r.0 r.1

  -- Answering a request with the lock held does one of these things. Where a decision is stored for its
  -- nonce, it returns that again, or throws if that was for another request, and changes nothing.
  -- Otherwise the gate answers on what the stores and the chain hold; an ALLOW is carried out by an
  -- authorization and a hold on the budget, with the approval that it rests on used up, an ESCALATE by a
  -- request for approval, a DENY by nothing; and then the decision is stored and returned, once. It fails
  -- and leaves the stores as they were where the facts cannot be gathered, the gate throws, the instance
  -- does not sign, or an ALLOW has no simulation or no usable approval. Only where the id drawn for the
  -- decision is taken it throws after what was carried out, which stays, and stores no decision.
  pub answer-Answered : IsAnswered (answer_request deps a w)
  unfolding answer_request
  answer-Answered =
      elim (Option-cases
        (find_by_request a.organization_id a.request.mandate_id a.request.nonce w)) [
          | inl e ↦ subst IsAnswered (ground arith) (anew _ _ e IsFresh-Fresh)
          | inr (existing, e) ↦ elim (Bool-cases (same_hash existing.request_hash a.request_hash)) [
            | inl h ↦ subst IsAnswered (ground arith) (again existing e h)
            | inr h ↦ subst IsAnswered (ground arith) (reused existing e h)
          ]
        ]
