-- ===== src/Mandate/Service/Idempotence.antt =====
-- A request is answered once, and a revoked mandate pays for nothing new
-- (packages/mandate/src/service/gate-service.ts, `evaluate`).
use mathlib.Core.Path.{}
use atlas_rail.Common.{
  String, Bool, true, Option, none, some, List, [], ◌∷◌, ◌++◌, find, ◌==◌, string_eq, Bool-cases,
  inl, inr, ◌≡◌, refl, sym, ◌∙◌, ap, arith, ok, Result, beq_refl,
}
use atlas_rail.Mandate.Types.{}
use atlas_rail.Mandate.Records.{GateVerdict, verdict_eq}
use atlas_rail.Mandate.Documents.{Platform, SignedDecision, DecisionRecord, GateAuthorization}
use atlas_rail.Mandate.Crypto.{MessageSigner}
use atlas_rail.Mandate.Gate.Authority.{shaped-IsAllowed}
use atlas_rail.Mandate.Decision.Record.{sign_decision, build_decision_record}
use atlas_rail.Mandate.Service.Ports.{StoredDecision, MandateRevocation, ApprovalRecord, Thrown}
use atlas_rail.Mandate.Service.World.{World, Deps}
use atlas_rail.Mandate.Service.Store.Decisions.{requested, find_by_request}
use atlas_rail.Mandate.Service.Assess.{Admitted, Assessment, approval_for}
use atlas_rail.Mandate.Service.Branches.{signed_decision}
use atlas_rail.Mandate.Service.Evaluate.{
  GateOutcome, stored_decision, answer_request, same_hash, replayed_outcome,
}
use atlas_rail.Mandate.Service.Assessed.{Assessed, ok-injective}
use atlas_rail.Mandate.Service.Carried.{Carried, allowed, escalated, denied}
use atlas_rail.Mandate.Service.Answered.{
  Fresh, failed, unfiled, filed, Answered, reused, again, anew, answer-Answered,
}

pub sign_decision-body :
    ⦃env : Platform⦄ (body : DecisionRecord) (signer : MessageSigner) (signed : SignedDecision)
    → sign_decision body signer ≡ some signed
    → signed.body ≡ body
unfolding sign_decision
sign_decision-body body signer signed h = ground arith

find-append :
    {A : Type 0} (p : A → Bool) (xs : List A) (y : A)
    → find p xs ≡ none
    → p y ≡ true
    → find p (xs ++ y ∷ []) ≡ some y
find-append p [] y h k = ground arith
find-append p (x ∷ xs) y h k = ground (arith, find-append p xs y)

module _ ⦃env : Platform⦄ (deps : Deps) (a : Admitted) where
  carried-decisions :
      {w v : World} (s : Assessment) (id : String) (signed : SignedDecision)
      {granted : Option GateAuthorization × Option ApprovalRecord}
      → Carried deps a s id signed w granted v
      → v.decisions ≡ w.decisions
  carried-decisions s id signed (allowed authorization v d granted) = granted.hold.decisions
  carried-decisions s id signed (escalated created v d asked) = asked.decisions
  carried-decisions s id signed (denied d) = refl

  -- A DENY gives no authorization and holds no budget.
  denied-nothing :
      {w v : World} (s : Assessment) (id : String) (signed : SignedDecision)
      {granted : Option GateAuthorization × Option ApprovalRecord}
      → s.result.decision ≡ GateVerdict.deny
      → Carried deps a s id signed w granted v
      → (granted.0 ≡ none) × (v.spend ≡ w.spend)
  denied-nothing s id signed d (allowed authorization v e granted) = absurd (ground arith)
  denied-nothing s id signed d (escalated created v e asked) = absurd (ground arith)
  denied-nothing s id signed d (denied e) = (refl, refl)

  -- The decision that is stored is found by the request.
  requested-stored :
      (s : Assessment) (id : String) (signed : SignedDecision)
      (granted : Option GateAuthorization × Option ApprovalRecord)
      → a.request.mandate_id ≡ a.stored.mandate.id
      → signed_decision deps a s id ≡ some signed
      → requested a.organization_id a.request.mandate_id a.request.nonce
          (stored_decision a signed granted.0 granted.1)
        ≡ true
  unfolding signed_decision build_decision_record
  requested-stored s id signed granted same e =
      let b = sign_decision-body _ deps.instance_signer signed e in
      ground (
        arith,
        ap (λ x. x.mandate_id) b,
        ap (λ x. x.request) b,
        beq_refl a.organization_id,
        beq_refl a.stored.mandate.id,
        beq_refl a.request.nonce,
      )

  -- The answer that a request got is the answer that it gets again.
  abbrev pub AnsweredAs : GateOutcome → World → Type 0
  AnsweredAs outcome v =
      let r = answer_request deps a v in
      (again : GateOutcome) × (r.0 ≡ ok again)
      × (r.1 ≡ v)
      × (again.replayed ≡ true)
      × (again.decision ≡ outcome.decision)
      × (again.authorization ≡ outcome.authorization)

  replayed-AnsweredAs :
      (outcome : GateOutcome) (existing : StoredDecision) (v : World)
      → find_by_request a.organization_id a.request.mandate_id a.request.nonce v ≡ some existing
      → same_hash existing.request_hash a.request_hash ≡ true
      → existing.signed ≡ outcome.decision
      → existing.authorization ≡ outcome.authorization
      → AnsweredAs outcome v
  unfolding answer_request
  replayed-AnsweredAs outcome existing v e h same_decision same_authorization = (
    replayed_outcome a existing (approval_for a.organization_id existing.approval_id v),
    ground arith,
    ground arith,
    refl,
    same_decision,
    same_authorization,
  )

  Fresh-AnsweredAs :
      {w v : World} {r : Result Thrown GateOutcome} (outcome : GateOutcome)
      → a.request.mandate_id ≡ a.stored.mandate.id
      → find_by_request a.organization_id a.request.mandate_id a.request.nonce w ≡ none
      → Fresh deps a w r v
      → r ≡ ok outcome
      → AnsweredAs outcome v
  unfolding find_by_request
  Fresh-AnsweredAs outcome same e (failed x v _ same_stores) h = absurd (ground arith)
  Fresh-AnsweredAs outcome same e (unfiled s id signed granted v _ _ _ _) h = absurd (ground arith)
  Fresh-AnsweredAs {w = w} outcome same e
        (filed s id signed granted u v assessed f carried appended) h =
      let d = stored_decision a signed granted.0 granted.1 in
      let stored =
        appended.decisions ∙ ap (λ x. x ++ d ∷ []) (carried-decisions s id signed carried) in
      let p = requested a.organization_id a.request.mandate_id a.request.nonce in
      replayed-AnsweredAs outcome d v
        (ap (find p) stored
          ∙ find-append p w.decisions d e (requested-stored s id signed granted same f))
        (beq_refl a.request_hash) (ap (λ x. x.decision) (ok-injective h))
        (ap (λ x. x.authorization) (ok-injective h))

  Answered-AnsweredAs :
      {w v : World} {r : Result Thrown GateOutcome} (outcome : GateOutcome)
      → a.request.mandate_id ≡ a.stored.mandate.id
      → Answered deps a w r v
      → r ≡ ok outcome
      → AnsweredAs outcome v
  Answered-AnsweredAs outcome same (reused _ _ _) h = absurd (ground arith)
  Answered-AnsweredAs {w = w} outcome same (again existing e f) h =
      replayed-AnsweredAs outcome existing w e f (ap (λ x. x.decision) (ok-injective h))
        (ap (λ x. x.authorization) (ok-injective h))
  Answered-AnsweredAs outcome same (anew r v e fresh) h = Fresh-AnsweredAs outcome same e fresh h

  -- A request that is repeated right after it was answered gets the same signed decision and the same
  -- authorization, is marked as a replay, and changes nothing, if the mandate that was found for it has
  -- the id that it names.
  pub answer-idempotent :
      (w : World) (outcome : GateOutcome)
      → a.request.mandate_id ≡ a.stored.mandate.id
      → (answer_request deps a w).0 ≡ ok outcome
      → AnsweredAs outcome (answer_request deps a w).1
  answer-idempotent w outcome same h = Answered-AnsweredAs outcome same (answer-Answered deps a w) h

  revoked-denied :
      (w : World) (s : Assessment) (revocation : MandateRevocation)
      → a.stored.revocation ≡ some revocation
      → Assessed deps a w s
      → s.result.decision ≡ GateVerdict.deny
  revoked-denied w s revocation e assessed =
      elim (Bool-cases (s.result.decision == GateVerdict.deny)) [
        | inl h ↦ (verdict_eq.beq_iff s.result.decision GateVerdict.deny).0 h
        | inr h ↦
            let allowed =
              shaped-IsAllowed a.stored.mandate a.request.offer s.context s.result assessed.answered
                (λ d. ground (arith, verdict_eq.beq_iff s.result.decision GateVerdict.deny)) in
            absurd (ground (arith, allowed.live.unrevoked, assessed.given.revoked))
      ]

  pub Fresh-denied :
      {w v : World} {r : Result Thrown GateOutcome} (outcome : GateOutcome)
      (revocation : MandateRevocation)
      → a.stored.revocation ≡ some revocation
      → Fresh deps a w r v
      → r ≡ ok outcome
      → (outcome.decision.body.decision ≡ GateVerdict.deny)
        × (outcome.authorization ≡ none)
        × (v.spend ≡ w.spend)
  unfolding signed_decision build_decision_record
  Fresh-denied outcome revocation e (failed x v _ same_stores) h = absurd (ground arith)
  Fresh-denied outcome revocation e (unfiled s id signed granted v _ _ _ _) h =
      absurd (ground arith)
  Fresh-denied {w = w} outcome revocation e
        (filed s id signed granted u v assessed f carried appended) h =
      let d = revoked-denied w s revocation e assessed in
      let b = sign_decision-body _ deps.instance_signer signed f in
      let o = ok-injective h in
      let (nothing, unspent) = denied-nothing s id signed d carried in
      (
        ap (λ x. x.decision.body.decision) (sym o) ∙ ap (λ x. x.decision) b ∙ d,
        ap (λ x. x.authorization) (sym o) ∙ nothing,
        appended.spend ∙ unspent,
      )
