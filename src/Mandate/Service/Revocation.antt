-- ===== src/Mandate/Service/Revocation.antt =====
-- A revocation is final (packages/mandate/src/service/lifecycle.ts, `revoke`), and the gate service
-- denies what comes in after it.
use mathlib.Core.Path.{subst}
use atlas_rail.Common.{
  String, false, Option, none, some, find, ◌≡◌, refl, sym, ◌∙◌, ap, arith, ok, Result,
}
use atlas_rail.Mandate.Records.{GateVerdict}
use atlas_rail.Mandate.Documents.{
  Platform, SignedAgentGateRequest, SignedDecision, GateAuthorization,
}
use atlas_rail.Mandate.Service.Ports.{MandateRecord, MandateRevocation, ApprovalRecord, Thrown}
use atlas_rail.Mandate.Service.World.{World, Deps}
use atlas_rail.Mandate.Service.Store.Mandates.{keyed, get_mandate}
use atlas_rail.Mandate.Service.Assess.{Admitted, Assessment}
use atlas_rail.Mandate.Service.Evaluate.{GateOutcome, admit, answer_request}
use atlas_rail.Mandate.Service.Carried.{Carried, allowed, escalated, denied}
use atlas_rail.Mandate.Service.Answered.{
  Fresh, failed, unfiled, filed, Answered, reused, again, anew, answer-Answered,
}
use atlas_rail.Mandate.Service.Extends.{Extends, Extends-refl, Successor, kept, added, replaced}
use atlas_rail.Mandate.Service.Steady.{
  draft-Steady, sign-Steady, attach-Steady, revoke-Steady, decide-Steady,
}
use atlas_rail.Mandate.Service.System.{
  System, Step, Run, arrives, is_answered, resolves, drafts, signs, accepts, revokes, decides,
  time_passes, here, next,
}
use atlas_rail.Mandate.Service.Spending.{some-injective}
use atlas_rail.Mandate.Service.Assessed.{ok-injective}
use atlas_rail.Mandate.Service.Settling.{
  Resolved, unknown, unheld, waiting, another, freed, paid, resolve-Resolved,
}
use atlas_rail.Mandate.Service.Ports.{SpendResolution}
use atlas_rail.Mandate.Service.Invariant.{admit-found}
use atlas_rail.Mandate.Service.Idempotence.{Fresh-denied}

-- The mandate of an organization is revoked.
pub record IsRevoked (organization_id mandate_id : String) (w : World) : Type 0 where
  pub stored : MandateRecord
  pub revocation : MandateRevocation
  pub found : get_mandate organization_id mandate_id w ≡ some stored
  pub revoked : stored.revocation ≡ some revocation

extends-IsRevoked :
    (o m : String) (w v : World) → Extends w.mandates v.mandates → IsRevoked o m w → IsRevoked o m v
unfolding get_mandate
extends-IsRevoked o m w v x i = by_successor (x o m)
  where
    by_successor :
        Successor (find (keyed o m) w.mandates) (find (keyed o m) v.mandates) → IsRevoked o m v
    by_successor (kept e) = record {
      stored = i.stored;
      revocation = i.revocation;
      found = e ∙ i.found;
      revoked = i.revoked;
    }
    by_successor (added e) = absurd (ground (arith, i.found))
    by_successor (replaced r s e f g k) = record {
      stored = s;
      revocation = i.revocation;
      found = f;
      revoked =
          k i.revocation (ap (λ y. y.revocation) (some-injective (sym e ∙ i.found)) ∙ i.revoked);
    }

module _ ⦃env : Platform⦄ (deps : Deps) where
  carried-mandates :
      {a : Admitted} {s : Assessment} {id : String} {signed : SignedDecision} {w v : World}
      {granted : Option GateAuthorization × Option ApprovalRecord}
      → Carried deps a s id signed w granted v
      → v.mandates ≡ w.mandates
  carried-mandates (allowed authorization v d granted) = granted.hold.mandates
  carried-mandates (escalated created v d asked) = asked.mandates
  carried-mandates (denied d) = refl

  Fresh-mandates :
      {a : Admitted} {w v : World} {r : Result Thrown GateOutcome}
      → Fresh deps a w r v
      → v.mandates ≡ w.mandates
  Fresh-mandates (failed e v _ same) = same.mandates
  Fresh-mandates (unfiled s id signed granted v _ _ carried _) = carried-mandates carried
  Fresh-mandates (filed s id signed granted u v _ _ carried appended) =
      appended.mandates ∙ carried-mandates carried

  pub Answered-mandates :
      {a : Admitted} {w v : World} {r : Result Thrown GateOutcome}
      → Answered deps a w r v
      → v.mandates ≡ w.mandates
  Answered-mandates (reused _ _ _) = refl
  Answered-mandates (again existing _ _) = refl
  Answered-mandates (anew r v _ fresh) = Fresh-mandates fresh

  pub resolved-mandates :
      {o id transaction : String} {w : World} {r : Result Thrown SpendResolution × World}
      → Resolved deps o id transaction w r
      → r.1.mandates ≡ w.mandates
  resolved-mandates (unknown _) = refl
  resolved-mandates (unheld _ _ _) = refl
  resolved-mandates (waiting _ _ _ _ _) = refl
  resolved-mandates (another _ _ _ _ _) = refl
  resolved-mandates (freed _ _ _ _ _ _ _) = refl
  resolved-mandates (paid _ _ _ _ _ _) = refl

  same-Extends : (w v : World) → v.mandates ≡ w.mandates → Extends w.mandates v.mandates
  same-Extends w v e = subst (Extends w.mandates) (sym e) (Extends-refl w.mandates)

  Step-Extends : (s t : System) → Step deps s t → Extends s.world.mandates t.world.mandates
  Step-Extends s t (arrives o request a h) = Extends-refl s.world.mandates
  Step-Extends s t (is_answered a m) =
      same-Extends s.world t.world (Answered-mandates (answer-Answered deps a s.world))
  Step-Extends s t (resolves o id transaction) =
      same-Extends s.world t.world
        (resolved-mandates (resolve-Resolved deps o id transaction s.world))
  Step-Extends s t (drafts o by input) = (draft-Steady deps o by input s.world).mandates
  Step-Extends s t (signs o m params) = (sign-Steady deps o m params s.world).mandates
  Step-Extends s t (accepts o m link) = (attach-Steady deps o m link s.world).mandates
  Step-Extends s t (revokes o m user reason) = (revoke-Steady deps o m user reason s.world).mandates
  Step-Extends s t (decides o id params) = (decide-Steady deps o id params s.world).mandates
  Step-Extends s t (time_passes later h) = Extends-refl s.world.mandates

  run-IsRevoked :
      (o m : String) (s t : System) → Run deps s t → IsRevoked o m s.world → IsRevoked o m t.world
  run-IsRevoked o m s t here i = i
  run-IsRevoked o m s t (next u v run step) i =
      extends-IsRevoked o m u.world v.world (Step-Extends u v step) (run-IsRevoked o m s u run i)

  -- What a request gets that is not a replay.
  abbrev pub IsDenied : GateOutcome → World → World → Type 0
  IsDenied outcome w v =
      (outcome.decision.body.decision ≡ GateVerdict.deny)
      × (outcome.authorization ≡ none)
      × (v.spend ≡ w.spend)

  Answered-IsDenied :
      {a : Admitted} {w v : World} {r : Result Thrown GateOutcome} (outcome : GateOutcome)
      (revocation : MandateRevocation)
      → a.stored.revocation ≡ some revocation
      → Answered deps a w r v
      → r ≡ ok outcome
      → outcome.replayed ≡ false
      → IsDenied outcome w v
  Answered-IsDenied outcome revocation e (reused _ _ _) h n = absurd (ground arith)
  Answered-IsDenied outcome revocation e (again existing _ _) h n =
      absurd (ground (arith, n, ap (λ x. x.replayed) (ok-injective h)))
  Answered-IsDenied {a = a} outcome revocation e (anew r v _ fresh) h n =
      Fresh-denied deps a outcome revocation e fresh h

  -- Once a mandate is revoked, whatever happens then, a request that comes in under it and is not a
  -- replay is denied: it gets no authorization and holds no budget.
  pub revoked-IsDenied :
      (o : String) (request : SignedAgentGateRequest) (s t : System) (a : Admitted) (w : World)
      (outcome : GateOutcome)
      → IsRevoked o request.mandate_id s.world
      → Run deps s t
      → (admit deps o request t.world).0 ≡ ok a
      → (answer_request deps a w).0 ≡ ok outcome
      → outcome.replayed ≡ false
      → IsDenied outcome w (answer_request deps a w).1
  revoked-IsDenied o request s t a w outcome i run h k n =
      let i' = run-IsRevoked o request.mandate_id s t run i in
      let (_, _, found) = admit-found deps o request t.world a h in
      Answered-IsDenied outcome i'.revocation
        (ap (λ y. y.revocation) (some-injective (sym found ∙ i'.found)) ∙ i'.revoked)
        (answer-Answered deps a w) k n
