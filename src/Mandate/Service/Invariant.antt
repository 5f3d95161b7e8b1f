-- ===== src/Mandate/Service/Invariant.antt =====
-- No run of the services spends more than the mandates allow (packages/mandate/src/service).
use mathlib.Core.Path.{subst}
use atlas_rail.Common.{
  String, some, find, string_eq, Option-cases, inl, inr, ◌≡◌, refl, sym, ◌∙◌, ap, arith, ok, Member,
}
use atlas_rail.Mandate.Documents.{Platform, SignedAgentGateRequest}
use atlas_rail.Mandate.Service.Ports.{spend_status_eq}
use atlas_rail.Mandate.Service.World.{World, Deps}
use atlas_rail.Mandate.Service.Store.Table.{}
use atlas_rail.Mandate.Service.Store.Mandates.{keyed, get_mandate}
use atlas_rail.Mandate.Service.Store.Decisions.{}
use atlas_rail.Mandate.Service.Store.Spend.{}
use atlas_rail.Mandate.Service.Assess.{Admitted}
use atlas_rail.Mandate.Service.Evaluate.{admit}
use atlas_rail.Mandate.Service.Resolve.{}
use atlas_rail.Mandate.Service.Same.{}
use atlas_rail.Mandate.Service.Assessed.{}
use atlas_rail.Mandate.Service.Carried.{}
use atlas_rail.Mandate.Service.Answered.{answer-Answered}
use atlas_rail.Mandate.Service.Limits.{Within, IsStored}
use atlas_rail.Mandate.Service.Extends.{find-holds, Extends, Extends-refl}
use atlas_rail.Mandate.Service.Steady.{
  Steady, draft-Steady, sign-Steady, attach-Steady, revoke-Steady, decide-Steady,
}
use atlas_rail.Mandate.Service.System.{
  System, Step, Run, IsStart, at_world, arrives, is_answered, resolves, drafts, signs, accepts,
  revokes, decides, time_passes, here, next,
}
use atlas_rail.Mandate.Service.Spending.{Kept, Answered-Kept, extends-IsStored, Steady-Kept}
use atlas_rail.Mandate.Service.Settling.{IsFinal, resolve-Kept}

-- The limits are kept, and the mandates of the waiting requests are stored.
pub record IsGood (s : System) : Type 0 where
  pub kept : Kept s.world
  pub stored : (a : Admitted) → Member a s.waiting → IsStored s.world.mandates a

start-IsGood : (s : System) → IsStart s → IsGood s
start-IsGood s i = record {
  kept =
      subst (Within s.world.mandates) (sym i.unspent)
        (record { total = λ o m. omega arith; window = λ o m since. omega arith });
  stored = λ a m. absurd (subst (Member a) i.idle m);
}

-- A step that keeps the signed content of the mandates keeps the waiting requests in order.
Extends-IsGood :
    (s : System) (v : World)
    → Extends s.world.mandates v.mandates
    → Kept v
    → IsGood s
    → IsGood (at_world s v)
Extends-IsGood s v x k good = record {
  kept = k;
  stored = λ a m. extends-IsStored s.world.mandates v.mandates a x (good.stored a m);
}

same-IsGood :
    (s : System) (v : World)
    → Kept v × (v.mandates ≡ s.world.mandates)
    → IsGood s
    → IsGood (at_world s v)
same-IsGood s v (k, e) good =
    Extends-IsGood s v (subst (Extends s.world.mandates) (sym e) (Extends-refl s.world.mandates)) k
      good

Steady-IsGood : (s : System) (v : World) → Steady s.world v → IsGood s → IsGood (at_world s v)
Steady-IsGood s v steady good =
    Extends-IsGood s v steady.mandates (Steady-Kept s.world v steady good.kept) good

module _ ⦃env : Platform⦄ (deps : Deps) where
  -- A request that is let in has the stored mandate of its organization.
  pub admit-found :
      (o : String) (request : SignedAgentGateRequest) (w : World) (a : Admitted)
      → (admit deps o request w).0 ≡ ok a
      → (a.organization_id ≡ o)
        × (a.request ≡ request)
        × (get_mandate o request.mandate_id w ≡ some a.stored)
  unfolding admit
  admit-found o request w a h = elim (Option-cases (get_mandate o request.mandate_id w)) [
    | inl e ↦ absurd (ground arith)
    | inr (r, e) ↦ ground arith
  ]

  admit-IsStored :
      (o : String) (request : SignedAgentGateRequest) (w : World) (a : Admitted)
      → (admit deps o request w).0 ≡ ok a
      → IsStored w.mandates a
  unfolding get_mandate
  admit-IsStored o request w a h =
      let (same_o, same_request, found) = admit-found o request w a h in
      let holds = find-holds (keyed o request.mandate_id) w.mandates a.stored found in
      let id = (string_eq.beq_iff a.stored.mandate.id request.mandate_id).0 (ground arith) in
      record {
        stored = a.stored;
        found =
            ap (λ x. find (keyed x a.stored.mandate.id) w.mandates) same_o
            ∙ ap (λ x. find (keyed o x) w.mandates) id
            ∙ found;
        same_body = refl;
        same_id = ap (λ x. x.mandate_id) same_request ∙ sym id;
      }

  Step-IsGood : (s t : System) → IsFinal deps s.world → Step deps s t → IsGood s → IsGood t
  Step-IsGood s t final (arrives o request a h) good = record {
    kept = good.kept;
    stored = λ b m. elim m [
      | inl e ↦ subst (IsStored s.world.mandates) e (admit-IsStored o request s.world a h)
      | inr later ↦ good.stored b later
    ];
  }
  Step-IsGood s t final (is_answered a m) good =
      same-IsGood s _
        (Answered-Kept deps a s.world (good.stored a m) good.kept (answer-Answered deps a s.world))
        good
  Step-IsGood s t final (resolves o id transaction) good =
      same-IsGood s _ (resolve-Kept deps o id transaction s.world final good.kept) good
  Step-IsGood s t final (drafts o by input) good =
      Steady-IsGood s _ (draft-Steady deps o by input s.world) good
  Step-IsGood s t final (signs o m params) good =
      Steady-IsGood s _ (sign-Steady deps o m params s.world) good
  Step-IsGood s t final (accepts o m link) good =
      Steady-IsGood s _ (attach-Steady deps o m link s.world) good
  Step-IsGood s t final (revokes o m user reason) good =
      Steady-IsGood s _ (revoke-Steady deps o m user reason s.world) good
  Step-IsGood s t final (decides o id params) good =
      Steady-IsGood s _ (decide-Steady deps o id params s.world) good
  Step-IsGood s t final (time_passes later h) good = same-IsGood s _ (good.kept, refl) good

  run-IsGood :
      (start s : System)
      → IsStart start
      → ((t : System) → Run deps start t → IsFinal deps t.world)
      → Run deps start s
      → IsGood s
  run-IsGood start s i final here = start-IsGood start i
  run-IsGood start s i final (next t u run step) =
      Step-IsGood t u (final t run) step (run-IsGood start t i final run)

  -- However requests, resolutions, signatures, approvals and revocations come in, no more is ever
  -- spent under a mandate than its total, and in no time window of the mandate's length more than its
  -- window limit without a human, if nothing is spent at the start and the chain never reports a
  -- payment as landed whose hold was released.
  pub run-Within :
      (start s : System)
      → IsStart start
      → ((t : System) → Run deps start t → IsFinal deps t.world)
      → Run deps start s
      → Within s.world.mandates s.world.spend
  run-Within start s i final run = (run-IsGood start s i final run).kept
