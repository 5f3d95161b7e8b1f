-- ===== src/Mandate/Service/Assessed.antt =====
-- What `assess` reads and answers (packages/mandate/src/service/gate-service.ts, `evaluateFresh`).
use mathlib.Core.Path.{subst}
use atlas_rail.Common.{
  String, ap, ◌∙◌, ℕ, false, Bool-cases, Option-cases, Result-cases, inl, inr, arith, Option, none,
  some, ok, err, ◌==◌, Result, ◌≡◌, ◌⊎◌, refl, sym,
}
use atlas_rail.Mandate.Types.{shaped}
use atlas_rail.Mandate.Records.{GateVerdict, GateContext, GateSimulation, Revocation, verdict_eq}
use atlas_rail.Mandate.Documents.{Platform}
use atlas_rail.Mandate.Gate.Evaluate.{evaluate_gate}
use atlas_rail.Mandate.Decision.Record.{truthy}
use atlas_rail.Mandate.Service.Ports.{Thrown}
use atlas_rail.Mandate.Service.World.{World, Deps, SimulationInput, Action, or_throw, ◌>>=◌}
use atlas_rail.Mandate.Service.Store.Spend.{totals}
use atlas_rail.Mandate.Service.Assess.{
  Admitted, Assessment, approval_for, to_gate_approval, local_revocation, chain_revocation,
  speculative_simulation, first_given, context_with, unless_revoked, judge, second_pass, assess,
}

-- The outcomes of a step that only reads.
abbrev pub ReadsOnly : {A : Type 0} → Action A → World → Type 0
ReadsOnly {A} m w = ((a : A) × (m w ≡ (ok a, w))) ⊎ ((e : Thrown) × (m w ≡ (err e, w)))

pub or_throw-ReadsOnly :
    {A : Type 0} (o : Option A) (e : Thrown) (w : World) → ReadsOnly (or_throw o e) w
or_throw-ReadsOnly none e w = inr (e, refl)
or_throw-ReadsOnly (some a) e w = inl (a, refl)

speculative-ReadsOnly :
    (deps : Deps) (clock : ℕ) (a : Admitted) (verdict : GateVerdict) (w : World)
    → ReadsOnly (speculative_simulation deps clock a verdict) w
unfolding speculative_simulation
speculative-ReadsOnly deps clock a verdict w = elim (Option-cases (truthy a.request.transaction)) [
  | inl e ↦ rw (e, speculative_simulation) (inl (none, refl))
  | inr (t, e) ↦ elim (Option-cases deps.simulator) [
    | inl f ↦ rw (e, f, speculative_simulation) (inl (none, refl))
    | inr (simulate, f) ↦ elim (Bool-cases (verdict == GateVerdict.deny)) [
      | inl g ↦ rw (e, f, g, speculative_simulation) (inl (none, refl))
      | inr g ↦ rw (e, f, g, speculative_simulation) (or_throw-ReadsOnly _ _ w)
    ]
  ]
]

-- The rule of a step that only reads: what follows it runs in the same world.
pub >>=-reading :
    {A B : Type 0} (Q : Result Thrown B × World → Type 0) (m : Action A) (f : A → Action B)
    (w : World)
    → ReadsOnly m w
    → ((e : Thrown) → Q (err e, w))
    → ((a : A) → m w ≡ (ok a, w) → Q (f a w))
    → Q ((m >>= f) w)
>>=-reading Q m f w (inl (a, h)) on_err on_ok =
    subst (λ p. Q (let (r, v) = p in elim r [ ok a ↦ f a v | err e ↦ (err e, v) ])) (sym h)
      (on_ok a h)
>>=-reading Q m f w (inr (e, h)) on_err on_ok =
    subst (λ p. Q (let (r, v) = p in elim r [ ok a ↦ f a v | err e ↦ (err e, v) ])) (sym h)
      (on_err e)

pub ok-injective : {A : Type 0} {a b : A} → ◌≡◌ {A = Result Thrown A} (ok a) (ok b) → a ≡ b
ok-injective h = ground arith

-- What the simulator says of the transaction of the request.
pub record Simulated (deps : Deps) (a : Admitted) (w : World) (x : GateSimulation) : Type 0 where
  pub transaction : String
  pub simulate : ℕ → SimulationInput → Option GateSimulation
  pub present : truthy a.request.transaction ≡ some transaction
  pub simulator : deps.simulator ≡ some simulate
  pub answer :
      simulate w.clock (record {
        transaction = transaction;
        offer = a.request.offer;
        payer = a.stored.mandate.agent.public_key;
      })
      ≡ some x

simulated-Simulated :
    (deps : Deps) (a : Admitted) (verdict : GateVerdict) (w : World) (x : GateSimulation)
    → speculative_simulation deps w.clock a verdict w ≡ (ok (some x), w)
    → Simulated deps a w x
unfolding speculative_simulation
simulated-Simulated deps a verdict w x h = elim (Option-cases (truthy a.request.transaction)) [
  | inl e ↦ absurd (ground (arith, e))
  | inr (t, e) ↦ elim (Option-cases deps.simulator) [
    | inl f ↦ absurd (ground (arith, e, f))
    | inr (simulate, f) ↦ record {
      transaction = t;
      simulate = simulate;
      present = e;
      simulator = f;
      answer = ground (arith, e, f);
    }
  ]
]

-- A context made of what the stores and the chain hold when the request is answered.
pub record Given (deps : Deps) (a : Admitted) (w : World) (c : GateContext) : Type 0 where
  pub time : c.now ≡ a.now
  pub spend :
      c.spend ≡ totals a.stored.mandate.id a.now a.stored.mandate.scope.limits.window_seconds w
  pub approval :
      c.approval
      ≡ to_gate_approval (approval_for a.organization_id a.request.approval_id w) a.stored a.now
  pub requirement : c.require_simulation ≡ deps.require_simulation
  pub payer : c.channel_payer ≡ none
  pub revoked :
      c.revoked
      ≡ first_given (local_revocation a.stored.revocation) (
          chain_revocation deps w.clock a.stored.mandate_hash
            (local_revocation a.stored.revocation))
  pub simulation : (x : GateSimulation) → c.simulation ≡ some x → Simulated deps a w x

unrevoked-same :
    (r : Option Revocation) (o : Option GateSimulation) (x : GateSimulation)
    → unless_revoked r o ≡ some x
    → o ≡ some x
unrevoked-same none o x h = h
unrevoked-same (some r) o x h = absurd (ground arith)

module _ ⦃env : Platform⦄ (deps : Deps) where
  -- The recorded answer is the gate's on the spend of the stores at the time of the request, with the
  -- approval as it is in the stores, with the revocation of the record or, without one, of the chain,
  -- and with no simulation but that of the request's transaction.
  pub record Assessed (a : Admitted) (w : World) (s : Assessment) : Type 0 where
    pub answered :
        evaluate_gate (shaped a.stored.mandate) (shaped a.request.offer) s.context ≡ ok s.result
    pub given : Given deps a w s.context

  abbrev IsExpected : Admitted → World → Result Thrown Assessment × World → Type 0
  IsExpected a w r = (r.1 ≡ w) × ((s : Assessment) → r.0 ≡ ok s → Assessed a w s)

  threw : (a : Admitted) (w : World) (e : Thrown) → IsExpected a w (err e, w)
  threw a w e = (refl, λ s h. absurd (ground (arith, h)))

  judge-Assessed :
      (a : Admitted) (w : World) (c : GateContext)
      → Given deps a w c
      → IsExpected a w (judge deps a c w)
  unfolding judge
  judge-Assessed a w c given =
      elim (Result-cases (evaluate_gate (shaped a.stored.mandate) (shaped a.request.offer) c)) [
        | inr (thrown, e) ↦ rw e (threw a w _)
        | inl (result, e) ↦ rw e (
          refl,
          λ s h. subst (Assessed a w) (ok-injective h) (record { answered = e; given = given }),
        )
      ]

  second-Assessed :
      (a : Admitted) (w : World) (verdict : GateVerdict)
      → IsExpected a w (
          second_pass deps a
            (totals a.stored.mandate.id a.now a.stored.mandate.scope.limits.window_seconds w)
            (to_gate_approval
              (approval_for a.organization_id a.request.approval_id w)
              a.stored
              a.now)
            w.clock
            verdict
            w)
  unfolding second_pass
  second-Assessed a w verdict =
      let local_revoked = local_revocation a.stored.revocation in
      let revoked =
        first_given local_revoked
          (chain_revocation deps w.clock a.stored.mandate_hash local_revoked) in
      >>=-reading (IsExpected a w) (speculative_simulation deps w.clock a verdict)
        (λ simulation. judge deps a (
          context_with deps a
            (totals a.stored.mandate.id a.now a.stored.mandate.scope.limits.window_seconds w)
            (to_gate_approval (approval_for a.organization_id a.request.approval_id w) a.stored
              a.now)
            revoked (unless_revoked revoked simulation) deps.require_simulation))
        w (speculative-ReadsOnly deps w.clock a verdict w) (threw a w)
        (λ simulation h. judge-Assessed a w _ (record {
          time = refl;
          spend = refl;
          approval = refl;
          requirement = refl;
          payer = refl;
          revoked = refl;
          simulation = λ x e.
              simulated-Simulated deps a verdict w x
                (h ∙ ap (λ y. (ok y, w)) (unrevoked-same revoked simulation x e));
        }))

  pub assess-Assessed : (a : Admitted) (w : World) → IsExpected a w (assess deps a w)
  unfolding assess
  assess-Assessed a w =
      let mandate = a.stored.mandate in
      let spend = totals mandate.id a.now mandate.scope.limits.window_seconds w in
      let approval =
        to_gate_approval (approval_for a.organization_id a.request.approval_id w) a.stored a.now in
      let first =
        context_with deps a spend approval (local_revocation a.stored.revocation) none false in
      elim (Result-cases (evaluate_gate (shaped mandate) (shaped a.request.offer) first)) [
        | inr (thrown, e) ↦ rw e (threw a w _)
        | inl (prelim, e) ↦ rw e (second-Assessed a w prelim.decision)
      ]
