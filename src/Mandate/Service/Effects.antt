-- ===== src/Mandate/Service/Effects.antt =====
-- What answering a request does to the stores (packages/mandate/src/service/gate-service.ts,
-- `evaluateFresh`), on every path through the code, throws included.
use mathlib.Core.Path.{}
use atlas_rail.Common.{
  string_eq, String, true, inl, inr, arith, Option, none, some, [], ◌∷◌, ◌++◌, ok, err, ◌==◌,
  Result, ◌≡◌, ◌⊎◌, ◌∙◌,
}
use atlas_rail.Mandate.Records.{GateResult}
use atlas_rail.Mandate.Documents.{Platform, SignedDecision, GateAuthorization}
use atlas_rail.Mandate.Service.Ports.{StoredDecision, ApprovalRecord, Thrown}
use atlas_rail.Mandate.Service.World.{World, Deps}
use atlas_rail.Mandate.Service.Store.Table.{change_first}
use atlas_rail.Mandate.Service.Store.Decisions.{}
use atlas_rail.Mandate.Service.Store.Approvals.{row, consumable, mark_consumed, consume}
use atlas_rail.Mandate.Service.Assess.{Admitted}
use atlas_rail.Mandate.Service.Branches.{hold_spend, spend_entry, spent_approval, consume_given}
use atlas_rail.Mandate.Service.Evaluate.{GateOutcome, stored_decision, fresh_outcome, file_decision}
use atlas_rail.Mandate.Service.Same.{}
use atlas_rail.Mandate.Service.Assessed.{}

-- The decision `d` is stored, and nothing else changes.
pub record Appended (d : StoredDecision) (w v : World) : Type 0 where
  pub mandates : v.mandates ≡ w.mandates
  pub decisions : v.decisions ≡ w.decisions ++ d ∷ []
  pub spend : v.spend ≡ w.spend
  pub approvals : v.approvals ≡ w.approvals
  pub clock : v.clock ≡ w.clock

-- A step with an effect, or a throw that leaves the world as it is.
abbrev pub Does :
    {A : Type 0} → (World → A → World → Type 0) → World → Result Thrown A × World → Type 0
Does {A} effect w r =
    ((x : A) × (r.0 ≡ ok x) × effect w x r.1) ⊎ ((e : Thrown) × (r.0 ≡ err e) × (r.1 ≡ w))

module _ ⦃env : Platform⦄ (deps : Deps) (a : Admitted) where
  -- Either the decision is stored and returned, or a throw leaves the stores as they are.
  abbrev pub Filed :
      SignedDecision
      → Option GateAuthorization × Option ApprovalRecord
      → World
      → Result Thrown GateOutcome × World
      → Type 0
  Filed signed g w r =
      ((r.0 ≡ ok (fresh_outcome a signed g)) × Appended (stored_decision a signed g.0 g.1) w r.1)
      ⊎ ((e : Thrown) × (r.0 ≡ err e) × (r.1 ≡ w))

  pub file-Filed :
      (result : GateResult) (id : String) (signed : SignedDecision)
      (g : Option GateAuthorization × Option ApprovalRecord) (w : World)
      → Filed signed g w (file_decision deps a result id signed g w)
  unfolding file_decision
  file-Filed result id signed g w = ground arith

  -- An approval that is named is used up.
  abbrev pub Consumed : Option String → World → World → Type 0
  Consumed none w v = v.approvals ≡ w.approvals
  Consumed (some id) w v =
      (consumable a.organization_id (row id w) ≡ true)
      × (v.approvals ≡ change_first (λ b. b.id == id) mark_consumed w.approvals)

  Consumed-same :
      (given : Option String) (w u v : World)
      → Consumed given w u
      → v.approvals ≡ u.approvals
      → Consumed given w v
  Consumed-same none w u v c e = e ∙ c
  Consumed-same (some id) w u v c e = (c.0, e ∙ c.1)

  consume-Consumed :
      (given : Option String) (w : World)
      → let r = consume_given a.organization_id given w in
        ((r.0 ≡ ok tt)
          × Consumed given w r.1
          × (r.1.spend ≡ w.spend)
          × (r.1.mandates ≡ w.mandates)
          × (r.1.decisions ≡ w.decisions)
          × (r.1.clock ≡ w.clock))
        ⊎ ((r.0 ≡ err Thrown.approval_already_used) × (r.1 ≡ w))
  unfolding consume
  consume-Consumed none w = ground arith
  consume-Consumed (some id) w = ground arith

  -- The budget is held for the payment, and the approval that it rests on is used up.
  pub record Held (result : GateResult) (id : String) (w v : World) : Type 0 where
    pub entry_id : String
    pub spend : v.spend ≡ w.spend ++ spend_entry a result id entry_id ∷ []
    pub approvals : Consumed (spent_approval result.kind a.request.approval_id) w v
    pub mandates : v.mandates ≡ w.mandates
    pub decisions : v.decisions ≡ w.decisions
    pub clock : v.clock ≡ w.clock

  pub hold-Held :
      (result : GateResult) (id : String) (w : World)
      → Does (λ w x v. Held result id w v) w (hold_spend deps a result id w)
  unfolding hold_spend
  hold-Held result id w =
      let given = spent_approval result.kind a.request.approval_id in
      elim (consume-Consumed given w) [
        | inr (e, s) ↦ inr (Thrown.approval_already_used, ground arith, ground arith)
        | inl (e, c, spend, mandates, decisions, clock) ↦ inl (
          tt,
          ground arith,
          record {
            entry_id = deps.new_id "spd" (consume_given a.organization_id given w).1.drawn;
            spend = ground arith;
            approvals =
                Consumed-same given w (consume_given a.organization_id given w).1 _ c
                  (ground arith);
            mandates = ground arith;
            decisions = ground arith;
            clock = ground arith;
          },
        )
      ]
