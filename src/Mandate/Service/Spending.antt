-- ===== src/Mandate/Service/Spending.antt =====
-- No run of the services spends more than the mandates allow (packages/mandate/src/service).
use mathlib.Core.Path.{subst}
use atlas_rail.Common.{
  String, Option, some, List, find, string_eq, ◌≡◌, refl, sym, ◌∙◌, ap, arith, Result,
}
use atlas_rail.Mandate.Documents.{Platform, SignedDecision, GateAuthorization}
use atlas_rail.Mandate.Service.Ports.{
  MandateRecord, SpendEntry, spend_status_eq, ApprovalRecord, Thrown,
}
use atlas_rail.Mandate.Service.World.{World, Deps}
use atlas_rail.Mandate.Service.Store.Table.{}
use atlas_rail.Mandate.Service.Store.Mandates.{keyed}
use atlas_rail.Mandate.Service.Store.Decisions.{}
use atlas_rail.Mandate.Service.Store.Spend.{}
use atlas_rail.Mandate.Service.Assess.{Admitted, Assessment}
use atlas_rail.Mandate.Service.Evaluate.{GateOutcome}
use atlas_rail.Mandate.Service.Resolve.{}
use atlas_rail.Mandate.Service.Same.{}
use atlas_rail.Mandate.Service.Assessed.{Assessed}
use atlas_rail.Mandate.Service.Carried.{Carried, allowed, escalated, denied}
use atlas_rail.Mandate.Service.Answered.{
  next_draw, Fresh, failed, unfiled, filed, Answered, reused, again, anew,
}
use atlas_rail.Mandate.Service.Limits.{Within, IsStored, allowed-Within}
use atlas_rail.Mandate.Service.Extends.{Extends, Successor, kept, added, replaced, Extends-Within}
use atlas_rail.Mandate.Service.Steady.{Steady}
use atlas_rail.Mandate.Service.System.{}

-- Within its limits, by the stores of a world.
abbrev pub Kept : World → Type 0
Kept w = Within w.mandates w.spend

pub same-Kept :
    {m m' : List MandateRecord} {s s' : List SpendEntry}
    → m' ≡ m
    → s' ≡ s
    → Within m s
    → Within m' s'
same-Kept {m = m} {s' = s'} e f k = subst (λ x. Within x s') (sym e) (subst (Within m) (sym f) k)

pub some-injective : {a b : MandateRecord} → some a ≡ some b → a ≡ b
some-injective h = ground arith

module _ ⦃env : Platform⦄ (deps : Deps) (a : Admitted) (w : World) (stored : IsStored w.mandates a)
    (k : Kept w) where
  carried-Kept :
      (s : Assessment) (id : String) (signed : SignedDecision)
      {granted : Option GateAuthorization × Option ApprovalRecord} {v : World}
      → Assessed deps a w s
      → Carried deps a s id signed (next_draw w) granted v
      → Kept v × (v.mandates ≡ w.mandates)
  carried-Kept s id signed assessed (allowed authorization v d granted) =
      let h = granted.hold in
      (
        same-Kept h.mandates h.spend (allowed-Within deps a s w assessed d id h.entry_id stored k),
        h.mandates,
      )
  carried-Kept s id signed assessed (escalated created v d asked) =
      (same-Kept asked.mandates asked.spend k, asked.mandates)
  carried-Kept s id signed assessed (denied d) = (k, refl)

  Fresh-Kept :
      {r : Result Thrown GateOutcome} {v : World}
      → Fresh deps a w r v
      → Kept v × (v.mandates ≡ w.mandates)
  Fresh-Kept (failed e v _ same) = (same-Kept same.mandates same.spend k, same.mandates)
  Fresh-Kept (unfiled s id signed granted v assessed _ carried _) =
      carried-Kept s id signed assessed carried
  Fresh-Kept (filed s id signed granted u v assessed _ carried appended) =
      let (kept_u, same) = carried-Kept s id signed assessed carried in
      (same-Kept appended.mandates appended.spend kept_u, appended.mandates ∙ same)

  pub Answered-Kept :
      {r : Result Thrown GateOutcome} {v : World}
      → Answered deps a w r v
      → Kept v × (v.mandates ≡ w.mandates)
  Answered-Kept (reused _ _ _) = (k, refl)
  Answered-Kept (again existing _ _) = (k, refl)
  Answered-Kept (anew r v _ fresh) = Fresh-Kept fresh

pub extends-IsStored :
    (before after : List MandateRecord) (a : Admitted)
    → Extends before after
    → IsStored before a
    → IsStored after a
extends-IsStored before after a x i = helper (x a.organization_id a.stored.mandate.id)
  where
    helper :
        Successor
          (find (keyed a.organization_id a.stored.mandate.id) before)
          (find (keyed a.organization_id a.stored.mandate.id) after)
        → IsStored after a
    helper (kept e) = record {
      stored = i.stored;
      found = e ∙ i.found;
      same_body = i.same_body;
      same_id = i.same_id;
    }
    helper (added e) = absurd (ground (arith, i.found))
    helper (replaced r s e f g _) = record {
      stored = s;
      found = f;
      same_body = g ∙ ap (λ x. x.mandate.body) (some-injective (sym e ∙ i.found)) ∙ i.same_body;
      same_id = i.same_id;
    }

pub Steady-Kept : (w v : World) → Steady w v → Kept w → Kept v
Steady-Kept w v s k =
    subst (Within v.mandates) (sym s.spend)
      (Extends-Within w.spend w.mandates v.mandates s.mandates k)
