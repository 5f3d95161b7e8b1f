-- ===== src/Mandate/Service/Store/Decisions.antt =====
-- packages/mandate/src/service/memory.ts: InMemoryDecisionStore.
use atlas_rail.Common.{
  ℕ, zero, suc, String, Bool, true, false, ◌&&◌, Option, none, some, List, [], ◌∷◌, ◌++◌, any, find,
  filterb, leb, ◌==◌, string_eq,
}
use atlas_rail.Mandate.Documents.{DecisionRequest}
use atlas_rail.Mandate.Service.Ports.{StoredDecision, Thrown}
use atlas_rail.Mandate.Service.World.{World, Action, read, write, guard, ◌>>=◌, ◌>>◌}
use atlas_rail.Mandate.Service.Store.Table.{last_first, first_of}

-- `r.signed.record.request?.nonce === nonce`
abbrev pub nonce_is : Option DecisionRequest → String → Bool
nonce_is none nonce = false
nonce_is (some r) nonce = r.nonce == nonce

-- `mandateId === undefined || …`, and the like for a time.
abbrev unless_given : {A : Type 0} → Option A → (A → Bool) → Bool
unless_given none test = true
unless_given (some a) test = test a

abbrev pub identified : String → String → StoredDecision → Bool
identified organization_id decision_id d =
    d.organization_id == organization_id && d.signed.body.id == decision_id

unfoldable pub get_decision : String → String → World → Option StoredDecision
get_decision organization_id decision_id w =
    find (identified organization_id decision_id) w.decisions

abbrev pub requested : String → String → String → StoredDecision → Bool
requested organization_id mandate_id nonce d =
    d.organization_id == organization_id
    && (d.signed.body.mandate_id == mandate_id && nonce_is d.signed.body.request nonce)

unfoldable pub find_by_request : String → String → String → World → Option StoredDecision
find_by_request organization_id mandate_id nonce w =
    find (requested organization_id mandate_id nonce) w.decisions

unfoldable pub id_taken : String → World → Bool
id_taken decision_id w = any (λ d. d.signed.body.id == decision_id) w.decisions

abbrev pub insert_decision : StoredDecision → Action (Unit {0})
insert_decision d = do
  taken ← read (id_taken d.signed.body.id)
  guard taken Thrown.duplicate_decision
  write (λ w. record w { decisions = w.decisions ++ d ∷ [] })

-- The last ones of those asked for, newest first; `slice(-0)` is the whole list_decisions.
unfoldable pub list_decisions : String → ℕ → Option String → Option ℕ → World → List StoredDecision
list_decisions organization_id limit mandate_id after_created_at w =
    let newest = last_first (
      filterb
        (λ d.
          d.organization_id == organization_id
          && (unless_given mandate_id (λ id. d.signed.body.mandate_id == id)
              && unless_given after_created_at (λ t. leb t d.created_at)))
        w.decisions) in
    elim limit [ zero ↦ newest | suc n ↦ first_of (suc n) newest ]
