-- ===== src/Mandate/Service/System.antt =====
-- The services of packages/mandate/src/service as a system of steps. A request waits between the
-- checks before the lock and the part that runs with the lock held; every part is one step, and any
-- operation may come between.
use atlas_rail.Common.{ℕ, ◌≤◌, String, Option, List, [], ◌∷◌, ok, ◌≡◌, Member}
use atlas_rail.Mandate.Types.{DelegationLink}
use atlas_rail.Mandate.Documents.{Platform, SignedAgentGateRequest}
use atlas_rail.Mandate.Service.World.{World, Deps}
use atlas_rail.Mandate.Service.Assess.{Admitted}
use atlas_rail.Mandate.Service.Evaluate.{admit, answer_request}
use atlas_rail.Mandate.Service.Resolve.{resolve_spend}
use atlas_rail.Mandate.Service.Draft.{CreateDraftInput, create_draft}
use atlas_rail.Mandate.Service.Lifecycle.{SignParams, sign, attach_agent_link, revoke}
use atlas_rail.Mandate.Service.ApprovalDecision.{DecisionParams, decide_approval}

-- The stores, and the requests that passed the checks before the lock.
pub record System : Type 0 where
  pub world : World
  pub waiting : List Admitted

abbrev pub at_world : System → World → System
at_world s w = record { world = w; waiting = s.waiting }

module _ ⦃env : Platform⦄ (deps : Deps) where
  pub data Step (s : System) : System → Type 0 where
    arrives :
        (organization_id : String) (request : SignedAgentGateRequest) (a : Admitted)
        → (admit deps organization_id request s.world).0 ≡ ok a
        → Step s (record { world = s.world; waiting = a ∷ s.waiting })
    is_answered :
        (a : Admitted) → Member a s.waiting → Step s (at_world s (answer_request deps a s.world).1)
    resolves :
        (organization_id decision_id transaction : String)
        → Step s (at_world s (resolve_spend deps organization_id decision_id transaction s.world).1)
    drafts :
        (organization_id : String) (created_by : Option String) (input : CreateDraftInput)
        → Step s (at_world s (create_draft deps organization_id created_by input s.world).1)
    signs :
        (organization_id mandate_id : String) (params : SignParams)
        → Step s (at_world s (sign deps organization_id mandate_id params s.world).1)
    accepts :
        (organization_id mandate_id : String) (link : DelegationLink)
        → Step s (at_world s (attach_agent_link deps organization_id mandate_id link s.world).1)
    revokes :
        (organization_id mandate_id : String) (user_id reason : Option String)
        → Step s (at_world s (revoke deps organization_id mandate_id user_id reason s.world).1)
    decides :
        (organization_id approval_id : String) (params : DecisionParams)
        → Step s (at_world s (decide_approval deps organization_id approval_id params s.world).1)
    time_passes :
        (later : ℕ) → s.world.clock ≤ later → Step s (at_world s (record s.world { clock = later }))

  -- The systems that steps lead to.
  pub data Run (start : System) : System → Type 0 where
    here : Run start start
    next : (s t : System) → Run start s → Step s t → Run start t

-- Nothing is spent yet, and no request waits.
pub record IsStart (s : System) : Type 0 where
  pub unspent : s.world.spend ≡ []
  pub idle : s.waiting ≡ []
