-- ===== src/Mandate/Service/Assess.antt =====
-- packages/mandate/src/service/gate-service.ts: the two passes over the rules in `evaluateFresh`, with
-- the approval and the spend read from the stores, and the revocation and the simulation from the chain.
use atlas_rail.Common.{
  ℕ, ◌+◌, ◌-◌, String, Bool, false, not, ◌&&◌, Option, none, some, leb, ◌==◌, string_eq,
  if◌then◌else◌, Result, ok, err,
}
use atlas_rail.Mandate.Types.{AgentMandate, shaped}
use atlas_rail.Mandate.Records.{
  ApprovalStatus, approval_status_eq, GateApproval, GateSimulation, GateVerdict, verdict_eq,
  GateContext, GateResult, Revocation, SpendTotals,
}
use atlas_rail.Mandate.Documents.{Platform, SignedAgentGateRequest}
use atlas_rail.Mandate.Gate.Evaluate.{ContextError, evaluate_gate}
use atlas_rail.Mandate.Decision.Record.{truthy}
use atlas_rail.Mandate.Service.Ports.{MandateRecord, MandateRevocation, ApprovalRecord, Thrown}
use atlas_rail.Mandate.Service.World.{World, Deps, Action, pure, throw, read, or_throw, ◌>>=◌}
use atlas_rail.Mandate.Service.Store.Mandates.{}
use atlas_rail.Mandate.Service.Store.Decisions.{}
use atlas_rail.Mandate.Service.Store.Spend.{totals}
use atlas_rail.Mandate.Service.Store.Approvals.{get_approval}

-- A request that passed the checks before the lock, with what `evaluate` holds on to.
pub record Admitted : Type 0 where
  pub organization_id : String
  pub stored : MandateRecord
  pub request : SignedAgentGateRequest
  pub request_hash : String
  pub now : ℕ

-- `Math.abs(a - b)`
abbrev pub distance : ℕ → ℕ → ℕ
distance a b = (a - b) + (b - a)

-- `id ? … get(organizationId, id) : null`
abbrev pub approval_for : String → Option String → World → Option ApprovalRecord
approval_for organization_id id w = elim (truthy id) [
  | none ↦ none
  | some approval_id ↦ get_approval organization_id approval_id w
]

abbrev pub current_status : ℕ → ApprovalRecord → ApprovalStatus
current_status now a =
    if a.status == ApprovalStatus.pending && leb a.expires_at now
    then ApprovalStatus.expired
    else a.status

unfoldable pub to_gate_approval : Option ApprovalRecord → MandateRecord → ℕ → Option GateApproval
to_gate_approval none r now = none
to_gate_approval (some a) r now =
    if not (a.mandate_id == r.mandate.id)
    then none
    else some (record {
      id = a.id;
      offer_hash = a.offer_hash;
      status = current_status now a;
      expires_at = a.expires_at;
      approver = a.decided_by;
      terms = none;
      owner_signature = none;
    })

abbrev pub local_revocation : Option MandateRevocation → Option Revocation
local_revocation none = none
local_revocation (some r) = some (record { revoked_at = r.revoked_at; reason = r.reason })

-- The revocation read on the chain, only where there is no local one.
abbrev pub chain_revocation : Deps → ℕ → String → Option Revocation → Option Revocation
chain_revocation deps clock mandate_hash (some r) = none
chain_revocation deps clock mandate_hash none = elim deps.onchain_revocation_check [
  | none ↦ none
  | some check ↦ check clock mandate_hash
]

-- `localRevoked ?? chainRevoked`
abbrev pub first_given : Option Revocation → Option Revocation → Option Revocation
first_given none later = later
first_given (some r) later = some r

-- The simulation of the transaction, where there is one and the rules do not deny without it.
unfoldable pub speculative_simulation :
    Deps → ℕ → Admitted → GateVerdict → Action (Option GateSimulation)
speculative_simulation deps clock a verdict = elim (truthy a.request.transaction) [
  | none ↦ pure none
  | some transaction ↦ elim deps.simulator [
    | none ↦ pure none
    | some simulate ↦
        if verdict == GateVerdict.deny
        then pure none
        else or_throw
            (elim (simulate clock (record {
              transaction = transaction;
              offer = a.request.offer;
              payer = a.stored.mandate.agent.public_key;
            })) [ none ↦ none | some s ↦ some (some s) ])
            Thrown.simulator_failed
  ]
]

-- `revoked ? null : speculativeSimulation`
abbrev pub unless_revoked : Option Revocation → Option GateSimulation → Option GateSimulation
unless_revoked none s = s
unless_revoked (some r) s = none

-- What the two passes over the rules end with.
pub record Assessment : Type 0 where
  pub context : GateContext
  pub result : GateResult

-- A result of the gate, whose error is thrown on.
abbrev pub from_gate : Result ContextError GateResult → Action GateResult
from_gate (ok r) = pure r
from_gate (err e) = throw (Thrown.gate_threw e)

module _ ⦃env : Platform⦄ (deps : Deps) where
  abbrev pub gate : AgentMandate → Admitted → GateContext → Action GateResult
  gate mandate a c = from_gate (evaluate_gate (shaped mandate) (shaped a.request.offer) c)

  abbrev pub context_with :
      Admitted
      → SpendTotals
      → Option GateApproval
      → Option Revocation
      → Option GateSimulation
      → Bool
      → GateContext
  context_with a spend approval revoked simulation require_simulation = record {
    now = a.now;
    revoked = revoked;
    channel_payer = none;
    spend = spend;
    simulation = simulation;
    require_simulation = require_simulation;
    approval = approval;
    review = none;
  }

  -- The answer of the gate that is recorded, with the context it was given on.
  unfoldable pub judge : Admitted → GateContext → Action Assessment
  judge a context = do
    result ← gate a.stored.mandate a context
    pure (record { context = context; result = result })

  -- Pass 2, with the revocation and the simulation that the chain gives.
  unfoldable pub second_pass :
      Admitted → SpendTotals → Option GateApproval → ℕ → GateVerdict → Action Assessment
  second_pass a spend approval clock verdict = do
    let local_revoked = local_revocation a.stored.revocation
    let chain_revoked = chain_revocation deps clock a.stored.mandate_hash local_revoked
    speculative ← speculative_simulation deps clock a verdict
    let revoked = first_given local_revoked chain_revoked
    judge a (
        context_with a spend approval revoked (unless_revoked revoked speculative)
          deps.require_simulation)

  -- `evaluateFresh`, up to the recorded answer of the gate.
  unfoldable pub assess : Admitted → Action Assessment
  assess a = do
    let mandate = a.stored.mandate
    given ← read (approval_for a.organization_id a.request.approval_id)
    let approval = to_gate_approval given a.stored a.now
    spend ← read (totals mandate.id a.now mandate.scope.limits.window_seconds)
    clock ← read (λ w. w.clock)
    prelim ←
        gate mandate a
          (context_with a spend approval (local_revocation a.stored.revocation) none false)
    second_pass a spend approval clock prelim.decision
