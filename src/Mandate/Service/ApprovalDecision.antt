-- ===== src/Mandate/Service/ApprovalDecision.antt =====
-- packages/mandate/src/service/lifecycle.ts: `decideApproval`.
use atlas_rail.Common.{
  ℕ, String, Bool, not, ◌&&◌, Option, some, [], ◌∷◌, contains, leb, ◌==◌, string_eq, if◌then◌else◌,
}
use atlas_rail.Mandate.Types.{role_eq}
use atlas_rail.Mandate.Schema.{}
use atlas_rail.Mandate.Records.{ApprovalStatus, approval_status_eq, Approver}
use atlas_rail.Mandate.Documents.{}
use atlas_rail.Mandate.Crypto.{}
use atlas_rail.Mandate.Chain.Roles.{}
use atlas_rail.Mandate.Chain.Verify.{}
use atlas_rail.Mandate.Service.Ports.{
  mandate_status_eq, ApprovalRecord, AuditAction, AgentEvent, Thrown,
}
use atlas_rail.Mandate.Service.World.{
  Deps, Action, pure, throw, read, or_throw, guard, ◌>>=◌, ◌>>◌, emit,
}
use atlas_rail.Mandate.Service.Store.Mandates.{}
use atlas_rail.Mandate.Service.Store.Approvals.{get_approval, update_approval}
use atlas_rail.Mandate.Service.Audit.{audit}

pub record DecisionParams : Type 0 where
  pub approve : Bool
  pub approver : Approver
  pub comment : Option String

abbrev pub decided : ApprovalRecord → DecisionParams → ℕ → ApprovalRecord
decided a params now = record a {
  status = if params.approve then ApprovalStatus.approved else ApprovalStatus.denied;
  decided_at = some now;
  decided_by = some params.approver;
  comment = params.comment;
}

-- The record is marked as expired before the throw.
abbrev pub demand_unexpired : ApprovalRecord → ℕ → Action (Unit {0})
demand_unexpired a now =
    if a.status == ApprovalStatus.pending && leb a.expires_at now
    then update_approval (record a { status = ApprovalStatus.expired })
      >> throw Thrown.approval_has_expired
    else pure tt

unfoldable pub decide_approval : Deps → String → String → DecisionParams → Action ApprovalRecord
decide_approval deps organization_id approval_id params = do
  found ← read (get_approval organization_id approval_id)
  a ← or_throw found Thrown.not_found
  now ← read (λ w. w.clock)
  demand_unexpired a now
  guard (not (a.status == ApprovalStatus.pending)) (Thrown.approval_is a.status)
  guard (not (contains params.approver.role a.required_roles))
      (Thrown.role_may_not_decide params.approver.role)
  let next = decided a params now
  update_approval next
  audit organization_id (some params.approver.user_id)
      (AuditAction.approval_decided params.approve approval_id a.decision_id a.offer_hash
        params.comment)
      a.mandate_id
  emit deps (AgentEvent.approval_decided approval_id a.mandate_id params.approve ∷ [])
  pure next
