-- ===== src/Mandate/Service/Store/Approvals.antt =====
-- packages/mandate/src/service/memory.ts: InMemoryApprovalStore and
-- InMemoryAuditSink.
use atlas_rail.Common.{
  String, Bool, false, ◌&&◌, Option, none, some, [], ◌∷◌, ◌++◌, find, ◌==◌, string_eq,
  if◌then◌else◌, ok,
}
use atlas_rail.Mandate.Records.{ApprovalStatus, approval_status_eq}
use atlas_rail.Mandate.Service.Ports.{ApprovalRecord, AuditEntry}
use atlas_rail.Mandate.Service.World.{World, Action, write}
use atlas_rail.Mandate.Service.Store.Table.{put, change_first}

abbrev pub set_approval : ApprovalRecord → World → World
set_approval a w = record w { approvals = put (λ b. b.id == a.id) a w.approvals }

abbrev pub create_approval : ApprovalRecord → Action (Unit {0})
create_approval a = write (set_approval a)

-- Ids are the keys of the map; the organization is tested afterwards.
abbrev owned : String → Option ApprovalRecord → Option ApprovalRecord
owned organization_id none = none
owned organization_id (some a) = if a.organization_id == organization_id then some a else none

unfoldable pub row : String → World → Option ApprovalRecord
row approval_id w = find (λ a. a.id == approval_id) w.approvals

abbrev pub get_approval : String → String → World → Option ApprovalRecord
get_approval organization_id approval_id w = owned organization_id (row approval_id w)

abbrev pub update_approval : ApprovalRecord → Action (Unit {0})
update_approval a = write (set_approval a)

unfoldable pub consumable : String → Option ApprovalRecord → Bool
consumable organization_id none = false
consumable organization_id (some a) =
    a.organization_id == organization_id && a.status == ApprovalStatus.approved

abbrev pub mark_consumed : ApprovalRecord → ApprovalRecord
mark_consumed a = record a { status = ApprovalStatus.consumed }

unfoldable pub consume : String → String → Action Bool
consume organization_id approval_id w =
    let allowed = consumable organization_id (row approval_id w) in
    (
      ok allowed,
      if allowed
          then record w {
            approvals = change_first (λ a. a.id == approval_id) mark_consumed w.approvals;
          }
          else w,
    )

abbrev pub append_audit : AuditEntry → Action (Unit {0})
append_audit entry = write (λ w. record w { audit = w.audit ++ entry ∷ [] })
