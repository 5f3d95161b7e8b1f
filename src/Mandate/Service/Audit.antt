-- ===== src/Mandate/Service/Audit.antt =====
-- packages/mandate/src/service/lifecycle.ts: the status of a mandate as it is shown, and `audit`.
use atlas_rail.Common.{
  ℕ, String, Option, none, some, is_some, ltb, leb, ◌==◌, string_eq, if◌then◌else◌,
}
use atlas_rail.Mandate.Types.{role_eq}
use atlas_rail.Mandate.Schema.{}
use atlas_rail.Mandate.Records.{approval_status_eq}
use atlas_rail.Mandate.Documents.{}
use atlas_rail.Mandate.Crypto.{}
use atlas_rail.Mandate.Chain.Roles.{}
use atlas_rail.Mandate.Chain.Verify.{}
use atlas_rail.Mandate.Service.Ports.{
  MandateStatus, mandate_status_eq, MandateRecord, AuditAction, ActorType,
}
use atlas_rail.Mandate.Service.World.{Action, read, ◌>>=◌}
use atlas_rail.Mandate.Service.Store.Mandates.{}
use atlas_rail.Mandate.Service.Store.Approvals.{append_audit}

pub data EffectiveMandateStatus : Type 0 where
  draft active expired not_yet_valid revoked : EffectiveMandateStatus

unfoldable pub effective_mandate_status : MandateRecord → ℕ → EffectiveMandateStatus
effective_mandate_status r now =
    if is_some r.revocation
    then EffectiveMandateStatus.revoked
    else if r.status == MandateStatus.draft
    then EffectiveMandateStatus.draft
    else if leb r.mandate.expires_at now
    then EffectiveMandateStatus.expired
    else if ltb now r.mandate.not_before
    then EffectiveMandateStatus.not_yet_valid
    else EffectiveMandateStatus.active

abbrev actor_of : Option String → ActorType
actor_of none = ActorType.system
actor_of (some id) = if id == "" then ActorType.system else ActorType.user

abbrev pub audit : String → Option String → AuditAction → String → Action (Unit {0})
audit organization_id actor_id action resource_id = do
  now ← read (λ w. w.clock)
  append_audit (record {
    organization_id = organization_id;
    actor_type = actor_of actor_id;
    actor_id = actor_id;
    action = action;
    resource_id = resource_id;
    created_at = now;
  })
