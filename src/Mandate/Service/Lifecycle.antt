-- ===== src/Mandate/Service/Lifecycle.antt =====
-- packages/mandate/src/service/lifecycle.ts: signing, accepting and revoking a mandate.
use atlas_rail.Common.{
  ℕ, String, Bool, false, not, ◌||◌, Option, none, some, List, [], ◌∷◌, ◌++◌, any, is_some, ◌==◌,
  string_eq, if◌then◌else◌, ok, err,
}
use atlas_rail.Mandate.Types.{DelegationRole, role_eq, DelegationLink, AgentMandate, shaped}
use atlas_rail.Mandate.Schema.{}
use atlas_rail.Mandate.Records.{approval_status_eq}
use atlas_rail.Mandate.Documents.{Platform}
use atlas_rail.Mandate.Crypto.{MessageSigner}
use atlas_rail.Mandate.Chain.Roles.{sign_mandate}
use atlas_rail.Mandate.Chain.Verify.{verify_mandate_chain}
use atlas_rail.Mandate.Service.Ports.{
  MandateStatus, mandate_status_eq, MandateSignerRecord, MandateRecord, AuditAction, AgentEvent,
  Thrown,
}
use atlas_rail.Mandate.Service.World.{
  Deps, Action, pure, throw, read, or_throw, guard, ◌>>=◌, ◌>>◌, emit,
}
use atlas_rail.Mandate.Service.Store.Mandates.{get_mandate, update_mandate}
use atlas_rail.Mandate.Service.Store.Approvals.{}
use atlas_rail.Mandate.Service.Audit.{audit}
use atlas_rail.Mandate.Decision.Record.{truthy}

-- What `sign` is asked to do.
pub record SignParams : Type 0 where
  pub role : DelegationRole
  pub signer : MessageSigner
  pub user_id : Option String

abbrev pub user_is : Option String → String → Bool
user_is none id = false
user_is (some u) id = u == id

-- `params.userId && record.signers.some(…)`
abbrev pub has_signed : Option String → MandateRecord → Bool
has_signed user_id r = elim (truthy user_id) [
  | none ↦ false
  | some id ↦ any (λ s. user_is s.user_id id) r.signers
]

-- The mandate of an id, as long as it may still be signed.
abbrev pub signable : String → String → Action MandateRecord
signable organization_id mandate_id = do
  found ← read (get_mandate organization_id mandate_id)
  r ← or_throw found Thrown.not_found
  guard (is_some r.revocation) Thrown.mandate_is_revoked
  guard (r.status == MandateStatus.active) Thrown.already_signed
  pure r

abbrev pub signer_record : DelegationRole → String → Option String → ℕ → MandateSignerRecord
signer_record role public_key user_id now = record {
  role = role;
  public_key = public_key;
  user_id = user_id;
  signed_at = now;
}

-- A changed record is stored, and the change is told.
unfoldable pub store_record :
    Deps
    → MandateRecord
    → Option String
    → AuditAction
    → String
    → List AgentEvent
    → Action MandateRecord
store_record deps next actor_id action mandate_id events = do
  update_mandate next
  audit next.organization_id actor_id action mandate_id
  emit deps events
  pure next

abbrev pub activated : MandateStatus → AgentEvent → List AgentEvent
activated status event = if status == MandateStatus.active then event ∷ [] else []

-- The record with one more signature.
abbrev pub signed_record : MandateRecord → SignParams → AgentMandate → ℕ → MandateRecord
signed_record r params signed now = record r {
  mandate = signed;
  signers = r.signers ++ signer_record params.role params.signer.public_key params.user_id now ∷ [];
  status = if params.role == DelegationRole.agent then MandateStatus.active else r.status;
}

abbrev pub with_link : AgentMandate → DelegationLink → AgentMandate
with_link mandate link = record mandate { delegation_chain = mandate.delegation_chain ++ link ∷ [] }

-- The record with the agent's own acceptance.
abbrev pub accepted_record : MandateRecord → DelegationLink → ℕ → MandateRecord
accepted_record r link now = record r {
  mandate = with_link r.mandate link;
  status = MandateStatus.active;
  signers = r.signers ++ signer_record DelegationRole.agent link.public_key none now ∷ [];
}

abbrev pub revoked_record : MandateRecord → Option String → Option String → ℕ → MandateRecord
revoked_record r user_id reason now = record r {
  status = MandateStatus.revoked;
  revocation = some (record { revoked_at = now; reason = reason; revoked_by = user_id });
}

module _ ⦃env : Platform⦄ where
  -- The chain must verify.
  unfoldable pub demand_chain : AgentMandate → Action (Unit {0})
  demand_chain mandate =
      let verification = verify_mandate_chain (shaped mandate) none in
      guard (not verification.valid) (Thrown.chain_invalid verification.errors)

  -- `sign`, from the signed mandate on.
  unfoldable pub store_signed :
      Deps → String → SignParams → MandateRecord → AgentMandate → Action MandateRecord
  store_signed deps mandate_id params r signed = do
    now ← read (λ w. w.clock)
    if params.role == DelegationRole.agent then demand_chain signed else pure tt
    let next = signed_record r params signed now
    store_record deps next params.user_id
        (AuditAction.mandate_signed params.role params.signer.public_key) mandate_id
        (activated next.status (AgentEvent.mandate_activated mandate_id next.mandate_hash))

  unfoldable pub sign : Deps → String → String → SignParams → Action MandateRecord
  sign deps organization_id mandate_id params = do
    r ← signable organization_id mandate_id
    guard (has_signed params.user_id r) Thrown.same_user
    signed ← elim (sign_mandate r.mandate params.role params.signer) [
      | err e ↦ throw (Thrown.signing_failed e)
      | ok m ↦ pure m
    ]
    store_signed deps mandate_id params r signed

  -- `attachAgentLink`, from the check of the chain on.
  unfoldable pub store_accepted :
      Deps → String → MandateRecord → DelegationLink → Action MandateRecord
  store_accepted deps mandate_id r link = do
    demand_chain (with_link r.mandate link)
    now ← read (λ w. w.clock)
    store_record deps (accepted_record r link now) none
        (AuditAction.mandate_signed DelegationRole.agent link.public_key) mandate_id
        (AgentEvent.mandate_activated mandate_id r.mandate_hash ∷ [])

  unfoldable pub attach_agent_link : Deps → String → String → DelegationLink → Action MandateRecord
  attach_agent_link deps organization_id mandate_id link = do
    r ← signable organization_id mandate_id
    guard
        (not (link.role == DelegationRole.agent)
          || not (link.public_key == r.mandate.agent.public_key))
        Thrown.only_agent_links
    store_accepted deps mandate_id r link

-- A revocation that is already there is left as it is.
unfoldable pub revoke :
    Deps → String → String → Option String → Option String → Action MandateRecord
revoke deps organization_id mandate_id user_id reason = do
  found ← read (get_mandate organization_id mandate_id)
  r ← or_throw found Thrown.not_found
  elim r.revocation [
    | some revocation ↦ pure r
    | none ↦ do
      now ← read (λ w. w.clock)
      store_record deps (revoked_record r user_id reason now) user_id
          (AuditAction.mandate_revoked reason) mandate_id
          (AgentEvent.mandate_revoked mandate_id reason ∷ [])
  ]
