-- ===== src/Mandate/Service/Draft.antt =====
-- packages/mandate/src/service/lifecycle.ts: `createDraft`, with `createMandate` of
-- packages/mandate/src/mandate.ts.
use atlas_rail.Common.{
  ℕ, String, Bool, true, Option, none, List, [], ◌∷◌, or_else, string_eq, Result, ok, err,
}
use atlas_rail.Mandate.Types.{
  role_eq, MandateScope, MandateEscalation, Agent, AgentMandateBody, AgentMandate, Issue,
}
use atlas_rail.Mandate.Schema.{mandate_body_issues}
use atlas_rail.Mandate.Records.{approval_status_eq}
use atlas_rail.Mandate.Documents.{Platform}
use atlas_rail.Mandate.Crypto.{}
use atlas_rail.Mandate.Chain.Roles.{hash_mandate}
use atlas_rail.Mandate.Chain.Verify.{}
use atlas_rail.Mandate.Service.Ports.{
  MandateStatus, mandate_status_eq, MandateRecord, AuditAction, AgentEvent, Thrown,
}
use atlas_rail.Mandate.Service.World.{
  Deps, Action, pure, throw, read, guard, ◌>>=◌, ◌>>◌, draw, emit,
}
use atlas_rail.Mandate.Service.Store.Mandates.{nonce_exists, insert_mandate}
use atlas_rail.Mandate.Service.Store.Approvals.{}
use atlas_rail.Mandate.Service.Audit.{audit}

-- `CreateDraftInput`; the issuer's organization is that of the caller.
pub record CreateDraftInput : Type 0 where
  pub issuer_name : String
  pub agent : Agent
  pub required_approvals : Option ℕ
  pub prevent_issuer_approval : Option Bool
  pub scope : MandateScope
  pub escalation : MandateEscalation
  pub not_before : ℕ
  pub expires_at : ℕ

abbrev pub new_body : String → CreateDraftInput → String → String → AgentMandateBody
new_body organization_id input id nonce = record {
  kind = "atlasrail.agent-mandate";
  version = "0.1";
  id = id;
  issuer = record { organization_id = organization_id; name = input.issuer_name };
  agent = input.agent;
  delegation = record {
    required_approvals = or_else input.required_approvals 1;
    prevent_issuer_approval = or_else input.prevent_issuer_approval true;
  };
  scope = input.scope;
  escalation = input.escalation;
  not_before = input.not_before;
  expires_at = input.expires_at;
  nonce = nonce;
  revocable = true;
}

-- An unsigned_mandate mandate, or the first issue that the schema has with it.
abbrev pub unsigned_mandate : AgentMandateBody → List Issue → Result Issue AgentMandate
unsigned_mandate body [] = ok (record { body = body; delegation_chain = [] })
unsigned_mandate body (issue ∷ issues) = err issue

abbrev pub new_record : String → Option String → AgentMandate → String → ℕ → MandateRecord
new_record organization_id created_by mandate mandate_hash now = record {
  organization_id = organization_id;
  mandate = mandate;
  mandate_hash = mandate_hash;
  status = MandateStatus.draft;
  created_by = created_by;
  created_at = now;
  signers = [];
  revocation = none;
}

module _ ⦃env : Platform⦄ where
  -- `createMandate` on an id and a nonce that the generators drew.
  unfoldable pub create_mandate :
      String → CreateDraftInput → String → String → Result Issue AgentMandate
  create_mandate organization_id input id nonce =
      let body = new_body organization_id input id nonce in
      unsigned_mandate body (mandate_body_issues body)

  -- `createDraft`, from the unsigned_mandate mandate on.
  unfoldable pub store_draft : Deps → String → Option String → AgentMandate → Action MandateRecord
  store_draft deps organization_id created_by mandate = do
    used ← read (nonce_exists organization_id mandate.nonce mandate.id)
    guard used Thrown.nonce_replay
    now ← read (λ w. w.clock)
    let created = new_record organization_id created_by mandate (hash_mandate mandate) now
    insert_mandate created
    audit organization_id created_by (AuditAction.mandate_created created.mandate_hash) mandate.id
    emit deps (AgentEvent.mandate_created mandate.id created.mandate_hash ∷ [])
    pure created

  unfoldable pub create_draft :
      Deps → String → Option String → CreateDraftInput → Action MandateRecord
  create_draft deps organization_id created_by input = do
    id ← draw deps.new_mandate_id
    nonce ← draw deps.new_nonce
    mandate ← elim (create_mandate organization_id input id nonce) [
      | err issue ↦ throw (Thrown.invalid_input issue)
      | ok m ↦ pure m
    ]
    store_draft deps organization_id created_by mandate
