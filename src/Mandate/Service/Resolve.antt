-- ===== src/Mandate/Service/Resolve.antt =====
-- packages/mandate/src/service/gate-service.ts: `resolveSpend`.
use atlas_rail.Common.{String, true, false, Option, none, some, ◌==◌}
use atlas_rail.Mandate.Records.{GateVerdict, verdict_eq}
use atlas_rail.Mandate.Documents.{GateAuthorization}
use atlas_rail.Mandate.Service.Ports.{StoredDecision, PaymentOutcome, SpendResolution, Thrown}
use atlas_rail.Mandate.Service.World.{
  World, Deps, LookupInput, Action, pure, throw, read, or_throw, ◌>>=◌, ◌>>◌,
}
use atlas_rail.Mandate.Service.Store.Decisions.{get_decision}
use atlas_rail.Mandate.Service.Store.Spend.{mark_settled, release}

abbrev pub lookup_input : GateAuthorization → String → LookupInput
lookup_input authorization transaction = record {
  transaction = transaction;
  expected_message_hash = authorization.tx_message_hash;
  payer = authorization.agent_public_key;
  not_before = authorization.not_before;
}

-- What the chain says of the transaction; none where there is no lookup or it throws.
unfoldable pub payment_outcome : Deps → GateAuthorization → String → World → Option PaymentOutcome
payment_outcome deps authorization transaction w = elim deps.payment_lookup [
  | none ↦ none
  | some lookup ↦ lookup w.clock (lookup_input authorization transaction)
]

-- What each outcome does to the hold.
unfoldable pub apply_outcome : String → Option PaymentOutcome → Action SpendResolution
apply_outcome decision_id none = pure SpendResolution.pending
apply_outcome decision_id (some PaymentOutcome.mismatch) = throw Thrown.wrong_transaction
apply_outcome decision_id (some (PaymentOutcome.landed signature)) = do
  mark_settled decision_id signature
  pure (SpendResolution.settled signature)
apply_outcome decision_id (some (PaymentOutcome.failed signature)) = do
  release decision_id
  pure SpendResolution.released
apply_outcome decision_id (some PaymentOutcome.expired) = do
  release decision_id
  pure SpendResolution.released
apply_outcome decision_id (some PaymentOutcome.pending) = pure SpendResolution.pending

-- The authorization of a decision, where it is an ALLOW.
abbrev pub held : StoredDecision → Option GateAuthorization
held d = elim (d.signed.body.decision == GateVerdict.allow) [
  | true ↦ d.authorization
  | false ↦ none
]

unfoldable pub resolve_spend : Deps → String → String → String → Action SpendResolution
resolve_spend deps organization_id decision_id transaction = do
  found ← read (get_decision organization_id decision_id)
  stored ← or_throw found Thrown.not_found
  authorization ← or_throw (held stored) Thrown.not_an_allow
  outcome ← read (payment_outcome deps authorization transaction)
  apply_outcome decision_id outcome
