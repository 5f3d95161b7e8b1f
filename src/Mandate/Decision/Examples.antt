-- ===== src/Mandate/Decision/Examples.antt =====
-- A payment that is decided, recorded, signed, authorized and verified
-- (packages/mandate/src/decision.ts).
use atlas_rail.Common.{◌≡◌, refl, String, true, none, some, ok, [], ◌∷◌, arith}
use atlas_rail.Mandate.Types.{}
use atlas_rail.Mandate.Records.{VerificationCheck}
use atlas_rail.Mandate.Documents.{SignedDecision, GateAuthorization}
use atlas_rail.Mandate.Crypto.{Honest, MessageSigner, domain_message, signature_scheme}
use atlas_rail.Mandate.Chain.Roles.{hash_mandate}
use atlas_rail.Mandate.Gate.Evaluate.{hash_offer}
use atlas_rail.Mandate.Gate.Authority.{IsAllowed}
use atlas_rail.Mandate.Gate.Samples.{platform, mandate, offer, context}
use atlas_rail.Mandate.Gate.Examples.{gate_runs, answer, run, small-Runs}
use atlas_rail.Mandate.Decision.Record.{
  BuildDecisionRecordInput, build_decision_record, hash_decision_record, sign_decision,
  snapshot_to_context, hash_gate_authorization,
}
use atlas_rail.Mandate.Decision.Verify.{
  Expected, verify_decision_signature, verify_decision_matches_scope, verify_gate_authorization,
  check_authorization, check_reference, check_decision,
}
use atlas_rail.Mandate.Decision.Authority.{IsIssued, IsReferenced, authorized-IsAllowed}
use atlas_rail.Mandate.Decision.Replay.{signed-replays}

abbrev instance_key : String
instance_key = "instance11111111111111111111111111"

abbrev signer : MessageSigner
signer = record { public_key = instance_key; sign = λ message. some "signature" }

abbrev input : BuildDecisionRecordInput
input = record {
  id = "dec_1";
  organization_id = "org_1";
  mandate = mandate;
  offer = offer 500;
  result = answer (run 500 1500 none);
  context = context 1500 none;
  request = none;
}

abbrev pub signed : SignedDecision
signed = record {
  body = build_decision_record input;
  decision_hash = hash_decision_record (build_decision_record input);
  instance_signature = record {
    public_key = instance_key;
    signature = "signature";
    scheme = some signature_scheme;
  };
}

signs : sign_decision (build_decision_record input) signer ≡ some signed
unfolding sign_decision domain_message
signs = refl

signer-Honest : Honest signer
signer-Honest message signature h = refl

signed-replays_example :
    ((v : VerificationCheck) × (verify_decision_matches_scope mandate signed ≡ ok v)
      × (v.passed ≡ true))
    × ((verify_decision_signature signed).passed ≡ true)
signed-replays_example =
    signed-replays input signer signed small-Runs.0 (λ h. ground arith) signer-Honest signs

abbrev digest : String
digest = "dddddddddddddddddddddddddddddddddddddddddddddddddddddddddddddddd"

abbrev pub authorization : GateAuthorization
authorization = record {
  body = record {
    decision_id = "dec_1";
    decision_hash = signed.decision_hash;
    mandate_hash = hash_mandate mandate;
    offer_hash = hash_offer (offer 500);
    tx_message_hash = digest;
    agent_public_key = mandate.agent.public_key;
    not_before = 1500;
    not_after = 1560;
  };
  instance_signature = record {
    public_key = instance_key;
    signature = "signature";
    scheme = some signature_scheme;
  };
}

abbrev expected : Expected
expected = record {
  trusted_instance_keys = instance_key ∷ [];
  now = 1510;
  tx_message_hash = digest;
  agent_public_key = mandate.agent.public_key;
  decision = signed;
  mandate = mandate;
}

authorizes : verify_gate_authorization authorization expected ≡ ok tt
unfolding gate_runs verify_gate_authorization check_authorization check_reference check_decision
    verify_decision_signature verify_decision_matches_scope build_decision_record
    hash_decision_record hash_gate_authorization
authorizes = refl

authorized-IsAllowed_example :
    IsIssued authorization expected
    × IsReferenced authorization expected
    × (hash_decision_record signed.body ≡ signed.decision_hash)
    × IsAllowed mandate signed.body.offer (snapshot_to_context signed.body.context)
authorized-IsAllowed_example = authorized-IsAllowed authorization expected authorizes
