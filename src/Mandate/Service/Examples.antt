-- ===== src/Mandate/Service/Examples.antt =====
-- The services of packages/mandate/src/service run on samples.
use atlas_rail.Common.{
  List, inr, String, ◌≡◌, refl, true, false, none, some, ok, [], ◌∷◌, inl, arith, All, length,
}
use atlas_rail.Mandate.Types.{}
use atlas_rail.Mandate.Records.{GateSimulation, GateVerdict}
use atlas_rail.Mandate.Documents.{SignedAgentGateRequest, GateAuthorization}
use atlas_rail.Mandate.Crypto.{
  MessageSigner, Honest, verify_domain_hash, sign_domain_hash, is_sha256_hex,
}
use atlas_rail.Mandate.Chain.Roles.{hash_mandate}
use atlas_rail.Mandate.Gate.Samples.{platform, mandate, offer, agent_key, signature_text}
use atlas_rail.Mandate.Gate.Examples.{gate_runs}
use atlas_rail.Mandate.Decision.Record.{
  hash_gate_request, verify_gate_request_signature, build_decision_record, sign_decision,
  context_to_snapshot, hash_decision_record, create_gate_authorization, hash_gate_authorization,
}
use atlas_rail.Mandate.Decision.Verify.{verify_gate_authorization}
use atlas_rail.Mandate.Service.Ports.{MandateStatus, MandateRecord, PaymentOutcome}
use atlas_rail.Mandate.Service.World.{World, Deps, delivered, taken}
use atlas_rail.Mandate.Service.Store.Mandates.{get_mandate}
use atlas_rail.Mandate.Service.Store.Decisions.{get_decision, find_by_request, id_taken}
use atlas_rail.Mandate.Service.Store.Spend.{totals, totals_from}
use atlas_rail.Mandate.Service.Store.Approvals.{row, consumable, consume}
use atlas_rail.Mandate.Service.Assess.{
  Admitted, to_gate_approval, speculative_simulation, judge, second_pass, assess,
}
use atlas_rail.Mandate.Service.Branches.{signed_decision, hold_spend, grant, ask, carry_out}
use atlas_rail.Mandate.Service.Evaluate.{
  GateOutcome, file_decision, act_on, record_decision, evaluate_fresh, answer_request, admit,
}
use atlas_rail.Mandate.Service.Resolve.{payment_outcome, apply_outcome, resolve_spend}
use atlas_rail.Mandate.Service.Lifecycle.{store_record, revoke}
use atlas_rail.Mandate.Service.System.{
  System, Run, at_world, arrives, is_answered, resolves, drafts, here, next,
}
use atlas_rail.Mandate.Service.Settling.{IsFinal}
use atlas_rail.Mandate.Service.Limits.{Within}
use atlas_rail.Mandate.Service.Invariant.{run-Within}
use atlas_rail.Mandate.Service.Store.Spend.{counts}
use atlas_rail.Mandate.Service.Store.Mandates.{nonce_exists}
use atlas_rail.Mandate.Service.Budget.{sum_of, counts_in_window, totals_lem}
use atlas_rail.Mandate.Service.Assessed.{Simulated}
use atlas_rail.Mandate.Service.Answered.{Answered, answer-Answered}
use atlas_rail.Mandate.Service.Idempotence.{AnsweredAs, answer-idempotent}
use atlas_rail.Mandate.Service.Issue.{wallet, issued-Accepts}
use atlas_rail.Mandate.Service.Revocation.{IsRevoked, IsDenied, revoked-IsDenied}
use atlas_rail.Mandate.Service.Draft.{CreateDraftInput, create_mandate, store_draft, create_draft}
use atlas_rail.Mandate.Service.Sound.{IsSound}
use atlas_rail.Mandate.Service.Soundness.{run-IsSound}
use atlas_rail.Mandate.Schema.{mandate_body_issues}

-- All that a run of the services computes.
unfoldable pub service_runs : Unit {0}
unfolding gate_runs hash_gate_request verify_gate_request_signature build_decision_record
    sign_decision context_to_snapshot hash_decision_record create_gate_authorization
    hash_gate_authorization sign_domain_hash verify_domain_hash is_sha256_hex delivered taken
    get_mandate get_decision find_by_request id_taken totals totals_from row consumable consume
    to_gate_approval speculative_simulation judge second_pass assess signed_decision hold_spend
    grant ask carry_out file_decision act_on record_decision evaluate_fresh answer_request admit
    payment_outcome apply_outcome resolve_spend store_record revoke nonce_exists create_mandate
    store_draft create_draft mandate_body_issues
service_runs = tt

abbrev tx_digest : String
tx_digest = "dddddddddddddddddddddddddddddddddddddddddddddddddddddddddddddddd"

abbrev simulation : GateSimulation
simulation = record {
  success = true;
  error = none;
  program_ids = [];
  unknown_program_ids = [];
  transfer_count = 1;
  matches_offer = true;
  mismatch = none;
  tx_message_hash = tx_digest;
  units_consumed = none;
}

abbrev signer : MessageSigner
signer = record {
  public_key = "instance11111111111111111111111111";
  sign = λ message. some "signature";
}

-- Every transaction simulates well, and fails on the chain.
abbrev deps : Deps
deps = record {
  instance_signer = signer;
  simulator = some (λ clock input. some simulation);
  onchain_revocation_check = none;
  payment_lookup = some (λ clock input. some (PaymentOutcome.failed "5555"));
  notify = none;
  new_id = λ prefix n. prefix;
  new_mandate_id = λ n. "mnd_0000000001";
  new_nonce = λ n. "00000000000000000000000000000000";
  require_simulation = true;
  request_skew_seconds = 120;
  authorization_ttl_seconds = 120;
}

abbrev stored : MandateRecord
stored = record {
  organization_id = "org_1";
  mandate = mandate;
  mandate_hash = "aaaaaaaaaaaaaaaaaaaaaaaaaaaaaaaaaaaaaaaaaaaaaaaaaaaaaaaaaaaaaaaa";
  status = MandateStatus.active;
  created_by = none;
  created_at = 900;
  signers = [];
  revocation = none;
}

abbrev world : World
world = record {
  mandates = stored ∷ [];
  decisions = [];
  spend = [];
  approvals = [];
  audit = [];
  clock = 1500;
  drawn = 0;
  events = [];
}

-- The agent asks to pay 500.
abbrev request : SignedAgentGateRequest
request = record {
  body = record {
    mandate_id = "mnd_0123456789";
    offer = offer 500;
    transaction = some "AQ==";
    approval_id = none;
    nonce = "n1";
    requested_at = 1490;
  };
  agent_public_key = agent_key;
  signature = signature_text;
}

abbrev admitted : Admitted
admitted = record {
  organization_id = "org_1";
  stored = stored;
  request = request;
  request_hash = "cccccccccccccccccccccccccccccccccccccccccccccccccccccccccccccccc";
  now = 1500;
}

admits : (admit deps "org_1" request world).0 ≡ ok admitted
unfolding service_runs
admits = refl

abbrev start : System
start = record { world = world; waiting = [] }

abbrev arrived : System
arrived = record { world = world; waiting = admitted ∷ [] }

-- The payment is allowed and held.
abbrev paid : System
paid = at_world arrived (answer_request deps admitted world).1

abbrev released : System
released = at_world paid (resolve_spend deps "org_1" "dec" "AQ==" paid.world).1

run : Run deps start released
run =
    next paid released
      (next arrived paid (next start arrived here (arrives "org_1" request admitted admits))
        (is_answered admitted (inl refl)))
      (resolves "org_1" "dec" "AQ==")

never_lands : (t : System) → Run deps start t → IsFinal deps t.world
unfolding payment_outcome
never_lands t r o id transaction signature d authorization e f g h = absurd (ground arith)

run-Within_example : Within released.world.mandates released.world.spend
run-Within_example =
    run-Within deps start released (record { unspent = refl; idle = refl }) never_lands run

-- The hold of 500 is released again.
releases : (totals "mnd_0123456789" 1500 3600 paid.world).total ≡ 500
unfolding service_runs
releases = refl

-- What the request gets.
answered :
    (outcome : GateOutcome) × (authorization : GateAuthorization) × ((answer_request deps admitted
        world).0
      ≡ ok outcome)
    × (outcome.replayed ≡ false)
    × (outcome.authorization ≡ some authorization)
unfolding service_runs
answered = (_, _, refl, refl, refl)

answer-Answered_example :
    Answered deps admitted world
      (answer_request deps admitted world).0
      (answer_request deps admitted world).1
answer-Answered_example = answer-Answered deps admitted world

answer-idempotent_example :
    AnsweredAs deps admitted answered.0 (answer_request deps admitted world).1
answer-idempotent_example = answer-idempotent deps admitted world answered.0 refl answered.2

signer-Honest : Honest signer
signer-Honest message signature h = refl

stored_hash : stored.mandate_hash ≡ hash_mandate mandate
unfolding service_runs
stored_hash = refl

simulation_runs : Simulated deps admitted world simulation
simulation_runs = record {
  transaction = "AQ==";
  simulate = λ clock input. some simulation;
  present = refl;
  simulator = refl;
  answer = refl;
}

-- A wallet that honours another instance as well.
abbrev honoured : List String
honoured = "other instance" ∷ signer.public_key ∷ []

tx_digest_valid : is_sha256_hex tx_digest ≡ true
unfolding service_runs
tx_digest_valid = refl

issued-Accepts_example :
    verify_gate_authorization answered.1 (wallet honoured admitted answered.0 tx_digest 1550)
    ≡ ok tt
issued-Accepts_example =
    issued-Accepts deps admitted answered.1 honoured simulation 1550 signer-Honest (inr (inl refl))
      tx_digest_valid (omega arith) (omega arith) world answered.0 simulation_runs stored_hash
      answered.2 answered.3 answered.4

totals_lem_example :
    let t = totals "mnd_0123456789" 1500 3600 paid.world in
    (t.total ≡ sum_of (counts "mnd_0123456789") paid.world.spend)
    × (t.window_autonomous ≡ sum_of (counts_in_window "mnd_0123456789" 1500 3600) paid.world.spend)
totals_lem_example = totals_lem "mnd_0123456789" 1500 3600 paid.world

-- The mandate is revoked, and the agent asks again.
abbrev revoked_world : World
revoked_world = (revoke deps "org_1" "mnd_0123456789" none none world).1

abbrev revoked_stored : MandateRecord
revoked_stored = record stored {
  status = MandateStatus.revoked;
  revocation = some (record { revoked_at = 1500; reason = none; revoked_by = none });
}

abbrev late : Admitted
late = record admitted { stored = revoked_stored }

revocation : IsRevoked "org_1" "mnd_0123456789" revoked_world
unfolding service_runs
revocation = record {
  stored = revoked_stored;
  revocation = record { revoked_at = 1500; reason = none; revoked_by = none };
  found = refl;
  revoked = refl;
}

late_admits : (admit deps "org_1" request revoked_world).0 ≡ ok late
unfolding service_runs
late_admits = refl

late_answered :
    (outcome : GateOutcome) × ((answer_request deps late revoked_world).0 ≡ ok outcome)
    × (outcome.replayed ≡ false)
unfolding service_runs
late_answered = (_, refl, refl)

revoked-IsDenied_example :
    IsDenied deps late_answered.0 revoked_world (answer_request deps late revoked_world).1
revoked-IsDenied_example =
    revoked-IsDenied deps "org_1" request (at_world start revoked_world)
      (at_world start revoked_world) late revoked_world late_answered.0 revocation here late_admits
      late_answered.1 late_answered.2

abbrev empty : System
empty = at_world start (record world { mandates = [] })

abbrev draft_input : CreateDraftInput
draft_input = record {
  issuer_name = "Atlas";
  agent = mandate.agent;
  required_approvals = none;
  prevent_issuer_approval = none;
  scope = mandate.scope;
  escalation = mandate.escalation;
  not_before = 1000;
  expires_at = 2000;
}

abbrev drafted : System
drafted = at_world empty (create_draft deps "org_1" none draft_input empty.world).1

run-IsSound_example : All IsSound drafted.world.mandates
run-IsSound_example =
    run-IsSound deps empty drafted refl (next empty drafted here (drafts "org_1" none draft_input))

-- The draft is stored.
drafts_one : length drafted.world.mandates ≡ 1
unfolding service_runs
drafts_one = refl

-- A request that waited for the lock while the mandate was revoked is answered on the old record.
waited :
    (outcome : GateOutcome) × ((answer_request deps admitted revoked_world).0 ≡ ok outcome)
    × (outcome.decision.body.decision ≡ GateVerdict.allow)
unfolding service_runs
waited = (_, refl, refl)
