-- ===== src/Voucher/Examples.antt =====
-- Requests for vouchers (packages/x402-client/src/voucher.ts) run on samples.
use atlas_rail.Common.{
  Option, ℕ, ◌+◌, ◌≤◌, String, Bool, true, false, none, some, ok, err, List, [], ◌∷◌, length,
  Distinct, ◌==◌, leb, string_eq, ◌≡◌, refl, arith,
}
use atlas_rail.Mandate.Types.{}
use atlas_rail.Mandate.Crypto.{}
use atlas_rail.Mandate.Gate.Samples.{platform, mandate, offer, agent_key}
use atlas_rail.Mandate.Gate.Examples.{}
use atlas_rail.Mandate.Service.Examples.{service_runs}
use atlas_rail.Mandate.Decision.Verify.{
  verify_decision_signature, verify_decision_matches_scope, verify_gate_authorization,
  check_authorization, check_reference, check_decision,
}
use atlas_rail.Voucher.Ledger.{
  LedgerError, Ledger, known_in, set_watermark, known_watermark, ReserveInput, reserved_ledger,
  reserve_voucher, rollback, little_endian, encode_voucher_message,
}
use atlas_rail.Voucher.Charging.{rollback-reserve}
use atlas_rail.Voucher.Encoding.{encode_injective}
use atlas_rail.Voucher.Signer.{Bytes, sign_voucher_with_authorization}
use atlas_rail.Voucher.Request.{
  VoucherRequest, VoucherOptions, VoucherError, Authorizer, new_authorizer, VoucherAllow, quote,
  voucher_decision, sign_allowed, charge_voucher, request_on_channel,
}
use atlas_rail.Voucher.Charged.{IsAnswer, request-IsAnswer}
use atlas_rail.Mandate.Decision.Examples.{signed, authorization}
use atlas_rail.Voucher.Creation.{
  TransactionWallet, DecodedTransaction, index_of, first_bytes, same_bytes, may_pay, check_creation,
  sign_checked, sign_mandate_creation,
}
use atlas_rail.Voucher.Created.{OnlyCreates, creation-OnlyCreates}
use atlas_rail.Voucher.Wallet.{
  sign_with_authorization, IsCovered, voucher-IsCovered, transaction-IsCovered,
}
use atlas_rail.Voucher.Runs.{Run, amounts, hashes, run-amounts}

-- All that a request for a voucher computes.
unfoldable voucher_runs : Unit {0}
unfolding request_on_channel quote charge_voucher voucher_decision sign_allowed
    sign_voucher_with_authorization verify_gate_authorization check_authorization check_reference
    check_decision verify_decision_signature verify_decision_matches_scope reserve_voucher known_in
    set_watermark encode_voucher_message little_endian
voucher_runs = tt

abbrev channel : List ℕ
channel =
    1 ∷ 2 ∷ 3 ∷ 4 ∷ 5 ∷ 6 ∷ 7 ∷ 8 ∷ 9 ∷ 10 ∷ 11 ∷ 12 ∷ 13 ∷ 14 ∷ 15 ∷ 16 ∷ 17 ∷ 18 ∷ 19 ∷ 20 ∷ 21
    ∷ 22 ∷ 23 ∷ 24 ∷ 25 ∷ 26 ∷ 27 ∷ 28 ∷ 29 ∷ 30 ∷ 31 ∷ 32 ∷ []

-- Every message has one hash, and every text is the channel.
abbrev bytes : Bytes
bytes = record {
  sha256_hex = λ message. "dddddddddddddddddddddddddddddddddddddddddddddddddddddddddddddddd";
  from_base58 = λ text. some channel;
}

abbrev options : VoucherOptions
options = record {
  mandate = mandate;
  instance_signer = record {
    public_key = "instance11111111111111111111111111";
    sign = λ message. some "signature";
  };
  signer = record {
    public_key = agent_key;
    trusted_instance_keys = "instance11111111111111111111111111" ∷ [];
    sign_message = λ message. some "voucher signature";
  };
  organization_id = "org_1";
  revoked = none;
  channel_payer = none;
  authorization_ttl_seconds = none;
  approval = none;
  review = none;
  max_voucher_ttl_seconds = none;
  settled_watermark = none;
}

-- A voucher of 700 on a channel where 200 are settled.
abbrev request : VoucherRequest
request = record {
  channel = "channel_1";
  cumulative = 700;
  settled = some 200;
  expires_at = 1900;
  recipient = (offer 500).pay_to;
  resource_url = (offer 500).resource_url;
  asset = (offer 500).asset;
  network = (offer 500).network;
  fee_payer = none;
}

-- The request is signed.
signs :
    (a : VoucherAllow) × (t : Authorizer) × (request_on_channel bytes options 1500 1501 request
        (new_authorizer 700 900)
      ≡ (ok a, t))
unfolding service_runs voucher_runs
signs = (_, _, refl)

request-IsAnswer_example :
    IsAnswer options request
      (new_authorizer 700 900)
      (request_on_channel bytes options 1500 1501 request (new_authorizer 700 900))
request-IsAnswer_example = request-IsAnswer bytes options 1500 1501 request (new_authorizer 700 900)

-- The same voucher is refused a second time.
again :
    (request_on_channel bytes options 1500 1501 request
      (request_on_channel bytes options 1500 1501 request (new_authorizer 700 900)).1).0
    ≡ err (VoucherError.ledger LedgerError.other_watermark)
unfolding service_runs voucher_runs
again = refl

run-amounts_example :
    (900 + amounts (signs.0 ∷ []) ≤ 5000)
    × (signs.1.budget.spent_total ≡ 900 + amounts (signs.0 ∷ []))
    × Distinct (hashes (signs.0 ∷ []))
run-amounts_example =
    run-amounts bytes options 700 900 (omega arith) signs.1 (signs.0 ∷ [])
      (Run.sign 1500 1501 request (new_authorizer 700 900) signs.1 signs.0 [] Run.start signs.2)

-- Of one channel 200 were accepted, 900 were spent.
abbrev ledger : Ledger
ledger = record {
  watermarks = record { channel = "channel_1"; amount = 200 } ∷ [];
  seen = "first" ∷ [];
  spent_total = 900;
  spent_window = 700;
  in_flight = 0;
}

abbrev input : ReserveInput
input = record {
  channel = "channel_1";
  hash = "second";
  settled = 200;
  cumulative = 700;
  seen_channel = true;
}

reserves :
    reserve_voucher ledger input
    ≡ ok (record { delta = 500; previous = some 200 }, reserved_ledger ledger input)
unfolding reserve_voucher known_in set_watermark service_runs
reserves = refl

rollback-reserve_example :
    let v = reserved_ledger ledger input in
    (v.spent_total + 200 ≡ 900 + 700)
    × (known_watermark v "channel_1" ≡ some 700)
    × ((other : String)
        → ("channel_1" == other) ≡ false
        → known_watermark v other ≡ known_watermark ledger other)
    × (rollback v "channel_1" (record { delta = 500; previous = some 200 }) ≡ some ledger)
rollback-reserve_example =
    rollback-reserve ledger (reserved_ledger ledger input) input
      (record { delta = 500; previous = some 200 }) reserves

encode_injective_example :
    (length (encode_voucher_message channel 700 1900) ≡ 50)
    × (encode_voucher_message channel 700 1900 ≡ encode_voucher_message channel 800 1900
        → (channel ≡ channel) × ◌≡◌ {A = ℕ} 700 800 × ◌≡◌ {A = ℕ} 1900 1900)
encode_injective_example =
    encode_injective channel channel 700 800 1900 1900 refl refl (omega arith) (omega arith)
      (omega arith) (omega arith)

voucher_signs :
    sign_voucher_with_authorization bytes options.signer 1510
      (encode_voucher_message channel 700 1900)
      (some authorization)
      (some signed)
      (some mandate)
    ≡ ok "voucher signature"
unfolding service_runs voucher_runs
voucher_signs = refl

voucher-IsCovered_example :
    ◌≡◌ {A = Bool} true true
    × IsCovered options.signer 1510
        (bytes.sha256_hex (encode_voucher_message channel 700 1900))
        (some authorization)
        (some signed)
        (some mandate)
unfolding encode_voucher_message little_endian
voucher-IsCovered_example =
    voucher-IsCovered bytes options.signer 1510 (encode_voucher_message channel 700 1900)
      (some authorization) (some signed) (some mandate) "voucher signature" voucher_signs

-- The creation of a mandate with the agent's key at the fourth place.
abbrev created : DecodedTransaction
created = record {
  account_keys = "payer" ∷ "mandate" ∷ "owner" ∷ agent_key ∷ "program" ∷ [];
  instructions =
      record {
        program_id_index = 4;
        account_key_indexes = 1 ∷ 2 ∷ 0 ∷ 3 ∷ [];
        bytes = 1 ∷ 2 ∷ 3 ∷ 4 ∷ 5 ∷ 6 ∷ 7 ∷ 8 ∷ 9 ∷ [];
      }
      ∷ [];
  address_table_lookups = 0;
  is_account_writable = λ i. leb i 1;
  message_hash = "dddddddddddddddddddddddddddddddddddddddddddddddddddddddddddddddd";
}

abbrev wallet : TransactionWallet
wallet = record {
  decode_transaction = λ text. some created;
  sign_transaction = λ text. some "signed transaction";
  create_mandate_discriminator = 1 ∷ 2 ∷ 3 ∷ 4 ∷ 5 ∷ 6 ∷ 7 ∷ 8 ∷ [];
  mandate_program_id = "program";
}

transacts :
    sign_with_authorization wallet options.signer 1510 "AQ=="
      (some authorization)
      (some signed)
      (some mandate)
    ≡ ok "signed transaction"
unfolding service_runs voucher_runs sign_with_authorization
transacts = refl

transaction-IsCovered_example :
    (tx : DecodedTransaction) × (◌≡◌ {A = Option DecodedTransaction} (some created) (some tx))
    × IsCovered options.signer 1510 tx.message_hash
        (some authorization)
        (some signed)
        (some mandate)
transaction-IsCovered_example =
    transaction-IsCovered wallet options.signer 1510 "AQ==" (some authorization) (some signed)
      (some mandate) "signed transaction" transacts

creates : sign_mandate_creation wallet agent_key "AQ==" ≡ ok "signed transaction"
unfolding service_runs sign_mandate_creation sign_checked check_creation may_pay index_of
    first_bytes same_bytes
creates = refl

creation-OnlyCreates_example :
    (tx : DecodedTransaction) × (◌≡◌ {A = Option DecodedTransaction} (some created) (some tx))
    × OnlyCreates wallet agent_key tx
creation-OnlyCreates_example =
    creation-OnlyCreates wallet agent_key "AQ==" "signed transaction" creates
