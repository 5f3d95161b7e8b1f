-- ===== src/Voucher/Request.antt =====
-- packages/x402-client/src/voucher.ts: `voucherOffer` and `VoucherAuthorizer.requestVoucher`. The queue
-- of a channel makes one request a step.
use Prim.Native.String.{◌++◌}
use atlas_rail.Common.{
  ℕ, zero, suc, ◌+◌, ◌-◌, String, Bool, false, not, ◌&&◌, Option, none, some, or_else, is_some,
  List, [], ◌∷◌, length, nat_eqb, leb, ltb, ◌==◌, if◌then◌else◌, Result, ok, err, ◌>>=◌, ◌>>◌,
  throw_if,
}
use atlas_rail.Common.Decimal.{decimal}
use atlas_rail.Mandate.Types.{AgentMandate, X402Offer, shaped}
use atlas_rail.Mandate.Records.{
  GateVerdict, verdict_eq, GateApproval, OwnerReview, Revocation, GateContext, GateResult,
}
use atlas_rail.Mandate.Documents.{
  Platform, SignedDecision, GateAuthorization, GateAuthorizationBody,
}
use atlas_rail.Mandate.Crypto.{MessageSigner}
use atlas_rail.Mandate.Gate.Evaluate.{ContextError, evaluate_gate}
use atlas_rail.Mandate.Decision.Record.{
  build_decision_record, sign_decision, create_gate_authorization,
}
use atlas_rail.Voucher.Ledger.{
  LedgerError, Ledger, known_watermark, ReserveInput, Reservation, is_watermark, reserve_voucher,
  rollback, commit, remember, encode_voucher_message,
}
use atlas_rail.Voucher.Signer.{Bytes, GatedSigner, SigningRefusal, sign_voucher_with_authorization}

pub record VoucherRequest : Type 0 where
  pub channel : String
  pub cumulative : ℕ
  pub settled : Option ℕ
  pub expires_at : ℕ
  pub recipient : String
  pub resource_url : String
  pub asset : String
  pub network : String
  pub fee_payer : Option String

pub record VoucherOptions : Type 0 where
  pub mandate : AgentMandate
  pub instance_signer : MessageSigner
  pub signer : GatedSigner
  pub organization_id : String
  pub revoked : Option Revocation
  pub channel_payer : Option String
  pub authorization_ttl_seconds : Option ℕ
  pub approval : Option GateApproval
  pub review : Option OwnerReview
  pub max_voucher_ttl_seconds : Option ℕ
  pub settled_watermark : Option (ℕ → String → Option ℕ)

pub data VoucherError : Type 0 where
  expiry_past expiry_too_far expiry_after_mandate below_chain not_a_u64 not_a_channel reader_threw :
      VoucherError
  instance_signer_failed negative_spend : VoucherError
  ledger : LedgerError → VoucherError
  gate_threw : ContextError → VoucherError
  mandate_denied escalation_required : SignedDecision → VoucherError
  refused : SigningRefusal → VoucherError

-- The state of an authorizer: its ledger, the number of decisions made, and the denied ones.
pub record Authorizer : Type 0 where
  pub budget : Ledger
  pub sequence : ℕ
  pub denials : List SignedDecision

-- An authorizer with a ledger of its own, seeded from the spend in the window and in total.
abbrev pub new_authorizer : ℕ → ℕ → Authorizer
new_authorizer window total = record {
  budget = record {
    watermarks = [];
    seen = [];
    spent_total = total;
    spent_window = window;
    in_flight = 0;
  };
  sequence = 0;
  denials = [];
}

pub record VoucherAllow : Type 0 where
  pub message : List ℕ
  pub message_hash : String
  pub signature : String
  pub delta : ℕ
  pub decision : SignedDecision
  pub authorization : GateAuthorization

abbrev pub voucher_offer : VoucherRequest → ℕ → X402Offer
voucher_offer i delta = record {
  x402_version = 2;
  scheme = "exact";
  network = i.network;
  asset = i.asset;
  pay_to = i.recipient;
  amount = delta;
  resource_url = i.resource_url;
  fee_payer = i.fee_payer;
  memo = some ("channel:" ++ i.channel);
}

-- What is settled: what the chain says of a new channel, else what the caller says, else what the
-- ledger knows, else nothing.
abbrev pub settled_amount : Option ℕ → Option ℕ → Option ℕ → ℕ
settled_amount (some chain) none caller = chain
settled_amount chain known (some caller) = caller
settled_amount chain known none = or_else known 0

abbrev below : Option ℕ → Option ℕ → Bool
below (some caller) (some chain) = ltb caller chain
below _ _ = false

-- What the reader of the chain says at the time; it may throw.
abbrev chain_settled : Option (ℕ → String → Option ℕ) → ℕ → String → Result VoucherError (Option ℕ)
chain_settled none now channel = ok none
chain_settled (some read) now channel = elim (read now channel) [
  | none ↦ err VoucherError.reader_threw
  | some settled ↦ ok (some settled)
]

-- `decodeChannel`
abbrev pub decode_channel : Bytes → String → Result VoucherError (List ℕ)
decode_channel bytes channel = elim (bytes.from_base58 channel) [
  | none ↦ err VoucherError.not_a_channel
  | some c ↦ if nat_eqb (length c) 32 then ok c else err VoucherError.not_a_channel
]

pub record Quote : Type 0 where
  pub settled : ℕ
  pub message : List ℕ

-- The checks of a request before the gate is asked.
unfoldable pub quote :
    Bytes → VoucherOptions → ℕ → VoucherRequest → Ledger → Result VoucherError Quote
quote bytes options now i l = do
  throw_if (leb i.expires_at now) VoucherError.expiry_past
  throw_if (ltb (now + or_else options.max_voucher_ttl_seconds 3600) i.expires_at)
      VoucherError.expiry_too_far
  throw_if (ltb options.mandate.expires_at i.expires_at) VoucherError.expiry_after_mandate
  let known = known_watermark l i.channel
  chain ← chain_settled options.settled_watermark now i.channel
  throw_if (below i.settled chain) VoucherError.below_chain
  let settled = settled_amount chain known i.settled
  channel ← decode_channel bytes i.channel
  throw_if (ltb 18446744073709551615 i.cumulative) VoucherError.not_a_u64
  throw_if (is_some known && not (is_watermark settled known))
      (VoucherError.ledger LedgerError.other_watermark)
  throw_if (leb i.cumulative settled) (VoucherError.ledger LedgerError.not_above_watermark)
  ok (record {
    settled = settled;
    message = encode_voucher_message channel i.cumulative i.expires_at;
  })

abbrev pub voucher_context : VoucherOptions → ℕ → Ledger → GateContext
voucher_context options now l = record {
  now = now;
  revoked = options.revoked;
  channel_payer = options.channel_payer;
  spend = record { window_autonomous = l.spent_window; total = l.spent_total };
  simulation = none;
  require_simulation = false;
  approval = options.approval;
  review = options.review;
}

abbrev first_chars : ℕ → String → String
first_chars zero s = String.[]
first_chars (suc n) String.[] = String.[]
first_chars (suc n) (String.◌∷◌ c s) = String.◌∷◌ c (first_chars n s)

module _ ⦃env : Platform⦄ (bytes : Bytes) (options : VoucherOptions) (now later : ℕ)
    (i : VoucherRequest) where
  unfoldable pub voucher_decision :
      ℕ → Quote → Ledger → GateResult → Result VoucherError SignedDecision
  voucher_decision sequence q l result =
      elim (sign_decision
        (build_decision_record (record {
          id = "dec_vch_" ++ first_chars 16 (bytes.sha256_hex q.message) ++ "_" ++ decimal sequence;
          organization_id = options.organization_id;
          mandate = options.mandate;
          offer = voucher_offer i (i.cumulative - q.settled);
          result = result;
          context = voucher_context options now l;
          request = none;
        }))
        options.instance_signer) [
          | none ↦ err VoucherError.instance_signer_failed
          | some decision ↦ ok decision
        ]

  abbrev voucher_authorization : Quote → SignedDecision → GateAuthorizationBody
  voucher_authorization q decision = record {
    decision_id = decision.body.id;
    decision_hash = decision.decision_hash;
    mandate_hash = decision.body.mandate_hash;
    offer_hash = decision.body.offer_hash;
    tx_message_hash = bytes.sha256_hex q.message;
    agent_public_key = options.signer.public_key;
    not_before = now;
    not_after = now + or_else options.authorization_ttl_seconds 60;
  }

  -- From the decision to the signature of the voucher.
  unfoldable pub sign_allowed : Quote → SignedDecision → Result VoucherError VoucherAllow
  sign_allowed q decision =
      elim (create_gate_authorization (voucher_authorization q decision) options.instance_signer) [
        | none ↦ err VoucherError.instance_signer_failed
        | some authorization ↦
            elim (sign_voucher_with_authorization bytes options.signer later q.message
              (some authorization) (some decision) (some options.mandate)) [
                | err refusal ↦ err (VoucherError.refused refusal)
                | ok signature ↦ ok (record {
                  message = q.message;
                  message_hash = bytes.sha256_hex q.message;
                  signature = signature;
                  delta = i.cumulative - q.settled;
                  decision = decision;
                  authorization = authorization;
                })
              ]
      ]

  abbrev pub reserve_input : Quote → Ledger → ReserveInput
  reserve_input q l = record {
    channel = i.channel;
    hash = bytes.sha256_hex q.message;
    settled = q.settled;
    cumulative = i.cumulative;
    seen_channel = is_some (known_watermark l i.channel);
  }

  -- The `catch` of a request that reserved.
  abbrev pub give_back :
      Authorizer
      → Ledger
      → Reservation
      → VoucherError
      → Result VoucherError VoucherAllow × Authorizer
  give_back s l r e = elim (rollback l i.channel r) [
    | none ↦ (err VoucherError.negative_spend, record s { budget = l; sequence = suc s.sequence })
    | some restored ↦ (err e, record s { budget = restored; sequence = suc s.sequence })
  ]

  -- The branch of ALLOW.
  unfoldable pub charge_voucher :
      Quote → GateResult → Authorizer → Result VoucherError VoucherAllow × Authorizer
  charge_voucher q result s = elim (reserve_voucher s.budget (reserve_input q s.budget)) [
    | err e ↦ (err (VoucherError.ledger e), s)
    | ok (r, l) ↦ elim (voucher_decision s.sequence q s.budget result >>= sign_allowed q) [
      | err e ↦ give_back s l r e
      | ok allowed ↦ (
        ok allowed,
        record s { budget = remember (commit l) allowed.message_hash; sequence = suc s.sequence },
      )
    ]
  ]

  -- The branches of DENY and ESCALATE.
  unfoldable pub refuse_voucher :
      Quote → GateResult → Authorizer → Result VoucherError VoucherAllow × Authorizer
  refuse_voucher q result s =
      let counted = record s { sequence = suc s.sequence } in
      elim (voucher_decision s.sequence q s.budget result) [
        | err e ↦ (err e, counted)
        | ok decision ↦
            if result.decision == GateVerdict.escalate
            then (err (VoucherError.escalation_required decision), counted)
            else (
              err (VoucherError.mandate_denied decision),
              record counted { denials = decision ∷ s.denials },
            )
      ]

  -- `requestOnChannel`
  unfoldable pub request_on_channel : Authorizer → Result VoucherError VoucherAllow × Authorizer
  request_on_channel s = elim (quote bytes options now i s.budget) [
    | err e ↦ (err e, s)
    | ok q ↦
        elim (evaluate_gate (shaped options.mandate)
          (shaped (voucher_offer i (i.cumulative - q.settled)))
          (voucher_context options now s.budget)) [
            | err e ↦ (err (VoucherError.gate_threw e), s)
            | ok result ↦
                if result.decision == GateVerdict.allow
                then charge_voucher q result s
                else refuse_voucher q result s
          ]
  ]
