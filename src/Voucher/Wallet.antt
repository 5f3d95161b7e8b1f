-- ===== src/Voucher/Wallet.antt =====
-- packages/x402-client/src/gated-signer.ts: `signWithAuthorization`, and what it and
-- `signVoucherWithAuthorization` sign.
use atlas_rail.Common.{
  ℕ, String, true, Option, none, some, Option-cases, inl, inr, List, string_eq, Result, ok, err,
  ◌≡◌, refl, arith,
}
use atlas_rail.Mandate.Types.{AgentMandate}
use atlas_rail.Mandate.Documents.{Platform, SignedDecision, GateAuthorization}
use atlas_rail.Mandate.Gate.Terms.{}
use atlas_rail.Mandate.Gate.Authority.{IsAllowed}
use atlas_rail.Mandate.Decision.Record.{snapshot_to_context}
use atlas_rail.Mandate.Decision.Verify.{Expected, verify_gate_authorization}
use atlas_rail.Mandate.Decision.Authority.{IsIssued, IsReferenced, authorized-IsAllowed}
use atlas_rail.Voucher.Creation.{TransactionWallet, DecodedTransaction}
use atlas_rail.Voucher.Signer.{
  Bytes, GatedSigner, SigningRefusal, is_voucher, sign_voucher_with_authorization,
}

module _ ⦃env : Platform⦄ where
  abbrev expected_by : GatedSigner → ℕ → String → SignedDecision → AgentMandate → Expected
  expected_by signer now hash decision mandate = record {
    trusted_instance_keys = signer.trusted_instance_keys;
    now = now;
    tx_message_hash = hash;
    agent_public_key = signer.public_key;
    decision = decision;
    mandate = mandate;
  }

  abbrev authorized_transaction :
      TransactionWallet
      → GatedSigner
      → ℕ
      → String
      → DecodedTransaction
      → GateAuthorization
      → SignedDecision
      → AgentMandate
      → Result SigningRefusal String
  authorized_transaction wallet signer now transaction tx a d m =
      elim (verify_gate_authorization a (expected_by signer now tx.message_hash d m)) [
        | err e ↦ err (SigningRefusal.not_authorized e)
        | ok done ↦ elim (wallet.sign_transaction transaction) [
          | none ↦ err SigningRefusal.inner_failed
          | some signed ↦ ok signed
        ]
      ]

  -- `signWithAuthorization`
  unfoldable pub sign_with_authorization :
      TransactionWallet
      → GatedSigner
      → ℕ
      → String
      → Option GateAuthorization
      → Option SignedDecision
      → Option AgentMandate
      → Result SigningRefusal String
  sign_with_authorization wallet signer now transaction none d m =
      err SigningRefusal.no_authorization
  sign_with_authorization wallet signer now transaction (some a) none m =
      err SigningRefusal.no_decision
  sign_with_authorization wallet signer now transaction (some a) (some d) none =
      err SigningRefusal.no_decision
  sign_with_authorization wallet signer now transaction (some a) (some d) (some m) =
      elim (wallet.decode_transaction transaction) [
        | none ↦ err SigningRefusal.undecodable
        | some tx ↦ authorized_transaction wallet signer now transaction tx a d m
      ]

  -- What is given covers the hash at the time, and the payment that it records is allowed.
  pub record IsCovered (signer : GatedSigner) (now : ℕ) (hash : String)
      (given : Option GateAuthorization) (decided : Option SignedDecision)
      (under : Option AgentMandate) : Type 0 where
    pub authorization : GateAuthorization
    pub decision : SignedDecision
    pub mandate : AgentMandate
    pub same_authorization : given ≡ some authorization
    pub same_decision : decided ≡ some decision
    pub same_mandate : under ≡ some mandate
    pub issued : IsIssued authorization (expected_by signer now hash decision mandate)
    pub referenced : IsReferenced authorization (expected_by signer now hash decision mandate)
    pub allowed : IsAllowed mandate decision.body.offer (snapshot_to_context decision.body.context)

  covered :
      (signer : GatedSigner) (now : ℕ) (hash : String) (a : GateAuthorization) (d : SignedDecision)
      (m : AgentMandate)
      → verify_gate_authorization a (expected_by signer now hash d m) ≡ ok tt
      → IsCovered signer now hash (some a) (some d) (some m)
  covered signer now hash a d m h =
      let (issued, referenced, _, allowed) =
        authorized-IsAllowed a (expected_by signer now hash d m) h in
      record {
        authorization = a;
        decision = d;
        mandate = m;
        same_authorization = refl;
        same_decision = refl;
        same_mandate = refl;
        issued = issued;
        referenced = referenced;
        allowed = allowed;
      }

  -- The signer signs a voucher only if it is given an authorization of a trusted instance that covers
  -- the hash of just these bytes for this key now, and a decision and a mandate that it refers to,
  -- under which the payment recorded in the decision is allowed; and only fifty bytes with the magic.
  pub voucher-IsCovered :
      (bytes : Bytes) (signer : GatedSigner) (now : ℕ) (message : List ℕ)
      (a : Option GateAuthorization) (d : Option SignedDecision) (m : Option AgentMandate)
      (signature : String)
      → sign_voucher_with_authorization bytes signer now message a d m ≡ ok signature
      → (is_voucher message ≡ true) × IsCovered signer now (bytes.sha256_hex message) a d m
  unfolding sign_voucher_with_authorization
  voucher-IsCovered bytes signer now message none d m signature h = absurd (ground arith)
  voucher-IsCovered bytes signer now message (some a) none m signature h = absurd (ground arith)
  voucher-IsCovered bytes signer now message (some a) (some d) none signature h =
      absurd (ground arith)
  voucher-IsCovered bytes signer now message (some a) (some d) (some m) signature h =
      (ground arith, covered signer now (bytes.sha256_hex message) a d m (ground arith))

  -- The signer signs a transaction only if it can be decoded and the signer is given an authorization of a
  -- trusted instance that covers the hash of its message for this key now, and a decision and a mandate
  -- that it refers to, under which the payment recorded in the decision is allowed.
  pub transaction-IsCovered :
      (wallet : TransactionWallet) (signer : GatedSigner) (now : ℕ) (transaction : String)
      (a : Option GateAuthorization) (d : Option SignedDecision) (m : Option AgentMandate)
      (signed : String)
      → sign_with_authorization wallet signer now transaction a d m ≡ ok signed
      → (tx : DecodedTransaction) × (wallet.decode_transaction transaction ≡ some tx)
        × IsCovered signer now tx.message_hash a d m
  unfolding sign_with_authorization
  transaction-IsCovered wallet signer now transaction none d m signed h = absurd (ground arith)
  transaction-IsCovered wallet signer now transaction (some a) none m signed h =
      absurd (ground arith)
  transaction-IsCovered wallet signer now transaction (some a) (some d) none signed h =
      absurd (ground arith)
  transaction-IsCovered wallet signer now transaction (some a) (some d) (some m) signed h =
      elim (Option-cases (wallet.decode_transaction transaction)) [
        | inl e ↦ absurd (ground (arith, e))
        | inr (tx, e) ↦ (tx, e, covered signer now tx.message_hash a d m (ground (arith, e)))
      ]
