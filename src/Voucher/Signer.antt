-- ===== src/Voucher/Signer.antt =====
-- packages/x402-client/src/gated-signer.ts: `signVoucherWithAuthorization`.
use atlas_rail.Common.{
  ℕ, String, Bool, true, false, ◌&&◌, Option, none, some, List, [], ◌∷◌, length, nat_eqb, Result,
  ok, err,
}
use atlas_rail.Mandate.Types.{AgentMandate}
use atlas_rail.Mandate.Documents.{Platform, SignedDecision, GateAuthorization}
use atlas_rail.Mandate.Decision.Verify.{AuthorizationError, verify_gate_authorization}

-- SHA-256 in hex over bytes, and the bytes of a base58 text; none where decoding throws.
pub record Bytes : Type 0 where
  pub sha256_hex : List ℕ → String
  pub from_base58 : String → Option (List ℕ)

-- The wallet inside the signer; none where it throws. The signer honours the instance keys.
pub record GatedSigner : Type 0 where
  pub public_key : String
  pub trusted_instance_keys : List String
  pub sign_message : List ℕ → Option String

pub data SigningRefusal : Type 0 where
  not_a_voucher no_authorization no_decision inner_failed undecodable : SigningRefusal
  not_authorized : AuthorizationError → SigningRefusal

abbrev pub is_voucher : List ℕ → Bool
is_voucher [] = false
is_voucher (a ∷ []) = false
is_voucher (a ∷ b ∷ bytes) = nat_eqb (length (a ∷ b ∷ bytes)) 50 && (nat_eqb a 86 && nat_eqb b 1)

module _ ⦃env : Platform⦄ where
  abbrev pub checked_signature :
      Bytes
      → GatedSigner
      → ℕ
      → List ℕ
      → GateAuthorization
      → SignedDecision
      → AgentMandate
      → Result SigningRefusal String
  checked_signature bytes signer now message authorization decision mandate =
      elim (verify_gate_authorization authorization (record {
        trusted_instance_keys = signer.trusted_instance_keys;
        now = now;
        tx_message_hash = bytes.sha256_hex message;
        agent_public_key = signer.public_key;
        decision = decision;
        mandate = mandate;
      })) [
        | err e ↦ err (SigningRefusal.not_authorized e)
        | ok done ↦ elim (signer.sign_message message) [
          | none ↦ err SigningRefusal.inner_failed
          | some signature ↦ ok signature
        ]
      ]

  abbrev with_decision :
      Bytes
      → GatedSigner
      → ℕ
      → List ℕ
      → GateAuthorization
      → Option SignedDecision
      → Option AgentMandate
      → Result SigningRefusal String
  with_decision bytes signer now message authorization (some decision) (some mandate) =
      checked_signature bytes signer now message authorization decision mandate
  with_decision bytes signer now message authorization _ _ = err SigningRefusal.no_decision

  unfoldable pub sign_voucher_with_authorization :
      Bytes
      → GatedSigner
      → ℕ
      → List ℕ
      → Option GateAuthorization
      → Option SignedDecision
      → Option AgentMandate
      → Result SigningRefusal String
  sign_voucher_with_authorization bytes signer now message authorization decision mandate =
      elim (is_voucher message) [
        | false ↦ err SigningRefusal.not_a_voucher
        | true ↦ elim authorization [
          | none ↦ err SigningRefusal.no_authorization
          | some a ↦ with_decision bytes signer now message a decision mandate
        ]
      ]
