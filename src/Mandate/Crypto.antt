-- ===== src/Mandate/Crypto.antt =====
-- packages/mandate/src/crypto.ts: domain-separated messages over document hashes, and their
-- signatures. SHA-256 and Ed25519 are the platform's.
use Prim.Native.String.{◌++◌}
use atlas_rail.Common.{
  ◌≡◌, Option-cases, inl, inr, true, arith, String, Bool, false, Option, none, some, if◌then◌else◌,
  string_eq,
}
use atlas_rail.Mandate.Documents.{Platform}
use atlas_rail.Mandate.Schema.{is_lower_hex, matches_class}

pub data SignatureDomain : Type 0 where
  mandate_link decision receipt gate_authorization agent_request authority_answer : SignatureDomain

-- `SIGNATURE_DOMAIN`
unfoldable pub domain_text : SignatureDomain → String
domain_text mandate_link = "atlasrail/v0.1/mandate-link"
domain_text decision = "atlasrail/v0.1/decision"
domain_text receipt = "atlasrail/v0.1/receipt"
domain_text gate_authorization = "atlasrail/v0.1/gate-authorization"
domain_text agent_request = "atlasrail/v0.1/agent-request"
domain_text authority_answer = "atlasrail/v0.1/authority-answer"

abbrev pub signature_scheme : String
signature_scheme = "ed25519"

-- `isSha256Hex`: sixty-four lowercase hex digits.
unfoldable pub is_sha256_hex : String → Bool
unfolding matches_class is_lower_hex
is_sha256_hex value = matches_class is_lower_hex 64 64 value

-- `domainMessage`, which throws unless it is given a digest; none stands for the throw.
unfoldable pub domain_message : SignatureDomain → String → Option String
unfolding is_sha256_hex domain_text
domain_message domain hash =
    if is_sha256_hex hash then some (domain_text domain ++ "\n" ++ hash) else none

-- A `MessageSigner`: its public key, and the base58 text of its signature over a message; none where
-- it throws or returns a signature that is not of 64 bytes.
pub record MessageSigner : Type 0 where
  pub public_key : String
  pub sign : String → Option String

-- `signDomainHash`; none where it throws.
unfoldable pub sign_domain_hash : MessageSigner → SignatureDomain → String → Option String
sign_domain_hash signer domain hash = elim (domain_message domain hash) [
  | none ↦ none
  | some message ↦ signer.sign message
]

unfoldable pub verify_domain_hash :
    ⦃env : Platform⦄ → String → SignatureDomain → String → String → Bool
verify_domain_hash ⦃env⦄ public_key domain hash signature = elim (domain_message domain hash) [
  | none ↦ false
  | some message ↦ env.verify_ed25519 public_key message signature
]

module _ ⦃env : Platform⦄ where
  -- A signer whose signatures verify under its key.
  abbrev pub Honest : MessageSigner → Type 0
  Honest signer =
      (message signature : String)
      → signer.sign message ≡ some signature
      → env.verify_ed25519 signer.public_key message signature ≡ true

  pub sign-verify :
      (signer : MessageSigner) (domain : SignatureDomain) (hash signature : String)
      → Honest signer
      → sign_domain_hash signer domain hash ≡ some signature
      → verify_domain_hash signer.public_key domain hash signature ≡ true
  unfolding sign_domain_hash verify_domain_hash
  sign-verify signer domain hash signature honest h =
      elim (Option-cases (domain_message domain hash)) [
        | inl e ↦ absurd (ground arith)
        | inr (message, e) ↦ ground (arith, honest message signature)
      ]
