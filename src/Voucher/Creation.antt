-- ===== src/Voucher/Creation.antt =====
-- packages/x402-client/src/gated-signer.ts: `signMandateCreation`.
use atlas_rail.Common.{
  get_elem?, ℕ, zero, suc, String, Bool, true, false, not, ◌&&◌, ◌||◌, Option, none, some, List, [],
  ◌∷◌, nat_eqb, ◌==◌, string_eq, Result, ok, err, ◌>>◌, throw_if, if◌then◌else◌,
}

-- A deserialized Solana transaction, as far as the signer reads it.
pub record Instruction : Type 0 where
  pub program_id_index : ℕ
  pub account_key_indexes : List ℕ
  pub bytes : List ℕ

pub record DecodedTransaction : Type 0 where
  pub account_keys : List String
  pub instructions : List Instruction
  pub address_table_lookups : ℕ
  pub is_account_writable : ℕ → Bool
  pub message_hash : String

-- What the signer takes from the Solana library and from the wallet inside: deserializing, none where
-- it throws, and signing a transaction, none where it throws. The discriminator is the first eight
-- bytes of a SHA-256.
pub record TransactionWallet : Type 0 where
  pub decode_transaction : String → Option DecodedTransaction
  pub sign_transaction : String → Option String
  pub create_mandate_discriminator : List ℕ
  pub mandate_program_id : String

-- `xs.indexOf(x)`, none for -1
unfoldable pub index_of : String → List String → Option ℕ
index_of key [] = none
index_of key (k ∷ keys) =
    let rest = index_of key keys in
    if k == key then some 0 else elim rest [ none ↦ none | some i ↦ some (suc i) ]

unfoldable pub first_bytes : ℕ → List ℕ → List ℕ
first_bytes zero bytes = []
first_bytes (suc n) [] = []
first_bytes (suc n) (b ∷ bytes) = b ∷ first_bytes n bytes

unfoldable pub same_bytes : List ℕ → List ℕ → Bool
same_bytes [] [] = true
same_bytes [] (b ∷ bs) = false
same_bytes (a ∷ rest) [] = false
same_bytes (a ∷ rest) (b ∷ bs) = nat_eqb a b && same_bytes rest bs

-- `keys[index] === key`, with an index that may be undefined
abbrev pub holds_key : List String → Option ℕ → String → Bool
holds_key keys none key = false
holds_key keys (some i) key = elim (get_elem? keys i) [ none ↦ false | some k ↦ k == key ]

pub data CreationRefusal : Type 0 where
  creation_undecodable several_instructions other_program other_instruction other_agent :
      CreationRefusal
  agent_pays_or_writes creation_failed : CreationRefusal

-- The one instruction, of a transaction without address table lookups.
abbrev pub only_instruction : ℕ → List Instruction → Option Instruction
only_instruction zero (create ∷ []) = some create
only_instruction lookups instructions = none

-- Whether the key is at the given place of the account keys in a way that lets it pay or change.
unfoldable pub may_pay : DecodedTransaction → String → Bool
may_pay tx key = elim (index_of key tx.account_keys) [
  | none ↦ false
  | some i ↦ nat_eqb i 0 || tx.is_account_writable i
]

unfoldable pub check_creation :
    TransactionWallet
    → String
    → DecodedTransaction
    → Instruction
    → Result CreationRefusal (Unit {0})
check_creation wallet key tx create = do
  throw_if
      (not (holds_key tx.account_keys (some create.program_id_index) wallet.mandate_program_id))
      CreationRefusal.other_program
  throw_if (not (same_bytes (first_bytes 8 create.bytes) wallet.create_mandate_discriminator))
      CreationRefusal.other_instruction
  throw_if (not (holds_key tx.account_keys (get_elem? create.account_key_indexes 3) key))
      CreationRefusal.other_agent
  throw_if (may_pay tx key) CreationRefusal.agent_pays_or_writes
  ok tt

-- The wallet inside, after a check.
unfoldable pub sign_checked :
    TransactionWallet → String → Result CreationRefusal (Unit {0}) → Result CreationRefusal String
sign_checked wallet transaction (err e) = err e
sign_checked wallet transaction (ok done) = elim (wallet.sign_transaction transaction) [
  | none ↦ err CreationRefusal.creation_failed
  | some signed ↦ ok signed
]

-- `signMandateCreation`
unfoldable pub sign_mandate_creation :
    TransactionWallet → String → String → Result CreationRefusal String
sign_mandate_creation wallet key transaction = elim (wallet.decode_transaction transaction) [
  | none ↦ err CreationRefusal.creation_undecodable
  | some tx ↦ elim (only_instruction tx.address_table_lookups tx.instructions) [
    | none ↦ err CreationRefusal.several_instructions
    | some create ↦ sign_checked wallet transaction (check_creation wallet key tx create)
  ]
]
