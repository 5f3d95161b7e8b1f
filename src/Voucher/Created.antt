-- ===== src/Voucher/Created.antt =====
-- What the gated signer lets the agent's key co-sign
-- (packages/x402-client/src/gated-signer.ts, `signMandateCreation`).
use atlas_rail.Common.{
  get_elem?, ◌≤◌, ◌<◌, ◌==◌, ℕ, zero, suc, String, Bool, true, false, not, Option, none, some,
  Option-cases, Bool-cases, inl, inr, List, [], ◌∷◌, Result, ok, err, throw_if, >>=-eq-ok, ◌≡◌, ◌≢◌,
  refl, ap, ◌∙◌, string_eq, beq_refl, arith,
}
use atlas_rail.Voucher.Creation.{
  Instruction, DecodedTransaction, TransactionWallet, index_of, first_bytes, same_bytes, holds_key,
  CreationRefusal, only_instruction, may_pay, check_creation, sign_checked, sign_mandate_creation,
}

-- A transaction that does nothing but create a mandate for the key, which does not pay the fee and
-- whose account, the first with that key, is not writable.
pub record OnlyCreates (wallet : TransactionWallet) (key : String) (tx : DecodedTransaction)
    : Type 0 where
  pub create : Instruction
  pub only : tx.instructions ≡ create ∷ []
  pub no_lookups : tx.address_table_lookups ≡ 0
  pub program : get_elem? tx.account_keys create.program_id_index ≡ some wallet.mandate_program_id
  pub discriminator :
      same_bytes (first_bytes 8 create.bytes) wallet.create_mandate_discriminator ≡ true
  pub agent_index : ℕ
  pub agent_account : get_elem? create.account_key_indexes 3 ≡ some agent_index
  pub agent : get_elem? tx.account_keys agent_index ≡ some key
  pub place : ℕ
  pub at_place : get_elem? tx.account_keys place ≡ some key
  pub first : (j : ℕ) → get_elem? tx.account_keys j ≡ some key → place ≤ j
  pub not_payer : get_elem? tx.account_keys 0 ≢ some key
  pub not_written : tx.is_account_writable place ≡ false

holds_key-at :
    (keys : List String) (o : Option ℕ) (key : String)
    → holds_key keys o key ≡ true
    → (i : ℕ) × (o ≡ some i) × (get_elem? keys i ≡ some key)
holds_key-at keys none key h = absurd (ground arith)
holds_key-at keys (some i) key h = elim (Option-cases (get_elem? keys i)) [
  | inl e ↦ absurd (ground (arith, e))
  | inr (k, e) ↦ (i, refl, e ∙ ap some (ground (arith, e, string_eq.beq_iff k key)))
]

-- The first place of a key in a list.
abbrev IsFirst : String → List String → ℕ → Type 0
IsFirst key keys n = (get_elem? keys n ≡ some key) × ((j : ℕ) → get_elem? keys j ≡ some key → n ≤ j)

later-IsFirst :
    (key k : String) (keys : List String) (n : ℕ)
    → (k == key) ≡ false
    → IsFirst key keys n
    → IsFirst key (k ∷ keys) (suc n)
later-IsFirst key k keys n e (held, least) = (held, after)
  where
    after : (j : ℕ) → get_elem? (k ∷ keys) j ≡ some key → suc n ≤ j
    after zero h = absurd (ground (arith, string_eq.beq_iff k key))
    after (suc j) h = omega (arith, least j h)

-- `indexOf` finds the first place of a key that occurs.
index_of-IsFirst :
    (key : String) (keys : List String) (i : ℕ)
    → get_elem? keys i ≡ some key
    → (n : ℕ) × (index_of key keys ≡ some n) × IsFirst key keys n
unfolding index_of
index_of-IsFirst key [] i h = absurd (ground arith)
index_of-IsFirst key (k ∷ keys) zero h = (0, ground (arith, beq_refl key), (h, λ j g. omega arith))
index_of-IsFirst key (k ∷ keys) (suc i) h = elim (Bool-cases (k == key)) [
  | inl e ↦ (0, ground arith, (ground (arith, string_eq.beq_iff k key), λ j g. omega arith))
  | inr e ↦
      let (n, found, first) = index_of-IsFirst key keys i h in
      (suc n, ground (arith, found), later-IsFirst key k keys n e first)
]

may_pay-parts :
    (tx : DecodedTransaction) (key : String) (n : ℕ)
    → may_pay tx key ≡ false
    → index_of key tx.account_keys ≡ some n
    → (0 < n) × (tx.is_account_writable n ≡ false)
unfolding may_pay
may_pay-parts tx key n h e = ground arith

only_instruction-parts :
    (lookups : ℕ) (instructions : List Instruction) (create : Instruction)
    → only_instruction lookups instructions ≡ some create
    → (instructions ≡ create ∷ []) × (lookups ≡ 0)
only_instruction-parts zero [] create h = absurd (ground arith)
only_instruction-parts zero (c ∷ []) create h = ground arith
only_instruction-parts zero (c ∷ d ∷ rest) create h = absurd (ground arith)
only_instruction-parts (suc n) instructions create h = absurd (ground arith)

passed : {b : Bool} (e : CreationRefusal) {u : Unit {0}} → throw_if (not b) e ≡ ok u → b ≡ true
passed {b} e h = elim (Bool-cases b) [ inl t ↦ t | inr f ↦ absurd (ground (arith, f)) ]

not_thrown : {b : Bool} (e : CreationRefusal) {u : Unit {0}} → throw_if b e ≡ ok u → b ≡ false
not_thrown {b} e h = elim (Bool-cases b) [ inl t ↦ absurd (ground (arith, t)) | inr f ↦ f ]

check_creation-parts :
    (wallet : TransactionWallet) (key : String) (tx : DecodedTransaction) (create : Instruction)
    → check_creation wallet key tx create ≡ ok tt
    → (holds_key tx.account_keys (some create.program_id_index) wallet.mandate_program_id ≡ true)
      × (same_bytes (first_bytes 8 create.bytes) wallet.create_mandate_discriminator ≡ true)
      × (holds_key tx.account_keys (get_elem? create.account_key_indexes 3) key ≡ true)
      × (may_pay tx key ≡ false)
unfolding check_creation
check_creation-parts wallet key tx create h =
    let (_, first, rest) =
      >>=-eq-ok
        (throw_if
          (not (holds_key tx.account_keys (some create.program_id_index) wallet.mandate_program_id))
          CreationRefusal.other_program)
        _ h in
    let (_, second, more) =
      >>=-eq-ok
        (throw_if
          (not (same_bytes (first_bytes 8 create.bytes) wallet.create_mandate_discriminator))
          CreationRefusal.other_instruction)
        _ rest in
    let (_, third, last) =
      >>=-eq-ok
        (throw_if (not (holds_key tx.account_keys (get_elem? create.account_key_indexes 3) key))
          CreationRefusal.other_agent)
        _ more in
    let (_, fourth, _) =
      >>=-eq-ok (throw_if (may_pay tx key) CreationRefusal.agent_pays_or_writes) _ last in
    (
      passed CreationRefusal.other_program first,
      passed CreationRefusal.other_instruction second,
      passed CreationRefusal.other_agent third,
      not_thrown CreationRefusal.agent_pays_or_writes fourth,
    )

sign_checked-ok :
    (wallet : TransactionWallet) (transaction signed : String)
    (r : Result CreationRefusal (Unit {0}))
    → sign_checked wallet transaction r ≡ ok signed
    → r ≡ ok tt
unfolding sign_checked
sign_checked-ok wallet transaction signed (err e) h = absurd (ground arith)
sign_checked-ok wallet transaction signed (ok tt) h = refl

created-OnlyCreates :
    (wallet : TransactionWallet) (key : String) (tx : DecodedTransaction) (create : Instruction)
    → only_instruction tx.address_table_lookups tx.instructions ≡ some create
    → check_creation wallet key tx create ≡ ok tt
    → OnlyCreates wallet key tx
created-OnlyCreates wallet key tx create g h =
    let (only, lookups) =
      only_instruction-parts tx.address_table_lookups tx.instructions create g in
    let (for_program, same, for_agent, free) = check_creation-parts wallet key tx create h in
    let (_, place, program) =
      holds_key-at tx.account_keys (some create.program_id_index) wallet.mandate_program_id
        for_program in
    let (i, account, agent) =
      holds_key-at tx.account_keys (get_elem? create.account_key_indexes 3) key for_agent in
    let (place, found, (held, least)) = index_of-IsFirst key tx.account_keys i agent in
    let (after, unwritten) = may_pay-parts tx key place free found in
    record {
      create = create;
      only = only;
      no_lookups = lookups;
      program = ground (arith, place, program);
      discriminator = same;
      agent_index = i;
      agent_account = account;
      agent = agent;
      place = place;
      at_place = held;
      first = least;
      not_payer = λ h. omega (arith, after, least 0 h);
      not_written = unwritten;
    }

-- The signer co-signs a transaction that creates a mandate only if that is its one instruction, it is
-- for the Atlas Mandate program, names this key as the agent, and the key is not its fee payer and,
-- at its first place among the account keys, not writable.
pub creation-OnlyCreates :
    (wallet : TransactionWallet) (key transaction signed : String)
    → sign_mandate_creation wallet key transaction ≡ ok signed
    → (tx : DecodedTransaction) × (wallet.decode_transaction transaction ≡ some tx)
      × OnlyCreates wallet key tx
unfolding sign_mandate_creation
creation-OnlyCreates wallet key transaction signed h =
    elim (Option-cases (wallet.decode_transaction transaction)) [
      | inl e ↦ absurd (ground (arith, e))
      | inr (tx, e) ↦
          elim (Option-cases (only_instruction tx.address_table_lookups tx.instructions)) [
            | inl g ↦ absurd (ground (arith, e, g))
            | inr (create, g) ↦ (
              tx,
              e,
              created-OnlyCreates wallet key tx create g (
                  sign_checked-ok wallet transaction signed (check_creation wallet key tx create)
                    (ground (arith, e, g))),
            )
          ]
    ]
