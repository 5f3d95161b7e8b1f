-- ===== src/Receipt/Merkle.antt =====
-- packages/receipt/src/merkle.ts: Merkle roots and inclusion proofs. Bytes are lists of numbers.
use atlas_rail.Common.{
  ℕ, zero, suc, ◌+◌, ◌-◌, ◌*◌, String, Bool, true, false, Option, none, some, List, [], ◌∷◌, ◌++◌,
  length, ltb, nat_eqb, ◌==◌, string_eq, Result, ok, err,
}

abbrev pub Bytes : Type 0
Bytes = List ℕ

-- The functions of @noble/hashes: SHA-256 and the conversions between bytes and lowercase hex; none
-- where `hexToBytes` throws.
pub record Hashing : Type 0 where
  pub sha256 : Bytes → Bytes
  pub bytes_to_hex : Bytes → String
  pub hex_to_bytes : String → Option Bytes

pub data Position : Type 0 where
  left right : Position

pub record MerkleStep : Type 0 where
  pub position : Position
  pub hash : String

pub data MerkleError : Type 0 where
  no_leaves index_out_of_range bad_hex : MerkleError

-- The rounds of the loop of `splitPoint`; `n` of them are enough, since each doubles `k`.
unfoldable pub split_rounds : ℕ → ℕ → ℕ → ℕ
split_rounds zero k n = k
split_rounds (suc f) k n = elim (ltb (k * 2) n) [ true ↦ split_rounds f (k * 2) n | false ↦ k ]

unfoldable pub split_point : ℕ → ℕ
split_point n = split_rounds n 1 n

-- `leaves[index]`, which every call below keeps in range.
unfoldable pub leaf_at : List Bytes → ℕ → Bytes
leaf_at [] index = []
leaf_at (leaf ∷ leaves) zero = leaf
leaf_at (leaf ∷ leaves) (suc index) = leaf_at leaves index

module _ ⦃hashing : Hashing⦄ where
  unfoldable pub hash_leaf : String → Option Bytes
  hash_leaf leaf_hex = elim (hashing.hex_to_bytes leaf_hex) [
    | none ↦ none
    | some leaf ↦ some (hashing.sha256 (0x00 ∷ leaf))
  ]

  unfoldable pub hash_node : Bytes → Bytes → Bytes
  hash_node a b = hashing.sha256 (0x01 ∷ a ++ b)

  -- The hash of the leaves from `lo` to `hi`. Each call has at least one leaf fewer, so as many calls
  -- as there are leaves are enough.
  unfoldable pub mth : ℕ → List Bytes → ℕ → ℕ → Bytes
  mth zero leaves lo hi = []
  mth (suc f) leaves lo hi = elim (nat_eqb (hi - lo) 1) [
    | true ↦ leaf_at leaves lo
    | false ↦
        let k = split_point (hi - lo) in
        hash_node (mth f leaves lo (lo + k)) (mth f leaves (lo + k) hi)
  ]

  unfoldable pub build_path : ℕ → List Bytes → ℕ → ℕ → ℕ → List MerkleStep
  unfolding mth
  build_path zero leaves index lo hi = []
  build_path (suc f) leaves index lo hi = elim (nat_eqb (hi - lo) 1) [
    | true ↦ []
    | false ↦
        let k = split_point (hi - lo) in
        elim (ltb index (lo + k)) [
          | true ↦
              build_path f leaves index lo (lo + k)
              ++ record {
                position = Position.right;
                hash = hashing.bytes_to_hex (mth f leaves (lo + k) hi);
              }
                ∷ []
          | false ↦
              build_path f leaves index (lo + k) hi
              ++ record {
                position = Position.left;
                hash = hashing.bytes_to_hex (mth f leaves lo (lo + k));
              }
                ∷ []
        ]
  ]

  -- `leavesHex.map(hashLeaf)`, which throws where a leaf is not hex.
  unfoldable pub hash_leaves : List String → Option (List Bytes)
  unfolding hash_leaf
  hash_leaves [] = some []
  hash_leaves (leaf ∷ leaves) = elim (hash_leaf leaf) [
    | none ↦ none
    | some h ↦ elim (hash_leaves leaves) [ none ↦ none | some hs ↦ some (h ∷ hs) ]
  ]

  unfoldable pub leaf_hashes : List String → Result MerkleError (List Bytes)
  unfolding hash_leaves
  leaf_hashes [] = err MerkleError.no_leaves
  leaf_hashes (leaf ∷ leaves) = elim (hash_leaves (leaf ∷ leaves)) [
    | none ↦ err MerkleError.bad_hex
    | some hashes ↦ ok hashes
  ]

  unfoldable pub merkle_root : List String → Result MerkleError String
  unfolding leaf_hashes mth
  merkle_root leaves_hex = elim (leaf_hashes leaves_hex) [
    | err e ↦ err e
    | ok leaves ↦ ok (hashing.bytes_to_hex (mth (length leaves) leaves 0 (length leaves)))
  ]

  unfoldable pub merkle_proof : List String → ℕ → Result MerkleError (List MerkleStep)
  unfolding leaf_hashes build_path
  merkle_proof leaves_hex index = elim (leaf_hashes leaves_hex) [
    | err e ↦ err e
    | ok leaves ↦ elim (ltb index (length leaves)) [
      | true ↦ ok (build_path (length leaves) leaves index 0 (length leaves))
      | false ↦ err MerkleError.index_out_of_range
    ]
  ]

  abbrev pub join : Position → Bytes → Bytes → Bytes
  join Position.left sibling running = hash_node sibling running
  join Position.right sibling running = hash_node running sibling

  -- One turn of the loop of `verifyMerkleProof`; none where it returns false or throws.
  unfoldable pub climb : MerkleStep → Bytes → Option Bytes
  climb step running = elim (hashing.hex_to_bytes step.hash) [
    | none ↦ none
    | some sibling ↦ elim (nat_eqb (length sibling) 32) [
      | true ↦ some (join step.position sibling running)
      | false ↦ none
    ]
  ]

  unfoldable pub climb_all : List MerkleStep → Bytes → Option Bytes
  unfolding climb
  climb_all [] running = some running
  climb_all (step ∷ steps) running = elim (climb step running) [
    | none ↦ none
    | some next ↦ climb_all steps next
  ]

  unfoldable pub verify_merkle_proof : String → List MerkleStep → String → Bool
  unfolding hash_leaf climb_all
  verify_merkle_proof leaf_hex proof root_hex = elim (hash_leaf leaf_hex) [
    | none ↦ false
    | some running ↦ elim (climb_all proof running) [
      | none ↦ false
      | some top ↦ hashing.bytes_to_hex top == root_hex
    ]
  ]
