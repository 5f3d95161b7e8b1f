-- ===== src/Receipt/Examples.antt =====
-- A Merkle tree of three leaves (packages/receipt/src/merkle.ts).
use atlas_rail.Common.{
  ◌<◌, ◌≤◌, ◌*◌, arith, ℕ, zero, suc, ◌+◌, ◌≡◌, refl, ap, String, true, some, List, [], ◌∷◌, ok,
}
use atlas_rail.Receipt.Merkle.{
  Bytes, Hashing, split_point, MerkleStep, hash_leaves, merkle_proof, merkle_root,
  verify_merkle_proof,
}
use atlas_rail.Receipt.Inclusion.{IsSound, split_point-bounds, verify-merkle_proof}

replicated : ℕ → ℕ → Bytes
replicated zero n = []
replicated (suc k) n = n ∷ replicated k n

total : Bytes → ℕ
total [] = 0
total (n ∷ ns) = n + total ns

-- As many characters as the number says.
tally : ℕ → String
tally zero = String.[]
tally (suc n) = String.◌∷◌ "a" (tally n)

count : String → ℕ
count String.[] = 0
count (String.◌∷◌ c s) = suc (count s)

count-tally : (n : ℕ) → count (tally n) ≡ n
unfolding count tally
count-tally zero = refl
count-tally (suc n) = ap suc (count-tally n)

first : Bytes → ℕ
first [] = 0
first (n ∷ ns) = n

-- A digest repeats the sum of the bytes, and its text has as many characters.
instance abbrev hashing : Hashing
hashing = record {
  sha256 = λ b. replicated 32 (total b);
  bytes_to_hex = λ b. tally (first b);
  hex_to_bytes = λ s. some (replicated 32 (count s));
}

hashing-IsSound : IsSound
unfolding replicated first
hashing-IsSound = record {
  hex_round = λ b. ap (λ n. some (replicated 32 n)) (count-tally (total b));
  digest_length = λ b. refl;
}

abbrev leaves : List String
leaves = "a" ∷ "aa" ∷ "aaaa" ∷ []

abbrev hashes : List Bytes
hashes =
    hashing.sha256 (0 ∷ replicated 32 1)
    ∷ hashing.sha256 (0 ∷ replicated 32 2)
    ∷ hashing.sha256 (0 ∷ replicated 32 4)
    ∷ []

leaves_hashed : hash_leaves leaves ≡ some hashes
unfolding hash_leaves count
leaves_hashed = refl

verify-merkle_proof_example :
    (proof : List MerkleStep) × (root : String) × (merkle_proof leaves 2 ≡ ok proof)
    × (merkle_root leaves ≡ ok root)
    × (verify_merkle_proof "aaaa" proof root ≡ true)
verify-merkle_proof_example =
    verify-merkle_proof hashing-IsSound leaves hashes 2 "aaaa" leaves_hashed refl

split_point-bounds_example : (0 < split_point 7) × (split_point 7 < 7) × (7 ≤ 2 * split_point 7)
split_point-bounds_example = split_point-bounds 7 (omega arith)
