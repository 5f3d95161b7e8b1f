-- ===== src/Receipt/Inclusion.antt =====
-- That the proofs of packages/receipt/src/merkle.ts verify.
use atlas_rail.Common.{
  get_elem?, ℕ, zero, suc, ◌+◌, ◌-◌, ◌*◌, ◌≤◌, ◌<◌, ◌≡◌, refl, String, true, some, List, [], ◌∷◌,
  ◌++◌, length, ltb, nat_eqb, arith, ok, Option-cases, Bool-cases, inl, inr, beq_refl, All,
  nat_eqb_iff, ◌∙◌, string_eq,
}
use atlas_rail.Receipt.Merkle.{
  Bytes, Hashing, Position, MerkleStep, split_rounds, split_point, leaf_at, hash_leaf, hash_node,
  mth, build_path, hash_leaves, leaf_hashes, merkle_root, merkle_proof, join, climb, climb_all,
  verify_merkle_proof,
}

split_rounds-bounds :
    (f k n : ℕ) → 0 < k → k < n → (0 < split_rounds f k n) × (split_rounds f k n < n)
unfolding split_rounds
split_rounds-bounds zero k n p l = (p, l)
split_rounds-bounds (suc f) k n p l = elim (Bool-cases (ltb (k * 2) n)) [
  | inl e ↦ rw (split_rounds, e) (split_rounds-bounds f (k * 2) n (omega arith) (ground arith))
  | inr e ↦ rw (split_rounds, e) (p, l)
]

split_rounds-half : (f k n : ℕ) → 0 < k → n ≤ k + f → n ≤ 2 * split_rounds f k n
unfolding split_rounds
split_rounds-half zero k n p e = omega arith
split_rounds-half (suc f) k n p e = elim (Bool-cases (ltb (k * 2) n)) [
  | inl more ↦ rw (split_rounds, more) (split_rounds-half f (k * 2) n (omega arith) (omega arith))
  | inr done ↦ rw (split_rounds, done) (ground arith)
]

-- The point at which more than one leaf is split is positive, below their number, and at least half
-- of it, so that both parts have leaves and the left one is not smaller.
pub split_point-bounds :
    (n : ℕ) → 1 < n → (0 < split_point n) × (split_point n < n) × (n ≤ 2 * split_point n)
unfolding split_point
split_point-bounds n l =
    let (positive, below) = split_rounds-bounds n 1 n (omega arith) l in
    (positive, below, split_rounds-half n 1 n (omega arith) (omega arith))

module _ ⦃hashing : Hashing⦄ where
  climb_nothing : (running : Bytes) → climb_all [] running ≡ some running
  unfolding climb_all
  climb_nothing running = refl

  climb_all-append :
      (steps : List MerkleStep) (step : MerkleStep) (running top : Bytes)
      → climb_all steps running ≡ some top
      → climb_all (steps ++ step ∷ []) running ≡ climb_all (step ∷ []) top
  unfolding climb_all
  climb_all-append [] step running top h = ground (arith, h)
  climb_all-append (first ∷ steps) step running top h = elim (Option-cases (climb first running)) [
    | inl e ↦ absurd (ground arith)
    | inr (next, e) ↦ ground (arith, climb_all-append steps step next top)
  ]

  -- What the code relies on: hex is a faithful text of a digest, which has 32 bytes.
  pub record IsSound : Type 0 where
    pub hex_round :
        (b : Bytes)
        → hashing.hex_to_bytes (hashing.bytes_to_hex (hashing.sha256 b)) ≡ some (hashing.sha256 b)
    pub digest_length : (b : Bytes) → length (hashing.sha256 b) ≡ 32

  abbrev IsDigest : Bytes → Type 0
  IsDigest b = (x : Bytes) × (b ≡ hashing.sha256 x)

  abbrev AllDigests : List Bytes → Type 0
  AllDigests leaves = All IsDigest leaves

  leaf_at-IsDigest :
      (leaves : List Bytes) (index : ℕ)
      → AllDigests leaves
      → index < length leaves
      → IsDigest (leaf_at leaves index)
  unfolding leaf_at
  leaf_at-IsDigest [] index d l = absurd (omega arith)
  leaf_at-IsDigest (leaf ∷ leaves) zero d l = d.0
  leaf_at-IsDigest (leaf ∷ leaves) (suc index) d l = leaf_at-IsDigest leaves index d.1 (omega arith)

  module _ (sound : IsSound) (leaves : List Bytes) (digests : AllDigests leaves) where
    mth-IsDigest :
        (f lo hi : ℕ) → lo < hi → hi ≤ length leaves → hi - lo ≤ f → IsDigest (mth f leaves lo hi)
    unfolding mth hash_node
    mth-IsDigest zero lo hi l r e = absurd (omega arith)
    mth-IsDigest (suc f) lo hi l r e = elim (Bool-cases (nat_eqb (hi - lo) 1)) [
      | inl one ↦ rw (mth, one) (leaf_at-IsDigest leaves lo digests (omega arith))
      | inr more ↦ rw (mth, more) (_, refl)
    ]

    climb_sibling :
        (position : Position) (sibling running : Bytes)
        → IsDigest sibling
        → climb_all
            (record { position = position; hash = hashing.bytes_to_hex sibling } ∷ [])
            running
          ≡ some (join position sibling running)
    unfolding climb_all
    climb_sibling position sibling running (x, d) = ground (
      arith,
      sound.hex_round x,
      sound.digest_length x,
      (nat_eqb_iff (length (hashing.sha256 x)) 32).1,
    )

    -- The path from a leaf climbs to the hash of the range.
    build_path-climbs :
        (f index lo hi : ℕ)
        → lo ≤ index
        → index < hi
        → hi ≤ length leaves
        → hi - lo ≤ f
        → climb_all (build_path f leaves index lo hi) (leaf_at leaves index)
          ≡ some (mth f leaves lo hi)
    unfolding build_path climb_all mth
    build_path-climbs zero index lo hi l r b e = absurd (omega arith)
    build_path-climbs (suc f) index lo hi l r b e = elim (Bool-cases (nat_eqb (hi - lo) 1)) [
      | inl one ↦
          let same : index ≡ lo = ground arith in
          rw (build_path, mth, one, same) (climb_nothing (leaf_at leaves lo))
      | inr more ↦
          let k = split_point (hi - lo) in
          let bounds = split_point-bounds (hi - lo) (ground arith) in
          elim (Bool-cases (ltb index (lo + k))) [
            | inl below ↦
                rw (build_path, mth, more, below)
                  (climb_all-append (build_path f leaves index lo (lo + k)) _ _ _ (
                      build_path-climbs f index lo (lo + k) l (ground arith) (omega (arith, bounds))
                        (omega (arith, bounds)))
                    ∙ climb_sibling Position.right (mth f leaves (lo + k) hi) _ (
                        mth-IsDigest f (lo + k) hi (omega (arith, bounds)) b
                          (omega (arith, bounds))))
            | inr above ↦
                rw (build_path, mth, more, above)
                  (climb_all-append (build_path f leaves index (lo + k) hi) _ _ _ (
                      build_path-climbs f index (lo + k) hi (ground arith) r b
                        (omega (arith, bounds)))
                    ∙ climb_sibling Position.left (mth f leaves lo (lo + k)) _ (
                        mth-IsDigest f lo (lo + k) (omega (arith, bounds)) (omega (arith, bounds))
                          (omega (arith, bounds))))
          ]
    ]

  -- The member at a position.
  -- The hashes of the leaves are digests, one for each leaf.
  record IsHashed (leaves_hex : List String) (leaves : List Bytes) : Type 0 where
    digests : AllDigests leaves
    count : length leaves ≡ length leaves_hex
    hashed :
        (index : ℕ) (leaf : String)
        → get_elem? leaves_hex index ≡ some leaf
        → (index < length leaves) × (hash_leaf leaf ≡ some (leaf_at leaves index))

  hash_leaf-IsDigest : (leaf : String) (h : Bytes) → hash_leaf leaf ≡ some h → IsDigest h
  unfolding hash_leaf
  hash_leaf-IsDigest leaf h e = elim (Option-cases (hashing.hex_to_bytes leaf)) [
    | inl bad ↦ absurd (ground arith)
    | inr (b, s) ↦ (0x00 ∷ b, ground arith)
  ]

  hash_leaves-IsHashed :
      (leaves_hex : List String) (leaves : List Bytes)
      → hash_leaves leaves_hex ≡ some leaves
      → IsHashed leaves_hex leaves
  unfolding hash_leaves leaf_at
  hash_leaves-IsHashed [] [] e = record { digests = tt; count = refl; hashed = λ index leaf g. cc }
  hash_leaves-IsHashed [] (h ∷ hs) e = absurd (ground arith)
  hash_leaves-IsHashed (leaf ∷ leaves_hex) leaves e = elim (Option-cases (hash_leaf leaf)) [
    | inl bad ↦ absurd (ground arith)
    | inr (h, good) ↦ elim (Option-cases (hash_leaves leaves_hex)) [
      | inl bad ↦ absurd (ground arith)
      | inr (hs, rest) ↦
          let tail = hash_leaves-IsHashed leaves_hex hs rest in
          let whole : leaves ≡ h ∷ hs = ground arith in
          rw whole (record {
            digests = (hash_leaf-IsDigest leaf h good, tail.digests);
            count = ground (arith, tail.count);
            hashed = λ index x g.
                elim index
                    as (λ i.
                      get_elem? (leaf ∷ leaves_hex) i ≡ some x
                      → (i < length (h ∷ hs)) × (hash_leaf x ≡ some (leaf_at (h ∷ hs) i))) [
                        | zero ↦ λ g. (ground arith, ground (arith, good))
                        | suc i ↦ λ g. (let t = tail.hashed i x g in (omega (arith, t.0), t.1))
                      ]
                  g;
          })
    ]
  ]

  -- For every leaf of a tree over leaves in hex there is a root and a proof, and the proof verifies for
  -- the leaf against the root, if hex is a faithful text of a digest, which has 32 bytes.
  pub verify-merkle_proof :
      IsSound
      → (leaves_hex : List String) (leaves : List Bytes) (index : ℕ) (leaf : String)
      → hash_leaves leaves_hex ≡ some leaves
      → get_elem? leaves_hex index ≡ some leaf
      → (proof : List MerkleStep) × (root : String) × (merkle_proof leaves_hex index ≡ ok proof)
        × (merkle_root leaves_hex ≡ ok root)
        × (verify_merkle_proof leaf proof root ≡ true)
  unfolding leaf_hashes merkle_root merkle_proof verify_merkle_proof
  verify-merkle_proof sound [] leaves index leaf e g = absurd (ground arith)
  verify-merkle_proof sound (first ∷ leaves_hex) leaves index leaf e g =
      let is = hash_leaves-IsHashed (first ∷ leaves_hex) leaves e in
      let (bound, hashed) = is.hashed index leaf g in
      let n = length leaves in
      let climbs =
        build_path-climbs sound leaves is.digests n index 0 n (omega arith) bound (omega arith)
          (omega arith) in
      let root = hashing.bytes_to_hex (mth n leaves 0 n) in
      (
        build_path n leaves index 0 n,
        root,
        ground (arith, e, bound),
        ground (arith, e),
        ground (arith, hashed, climbs, beq_refl root),
      )
