-- ===== src/Voucher/Encoding.antt =====
-- The bytes of a voucher (packages/x402-client/src/voucher.ts, `encodeVoucherMessage`) say what it is
-- about.
use atlas_rail.Common.{
  ℕ, zero, suc, ◌*◌, ◌/◌, ◌<◌, List, [], ◌∷◌, ◌++◌, length, length-append, ◌≡◌, refl, sym, ◌∙◌,
  arith,
}
use atlas_rail.Voucher.Ledger.{little_endian, encode_voucher_message}

-- What fits into a number of bytes.
abbrev pub bound : ℕ → ℕ
bound zero = 1
bound (suc k) = 256 * bound k

length-little_endian : (k n : ℕ) → length (little_endian k n) ≡ k
unfolding little_endian
length-little_endian zero n = refl
length-little_endian (suc k) n = omega (arith, length-little_endian k (n / 256))

tail-same : {x y : ℕ} {xs ys : List ℕ} → ◌≡◌ {A = List ℕ} (x ∷ xs) (y ∷ ys) → (x ≡ y) × (xs ≡ ys)
tail-same h = ground arith

little_endian_injective :
    (k a b : ℕ) → a < bound k → b < bound k → little_endian k a ≡ little_endian k b → a ≡ b
unfolding little_endian
little_endian_injective zero a b h g e = omega (arith, h, g)
little_endian_injective (suc k) a b h g e =
    let (low, high) = tail-same e in
    omega (
      arith,
      low,
      h,
      g,
      little_endian_injective k (a / 256) (b / 256) (omega (arith, h)) (omega (arith, g)) high,
    )

append_injective :
    (xs ys us vs : List ℕ) → length xs ≡ length ys → xs ++ us ≡ ys ++ vs → (xs ≡ ys) × (us ≡ vs)
append_injective [] [] us vs h e = (refl, e)
append_injective [] (y ∷ ys) us vs h e = absurd (omega (arith, h))
append_injective (x ∷ xs) [] us vs h e = absurd (omega (arith, h))
append_injective (x ∷ xs) (y ∷ ys) us vs h e =
    let (same, rest) = tail-same e in
    let (p, q) = append_injective xs ys us vs (omega (arith, h)) rest in
    (ground (arith, same, p), q)

-- A voucher message has fifty bytes, and two that are equal are for the same channel, the same
-- cumulative amount and the same expiry, where the channels have thirty-two bytes and the numbers are
-- below two to the power of sixty-four.
pub encode_injective :
    (c d : List ℕ) (a b s t : ℕ)
    → length c ≡ 32
    → length d ≡ 32
    → a < bound 8
    → b < bound 8
    → s < bound 8
    → t < bound 8
    → (length (encode_voucher_message c a s) ≡ 50)
      × (encode_voucher_message c a s ≡ encode_voucher_message d b t → (c ≡ d) × (a ≡ b) × (s ≡ t))
unfolding encode_voucher_message
encode_injective c d a b s t lc ld ha hb hs ht = (
  omega (
    arith,
    lc,
    length-append c (little_endian 8 a ++ little_endian 8 s),
    length-append (little_endian 8 a) (little_endian 8 s),
    length-little_endian 8 a,
    length-little_endian 8 s,
  ),
  λ e.
      let (channels, numbers) =
        append_injective c d _ _ (lc ∙ sym ld) (tail-same (tail-same e).1).1 in
      let (amounts, expiries) =
        append_injective (little_endian 8 a) (little_endian 8 b) _ _
          (length-little_endian 8 a ∙ sym (length-little_endian 8 b)) numbers in
      (
        channels,
        little_endian_injective 8 a b ha hb amounts,
        little_endian_injective 8 s t hs ht expiries,
      ),
)
