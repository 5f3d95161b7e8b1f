-- ===== src/Voucher/Charging.antt =====
-- Reservations of the voucher ledger (packages/x402-client/src/voucher.ts, `VoucherBudgetLedger`): what
-- they charge, and that a rollback takes them back.
use mathlib.Core.Path.{}
use atlas_rail.Common.{
  ℕ, ◌+◌, ◌-◌, ◌<◌, String, true, false, Option, none, some, Option-cases, Bool-cases, inl, inr,
  List, [], ◌∷◌, Member, contains_iff, ◌==◌, string_eq, beq_refl, ok, ◌≡◌, ◌↔◌, arith,
}
use atlas_rail.Voucher.Ledger.{
  Watermark, Ledger, known_in, set_watermark, delete_watermark, known_watermark, ReserveInput,
  Reservation, is_watermark, reserved_ledger, reserve_voucher, restore_watermark, rollback,
}

delete-set :
    (channel : String) (amount : ℕ) (ms : List Watermark)
    → known_in channel ms ≡ none
    → delete_watermark channel (set_watermark channel amount ms) ≡ ms
unfolding known_in set_watermark delete_watermark
delete-set channel amount [] h = ground (arith, beq_refl channel)
delete-set channel amount (m ∷ ms) h = ground (arith, delete-set channel amount ms)

set-set :
    (channel : String) (old amount : ℕ) (ms : List Watermark)
    → known_in channel ms ≡ some old
    → set_watermark channel old (set_watermark channel amount ms) ≡ ms
unfolding known_in set_watermark
set-set channel old amount [] h = absurd (ground arith)
set-set channel old amount (m ∷ ms) h = elim (Bool-cases (m.channel == channel)) [
  | inr e ↦ ground (arith, set-set channel old amount ms)
  | inl e ↦ ground (arith, beq_refl channel, string_eq.beq_iff m.channel channel)
]

restore-set :
    (channel : String) (amount : ℕ) (ms : List Watermark)
    → restore_watermark channel (known_in channel ms) (set_watermark channel amount ms) ≡ ms
restore-set channel amount ms = elim (Option-cases (known_in channel ms)) [
  | inl e ↦ rw e (delete-set channel amount ms e)
  | inr (old, e) ↦ rw e (set-set channel old amount ms e)
]

known-set :
    (channel : String) (amount : ℕ) (ms : List Watermark)
    → known_in channel (set_watermark channel amount ms) ≡ some amount
unfolding known_in set_watermark
known-set channel amount [] = ground (arith, beq_refl channel)
known-set channel amount (m ∷ ms) = ground (arith, beq_refl channel, known-set channel amount ms)

known-set_other :
    (channel other : String) (amount : ℕ) (ms : List Watermark)
    → (channel == other) ≡ false
    → known_in other (set_watermark channel amount ms) ≡ known_in other ms
unfolding known_in set_watermark
known-set_other channel other amount [] h = ground arith
known-set_other channel other amount (m ∷ ms) h = elim (Bool-cases (m.channel == channel)) [
  | inr e ↦ ground (arith, known-set_other channel other amount ms h)
  | inl e ↦ ground (arith, string_eq.beq_iff m.channel channel)
]

is_watermark_iff : (n : ℕ) (o : Option ℕ) → (is_watermark n o ≡ true) ↔ (o ≡ some n)
is_watermark_iff n none = ground arith
is_watermark_iff n (some m) = ground arith

pub reserved-parts :
    (l v : Ledger) (i : ReserveInput) (r : Reservation)
    → reserve_voucher l i ≡ ok (r, v)
    → (r ≡ record { delta = i.cumulative - i.settled; previous = known_watermark l i.channel })
      × (v ≡ reserved_ledger l i)
      × (i.settled < i.cumulative)
unfolding reserve_voucher
reserved-parts l v i r h = ground arith

-- A reservation is made exactly for a voucher that was not presented before, at the last accepted
-- watermark where the caller says that the channel was seen, and above the settled amount.
pub reserve_iff :
    (l : Ledger) (i : ReserveInput)
    → ((r : Reservation) × (v : Ledger) × (reserve_voucher l i ≡ ok (r, v))) ↔ (
        (¬ Member i.hash l.seen)
        × (i.seen_channel ≡ true → known_watermark l i.channel ≡ some i.settled)
        × (i.settled < i.cumulative))
unfolding reserve_voucher
reserve_iff l i = (
  λ h. (
    λ m. ground (arith, h.2, contains_iff i.hash l.seen),
    λ s. ground (arith, h.2, is_watermark_iff i.settled (known_watermark l i.channel)),
    ground (arith, h.2),
  ),
  λ h. (
    record { delta = i.cumulative - i.settled; previous = known_watermark l i.channel },
    reserved_ledger l i,
    ground (
      arith,
      contains_iff i.hash l.seen,
      is_watermark_iff i.settled (known_watermark l i.channel),
    ),
  ),
)

-- A reservation charges the voucher's amount above the settled watermark, and moves the watermark of
-- its channel up to it and no other; taking it back leaves the ledger exactly as it was.
pub rollback-reserve :
    (l v : Ledger) (i : ReserveInput) (r : Reservation)
    → reserve_voucher l i ≡ ok (r, v)
    → (v.spent_total + i.settled ≡ l.spent_total + i.cumulative)
      × (known_watermark v i.channel ≡ some i.cumulative)
      × ((other : String)
          → (i.channel == other) ≡ false
          → known_watermark v other ≡ known_watermark l other)
      × (rollback v i.channel r ≡ some l)
unfolding rollback
rollback-reserve l v i r h =
    let (same_r, same_v, above) = reserved-parts l v i r h in
    let ms = restore-set i.channel i.cumulative l.watermarks in
    rw (same_r, same_v)
      (
        ground (arith, above),
        known-set i.channel i.cumulative l.watermarks,
        λ other n. known-set_other i.channel other i.cumulative l.watermarks n,
        ground (arith, above, ms),
      )
