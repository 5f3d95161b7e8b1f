-- ===== src/Voucher/Ledger.antt =====
-- packages/x402-client/src/voucher.ts: `VoucherBudgetLedger`, and the voucher message. Amounts are
-- natural numbers; the queue of a channel only puts requests in an order.
use atlas_rail.Common.{
  ℕ, zero, suc, ◌+◌, ◌-◌, ◌/◌, ◌%◌, String, Bool, false, not, ◌&&◌, Option, none, some, List, [],
  ◌∷◌, ◌++◌, contains, leb, nat_eqb, ◌==◌, string_eq, if◌then◌else◌, Result, ok, ◌>>◌, throw_if,
}

-- The texts of `UnsupportedPaymentError`, and what else a request for a voucher throws.
pub data LedgerError : Type 0 where
  already_presented other_watermark not_above_watermark : LedgerError

pub record Watermark : Type 0 where
  pub channel : String
  pub amount : ℕ

pub record Ledger : Type 0 where
  pub watermarks : List Watermark
  pub seen : List String
  pub spent_total : ℕ
  pub spent_window : ℕ
  pub in_flight : ℕ

-- `watermark.get`, `watermark.set` and `watermark.delete`
unfoldable pub known_in : String → List Watermark → Option ℕ
known_in channel [] = none
known_in channel (m ∷ ms) =
    let rest = known_in channel ms in if m.channel == channel then some m.amount else rest

unfoldable pub set_watermark : String → ℕ → List Watermark → List Watermark
set_watermark channel amount [] = record { channel = channel; amount = amount } ∷ []
set_watermark channel amount (m ∷ ms) =
    let rest = set_watermark channel amount ms in
    if m.channel == channel then record { channel = channel; amount = amount } ∷ ms else m ∷ rest

unfoldable pub delete_watermark : String → List Watermark → List Watermark
delete_watermark channel [] = []
delete_watermark channel (m ∷ ms) =
    let rest = delete_watermark channel ms in if m.channel == channel then rest else m ∷ rest

abbrev pub known_watermark : Ledger → String → Option ℕ
known_watermark l channel = known_in channel l.watermarks

pub record ReserveInput : Type 0 where
  pub channel : String
  pub hash : String
  pub settled : ℕ
  pub cumulative : ℕ
  pub seen_channel : Bool

pub record Reservation : Type 0 where
  pub delta : ℕ
  pub previous : Option ℕ

-- `input.settled !== this.watermark.get(channel)`
abbrev pub is_watermark : ℕ → Option ℕ → Bool
is_watermark n none = false
is_watermark n (some m) = nat_eqb n m

abbrev pub reserved_ledger : Ledger → ReserveInput → Ledger
reserved_ledger l i = record l {
  watermarks = set_watermark i.channel i.cumulative l.watermarks;
  spent_total = l.spent_total + (i.cumulative - i.settled);
  spent_window = l.spent_window + (i.cumulative - i.settled);
  in_flight = suc l.in_flight;
}

unfoldable pub reserve_voucher : Ledger → ReserveInput → Result LedgerError (Reservation × Ledger)
reserve_voucher l i = do
  throw_if (contains i.hash l.seen) LedgerError.already_presented
  throw_if (i.seen_channel && not (is_watermark i.settled (known_watermark l i.channel)))
      LedgerError.other_watermark
  throw_if (leb i.cumulative i.settled) LedgerError.not_above_watermark
  ok (
    record { delta = i.cumulative - i.settled; previous = known_watermark l i.channel },
    reserved_ledger l i,
  )

abbrev pub restore_watermark : String → Option ℕ → List Watermark → List Watermark
restore_watermark channel none ms = delete_watermark channel ms
restore_watermark channel (some amount) ms = set_watermark channel amount ms

-- Nothing where an amount would fall below zero, which a number here cannot.
unfoldable pub rollback : Ledger → String → Reservation → Option Ledger
rollback l channel r =
    if leb r.delta l.spent_window && (leb r.delta l.spent_total && leb 1 l.in_flight)
    then some (record l {
      watermarks = restore_watermark channel r.previous l.watermarks;
      spent_total = l.spent_total - r.delta;
      spent_window = l.spent_window - r.delta;
      in_flight = l.in_flight - 1;
    })
    else none

-- Every commit follows a reservation, so that one is in flight.
abbrev pub commit : Ledger → Ledger
commit l = record l { in_flight = l.in_flight - 1 }

abbrev pub remember : Ledger → String → Ledger
remember l hash = record l { seen = hash ∷ l.seen }

-- The low bytes of a number, the lowest first.
unfoldable pub little_endian : ℕ → ℕ → List ℕ
little_endian zero n = []
little_endian (suc k) n = n % 256 ∷ little_endian k (n / 256)

-- The first bytes are the magic of a voucher; the channel has thirty-two, the numbers have eight.
unfoldable pub encode_voucher_message : List ℕ → ℕ → ℕ → List ℕ
encode_voucher_message channel cumulative expires_at =
    86 ∷ 1 ∷ (channel ++ (little_endian 8 cumulative ++ little_endian 8 expires_at))
