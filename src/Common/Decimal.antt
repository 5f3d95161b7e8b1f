-- ===== src/Common/Decimal.antt =====
-- Decimal text of a natural number, as JavaScript's template literals and `BigInt.toString` write it.
use Prim.Native.Nat.{ℕ, zero, suc, ◌/◌, ◌%◌}
use Prim.Native.String.{String, ◌++◌}
use mathlib.Core.Bool.{true, false}
use atlas_rail.Common.Tests.{nat_eqb}

unfoldable pub digit_text : ℕ → String
digit_text zero = "0"
digit_text (suc zero) = "1"
digit_text (suc (suc zero)) = "2"
digit_text (suc (suc (suc zero))) = "3"
digit_text (suc (suc (suc (suc zero)))) = "4"
digit_text (suc (suc (suc (suc (suc zero))))) = "5"
digit_text (suc (suc (suc (suc (suc (suc zero)))))) = "6"
digit_text (suc (suc (suc (suc (suc (suc (suc zero))))))) = "7"
digit_text (suc (suc (suc (suc (suc (suc (suc (suc zero)))))))) = "8"
digit_text (suc (suc (suc (suc (suc (suc (suc (suc (suc n))))))))) = "9"

-- The digits of `n`, most significant first; `n + 1` rounds are enough, since each divides by ten.
unfoldable pub decimal_rounds : ℕ → ℕ → String
unfolding digit_text
decimal_rounds zero n = ""
decimal_rounds (suc f) n = elim (nat_eqb (n / 10) 0) [
  | true ↦ digit_text n
  | false ↦ decimal_rounds f (n / 10) ++ digit_text (n % 10)
]

unfoldable pub decimal : ℕ → String
unfolding decimal_rounds
decimal n = decimal_rounds (suc n) n
