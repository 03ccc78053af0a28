-- ===== src/Prelude/Decimal.antt =====
-- Decimal numerals, as `%d` prints them.
use Prim.Native.Nat.{ℕ, zero, suc, ◌/◌, ◌%◌}
use Prim.Native.String.{String}
use infrawatch.Prelude.Tests.{ltb, if◌then◌else◌}
use infrawatch.Prelude.Int.{ℤ, pos, negsuc}
use mathlib.Core.Path.{◌≡◌, refl}
use Prim.Native.String.{◌++◌, slice}

digit : ℕ → String
digit d = slice "0123456789" d (suc d)

decimal_within : ℕ → ℕ → String
unfolding digit
decimal_within zero n = ""
decimal_within (suc fuel) n =
    let rest = decimal_within fuel (n / 10) in (if ltb n 10 then "" else rest) ++ digit (n % 10)

-- A number has at most as many digits as it counts, or one: the fuel is enough.
unfoldable pub decimal : ℕ → String
unfolding decimal_within
decimal n = decimal_within (suc n) n

unfoldable pub decimal_ℤ : ℤ → String
decimal_ℤ (pos n) = decimal n
decimal_ℤ (negsuc n) = "-" ++ decimal (suc n)

decimal_0 : decimal 0 ≡ "0"
unfolding decimal decimal_within digit
decimal_0 = refl

decimal_1230 : decimal 1230 ≡ "1230"
unfolding decimal decimal_within digit
decimal_1230 = refl
