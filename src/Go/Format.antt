-- ===== src/Go/Format.antt =====
-- `fmt.Sprintf` of numbers: the verbs `%d` and `%02d`, on numbers that are not negative.
pub mod Fuel
pub mod Digits
use kibertas.Prelude.{ℕ, zero, suc, ◌+◌, ◌/◌, ◌%◌, String, ◌<>◌, ltb, if◌then◌else◌}

-- The text of one decimal digit.
abbrev pub digit : ℕ → String
digit zero = "0"
digit (suc zero) = "1"
digit (suc (suc zero)) = "2"
digit (suc (suc (suc zero))) = "3"
digit (suc (suc (suc (suc zero)))) = "4"
digit (suc (suc (suc (suc (suc zero))))) = "5"
digit (suc (suc (suc (suc (suc (suc zero)))))) = "6"
digit (suc (suc (suc (suc (suc (suc (suc zero))))))) = "7"
digit (suc (suc (suc (suc (suc (suc (suc (suc zero)))))))) = "8"
digit _ = "9"

-- The decimal digits of `n`, with fuel for their number.
pub decimal_digits : ℕ → ℕ → String
decimal_digits zero n = ""
decimal_digits (suc fuel) n =
    let front = decimal_digits fuel (n / 10) in (if ltb n 10 then "" else front) <> digit (n % 10)

-- `%d`. A number has at most as many digits as `n + 1`.
unfoldable pub decimal : ℕ → String
unfolding decimal_digits
decimal n = decimal_digits (n + 1) n

-- `%02d`
unfoldable pub decimal_02 : ℕ → String
unfolding decimal
decimal_02 n = if ltb n 10 then "0" <> decimal n else decimal n
