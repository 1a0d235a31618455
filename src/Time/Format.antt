-- ===== src/Time/Format.antt =====
-- fmt.Sprintf("%02d:%02d:00", hour, min), as operator/mapper and the controllers print a time of
-- day, with %02d for every int64.
use Prim.Native.String.{◌++◌}
use provider_exoscale.Prelude.{ℕ, zero, suc, ◌/◌, ◌%◌, String, if◌then◌else◌, ltb}
use provider_exoscale.Prelude.Int.{ℤ, pos, negsuc}
use provider_exoscale.Prelude.Tests.{◌==◌}

abbrev digit : ℕ → String
digit n =
    if n == 0
    then "0"
    else if n == 1
    then "1"
    else if n == 2
    then "2"
    else if n == 3
    then "3"
    else if n == 4
    then "4"
    else if n == 5
    then "5"
    else if n == 6
    then "6"
    else if n == 7
    then "7"
    else if n == 8
    then "8"
    else "9"

-- Twenty digits are enough for an int64.
unfoldable pub decimal : ℕ → ℕ → String
decimal zero n = ""
decimal (suc f) n =
    let more = decimal f (n / 10) ++ digit (n % 10) in if ltb n 10 then digit n else more

-- The width counts the sign, so only the numbers from 0 to 9 are padded.
unfoldable pub two_digits : ℤ → String
unfolding decimal
two_digits (pos n) = if ltb n 10 then "0" ++ digit n else decimal 20 n
two_digits (negsuc n) = "-" ++ decimal 20 (suc n)

unfoldable pub time_text : ℤ → ℤ → String
unfolding two_digits
time_text hour minute = two_digits hour ++ (":" ++ (two_digits minute ++ ":00"))
