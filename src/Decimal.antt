-- ===== src/Decimal.antt =====
-- `std::to_string` of a 64-bit number.
use robot_harness.Base.{ℕ, zero, suc, String, ◌/◌, ◌%◌, ◌==◌, ltb, if◌then◌else◌}
use Prim.Native.String.{◌++◌ as text_append}

abbrev pub digit : ℕ → String
digit n =
    if n == 0
    then "0"
    else if n == 1
    then "1"
    else if n == 2
    then "2"
    else if n == 3
    then "3"
    else if n == 4
    then "4"
    else if n == 5
    then "5"
    else if n == 6
    then "6"
    else if n == 7
    then "7"
    else if n == 8
    then "8"
    else "9"

-- The digits of a number of at most so many digits.
unfoldable pub digits : ℕ → ℕ → String
digits zero n = digit n
digits (suc k) n =
    let rest = digits k (n / 10) in if ltb n 10 then digit n else text_append rest (digit (n % 10))

-- A 64-bit number has at most 20 digits.
unfoldable pub to_string : ℕ → String
unfolding digits
to_string n = digits 20 n
