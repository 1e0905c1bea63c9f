-- ===== src/Compute/Arguments.antt =====
-- parse_iterations and main of src/compute/compute_worker.cpp, and the arguments that launch of
-- src/compute/compute_process.cpp gives them.
use robot_harness.Base.{
  ℕ, String, Bool, true, false, not, Option, none, some, List, [], ◌∷◌, ◌+◌, ◌-◌, ◌*◌, ◌&&◌, ltb,
  leb, u64_max, str_eq, if◌then◌else◌,
}
use Prim.Native.Char.{code}
use robot_harness.Decimal.{to_string}
use robot_harness.Compute.Worker.{Channels, Exit, run_worker}
use robot_harness.Compute.Process.{Process}
pub mod Parsed

abbrev pub is_digit : ℕ → Bool
is_digit c = leb b'0' c && leb c b'9'

-- A number of 64 bits and the decimal digits that follow, up to the end of the text.
unfoldable pub read_digits : ℕ → String → Option ℕ
read_digits value String.[] = some value
read_digits value (String.◌∷◌ c rest) =
    let next = value * 10 + (code c - 48) in
    let tail = read_digits next rest in if is_digit (code c) && leb next u64_max then tail else none

-- `std::from_chars` of 64 bits, where it reads the whole text: with no digit, with something else or
-- out of range it does not.
unfoldable pub from_chars : String → Option ℕ
from_chars String.[] = none
from_chars (String.◌∷◌ c rest) = read_digits 0 (String.◌∷◌ c rest)

abbrev pub within_maximum : Option ℕ → Option ℕ
within_maximum none = none
within_maximum (some iterations) =
    if ltb 0 iterations && leb iterations 100000000 then some iterations else none

-- parse_iterations, of the arguments after the name of the program.
unfoldable pub parse_iterations : List String → Option ℕ
parse_iterations (option ∷ argument ∷ []) =
    if str_eq option "--iterations" then within_maximum (from_chars argument) else none
parse_iterations _ = none

-- main, where the signal set-up succeeds or not.
unfoldable pub main : Bool → Channels → List String → Exit
main installed c arguments = elim (parse_iterations arguments) [
  | none ↦ (some 21, [])
  | some iterations ↦ if installed then run_worker c iterations else (some 21, [])
]

-- What launch passes after the name of the program.
unfoldable pub launch_arguments : Process → List String
launch_arguments p = "--iterations" ∷ to_string p.iterations ∷ []
