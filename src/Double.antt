-- ===== src/Double.antt =====
-- The doubles that the code compares: a finite one is an integer multiple of 2 ^ -1074, and both
-- zeros are that of 0.
use robot_harness.Base.{Bool, true, false, not, ◌&&◌, ◌*◌, ◌^◌}
use robot_harness.Integer.{ℤ, pos, int_ltb}

pub data Double : Type 0 where
  nan : Double
  infinity : Bool → Double  -- whether it is negative
  finite : ℤ → Double

-- `std::isfinite`.
abbrev pub is_finite : Double → Bool
is_finite (finite _) = true
is_finite _ = false

-- `<`, which is false at NaN.
unfoldable pub double_ltb : Double → Double → Bool
double_ltb nan _ = false
double_ltb (infinity _) nan = false
double_ltb (infinity a) (infinity b) = a && not b
double_ltb (infinity a) (finite _) = a
double_ltb (finite _) nan = false
double_ltb (finite _) (infinity b) = not b
double_ltb (finite a) (finite b) = int_ltb a b

abbrev is_number : Double → Bool
is_number nan = false
is_number _ = true

-- `<=`.
unfoldable pub double_leb : Double → Double → Bool
unfolding double_ltb
double_leb a b = is_number a && is_number b && not (double_ltb b a)

-- The doubles nearest to 1.3 and to 1.05, and 0.
abbrev pub clear_distance : Double
clear_distance = finite (pos (5854679515581645 * 2 ^ 1022))

abbrev pub close_distance : Double
close_distance = finite (pos (4728779608739021 * 2 ^ 1022))

abbrev pub zero_distance : Double
zero_distance = finite (pos 0)
