-- ===== src/HexText.antt =====
-- The identifiers of 32 lower-case hexadecimal digits that the navigation integration uses: the
-- text test of MotionPermission::valid_identity, in
-- integrations/ros2/simulation/native_drive/motion_permission.hpp, which LeafRecord::associate
-- repeats. A text is read character by character: a byte that is not ASCII is no digit, so the
-- test does not depend on how such a text is counted.
use Prim.Native.Char.{code}
use robot_harness.Base.{
  ℕ, zero, suc, String, Bool, true, not, ◌&&◌, ◌||◌, ◌==◌, leb, str_eq, ltb, ◌+◌, if◌then◌else◌,
}

-- `std::string::size`, in characters.
unfoldable pub size : String → ℕ
size String.[] = zero
size (String.◌∷◌ _ s) = suc (size s)

-- `(c >= '0' && c <= '9') || (c >= 'a' && c <= 'f')`.
abbrev pub is_hex_digit : ℕ → Bool
is_hex_digit c = (leb b'0' c && leb c b'9') || (leb b'a' c && leb c b'f')

unfoldable pub is_hex : String → Bool
is_hex String.[] = true
is_hex (String.◌∷◌ c s) = is_hex_digit (code c) && is_hex s

unfoldable pub is_identifier : String → Bool
is_identifier s = size s == 32 && not (str_eq s "00000000000000000000000000000000") && is_hex s

-- The bytes of a character in UTF-8.
abbrev char_size : ℕ → ℕ
char_size c = if ltb c 128 then 1 else if ltb c 2048 then 2 else if ltb c 65536 then 3 else 4

-- `std::string::size`, of a text in UTF-8.
unfoldable pub byte_size : String → ℕ
byte_size String.[] = 0
byte_size (String.◌∷◌ c s) = byte_size s + char_size (code c)
