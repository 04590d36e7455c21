-- ===== src/Misc/Hex.antt =====
-- `hex_string_to_byte` of misc.cc. A `const char*` is the list of its bytes before the final zero.
pub mod Laws
use libnitrokey.Prelude.{
  ℕ, ◌+◌, ◌-◌, ◌*◌, ◌%◌, Bool, true, false, not, ◌&&◌, ◌||◌, List, [], ◌∷◌, ◌++◌, length, min, leb,
  ltb, ◌==◌, if◌then◌else◌,
}
use libnitrokey.Prelude.Bytes.{Bytes}
use libnitrokey.Exceptions.{Result, ok, err, invalid_hex_string}

abbrev pub big_string_size : ℕ
big_string_size = 257

-- `char_from_range`
pub is_hex_char : ℕ → Bool
is_hex_char c =
    (leb b'0' c && leb c b'9') || ((leb b'A' c && leb c b'F') || (leb b'a' c && leb c b'f'))

-- What `strtoul` with base 16 makes of such a character.
pub hex_value : ℕ → ℕ
hex_value c = if leb c b'9' then c - b'0' else if leb c b'F' then c - b'A' + 10 else c - b'a' + 10

mutual
  -- The loop at an even index, and at an odd one with the character in `buf[0]`.
  pub hex_even : Bytes → Bytes → Result Bytes
  hex_even [] parsed = ok parsed
  hex_even (c ∷ rest) parsed =
      let next = hex_odd rest c parsed in
      if not (is_hex_char c) then err (invalid_hex_string c) else next

  pub hex_odd : Bytes → ℕ → Bytes → Result Bytes
  hex_odd [] first parsed = ok parsed
  hex_odd (c ∷ rest) first parsed =
      let next = hex_even rest (parsed ++ ((hex_value first * 16 + hex_value c) % 256) ∷ []) in
      if not (is_hex_char c) then err (invalid_hex_string c) else next

unfoldable pub hex_string_to_byte : Bytes → Result Bytes
hex_string_to_byte text =
    let size = min big_string_size (length text) in
    let parsed = hex_even text [] in
    if not (size % 2 == 0) || leb big_string_size size then err (invalid_hex_string 0) else parsed
