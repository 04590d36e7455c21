-- ===== src/Misc/Hex/Laws.antt =====
-- Hex strings and the bytes that they stand for.
use libnitrokey.Prelude.{
  ℕ, ◌+◌, ◌-◌, ◌*◌, ◌/◌, ◌%◌, ◌≤◌, ◌<◌, ◌≡◌, true, [], ◌∷◌, ◌++◌, append_assoc, append-nil, length,
  length-append, ltb, if◌then◌else◌, arith,
}
use libnitrokey.Prelude.Bytes.{Bytes, AreBytes, append-AreBytes}
use libnitrokey.Exceptions.{ok}
use libnitrokey.Misc.Hex.{is_hex_char, hex_value, hex_even, hex_odd, hex_string_to_byte}

-- The lower-case hex digits of bytes, two for each.
unfoldable pub hex_char : ℕ → ℕ
hex_char n = if ltb n 10 then b'0' + n else b'a' + (n - 10)

unfoldable pub to_hex : Bytes → Bytes
to_hex [] = []
to_hex (b ∷ bs) = hex_char (b / 16) ∷ hex_char (b % 16) ∷ to_hex bs

hex_char-is_hex_char : (n : ℕ) → n < 16 → is_hex_char (hex_char n) ≡ true
unfolding hex_char is_hex_char
hex_char-is_hex_char n h = ground arith

pub hex_value-hex_char : (n : ℕ) → n < 16 → hex_value (hex_char n) ≡ n
unfolding hex_char hex_value
hex_value-hex_char n h = ground arith

byte_of_nibbles : (b : ℕ) → b < 256 → (b / 16 * 16 + b % 16) % 256 ≡ b
byte_of_nibbles b h = omega arith

hex_even-to_hex :
    (bs parsed : Bytes) → AreBytes bs → hex_even (to_hex bs) parsed ≡ ok (parsed ++ bs)
unfolding to_hex hex_even
hex_even-to_hex [] parsed h = rw append-nil
hex_even-to_hex (b ∷ bs) parsed h =
    rw
      (
        hex_char-is_hex_char (b / 16) (omega arith),
        hex_char-is_hex_char (b % 16) (omega arith),
        hex_value-hex_char (b / 16) (omega arith),
        hex_value-hex_char (b % 16) (omega arith),
      )
      (rw (byte_of_nibbles b h.0, hex_even-to_hex bs (parsed ++ b ∷ []) h.1, append_assoc))

length-to_hex : (bs : Bytes) → length (to_hex bs) ≡ 2 * length bs
unfolding to_hex
length-to_hex [] = omega arith
length-to_hex (b ∷ bs) = omega (arith, length-to_hex bs)

-- Printing at most 128 bytes in hex and parsing the text gives the bytes back.
pub hex_string_to_byte-to_hex :
    (bs : Bytes) → AreBytes bs → length bs ≤ 128 → hex_string_to_byte (to_hex bs) ≡ ok bs
unfolding hex_string_to_byte
hex_string_to_byte-to_hex bs h fits = ground (arith, length-to_hex bs, hex_even-to_hex bs [] h)

-- Every character is a hex digit.
abbrev pub AreHex : Bytes → Type 0
AreHex [] = Unit
AreHex (c ∷ cs) = (is_hex_char c ≡ true) × AreHex cs

-- What the loop tells of a text that it accepts.
abbrev IsParsed : Bytes → Bytes → Bytes → Type 0
IsParsed text before after =
    AreHex text
    × (2 * length before + length text ≤ 2 * length after + 1)
    × (2 * length after ≤ 2 * length before + length text)
    × AreBytes after

hex_even-IsParsed :
    (text parsed out : Bytes)
    → AreBytes parsed
    → hex_even text parsed ≡ ok out
    → IsParsed text parsed out
unfolding hex_even hex_odd
hex_even-IsParsed [] parsed out h e = ground arith
hex_even-IsParsed (c ∷ []) parsed out h e = ground arith
hex_even-IsParsed (c ∷ d ∷ text) parsed out h e =
    let byte : ℕ = (hex_value c * 16 + hex_value d) % 256 in
    let grown : AreBytes (parsed ++ byte ∷ []) =
      append-AreBytes parsed (byte ∷ []) h (omega arith, tt) in
    ground (
      arith,
      hex_even-IsParsed text (parsed ++ byte ∷ []) out grown,
      length-append {0} parsed (byte ∷ []),
    )

-- A text that is accepted is shorter than 257, has an even length and only hex digits; the result
-- has one byte for two of them.
pub hex_string_to_byte_sound :
    (text : Bytes) {bs : Bytes}
    → hex_string_to_byte text ≡ ok bs
    → (length text < 257) × (length text ≡ 2 * length bs) × AreHex text × AreBytes bs
unfolding hex_string_to_byte
hex_string_to_byte_sound text {bs} e = ground (arith, hex_even-IsParsed text [] bs tt)
