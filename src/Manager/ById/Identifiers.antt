-- ===== src/Manager/ById/Identifiers.antt =====
-- The hexadecimal identifiers of cards.
use libnitrokey.Prelude.{ℕ, ◌/◌, ◌%◌, ◌≡◌, refl, ◌∙◌, ap, [], ◌∷◌, arith}
use libnitrokey.Prelude.Bytes.{Bytes}
use libnitrokey.Exceptions.{ok}
use libnitrokey.Misc.Hex.{hex_string_to_byte}
use libnitrokey.Misc.Hex.Laws.{hex_char, to_hex as hex_of_bytes, hex_string_to_byte-to_hex}
use libnitrokey.Manager.ById.{hex_digit, hex_digits, to_hex}

-- The bytes of a `uint32_t`, the highest first.
pub big_endian : ℕ → Bytes
big_endian value =
    (value / 0x1000000 % 256) ∷ (value / 0x10000 % 256) ∷ (value / 256 % 256) ∷ (value % 256) ∷ []

-- Two digits of a byte.
abbrev digits_of : ℕ → Bytes → Bytes
digits_of n text = hex_digit (n / 16 % 16) ∷ hex_digit (n % 16) ∷ text

digits_of-byte :
    (n m : ℕ) (text : Bytes)
    → m ≡ n % 256
    → digits_of n text ≡ hex_char (m / 16) ∷ hex_char (m % 16) ∷ text
unfolding hex_digit hex_char
digits_of-byte n m text e =
    let low : n % 16 ≡ m % 16 = omega arith in
    let up : n / 16 % 16 ≡ m / 16 = omega arith in rw (low, up) refl

to_hex-big_endian : (value : ℕ) → to_hex value ≡ hex_of_bytes (big_endian value)
unfolding to_hex hex_digits hex_of_bytes big_endian
to_hex-big_endian value =
    let first = value / 16 / 16 in
    let second = first / 16 / 16 in
    let third = second / 16 / 16 in
    ap (λ t. digits_of third (digits_of second (digits_of first t)))
      (digits_of-byte value (value % 256) [] refl)
    ∙ ap (λ t. digits_of third (digits_of second t))
        (digits_of-byte first (value / 256 % 256) (hex_of_bytes ((value % 256) ∷ [])) (omega arith))
    ∙ ap (λ t. digits_of third t)
        (digits_of-byte second (value / 0x10000 % 256)
          (hex_of_bytes ((value / 256 % 256) ∷ (value % 256) ∷ [])) (omega arith))
    ∙ digits_of-byte third (value / 0x1000000 % 256)
        (hex_of_bytes ((value / 0x10000 % 256) ∷ (value / 256 % 256) ∷ (value % 256) ∷ []))
        (omega arith)

-- The text that `toHex` gives for a number parses to the number's four bytes, the highest first.
pub hex_string_to_byte-identifier :
    (value : ℕ) → hex_string_to_byte (to_hex value) ≡ ok (big_endian value)
unfolding big_endian
hex_string_to_byte-identifier value =
    ap hex_string_to_byte (to_hex-big_endian value)
    ∙ hex_string_to_byte-to_hex (big_endian value)
        (omega arith, (omega arith, (omega arith, (omega arith, tt)))) (omega arith)
