-- ===== src/Misc/Stream.antt =====
-- `std::stringstream` with the manipulators that the library uses. What is put in is a list of items;
-- `hex` and the fill character stay, and a width is taken back by the next formatted item.
pub mod Laws
use Prim.Native.String.{String}
use libnitrokey.Prelude.{
  ℕ, ◌-◌, ◌%◌, ◌^◌, Bool, true, false, List, [], ◌∷◌, ◌++◌, length, replicate, ltb, if◌then◌else◌,
}
use libnitrokey.Prelude.Bytes.{Bytes, codes}
use libnitrokey.Misc.Decimal.{decimal}
use libnitrokey.Misc.Hexdump.{hex_numeral}

-- A literal, a `std::string`, a `uint8_t` as the character that it is, a number that is not negative,
-- a number up to 64 bits that is cast to `int`; and the manipulators.
pub data Item : Type 0 where
  text : String → Item
  bytes : Bytes → Item
  char : ℕ → Item
  number : ℕ → Item
  int : ℕ → Item
  hex : Item
  setw : ℕ → Item
  setfill : ℕ → Item
  endl : Item

-- What statements put into a stream one after the other.
abbrev pub joined : List (List Item) → List Item
joined [] = []
joined (items ∷ rest) = items ++ joined rest

pub record Format : Type 0 where
  pub is_hex : Bool
  pub width : ℕ
  pub fill : ℕ

abbrev pub new_format : Format
new_format = record { is_hex = false; width = 0; fill = b' ' }

unfoldable pub numeral : Bool → ℕ → Bytes
numeral true n = hex_numeral 16 n
numeral false n = decimal n

-- The two's complement of an `int` is printed in hex, and its sign in decimal.
unfoldable pub int_numeral : Bool → ℕ → Bytes
int_numeral true n = hex_numeral 8 n
int_numeral false n = if ltb n (2 ^ 31) then decimal n else b'-' ∷ decimal (2 ^ 32 - n)

abbrev pub padded : Format → Bytes → Bytes
padded f bs = replicate (f.width - length bs) (f.fill) ++ bs

unfoldable pub inserted : Item → Format → Bytes
inserted (text s) f = padded f (codes s)
inserted (bytes bs) f = padded f bs
inserted (char c) f = padded f (c ∷ [])
inserted (number n) f = padded f (numeral (f.is_hex) n)
inserted (int n) f = padded f (int_numeral (f.is_hex) (n % 2 ^ 32))
inserted endl f = 10 ∷ []
inserted _ f = []

unfoldable pub next_format : Item → Format → Format
next_format hex f = record f { is_hex = true }
next_format (setw n) f = record f { width = n }
next_format (setfill c) f = record f { fill = c }
next_format endl f = f
next_format _ f = record f { width = 0 }

unfoldable pub write : List Item → Format → Bytes
write [] f = []
write (i ∷ items) f = inserted i f ++ write items (next_format i f)

-- `str()` of a new stream that the items were put in.
unfoldable pub str : List Item → Bytes
str items = write items new_format
