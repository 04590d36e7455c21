-- ===== src/Misc/Hexdump.antt =====
-- `hexdump` of misc.cc: bytes as text, sixteen on a line.
pub mod Laws
pub mod Sizes
pub mod Told
use libnitrokey.Prelude.{
  ℕ, zero, suc, ◌+◌, ◌-◌, ◌/◌, ◌%◌, ◌^◌, Bool, ◌&&◌, [], ◌∷◌, ◌++◌, length, replicate, take, drop,
  leb, ltb, if◌then◌else◌,
}
use libnitrokey.Prelude.Bytes.{Bytes}
use libnitrokey.Misc.Hex.Laws.{hex_char}

-- The hex digits of a number below 16 ^ limit, without leading zeroes.
unfoldable pub hex_numeral : ℕ → ℕ → Bytes
hex_numeral zero n = []
hex_numeral (suc limit) n =
    let above = hex_numeral limit (n / 16) in
    if ltb n 16 then hex_char n ∷ [] else above ++ hex_char (n % 16) ∷ []

-- The format `%04x\t` of an offset, which is cast to `int`.
unfoldable pub header : ℕ → Bytes
header offset =
    let digits = hex_numeral 8 (offset % 2 ^ 32) in
    replicate (4 - length digits) b'0' ++ digits ++ 9 ∷ []

-- The format `%02x ` of a byte.
unfoldable pub cell : ℕ → Bytes
cell b = hex_char (b / 16) ∷ hex_char (b % 16) ∷ b' ' ∷ []

-- The columns of a line that are left, over the bytes that are left.
unfoldable pub cells : ℕ → Bool → Bytes → Bytes
cells zero print_empty bs = []
cells (suc columns) print_empty [] =
    let rest = cells columns print_empty [] in
    if print_empty then b'-' ∷ b'-' ∷ b' ' ∷ rest else rest
cells (suc columns) print_empty (b ∷ bs) = cell b ++ cells columns print_empty bs

-- `std::isgraph` in the C locale
unfoldable pub is_graph : ℕ → Bool
is_graph c = leb 33 c && leb c 126

unfoldable pub ascii : Bytes → Bytes
ascii [] = []
ascii (b ∷ bs) = (if is_graph b then b else b'.') ∷ ascii bs

-- One turn of the outer loop, on the bytes from `p` to the end.
unfoldable pub line : ℕ → Bytes → Bool → Bool → Bool → Bytes
line offset bs print_header print_ascii print_empty =
    (if print_header then header offset else [])
    ++ cells 16 print_empty bs
    ++ (if print_ascii then b' ' ∷ b' ' ∷ ascii (take 16 bs) else [])
    ++ 10 ∷ []

-- The outer loop; each turn takes a byte at least, so that the number of bytes is fuel enough.
unfoldable pub lines : ℕ → ℕ → Bytes → Bool → Bool → Bool → Bytes
lines zero offset bs print_header print_ascii print_empty = []
lines (suc fuel) offset [] print_header print_ascii print_empty = []
lines (suc fuel) offset (b ∷ bs) print_header print_ascii print_empty =
    line offset (b ∷ bs) print_header print_ascii print_empty
    ++ lines fuel (offset + 16) (drop 16 (b ∷ bs)) print_header print_ascii print_empty

unfoldable pub hexdump : Bytes → Bool → Bool → Bool → Bytes
hexdump bs = lines (length bs) 0 bs
