-- ===== src/Misc/Hexdump/Laws.antt =====
-- What a reader of a dump can tell of the bytes.
use libnitrokey.Prelude.{
  ℕ, zero, suc, ◌+◌, ◌/◌, ◌%◌, ◌≤◌, ◌≡◌, refl, ap, ◌∙◌, false, ◌||◌, [], ◌∷◌, ◌++◌, append-nil,
  length, drop, ◌==◌, if◌then◌else◌, arith,
}
use libnitrokey.Prelude.Bytes.{Bytes, AreBytes}
use libnitrokey.Exceptions.{ok}
use libnitrokey.Misc.Hex.{hex_string_to_byte}
use libnitrokey.Misc.Hex.Laws.{hex_char, to_hex, hex_string_to_byte-to_hex}
use libnitrokey.Misc.Hexdump.{cell, cells, line, lines, hexdump}

-- A text without its spaces and line ends.
unfoldable pub without_spaces : Bytes → Bytes
without_spaces [] = []
without_spaces (c ∷ cs) =
    let rest = without_spaces cs in if (c == b' ') || (c == 10) then rest else c ∷ rest

without_spaces-append :
    (xs ys : Bytes) → without_spaces (xs ++ ys) ≡ without_spaces xs ++ without_spaces ys
unfolding without_spaces
without_spaces-append [] ys = refl
without_spaces-append (x ∷ xs) ys = ground (arith, without_spaces-append xs ys)

without_spaces-hex_char :
    (n : ℕ) (cs : Bytes) → without_spaces (hex_char n ∷ cs) ≡ hex_char n ∷ without_spaces cs
unfolding without_spaces hex_char
without_spaces-hex_char n cs = ground arith

without_spaces-cell :
    (b : ℕ) (cs : Bytes)
    → without_spaces (cell b ++ cs) ≡ hex_char (b / 16) ∷ hex_char (b % 16) ∷ without_spaces cs
unfolding cell without_spaces
without_spaces-cell b cs =
    without_spaces-hex_char (b / 16) (hex_char (b % 16) ∷ b' ' ∷ cs)
    ∙ ap (λ t. hex_char (b / 16) ∷ t) (without_spaces-hex_char (b % 16) (b' ' ∷ cs))

drop_nil : (n : ℕ) → to_hex (drop (suc n) []) ≡ to_hex (drop n [])
drop_nil zero = refl
drop_nil (suc n) = refl

-- The digits of a line and those of the bytes behind it.
without_spaces-cells :
    (columns : ℕ) (bs : Bytes)
    → without_spaces (cells columns false bs) ++ to_hex (drop columns bs) ≡ to_hex bs
unfolding cells to_hex without_spaces
without_spaces-cells zero bs = refl
without_spaces-cells (suc columns) [] =
    ap (λ t. without_spaces (cells columns false []) ++ t) (drop_nil columns)
    ∙ without_spaces-cells columns []
without_spaces-cells (suc columns) (b ∷ bs) =
    ap (λ t. t ++ to_hex (drop columns bs)) (without_spaces-cell b (cells columns false bs))
    ∙ ap (λ t. hex_char (b / 16) ∷ hex_char (b % 16) ∷ t) (without_spaces-cells columns bs)

line-plain :
    (offset : ℕ) (bs : Bytes) → line offset bs false false false ≡ cells 16 false bs ++ 10 ∷ []
unfolding line
line-plain offset bs = rw append-nil

without_spaces-line :
    (offset : ℕ) (bs : Bytes)
    → without_spaces (line offset bs false false false) ++ to_hex (drop 16 bs) ≡ to_hex bs
unfolding without_spaces
without_spaces-line offset bs =
    rw (line-plain offset bs, without_spaces-append (cells 16 false bs) (10 ∷ []), append-nil)
      (without_spaces-cells 16 bs)

length-drop_le : (n : ℕ) (xs : Bytes) → length (drop n xs) ≤ length xs
length-drop_le zero xs = omega arith
length-drop_le (suc n) [] = omega arith
length-drop_le (suc n) (x ∷ xs) = omega (arith, length-drop_le n xs)

-- The lines are all there when the fuel is no less than the number of bytes.
without_spaces-lines :
    (fuel offset : ℕ) (bs : Bytes)
    → length bs ≤ fuel
    → without_spaces (lines fuel offset bs false false false) ≡ to_hex bs
unfolding lines without_spaces to_hex
without_spaces-lines zero offset [] h = refl
without_spaces-lines zero offset (b ∷ bs) h = absurd (omega arith)
without_spaces-lines (suc fuel) offset [] h = refl
without_spaces-lines (suc fuel) offset (b ∷ bs) h =
    without_spaces-append (line offset (b ∷ bs) false false false)
      (lines fuel (offset + 16) (drop 15 bs) false false false)
    ∙ ap (λ t. without_spaces (line offset (b ∷ bs) false false false) ++ t)
        (without_spaces-lines fuel (offset + 16) (drop 15 bs) (omega (arith, length-drop_le 15 bs)))
    ∙ without_spaces-line offset (b ∷ bs)

-- Without header, text and padding, the dump of bytes is their hex digits and white space.
pub without_spaces-hexdump :
    (bs : Bytes) → without_spaces (hexdump bs false false false) ≡ to_hex bs
unfolding hexdump
without_spaces-hexdump bs = without_spaces-lines (length bs) 0 bs (omega arith)

-- A dump of at most 128 bytes without header, text and padding parses back to the bytes when its
-- spaces and line ends are left out.
pub hex_string_to_byte-hexdump :
    (bs : Bytes)
    → AreBytes bs
    → length bs ≤ 128
    → hex_string_to_byte (without_spaces (hexdump bs false false false)) ≡ ok bs
hex_string_to_byte-hexdump bs h fits =
    ap hex_string_to_byte (without_spaces-hexdump bs) ∙ hex_string_to_byte-to_hex bs h fits
