-- ===== src/Misc/Hexdump/Sizes.antt =====
-- How long a dump is, and that no character of it is zero.
use libnitrokey.Prelude.{
  ℕ, zero, suc, ◌+◌, ◌-◌, ◌*◌, ◌/◌, ◌%◌, ◌^◌, ◌≤◌, ◌<◌, Bool, true, false, [], ◌∷◌, ◌++◌, length,
  length-append, length-take, length-drop, replicate, take, drop, ltb, if◌then◌else◌, arith,
}
use libnitrokey.Prelude.Bytes.{Bytes}
use libnitrokey.Misc.Fields.{IsText}
use libnitrokey.Misc.Hex.Laws.{hex_char}
use libnitrokey.Misc.Hexdump.{
  hex_numeral, header, cell, cells, is_graph, ascii, line, lines, hexdump,
}

-- A text of at most so many characters, none of them zero.
abbrev pub IsPrinted : ℕ → Bytes → Type 0
IsPrinted n bs = (length bs ≤ n) × IsText bs

append-IsText : (xs ys : Bytes) → IsText xs → IsText ys → IsText (xs ++ ys)
append-IsText [] ys p q = q
append-IsText (x ∷ xs) ys p q = (p.0, append-IsText xs ys p.1 q)

pub append-IsPrinted :
    (n m : ℕ) (xs ys : Bytes) → IsPrinted n xs → IsPrinted m ys → IsPrinted (n + m) (xs ++ ys)
append-IsPrinted n m xs ys p q =
    (omega (arith, length-append {0} xs ys, p.0, q.0), append-IsText xs ys p.1 q.1)

pub IsPrinted-mono : (n m : ℕ) (xs : Bytes) → n ≤ m → IsPrinted n xs → IsPrinted m xs
IsPrinted-mono n m xs h p = (omega (arith, p.0), p.1)

pub if-IsPrinted :
    (b : Bool) (n : ℕ) (xs ys : Bytes)
    → IsPrinted n xs
    → IsPrinted n ys
    → IsPrinted n (if b then xs else ys)
if-IsPrinted true n xs ys p q = p
if-IsPrinted false n xs ys p q = q

pub replicate-IsPrinted : (n c : ℕ) → 0 < c → IsPrinted n (replicate n c)
replicate-IsPrinted zero c h = (omega arith, tt)
replicate-IsPrinted (suc n) c h =
    let rest = replicate-IsPrinted n c h in (omega (arith, rest.0), (h, rest.1))

hex_char-pos : (n : ℕ) → 0 < hex_char n
unfolding hex_char
hex_char-pos n = ground arith

pub hex_numeral-IsPrinted : (limit n : ℕ) → IsPrinted limit (hex_numeral limit n)
unfolding hex_numeral
hex_numeral-IsPrinted zero n = (omega arith, tt)
hex_numeral-IsPrinted (suc limit) n =
    let above = hex_numeral-IsPrinted limit (n / 16) in
    if-IsPrinted (ltb n 16) (suc limit) (hex_char n ∷ [])
      (hex_numeral limit (n / 16) ++ hex_char (n % 16) ∷ []) (omega arith, (hex_char-pos n, tt))
      (IsPrinted-mono (limit + 1) (suc limit) (hex_numeral limit (n / 16) ++ hex_char (n % 16) ∷ [])
        (omega arith)
        (append-IsPrinted limit 1 (hex_numeral limit (n / 16)) (hex_char (n % 16) ∷ []) above
          (omega arith, (hex_char-pos (n % 16), tt))))

header-IsPrinted : (offset : ℕ) → IsPrinted 13 (header offset)
unfolding header
header-IsPrinted offset =
    let digits = hex_numeral 8 (offset % 2 ^ 32) in
    let zeroes = replicate-IsPrinted (4 - length digits) b'0' (omega arith) in
    append-IsPrinted 12 1 (replicate (4 - length digits) b'0' ++ digits) (9 ∷ [])
      (append-IsPrinted 4 8 (replicate (4 - length digits) b'0') digits
        (omega (arith, zeroes.0), zeroes.1) (hex_numeral-IsPrinted 8 (offset % 2 ^ 32)))
      (omega arith, (omega arith, tt))

cells-IsPrinted :
    (columns : ℕ) (print_empty : Bool) (bs : Bytes)
    → IsPrinted (3 * columns) (cells columns print_empty bs)
unfolding cells cell
cells-IsPrinted zero print_empty bs = (omega arith, tt)
cells-IsPrinted (suc columns) true [] =
    let rest = cells-IsPrinted columns true [] in
    (omega (arith, rest.0), (omega arith, (omega arith, (omega arith, rest.1))))
cells-IsPrinted (suc columns) false [] =
    let rest = cells-IsPrinted columns false [] in (omega (arith, rest.0), rest.1)
cells-IsPrinted (suc columns) print_empty (b ∷ bs) =
    let rest = cells-IsPrinted columns print_empty bs in
    (omega (arith, rest.0), (hex_char-pos (b / 16), (hex_char-pos (b % 16), (omega arith, rest.1))))

ascii-IsPrinted : (bs : Bytes) → IsPrinted (length bs) (ascii bs)
unfolding ascii is_graph
ascii-IsPrinted [] = (omega arith, tt)
ascii-IsPrinted (b ∷ bs) =
    let rest = ascii-IsPrinted bs in (omega (arith, rest.0), (ground arith, rest.1))

-- A line has a header of at most 13 characters, 48 for the bytes, 18 for their text and its end.
line-IsPrinted : (offset : ℕ) (bs : Bytes) (h a e : Bool) → IsPrinted 80 (line offset bs h a e)
unfolding line
line-IsPrinted offset bs h a e =
    let head : Bytes = if h then header offset else [] in
    let dumped = cells 16 e bs in
    let shown : Bytes = if a then b' ' ∷ b' ' ∷ ascii (take 16 bs) else [] in
    append-IsPrinted 79 1 (head ++ dumped ++ shown) (10 ∷ [])
      (append-IsPrinted 61 18 (head ++ dumped) shown
        (append-IsPrinted 13 48 head dumped
          (if-IsPrinted h 13 (header offset) [] (header-IsPrinted offset) (omega arith, tt))
          (cells-IsPrinted 16 e bs))
        (if-IsPrinted a 18 (b' ' ∷ b' ' ∷ ascii (take 16 bs)) []
          (let text = ascii-IsPrinted (take 16 bs) in
            (omega (arith, text.0, length-take {0} 16 bs), (omega arith, (omega arith, text.1))))
          (omega arith, tt)))
      (omega arith, (omega arith, tt))

lines-IsPrinted :
    (fuel k offset : ℕ) (bs : Bytes) (h a e : Bool)
    → length bs ≤ 16 * k
    → IsPrinted (80 * k) (lines fuel offset bs h a e)
unfolding lines
lines-IsPrinted zero k offset bs h a e fits = (omega arith, tt)
lines-IsPrinted (suc fuel) k offset [] h a e fits = (omega arith, tt)
lines-IsPrinted (suc fuel) zero offset (b ∷ bs) h a e fits = absurd (omega arith)
lines-IsPrinted (suc fuel) (suc k) offset (b ∷ bs) h a e fits =
    let rest = lines fuel (offset + 16) (drop 15 bs) h a e in
    IsPrinted-mono (80 + 80 * k) (80 * suc k) (line offset (b ∷ bs) h a e ++ rest) (omega arith) (
      append-IsPrinted 80 (80 * k) (line offset (b ∷ bs) h a e) rest
        (line-IsPrinted offset (b ∷ bs) h a e)
        (lines-IsPrinted fuel k (offset + 16) (drop 15 bs) h a e
          (omega (arith, length-drop {0} 15 bs))))

-- A dump of at most 16 * k bytes has at most 80 * k characters, none of them zero.
pub hexdump-IsPrinted :
    (k : ℕ) (bs : Bytes) (h a e : Bool) → length bs ≤ 16 * k → IsPrinted (80 * k) (hexdump bs h a e)
unfolding hexdump
hexdump-IsPrinted k bs h a e fits = lines-IsPrinted (length bs) k 0 bs h a e fits
