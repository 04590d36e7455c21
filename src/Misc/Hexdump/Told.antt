-- ===== src/Misc/Hexdump/Told.antt =====
-- A dump tells the bytes, whatever is printed beside them.
use libnitrokey.Prelude.{
  ℕ, zero, suc, ◌+◌, ◌/◌, ◌%◌, ◌≤◌, ◌<◌, ◌≡◌, refl, sym, ap, ap₂, ◌∙◌, Bool, true, false, [], ◌∷◌,
  ◌++◌, length, length-append, length-take, length-drop, take, drop, take-append-drop, append_inj,
  if◌then◌else◌, arith,
}
use mathlib.Core.List.{head-eq_of_cons-eq, tail-eq_of_cons-eq}
use libnitrokey.Prelude.Bytes.{Bytes, AreBytes}
use libnitrokey.Misc.Hex.{hex_value}
use libnitrokey.Misc.Hex.Laws.{hex_char, hex_value-hex_char}
use libnitrokey.Misc.Hexdump.{header, cell, cells, ascii, line, lines, hexdump}

-- Bytes of one length take the same space.
length-cells :
    (columns : ℕ) (e : Bool) (bs cs : Bytes)
    → length bs ≡ length cs
    → length (cells columns e bs) ≡ length (cells columns e cs)
unfolding cells cell
length-cells zero e bs cs h = refl
length-cells (suc columns) e [] [] h = refl
length-cells (suc columns) e [] (c ∷ cs) h = absurd (omega arith)
length-cells (suc columns) e (b ∷ bs) [] h = absurd (omega arith)
length-cells (suc columns) e (b ∷ bs) (c ∷ cs) h =
    omega (arith, length-cells columns e bs cs (omega arith))

length-ascii : (bs : Bytes) → length (ascii bs) ≡ length bs
unfolding ascii
length-ascii [] = refl
length-ascii (b ∷ bs) = ap suc (length-ascii bs)

hex_char_injective : (n m : ℕ) → n < 16 → m < 16 → hex_char n ≡ hex_char m → n ≡ m
hex_char_injective n m p q e =
    sym (hex_value-hex_char n p) ∙ ap hex_value e ∙ hex_value-hex_char m q

cell_injective : (b c : ℕ) → b < 256 → c < 256 → cell b ≡ cell c → b ≡ c
unfolding cell
cell_injective b c p q e =
    let up =
      hex_char_injective (b / 16) (c / 16) (omega arith) (omega arith) (head-eq_of_cons-eq e) in
    let low =
      hex_char_injective (b % 16) (c % 16) (omega arith) (omega arith)
        (head-eq_of_cons-eq (tail-eq_of_cons-eq e)) in
    omega arith

cells_injective :
    (columns : ℕ) (e : Bool) (bs cs : Bytes)
    → AreBytes bs
    → AreBytes cs
    → length bs ≡ length cs
    → cells columns e bs ≡ cells columns e cs
    → take columns bs ≡ take columns cs
unfolding cells
cells_injective zero e bs cs p q h same = refl
cells_injective (suc columns) e [] [] p q h same = refl
cells_injective (suc columns) e [] (c ∷ cs) p q h same = absurd (omega arith)
cells_injective (suc columns) e (b ∷ bs) [] p q h same = absurd (omega arith)
cells_injective (suc columns) e (b ∷ bs) (c ∷ cs) p q h same =
    let parts = append_inj (cell b) (cell c) (unfold cell in refl) same in
    ap₂ ◌∷◌ (cell_injective b c p.0 q.0 (parts.0))
      (cells_injective columns e bs cs p.1 q.1 (omega arith) (parts.1))

-- The text of the bytes, and the header.
abbrev shown : Bool → Bytes → Bytes
shown a bs = if a then b' ' ∷ b' ' ∷ ascii (take 16 bs) else []

length-shown :
    (a : Bool) (bs cs : Bytes) → length bs ≡ length cs → length (shown a bs) ≡ length (shown a cs)
length-shown false bs cs h = refl
length-shown true bs cs h = omega (
  arith,
  length-ascii (take 16 bs),
  length-ascii (take 16 cs),
  length-take {0} 16 bs,
  length-take {0} 16 cs,
)

length-line :
    (offset : ℕ) (bs cs : Bytes) (h a e : Bool)
    → length bs ≡ length cs
    → length (line offset bs h a e) ≡ length (line offset cs h a e)
unfolding line
length-line offset bs cs h a e same =
    let head : Bytes = if h then header offset else [] in
    omega (
      arith,
      length-append {0} (head ++ cells 16 e bs ++ shown a bs) (10 ∷ []),
      length-append {0} (head ++ cells 16 e cs ++ shown a cs) (10 ∷ []),
      length-append {0} (head ++ cells 16 e bs) (shown a bs),
      length-append {0} (head ++ cells 16 e cs) (shown a cs),
      length-append {0} head (cells 16 e bs),
      length-append {0} head (cells 16 e cs),
      length-cells 16 e bs cs same,
      length-shown a bs cs same,
    )

line_injective :
    (offset : ℕ) (bs cs : Bytes) (h a e : Bool)
    → AreBytes bs
    → AreBytes cs
    → length bs ≡ length cs
    → line offset bs h a e ≡ line offset cs h a e
    → take 16 bs ≡ take 16 cs
unfolding line
line_injective offset bs cs h a e p q same equal =
    let head : Bytes = if h then header offset else [] in
    let dumped_length : length (head ++ cells 16 e bs) ≡ length (head ++ cells 16 e cs) = omega (
      arith,
      length-append {0} head (cells 16 e bs),
      length-append {0} head (cells 16 e cs),
      length-cells 16 e bs cs same,
    ) in
    let whole =
      append_inj (head ++ cells 16 e bs ++ shown a bs) (head ++ cells 16 e cs ++ shown a cs)
        (omega (
          arith,
          dumped_length,
          length-append {0} (head ++ cells 16 e bs) (shown a bs),
          length-append {0} (head ++ cells 16 e cs) (shown a cs),
          length-shown a bs cs same,
        ))
        equal in
    let dumped =
      append_inj (head ++ cells 16 e bs) (head ++ cells 16 e cs) dumped_length (whole.0) in
    cells_injective 16 e bs cs p q same (append_inj head head refl (dumped.0)).1

drop-AreBytes : (n : ℕ) (bs : Bytes) → AreBytes bs → AreBytes (drop n bs)
drop-AreBytes zero bs p = p
drop-AreBytes (suc n) [] p = tt
drop-AreBytes (suc n) (b ∷ bs) p = drop-AreBytes n bs p.1

lines_injective :
    (fuel offset : ℕ) (bs cs : Bytes) (h a e : Bool)
    → length bs ≤ fuel
    → AreBytes bs
    → AreBytes cs
    → length bs ≡ length cs
    → lines fuel offset bs h a e ≡ lines fuel offset cs h a e
    → bs ≡ cs
unfolding lines
lines_injective fuel offset [] [] h a e fits p q same equal = refl
lines_injective fuel offset [] (c ∷ cs) h a e fits p q same equal = absurd (omega arith)
lines_injective fuel offset (b ∷ bs) [] h a e fits p q same equal = absurd (omega arith)
lines_injective zero offset (b ∷ bs) (c ∷ cs) h a e fits p q same equal = absurd (omega arith)
lines_injective (suc fuel) offset (b ∷ bs) (c ∷ cs) h a e fits p q same equal =
    let parts =
      append_inj (line offset (b ∷ bs) h a e) (line offset (c ∷ cs) h a e)
        (length-line offset (b ∷ bs) (c ∷ cs) h a e same) equal in
    let first = line_injective offset (b ∷ bs) (c ∷ cs) h a e p q same (parts.0) in
    let rest =
      lines_injective fuel (offset + 16) (drop 15 bs) (drop 15 cs) h a e
        (omega (arith, length-drop {0} 15 bs)) (drop-AreBytes 15 bs p.1) (drop-AreBytes 15 cs q.1)
        (omega (arith, length-drop {0} 15 bs, length-drop {0} 15 cs)) (parts.1) in
    sym (take-append-drop 16 (b ∷ bs)) ∙ ap₂ ◌++◌ first rest ∙ take-append-drop 16 (c ∷ cs)

length-lines :
    (fuel offset : ℕ) (bs cs : Bytes) (h a e : Bool)
    → length bs ≡ length cs
    → length (lines fuel offset bs h a e) ≡ length (lines fuel offset cs h a e)
unfolding lines
length-lines zero offset bs cs h a e same = refl
length-lines (suc fuel) offset [] [] h a e same = refl
length-lines (suc fuel) offset [] (c ∷ cs) h a e same = absurd (omega arith)
length-lines (suc fuel) offset (b ∷ bs) [] h a e same = absurd (omega arith)
length-lines (suc fuel) offset (b ∷ bs) (c ∷ cs) h a e same = omega (
  arith,
  length-append {0} (line offset (b ∷ bs) h a e) (lines fuel (offset + 16) (drop 15 bs) h a e),
  length-append {0} (line offset (c ∷ cs) h a e) (lines fuel (offset + 16) (drop 15 cs) h a e),
  length-line offset (b ∷ bs) (c ∷ cs) h a e same,
  length-lines fuel (offset + 16) (drop 15 bs) (drop 15 cs) h a e
      (omega (arith, length-drop {0} 15 bs, length-drop {0} 15 cs)),
)

-- Dumps of buffers of one size have one length.
pub length-hexdump :
    (bs cs : Bytes) (h a e : Bool)
    → length bs ≡ length cs
    → length (hexdump bs h a e) ≡ length (hexdump cs h a e)
unfolding hexdump
length-hexdump bs cs h a e same =
    length-lines (length bs) 0 bs cs h a e same ∙ ap (λ n. length (lines n 0 cs h a e)) same

-- Two buffers of one size with the same dump hold the same bytes, whatever the options are.
pub hexdump_injective :
    (bs cs : Bytes) (h a e : Bool)
    → AreBytes bs
    → AreBytes cs
    → length bs ≡ length cs
    → hexdump bs h a e ≡ hexdump cs h a e
    → bs ≡ cs
unfolding hexdump
hexdump_injective bs cs h a e p q same equal =
    lines_injective (length bs) 0 bs cs h a e (omega arith) p q same
      (equal ∙ ap (λ n. lines n 0 cs h a e) (sym same))
