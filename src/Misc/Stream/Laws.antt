-- ===== src/Misc/Stream/Laws.antt =====
-- How long the text of a stream is, and that no character of it is zero.
use libnitrokey.Prelude.{
  ℕ, zero, suc, ◌+◌, ◌-◌, ◌/◌, ◌%◌, ◌^◌, ◌<◌, ◌≡◌, refl, sym, ap, ◌∙◌, append_assoc, append_inj,
  Bool, true, false, List, [], ◌∷◌, ◌++◌, length, length-append, replicate, ltb, ◌==◌,
  if◌then◌else◌, arith,
}
use libnitrokey.Prelude.Bytes.{Bytes, codes}
use libnitrokey.Misc.Fields.{IsText}
use libnitrokey.Misc.Decimal.{digits_of, decimal}
use libnitrokey.Misc.Hexdump.Sizes.{
  IsPrinted, append-IsPrinted, IsPrinted-mono, if-IsPrinted, hex_numeral-IsPrinted,
}
use libnitrokey.Misc.Stream.{
  Item, text, bytes, char, number, int, hex, setw, setfill, endl, Format, new_format, padded,
  numeral, int_numeral, inserted, next_format, write, str,
}

digits_of-IsPrinted : (limit n : ℕ) → IsPrinted limit (digits_of limit n)
unfolding digits_of
digits_of-IsPrinted zero n = (omega arith, tt)
digits_of-IsPrinted (suc limit) n =
    if-IsPrinted (ltb n 10) (suc limit) ((b'0' + n) ∷ [])
      (digits_of limit (n / 10) ++ (b'0' + n % 10) ∷ []) (omega arith, (omega arith, tt))
      (IsPrinted-mono (limit + 1) (suc limit) (digits_of limit (n / 10) ++ (b'0' + n % 10) ∷ [])
        (omega arith)
        (append-IsPrinted limit 1 (digits_of limit (n / 10)) ((b'0' + n % 10) ∷ [])
          (digits_of-IsPrinted limit (n / 10)) (omega arith, (omega arith, tt))))

decimal-IsPrinted : (n : ℕ) → IsPrinted 20 (decimal n)
unfolding decimal
decimal-IsPrinted n = digits_of-IsPrinted 20 n

numeral-IsPrinted : (is_hex : Bool) (n : ℕ) → IsPrinted 20 (numeral is_hex n)
unfolding numeral
numeral-IsPrinted true n =
    let digits = hex_numeral-IsPrinted 16 n in (omega (arith, digits.0), digits.1)
numeral-IsPrinted false n = decimal-IsPrinted n

int_numeral-IsPrinted : (is_hex : Bool) (n : ℕ) → IsPrinted 21 (int_numeral is_hex n)
unfolding int_numeral
int_numeral-IsPrinted true n =
    let digits = hex_numeral-IsPrinted 8 n in (omega (arith, digits.0), digits.1)
int_numeral-IsPrinted false n =
    let positive = decimal-IsPrinted n in
    let negative = decimal-IsPrinted (2 ^ 32 - n) in
    if-IsPrinted (ltb n (2 ^ 31)) 21 (decimal n) (b'-' ∷ decimal (2 ^ 32 - n))
      (omega (arith, positive.0), positive.1) (omega (arith, negative.0), (omega arith, negative.1))

-- The characters that an item takes at most, without a width.
abbrev room : Item → ℕ
room (text s) = length (codes s)
room (bytes bs) = length bs
room (char c) = 1
room (number n) = 20
room (int n) = 21
room endl = 1
room _ = 0

abbrev pub rooms : List Item → ℕ
rooms [] = 0
rooms (i ∷ items) = room i + rooms items

abbrev no_zero : Bytes → Bool
no_zero [] = true
no_zero (c ∷ cs) = if c == 0 then false else no_zero cs

no_zero-IsText : (cs : Bytes) → no_zero cs ≡ true → IsText cs
no_zero-IsText [] h = tt
no_zero-IsText (c ∷ cs) h = ground (arith, no_zero-IsText cs)

-- An item that sets no width, and puts in no zero.
abbrev IsPlain : Item → Type 0
IsPlain (text s) = no_zero (codes s) ≡ true
IsPlain (bytes bs) = IsText bs
IsPlain (char c) = 0 < c
IsPlain (setw n) = ⊥
IsPlain _ = Unit

abbrev pub ArePlain : List Item → Type 0
ArePlain [] = Unit
ArePlain (i ∷ items) = IsPlain i × ArePlain items

replicate_none : (k c : ℕ) → k ≡ 0 → IsPrinted 0 (replicate k c)
replicate_none zero c e = (omega arith, tt)
replicate_none (suc k) c e = absurd (omega arith)

padded-IsPrinted :
    (f : Format) (n : ℕ) (bs : Bytes) → f.width ≡ 0 → IsPrinted n bs → IsPrinted n (padded f bs)
padded-IsPrinted f n bs e p = IsPrinted-mono (0 + n) n (padded f bs) (omega arith) (
    append-IsPrinted 0 n (replicate (f.width - length bs) (f.fill)) bs
      (replicate_none (f.width - length bs) (f.fill) (omega arith)) p)

inserted-IsPrinted :
    (i : Item) (f : Format) → f.width ≡ 0 → IsPlain i → IsPrinted (room i) (inserted i f)
unfolding inserted
inserted-IsPrinted (text s) f e h =
    padded-IsPrinted f (length (codes s)) (codes s) e (omega arith, no_zero-IsText (codes s) h)
inserted-IsPrinted (bytes bs) f e h = padded-IsPrinted f (length bs) bs e (omega arith, h)
inserted-IsPrinted (char c) f e h = padded-IsPrinted f 1 (c ∷ []) e (omega arith, (h, tt))
inserted-IsPrinted (number n) f e h =
    padded-IsPrinted f 20 (numeral (f.is_hex) n) e (numeral-IsPrinted (f.is_hex) n)
inserted-IsPrinted (int n) f e h =
    padded-IsPrinted f 21 (int_numeral (f.is_hex) (n % 2 ^ 32)) e
      (int_numeral-IsPrinted (f.is_hex) (n % 2 ^ 32))
inserted-IsPrinted endl f e h = (omega arith, (omega arith, tt))
inserted-IsPrinted hex f e h = (omega arith, tt)
inserted-IsPrinted (setw n) f e h = absurd h
inserted-IsPrinted (setfill c) f e h = (omega arith, tt)

next_format-width : (i : Item) (f : Format) → f.width ≡ 0 → IsPlain i → (next_format i f).width ≡ 0
unfolding next_format
next_format-width (setw n) f e h = absurd h
next_format-width hex f e h = e
next_format-width (setfill c) f e h = e
next_format-width endl f e h = e
next_format-width _ f e h = refl

write-IsPrinted :
    (items : List Item) (f : Format)
    → f.width ≡ 0
    → ArePlain items
    → IsPrinted (rooms items) (write items f)
unfolding write
write-IsPrinted [] f e h = (omega arith, tt)
write-IsPrinted (i ∷ items) f e h =
    append-IsPrinted (room i) (rooms items) (inserted i f) (write items (next_format i f))
      (inserted-IsPrinted i f e h.0)
      (write-IsPrinted items (next_format i f) (next_format-width i f e h.0) h.1)

-- The text of items that set no width has no zero in it, and no more characters than they have room
-- for.
pub str-IsPrinted : (items : List Item) → ArePlain items → IsPrinted (rooms items) (str items)
unfolding str
str-IsPrinted items h = write-IsPrinted items new_format refl h

-- The format behind items.
abbrev pub formats : List Item → Format → Format
formats [] f = f
formats (i ∷ items) f = formats items (next_format i f)

pub write-append :
    (xs ys : List Item) (f : Format) → write (xs ++ ys) f ≡ write xs f ++ write ys (formats xs f)
unfolding write
write-append [] ys f = refl
write-append (i ∷ xs) ys f =
    ap (λ t. inserted i f ++ t) (write-append xs ys (next_format i f))
    ∙ sym (
        append_assoc (inserted i f) (write xs (next_format i f))
          (write ys (formats xs (next_format i f))))

-- Where only a text of one length differs, streams with one text have it in common.
pub str-bytes_injective :
    (before after : List Item) (bs cs : Bytes)
    → length bs ≡ length cs
    → str (before ++ bytes bs ∷ after) ≡ str (before ++ bytes cs ∷ after)
    → bs ≡ cs
unfolding str write inserted next_format
str-bytes_injective before after bs cs same e =
    let f = formats before new_format in
    let fill : Bytes → Bytes = λ xs. replicate (f.width - length xs) (f.fill) in
    let fills : length (fill bs) ≡ length (fill cs) =
      ap (λ n. length (replicate (f.width - n) (f.fill))) same in
    let behind = append_inj (write before new_format) (write before new_format) refl (
      sym (write-append before (bytes bs ∷ after) new_format)
      ∙ e
      ∙ write-append before (bytes cs ∷ after) new_format) in
    let filled =
      append_inj (fill bs ++ bs) (fill cs ++ cs)
        (omega (arith, fills, same, length-append {0} (fill bs) bs, length-append {0} (fill cs) cs))
        (behind.1) in
    (append_inj (fill bs) (fill cs) fills (filled.0)).1
