-- ===== src/Prelude/Bytes.antt =====
-- Bytes in memory: little-endian numbers, zero-filled fields, and what is below 256.
use Prim.Native.Char.{code}
use Prim.Native.String.{String}
use Prim.Native.Nat.{ℕ, zero, suc, ◌+◌, ◌-◌, ◌*◌, ◌/◌, ◌%◌, ◌^◌, ◌≤◌, ◌<◌}
use mathlib.Core.Path.{◌≡◌, refl, ap, ap₂}
use mathlib.Core.List.{List, [], ◌∷◌, ◌++◌}
use mathlib.Core.Bool.{Bool, true, false}
use mathlib.Core.Logic.{◌↔◌}
use libnitrokey.Prelude.Tests.{◌==◌, if◌then◌else◌}
use native.Mathlib.Nat.{pow-suc}
use native.Mathlib.Omega.{arith}
use libnitrokey.Prelude.Lists.{length, length-append, length-replicate, replicate}

abbrev pub Bytes : Type 0
Bytes = List ℕ

-- The code points of a literal; these are its bytes, since the texts here are ASCII.
abbrev pub codes : String → Bytes
codes String.[] = []
codes (String.◌∷◌ c s) = code c ∷ codes s

-- Every element fits `uint8_t`.
abbrev pub AreBytes : Bytes → Type 0
AreBytes [] = Unit
AreBytes (b ∷ bs) = (b < 256) × AreBytes bs

-- The low `width` bytes of a number, the least significant first.
abbrev pub le_bytes : ℕ → ℕ → Bytes
le_bytes zero n = []
le_bytes (suc width) n = (n % 256) ∷ le_bytes width (n / 256)

abbrev pub le_value : Bytes → ℕ
le_value [] = 0
le_value (b ∷ bs) = b + 256 * le_value bs

pub length-le_bytes : (width n : ℕ) → length (le_bytes width n) ≡ width
length-le_bytes zero n = refl
length-le_bytes (suc width) n = ap suc (length-le_bytes width (n / 256))

pub le_bytes-AreBytes : (width n : ℕ) → AreBytes (le_bytes width n)
le_bytes-AreBytes zero n = tt
le_bytes-AreBytes (suc width) n = (omega arith, le_bytes-AreBytes width (n / 256))

-- A number that fits comes back from its bytes.
pub le_value-le_bytes : (width n : ℕ) → n < 256 ^ width → le_value (le_bytes width n) ≡ n
le_value-le_bytes zero n h = omega arith
le_value-le_bytes (suc width) n h =
    omega (arith, le_value-le_bytes width (n / 256) (omega (arith, pow-suc 256 width)))

pub le_value-lt : (bs : Bytes) → AreBytes bs → le_value bs < 256 ^ length bs
le_value-lt [] h = omega arith
le_value-lt (b ∷ bs) h = omega (arith, le_value-lt bs h.1, pow-suc 256 (length bs))

pub append-AreBytes : (xs ys : Bytes) → AreBytes xs → AreBytes ys → AreBytes (xs ++ ys)
append-AreBytes [] ys p q = q
append-AreBytes (x ∷ xs) ys p q = (p.0, append-AreBytes xs ys p.1 q)

pub append-AreBytes_parts : (xs ys : Bytes) → AreBytes (xs ++ ys) → AreBytes xs × AreBytes ys
append-AreBytes_parts [] ys h = (tt, h)
append-AreBytes_parts (x ∷ xs) ys h =
    let parts = append-AreBytes_parts xs ys h.1 in ((h.0, parts.0), parts.1)

pub replicate-AreBytes : (n b : ℕ) → b < 256 → AreBytes (replicate n b)
replicate-AreBytes zero b h = tt
replicate-AreBytes (suc n) b h = (h, replicate-AreBytes n b h)

-- A field of `size` bytes whose rest is filled with zeroes.
abbrev pub zero_filled : ℕ → Bytes → Bytes
zero_filled size bs = bs ++ replicate (size - length bs) 0

pub length-zero_filled :
    (size : ℕ) (bs : Bytes) → length bs ≤ size → length (zero_filled size bs) ≡ size
length-zero_filled size bs h = omega (
  arith,
  length-append {0} bs (replicate (size - length bs) 0),
  length-replicate {0} {A = ℕ} (size - length bs) 0,
)

-- Bytes of one length that stand for one number are the same.
pub le_value_injective :
    (xs ys : Bytes)
    → AreBytes xs
    → AreBytes ys
    → length xs ≡ length ys
    → le_value xs ≡ le_value ys
    → xs ≡ ys
le_value_injective [] [] p q l e = refl
le_value_injective [] (y ∷ ys) p q l e = absurd (omega arith)
le_value_injective (x ∷ xs) [] p q l e = absurd (omega arith)
le_value_injective (x ∷ xs) (y ∷ ys) p q l e =
    let tails = le_value_injective xs ys p.1 q.1 (omega arith) (omega arith) in
    let heads : x ≡ y = omega arith in ap₂ ◌∷◌ heads tails

-- `operator==` of two strings.
unfoldable pub bytes_eq : Bytes → Bytes → Bool
bytes_eq [] [] = true
bytes_eq [] (y ∷ ys) = false
bytes_eq (x ∷ xs) [] = false
bytes_eq (x ∷ xs) (y ∷ ys) = let rest = bytes_eq xs ys in if x == y then rest else false

pub bytes_eq_iff : (xs ys : Bytes) → (bytes_eq xs ys ≡ true) ↔ (xs ≡ ys)
unfolding bytes_eq
bytes_eq_iff [] [] = (λ _. refl, λ _. refl)
bytes_eq_iff [] (y ∷ ys) = (λ h. ground arith, λ h. ground arith)
bytes_eq_iff (x ∷ xs) [] = (λ h. ground arith, λ h. ground arith)
bytes_eq_iff (x ∷ xs) (y ∷ ys) =
    (λ h. ground (arith, bytes_eq_iff xs ys), λ h. ground (arith, bytes_eq_iff xs ys))
