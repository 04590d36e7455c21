-- ===== src/Misc/Decimal.antt =====
-- `std::to_string` and the stream's decimal output, and `getFilledOTPCode` of NitrokeyManager.cc.
use libnitrokey.Prelude.{
  ℕ, zero, suc, ◌+◌, ◌-◌, ◌*◌, ◌/◌, ◌%◌, ◌^◌, ◌≤◌, ◌<◌, ◌≡◌, refl, ap, ◌∙◌, Bool, true, false, [],
  ◌∷◌, ◌++◌, length, length-append, length-replicate, replicate, ltb, if◌then◌else◌, arith,
}
use libnitrokey.Prelude.Bytes.{Bytes}
use native.Mathlib.Nat.{pow-suc}

-- The digits of a number below 10 ^ limit.
unfoldable pub digits_of : ℕ → ℕ → Bytes
digits_of zero n = []
digits_of (suc limit) n =
    let above = digits_of limit (n / 10) in
    if ltb n 10 then (b'0' + n) ∷ [] else above ++ (b'0' + n % 10) ∷ []

-- Twenty digits are enough for `uint64_t`.
unfoldable pub decimal : ℕ → Bytes
unfolding digits_of
decimal n = digits_of 20 n

-- `getFilledOTPCode`: `setw` with the fill character '0', aligned to the right.
pub filled_otp_code : ℕ → Bool → Bytes
filled_otp_code code use_8_digits =
    let text = decimal code in
    let width : ℕ = if use_8_digits then 8 else 6 in replicate (width - length text) b'0' ++ text

-- The number that decimal digits stand for, after a number read so far.
abbrev pub read_decimal : ℕ → Bytes → ℕ
read_decimal acc [] = acc
read_decimal acc (c ∷ cs) = read_decimal (acc * 10 + (c - b'0')) cs

read_decimal-append :
    (acc : ℕ) (xs ys : Bytes) → read_decimal acc (xs ++ ys) ≡ read_decimal (read_decimal acc xs) ys
read_decimal-append acc [] ys = refl
read_decimal-append acc (x ∷ xs) ys = read_decimal-append (acc * 10 + (x - b'0')) xs ys

read_decimal-zeroes : (n : ℕ) → read_decimal 0 (replicate n b'0') ≡ 0
read_decimal-zeroes zero = refl
read_decimal-zeroes (suc n) = read_decimal-zeroes n

read_decimal-digits_of : (limit n : ℕ) → n < 10 ^ limit → read_decimal 0 (digits_of limit n) ≡ n
unfolding digits_of
read_decimal-digits_of zero n h = omega arith
read_decimal-digits_of (suc limit) n h = ground (
  arith,
  read_decimal-append 0 (digits_of limit (n / 10)) ((b'0' + n % 10) ∷ []),
  read_decimal-digits_of limit (n / 10) (omega (arith, pow-suc 10 limit)),
)

-- The text of a 64-bit number reads back as the number.
pub read_decimal-decimal : (n : ℕ) → n < 10 ^ 20 → read_decimal 0 (decimal n) ≡ n
unfolding decimal
read_decimal-decimal n h = read_decimal-digits_of 20 n h

-- As many digits as the size of the number calls for.
length-digits_of : (limit k n : ℕ) → n < 10 ^ suc k → length (digits_of limit n) ≤ suc k
unfolding digits_of
length-digits_of zero k n h = omega arith
length-digits_of (suc limit) zero n h = ground arith
length-digits_of (suc limit) (suc k) n h = ground (
  arith,
  length-append {0} (digits_of limit (n / 10)) ((b'0' + n % 10) ∷ []),
  length-digits_of limit k (n / 10) (omega (arith, pow-suc 10 (suc k))),
)

abbrev pub otp_width : Bool → ℕ
otp_width use_8_digits = if use_8_digits then 8 else 6

-- Digits filled up with zeroes to a width that they fit.
padded_lem :
    (k n : ℕ)
    → n < 10 ^ suc k
    → n < 10 ^ 20
    → (length (replicate (suc k - length (decimal n)) b'0' ++ decimal n) ≡ suc k)
      × (read_decimal 0 (replicate (suc k - length (decimal n)) b'0' ++ decimal n) ≡ n)
unfolding decimal
padded_lem k n fits small = (
  omega (
    arith,
    length-append {0} (replicate (suc k - length (digits_of 20 n)) b'0') (digits_of 20 n),
    length-replicate {0} {A = ℕ} (suc k - length (digits_of 20 n)) b'0',
    length-digits_of 20 k n fits,
  ),
  read_decimal-append 0 (replicate (suc k - length (digits_of 20 n)) b'0') (digits_of 20 n)
      ∙ ap (λ acc. read_decimal acc (digits_of 20 n))
          (read_decimal-zeroes (suc k - length (digits_of 20 n)))
      ∙ read_decimal-digits_of 20 n small,
)

-- A code with no more digits than the slot is configured for is written with exactly that many,
-- leading zeroes included, and reads back as the code.
pub filled_otp_code_lem :
    (code : ℕ) (use_8_digits : Bool)
    → code < 10 ^ otp_width use_8_digits
    → (length (filled_otp_code code use_8_digits) ≡ otp_width use_8_digits)
      × (read_decimal 0 (filled_otp_code code use_8_digits) ≡ code)
unfolding filled_otp_code
filled_otp_code_lem code true h = padded_lem 7 code h (omega arith)
filled_otp_code_lem code false h = padded_lem 5 code h (omega arith)
