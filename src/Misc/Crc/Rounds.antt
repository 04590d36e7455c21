-- ===== src/Misc/Crc/Rounds.antt =====
-- One round of the checksum is a permutation of the 32-bit words.
use libnitrokey.Prelude.{ℕ, zero, suc, ◌*◌, ◌%◌, ◌^◌, ◌<◌, bit_xor, ◌≡◌, arith, ltb, if◌then◌else◌}
use libnitrokey.Prelude.Bits.{bit_xor_step, bit_xor-lt, bit_xor_cancel, bit_and-pow}
use libnitrokey.Misc.Crc.{polynomial, crc_step, crc_rounds}

-- Without the mask: the top bit is that of numbers from 2 ^ 31.
crc_step-cases :
    (crc : ℕ)
    → crc < 2 ^ 32
    → crc_step crc ≡ (if ltb crc (2 ^ 31) then crc * 2 else bit_xor (crc * 2 % 2 ^ 32) polynomial)
unfolding crc_step
crc_step-cases crc h = ground (arith, bit_and-pow 31 crc)

crc_step-lt : (crc : ℕ) → crc < 2 ^ 32 → crc_step crc < 2 ^ 32
crc_step-lt crc h =
    ground (arith, crc_step-cases crc h, bit_xor-lt 32 (crc * 2 % 2 ^ 32) polynomial)

-- The polynomial is odd, so the lowest bit of the result tells which branch was taken.
crc_step_injective : (a b : ℕ) → a < 2 ^ 32 → b < 2 ^ 32 → crc_step a ≡ crc_step b → a ≡ b
crc_step_injective a b p q e = ground (
  arith,
  crc_step-cases a p,
  crc_step-cases b q,
  bit_xor_step (a * 2 % 2 ^ 32) polynomial,
  bit_xor_step (b * 2 % 2 ^ 32) polynomial,
  bit_xor_cancel 32 (a * 2 % 2 ^ 32) (b * 2 % 2 ^ 32) polynomial,
)

pub crc_rounds-lt : (n crc : ℕ) → crc < 2 ^ 32 → crc_rounds n crc < 2 ^ 32
unfolding crc_rounds
crc_rounds-lt zero crc h = h
crc_rounds-lt (suc n) crc h = crc_rounds-lt n (crc_step crc) (crc_step-lt crc h)

pub crc_rounds_injective :
    (n a b : ℕ) → a < 2 ^ 32 → b < 2 ^ 32 → crc_rounds n a ≡ crc_rounds n b → a ≡ b
unfolding crc_rounds
crc_rounds_injective zero a b p q e = e
crc_rounds_injective (suc n) a b p q e =
    crc_step_injective a b p q
      (crc_rounds_injective n (crc_step a) (crc_step b) (crc_step-lt a p) (crc_step-lt b q) e)
