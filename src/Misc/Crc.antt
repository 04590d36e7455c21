-- ===== src/Misc/Crc.antt =====
-- The checksum of misc.cc, `_crc32` and `stm_crc32`, over a buffer as a list of bytes.
pub mod Rounds
pub mod Detection
pub mod Buffers
use libnitrokey.Prelude.{
  ℕ, zero, suc, ◌+◌, ◌*◌, ◌/◌, ◌%◌, ◌^◌, bit_and, bit_xor, List, [], ◌∷◌, ◌==◌, if◌then◌else◌,
}
use libnitrokey.Prelude.Bytes.{Bytes, le_value}

abbrev pub polynomial : ℕ
polynomial = 0x04C11DB7

-- The body of the loop of `_crc32`: the shift drops what leaves the 32 bits.
unfoldable pub crc_step : ℕ → ℕ
crc_step crc =
    let shifted = crc * 2 % 2 ^ 32 in
    if bit_and crc 0x80000000 == 0 then shifted else bit_xor shifted polynomial

-- The loop itself, with the rounds left.
unfoldable pub crc_rounds : ℕ → ℕ → ℕ
crc_rounds zero crc = crc
crc_rounds (suc left) crc = crc_rounds left (crc_step crc)

-- `_crc32`
unfoldable pub crc_word : ℕ → ℕ → ℕ
crc_word crc word = crc_rounds 32 (bit_xor crc word)

-- The first `uint32_t` values that the memory from a pointer on is read as, on a little-endian machine.
-- Where so many bytes are not given, it stops.
unfoldable pub words : ℕ → Bytes → List ℕ
words zero memory = []
words (suc left) (a ∷ b ∷ c ∷ d ∷ rest) = le_value (a ∷ b ∷ c ∷ d ∷ []) ∷ words left rest
words (suc left) _ = []

-- The loop of `stm_crc32` over the words.
unfoldable pub crc_words : ℕ → List ℕ → ℕ
crc_words crc [] = crc
crc_words crc (word ∷ rest) = crc_words (crc_word crc word) rest

-- As many words are read as begin before `data + size`: of a size that four does not divide the last
-- one ends behind it. `buffer` is the memory from the pointer on.
unfoldable pub stm_crc32 : Bytes → ℕ → ℕ
stm_crc32 buffer size = crc_words 0xffffffff (words ((size + 3) / 4) buffer)
