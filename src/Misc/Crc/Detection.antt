-- ===== src/Misc/Crc/Detection.antt =====
-- What the checksum detects.
use libnitrokey.Prelude.{ℕ, ◌^◌, ◌<◌, bit_xor, ◌≡◌, ◌≢◌, List, [], ◌∷◌, ◌++◌}
use libnitrokey.Prelude.Bits.{bit_xor-lt, bit_xor_cancel, bit_xor_cancel_left}
use libnitrokey.Misc.Crc.{crc_word, crc_words}
use libnitrokey.Misc.Crc.Rounds.{crc_rounds-lt, crc_rounds_injective}

abbrev pub AreWords : List ℕ → Type 0
AreWords [] = Unit
AreWords (w ∷ ws) = (w < 2 ^ 32) × AreWords ws

crc_word-lt : (crc word : ℕ) → crc < 2 ^ 32 → word < 2 ^ 32 → crc_word crc word < 2 ^ 32
unfolding crc_word
crc_word-lt crc word p q = crc_rounds-lt 32 (bit_xor crc word) (bit_xor-lt 32 crc word p q)

-- Both arguments can be recovered from the result and the other one.
crc_word_injective :
    (a b w : ℕ) → a < 2 ^ 32 → b < 2 ^ 32 → w < 2 ^ 32 → crc_word a w ≡ crc_word b w → a ≡ b
unfolding crc_word
crc_word_injective a b w p q r e = bit_xor_cancel 32 a b w p q r (
    crc_rounds_injective 32 (bit_xor a w) (bit_xor b w) (bit_xor-lt 32 a w p r)
      (bit_xor-lt 32 b w q r) e)

crc_word_injective_data :
    (c v w : ℕ) → c < 2 ^ 32 → v < 2 ^ 32 → w < 2 ^ 32 → crc_word c v ≡ crc_word c w → v ≡ w
unfolding crc_word
crc_word_injective_data c v w p q r e = bit_xor_cancel_left 32 v w c q r p (
    crc_rounds_injective 32 (bit_xor c v) (bit_xor c w) (bit_xor-lt 32 c v p q)
      (bit_xor-lt 32 c w p r) e)

pub crc_words-lt : (crc : ℕ) (ws : List ℕ) → crc < 2 ^ 32 → AreWords ws → crc_words crc ws < 2 ^ 32
unfolding crc_words
crc_words-lt crc [] p q = p
crc_words-lt crc (w ∷ ws) p q = crc_words-lt (crc_word crc w) ws (crc_word-lt crc w p q.0) q.1

-- Over the same words, different starting values lead to different checksums.
pub crc_words_injective :
    (a b : ℕ) (ws : List ℕ)
    → a < 2 ^ 32
    → b < 2 ^ 32
    → AreWords ws
    → crc_words a ws ≡ crc_words b ws
    → a ≡ b
unfolding crc_words
crc_words_injective a b [] p q r e = e
crc_words_injective a b (w ∷ ws) p q r e = crc_word_injective a b w p q r.0 (
    crc_words_injective (crc_word a w) (crc_word b w) ws (crc_word-lt a w p r.0)
      (crc_word-lt b w q r.0) r.1 e)

-- Replacing one word of a message, whatever stands before and after it, changes the checksum.
pub crc_words_detects :
    (crc : ℕ) (before after : List ℕ) (v w : ℕ)
    → crc < 2 ^ 32
    → AreWords before
    → AreWords after
    → v < 2 ^ 32
    → w < 2 ^ 32
    → v ≢ w
    → crc_words crc (before ++ (v ∷ after)) ≢ crc_words crc (before ++ (w ∷ after))
unfolding crc_words
crc_words_detects crc [] after v w p q r hv hw ne e = ne (
    crc_word_injective_data crc v w p hv hw (
      crc_words_injective (crc_word crc v) (crc_word crc w) after (crc_word-lt crc v p hv)
        (crc_word-lt crc w p hw) r e))
crc_words_detects crc (b ∷ before) after v w p q r hv hw ne e =
    crc_words_detects (crc_word crc b) before after v w (crc_word-lt crc b p q.0) q.1 r hv hw ne e
