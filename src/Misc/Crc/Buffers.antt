-- ===== src/Misc/Crc/Buffers.antt =====
-- The words of a buffer, and what the checksum of a buffer detects.
use libnitrokey.Prelude.{
  ℕ, zero, suc, ◌+◌, ◌-◌, ◌*◌, ◌/◌, ◌^◌, ◌<◌, ◌≡◌, ◌≢◌, refl, ap, ◌∙◌, append-nil, arith, [], ◌∷◌,
  ◌++◌, length,
}
use libnitrokey.Prelude.Bytes.{Bytes, AreBytes, le_value, le_value_injective}
use libnitrokey.Misc.Crc.{words, crc_words, stm_crc32}
use libnitrokey.Misc.Crc.Detection.{AreWords, crc_words_detects, crc_words-lt}

words-append :
    (n k j : ℕ) (pre rest : Bytes)
    → length pre ≡ 4 * k
    → n ≡ k + j
    → words n (pre ++ rest) ≡ words k pre ++ words j rest
unfolding words
words-append n zero j [] rest h e = ap (λ m. words m rest) (omega arith)
words-append n zero j (a ∷ pre) rest h e = absurd (omega arith)
words-append zero (suc k) j pre rest h e = absurd (omega arith)
words-append (suc n) (suc k) j [] rest h e = absurd (omega arith)
words-append (suc n) (suc k) j (a ∷ []) rest h e = absurd (omega arith)
words-append (suc n) (suc k) j (a ∷ b ∷ []) rest h e = absurd (omega arith)
words-append (suc n) (suc k) j (a ∷ b ∷ c ∷ []) rest h e = absurd (omega arith)
words-append (suc n) (suc k) j (a ∷ b ∷ c ∷ d ∷ pre) rest h e =
    ap (λ ws. le_value (a ∷ b ∷ c ∷ d ∷ []) ∷ ws)
      (words-append n k j pre rest (omega arith) (omega arith))

-- Memory behind the words that are read plays no part.
pub stm_crc32-append :
    (k : ℕ) (buffer behind : Bytes)
    → length buffer ≡ 4 * k
    → stm_crc32 (buffer ++ behind) (4 * k) ≡ stm_crc32 buffer (4 * k)
unfolding stm_crc32 words
stm_crc32-append k buffer behind h = ap (crc_words 0xffffffff) (
    words-append ((4 * k + 3) / 4) k 0 buffer behind h (omega arith)
    ∙ append-nil (words k buffer)
    ∙ ap (λ m. words m buffer) (omega arith))

words-AreWords : (n : ℕ) (bs : Bytes) → AreBytes bs → AreWords (words n bs)
unfolding words
words-AreWords zero bs h = tt
words-AreWords (suc n) [] h = tt
words-AreWords (suc n) (a ∷ []) h = tt
words-AreWords (suc n) (a ∷ b ∷ []) h = tt
words-AreWords (suc n) (a ∷ b ∷ c ∷ []) h = tt
words-AreWords (suc n) (a ∷ b ∷ c ∷ d ∷ bs) h = (omega arith, words-AreWords n bs h.1.1.1.1)

pub stm_crc32-lt : (bs : Bytes) (size : ℕ) → AreBytes bs → stm_crc32 bs size < 2 ^ 32
unfolding stm_crc32
stm_crc32-lt bs size h =
    crc_words-lt 0xffffffff (words ((size + 3) / 4) bs) (omega arith) (words-AreWords _ bs h)

words-word :
    (n : ℕ) (v rest : Bytes) → length v ≡ 4 → words (suc n) (v ++ rest) ≡ le_value v ∷ words n rest
unfolding words
words-word n [] rest h = absurd (omega arith)
words-word n (a ∷ []) rest h = absurd (omega arith)
words-word n (a ∷ b ∷ []) rest h = absurd (omega arith)
words-word n (a ∷ b ∷ c ∷ []) rest h = absurd (omega arith)
words-word n (a ∷ b ∷ c ∷ d ∷ []) rest h = refl
words-word n (a ∷ b ∷ c ∷ d ∷ e ∷ v) rest h = absurd (omega arith)

le_value_word-lt : (v : Bytes) → AreBytes v → length v ≡ 4 → le_value v < 2 ^ 32
le_value_word-lt [] p h = absurd (omega arith)
le_value_word-lt (a ∷ []) p h = absurd (omega arith)
le_value_word-lt (a ∷ b ∷ []) p h = absurd (omega arith)
le_value_word-lt (a ∷ b ∷ c ∷ []) p h = absurd (omega arith)
le_value_word-lt (a ∷ b ∷ c ∷ d ∷ []) p h = omega arith
le_value_word-lt (a ∷ b ∷ c ∷ d ∷ e ∷ v) p h = absurd (omega arith)

pub stm_crc32_detects :
    (size k : ℕ) (before v w after : Bytes)
    → length before ≡ 4 * k
    → 4 * k < size
    → length v ≡ 4
    → length w ≡ 4
    → AreBytes before
    → AreBytes v
    → AreBytes w
    → AreBytes after
    → v ≢ w
    → stm_crc32 (before ++ (v ++ after)) size ≢ stm_crc32 (before ++ (w ++ after)) size
unfolding stm_crc32
stm_crc32_detects size k before v w after hk inside hv hw pb pv pw pa ne =
    let left = (size + 3) / 4 - k - 1 in
    let count : (size + 3) / 4 ≡ k + suc left = omega arith in
    rw
      (
        words-append _ k (suc left) before (v ++ after) hk count,
        words-append _ k (suc left) before (w ++ after) hk count,
        words-word left v after hv,
        words-word left w after hw,
      )
      (crc_words_detects 0xffffffff (words k before) (words left after) (le_value v) (le_value w)
        (omega arith) (words-AreWords k before pb) (words-AreWords left after pa)
        (le_value_word-lt v pv hv) (le_value_word-lt w pw hw)
        (λ e. ne (le_value_injective v w pv pw (omega arith) e)))
