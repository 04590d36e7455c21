-- ===== src/Misc/Fields.antt =====
-- Copies into the fixed arrays of the payloads: `strcpyT` of misc.h, `vector_copy` and
-- `vector_copy_ranged` of NitrokeyManager.cc, and `strndup`.
use libnitrokey.Prelude.{
  ℕ, Option, none, some, [], ◌∷◌, length, min, take, drop, ◌-◌, ltb, ◌==◌, ◌<◌, ◌≤◌, ◌≡◌, refl,
  arith, ap, ◌∙◌, append_assoc, ◌⊎◌, inl, inr, ◌+◌, ◌++◌, replicate, if◌then◌else◌,
}
use libnitrokey.Prelude.Bytes.{Bytes, length-zero_filled, zero_filled}
use libnitrokey.Exceptions.{Result, ok, err, too_long_string, target_buffer_smaller_than_source}

-- A `const char*`: null, or the bytes before its final zero.
abbrev pub CString : Type 0
CString = Option Bytes

abbrev pub field_width_max : ℕ
field_width_max = 100

-- `strcpyT` into an array of so many bytes with the contents `dest`. `strncpy` fills up with zeroes.
unfoldable pub strcpy_t : ℕ → Bytes → CString → Result Bytes
strcpy_t s_dest dest none = ok dest
strcpy_t s_dest dest (some src) =
    let src_strlen = min field_width_max (length src) in
    if ltb s_dest src_strlen
    then err (too_long_string src_strlen s_dest)
    else ok (zero_filled s_dest (take s_dest src))

pub vector_copy : ℕ → Bytes → Result Bytes
vector_copy d_size vec =
    if ltb d_size (length vec)
    then err (target_buffer_smaller_than_source (length vec) d_size)
    else ok (zero_filled d_size vec)

unfoldable pub vector_copy_ranged : ℕ → Bytes → ℕ → ℕ → Result Bytes
vector_copy_ranged d_size vec begin elements_to_copy =
    if ltb d_size elements_to_copy
    then err (target_buffer_smaller_than_source elements_to_copy d_size)
    else ok (zero_filled d_size (take elements_to_copy (drop begin vec)))

-- The bytes before the first zero, at most so many: what `strndup` copies. The list is what lies in
-- memory from the pointer on, up to a zero at least or as far as the limit; a C string is given without
-- its final zero. What lies behind an array is for the caller to give.
pub strndup : ℕ → Bytes → Bytes
strndup ℕ.zero bytes = []
strndup (ℕ.suc n) [] = []
strndup (ℕ.suc n) (b ∷ bs) = if b == 0 then [] else b ∷ strndup n bs

-- No byte of a C string is zero.
abbrev pub IsText : Bytes → Type 0
IsText [] = Unit
IsText (b ∷ bs) = (0 < b) × IsText bs

-- A text that fits is copied whole.
pub strndup_all : (n : ℕ) (bs : Bytes) → IsText bs → length bs ≤ n → strndup n bs ≡ bs
unfolding strndup
strndup_all ℕ.zero [] p h = refl
strndup_all ℕ.zero (b ∷ bs) p h = absurd (omega arith)
strndup_all (ℕ.suc n) [] p h = refl
strndup_all (ℕ.suc n) (b ∷ bs) p h = ground (arith, strndup_all n bs)

take_all : (n : ℕ) (bs : Bytes) → length bs ≤ n → take n bs ≡ bs
take_all ℕ.zero [] h = refl
take_all ℕ.zero (b ∷ bs) h = absurd (omega arith)
take_all (ℕ.suc n) [] h = refl
take_all (ℕ.suc n) (b ∷ bs) h = ap (λ t. b ∷ t) (take_all n bs (omega arith))

strndup-exact : (n : ℕ) (bs rest : Bytes) → IsText bs → n ≡ length bs → strndup n (bs ++ rest) ≡ bs
unfolding strndup
strndup-exact ℕ.zero [] rest t h = refl
strndup-exact (ℕ.suc n) [] rest t h = absurd (omega arith)
strndup-exact ℕ.zero (b ∷ bs) rest t h = absurd (omega arith)
strndup-exact (ℕ.suc n) (b ∷ bs) rest t h = ground (arith, strndup-exact n bs rest t.1)

strndup-terminated :
    (n : ℕ) (bs rest : Bytes) → IsText bs → length bs ≤ n → strndup n (bs ++ (0 ∷ rest)) ≡ bs
unfolding strndup
strndup-terminated ℕ.zero [] rest t h = refl
strndup-terminated (ℕ.suc n) [] rest t h = refl
strndup-terminated ℕ.zero (b ∷ bs) rest t h = absurd (omega arith)
strndup-terminated (ℕ.suc n) (b ∷ bs) rest t h = ground (arith, strndup-terminated n bs rest t.1)

-- A field with its padding, in front of anything else: read as far as its end, or padded.
strndup-field :
    (n k : ℕ) (bs behind : Bytes)
    → IsText bs
    → length bs ≤ n
    → (n ≤ length bs + k) ⊎ (0 < k)
    → strndup n ((bs ++ replicate k 0) ++ behind) ≡ bs
strndup-field n ℕ.zero bs behind t h (inl exact) =
    ap (strndup n) (append_assoc bs [] behind) ∙ strndup-exact n bs behind t (omega arith)
strndup-field n ℕ.zero bs behind t h (inr positive) = absurd (omega arith)
strndup-field n (ℕ.suc k) bs behind t h c =
    ap (strndup n) (append_assoc bs (0 ∷ replicate k 0) behind)
    ∙ strndup-terminated n bs (replicate k 0 ++ behind) t h

field_ends :
    (size limit : ℕ) (text : Bytes)
    → length text ≤ size
    → (limit ≤ size) ⊎ (length text < size)
    → (limit ≤ length text + (size - length text)) ⊎ (0 < size - length text)
field_ends size limit text h (inl within) = inl (omega arith)
field_ends size limit text h (inr shorter) = inr (omega arith)

-- For a field of fewer than 100 bytes: `strcpyT` accepts a string that fits, the stored bytes fill the
-- field exactly, and `strndup` with any limit from the string's length reads it back as it was,
-- whatever lies behind the field in memory, if the limit is no more than the field's size or the
-- string is shorter than the field. A longer string is refused with both sizes, the source's counted up
-- to 100.
pub strcpy_t_lem :
    (size limit : ℕ) (dest text behind : Bytes)
    → size < field_width_max
    → IsText text
    → length text ≤ limit
    → (limit ≤ size) ⊎ (length text < size)
    → (length text ≤ size
        → (stored : Bytes) × (strcpy_t size dest (some text) ≡ ok stored)
          × (length stored ≡ size)
          × (strndup limit (stored ++ behind) ≡ text))
      × (size < length text
          → strcpy_t size dest (some text)
            ≡ err (too_long_string (min field_width_max (length text)) size))
unfolding strcpy_t
strcpy_t_lem size limit dest text behind small t enough ends = (
  (λ h. (
    zero_filled size text,
    rw (take_all size text h) (ground arith),
    length-zero_filled size text h,
    strndup-field limit (size - length text) text behind t enough
        (field_ends size limit text h ends),
  )),
  (λ h. ground arith),
)
