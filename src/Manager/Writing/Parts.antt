-- ===== src/Manager/Writing/Parts.antt =====
-- The loop of `write_OTP_slot_no_authorize` against the parts of the secret.
use libnitrokey.Prelude.{
  ℕ, zero, suc, ◌+◌, ◌-◌, ◌%◌, ◌≤◌, ◌<◌, ◌⊎◌, min, ◌≡◌, refl, sym, ap, ◌∙◌, arith, List, [], ◌∷◌,
  ◌++◌, length, take, drop, length-drop, length-take, take-append-drop, ◌==◌, ltb, false, inl, inr,
}
use libnitrokey.Prelude.Bytes.{Bytes, zero_filled}
use libnitrokey.Exceptions.{Action, Result, ok, err, pure, then_call, ◌>>◌}
use libnitrokey.Misc.Fields.{vector_copy_ranged}
use libnitrokey.Commands.Command.{stick10_08}
use libnitrokey.Commands.Stick10_08.{Stick10_08}
use libnitrokey.Manager.Interface.{Link, execute}
use libnitrokey.Manager.Writing.{otp_data_size, send_secret}

-- The bytes in parts of 30, and what is left in the last.
unfoldable pub parts : ℕ → Bytes → List Bytes
parts zero bytes = []
parts (suc n) [] = []
parts (suc n) (x ∷ xs) = take 30 (x ∷ xs) ∷ parts n (drop 30 (x ∷ xs))

abbrev pub joined : List Bytes → Bytes
joined [] = []
joined (p ∷ ps) = p ++ joined ps

-- No part is empty, and none is longer than a report's data.
abbrev pub AreParts : List Bytes → Type 0
AreParts [] = Unit
AreParts (p ∷ ps) = (0 < length p) × (length p ≤ otp_data_size) × AreParts ps

drop_all : (n : ℕ) (xs : Bytes) → length xs ≤ n → drop n xs ≡ []
drop_all zero [] h = refl
drop_all zero (x ∷ xs) h = absurd (omega arith)
drop_all (suc n) [] h = refl
drop_all (suc n) (x ∷ xs) h = drop_all n xs (omega arith)

drop_nil : (n : ℕ) → drop {A = ℕ} n [] ≡ []
drop_nil zero = refl
drop_nil (suc n) = refl

drop-drop : (n m : ℕ) (xs : Bytes) → drop m (drop n xs) ≡ drop (n + m) xs
drop-drop zero m xs = let e : m ≡ 0 + m = omega arith in ap (λ k. drop k xs) e
drop-drop (suc n) m [] = drop_nil m ∙ sym (drop_nil (suc n + m))
drop-drop (suc n) m (x ∷ xs) =
    let e : suc (n + m) ≡ suc n + m = omega arith in drop-drop n m xs ∙ ap (λ k. drop k (x ∷ xs)) e

take-min : (n : ℕ) (xs : Bytes) → take (min n (length xs)) xs ≡ take n xs
take-min zero xs = let e : min 0 (length xs) ≡ 0 = omega arith in ap (λ k. take k xs) e
take-min (suc n) [] = let e : min (suc n) 0 ≡ 0 = omega arith in ap (λ k. take k []) e
take-min (suc n) (x ∷ xs) =
    let e : min (suc n) (suc (length xs)) ≡ suc (min n (length xs)) = omega arith in
    ap (λ k. take k (x ∷ xs)) e ∙ ap (λ t. x ∷ t) (take-min n xs)

joined-parts : (n : ℕ) (xs : Bytes) → length xs ≤ n → joined (parts n xs) ≡ xs
unfolding parts
joined-parts zero [] h = refl
joined-parts zero (x ∷ xs) h = absurd (omega arith)
joined-parts (suc n) [] h = refl
joined-parts (suc n) (x ∷ xs) h =
    ap (λ t. take 30 (x ∷ xs) ++ t)
      (joined-parts n (drop 30 (x ∷ xs)) (omega (arith, length-drop {0} 30 (x ∷ xs))))
    ∙ take-append-drop 30 (x ∷ xs)

parts-AreParts : (n : ℕ) (xs : Bytes) → AreParts (parts n xs)
unfolding parts
parts-AreParts zero xs = tt
parts-AreParts (suc n) [] = tt
parts-AreParts (suc n) (x ∷ xs) = (
  omega (arith, length-take {0} 30 (x ∷ xs)),
  omega (arith, length-take {0} 30 (x ∷ xs)),
  parts-AreParts n (drop 30 (x ∷ xs)),
)

le_cases : (m n : ℕ) → (m ≤ n) ⊎ (n < m)
le_cases m n = ground arith

-- What is left of the secret behind a part.
rest_of :
    (secret xs : Bytes)
    → drop (length secret - length xs) secret ≡ xs
    → drop (length secret - length (drop 30 xs)) secret ≡ drop 30 xs
rest_of secret xs e =
    let shorter : length xs ≤ length secret =
      omega (arith, length-drop {0} (length secret - length xs) secret, ap length e) in
    elim (le_cases 30 (length xs)) [
      | inl h ↦
          let k : length secret - length (drop 30 xs) ≡ (length secret - length xs) + 30 =
            omega (arith, length-drop {0} 30 xs) in
          ap (λ n. drop n secret) k
          ∙ sym (drop-drop (length secret - length xs) 30 secret)
          ∙ ap (drop 30) e
      | inr h ↦
          drop_all (length secret - length (drop 30 xs)) secret
            (omega (arith, length-drop {0} 30 xs))
          ∙ sym (drop_all 30 xs (omega arith))
    ]

module _ {S : Type 0} (link : Link S) where
  -- One report for each part, with a number that wraps around like `uint8_t`.
  pub send_parts : Bytes → List Bytes → ℕ → Action S (Unit {0})
  send_parts password [] id = pure tt
  send_parts password (p ∷ ps) id = do
    execute link
        (stick10_08 (Stick10_08.send_otp_data password b'S' id (zero_filled otp_data_size p)))
    send_parts password ps ((id + 1) % 256)

  then_call-ext :
      {A B : Type 0} (r : Result A × S) (f g : A → Action S B)
      → ((a : A) (s : S) → f a s ≡ g a s)
      → then_call f r ≡ then_call g r
  then_call-ext (ok a, s) f g h = h a s
  then_call-ext (err e, s) f g h = refl

  ranged :
      (secret ys : Bytes)
      → drop (length secret - length ys) secret ≡ ys
      → vector_copy_ranged otp_data_size secret
          (length secret - length ys)
          (min otp_data_size (length ys))
        ≡ ok (zero_filled otp_data_size (take 30 ys))
  unfolding vector_copy_ranged
  ranged secret ys e =
      let fits : ltb otp_data_size (min otp_data_size (length ys)) ≡ false = ground arith in
      rw (fits, e, take-min 30 ys) refl

  send_secret-parts :
      (fuel : ℕ) (password secret xs : Bytes) (id : ℕ) (s : S)
      → drop (length secret - length xs) secret ≡ xs
      → length xs ≤ fuel
      → send_secret link fuel password secret (length xs) id s
        ≡ send_parts password (parts fuel xs) id s
  unfolding send_secret send_parts parts
  send_secret-parts zero password secret xs id s e h = refl
  send_secret-parts (suc fuel) password secret [] id s e h = refl
  send_secret-parts (suc fuel) password secret (x ∷ xs) id s e h =
      let ys : Bytes = x ∷ xs in
      let nonzero : (length ys == 0) ≡ false = ground arith in
      let left : length ys - min otp_data_size (length ys) ≡ length (drop 30 ys) =
        omega (arith, length-drop {0} 30 ys) in
      rw (nonzero, ranged secret ys e)
        (then_call-ext
          (execute link
            (stick10_08
              (Stick10_08.send_otp_data password b'S' id (zero_filled otp_data_size (take 30 ys))))
            s)
          _ _
          λ _ s'. rw left (
            send_secret-parts fuel password secret (drop 30 ys) ((id + 1) % 256) s'
              (rest_of secret ys e) (omega (arith, length-drop {0} 30 ys))))

  -- The loop ends within the fuel of the secret's size, with the whole secret sent: it does what sending
  -- one report for each of some parts does, numbered from 0. The parts are not empty, fit a report and
  -- make up the secret.
  pub send_secret_lem :
      (password secret : Bytes) (s : S)
      → (send_secret link (length secret) password secret (length secret) 0 s
          ≡ send_parts password (parts (length secret) secret) 0 s)
        × (joined (parts (length secret) secret) ≡ secret)
        × AreParts (parts (length secret) secret)
  send_secret_lem password secret s = (
    send_secret-parts (length secret) password secret secret 0 s
        (let e : length secret - length secret ≡ 0 = omega arith in ap (λ n. drop n secret) e)
        (omega arith),
    joined-parts (length secret) secret (omega arith),
    parts-AreParts (length secret) secret,
  )
