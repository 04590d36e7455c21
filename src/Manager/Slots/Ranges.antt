-- ===== src/Manager/Slots/Ranges.antt =====
-- The numbers of slots.
use libnitrokey.Prelude.{ℕ, ◌+◌, ◌≤◌, ◌<◌, ◌≡◌, refl, ap, ◌∙◌, Bool, true, false, not, arith}
use libnitrokey.Exceptions.{Action, err, throw_if, invalid_slot, ◌>>◌}
use libnitrokey.Misc.Fields.{CString}
use libnitrokey.Manager.Interface.{Link}
use libnitrokey.Manager.Slots.{
  is_internal_hotp_slot_number, is_valid_hotp_slot_number, is_valid_totp_slot_number,
  get_internal_slot_number_for_totp, get_internal_slot_number_for_hotp, get_hotp_code,
  get_totp_code, erase_hotp_slot, erase_totp_slot, get_hotp_slot_name, get_totp_slot_name,
  erase_slot, get_slot_name,
}

-- The internal numbers of valid HOTP and TOTP slots are told apart: the first count as HOTP slots,
-- the second do not, and each kind's are different for different slots.
pub internal_slot_numbers_lem :
    (n n' m m' : ℕ)
    → is_valid_hotp_slot_number n ≡ true
    → is_valid_hotp_slot_number n' ≡ true
    → is_valid_totp_slot_number m ≡ true
    → is_valid_totp_slot_number m' ≡ true
    → (is_internal_hotp_slot_number (get_internal_slot_number_for_hotp n) ≡ true)
      × (is_internal_hotp_slot_number (get_internal_slot_number_for_totp m) ≡ false)
      × (get_internal_slot_number_for_hotp n ≡ get_internal_slot_number_for_hotp n' → n ≡ n')
      × (get_internal_slot_number_for_totp m ≡ get_internal_slot_number_for_totp m' → m ≡ m')
unfolding is_valid_hotp_slot_number is_valid_totp_slot_number is_internal_hotp_slot_number
    get_internal_slot_number_for_hotp get_internal_slot_number_for_totp
internal_slot_numbers_lem n n' m m' hn hn' hm hm' =
    (ground arith, ground arith, (λ e. ground arith), (λ e. ground arith))

refused :
    {S B : Type 0} (valid : Bool) (slot_number : ℕ) (k : Action S B) (s : S)
    → valid ≡ false
    → (throw_if (not valid) (invalid_slot slot_number) >> k) s ≡ (err (invalid_slot slot_number), s)
refused valid slot_number k s h = rw h refl

hotp_invalid : (n : ℕ) → 3 ≤ n → is_valid_hotp_slot_number n ≡ false
unfolding is_valid_hotp_slot_number
hotp_invalid n h = ground arith

totp_invalid : (m : ℕ) → 15 ≤ m → is_valid_totp_slot_number m ≡ false
unfolding is_valid_totp_slot_number
totp_invalid m h = ground arith

hotp_valid :
    (n : ℕ)
    → n < 3
    → (is_valid_hotp_slot_number n ≡ true) × (get_internal_slot_number_for_hotp n ≡ 0x10 + n)
unfolding is_valid_hotp_slot_number get_internal_slot_number_for_hotp
hotp_valid n h = (ground arith, omega arith)

totp_valid :
    (m : ℕ)
    → m < 15
    → (is_valid_totp_slot_number m ≡ true) × (get_internal_slot_number_for_totp m ≡ 0x20 + m)
unfolding is_valid_totp_slot_number get_internal_slot_number_for_totp
totp_valid m h = (ground arith, omega arith)

let_through :
    {S B : Type 0} (valid : Bool) (slot_number : ℕ) (k : Action S B) (s : S)
    → valid ≡ true
    → (throw_if (not valid) (invalid_slot slot_number) >> k) s ≡ k s
let_through valid slot_number k s h = rw h refl

module _ {S : Type 0} (link : Link S) where
  -- HOTP slots have the numbers 0 to 2 and TOTP slots 0 to 14. Asking for a code, erasing and asking for
  -- a name refuse a greater number, with that number and before any command is sent; for the others,
  -- erasing and asking for a name use the slots from 0x10 on and from 0x20 on.
  pub slots_refused :
      (n m challenge time interval : ℕ) (password : CString) (s : S)
      → (3 ≤ n
          → (get_hotp_code link n password s ≡ (err (invalid_slot n), s))
            × (erase_hotp_slot link n password s ≡ (err (invalid_slot n), s))
            × (get_hotp_slot_name link n s ≡ (err (invalid_slot n), s)))
        × (n < 3
            → (erase_hotp_slot link n password s ≡ erase_slot link (0x10 + n) password s)
              × (get_hotp_slot_name link n s ≡ get_slot_name link (0x10 + n) s))
        × (15 ≤ m
            → (get_totp_code link m challenge time interval password s ≡ (err (invalid_slot m), s))
              × (erase_totp_slot link m password s ≡ (err (invalid_slot m), s))
              × (get_totp_slot_name link m s ≡ (err (invalid_slot m), s)))
        × (m < 15
            → (erase_totp_slot link m password s ≡ erase_slot link (0x20 + m) password s)
              × (get_totp_slot_name link m s ≡ get_slot_name link (0x20 + m) s))
  unfolding get_hotp_code get_totp_code erase_hotp_slot erase_totp_slot get_hotp_slot_name
      get_totp_slot_name
  slots_refused n m challenge time interval password s =
      let hotp = is_valid_hotp_slot_number n in
      let totp = is_valid_totp_slot_number m in
      (
        (λ h.
            let bad = hotp_invalid n h in
            (refused hotp n _ s bad, refused hotp n _ s bad, refused hotp n _ s bad)),
        (λ h.
            let good = hotp_valid n h in
            (
              let_through hotp n _ s (good.0) ∙ ap (λ i. erase_slot link i password s) (good.1),
              let_through hotp n _ s (good.0) ∙ ap (λ i. get_slot_name link i s) (good.1),
            )),
        (λ h.
            let bad = totp_invalid m h in
            (refused totp m _ s bad, refused totp m _ s bad, refused totp m _ s bad)),
        (λ h.
            let good = totp_valid m h in
            (
              let_through totp m _ s (good.0) ∙ ap (λ i. erase_slot link i password s) (good.1),
              let_through totp m _ s (good.0) ∙ ap (λ i. get_slot_name link i s) (good.1),
            )),
      )
