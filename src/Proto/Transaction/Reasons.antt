-- ===== src/Proto/Transaction/Reasons.antt =====
-- Why a command of a Storage device failed, as a client is told.
use mathlib.Core.Path.{subst}
use libnitrokey.Prelude.{ℕ, ◌≡◌, ◌⊎◌, Bool, true, false, ◌&&◌, leb, ltb, refl, inl, inr}
use libnitrokey.Prelude.Bytes.{Bytes}
use libnitrokey.Exceptions.{Throws, Throws-imp, Exception, command_failed}
use libnitrokey.Exceptions.Reasons.{
  reason_timestamp_warning, reason_aes_not_initialized, reason_not_authorized,
  reason_slot_not_programmed, reason_wrong_password, reason_smartcard_busy,
}
use libnitrokey.Device.Hid.{Hid}
use libnitrokey.Device.Model.{storage}
use libnitrokey.Device.State.{Session}
use libnitrokey.Proto.Transaction.{run}
use libnitrokey.Proto.Transaction.Receiving.{model_of}
use libnitrokey.Proto.Transaction.Errors.{IsRunError, run-IsRunError}

-- The one of two questions that is answered with yes.
abbrev pub IsOneOf : Bool → Bool → Type 0
IsOneOf a b = ((a ≡ true) × (b ≡ false)) ⊎ ((a ≡ false) × (b ≡ true))

abbrev pub HasOneReason : Exception → Type 0
HasOneReason (command_failed command status) =
    (leb 0x20 command && ltb command 0x60) ≡ true
    → IsOneOf (reason_wrong_password status) (reason_aes_not_initialized status)
      × (reason_timestamp_warning status ≡ false)
      × (reason_not_authorized status ≡ false)
      × (reason_slot_not_programmed status ≡ false)
      × (reason_smartcard_busy status ≡ false)
HasOneReason _ = Unit

one_reason : (e : Exception) → IsRunError storage e → HasOneReason e
unfolding reason_wrong_password reason_aes_not_initialized reason_timestamp_warning
    reason_not_authorized reason_slot_not_programmed reason_smartcard_busy
one_reason (command_failed command status) h = λ own. elim (h.1 own) [
  | inl wrong ↦ rw wrong (inl (refl, refl), refl, refl, refl, refl)
  | inr aes ↦ rw aes (inr (refl, refl), refl, refl, refl, refl)
]
one_reason _ h = tt

-- Where a command of a Storage device fails in an answer that names one of the Storage's own, exactly
-- one of `reason_wrong_password` and `reason_AES_not_initialized` holds, and none of the other four
-- reasons.
pub run-HasOneReason :
    {W : Type 0} (hid : Hid W) (command : ℕ) (payload : Bytes) (s : Session W)
    → model_of s ≡ storage
    → Throws HasOneReason (run hid command payload s)
run-HasOneReason hid command payload s e =
    Throws-imp (IsRunError (model_of s)) HasOneReason (run hid command payload s)
      (λ x h. one_reason x (subst (λ m. IsRunError m x) e h)) (run-IsRunError hid command payload s)
