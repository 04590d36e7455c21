-- ===== src/Manager/Writing/Laws.antt =====
-- Writing a slot.
use libnitrokey.Prelude.{ℕ, zero, suc, ◌==◌, length, refl, Bool, true, false, not}
use libnitrokey.Prelude.Bytes.{Bytes}
use libnitrokey.Exceptions.{invalid_slot}
use libnitrokey.Misc.Fields.{vector_copy, vector_copy_ranged}
use libnitrokey.Misc.Hex.{hex_string_to_byte}
use libnitrokey.Proto.Transaction.{is_storage}
use libnitrokey.Commands.Command.{stick10_08}
use libnitrokey.Commands.Stick10_08.{Stick10_08}
use libnitrokey.Manager.Interface.{Link}
use libnitrokey.Manager.Authorization.Log.{logged, needs_authorization}
use libnitrokey.Manager.Authorization.Laws.{
  KeepsAuthorized, >>=-KeepsAuthorized, lift-KeepsAuthorized, pure-KeepsAuthorized,
  field-KeepsAuthorized, authorized_last-KeepsAuthorized, if-KeepsAuthorized,
  throw_if-KeepsAuthorized, supported-KeepsAuthorized, execute-KeepsAuthorized,
  connected_model-KeepsAuthorized,
}
use libnitrokey.Manager.Slots.{
  is_valid_hotp_slot_number, is_valid_totp_slot_number, get_internal_slot_number_for_hotp,
  get_internal_slot_number_for_totp,
}
use libnitrokey.Manager.Writing.{
  OtpSlot, write_hotp_slot_authorize, write_totp_slot_authorize, send_secret,
  write_otp_slot_no_authorize, write_hotp_slot, write_totp_slot, otp_data_size, counter_field,
}

module _ {S : Type 0} (link : Link S) where
  counter-KeepsAuthorized :
      (as_digits : Bool) (hotp_counter : ℕ)
      → KeepsAuthorized {S = S} (counter_field as_digits hotp_counter)
  counter-KeepsAuthorized true hotp_counter = field-KeepsAuthorized 8 _
  counter-KeepsAuthorized false hotp_counter = pure-KeepsAuthorized _

  totp-KeepsAuthorized :
      (slot_number time_window : ℕ) (slot : OtpSlot)
      → KeepsAuthorized (write_totp_slot_authorize (logged link) slot_number time_window slot)
  unfolding write_totp_slot_authorize
  totp-KeepsAuthorized slot_number time_window slot =
      >>=-KeepsAuthorized _ _ (lift-KeepsAuthorized (hex_string_to_byte (slot.secret)))
        λ secret_bin.
          >>=-KeepsAuthorized _ _ (lift-KeepsAuthorized (vector_copy 20 secret_bin)) λ slot_secret.
            >>=-KeepsAuthorized _ _ (field-KeepsAuthorized 15 (slot.slot_name)) λ slot_name.
              >>=-KeepsAuthorized _ _ (field-KeepsAuthorized 13 (slot.token_id))
                λ slot_token_id. authorized_last-KeepsAuthorized link _ (slot.temporary_password)

  hotp-KeepsAuthorized :
      (slot_number hotp_counter : ℕ) (slot : OtpSlot)
      → KeepsAuthorized (write_hotp_slot_authorize (logged link) slot_number hotp_counter slot)
  unfolding write_hotp_slot_authorize
  hotp-KeepsAuthorized slot_number hotp_counter slot =
      >>=-KeepsAuthorized _ _ (connected_model-KeepsAuthorized link) λ model.
        >>=-KeepsAuthorized _ _ (lift-KeepsAuthorized (hex_string_to_byte (slot.secret)))
          λ secret_bin.
            >>=-KeepsAuthorized _ _ (lift-KeepsAuthorized (vector_copy 20 secret_bin))
              λ slot_secret.
                >>=-KeepsAuthorized _ _ (field-KeepsAuthorized 15 (slot.slot_name)) λ slot_name.
                  >>=-KeepsAuthorized _ _ (field-KeepsAuthorized 13 (slot.token_id))
                    λ slot_token_id.
                      >>=-KeepsAuthorized _ _
                        (counter-KeepsAuthorized (is_storage model) hotp_counter)
                        λ counter. authorized_last-KeepsAuthorized link _ (slot.temporary_password)

  send_secret-KeepsAuthorized :
      (fuel : ℕ) (password secret : Bytes) (remaining id : ℕ)
      → KeepsAuthorized (send_secret (logged link) fuel password secret remaining id)
  unfolding send_secret needs_authorization
  send_secret-KeepsAuthorized zero password secret remaining id = pure-KeepsAuthorized tt
  send_secret-KeepsAuthorized (suc fuel) password secret remaining id =
      if-KeepsAuthorized (remaining == 0) _ _ (pure-KeepsAuthorized tt) (
        >>=-KeepsAuthorized _ _ (lift-KeepsAuthorized (vector_copy_ranged _ secret _ _)) λ content.
          >>=-KeepsAuthorized _ _
            (execute-KeepsAuthorized link
              (stick10_08 (Stick10_08.send_otp_data password b'S' id content)) refl)
            λ _. send_secret-KeepsAuthorized fuel password secret _ _)

  no_authorize-KeepsAuthorized :
      (slot_number counter : ℕ) (slot : OtpSlot)
      → KeepsAuthorized (write_otp_slot_no_authorize (logged link) slot_number counter slot)
  unfolding write_otp_slot_no_authorize needs_authorization
  no_authorize-KeepsAuthorized slot_number counter slot =
      >>=-KeepsAuthorized _ _ (field-KeepsAuthorized 25 (slot.temporary_password)) λ password.
        >>=-KeepsAuthorized _ _ (field-KeepsAuthorized otp_data_size (slot.slot_name)) λ name.
          >>=-KeepsAuthorized _ _
            (execute-KeepsAuthorized link
              (stick10_08 (Stick10_08.send_otp_data password b'N' 0 name)) refl)
            λ _.
              >>=-KeepsAuthorized _ _ (lift-KeepsAuthorized (hex_string_to_byte (slot.secret)))
                λ secret_bin. >>=-KeepsAuthorized _ _ (throw_if-KeepsAuthorized _ _) λ _.
                  >>=-KeepsAuthorized _ _
                    (send_secret-KeepsAuthorized (length secret_bin) password secret_bin
                      (length secret_bin) 0)
                    λ _.
                      >>=-KeepsAuthorized _ _ (field-KeepsAuthorized 13 (slot.token_id))
                        λ slot_token_id.
                          execute-KeepsAuthorized link
                            (stick10_08 (Stick10_08.write_to_otp_slot _ _ _ _ _)) refl

  -- Over any link, with any answers: where every erasing of a slot and every writing that carries no
  -- password came right after an administrator's authorization of the checksum of its packet, this is
  -- still so after an attempt to write a slot, whether it returns or throws.
  pub write_slots-KeepsAuthorized :
      (slot_number number : ℕ) (slot : OtpSlot)
      → KeepsAuthorized (write_hotp_slot (logged link) slot_number number slot)
        × KeepsAuthorized (write_totp_slot (logged link) slot_number number slot)
  unfolding write_hotp_slot write_totp_slot
  write_slots-KeepsAuthorized slot_number number slot = (
    >>=-KeepsAuthorized _ _
        (throw_if-KeepsAuthorized (not (is_valid_hotp_slot_number slot_number))
          (invalid_slot slot_number))
        λ _. >>=-KeepsAuthorized _ _ (supported-KeepsAuthorized link) λ supported.
          >>=-KeepsAuthorized _ _
            (if-KeepsAuthorized supported _ _
              (hotp-KeepsAuthorized (get_internal_slot_number_for_hotp slot_number) number slot)
              (no_authorize-KeepsAuthorized (get_internal_slot_number_for_hotp slot_number) number
                slot))
            λ _. pure-KeepsAuthorized true,
    >>=-KeepsAuthorized _ _
        (throw_if-KeepsAuthorized (not (is_valid_totp_slot_number slot_number))
          (invalid_slot slot_number))
        λ _. >>=-KeepsAuthorized _ _ (supported-KeepsAuthorized link) λ supported.
          >>=-KeepsAuthorized _ _
            (if-KeepsAuthorized supported _ _
              (totp-KeepsAuthorized (get_internal_slot_number_for_totp slot_number) number slot)
              (no_authorize-KeepsAuthorized (get_internal_slot_number_for_totp slot_number) number
                slot))
            λ _. pure-KeepsAuthorized true,
  )
