-- ===== src/Manager/Slots/Laws.antt =====
-- Erasing a slot.
use libnitrokey.Prelude.{ℕ, refl, true, not}
use libnitrokey.Exceptions.{pure, invalid_slot}
use libnitrokey.Misc.Fields.{CString}
use libnitrokey.Commands.Command.{stick10, stick10_08}
use libnitrokey.Commands.Stick10.{Stick10}
use libnitrokey.Commands.Stick10_08.{Stick10_08}
use libnitrokey.Manager.Interface.{Link}
use libnitrokey.Manager.Status.{is_authorization_command_supported}
use libnitrokey.Manager.Authorization.Log.{logged, needs_authorization}
use libnitrokey.Manager.Authorization.Laws.{
  KeepsAuthorized, >>=-KeepsAuthorized, pure-KeepsAuthorized, field-KeepsAuthorized,
  if-KeepsAuthorized, throw_if-KeepsAuthorized, supported-KeepsAuthorized,
  authorized_execute-KeepsAuthorized, execute-KeepsAuthorized,
}
use libnitrokey.Manager.Slots.{
  erase_slot, erase_hotp_slot, erase_totp_slot, is_valid_hotp_slot_number,
  is_valid_totp_slot_number, get_internal_slot_number_for_hotp, get_internal_slot_number_for_totp,
}

module _ {S : Type 0} (link : Link S) where
  erase_slot-KeepsAuthorized :
      (slot_number : ℕ) (password : CString)
      → KeepsAuthorized (erase_slot (logged link) slot_number password)
  unfolding erase_slot needs_authorization
  erase_slot-KeepsAuthorized slot_number password =
      >>=-KeepsAuthorized (is_authorization_command_supported (logged link)) _
        (supported-KeepsAuthorized link)
        λ supported.
          if-KeepsAuthorized supported _ _
            (authorized_execute-KeepsAuthorized link (stick10 (Stick10.erase_slot slot_number))
              password (pure true) (pure-KeepsAuthorized true))
            (>>=-KeepsAuthorized _ _ (field-KeepsAuthorized 25 password) λ p.
              >>=-KeepsAuthorized _ _
                (execute-KeepsAuthorized link (stick10_08 (Stick10_08.erase_slot_08 slot_number p))
                  refl)
                λ _. pure-KeepsAuthorized true)

  -- Over any link, with any answers: where every erasing of a slot and every writing that carries no
  -- password came right after an administrator's authorization of the checksum of its packet, this is
  -- still so after an attempt to erase a slot, whether it returns or throws.
  pub erase_slots-KeepsAuthorized :
      (slot_number : ℕ) (password : CString)
      → KeepsAuthorized (erase_hotp_slot (logged link) slot_number password)
        × KeepsAuthorized (erase_totp_slot (logged link) slot_number password)
  unfolding erase_hotp_slot erase_totp_slot
  erase_slots-KeepsAuthorized slot_number password = (
    >>=-KeepsAuthorized _ _
        (throw_if-KeepsAuthorized (not (is_valid_hotp_slot_number slot_number))
          (invalid_slot slot_number))
        λ _. erase_slot-KeepsAuthorized (get_internal_slot_number_for_hotp slot_number) password,
    >>=-KeepsAuthorized _ _
        (throw_if-KeepsAuthorized (not (is_valid_totp_slot_number slot_number))
          (invalid_slot slot_number))
        λ _. erase_slot-KeepsAuthorized (get_internal_slot_number_for_totp slot_number) password,
  )
