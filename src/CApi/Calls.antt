-- ===== src/CApi/Calls.antt =====
-- The functions of NK_C_API.cc for slots, PINs and the password safe that return a status.
use libnitrokey.Prelude.{ℕ, Bool}
use libnitrokey.Exceptions.{Action}
use libnitrokey.Misc.Fields.{CString}
use libnitrokey.Manager.Interface.{Link}
use libnitrokey.Manager.Pins.{
  first_authenticate, user_authenticate, factory_reset, build_aes_key, unlock_user_password,
  write_config, set_time, set_time_soft, change_admin_pin, change_user_pin, lock_device,
  enable_firmware_update_pro, change_firmware_update_password_pro,
}
use libnitrokey.Manager.Slots.{erase_hotp_slot, erase_totp_slot}
use libnitrokey.Manager.Writing.{OtpSlot, write_hotp_slot, write_totp_slot}
use libnitrokey.Manager.PasswordSafe.{
  enable_password_safe, write_password_safe_slot, erase_password_safe_slot,
}
use libnitrokey.CApi.Status.{Api, get_without_result}

module _ {S : Type 0} (link : Link S) where
  pub nk_first_authenticate : CString → CString → Action (Api S) ℕ
  nk_first_authenticate admin_password admin_temporary_password =
      get_without_result (first_authenticate link admin_password admin_temporary_password)

  pub nk_user_authenticate : CString → CString → Action (Api S) ℕ
  nk_user_authenticate user_password user_temporary_password =
      get_without_result (user_authenticate link user_password user_temporary_password)

  pub nk_factory_reset : CString → Action (Api S) ℕ
  nk_factory_reset admin_password = get_without_result (factory_reset link admin_password)

  pub nk_build_aes_key : CString → Action (Api S) ℕ
  nk_build_aes_key admin_password = get_without_result (build_aes_key link admin_password)

  pub nk_unlock_user_password : CString → CString → Action (Api S) ℕ
  nk_unlock_user_password admin_password new_user_password =
      get_without_result (unlock_user_password link admin_password new_user_password)

  pub nk_write_config : ℕ → ℕ → ℕ → Bool → Bool → CString → Action (Api S) ℕ
  nk_write_config numlock capslock scrolllock enable_user_password delete_user_password
        admin_temporary_password =
      get_without_result (
        write_config link numlock capslock scrolllock enable_user_password delete_user_password
          admin_temporary_password)

  pub nk_erase_hotp_slot : ℕ → CString → Action (Api S) ℕ
  nk_erase_hotp_slot slot_number temporary_password =
      get_without_result (erase_hotp_slot link slot_number temporary_password)

  pub nk_erase_totp_slot : ℕ → CString → Action (Api S) ℕ
  nk_erase_totp_slot slot_number temporary_password =
      get_without_result (erase_totp_slot link slot_number temporary_password)

  pub nk_write_hotp_slot : ℕ → ℕ → OtpSlot → Action (Api S) ℕ
  nk_write_hotp_slot slot_number hotp_counter slot =
      get_without_result (write_hotp_slot link slot_number hotp_counter slot)

  pub nk_write_totp_slot : ℕ → ℕ → OtpSlot → Action (Api S) ℕ
  nk_write_totp_slot slot_number time_window slot =
      get_without_result (write_totp_slot link slot_number time_window slot)

  pub nk_totp_set_time : ℕ → Action (Api S) ℕ
  nk_totp_set_time time = get_without_result (set_time link time)

  pub nk_totp_set_time_soft : ℕ → Action (Api S) ℕ
  nk_totp_set_time_soft time = get_without_result (set_time_soft link time)

  pub nk_change_admin_pin : CString → CString → Action (Api S) ℕ
  nk_change_admin_pin current_pin new_pin =
      get_without_result (change_admin_pin link current_pin new_pin)

  pub nk_change_user_pin : CString → CString → Action (Api S) ℕ
  nk_change_user_pin current_pin new_pin =
      get_without_result (change_user_pin link current_pin new_pin)

  pub nk_enable_password_safe : CString → Action (Api S) ℕ
  nk_enable_password_safe user_pin = get_without_result (enable_password_safe link user_pin)

  pub nk_lock_device : Action (Api S) ℕ
  nk_lock_device = get_without_result (lock_device link)

  pub nk_write_password_safe_slot : ℕ → CString → CString → CString → Action (Api S) ℕ
  nk_write_password_safe_slot slot_number slot_name slot_login slot_password =
      get_without_result
        (write_password_safe_slot link slot_number slot_name slot_login slot_password)

  pub nk_erase_password_safe_slot : ℕ → Action (Api S) ℕ
  nk_erase_password_safe_slot slot_number =
      get_without_result (erase_password_safe_slot link slot_number)

  pub nk_enable_firmware_update_pro : CString → Action (Api S) ℕ
  nk_enable_firmware_update_pro update_password =
      get_without_result (enable_firmware_update_pro link update_password)

  pub nk_change_firmware_password_pro : CString → CString → Action (Api S) ℕ
  nk_change_firmware_password_pro current_firmware_password new_firmware_password =
      get_without_result
        (change_firmware_update_password_pro link current_firmware_password new_firmware_password)
