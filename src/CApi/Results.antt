-- ===== src/CApi/Results.antt =====
-- The functions of NK_C_API.cc that return a number or a string. Clearing a string that is dropped
-- is left out; a Boolean stands for the numbers 1 and 0.
use libnitrokey.Prelude.{ℕ, Bool, false, some, []}
use libnitrokey.Prelude.Bytes.{Bytes}
use libnitrokey.Exceptions.{Action, ◌>>=◌, pure}
use libnitrokey.Misc.Fields.{CString, strndup}
use libnitrokey.Manager.Interface.{Link}
use libnitrokey.Manager.Status.{
  get_serial_number_as_u32, get_major_firmware_version, get_minor_firmware_version,
  set_unencrypted_volume_rorw_pin_type_user,
}
use libnitrokey.Manager.Pins.{get_user_retry_count, get_admin_retry_count, is_aes_supported}
use libnitrokey.Manager.Slots.{get_totp_slot_name, get_hotp_slot_name, get_hotp_code, get_totp_code}
use libnitrokey.Manager.PasswordSafe.{
  get_password_safe_slot_name, get_password_safe_slot_login, get_password_safe_slot_password,
}
use libnitrokey.CApi.Status.{Api, get_with_result, get_with_string_result}

module _ {S : Type 0} (link : Link S) where
  pub nk_device_serial_number_as_u32 : Action (Api S) ℕ
  nk_device_serial_number_as_u32 = get_with_result (get_serial_number_as_u32 link) 0

  pub nk_get_user_retry_count : Action (Api S) ℕ
  nk_get_user_retry_count = get_with_result (get_user_retry_count link) 0

  pub nk_get_admin_retry_count : Action (Api S) ℕ
  nk_get_admin_retry_count = get_with_result (get_admin_retry_count link) 0

  pub nk_is_aes_supported : CString → Action (Api S) Bool
  nk_is_aes_supported user_password = get_with_result (is_aes_supported link user_password) false

  pub nk_get_major_firmware_version : Action (Api S) ℕ
  nk_get_major_firmware_version = get_with_result (get_major_firmware_version link) 0

  pub nk_get_minor_firmware_version : Action (Api S) ℕ
  nk_get_minor_firmware_version = get_with_result (get_minor_firmware_version link) 0

  pub nk_set_unencrypted_volume_rorw_pin_type_user : Action (Api S) Bool
  nk_set_unencrypted_volume_rorw_pin_type_user =
      get_with_result (set_unencrypted_volume_rorw_pin_type_user link) false

  -- The text is copied with the limit of NK_C_API.cc.
  abbrev copied : Action S Bytes → Action S Bytes
  copied text = do s ← text; pure (strndup 100 s)

  pub nk_get_totp_slot_name : ℕ → Action (Api S) Bytes
  nk_get_totp_slot_name slot_number = get_with_string_result (get_totp_slot_name link slot_number)

  pub nk_get_hotp_slot_name : ℕ → Action (Api S) Bytes
  nk_get_hotp_slot_name slot_number = get_with_string_result (get_hotp_slot_name link slot_number)

  pub nk_get_password_safe_slot_name : ℕ → Action (Api S) Bytes
  nk_get_password_safe_slot_name slot_number =
      get_with_string_result (get_password_safe_slot_name link slot_number)

  pub nk_get_password_safe_slot_login : ℕ → Action (Api S) Bytes
  nk_get_password_safe_slot_login slot_number =
      get_with_string_result (get_password_safe_slot_login link slot_number)

  pub nk_get_password_safe_slot_password : ℕ → Action (Api S) Bytes
  nk_get_password_safe_slot_password slot_number =
      get_with_string_result (get_password_safe_slot_password link slot_number)

  pub nk_get_hotp_code_pin : ℕ → CString → Action (Api S) Bytes
  nk_get_hotp_code_pin slot_number user_temporary_password =
      get_with_string_result (copied (get_hotp_code link slot_number user_temporary_password))

  pub nk_get_totp_code_pin : ℕ → ℕ → ℕ → ℕ → CString → Action (Api S) Bytes
  nk_get_totp_code_pin slot_number challenge last_totp_time last_interval user_temporary_password =
      get_with_string_result (
        copied (
          get_totp_code link slot_number challenge last_totp_time last_interval
            user_temporary_password))

  pub nk_get_hotp_code : ℕ → Action (Api S) Bytes
  nk_get_hotp_code slot_number = nk_get_hotp_code_pin slot_number (some [])

  pub nk_get_totp_code : ℕ → ℕ → ℕ → ℕ → Action (Api S) Bytes
  nk_get_totp_code slot_number challenge last_totp_time last_interval =
      nk_get_totp_code_pin slot_number challenge last_totp_time last_interval (some [])
