-- ===== src/Manager/Slots.antt =====
-- The OTP slots: their numbers, their codes, their names and erasing them.
pub mod Laws
pub mod Ranges
use libnitrokey.Prelude.{
  ℕ, ◌+◌, ◌%◌, ◌/◌, ◌≡◌, Bool, true, false, not, ◌&&◌, leb, ltb, ◌==◌, if◌then◌else◌, [],
}
use libnitrokey.Prelude.Bytes.{Bytes, le_value}
use libnitrokey.Exceptions.{Action, pure, throw, throw_if, when, ◌>>=◌, ◌>>◌, invalid_slot}
use libnitrokey.Device.Model.{DeviceModel, storage}
use libnitrokey.Proto.Transaction.{is_storage}
use libnitrokey.Misc.Fields.{CString, strndup}
use libnitrokey.Misc.Decimal.{filled_otp_code}
use libnitrokey.Commands.Command.{Command, stick10, stick10_08}
use libnitrokey.Commands.Stick10.{Stick10}
use libnitrokey.Commands.Stick10_08.{Stick10_08}
use libnitrokey.Manager.Interface.{
  Link, field, execute, connected_model, is_given, payload_byte, payload_u32,
}
use libnitrokey.Manager.Status.{is_authorization_command_supported, get_minor_firmware_version}
use libnitrokey.Manager.Authorization.{admin, user, authorize_packet}

unfoldable pub is_internal_hotp_slot_number : ℕ → Bool
is_internal_hotp_slot_number slot_number = ltb slot_number 0x20

unfoldable pub is_valid_hotp_slot_number : ℕ → Bool
is_valid_hotp_slot_number slot_number = ltb slot_number 3

unfoldable pub is_valid_totp_slot_number : ℕ → Bool
is_valid_totp_slot_number slot_number = ltb slot_number 15

pub get_internal_slot_number_for_totp : ℕ → ℕ
get_internal_slot_number_for_totp slot_number = (0x20 + slot_number) % 256

unfoldable pub get_internal_slot_number_for_hotp : ℕ → ℕ
get_internal_slot_number_for_hotp slot_number = (0x10 + slot_number) % 256

abbrev pub max_string_field_length : ℕ
max_string_field_length = 2048

-- `code` and `use_8_digits` of the response to `GetHOTP` and `GetTOTP`.
pub otp_code_in : Bytes → Bytes
otp_code_in payload = filled_otp_code (payload_u32 0 payload) (payload_byte 4 payload % 2 == 1)

-- `strcpyT` under the test that a password was given.
abbrev given_field : {S : Type 0} → CString → Action S Bytes
given_field password = if is_given password then field 25 password else pure []

module _ {S : Type 0} (link : Link S) where
  pub get_hotp_code : ℕ → CString → Action S Bytes
  get_hotp_code slot_number user_temporary_password = do
    throw_if (not (is_valid_hotp_slot_number slot_number)) (invalid_slot slot_number)
    supported ← is_authorization_command_supported link
    if supported
        then (do
          when (is_given user_temporary_password) (
              authorize_packet link user
                (stick10 (Stick10.get_hotp (get_internal_slot_number_for_hotp slot_number)))
                user_temporary_password)
          payload ←
              link.transact
                (stick10 (Stick10.get_hotp (get_internal_slot_number_for_hotp slot_number)))
          pure (otp_code_in payload))
        else (do
          password ← given_field user_temporary_password
          payload ← link.transact (
              stick10_08
                (Stick10_08.get_hotp_08 (get_internal_slot_number_for_hotp slot_number) password))
          pure (otp_code_in payload))

  -- The newer command leaves the challenge and the times at zero.
  pub get_totp_code : ℕ → ℕ → ℕ → ℕ → CString → Action S Bytes
  get_totp_code slot_number challenge last_totp_time last_interval user_temporary_password = do
    throw_if (not (is_valid_totp_slot_number slot_number)) (invalid_slot slot_number)
    supported ← is_authorization_command_supported link
    if supported
        then (do
          when (is_given user_temporary_password) (
              authorize_packet link user
                (stick10 (
                  Stick10.get_totp (get_internal_slot_number_for_totp slot_number) challenge
                    last_totp_time last_interval))
                user_temporary_password)
          payload ← link.transact (
              stick10 (
                Stick10.get_totp (get_internal_slot_number_for_totp slot_number) challenge
                  last_totp_time last_interval))
          pure (otp_code_in payload))
        else (do
          password ← field 25 user_temporary_password
          payload ← link.transact (
              stick10_08 (
                Stick10_08.get_totp_08 (get_internal_slot_number_for_totp slot_number) 0 0 0
                  password))
          pure (otp_code_in payload))

  -- The code for the present time.
  pub get_totp_code_now : ℕ → CString → Action S Bytes
  get_totp_code_now slot_number user_temporary_password =
      get_totp_code slot_number 0 0 0 user_temporary_password

  pub erase_slot : ℕ → CString → Action S Bool
  erase_slot slot_number temporary_password = do
    supported ← is_authorization_command_supported link
    if supported
        then (do
          authorize_packet link admin (stick10 (Stick10.erase_slot slot_number)) temporary_password
          execute link (stick10 (Stick10.erase_slot slot_number))
          pure true)
        else (do
          password ← field 25 temporary_password
          execute link (stick10_08 (Stick10_08.erase_slot_08 slot_number password))
          pure true)

  pub erase_hotp_slot : ℕ → CString → Action S Bool
  erase_hotp_slot slot_number temporary_password = do
    throw_if (not (is_valid_hotp_slot_number slot_number)) (invalid_slot slot_number)
    erase_slot (get_internal_slot_number_for_hotp slot_number) temporary_password

  pub erase_totp_slot : ℕ → CString → Action S Bool
  erase_totp_slot slot_number temporary_password = do
    throw_if (not (is_valid_totp_slot_number slot_number)) (invalid_slot slot_number)
    erase_slot (get_internal_slot_number_for_totp slot_number) temporary_password

  -- The name is not terminated where it fills its 15 bytes: `strndup` then reads on in the payload.
  pub get_slot_name : ℕ → Action S Bytes
  get_slot_name slot_number = do
    payload ← link.transact (stick10 (Stick10.get_slot_name slot_number))
    pure (strndup max_string_field_length payload)

  pub get_totp_slot_name : ℕ → Action S Bytes
  get_totp_slot_name slot_number = do
    throw_if (not (is_valid_totp_slot_number slot_number)) (invalid_slot slot_number)
    get_slot_name (get_internal_slot_number_for_totp slot_number)

  pub get_hotp_slot_name : ℕ → Action S Bytes
  get_hotp_slot_name slot_number = do
    throw_if (not (is_valid_hotp_slot_number slot_number)) (invalid_slot slot_number)
    get_slot_name (get_internal_slot_number_for_hotp slot_number)
