-- ===== src/Manager/Writing.antt =====
-- Writing an OTP slot. A secret is a C string of hexadecimal digits.
pub mod Laws
pub mod Parts
use libnitrokey.Prelude.{
  ℕ, zero, suc, ◌+◌, ◌-◌, ◌%◌, min, Bool, not, ltb, ◌==◌, if◌then◌else◌, length, some, none,
}
use libnitrokey.Prelude.Bytes.{Bytes, le_bytes}
use libnitrokey.Exceptions.{
  Action, pure, throw_if, lift, ◌>>=◌, ◌>>◌, invalid_slot, target_buffer_smaller_than_source,
}
use libnitrokey.Device.Model.{DeviceModel, storage}
use libnitrokey.Proto.Transaction.{is_storage}
use libnitrokey.Misc.Fields.{CString, vector_copy, vector_copy_ranged}
use libnitrokey.Misc.Hex.{hex_string_to_byte}
use libnitrokey.Misc.Decimal.{decimal}
use libnitrokey.Commands.Layout.{SlotConfig}
use libnitrokey.Commands.Command.{Command, stick10, stick10_08}
use libnitrokey.Commands.Stick10.{Stick10}
use libnitrokey.Commands.Stick10_08.{Stick10_08}
use libnitrokey.Manager.Interface.{Link, field, execute, connected_model}
use libnitrokey.Manager.Status.{is_authorization_command_supported}
use libnitrokey.Manager.Authorization.{admin, authorize_packet}
use libnitrokey.Manager.Slots.{
  is_valid_hotp_slot_number, is_valid_totp_slot_number, get_internal_slot_number_for_hotp,
  get_internal_slot_number_for_totp,
}

-- The arguments that HOTP and TOTP slots share.
pub record OtpSlot : Type 0 where
  pub slot_name : CString
  pub secret : Bytes
  pub config : SlotConfig
  pub token_id : CString
  pub temporary_password : CString

abbrev pub otp_data_size : ℕ
otp_data_size = 30

abbrev pub maximum_otp_secret_size : ℕ
maximum_otp_secret_size = 40

-- A Storage takes the counter as digits.
abbrev pub counter_field : {S : Type 0} → Bool → ℕ → Action S Bytes
counter_field as_digits hotp_counter =
    if as_digits then field 8 (some (decimal hotp_counter)) else pure (le_bytes 8 hotp_counter)

module _ {S : Type 0} (link : Link S) where
  pub write_hotp_slot_authorize : ℕ → ℕ → OtpSlot → Action S (Unit {0})
  write_hotp_slot_authorize slot_number hotp_counter slot = do
    model ← connected_model link
    secret_bin ← lift (hex_string_to_byte (slot.secret))
    slot_secret ← lift (vector_copy 20 secret_bin)
    slot_name ← field 15 (slot.slot_name)
    slot_token_id ← field 13 (slot.token_id)
    counter ← counter_field (is_storage model) hotp_counter
    authorize_packet link admin
        (stick10 (
          Stick10.write_to_hotp_slot slot_number slot_name slot_secret slot.config slot_token_id
            counter))
        (slot.temporary_password)
    execute link (
        stick10 (
          Stick10.write_to_hotp_slot slot_number slot_name slot_secret slot.config slot_token_id
            counter))

  pub write_totp_slot_authorize : ℕ → ℕ → OtpSlot → Action S (Unit {0})
  write_totp_slot_authorize slot_number time_window slot = do
    secret_bin ← lift (hex_string_to_byte (slot.secret))
    slot_secret ← lift (vector_copy 20 secret_bin)
    slot_name ← field 15 (slot.slot_name)
    slot_token_id ← field 13 (slot.token_id)
    authorize_packet link admin
        (stick10 (
          Stick10.write_to_totp_slot slot_number slot_name slot_secret slot.config slot_token_id
            time_window))
        (slot.temporary_password)
    execute link (
        stick10 (
          Stick10.write_to_totp_slot slot_number slot_name slot_secret slot.config slot_token_id
            time_window))

  -- The loop that sends the secret in reports of 30 bytes. A round takes a byte at least, so the
  -- fuel is the size of the secret.
  pub send_secret : ℕ → Bytes → Bytes → ℕ → ℕ → Action S (Unit {0})
  send_secret zero password secret remaining id = pure tt
  send_secret (suc fuel) password secret remaining id = if remaining == 0 then pure tt else (do
    content ← lift (
        vector_copy_ranged otp_data_size secret (length secret - remaining)
          (min otp_data_size remaining))
    execute link (stick10_08 (Stick10_08.send_otp_data password b'S' id content))
    send_secret fuel password secret (remaining - min otp_data_size remaining) ((id + 1) % 256))

  pub write_otp_slot_no_authorize : ℕ → ℕ → OtpSlot → Action S (Unit {0})
  write_otp_slot_no_authorize internal_slot_number counter_or_interval slot = do
    password ← field 25 (slot.temporary_password)
    name ← field otp_data_size (slot.slot_name)
    execute link (stick10_08 (Stick10_08.send_otp_data password b'N' 0 name))
    secret_bin ← lift (hex_string_to_byte (slot.secret))
    throw_if (ltb maximum_otp_secret_size (length secret_bin))
        (target_buffer_smaller_than_source (length secret_bin) maximum_otp_secret_size)
    send_secret (length secret_bin) password secret_bin (length secret_bin) 0
    slot_token_id ← field 13 (slot.token_id)
    execute link (
        stick10_08 (
          Stick10_08.write_to_otp_slot password internal_slot_number counter_or_interval slot.config
            slot_token_id))

  pub write_hotp_slot : ℕ → ℕ → OtpSlot → Action S Bool
  write_hotp_slot slot_number hotp_counter slot = do
    throw_if (not (is_valid_hotp_slot_number slot_number)) (invalid_slot slot_number)
    supported ← is_authorization_command_supported link
    if supported
        then write_hotp_slot_authorize (get_internal_slot_number_for_hotp slot_number) hotp_counter
            slot
        else write_otp_slot_no_authorize (get_internal_slot_number_for_hotp slot_number)
            hotp_counter slot
    pure Bool.true

  pub write_totp_slot : ℕ → ℕ → OtpSlot → Action S Bool
  write_totp_slot slot_number time_window slot = do
    throw_if (not (is_valid_totp_slot_number slot_number)) (invalid_slot slot_number)
    supported ← is_authorization_command_supported link
    if supported
        then write_totp_slot_authorize (get_internal_slot_number_for_totp slot_number) time_window
            slot
        else write_otp_slot_no_authorize (get_internal_slot_number_for_totp slot_number) time_window
            slot
    pure Bool.true
