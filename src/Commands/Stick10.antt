-- ===== src/Commands/Stick10.antt =====
-- The commands of stick10_commands.h: a constructor for each class `X`, with the members of
-- `X::CommandPayload`. An array holds what was copied into it; `pack` lays the members out, by
-- Payloads.
pub mod Payloads
use libnitrokey.Prelude.{ℕ, [], ◌++◌}
use libnitrokey.Prelude.Bytes.{Bytes, le_bytes}
use libnitrokey.Commands.Ids.{CommandId}
use libnitrokey.Commands.Layout.{SlotConfig, slot_config, byte, c_array}
use libnitrokey.Commands.Stick10.Payloads.{
  pack_get_slot_name, pack_erase_slot, pack_set_time, pack_write_to_hotp_slot,
  pack_write_to_totp_slot, pack_get_totp, pack_get_hotp, pack_read_slot,
  pack_get_password_safe_slot_name, pack_get_password_safe_slot_password,
  pack_get_password_safe_slot_login, pack_set_password_safe_slot_data,
  pack_set_password_safe_slot_data2, pack_erase_password_safe_slot, pack_enable_password_safe,
  pack_first_authenticate, pack_user_authenticate, pack_authorize, pack_user_authorize,
  pack_unlock_user_password, pack_change_user_pin, pack_is_aes_supported, pack_change_admin_pin,
  pack_factory_reset, pack_build_aes_key, pack_get_random, pack_firmware_update,
  pack_firmware_password_change,
}

pub data Stick10 : Type 0 where
  get_slot_name : (slot_number : ℕ) → Stick10
  erase_slot : (slot_number : ℕ) → Stick10
  set_time : (reset : ℕ) → (time : ℕ) → Stick10
  write_to_hotp_slot :
      (slot_number : ℕ)
      → (slot_name : Bytes) → (slot_secret : Bytes) → (config : SlotConfig)
      → (slot_token_id : Bytes) → (slot_counter : Bytes) → Stick10
  write_to_totp_slot :
      (slot_number : ℕ)
      → (slot_name : Bytes) → (slot_secret : Bytes) → (config : SlotConfig)
      → (slot_token_id : Bytes) → (slot_interval : ℕ) → Stick10
  get_totp :
      (slot_number : ℕ) → (challenge : ℕ) → (last_totp_time : ℕ) → (last_interval : ℕ) → Stick10
  get_hotp : (slot_number : ℕ) → Stick10
  read_slot : (slot_number : ℕ) → (data_format : ℕ) → Stick10
  get_status : Stick10
  get_password_retry_count : Stick10
  get_user_password_retry_count : Stick10
  get_password_safe_slot_status : Stick10
  get_password_safe_slot_name : (slot_number : ℕ) → Stick10
  get_password_safe_slot_password : (slot_number : ℕ) → Stick10
  get_password_safe_slot_login : (slot_number : ℕ) → Stick10
  set_password_safe_slot_data :
      (slot_number : ℕ) → (slot_name : Bytes) → (slot_password : Bytes) → Stick10
  set_password_safe_slot_data2 : (slot_number : ℕ) → (slot_login_name : Bytes) → Stick10
  erase_password_safe_slot : (slot_number : ℕ) → Stick10
  enable_password_safe : (user_password : Bytes) → Stick10
  first_authenticate : (card_password : Bytes) → (temporary_password : Bytes) → Stick10
  user_authenticate : (card_password : Bytes) → (temporary_password : Bytes) → Stick10
  authorize : (crc_to_authorize : ℕ) → (temporary_password : Bytes) → Stick10
  user_authorize : (crc_to_authorize : ℕ) → (temporary_password : Bytes) → Stick10
  unlock_user_password : (admin_password : Bytes) → (user_new_password : Bytes) → Stick10
  change_user_pin : (old_pin : Bytes) → (new_pin : Bytes) → Stick10
  is_aes_supported : (user_password : Bytes) → Stick10
  change_admin_pin : (old_pin : Bytes) → (new_pin : Bytes) → Stick10
  lock_device : Stick10
  factory_reset : (admin_password : Bytes) → Stick10
  build_aes_key : (admin_password : Bytes) → Stick10
  get_random : (size_requested : ℕ) → Stick10
  firmware_update : (firmware_password : Bytes) → Stick10
  firmware_password_change :
      (firmware_password_current : Bytes) → (firmware_password_new : Bytes) → Stick10

unfoldable pub command_of : Stick10 → CommandId
command_of (get_slot_name _) = CommandId.read_slot_name
command_of (erase_slot _) = CommandId.erase_slot
command_of (set_time _ _) = CommandId.set_time
command_of (write_to_hotp_slot _ _ _ _ _ _) = CommandId.write_to_slot
command_of (write_to_totp_slot _ _ _ _ _ _) = CommandId.write_to_slot
command_of (get_totp _ _ _ _) = CommandId.get_code
command_of (get_hotp _) = CommandId.get_code
command_of (read_slot _ _) = CommandId.read_slot
command_of get_status = CommandId.get_status
command_of get_password_retry_count = CommandId.get_password_retry_count
command_of get_user_password_retry_count = CommandId.get_user_password_retry_count
command_of get_password_safe_slot_status = CommandId.get_pw_safe_slot_status
command_of (get_password_safe_slot_name _) = CommandId.get_pw_safe_slot_name
command_of (get_password_safe_slot_password _) = CommandId.get_pw_safe_slot_password
command_of (get_password_safe_slot_login _) = CommandId.get_pw_safe_slot_loginname
command_of (set_password_safe_slot_data _ _ _) = CommandId.set_pw_safe_slot_data_1
command_of (set_password_safe_slot_data2 _ _) = CommandId.set_pw_safe_slot_data_2
command_of (erase_password_safe_slot _) = CommandId.pw_safe_erase_slot
command_of (enable_password_safe _) = CommandId.pw_safe_enable
command_of (first_authenticate _ _) = CommandId.first_authenticate
command_of (user_authenticate _ _) = CommandId.user_authenticate
command_of (authorize _ _) = CommandId.authorize
command_of (user_authorize _ _) = CommandId.user_authorize
command_of (unlock_user_password _ _) = CommandId.unlock_user_password
command_of (change_user_pin _ _) = CommandId.change_user_pin
command_of (is_aes_supported _) = CommandId.detect_sc_aes
command_of (change_admin_pin _ _) = CommandId.change_admin_pin
command_of lock_device = CommandId.lock_device
command_of (factory_reset _) = CommandId.factory_reset
command_of (build_aes_key _) = CommandId.new_aes_key
command_of (get_random _) = CommandId.get_random
command_of (firmware_update _) = CommandId.firmware_update
command_of (firmware_password_change _ _) = CommandId.firmware_password_change

-- The packed payload.
unfoldable pub pack : Stick10 → Bytes
pack (get_slot_name slot_number) = pack_get_slot_name slot_number
pack (erase_slot slot_number) = pack_erase_slot slot_number
pack (set_time reset time) = pack_set_time reset time
pack (write_to_hotp_slot slot_number slot_name slot_secret config slot_token_id slot_counter) =
    pack_write_to_hotp_slot slot_number slot_name slot_secret config slot_token_id slot_counter
pack (write_to_totp_slot slot_number slot_name slot_secret config slot_token_id slot_interval) =
    pack_write_to_totp_slot slot_number slot_name slot_secret config slot_token_id slot_interval
pack (get_totp slot_number challenge last_totp_time last_interval) =
    pack_get_totp slot_number challenge last_totp_time last_interval
pack (get_hotp slot_number) = pack_get_hotp slot_number
pack (read_slot slot_number data_format) = pack_read_slot slot_number data_format
pack get_status = []
pack get_password_retry_count = []
pack get_user_password_retry_count = []
pack get_password_safe_slot_status = []
pack (get_password_safe_slot_name slot_number) = pack_get_password_safe_slot_name slot_number
pack (get_password_safe_slot_password slot_number) =
    pack_get_password_safe_slot_password slot_number
pack (get_password_safe_slot_login slot_number) = pack_get_password_safe_slot_login slot_number
pack (set_password_safe_slot_data slot_number slot_name slot_password) =
    pack_set_password_safe_slot_data slot_number slot_name slot_password
pack (set_password_safe_slot_data2 slot_number slot_login_name) =
    pack_set_password_safe_slot_data2 slot_number slot_login_name
pack (erase_password_safe_slot slot_number) = pack_erase_password_safe_slot slot_number
pack (enable_password_safe user_password) = pack_enable_password_safe user_password
pack (first_authenticate card_password temporary_password) =
    pack_first_authenticate card_password temporary_password
pack (user_authenticate card_password temporary_password) =
    pack_user_authenticate card_password temporary_password
pack (authorize crc_to_authorize temporary_password) =
    pack_authorize crc_to_authorize temporary_password
pack (user_authorize crc_to_authorize temporary_password) =
    pack_user_authorize crc_to_authorize temporary_password
pack (unlock_user_password admin_password user_new_password) =
    pack_unlock_user_password admin_password user_new_password
pack (change_user_pin old_pin new_pin) = pack_change_user_pin old_pin new_pin
pack (is_aes_supported user_password) = pack_is_aes_supported user_password
pack (change_admin_pin old_pin new_pin) = pack_change_admin_pin old_pin new_pin
pack lock_device = []
pack (factory_reset admin_password) = pack_factory_reset admin_password
pack (build_aes_key admin_password) = pack_build_aes_key admin_password
pack (get_random size_requested) = pack_get_random size_requested
pack (firmware_update firmware_password) = pack_firmware_update firmware_password
pack (firmware_password_change firmware_password_current firmware_password_new) =
    pack_firmware_password_change firmware_password_current firmware_password_new
