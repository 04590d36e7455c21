-- ===== src/Commands/Stick10/Payloads.antt =====
-- The members of each `CommandPayload` of stick10_commands.h as the packed bytes.
use libnitrokey.Prelude.{ℕ, ◌++◌}
use libnitrokey.Prelude.Bytes.{Bytes, le_bytes}
use libnitrokey.Commands.Layout.{SlotConfig, slot_config, byte, c_array}

abbrev pub pack_get_slot_name : ℕ → Bytes
pack_get_slot_name slot_number = byte slot_number

abbrev pub pack_erase_slot : ℕ → Bytes
pack_erase_slot slot_number = byte slot_number

abbrev pub pack_set_time : ℕ → ℕ → Bytes
pack_set_time reset time = byte reset ++ le_bytes 8 time

abbrev pub pack_write_to_hotp_slot : ℕ → Bytes → Bytes → SlotConfig → Bytes → Bytes → Bytes
pack_write_to_hotp_slot slot_number slot_name slot_secret config slot_token_id slot_counter =
    byte slot_number
    ++ (c_array 15 slot_name
        ++ (c_array 20 slot_secret
            ++ (slot_config config ++ (c_array 13 slot_token_id ++ c_array 8 slot_counter))))

abbrev pub pack_write_to_totp_slot : ℕ → Bytes → Bytes → SlotConfig → Bytes → ℕ → Bytes
pack_write_to_totp_slot slot_number slot_name slot_secret config slot_token_id slot_interval =
    byte slot_number
    ++ (c_array 15 slot_name
        ++ (c_array 20 slot_secret
            ++ (slot_config config ++ (c_array 13 slot_token_id ++ le_bytes 2 slot_interval))))

abbrev pub pack_get_totp : ℕ → ℕ → ℕ → ℕ → Bytes
pack_get_totp slot_number challenge last_totp_time last_interval =
    byte slot_number ++ (le_bytes 8 challenge ++ (le_bytes 8 last_totp_time ++ byte last_interval))

abbrev pub pack_get_hotp : ℕ → Bytes
pack_get_hotp slot_number = byte slot_number

abbrev pub pack_read_slot : ℕ → ℕ → Bytes
pack_read_slot slot_number data_format = byte slot_number ++ le_bytes 4 data_format

abbrev pub pack_get_password_safe_slot_name : ℕ → Bytes
pack_get_password_safe_slot_name slot_number = byte slot_number

abbrev pub pack_get_password_safe_slot_password : ℕ → Bytes
pack_get_password_safe_slot_password slot_number = byte slot_number

abbrev pub pack_get_password_safe_slot_login : ℕ → Bytes
pack_get_password_safe_slot_login slot_number = byte slot_number

abbrev pub pack_set_password_safe_slot_data : ℕ → Bytes → Bytes → Bytes
pack_set_password_safe_slot_data slot_number slot_name slot_password =
    byte slot_number ++ (c_array 11 slot_name ++ c_array 20 slot_password)

abbrev pub pack_set_password_safe_slot_data2 : ℕ → Bytes → Bytes
pack_set_password_safe_slot_data2 slot_number slot_login_name =
    byte slot_number ++ c_array 32 slot_login_name

abbrev pub pack_erase_password_safe_slot : ℕ → Bytes
pack_erase_password_safe_slot slot_number = byte slot_number

abbrev pub pack_enable_password_safe : Bytes → Bytes
pack_enable_password_safe user_password = c_array 30 user_password

abbrev pub pack_first_authenticate : Bytes → Bytes → Bytes
pack_first_authenticate card_password temporary_password =
    c_array 25 card_password ++ c_array 25 temporary_password

abbrev pub pack_user_authenticate : Bytes → Bytes → Bytes
pack_user_authenticate card_password temporary_password =
    c_array 25 card_password ++ c_array 25 temporary_password

abbrev pub pack_authorize : ℕ → Bytes → Bytes
pack_authorize crc_to_authorize temporary_password =
    le_bytes 4 crc_to_authorize ++ c_array 25 temporary_password

abbrev pub pack_user_authorize : ℕ → Bytes → Bytes
pack_user_authorize crc_to_authorize temporary_password =
    le_bytes 4 crc_to_authorize ++ c_array 25 temporary_password

abbrev pub pack_unlock_user_password : Bytes → Bytes → Bytes
pack_unlock_user_password admin_password user_new_password =
    c_array 25 admin_password ++ c_array 25 user_new_password

abbrev pub pack_change_user_pin : Bytes → Bytes → Bytes
pack_change_user_pin old_pin new_pin = c_array 25 old_pin ++ c_array 25 new_pin

abbrev pub pack_is_aes_supported : Bytes → Bytes
pack_is_aes_supported user_password = c_array 20 user_password

abbrev pub pack_change_admin_pin : Bytes → Bytes → Bytes
pack_change_admin_pin old_pin new_pin = c_array 25 old_pin ++ c_array 25 new_pin

abbrev pub pack_factory_reset : Bytes → Bytes
pack_factory_reset admin_password = c_array 20 admin_password

abbrev pub pack_build_aes_key : Bytes → Bytes
pack_build_aes_key admin_password = c_array 20 admin_password

abbrev pub pack_get_random : ℕ → Bytes
pack_get_random size_requested = byte size_requested

abbrev pub pack_firmware_update : Bytes → Bytes
pack_firmware_update firmware_password = c_array 20 firmware_password

abbrev pub pack_firmware_password_change : Bytes → Bytes → Bytes
pack_firmware_password_change firmware_password_current firmware_password_new =
    c_array 20 firmware_password_current ++ c_array 20 firmware_password_new
