-- ===== src/Commands/Dissect/Stick10.antt =====
-- The `dissect` methods of the payloads of stick10_commands.h that are sent, each up to its `str()`.
use libnitrokey.Prelude.{ℕ, List, [], ◌∷◌, ◌++◌, true, false}
use libnitrokey.Prelude.Bytes.{Bytes, le_value}
use libnitrokey.Misc.Hexdump.{hexdump}
use libnitrokey.Misc.Stream.{Item, text, bytes, number, int, hex, setw, setfill, endl}
use libnitrokey.Commands.Layout.{SlotConfig, config_byte, c_array}
use libnitrokey.Commands.Stick10.{Stick10}
use libnitrokey.Commands.Dissect.{
  empty_payload, line, print_to_ss, print_to_ss_volatile, hexdump_to_ss, bitset8, slot_config_lines,
  slot_token_id_line,
}

unfoldable pub dissect_get_slot_name : ℕ → List Item
dissect_get_slot_name slot_number = line "slot_number:\t" (number slot_number)

unfoldable pub dissect_erase_slot : ℕ → List Item
dissect_erase_slot slot_number = line "slot_number:\t" (number slot_number)

unfoldable pub dissect_set_time : ℕ → ℕ → List Item
dissect_set_time reset time = line "reset:\t" (number reset) ++ line "time:\t" (number time)

unfoldable pub dissect_write_to_hotp_slot :
    ℕ → Bytes → Bytes → SlotConfig → Bytes → Bytes → List Item
dissect_write_to_hotp_slot slot_number slot_name slot_secret config slot_token_id slot_counter =
    line "slot_number:\t" (number slot_number)
    ++ (print_to_ss_volatile "slot_name" slot_name
        ++ (print_to_ss_volatile "slot_secret" slot_secret
            ++ (slot_config_lines (config_byte config)
                ++ (slot_token_id_line (c_array 13 slot_token_id)
                    ++ (text "slot_counter:\t["
                        ∷ int (le_value (c_array 8 slot_counter))
                        ∷ text "]\t"
                        ∷ bytes (hexdump (c_array 8 slot_counter) false true true)
                        ∷ [])))))

unfoldable pub dissect_write_to_totp_slot : ℕ → Bytes → Bytes → SlotConfig → Bytes → ℕ → List Item
dissect_write_to_totp_slot slot_number slot_name slot_secret config slot_token_id slot_interval =
    line "slot_number:\t" (number slot_number)
    ++ (print_to_ss_volatile "slot_name" slot_name
        ++ (print_to_ss_volatile "slot_secret" slot_secret
            ++ (line "slot_config:\t" (bytes (bitset8 (config_byte config)))
                ++ (slot_token_id_line (c_array 13 slot_token_id)
                    ++ line "slot_interval:\t" (number slot_interval)))))

unfoldable pub dissect_get_totp : ℕ → ℕ → ℕ → ℕ → List Item
dissect_get_totp slot_number challenge last_totp_time last_interval =
    line "slot_number:\t" (number slot_number)
    ++ (line "challenge:\t" (number challenge)
        ++ (line "last_totp_time:\t" (number last_totp_time)
            ++ line "last_interval:\t" (number last_interval)))

unfoldable pub dissect_get_hotp : ℕ → List Item
dissect_get_hotp slot_number = line "slot_number:\t" (number slot_number)

unfoldable pub dissect_read_slot : ℕ → List Item
dissect_read_slot slot_number = line "slot_number:\t" (number slot_number)

unfoldable pub dissect_get_password_safe_slot_name : ℕ → List Item
dissect_get_password_safe_slot_name slot_number = line "slot_number\t" (number slot_number)

unfoldable pub dissect_get_password_safe_slot_password : ℕ → List Item
dissect_get_password_safe_slot_password slot_number = line "   slot_number\t" (number slot_number)

unfoldable pub dissect_get_password_safe_slot_login : ℕ → List Item
dissect_get_password_safe_slot_login slot_number = line "   slot_number\t" (number slot_number)

unfoldable pub dissect_set_password_safe_slot_data : ℕ → Bytes → Bytes → List Item
dissect_set_password_safe_slot_data slot_number slot_name slot_password =
    line " slot_number\t" (number slot_number)
    ++ (print_to_ss_volatile "slot_name" slot_name
        ++ print_to_ss_volatile "slot_password" slot_password)

unfoldable pub dissect_set_password_safe_slot_data2 : ℕ → Bytes → List Item
dissect_set_password_safe_slot_data2 slot_number slot_login_name =
    line " slot_number\t" (number slot_number)
    ++ print_to_ss_volatile "slot_login_name" slot_login_name

unfoldable pub dissect_erase_password_safe_slot : ℕ → List Item
dissect_erase_password_safe_slot slot_number = line " slot_number\t" (number slot_number)

unfoldable pub dissect_enable_password_safe : Bytes → List Item
dissect_enable_password_safe user_password = print_to_ss_volatile "user_password" user_password

unfoldable pub dissect_first_authenticate : Bytes → Bytes → List Item
dissect_first_authenticate card_password temporary_password =
    print_to_ss_volatile "card_password" card_password
    ++ hexdump_to_ss "temporary_password" (c_array 25 temporary_password)

unfoldable pub dissect_user_authenticate : Bytes → Bytes → List Item
dissect_user_authenticate card_password temporary_password =
    print_to_ss_volatile "card_password" card_password
    ++ hexdump_to_ss "temporary_password" (c_array 25 temporary_password)

unfoldable pub dissect_authorize : ℕ → Bytes → List Item
dissect_authorize crc_to_authorize temporary_password =
    text " crc_to_authorize:\t"
    ∷ hex
    ∷ setw 2
    ∷ setfill b'0'
    ∷ number crc_to_authorize
    ∷ endl
    ∷ (hexdump_to_ss "temporary_password" (c_array 25 temporary_password))

unfoldable pub dissect_user_authorize : ℕ → Bytes → List Item
dissect_user_authorize crc_to_authorize temporary_password =
    line " crc_to_authorize:\t" (number crc_to_authorize)
    ++ hexdump_to_ss "temporary_password" (c_array 25 temporary_password)

unfoldable pub dissect_unlock_user_password : Bytes → Bytes → List Item
dissect_unlock_user_password admin_password user_new_password =
    print_to_ss_volatile "admin_password" admin_password
    ++ print_to_ss_volatile "user_new_password" user_new_password

unfoldable pub dissect_change_user_pin : Bytes → Bytes → List Item
dissect_change_user_pin old_pin new_pin =
    print_to_ss_volatile "old_pin" old_pin ++ print_to_ss_volatile "new_pin" new_pin

unfoldable pub dissect_is_aes_supported : Bytes → List Item
dissect_is_aes_supported user_password = print_to_ss_volatile "user_password" user_password

unfoldable pub dissect_change_admin_pin : Bytes → Bytes → List Item
dissect_change_admin_pin old_pin new_pin =
    print_to_ss_volatile "old_pin" old_pin ++ print_to_ss_volatile "new_pin" new_pin

unfoldable pub dissect_factory_reset : Bytes → List Item
dissect_factory_reset admin_password = print_to_ss_volatile "admin_password" admin_password

unfoldable pub dissect_build_aes_key : Bytes → List Item
dissect_build_aes_key admin_password = print_to_ss_volatile "admin_password" admin_password

unfoldable pub dissect_get_random : ℕ → List Item
dissect_get_random size_requested = print_to_ss "size_requested" (number size_requested)

unfoldable pub dissect_firmware_update : Bytes → List Item
dissect_firmware_update firmware_password =
    print_to_ss_volatile "firmware_password" firmware_password

unfoldable pub dissect_firmware_password_change : Bytes → Bytes → List Item
dissect_firmware_password_change firmware_password_current firmware_password_new =
    print_to_ss_volatile "firmware_password_current" firmware_password_current
    ++ print_to_ss_volatile "firmware_password_new" firmware_password_new

unfoldable pub items : Stick10 → List Item
items (Stick10.get_slot_name slot_number) = dissect_get_slot_name slot_number
items (Stick10.erase_slot slot_number) = dissect_erase_slot slot_number
items (Stick10.set_time reset time) = dissect_set_time reset time
items
      (Stick10.write_to_hotp_slot slot_number slot_name slot_secret config slot_token_id
        slot_counter) =
    dissect_write_to_hotp_slot slot_number slot_name slot_secret config slot_token_id slot_counter
items
      (Stick10.write_to_totp_slot slot_number slot_name slot_secret config slot_token_id
        slot_interval) =
    dissect_write_to_totp_slot slot_number slot_name slot_secret config slot_token_id slot_interval
items (Stick10.get_totp slot_number challenge last_totp_time last_interval) =
    dissect_get_totp slot_number challenge last_totp_time last_interval
items (Stick10.get_hotp slot_number) = dissect_get_hotp slot_number
items (Stick10.read_slot slot_number _) = dissect_read_slot slot_number
items Stick10.get_status = empty_payload
items Stick10.get_password_retry_count = empty_payload
items Stick10.get_user_password_retry_count = empty_payload
items Stick10.get_password_safe_slot_status = empty_payload
items (Stick10.get_password_safe_slot_name slot_number) =
    dissect_get_password_safe_slot_name slot_number
items (Stick10.get_password_safe_slot_password slot_number) =
    dissect_get_password_safe_slot_password slot_number
items (Stick10.get_password_safe_slot_login slot_number) =
    dissect_get_password_safe_slot_login slot_number
items (Stick10.set_password_safe_slot_data slot_number slot_name slot_password) =
    dissect_set_password_safe_slot_data slot_number slot_name slot_password
items (Stick10.set_password_safe_slot_data2 slot_number slot_login_name) =
    dissect_set_password_safe_slot_data2 slot_number slot_login_name
items (Stick10.erase_password_safe_slot slot_number) = dissect_erase_password_safe_slot slot_number
items (Stick10.enable_password_safe user_password) = dissect_enable_password_safe user_password
items (Stick10.first_authenticate card_password temporary_password) =
    dissect_first_authenticate card_password temporary_password
items (Stick10.user_authenticate card_password temporary_password) =
    dissect_user_authenticate card_password temporary_password
items (Stick10.authorize crc_to_authorize temporary_password) =
    dissect_authorize crc_to_authorize temporary_password
items (Stick10.user_authorize crc_to_authorize temporary_password) =
    dissect_user_authorize crc_to_authorize temporary_password
items (Stick10.unlock_user_password admin_password user_new_password) =
    dissect_unlock_user_password admin_password user_new_password
items (Stick10.change_user_pin old_pin new_pin) = dissect_change_user_pin old_pin new_pin
items (Stick10.is_aes_supported user_password) = dissect_is_aes_supported user_password
items (Stick10.change_admin_pin old_pin new_pin) = dissect_change_admin_pin old_pin new_pin
items Stick10.lock_device = empty_payload
items (Stick10.factory_reset admin_password) = dissect_factory_reset admin_password
items (Stick10.build_aes_key admin_password) = dissect_build_aes_key admin_password
items (Stick10.get_random size_requested) = dissect_get_random size_requested
items (Stick10.firmware_update firmware_password) = dissect_firmware_update firmware_password
items (Stick10.firmware_password_change firmware_password_current firmware_password_new) =
    dissect_firmware_password_change firmware_password_current firmware_password_new
