-- ===== src/Commands/Dissect/Stick10_08.antt =====
-- The `dissect` methods of the payloads of stick10_commands_0.8.h that are sent, each up to its `str()`.
use libnitrokey.Prelude.{ℕ, List, [], ◌∷◌, ◌++◌, true, false}
use libnitrokey.Prelude.Bytes.{Bytes, le_bytes}
use libnitrokey.Misc.Hexdump.{hexdump}
use libnitrokey.Misc.Stream.{Item, text, bytes, char, number, int, endl}
use libnitrokey.Commands.Layout.{SlotConfig, config_byte, c_array}
use libnitrokey.Commands.Stick10_08.{Stick10_08}
use libnitrokey.Commands.Dissect.{line, truth, hexdump_to_ss, slot_config_lines, slot_token_id_line}

unfoldable pub dissect_erase_slot_08 : ℕ → Bytes → List Item
dissect_erase_slot_08 slot_number temporary_admin_password =
    line "slot_number:\t" (number slot_number)
    ++ hexdump_to_ss "temporary_admin_password" (c_array 25 temporary_admin_password)

unfoldable pub dissect_send_otp_data : Bytes → ℕ → ℕ → List Item
dissect_send_otp_data temporary_admin_password type id =
    hexdump_to_ss "temporary_admin_password" (c_array 25 temporary_admin_password)
    ++ (line "type:\t" (char type)
        ++ (line "id:\t" (number id) ++ (text " Volatile data not logged" ∷ endl ∷ [])))

unfoldable pub dissect_write_to_otp_slot : Bytes → ℕ → ℕ → SlotConfig → Bytes → List Item
dissect_write_to_otp_slot temporary_admin_password slot_number slot_counter_or_interval config
      slot_token_id =
    hexdump_to_ss "temporary_admin_password" (c_array 25 temporary_admin_password)
    ++ (slot_config_lines (config_byte config)
        ++ (line "slot_number:\t" (number slot_number)
            ++ (text "slot_counter_or_interval:\t["
                ∷ int slot_counter_or_interval
                ∷ text "]\t"
                ∷ bytes (hexdump (le_bytes 8 slot_counter_or_interval) false true true)
                ∷ (slot_token_id_line (c_array 13 slot_token_id)))))

unfoldable pub dissect_get_hotp_08 : ℕ → Bytes → List Item
dissect_get_hotp_08 slot_number temporary_user_password =
    hexdump_to_ss "temporary_user_password" (c_array 25 temporary_user_password)
    ++ line "slot_number:\t" (number slot_number)

unfoldable pub dissect_get_totp_08 : ℕ → ℕ → ℕ → ℕ → Bytes → List Item
dissect_get_totp_08 slot_number challenge last_totp_time last_interval temporary_user_password =
    hexdump_to_ss "temporary_user_password" (c_array 25 temporary_user_password)
    ++ (line "slot_number:\t" (number slot_number)
        ++ (line "challenge:\t" (number challenge)
            ++ (line "last_totp_time:\t" (number last_totp_time)
                ++ line "last_interval:\t" (number last_interval))))

unfoldable pub dissect_write_general_config : ℕ → ℕ → ℕ → ℕ → ℕ → List Item
dissect_write_general_config numlock capslock scrolllock enable_user_password delete_user_password =
    line "numlock:\t" (number numlock)
    ++ (line "capslock:\t" (number capslock)
        ++ (line "scrolllock:\t" (number scrolllock)
            ++ (line "enable_user_password:\t" (truth enable_user_password)
                ++ line "delete_user_password:\t" (truth delete_user_password))))

unfoldable pub items : Stick10_08 → List Item
items (Stick10_08.erase_slot_08 slot_number temporary_admin_password) =
    dissect_erase_slot_08 slot_number temporary_admin_password
items (Stick10_08.send_otp_data temporary_admin_password type id _) =
    dissect_send_otp_data temporary_admin_password type id
items
      (Stick10_08.write_to_otp_slot temporary_admin_password slot_number slot_counter_or_interval
        config slot_token_id) =
    dissect_write_to_otp_slot temporary_admin_password slot_number slot_counter_or_interval config
      slot_token_id
items (Stick10_08.get_hotp_08 slot_number temporary_user_password) =
    dissect_get_hotp_08 slot_number temporary_user_password
items
      (Stick10_08.get_totp_08 slot_number challenge last_totp_time last_interval
        temporary_user_password) =
    dissect_get_totp_08 slot_number challenge last_totp_time last_interval temporary_user_password
items
      (Stick10_08.write_general_config numlock capslock scrolllock enable_user_password
        delete_user_password _) =
    dissect_write_general_config numlock capslock scrolllock enable_user_password
      delete_user_password
