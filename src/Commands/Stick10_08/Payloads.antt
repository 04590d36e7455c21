-- ===== src/Commands/Stick10_08/Payloads.antt =====
-- The members of each `CommandPayload` of stick10_commands_0.8.h as the packed bytes.
use libnitrokey.Prelude.{ℕ, [], ◌++◌}
use libnitrokey.Prelude.Bytes.{Bytes, le_bytes}
use libnitrokey.Commands.Layout.{SlotConfig, slot_config, byte, c_array}

abbrev pub pack_erase_slot_08 : ℕ → Bytes → Bytes
pack_erase_slot_08 slot_number temporary_admin_password =
    byte slot_number ++ c_array 25 temporary_admin_password

abbrev pub pack_send_otp_data : Bytes → ℕ → ℕ → Bytes → Bytes
pack_send_otp_data temporary_admin_password type id content =
    c_array 25 temporary_admin_password ++ (byte type ++ (byte id ++ c_array 30 content))

abbrev pub pack_write_to_otp_slot : Bytes → ℕ → ℕ → SlotConfig → Bytes → Bytes
pack_write_to_otp_slot temporary_admin_password slot_number slot_counter_or_interval config
      slot_token_id =
    c_array 25 temporary_admin_password
    ++ (byte slot_number
        ++ (le_bytes 8 slot_counter_or_interval
            ++ (slot_config config ++ c_array 13 slot_token_id)))

abbrev pub pack_get_hotp_08 : ℕ → Bytes → Bytes
pack_get_hotp_08 slot_number temporary_user_password =
    byte slot_number ++ (c_array 17 [] ++ c_array 25 temporary_user_password)

abbrev pub pack_get_totp_08 : ℕ → ℕ → ℕ → ℕ → Bytes → Bytes
pack_get_totp_08 slot_number challenge last_totp_time last_interval temporary_user_password =
    byte slot_number
    ++ (le_bytes 8 challenge
        ++ (le_bytes 8 last_totp_time
            ++ (byte last_interval ++ c_array 25 temporary_user_password)))

abbrev pub pack_write_general_config : ℕ → ℕ → ℕ → ℕ → ℕ → Bytes → Bytes
pack_write_general_config numlock capslock scrolllock enable_user_password delete_user_password
      temporary_admin_password =
    byte numlock
    ++ (byte capslock
        ++ (byte scrolllock
            ++ (byte enable_user_password
                ++ (byte delete_user_password ++ c_array 25 temporary_admin_password))))
