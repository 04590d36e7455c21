-- ===== src/Commands/Stick20/Payloads.antt =====
-- The members of each `CommandPayload` of stick20_commands.h and command.h as the packed bytes.
use libnitrokey.Prelude.{ℕ, ◌++◌}
use libnitrokey.Prelude.Bytes.{Bytes, le_bytes}
use libnitrokey.Commands.Layout.{byte, c_array}

abbrev pub pack_password_command : ℕ → Bytes → Bytes
pack_password_command kind password = byte kind ++ c_array 20 password

abbrev pub pack_create_new_keys : ℕ → Bytes → Bytes
pack_create_new_keys kind password = byte kind ++ c_array 30 password

abbrev pub pack_change_update_password : Bytes → Bytes → Bytes
pack_change_update_password current_update_password new_update_password =
    byte 0 ++ (c_array 20 current_update_password ++ (byte 0 ++ c_array 20 new_update_password))

abbrev pub pack_fill_sd_card_with_random_chars : ℕ → ℕ → Bytes → Bytes
pack_fill_sd_card_with_random_chars volume_flag kind admin_pin =
    byte volume_flag ++ (byte kind ++ c_array 20 admin_pin)

abbrev pub pack_send_startup : ℕ → Bytes
pack_send_startup localtime = le_bytes 8 localtime

abbrev pub pack_setup_hidden_volume : ℕ → ℕ → ℕ → Bytes → Bytes
pack_setup_hidden_volume slot_nr start_block_percent end_block_percent hidden_volume_password =
    byte slot_nr
    ++ (byte start_block_percent ++ (byte end_block_percent ++ c_array 20 hidden_volume_password))
