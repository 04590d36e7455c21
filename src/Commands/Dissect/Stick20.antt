-- ===== src/Commands/Dissect/Stick20.antt =====
-- The `dissect` methods of the payloads of stick20_commands.h and command.h that are sent, each up to
-- its `str()`.
use libnitrokey.Prelude.{ℕ, List, ◌++◌}
use libnitrokey.Prelude.Bytes.{Bytes}
use libnitrokey.Misc.Stream.{Item, char, number}
use libnitrokey.Commands.Stick20.{Stick20}
use libnitrokey.Commands.Dissect.{empty_payload, print_to_ss, print_to_ss_volatile}

unfoldable pub dissect_password_command : ℕ → Bytes → List Item
dissect_password_command kind password =
    print_to_ss "kind" (char kind) ++ print_to_ss_volatile "password" password

unfoldable pub dissect_change_update_password : Bytes → Bytes → List Item
dissect_change_update_password current_update_password new_update_password =
    print_to_ss_volatile "current_update_password" current_update_password
    ++ print_to_ss_volatile "new_update_password" new_update_password

unfoldable pub dissect_fill_sd_card_with_random_chars : ℕ → ℕ → Bytes → List Item
dissect_fill_sd_card_with_random_chars volume_flag kind admin_pin =
    print_to_ss "static_cast<int>(volume_flag)" (number volume_flag)
    ++ (print_to_ss "kind" (char kind) ++ print_to_ss_volatile "admin_pin" admin_pin)

unfoldable pub dissect_send_startup : ℕ → List Item
dissect_send_startup localtime = print_to_ss "localtime" (number localtime)

unfoldable pub dissect_setup_hidden_volume : ℕ → ℕ → ℕ → Bytes → List Item
dissect_setup_hidden_volume slot_nr start_block_percent end_block_percent hidden_volume_password =
    print_to_ss "static_cast<int>(SlotNr_u8)" (number slot_nr)
    ++ (print_to_ss "static_cast<int>(StartBlockPercent_u8)" (number start_block_percent)
        ++ (print_to_ss "static_cast<int>(EndBlockPercent_u8)" (number end_block_percent)
            ++ print_to_ss_volatile "HiddenVolumePassword_au8" hidden_volume_password))

unfoldable pub items : Stick20 → List Item
items (Stick20.change_admin_user_pin20_current kind password) =
    dissect_password_command kind password
items (Stick20.change_admin_user_pin20_new kind password) = dissect_password_command kind password
items (Stick20.unlock_user_pin kind password) = dissect_password_command kind password
items (Stick20.enable_encrypted_partition kind password) = dissect_password_command kind password
items (Stick20.enable_hidden_encrypted_partition kind password) =
    dissect_password_command kind password
items (Stick20.set_unencrypted_volume_read_only_admin kind password) =
    dissect_password_command kind password
items (Stick20.set_unencrypted_volume_read_write_admin kind password) =
    dissect_password_command kind password
items (Stick20.set_encrypted_volume_read_only kind password) =
    dissect_password_command kind password
items (Stick20.set_encrypted_volume_read_write kind password) =
    dissect_password_command kind password
items (Stick20.disable_encrypted_partition kind password) = dissect_password_command kind password
items (Stick20.disable_hidden_encrypted_partition kind password) =
    dissect_password_command kind password
items (Stick20.enable_firmware_update kind password) = dissect_password_command kind password
items (Stick20.export_firmware kind password) = dissect_password_command kind password
items (Stick20.send_set_readonly_to_uncrypted_volume kind password) =
    dissect_password_command kind password
items (Stick20.send_set_readwrite_to_uncrypted_volume kind password) =
    dissect_password_command kind password
items (Stick20.send_clear_new_sd_card_found kind password) = dissect_password_command kind password
items (Stick20.create_new_keys kind password) = dissect_password_command kind password
items (Stick20.change_update_password current_update_password new_update_password) =
    dissect_change_update_password current_update_password new_update_password
items (Stick20.fill_sd_card_with_random_chars volume_flag kind admin_pin) =
    dissect_fill_sd_card_with_random_chars volume_flag kind admin_pin
items (Stick20.send_startup localtime) = dissect_send_startup localtime
items Stick20.get_device_status = empty_payload
items Stick20.wink = empty_payload
items Stick20.check_smartcard_usage = empty_payload
items Stick20.get_sd_card_occupancy = empty_payload
items
      (Stick20.setup_hidden_volume slot_nr start_block_percent end_block_percent
        hidden_volume_password) =
    dissect_setup_hidden_volume slot_nr start_block_percent end_block_percent hidden_volume_password
items Stick20.production_test = empty_payload
