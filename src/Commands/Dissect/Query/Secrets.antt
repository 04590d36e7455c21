-- ===== src/Commands/Dissect/Query/Secrets.antt =====
-- What the text of a payload tells of its secrets.
use libnitrokey.Prelude.{◌≡◌, sym, ap, arith, []}
use libnitrokey.Commands.Stick10.{Stick10}
use libnitrokey.Commands.Stick10_08.{Stick10_08}
use libnitrokey.Commands.Stick20.{Stick20}
use libnitrokey.Commands.Command.{Command, stick10, stick10_08, stick20}
use libnitrokey.Commands.Dissect.{print_to_ss_volatile}
use libnitrokey.Misc.Stream.{str}
use libnitrokey.Commands.Dissect.Stick10.{
  items as stick10_items, dissect_get_slot_name, dissect_erase_slot, dissect_set_time,
  dissect_write_to_hotp_slot, dissect_write_to_totp_slot, dissect_get_totp, dissect_get_hotp,
  dissect_read_slot, dissect_get_password_safe_slot_name, dissect_get_password_safe_slot_password,
  dissect_get_password_safe_slot_login, dissect_set_password_safe_slot_data,
  dissect_set_password_safe_slot_data2, dissect_erase_password_safe_slot,
  dissect_enable_password_safe, dissect_first_authenticate, dissect_user_authenticate,
  dissect_authorize, dissect_user_authorize, dissect_unlock_user_password, dissect_change_user_pin,
  dissect_is_aes_supported, dissect_change_admin_pin, dissect_factory_reset, dissect_build_aes_key,
  dissect_get_random, dissect_firmware_update, dissect_firmware_password_change,
}
use libnitrokey.Commands.Dissect.Stick10_08.{items as stick10_08_items, dissect_send_otp_data}
use libnitrokey.Commands.Dissect.Stick20.{
  items as stick20_items, dissect_password_command, dissect_change_update_password,
  dissect_fill_sd_card_with_random_chars, dissect_send_startup, dissect_setup_hidden_volume,
}
use libnitrokey.Commands.Dissect.Query.{dissect}

-- A command without the passwords of users, the names, logins and passwords of the password safe, the
-- names and secrets of OTP slots, and the data that is sent for them. Temporary passwords stay.
pub masked10 : Stick10 → Stick10
masked10 (Stick10.write_to_hotp_slot slot_number _ _ config slot_token_id slot_counter) =
    Stick10.write_to_hotp_slot slot_number [] [] config slot_token_id slot_counter
masked10 (Stick10.write_to_totp_slot slot_number _ _ config slot_token_id slot_interval) =
    Stick10.write_to_totp_slot slot_number [] [] config slot_token_id slot_interval
masked10 (Stick10.set_password_safe_slot_data slot_number _ _) =
    Stick10.set_password_safe_slot_data slot_number [] []
masked10 (Stick10.set_password_safe_slot_data2 slot_number _) =
    Stick10.set_password_safe_slot_data2 slot_number []
masked10 (Stick10.enable_password_safe _) = Stick10.enable_password_safe []
masked10 (Stick10.first_authenticate _ temporary_password) =
    Stick10.first_authenticate [] temporary_password
masked10 (Stick10.user_authenticate _ temporary_password) =
    Stick10.user_authenticate [] temporary_password
masked10 (Stick10.unlock_user_password _ _) = Stick10.unlock_user_password [] []
masked10 (Stick10.change_user_pin _ _) = Stick10.change_user_pin [] []
masked10 (Stick10.is_aes_supported _) = Stick10.is_aes_supported []
masked10 (Stick10.change_admin_pin _ _) = Stick10.change_admin_pin [] []
masked10 (Stick10.factory_reset _) = Stick10.factory_reset []
masked10 (Stick10.build_aes_key _) = Stick10.build_aes_key []
masked10 (Stick10.firmware_update _) = Stick10.firmware_update []
masked10 (Stick10.firmware_password_change _ _) = Stick10.firmware_password_change [] []
masked10 c = c

pub masked10_08 : Stick10_08 → Stick10_08
masked10_08 (Stick10_08.send_otp_data temporary_admin_password type id _) =
    Stick10_08.send_otp_data temporary_admin_password type id []
masked10_08 c = c

pub masked20 : Stick20 → Stick20
masked20 (Stick20.change_admin_user_pin20_current kind _) =
    Stick20.change_admin_user_pin20_current kind []
masked20 (Stick20.change_admin_user_pin20_new kind _) = Stick20.change_admin_user_pin20_new kind []
masked20 (Stick20.unlock_user_pin kind _) = Stick20.unlock_user_pin kind []
masked20 (Stick20.enable_encrypted_partition kind _) = Stick20.enable_encrypted_partition kind []
masked20 (Stick20.enable_hidden_encrypted_partition kind _) =
    Stick20.enable_hidden_encrypted_partition kind []
masked20 (Stick20.set_unencrypted_volume_read_only_admin kind _) =
    Stick20.set_unencrypted_volume_read_only_admin kind []
masked20 (Stick20.set_unencrypted_volume_read_write_admin kind _) =
    Stick20.set_unencrypted_volume_read_write_admin kind []
masked20 (Stick20.set_encrypted_volume_read_only kind _) =
    Stick20.set_encrypted_volume_read_only kind []
masked20 (Stick20.set_encrypted_volume_read_write kind _) =
    Stick20.set_encrypted_volume_read_write kind []
masked20 (Stick20.disable_encrypted_partition kind _) = Stick20.disable_encrypted_partition kind []
masked20 (Stick20.disable_hidden_encrypted_partition kind _) =
    Stick20.disable_hidden_encrypted_partition kind []
masked20 (Stick20.enable_firmware_update kind _) = Stick20.enable_firmware_update kind []
masked20 (Stick20.export_firmware kind _) = Stick20.export_firmware kind []
masked20 (Stick20.send_set_readonly_to_uncrypted_volume kind _) =
    Stick20.send_set_readonly_to_uncrypted_volume kind []
masked20 (Stick20.send_set_readwrite_to_uncrypted_volume kind _) =
    Stick20.send_set_readwrite_to_uncrypted_volume kind []
masked20 (Stick20.send_clear_new_sd_card_found kind _) =
    Stick20.send_clear_new_sd_card_found kind []
masked20 (Stick20.create_new_keys kind _) = Stick20.create_new_keys kind []
masked20 (Stick20.change_update_password _ _) = Stick20.change_update_password [] []
masked20 (Stick20.fill_sd_card_with_random_chars volume_flag kind _) =
    Stick20.fill_sd_card_with_random_chars volume_flag kind []
masked20 (Stick20.setup_hidden_volume slot_nr start_block_percent end_block_percent _) =
    Stick20.setup_hidden_volume slot_nr start_block_percent end_block_percent []
masked20 c = c

unfoldable pub masked : Command → Command
masked (stick10 c) = stick10 (masked10 c)
masked (stick10_08 c) = stick10_08 (masked10_08 c)
masked (stick20 c) = stick20 (masked20 c)

stick10_masked : (c : Stick10) → stick10_items (masked10 c) ≡ stick10_items c
unfolding stick10_items masked10 print_to_ss_volatile dissect_get_slot_name dissect_erase_slot
    dissect_set_time dissect_write_to_hotp_slot dissect_write_to_totp_slot dissect_get_totp
    dissect_get_hotp dissect_read_slot dissect_get_password_safe_slot_name
    dissect_get_password_safe_slot_password dissect_get_password_safe_slot_login
    dissect_set_password_safe_slot_data dissect_set_password_safe_slot_data2
    dissect_erase_password_safe_slot dissect_enable_password_safe dissect_first_authenticate
    dissect_user_authenticate dissect_authorize dissect_user_authorize dissect_unlock_user_password
    dissect_change_user_pin dissect_is_aes_supported dissect_change_admin_pin dissect_factory_reset
    dissect_build_aes_key dissect_get_random dissect_firmware_update
    dissect_firmware_password_change
stick10_masked c = ground arith

stick10_08_masked : (c : Stick10_08) → stick10_08_items (masked10_08 c) ≡ stick10_08_items c
unfolding stick10_08_items masked10_08 dissect_send_otp_data
stick10_08_masked c = ground arith

stick20_masked : (c : Stick20) → stick20_items (masked20 c) ≡ stick20_items c
unfolding stick20_items masked20 print_to_ss_volatile dissect_password_command
    dissect_change_update_password dissect_fill_sd_card_with_random_chars dissect_send_startup
    dissect_setup_hidden_volume
stick20_masked c = ground arith

-- The text of a payload is the same whatever the passwords, names, secrets and data in it are; the
-- temporary passwords are not among them.
pub dissect-masked : (c : Command) → dissect c ≡ dissect (masked c)
unfolding dissect masked
dissect-masked (stick10 c) = ap str (sym (stick10_masked c))
dissect-masked (stick10_08 c) = ap str (sym (stick10_08_masked c))
dissect-masked (stick20 c) = ap str (sym (stick20_masked c))
