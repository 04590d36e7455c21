-- ===== src/Commands/Stick20.antt =====
-- The commands of stick20_commands.h, as in Stick10. Most are a `PasswordCommand` of command.h: the
-- kind of the password, and 20 bytes for it. `change_update_password` has a gap before each password.
pub mod Payloads
use libnitrokey.Prelude.{ℕ, [], ◌++◌}
use libnitrokey.Prelude.Bytes.{Bytes, le_bytes}
use libnitrokey.Commands.Ids.{CommandId}
use libnitrokey.Commands.Layout.{byte, c_array}
use libnitrokey.Commands.Stick20.Payloads.{
  pack_password_command, pack_create_new_keys, pack_change_update_password,
  pack_fill_sd_card_with_random_chars, pack_send_startup, pack_setup_hidden_volume,
}

pub data Stick20 : Type 0 where
  change_admin_user_pin20_current : (kind : ℕ) → (password : Bytes) → Stick20
  change_admin_user_pin20_new : (kind : ℕ) → (password : Bytes) → Stick20
  unlock_user_pin : (kind : ℕ) → (password : Bytes) → Stick20
  enable_encrypted_partition : (kind : ℕ) → (password : Bytes) → Stick20
  enable_hidden_encrypted_partition : (kind : ℕ) → (password : Bytes) → Stick20
  set_unencrypted_volume_read_only_admin : (kind : ℕ) → (password : Bytes) → Stick20
  set_unencrypted_volume_read_write_admin : (kind : ℕ) → (password : Bytes) → Stick20
  set_encrypted_volume_read_only : (kind : ℕ) → (password : Bytes) → Stick20
  set_encrypted_volume_read_write : (kind : ℕ) → (password : Bytes) → Stick20
  disable_encrypted_partition : (kind : ℕ) → (password : Bytes) → Stick20
  disable_hidden_encrypted_partition : (kind : ℕ) → (password : Bytes) → Stick20
  enable_firmware_update : (kind : ℕ) → (password : Bytes) → Stick20
  export_firmware : (kind : ℕ) → (password : Bytes) → Stick20
  send_set_readonly_to_uncrypted_volume : (kind : ℕ) → (password : Bytes) → Stick20
  send_set_readwrite_to_uncrypted_volume : (kind : ℕ) → (password : Bytes) → Stick20
  send_clear_new_sd_card_found : (kind : ℕ) → (password : Bytes) → Stick20
  create_new_keys : (kind : ℕ) → (password : Bytes) → Stick20
  change_update_password :
      (current_update_password : Bytes) → (new_update_password : Bytes) → Stick20
  fill_sd_card_with_random_chars : (volume_flag : ℕ) → (kind : ℕ) → (admin_pin : Bytes) → Stick20
  send_startup : (localtime : ℕ) → Stick20
  get_device_status : Stick20
  wink : Stick20
  check_smartcard_usage : Stick20
  get_sd_card_occupancy : Stick20
  setup_hidden_volume :
      (slot_nr : ℕ)
      → (start_block_percent : ℕ) → (end_block_percent : ℕ) → (hidden_volume_password : Bytes)
      → Stick20
  production_test : Stick20

pub command_of : Stick20 → CommandId
command_of (change_admin_user_pin20_current _ _) = CommandId.send_password
command_of (change_admin_user_pin20_new _ _) = CommandId.send_new_password
command_of (unlock_user_pin _ _) = CommandId.unlock_user_password
command_of (enable_encrypted_partition _ _) = CommandId.enable_crypted_pari
command_of (enable_hidden_encrypted_partition _ _) = CommandId.enable_hidden_crypted_pari
command_of (set_unencrypted_volume_read_only_admin _ _) =
    CommandId.enable_admin_readonly_uncrypted_lun
command_of (set_unencrypted_volume_read_write_admin _ _) =
    CommandId.enable_admin_readwrite_uncrypted_lun
command_of (set_encrypted_volume_read_only _ _) = CommandId.enable_admin_readonly_encrypted_lun
command_of (set_encrypted_volume_read_write _ _) = CommandId.enable_admin_readwrite_encrypted_lun
command_of (disable_encrypted_partition _ _) = CommandId.disable_crypted_pari
command_of (disable_hidden_encrypted_partition _ _) = CommandId.disable_hidden_crypted_pari
command_of (enable_firmware_update _ _) = CommandId.enable_firmware_update
command_of (export_firmware _ _) = CommandId.export_firmware_to_file
command_of (send_set_readonly_to_uncrypted_volume _ _) = CommandId.enable_readonly_uncrypted_lun
command_of (send_set_readwrite_to_uncrypted_volume _ _) = CommandId.enable_readwrite_uncrypted_lun
command_of (send_clear_new_sd_card_found _ _) = CommandId.clear_new_sd_card_found
command_of (create_new_keys _ _) = CommandId.generate_new_keys
command_of (change_update_password _ _) = CommandId.change_update_pin
command_of (fill_sd_card_with_random_chars _ _ _) = CommandId.fill_sd_card_with_random_chars
command_of (send_startup _) = CommandId.send_startup
command_of get_device_status = CommandId.get_device_status
command_of wink = CommandId.wink
command_of check_smartcard_usage = CommandId.check_smartcard_usage
command_of get_sd_card_occupancy = CommandId.sd_card_high_watermark
command_of (setup_hidden_volume _ _ _ _) = CommandId.send_hidden_volume_setup
command_of production_test = CommandId.production_test

-- The packed payload.
unfoldable pub pack : Stick20 → Bytes
pack (change_admin_user_pin20_current kind password) = pack_password_command kind password
pack (change_admin_user_pin20_new kind password) = pack_password_command kind password
pack (unlock_user_pin kind password) = pack_password_command kind password
pack (enable_encrypted_partition kind password) = pack_password_command kind password
pack (enable_hidden_encrypted_partition kind password) = pack_password_command kind password
pack (set_unencrypted_volume_read_only_admin kind password) = pack_password_command kind password
pack (set_unencrypted_volume_read_write_admin kind password) = pack_password_command kind password
pack (set_encrypted_volume_read_only kind password) = pack_password_command kind password
pack (set_encrypted_volume_read_write kind password) = pack_password_command kind password
pack (disable_encrypted_partition kind password) = pack_password_command kind password
pack (disable_hidden_encrypted_partition kind password) = pack_password_command kind password
pack (enable_firmware_update kind password) = pack_password_command kind password
pack (export_firmware kind password) = pack_password_command kind password
pack (send_set_readonly_to_uncrypted_volume kind password) = pack_password_command kind password
pack (send_set_readwrite_to_uncrypted_volume kind password) = pack_password_command kind password
pack (send_clear_new_sd_card_found kind password) = pack_password_command kind password
pack (create_new_keys kind password) = pack_create_new_keys kind password
pack (change_update_password current_update_password new_update_password) =
    pack_change_update_password current_update_password new_update_password
pack (fill_sd_card_with_random_chars volume_flag kind admin_pin) =
    pack_fill_sd_card_with_random_chars volume_flag kind admin_pin
pack (send_startup localtime) = pack_send_startup localtime
pack get_device_status = []
pack wink = []
pack check_smartcard_usage = []
pack get_sd_card_occupancy = []
pack (setup_hidden_volume slot_nr start_block_percent end_block_percent hidden_volume_password) =
    pack_setup_hidden_volume slot_nr start_block_percent end_block_percent hidden_volume_password
pack production_test = []
