-- ===== src/Manager/Storage.antt =====
-- The commands of a Storage device.
pub mod Laws
use libnitrokey.Prelude.{ℕ, Bool, true, false, not, ◌==◌, if◌then◌else◌, some, []}
use libnitrokey.Prelude.Int.{ℤ, pos, negsuc}
use libnitrokey.Prelude.Bytes.{Bytes}
use libnitrokey.Exceptions.Reasons.{reason_smartcard_busy}
use libnitrokey.Exceptions.{
  Action, Result, ok, err, pure, throw, ◌>>=◌, ◌>>◌, when, command_failed,
  long_operation_in_progress,
}
use libnitrokey.Misc.Fields.{CString}
use libnitrokey.Commands.Command.{Command, stick20}
use libnitrokey.Commands.Stick20.{Stick20}
use libnitrokey.Manager.Interface.{Link, field, execute, payload_byte}
use libnitrokey.Manager.Status.{set_unencrypted_volume_rorw_pin_type_user}
use libnitrokey.Manager.Authorization.{Role, admin, user}
use libnitrokey.Manager.Pins.{kind_of}

-- The `catch` blocks of `is_smartcard_in_use` and of `get_progress_bar_value`. A
-- `LongOperationInProgressException` is a `CommandFailedException`.
pub catch_busy : {S : Type 0} → Result (Unit {0}) × S → Result Bool × S
catch_busy (ok _, s) = (ok false, s)
catch_busy (err (command_failed command status), s) = (ok (reason_smartcard_busy status), s)
catch_busy (err (long_operation_in_progress command status value), s) =
    (ok (reason_smartcard_busy status), s)
catch_busy (err e, s) = (err e, s)

pub catch_progress : {S : Type 0} → Result (Unit {0}) × S → Result ℤ × S
catch_progress (ok _, s) = (ok (negsuc 0), s)
catch_progress (err (long_operation_in_progress command status value), s) = (ok (pos value), s)
catch_progress (err e, s) = (err e, s)

module _ {S : Type 0} (link : Link S) where
  -- `execute_password_command` of misc.h, for a command with a kind and a password of 20 bytes.
  pub execute_password_command : (ℕ → Bytes → Stick20) → Role → CString → Action S (Unit {0})
  execute_password_command command role password = do
    p ← field 20 password
    execute link (stick20 (command (kind_of role) p))

  pub send_startup : ℕ → Action S (Unit {0})
  send_startup seconds_from_epoch = execute link (stick20 (Stick20.send_startup seconds_from_epoch))

  pub unlock_encrypted_volume : CString → Action S (Unit {0})
  unlock_encrypted_volume = execute_password_command Stick20.enable_encrypted_partition user

  pub unlock_hidden_volume : CString → Action S (Unit {0})
  unlock_hidden_volume = execute_password_command Stick20.enable_hidden_encrypted_partition user

  pub set_encrypted_volume_read_only : CString → Action S (Unit {0})
  set_encrypted_volume_read_only =
      execute_password_command Stick20.set_encrypted_volume_read_only admin

  pub set_encrypted_volume_read_write : CString → Action S (Unit {0})
  set_encrypted_volume_read_write =
      execute_password_command Stick20.set_encrypted_volume_read_write admin

  pub create_hidden_volume : ℕ → ℕ → ℕ → CString → Action S (Unit {0})
  create_hidden_volume slot_nr start_percent end_percent hidden_volume_password = do
    password ← field 20 hidden_volume_password
    execute link (stick20 (Stick20.setup_hidden_volume slot_nr start_percent end_percent password))

  -- Each of these four does nothing on the firmware that wants the other PIN.
  pub set_unencrypted_read_only_admin : CString → Action S (Unit {0})
  set_unencrypted_read_only_admin admin_pin = do
    by_user ← set_unencrypted_volume_rorw_pin_type_user link
    when (not by_user)
        (execute_password_command Stick20.set_unencrypted_volume_read_only_admin admin admin_pin)

  pub set_unencrypted_read_only : CString → Action S (Unit {0})
  set_unencrypted_read_only user_pin = do
    by_user ← set_unencrypted_volume_rorw_pin_type_user link
    when by_user
        (execute_password_command Stick20.send_set_readonly_to_uncrypted_volume user user_pin)

  pub set_unencrypted_read_write_admin : CString → Action S (Unit {0})
  set_unencrypted_read_write_admin admin_pin = do
    by_user ← set_unencrypted_volume_rorw_pin_type_user link
    when (not by_user)
        (execute_password_command Stick20.set_unencrypted_volume_read_write_admin admin admin_pin)

  pub set_unencrypted_read_write : CString → Action S (Unit {0})
  set_unencrypted_read_write user_pin = do
    by_user ← set_unencrypted_volume_rorw_pin_type_user link
    when by_user
        (execute_password_command Stick20.send_set_readwrite_to_uncrypted_volume user user_pin)

  pub export_firmware : CString → Action S (Unit {0})
  export_firmware = execute_password_command Stick20.export_firmware user

  pub enable_firmware_update : CString → Action S (Unit {0})
  enable_firmware_update = execute_password_command Stick20.enable_firmware_update user

  pub clear_new_sd_card_warning : CString → Action S (Unit {0})
  clear_new_sd_card_warning = execute_password_command Stick20.send_clear_new_sd_card_found user

  pub fill_sd_card_with_random_data : CString → Action S (Unit {0})
  fill_sd_card_with_random_data admin_pin = do
    password ← field 20 admin_pin
    execute link (stick20 (Stick20.fill_sd_card_with_random_chars 1 b'P' password))

  pub change_update_password : CString → CString → Action S (Unit {0})
  change_update_password current_update_password new_update_password = do
    current ← field 20 current_update_password
    new ← field 20 new_update_password
    execute link (stick20 (Stick20.change_update_password current new))

  -- The payload of `GetDeviceStatus`, and of `ProductionTest`.
  unfoldable pub get_status_storage : Action S Bytes
  get_status_storage = link.transact (stick20 Stick20.get_device_status)

  unfoldable pub production_info : Action S Bytes
  production_info = link.transact (stick20 Stick20.production_test)

  pub get_sd_card_size : Action S ℕ
  get_sd_card_size = do payload ← production_info; pure (payload_byte 25 payload)

  unfoldable pub get_sd_usage_data : Action S (ℕ × ℕ)
  get_sd_usage_data = do
    payload ← link.transact (stick20 Stick20.get_sd_card_occupancy)
    pure (payload_byte 0 payload, payload_byte 1 payload)

  pub is_smartcard_in_use : Action S Bool
  is_smartcard_in_use s = catch_busy (execute link (stick20 Stick20.check_smartcard_usage) s)

  pub get_progress_bar_value : Action S ℤ
  get_progress_bar_value s = catch_progress (execute link (stick20 Stick20.get_device_status) s)

  pub lock_encrypted_volume : Action S (Unit {0})
  lock_encrypted_volume =
      execute_password_command Stick20.disable_encrypted_partition user (some [])

  pub lock_hidden_volume : Action S (Unit {0})
  lock_hidden_volume =
      execute_password_command Stick20.disable_hidden_encrypted_partition user (some [])

  pub wink : Action S (Unit {0})
  wink = execute link (stick20 Stick20.wink)
