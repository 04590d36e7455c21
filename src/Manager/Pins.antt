-- ===== src/Manager/Pins.antt =====
-- Authentication, PINs, the clock and the administration of a device.
pub mod Laws
use libnitrokey.Prelude.{ℕ, Bool, true, false, if◌then◌else◌, []}
use libnitrokey.Prelude.Bytes.{Bytes}
use libnitrokey.Exceptions.{Action, pure, when, ◌>>=◌, ◌>>◌}
use libnitrokey.Device.Model.{DeviceModel, storage}
use libnitrokey.Proto.Transaction.{is_storage}
use libnitrokey.Misc.Fields.{CString}
use libnitrokey.Commands.Command.{Command, stick10, stick10_08, stick20}
use libnitrokey.Commands.Stick10.{Stick10}
use libnitrokey.Commands.Stick10_08.{Stick10_08}
use libnitrokey.Commands.Stick20.{Stick20}
use libnitrokey.Manager.Interface.{
  Link, field, execute, connected_model, payload_byte, payload_bytes,
}
use libnitrokey.Manager.Status.{is_authorization_command_supported}
use libnitrokey.Manager.Authorization.{Role, admin, user, authorize_packet}

-- The `kind` of a `PasswordCommand`: `PasswordKind::Admin`, and `User` or `AdminPrefixed`.
unfoldable pub kind_of : Role → ℕ
kind_of admin = b'A'
kind_of user = b'P'

-- `ChangeAdminPin` or `ChangeUserPin`
pub change_pin_command : Role → Bytes → Bytes → Command
change_pin_command admin old_pin new_pin = stick10 (Stick10.change_admin_pin old_pin new_pin)
change_pin_command user old_pin new_pin = stick10 (Stick10.change_user_pin old_pin new_pin)

-- A boolean as the `uint8_t` of a payload.
abbrev flag : Bool → ℕ
flag b = if b then 1 else 0

module _ {S : Type 0} (link : Link S) where
  pub first_authenticate : CString → CString → Action S Bool
  first_authenticate pin temporary_password = do
    card_password ← field 25 pin
    temporary ← field 25 temporary_password
    execute link (stick10 (Stick10.first_authenticate card_password temporary))
    pure true

  pub user_authenticate : CString → CString → Action S (Unit {0})
  user_authenticate user_password temporary_password = do
    card_password ← field 25 user_password
    temporary ← field 25 temporary_password
    execute link (stick10 (Stick10.user_authenticate card_password temporary))

  pub set_time : ℕ → Action S Bool
  set_time time = do execute link (stick10 (Stick10.set_time 1 time)); pure false

  pub set_time_soft : ℕ → Action S (Unit {0})
  set_time_soft time = execute link (stick10 (Stick10.set_time 0 time))

  pub get_time : ℕ → Action S Bool
  get_time time = do set_time_soft time; pure true

  -- A Storage takes the two PINs in two commands.
  pub change_pin_general : Role → CString → CString → Action S (Unit {0})
  change_pin_general role current_pin new_pin = do
    model ← connected_model link
    if is_storage model
        then (do
          current ← field 20 current_pin
          new ← field 20 new_pin
          execute link (stick20 (Stick20.change_admin_user_pin20_current (kind_of role) current))
          execute link (stick20 (Stick20.change_admin_user_pin20_new (kind_of role) new)))
        else (do
          current ← field 25 current_pin
          new ← field 25 new_pin
          execute link (change_pin_command role current new))

  pub change_user_pin : CString → CString → Action S (Unit {0})
  change_user_pin = change_pin_general user

  pub change_admin_pin : CString → CString → Action S (Unit {0})
  change_admin_pin = change_pin_general admin

  -- A Storage is asked for its status first.
  pub get_user_retry_count : Action S ℕ
  get_user_retry_count = do
    model ← connected_model link
    when (is_storage model) (execute link (stick20 Stick20.get_device_status))
    payload ← link.transact (stick10 Stick10.get_user_password_retry_count)
    pure (payload_byte 0 payload)

  pub get_admin_retry_count : Action S ℕ
  get_admin_retry_count = do
    model ← connected_model link
    when (is_storage model) (execute link (stick20 Stick20.get_device_status))
    payload ← link.transact (stick10 Stick10.get_password_retry_count)
    pure (payload_byte 0 payload)

  pub lock_device : Action S (Unit {0})
  lock_device = execute link (stick10 Stick10.lock_device)

  pub build_aes_key : CString → Action S (Unit {0})
  build_aes_key admin_password = do
    model ← connected_model link
    if is_storage model
        then (do
          password ← field 30 admin_password
          execute link (stick20 (Stick20.create_new_keys b'P' password)))
        else (do
          password ← field 20 admin_password
          execute link (stick10 (Stick10.build_aes_key password)))

  pub factory_reset : CString → Action S (Unit {0})
  factory_reset admin_password = do
    password ← field 20 admin_password
    execute link (stick10 (Stick10.factory_reset password))

  pub unlock_user_password : CString → CString → Action S (Unit {0})
  unlock_user_password admin_password new_user_password = do
    model ← connected_model link
    if is_storage model
        then (do
          password ← field 20 admin_password
          execute link (stick20 (Stick20.change_admin_user_pin20_current (kind_of admin) password))
          new_password ← field 20 new_user_password
          execute link (stick20 (Stick20.unlock_user_pin (kind_of admin) new_password)))
        else (do
          password ← field 25 admin_password
          new_password ← field 25 new_user_password
          execute link (stick10 (Stick10.unlock_user_password password new_password)))

  -- The packet is authorized as it is, or carries the password itself.
  pub write_config : ℕ → ℕ → ℕ → Bool → Bool → CString → Action S (Unit {0})
  write_config numlock capslock scrolllock enable_user_password delete_user_password
        admin_temporary_password =
      do
        supported ← is_authorization_command_supported link
        if supported
            then (do
              authorize_packet link admin
                  (stick10_08 (
                    Stick10_08.write_general_config numlock capslock scrolllock
                      (flag enable_user_password) (flag delete_user_password) []))
                  admin_temporary_password
              execute link (
                  stick10_08 (
                    Stick10_08.write_general_config numlock capslock scrolllock
                      (flag enable_user_password) (flag delete_user_password) [])))
            else (do
              password ← field 25 admin_temporary_password
              execute link (
                  stick10_08 (
                    Stick10_08.write_general_config numlock capslock scrolllock
                      (flag enable_user_password) (flag delete_user_password) password)))

  pub is_aes_supported : CString → Action S Bool
  is_aes_supported user_password = do
    password ← field 20 user_password
    execute link (stick10 (Stick10.is_aes_supported password))
    pure true

  pub enable_firmware_update_pro : CString → Action S (Unit {0})
  enable_firmware_update_pro firmware_pin = do
    password ← field 20 firmware_pin
    execute link (stick10 (Stick10.firmware_update password))

  -- The payload: the size that the device gives, and its random bytes.
  unfoldable pub get_random_pro : ℕ → Action S Bytes
  get_random_pro size_requested = link.transact (stick10 (Stick10.get_random size_requested))

  pub change_firmware_update_password_pro : CString → CString → Action S (Unit {0})
  change_firmware_update_password_pro firmware_pin_current firmware_pin_new = do
    current ← field 20 firmware_pin_current
    new ← field 20 firmware_pin_new
    execute link (stick10 (Stick10.firmware_password_change current new))
