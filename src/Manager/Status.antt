-- ===== src/Manager/Status.antt =====
-- Serial number, firmware version and what the firmware supports.
pub mod Laws
use libnitrokey.Prelude.{
  ℕ, ◌+◌, ◌%◌, ◌≡◌, Bool, true, false, ◌||◌, not, ◌==◌, leb, ltb, if◌then◌else◌, List, Option, some,
  none,
}
use libnitrokey.Prelude.Bytes.{Bytes}
use libnitrokey.Exceptions.{Action, Result, ok, err, pure, ◌>>=◌, ◌>>◌, device_not_connected}
use libnitrokey.Device.Model.{DeviceModel, pro, storage, librem}
use libnitrokey.Commands.Command.{Command, stick10, stick20}
use libnitrokey.Commands.Stick10.{Stick10}
use libnitrokey.Commands.Stick20.{Stick20}
use libnitrokey.Manager.Interface.{Link, connected_model, payload_byte, payload_bytes, payload_u32}

-- The status command of a device: `GetStatus`, or `GetDeviceStatus` of a Storage.
unfoldable pub status_command : DeviceModel → Command
status_command storage = stick20 Stick20.get_device_status
status_command _ = stick10 Stick10.get_status

-- The serial number of the smart card in the response to it.
pub serial_in : DeviceModel → Bytes → ℕ
serial_in storage payload = payload_u32 42 payload
serial_in _ payload = payload_u32 2 payload

-- A development firmware of a Storage counts as the next version.
unfoldable pub minor_in : DeviceModel → Bytes → ℕ
minor_in storage payload =
    if payload_byte 29 payload == 0
    then payload_byte 27 payload
    else (payload_byte 27 payload + 1) % 256
minor_in _ payload = payload_byte 0 payload

pub major_in : DeviceModel → Bytes → ℕ
major_in storage payload = payload_byte 26 payload
major_in _ payload = payload_byte 1 payload

-- The last version that needs commands to be authorized, and the first with secrets of 320 bits.
pub last_authorizing : DeviceModel → ℕ
last_authorizing storage = 53
last_authorizing _ = 7

pub first_320 : DeviceModel → ℕ
first_320 storage = 54
first_320 _ = 8

module _ {S : Type 0} (link : Link S) where
  pub get_connected_device_model : Action S DeviceModel
  get_connected_device_model = connected_model link

  pub get_serial_number_as_u32 : Action S ℕ
  get_serial_number_as_u32 = do
    model ← connected_model link
    payload ← link.transact (status_command model)
    pure (serial_in model payload)

  unfoldable pub get_minor_firmware_version : Action S ℕ
  get_minor_firmware_version = do
    model ← connected_model link
    payload ← link.transact (status_command model)
    pure (minor_in model payload)

  unfoldable pub get_major_firmware_version : Action S ℕ
  get_major_firmware_version = do
    model ← connected_model link
    payload ← link.transact (status_command model)
    pure (major_in model payload)

  unfoldable pub is_authorization_command_supported : Action S Bool
  is_authorization_command_supported = do
    model ← connected_model link
    minor ← get_minor_firmware_version
    pure (leb minor (last_authorizing model))

  pub is_320_otp_secret_supported : Action S Bool
  is_320_otp_secret_supported = do
    model ← connected_model link
    minor ← get_minor_firmware_version
    pure (leb (first_320 model) minor)

  unfoldable pub set_unencrypted_volume_rorw_pin_type_user : Action S Bool
  set_unencrypted_volume_rorw_pin_type_user = do
    minor ← get_minor_firmware_version
    pure (leb minor 48 || (minor == 50 || minor == 51))

  -- The payload of `GetStatus`.
  unfoldable pub get_status : Action S Bytes
  get_status = link.transact (stick10 Stick10.get_status)

  -- `general_config`
  pub read_config : Action S Bytes
  read_config = do payload ← get_status; pure (payload_bytes 6 5 payload)
