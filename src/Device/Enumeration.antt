-- ===== src/Device/Enumeration.antt =====
-- `Device::enumerate` and `add_vendor_devices` (device.cc), with `DeviceInfo` (device.h).
pub mod Listed
use libnitrokey.Prelude.{ℕ, Option, none, some, List, [], ◌∷◌, ◌++◌}
use libnitrokey.Prelude.Bytes.{Bytes}
use libnitrokey.Exceptions.{Action, Result, ok, err, runtime_error, ◌>>=◌}
use libnitrokey.Device.Model.{DeviceModel, product_id_to_model, nitrokey_vid, purism_vid}
use libnitrokey.Device.Hid.{Hid, HidDeviceInfo}

pub record DeviceInfo : Type 0 where
  pub device_model : DeviceModel
  pub path : Bytes
  pub serial_number : Bytes

-- What one entry adds, with the model and the text of its serial number.
abbrev pub entry : Option DeviceModel → Bytes → Option Bytes → Result (List DeviceInfo)
entry none path serial = ok []
entry (some model) path none = err runtime_error
entry (some model) path (some serial) =
    ok (record { device_model = model; path = path; serial_number = serial } ∷ [])

module _ {W : Type 0} (hid : Hid W) where
  -- An entry without a path or without a serial number is passed over.
  unfoldable pub read_entry : ℕ → HidDeviceInfo → Result (List DeviceInfo)
  read_entry vendor_id info = elim (info.path) [
    | none ↦ ok []
    | some path ↦ elim (info.serial_number) [
      | none ↦ ok []
      | some wide ↦ entry (product_id_to_model vendor_id (info.product_id)) path (hid.to_bytes wide)
    ]
  ]

  -- The loop over the entries; `res` is what the vector holds.
  unfoldable pub read_entries : ℕ → List HidDeviceInfo → List DeviceInfo → Result (List DeviceInfo)
  read_entries vendor_id [] res = ok res
  read_entries vendor_id (info ∷ rest) res = elim (read_entry vendor_id info) [
    | ok found ↦ read_entries vendor_id rest (res ++ found)
    | err e ↦ err e
  ]

  unfoldable pub add_vendor_devices : List DeviceInfo → ℕ → Action W (List DeviceInfo)
  add_vendor_devices res vendor_id w =
      let (infos, w') = hid.hid_enumerate vendor_id 0 w in (read_entries vendor_id infos res, w')

  unfoldable pub enumerate : Action W (List DeviceInfo)
  enumerate = do res ← add_vendor_devices [] nitrokey_vid; add_vendor_devices res purism_vid
