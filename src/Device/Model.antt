-- ===== src/Device/Model.antt =====
-- The device models and their USB identifiers (device.cc, device.h).
use libnitrokey.Prelude.{ℕ, Option, none, some, ◌==◌, if◌then◌else◌}

pub data DeviceModel : Type 0 where
  pro storage librem : DeviceModel

abbrev pub nitrokey_vid : ℕ
nitrokey_vid = 0x20a0

abbrev pub nitrokey_pro_pid : ℕ
nitrokey_pro_pid = 0x4108

abbrev pub nitrokey_storage_pid : ℕ
nitrokey_storage_pid = 0x4109

abbrev pub purism_vid : ℕ
purism_vid = 0x316d

abbrev pub librem_key_pid : ℕ
librem_key_pid = 0x4c4b

-- The `switch` on both identifiers.
unfoldable pub product_id_to_model : ℕ → ℕ → Option DeviceModel
product_id_to_model vendor_id product_id =
    if vendor_id == nitrokey_vid
    then if product_id == nitrokey_pro_pid
      then some pro
      else if product_id == nitrokey_storage_pid
      then some storage
      else none
    else if vendor_id == purism_vid
    then if product_id == librem_key_pid then some librem else none
    else none
