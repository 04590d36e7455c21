-- ===== src/Manager/ById.antt =====
-- The calls of `NitrokeyManager` that list the Storage devices by the identifiers of their cards, and
-- connect a device by such an identifier or by its path (NitrokeyManager.cc, toHex of misc.h).
pub mod Laws
pub mod Connected
pub mod Chosen
pub mod Listed
pub mod Identifiers
use libnitrokey.Prelude.{
  ℕ, zero, suc, ◌+◌, ◌-◌, ◌/◌, ◌%◌, Option, none, some, List, [], ◌∷◌, ◌++◌, Bool, true, false, ltb,
  if◌then◌else◌,
}
use libnitrokey.Prelude.Bytes.{Bytes, bytes_eq}
use libnitrokey.Exceptions.{
  Action, Result, ok, err, Exception, pure, device_not_connected, device_sending_failure,
  device_receiving_failure, invalid_crc_received, long_operation_in_progress, then_call,
}
use libnitrokey.Device.Model.{DeviceModel, storage, product_id_to_model, nitrokey_vid, purism_vid}
use libnitrokey.Device.Hid.{Hid, HidDeviceInfo}
use libnitrokey.Device.State.{set_path}
use libnitrokey.Device.Enumeration.{DeviceInfo, enumerate}
use libnitrokey.Manager.Interface.{payload_u32}
use libnitrokey.Manager.State.{
  Manager, at_key, make_shared, update_device, disconnect_device, release, set_device, set_by_id,
  erase_by_id, clear_by_id,
}
use libnitrokey.Manager.Connecting.{connect_device, disconnect}
use libnitrokey.Manager.Connection.{device_link}
use libnitrokey.Manager.Status.{get_status}
use libnitrokey.Manager.Storage.{get_status_storage}

-- The digit that `std::hex` writes.
unfoldable pub hex_digit : ℕ → ℕ
hex_digit d = if ltb d 10 then b'0' + d else b'a' + (d - 10)

unfoldable pub hex_digits : ℕ → ℕ → Bytes → Bytes
hex_digits zero value text = text
hex_digits (suc width) value text = hex_digits width (value / 16) (hex_digit (value % 16) ∷ text)

-- `toHex` of a `uint32_t`
unfoldable pub to_hex : ℕ → Bytes
to_hex value = hex_digits 8 value []

-- The identifier of a Storage, from the payload of its status and its path.
pub storage_id : Bytes → Bytes → Bytes
storage_id status path =
    (to_hex (payload_u32 42 status) ++ (b':' ∷ to_hex (payload_u32 34 status)))
    ++ (b'_' ∷ b'p' ∷ b'_' ∷ path)

-- The subclasses of `DeviceCommunicationException`.
unfoldable pub is_communication : Exception → Bool
is_communication device_not_connected = true
is_communication (device_sending_failure sent) = true
is_communication device_receiving_failure = true
is_communication invalid_crc_received = true
is_communication _ = false

-- The inner `try`: a long operation leaves the path as the identifier.
pub id_of : {S : Type 0} → Bytes → Result Bytes × S → Result Bytes × S
id_of path (ok status, m) = (ok (storage_id status path), m)
id_of path (err (long_operation_in_progress command status progress), m) = (ok path, m)
id_of path (err e, m) = (err e, m)

-- The outer `try`.
pub forgive : {S A : Type 0} → A → Result A × S → Result A × S
forgive res (ok a, m) = (ok a, m)
forgive res (err e, m) = if is_communication e then (ok res, m) else (err e, m)

-- An assignment of a `misc::Option`, which is read only where it stays empty.
abbrev or_model : Option DeviceModel → Option DeviceModel → Option DeviceModel
or_model none later = later
or_model (some model) later = some model

module _ {W : Type 0} (hid : Hid W) where
  pub disconnect_all : List (Bytes × Option ℕ) → Manager W → Manager W
  disconnect_all [] m = m
  disconnect_all ((id, none) ∷ rest) m = disconnect_all rest m
  disconnect_all ((id, some p) ∷ rest) m = disconnect_all rest (disconnect_device hid p m).1

  pub register : ℕ → List Bytes → Bytes → Action (Manager W) (List Bytes)
  register d res id m = (ok (res ++ (id ∷ [])), set_by_id hid (d ∷ []) id (some d) m)

  -- What is done with a device that was opened.
  pub discover : ℕ → Bytes → List Bytes → Action (Manager W) (List Bytes)
  discover d path res m =
      then_call (register d res)
        (id_of path (get_status_storage (device_link hid) (set_device hid (d ∷ []) (some d) m)))

  -- The end of the loop's body, where `d` goes out of scope, whether it is left by a throw or not.
  abbrev leave : ℕ → Result (List Bytes) × Manager W → Result (List Bytes) × Manager W
  leave d (r, m) = (r, release hid [] d m)

  abbrev if_opened :
      Bool → Action (Manager W) (List Bytes) → List Bytes → Action (Manager W) (List Bytes)
  if_opened true k res m = k m
  if_opened false k res m = pure res m

  -- The loop's body for a Storage.
  unfoldable pub examine : DeviceInfo → List Bytes → Action (Manager W) (List Bytes)
  examine info res m =
      let (d, m1) = make_shared storage m in
      let (opened, m2) = connect_device hid d (update_device d (set_path info.path) m1) in
      leave d (forgive res (if_opened opened (discover d info.path res) res m2))

  abbrev examine_model : DeviceModel → DeviceInfo → List Bytes → Action (Manager W) (List Bytes)
  examine_model storage info res = examine info res
  examine_model _ info res = pure res

  unfoldable pub examine_each : List DeviceInfo → List Bytes → Action (Manager W) (List Bytes)
  examine_each [] res m = (ok res, m)
  examine_each (info ∷ rest) res m =
      then_call (examine_each rest) (examine_model info.device_model info res m)

  abbrev enumerate_devices : Action (Manager W) (List DeviceInfo)
  enumerate_devices m = let (r, w) = enumerate hid m.world in (r, record m { world = w })

  -- What is cleared before the devices are enumerated.
  unfoldable pub forget_devices : Manager W → Manager W
  forget_devices m =
      let disconnected = (disconnect hid m).1 in
      clear_by_id hid (disconnect_all disconnected.connected_devices_by_id disconnected)

  unfoldable pub list_devices_by_cpu_id : Action (Manager W) (List Bytes)
  list_devices_by_cpu_id m =
      then_call (λ infos. examine_each infos []) (enumerate_devices (forget_devices m))

  abbrev disconnect_local : Option ℕ → Manager W → Manager W
  disconnect_local none m = m
  disconnect_local (some d) m = (disconnect_device hid d m).1

  abbrev locals_of : Option ℕ → List ℕ
  locals_of none = []
  locals_of (some d) = d ∷ []

  -- The handler of a device that does not answer: its entry is set to null and erased.
  pub drop_entry : Option ℕ → Bytes → Manager W → Manager W
  drop_entry d id m =
      let m1 = record (disconnect_local d m) { current_device_id = [] } in
      erase_by_id hid (locals_of d) id (set_by_id hid (locals_of d) id none m1)

  -- The handlers around `get_status`.
  pub validated : Option ℕ → Bytes → Result Bytes × Manager W → Result Bool × Manager W
  validated d id (ok status, m) = (ok true, m)
  validated d id (err (long_operation_in_progress command status progress), m) = (ok true, m)
  validated d id (err e, m) =
      if is_communication e then (ok false, drop_entry d id m) else (err e, m)

  abbrev leave_local : Option ℕ → Result Bool × Manager W → Result Bool × Manager W
  leave_local none (r, m) = (r, m)
  leave_local (some d) (r, m) = (r, release hid [] d m)

  abbrev connect_entry : Option (Option ℕ) → Bytes → Action (Manager W) Bool
  connect_entry none id m = (ok false, m)
  connect_entry (some d) id m =
      let m1 = record (set_device hid (locals_of d) d m) { current_device_id = id } in
      leave_local d (validated d id (get_status (device_link hid) m1))

  unfoldable pub connect_with_id : Bytes → Action (Manager W) Bool
  connect_with_id id m = connect_entry (at_key id m.connected_devices_by_id) id m

  abbrev same_path : Bytes → Option Bytes → Bool
  same_path path none = false
  same_path path (some other) = bytes_eq path other

  -- The loop over the enumerated devices: the first that has the path and is of a known model.
  pub model_at_path : Bytes → List HidDeviceInfo → Option DeviceModel
  model_at_path path [] = none
  model_at_path path (info ∷ rest) =
      let later = model_at_path path rest in
      let here = or_model (product_id_to_model (info.vendor_id) (info.product_id)) later in
      if same_path path (info.path) then here else later

  -- A device of that model is made and opened; it stays only if it opens.
  abbrev try_path : Option DeviceModel → Bytes → Manager W → Bool × Manager W
  try_path none path m = (false, m)
  try_path (some model) path m =
      let (p, m1) = make_shared model m in
      let (opened, m2) = connect_device hid p (update_device p (set_path path) m1) in
      let taken = record (set_device hid (p ∷ []) (some p) m2) { current_device_id = path } in
      (opened, release hid [] p (if opened then taken else m2))

  abbrev try_vendor : ℕ → Bytes → Manager W → Bool × Manager W
  try_vendor vendor_id path m =
      let (infos, w) = hid.hid_enumerate vendor_id 0 m.world in
      try_path (model_at_path path infos) path (record m { world = w })

  pub try_vendors : List ℕ → Bytes → Manager W → Bool × Manager W
  try_vendors [] path m = (false, m)
  try_vendors (vendor_id ∷ rest) path m =
      let (done, m') = try_vendor vendor_id path m in
      let later = try_vendors rest path m' in if done then (true, m') else later

  unfoldable pub connect_with_path : Bytes → Manager W → Bool × Manager W
  connect_with_path path = try_vendors (nitrokey_vid ∷ purism_vid ∷ []) path
