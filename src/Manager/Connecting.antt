-- ===== src/Manager/Connecting.antt =====
-- The calls of `NitrokeyManager` that connect a device by its model, and the ones that disconnect it,
-- ask whether it is there and set its delays (NitrokeyManager.cc).
pub mod Laws
pub mod Chosen
pub mod Last
use libnitrokey.Prelude.{
  ℕ, Option, none, some, List, [], ◌∷◌, Bool, true, false, ◌==◌, if◌then◌else◌, ltb,
}
use libnitrokey.Prelude.Int.{ℤ, pos, negsuc}
use libnitrokey.Prelude.Bytes.{Bytes}
use libnitrokey.Exceptions.{Action, ok, err, runtime_error}
use libnitrokey.Device.Model.{DeviceModel, pro, storage, librem}
use libnitrokey.Device.Hid.{Hid}
use libnitrokey.Device.State.{set_receiving_delay, set_retry_delay}
use libnitrokey.Device.Link.{connect as connect_handle, could_be_enumerated}
use libnitrokey.Manager.State.{
  Manager, on_pointer, make_shared, update_device, disconnect_device, release, set_device,
}

-- Delays are `int`s; the least that is allowed is 20 ms.
pub least_delay : ℤ → Option ℕ
least_delay (negsuc n) = none
least_delay (pos n) = if ltb n 20 then none else some n

-- The letter of `connect(const char*)`.
pub model_of_letter : Bytes → Option DeviceModel
model_of_letter [] = none
model_of_letter (c ∷ rest) =
    if c == b'P'
    then some pro
    else if c == b'S'
    then some storage
    else if c == b'L'
    then some librem
    else none

unfoldable pub letter_of_model : DeviceModel → Bytes
letter_of_model pro = b'P' ∷ []
letter_of_model storage = b'S' ∷ []
letter_of_model librem = b'L' ∷ []

module _ {W : Type 0} (hid : Hid W) where
  pub connect_device : ℕ → Manager W → Bool × Manager W
  connect_device p = on_pointer false p (connect_handle hid)

  pub enumerated : ℕ → Manager W → Bool × Manager W
  enumerated p = on_pointer false p (could_be_enumerated hid)

  -- `_disconnect_no_lock`
  abbrev pub disconnect_pointer : Option ℕ → Manager W → Bool × Manager W
  disconnect_pointer none m = (false, m)
  disconnect_pointer (some p) m =
      let (res, m') = disconnect_device hid p m in (res, set_device hid [] none m')

  unfoldable pub disconnect : Manager W → Bool × Manager W
  disconnect m = disconnect_pointer m.device m

  -- The loop of `connect()`, over the rest of the local vector.
  pub connect_each : List ℕ → List ℕ → Bool → Manager W → Bool × Manager W
  connect_each devices [] connected m = (connected, m)
  connect_each devices (d ∷ rest) connected m =
      let (opened, m') = connect_device d m in
      let taken = connect_each devices rest true (set_device hid devices (some d) m') in
      let passed = connect_each devices rest connected m' in if opened then taken else passed

  -- Local pointers go away, from the first to the last.
  pub release_all : List ℕ → Manager W → Manager W
  release_all [] m = m
  release_all (p ∷ rest) m = release_all rest (release hid rest p m)

  -- `connect()`
  unfoldable pub connect : Manager W → Bool × Manager W
  connect m =
      let (p, m1) = make_shared pro m in
      let (s, m2) = make_shared storage m1 in
      let (l, m3) = make_shared librem m2 in
      let devices = p ∷ s ∷ l ∷ [] in
      let (connected, m4) = connect_each devices devices false m3 in
      (connected, release_all devices m4)

  -- `connect(const char*)`: whether the device is there or not, it becomes the manager's.
  abbrev pub connect_new : DeviceModel → Manager W → Bool × Manager W
  connect_new model m =
      let (p, m1) = make_shared model m in
      connect_device p (release hid [] p (set_device hid (p ∷ []) (some p) m1))

  abbrev pub connect_known : Option DeviceModel → Action (Manager W) Bool
  connect_known none m = (err runtime_error, m)
  connect_known (some model) m = let (opened, m') = connect_new model m in (ok opened, m')

  unfoldable pub connect_letter : Bytes → Action (Manager W) Bool
  connect_letter device_model = connect_known (model_of_letter device_model)

  -- `connect(DeviceModel)`
  unfoldable pub connect_model : DeviceModel → Action (Manager W) Bool
  connect_model model = connect_letter (letter_of_model model)

  abbrev pub is_connected_at : Option ℕ → Manager W → Bool × Manager W
  is_connected_at none m = (false, m)
  is_connected_at (some p) m =
      let (there, m') = enumerated p m in
      let (res, m2) = disconnect m' in if there then (true, m') else (false, m2)

  unfoldable pub is_connected : Manager W → Bool × Manager W
  is_connected m = is_connected_at m.device m

  abbrev pub could_be_enumerated_at : Option ℕ → Manager W → Bool × Manager W
  could_be_enumerated_at none m = (false, m)
  could_be_enumerated_at (some p) m = enumerated p m

  unfoldable pub could_current_device_be_enumerated : Manager W → Bool × Manager W
  could_current_device_be_enumerated m = could_be_enumerated_at m.device m

module _ {W : Type 0} where
  abbrev pub set_speed : Option ℕ → Option ℕ → Option ℕ → Manager W → Bool × Manager W
  set_speed (some retry) (some receive) (some p) m =
      (true, update_device p (λ d. set_retry_delay retry (set_receiving_delay receive d)) m)
  set_speed _ _ _ m = (false, m)

  -- Both delays are checked, then that there is a device.
  unfoldable pub set_current_device_speed : ℤ → ℤ → Manager W → Bool × Manager W
  set_current_device_speed retry_delay send_receive_delay m =
      set_speed (least_delay retry_delay) (least_delay send_receive_delay) (m.device) m

  abbrev pub set_default : Option ℕ → Manager W → Bool × Manager W
  set_default none m = (false, m)
  set_default (some delay) m = (true, record m { default_delay = delay })

  unfoldable pub set_default_commands_delay : ℤ → Manager W → Bool × Manager W
  set_default_commands_delay delay m = set_default (least_delay delay) m
