-- ===== src/Manager/State/Shown.antt =====
-- The pointers of the manager, through steps that change and destroy objects.
use libnitrokey.Prelude.{ℕ, ◌≡◌, refl, List, Option, none, some, false, arith}
use libnitrokey.Prelude.Bytes.{Bytes}
use libnitrokey.Device.Hid.{Hid}
use libnitrokey.Device.Model.{DeviceModel}
use libnitrokey.Device.State.{Device, Session}
use libnitrokey.Device.Link.{disconnect as disconnect_handle}
use libnitrokey.Manager.State.{
  Manager, set_key, erase_key, on_pointer, disconnect_device, destroy, release, release_pointer,
  set_device, set_by_id, erase_by_id, update_device, make_shared,
}

-- What the manager shows of its pointers.
pub record Shown : Type 0 where
  pub device : Option ℕ
  pub connected_devices_by_id : List (Bytes × Option ℕ)
  pub current_device_id : Bytes

abbrev pub shown : {W : Type 0} → Manager W → Shown
shown m = record {
  device = m.device;
  connected_devices_by_id = m.connected_devices_by_id;
  current_device_id = m.current_device_id;
}

module _ {W : Type 0} where
  pub on_pointer-shown :
      {B : Type 0} (missing : B) (p : ℕ) (f : Session W → B × Session W) (m : Manager W)
      → shown (on_pointer missing p f m).1 ≡ shown m
  unfolding on_pointer
  on_pointer-shown missing p f m = ground arith

  pub update_device-shown :
      (p : ℕ) (f : Device → Device) (m : Manager W) → shown (update_device p f m) ≡ shown m
  unfolding update_device
  update_device-shown p f m = on_pointer-shown tt p (λ s. (tt, record s { device = f s.device })) m

  pub make_shared-shown :
      (model : DeviceModel) (m : Manager W) → shown (make_shared model m).1 ≡ shown m
  unfolding make_shared
  make_shared-shown model m = refl

module _ {W : Type 0} (hid : Hid W) where
  pub disconnect_device-shown :
      (p : ℕ) (m : Manager W) → shown (disconnect_device hid p m).1 ≡ shown m
  unfolding disconnect_device
  disconnect_device-shown p m = on_pointer-shown false p (disconnect_handle hid) m

  pub release-shown :
      (locals : List ℕ) (p : ℕ) (m : Manager W) → shown (release hid locals p m) ≡ shown m
  unfolding release destroy
  release-shown locals p m = ground (arith, disconnect_device-shown p m)

  release_pointer-shown :
      (locals : List ℕ) (p : Option ℕ) (m : Manager W)
      → shown (release_pointer hid locals p m) ≡ shown m
  unfolding release_pointer
  release_pointer-shown locals none m = refl
  release_pointer-shown locals (some p) m = release-shown locals p m

  pub set_device-shown :
      (locals : List ℕ) (d : Option ℕ) (m : Manager W)
      → shown (set_device hid locals d m) ≡ shown (record m { device = d })
  unfolding set_device
  set_device-shown locals d m = release_pointer-shown locals m.device (record m { device = d })

  pub set_by_id-shown :
      (locals : List ℕ) (id : Bytes) (d : Option ℕ) (m : Manager W)
      → shown (set_by_id hid locals id d m)
        ≡ shown (record m { connected_devices_by_id = set_key id d m.connected_devices_by_id })
  unfolding set_by_id
  set_by_id-shown locals id d m = release_pointer-shown locals _ _

  pub erase_by_id-shown :
      (locals : List ℕ) (id : Bytes) (m : Manager W)
      → shown (erase_by_id hid locals id m)
        ≡ shown (record m { connected_devices_by_id = erase_key id m.connected_devices_by_id })
  unfolding erase_by_id
  erase_by_id-shown locals id m = release_pointer-shown locals _ _
