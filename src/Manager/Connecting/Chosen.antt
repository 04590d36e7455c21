-- ===== src/Manager/Connecting/Chosen.antt =====
-- When `is_connected()` returns true, and the device that it leaves the manager with.
use libnitrokey.Prelude.{
  ℕ, ◌≡◌, ◌≢◌, refl, ap, ◌∙◌, List, [], ◌∷◌, Option, none, some, Bool, true, false, ◌&&◌,
  if◌then◌else◌, arith,
}
use libnitrokey.Device.Hid.{Hid, HidDeviceInfo}
use libnitrokey.Device.State.{Device}
use libnitrokey.Device.Heap.{find}
use libnitrokey.Device.Link.{is_connected as is_connected_handle, could_be_enumerated}
use libnitrokey.Manager.Connection.{found_at, current_device}
use libnitrokey.Manager.State.{Manager, release, disconnect_device, on_pointer}
use libnitrokey.Manager.State.Shown.{shown, release-shown, set_device-shown}
use libnitrokey.Manager.Connecting.{
  release_all, disconnect_pointer, disconnect, enumerated, is_connected_at, is_connected,
}
use libnitrokey.Manager.Connecting.Laws.{enumerated-shown}

module _ {W : Type 0} (hid : Hid W) where
  pub release_all-shown :
      (locals : List ℕ) (m : Manager W) → shown (release_all hid locals m) ≡ shown m
  unfolding release_all
  release_all-shown [] m = refl
  release_all-shown (p ∷ rest) m =
      release_all-shown rest (release hid rest p m) ∙ release-shown hid rest p m

  disconnect-device : (m : Manager W) → (disconnect hid m).1.device ≡ none
  unfolding disconnect
  disconnect-device m = go m.device refl
    where
      go : (d : Option ℕ) → m.device ≡ d → (disconnect_pointer hid d m).1.device ≡ none
      go none e = e
      go (some p) e =
          ap (λ t. t.device) (set_device-shown hid [] none (disconnect_device hid p m).1)

  abbrev pub is_listed : List HidDeviceInfo → Bool
  is_listed [] = false
  is_listed (info ∷ rest) = true

  -- The device object has an open handle, and hidapi lists a device with its identifiers.
  abbrev pub is_there : Option Device → W → Bool
  is_there none w = false
  is_there (some d) w =
      is_connected_handle (d.handle) && is_listed (hid.hid_enumerate (d.vid) (d.pid) w).0

  enumerated-is_there :
      (p : ℕ) (m : Manager W) → (enumerated hid p m).0 ≡ is_there (find p m.heap) m.world
  unfolding enumerated on_pointer could_be_enumerated
  enumerated-is_there p m = ground arith

  -- `is_connected` returns true exactly when the manager's device has an open handle and hidapi lists a
  -- device with its identifiers. Then the device stays the manager's; otherwise the manager has none
  -- afterwards.
  pub is_connected-device :
      (m : Manager W)
      → let (connected, m') = is_connected hid m in
        (connected ≡ is_there (current_device m) m.world)
        × (connected ≡ true → (m'.device ≡ m.device) × (m.device ≢ none))
        × (connected ≡ false → m'.device ≡ none)
  unfolding is_connected
  is_connected-device m = go m.device refl
    where
      choose :
          (p : ℕ) (there : Bool) (t : Manager W)
          → m.device ≡ some p
          → there ≡ is_there (find p m.heap) m.world
          → t.device ≡ m.device
          → let r : Bool × Manager W = if there then (true, t) else (false, (disconnect hid t).1) in
            (r.0 ≡ is_there (find p m.heap) m.world)
            × (r.0 ≡ true → (r.1.device ≡ m.device) × (m.device ≢ none))
            × (r.0 ≡ false → r.1.device ≡ none)
      choose p true t e l k = (l, (λ h. (k, λ n. ground arith)), λ h. ground arith)
      choose p false t e l k = (l, (λ h. ground arith), λ h. disconnect-device t)

      go :
          (d : Option ℕ)
          → m.device ≡ d
          → let r = is_connected_at hid d m in
            (r.0 ≡ is_there (found_at d m) m.world)
            × (r.0 ≡ true → (r.1.device ≡ m.device) × (m.device ≢ none))
            × (r.0 ≡ false → r.1.device ≡ none)
      go none e = (refl, (λ h. ground arith), λ h. e)
      go (some p) e =
          choose p ((enumerated hid p m).0) (enumerated hid p m).1 e (enumerated-is_there p m)
            (ap (λ t. t.device) (enumerated-shown hid p m))
