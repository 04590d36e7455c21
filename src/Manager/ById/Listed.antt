-- ===== src/Manager/ById/Listed.antt =====
-- The identifiers that `list_devices_by_cpuID` returns.
use libnitrokey.Prelude.{
  ℕ, ◌≡◌, refl, ap, ◌∙◌, List, [], ◌∷◌, ◌++◌, Option, none, some, Bool, true, false, arith,
}
use libnitrokey.Prelude.Bytes.{Bytes, bytes_eq_iff}
use libnitrokey.Exceptions.{Result, ok, err, then_call, Yields}
use libnitrokey.Device.Model.{DeviceModel, pro, storage, librem}
use libnitrokey.Device.Hid.{Hid}
use libnitrokey.Device.State.{set_path}
use libnitrokey.Device.Enumeration.{DeviceInfo}
use libnitrokey.Commands.Command.{stick20}
use libnitrokey.Commands.Stick20.{Stick20}
use libnitrokey.Manager.Storage.{get_status_storage}
use libnitrokey.Manager.State.{Manager, at_key, set_key, make_shared, update_device, set_device}
use libnitrokey.Manager.State.Shown.{
  release-shown, update_device-shown, make_shared-shown, set_device-shown, set_by_id-shown,
}
use libnitrokey.Manager.Connecting.{connect_device}
use libnitrokey.Manager.Connecting.Laws.{connect_device-shown}
use libnitrokey.Manager.Connection.{device_link}
use libnitrokey.Manager.ById.{
  id_of, forgive, register, discover, leave, if_opened, examine, examine_model, examine_each,
  enumerate_devices, forget_devices, list_devices_by_cpu_id,
}
use libnitrokey.Manager.ById.Chosen.{transact-shown}

-- An entry of the map with a device.
abbrev pub is_entry : Option (Option ℕ) → Bool
is_entry none = false
is_entry (some none) = false
is_entry (some (some p)) = true

-- Every identifier of a list has an entry.
abbrev pub AreEntries : List Bytes → List (Bytes × Option ℕ) → Type 0
AreEntries [] entries = Unit
AreEntries (id ∷ rest) entries = (is_entry (at_key id entries) ≡ true) × AreEntries rest entries

at_key-set_key :
    (key id : Bytes) (p : ℕ) (entries : List (Bytes × Option ℕ))
    → is_entry (at_key key entries) ≡ true
    → is_entry (at_key key (set_key id (some p) entries)) ≡ true
unfolding at_key set_key
at_key-set_key key id p [] h = ground arith
at_key-set_key key id p ((k, q) ∷ rest) h = ground (arith, at_key-set_key key id p rest)

at_key-set_self :
    (id : Bytes) (p : ℕ) (entries : List (Bytes × Option ℕ))
    → is_entry (at_key id (set_key id (some p) entries)) ≡ true
unfolding at_key set_key
at_key-set_self id p [] = ground (arith, (bytes_eq_iff id id).1 refl)
at_key-set_self id p ((k, q) ∷ rest) = ground (arith, at_key-set_self id p rest)

set_key-AreEntries :
    (ids : List Bytes) (id : Bytes) (p : ℕ) (entries : List (Bytes × Option ℕ))
    → AreEntries ids entries
    → AreEntries (ids ++ (id ∷ [])) (set_key id (some p) entries)
set_key-AreEntries [] id p entries h = (at_key-set_self id p entries, tt)
set_key-AreEntries (x ∷ rest) id p entries h =
    (at_key-set_key x id p entries (h.0), set_key-AreEntries rest id p entries (h.1))

-- What a step of the loop leaves when it is entered with the identifiers `res`.
IsListed : {W : Type 0} → List Bytes → Result (List Bytes) × Manager W → Type 0
IsListed res (ok ids, m) = AreEntries ids m.connected_devices_by_id
IsListed res (err e, m) = AreEntries res m.connected_devices_by_id

module _ {W : Type 0} (hid : Hid W) where
  forgive-IsListed :
      (res : List Bytes) (r : Result (List Bytes) × Manager W)
      → IsListed res r
      → IsListed res (forgive res r)
  unfolding forgive IsListed
  forgive-IsListed res (ok ids, m) h = h
  forgive-IsListed res (err e, m) h = ground arith

  leave-IsListed :
      (d : ℕ) (res : List Bytes) (r : Result (List Bytes) × Manager W)
      → IsListed res r
      → IsListed res (leave hid d r)
  unfolding IsListed
  leave-IsListed d res (ok ids, m) h =
      rw (ap (λ t. t.connected_devices_by_id) (release-shown hid [] d m)) h
  leave-IsListed d res (err e, m) h =
      rw (ap (λ t. t.connected_devices_by_id) (release-shown hid [] d m)) h

  id_of-entries :
      (path : Bytes) (r : Result Bytes × Manager W)
      → (id_of path r).1.connected_devices_by_id ≡ r.1.connected_devices_by_id
  unfolding id_of
  id_of-entries path r = ground arith

  registered-IsListed :
      (d : ℕ) (res : List Bytes) (r : Result Bytes × Manager W)
      → AreEntries res r.1.connected_devices_by_id
      → IsListed res (then_call (register hid d res) r)
  unfolding IsListed register
  registered-IsListed d res (ok id, m) h =
      rw (ap (λ t. t.connected_devices_by_id) (set_by_id-shown hid (d ∷ []) id (some d) m))
        (set_key-AreEntries res id d m.connected_devices_by_id h)
  registered-IsListed d res (err e, m) h = h

  discover-IsListed :
      (d : ℕ) (path : Bytes) (res : List Bytes) (m : Manager W)
      → AreEntries res m.connected_devices_by_id
      → IsListed res (discover hid d path res m)
  unfolding discover get_status_storage
  discover-IsListed d path res m h =
      let m1 = set_device hid (d ∷ []) (some d) m in
      let r = (device_link hid).transact (stick20 Stick20.get_device_status) m1 in
      let e : (id_of path r).1.connected_devices_by_id ≡ m.connected_devices_by_id =
        id_of-entries path r
        ∙ ap (λ t. t.connected_devices_by_id)
            (transact-shown hid (stick20 Stick20.get_device_status) m1)
        ∙ ap (λ t. t.connected_devices_by_id) (set_device-shown hid (d ∷ []) (some d) m) in
      registered-IsListed d res (id_of path r) (rw e h)

  if_opened-IsListed :
      (opened : Bool) (d : ℕ) (path : Bytes) (res : List Bytes) (m : Manager W)
      → AreEntries res m.connected_devices_by_id
      → IsListed res (if_opened hid opened (discover hid d path res) res m)
  if_opened-IsListed true d path res m h = discover-IsListed d path res m h
  if_opened-IsListed false d path res m h = unfold IsListed in h

  opened-entries :
      (d : ℕ) (path : Bytes) (m : Manager W)
      → (connect_device hid d (update_device d (set_path path) m)).1.connected_devices_by_id
        ≡ m.connected_devices_by_id
  opened-entries d path m =
      ap (λ t. t.connected_devices_by_id)
        (connect_device-shown hid d (update_device d (set_path path) m)
          ∙ update_device-shown d (set_path path) m)

  examine-IsListed :
      (info : DeviceInfo) (res : List Bytes) (m : Manager W)
      → AreEntries res m.connected_devices_by_id
      → IsListed res (examine hid info res m)
  unfolding examine
  examine-IsListed info res m h =
      let (d, m1) = make_shared storage m in
      let (opened, m2) = connect_device hid d (update_device d (set_path info.path) m1) in
      leave-IsListed d res _ (
        forgive-IsListed res _ (
          if_opened-IsListed opened d info.path res m2 (
            rw (opened-entries d info.path m1)
              (rw (ap (λ t. t.connected_devices_by_id) (make_shared-shown storage m)) h))))

  examine_model-IsListed :
      (model : DeviceModel) (info : DeviceInfo) (res : List Bytes) (m : Manager W)
      → AreEntries res m.connected_devices_by_id
      → IsListed res (examine_model hid model info res m)
  unfolding IsListed
  examine_model-IsListed pro info res m h = h
  examine_model-IsListed storage info res m h = examine-IsListed info res m h
  examine_model-IsListed librem info res m h = h

  examine_each-Yields :
      (infos : List DeviceInfo) (res : List Bytes) (m : Manager W)
      → AreEntries res m.connected_devices_by_id
      → Yields (λ ids m'. AreEntries ids m'.connected_devices_by_id) (examine_each hid infos res m)
  unfolding examine_each
  examine_each-Yields [] res m h = h
  examine_each-Yields (info ∷ rest) res m h =
      go (examine_model hid info.device_model info res m)
        (examine_model-IsListed info.device_model info res m h)
        (λ ids m'. examine_each-Yields rest ids m')
    where
      go :
          (r : Result (List Bytes) × Manager W)
          → IsListed res r
          → ((ids : List Bytes) (m' : Manager W)
              → AreEntries ids m'.connected_devices_by_id
              → Yields
                  (λ ids m'. AreEntries ids m'.connected_devices_by_id)
                  (examine_each hid rest ids m'))
          → Yields
              (λ ids m'. AreEntries ids m'.connected_devices_by_id)
              (then_call (examine_each hid rest) r)
      go (ok ids, m') k later = later ids m' (unfold IsListed in k)
      go (err e, m') k later = tt

  -- Where `list_devices_by_cpuID` returns, every identifier that it returns has an entry of the map
  -- with a device, so that `connect_with_ID` finds it.
  pub list_devices_by_cpu_id-AreEntries :
      (m : Manager W)
      → Yields (λ ids m'. AreEntries ids m'.connected_devices_by_id) (list_devices_by_cpu_id hid m)
  unfolding list_devices_by_cpu_id
  list_devices_by_cpu_id-AreEntries m = go (enumerate_devices hid (forget_devices hid m))
    where
      go :
          (r : Result (List DeviceInfo) × Manager W)
          → Yields
              (λ ids m'. AreEntries ids m'.connected_devices_by_id)
              (then_call (λ infos. examine_each hid infos []) r)
      go (ok infos, m') = examine_each-Yields infos [] m' tt
      go (err e, m') = tt
