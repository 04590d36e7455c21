-- ===== src/Manager/ById/Connected.antt =====
-- The ownership of objects through `connect_with_ID` and `connect_with_path`.
use libnitrokey.Prelude.{
  ℕ, ◌≡◌, refl, List, [], ◌∷◌, Option, none, some, Bool, true, false, if◌then◌else◌, arith,
}
use libnitrokey.Prelude.Bytes.{Bytes}
use libnitrokey.Exceptions.{Result, ok, err}
use libnitrokey.Device.Model.{DeviceModel, nitrokey_vid, purism_vid}
use libnitrokey.Device.Hid.{Hid}
use libnitrokey.Device.State.{set_path}
use libnitrokey.Commands.Command.{stick10}
use libnitrokey.Commands.Stick10.{Stick10}
use libnitrokey.Manager.Status.{get_status}
use libnitrokey.Manager.State.{
  Manager, at_key, points_to, among, among_locals, make_shared, update_device, disconnect_device,
  set_device, set_by_id,
}
use libnitrokey.Manager.State.Laws.{IsOwned, disconnect_device-IsOwned, release-IsOwned}
use libnitrokey.Manager.State.Pointers.{
  IsHeld, set_device-IsOwned, set_by_id-IsOwned, erase_by_id-IsOwned,
}
use libnitrokey.Manager.Connecting.{connect_device}
use libnitrokey.Manager.Connecting.Laws.{local-IsHeld}
use libnitrokey.Manager.ById.{
  is_communication, disconnect_local, locals_of, drop_entry, validated, leave_local, connect_entry,
  connect_with_id, try_path, try_vendor, try_vendors, connect_with_path,
}
use libnitrokey.Manager.ById.Laws.{transact-IsOwned, opened_at-IsOwned, at_world}

module _ {W : Type 0} (hid : Hid W) where
  drop_entry-IsOwned :
      (d : Option ℕ) (id : Bytes) (m : Manager W)
      → IsOwned (locals_of hid d) m
      → IsOwned (locals_of hid d) (drop_entry hid d id m)
  unfolding drop_entry
  drop_entry-IsOwned d id m h =
      let m1 = record (disconnect_local hid d m) { current_device_id = [] } in
      let m2 = set_by_id hid (locals_of hid d) id none m1 in
      erase_by_id-IsOwned hid (locals_of hid d) id m2
        (set_by_id-IsOwned hid (locals_of hid d) id none m1 (λ q e. ground arith) (go d h))
    where
      unnamed :
          (locals : List ℕ) (t : Manager W)
          → IsOwned locals t
          → IsOwned locals (record t { current_device_id = [] })
      unnamed locals t k = record {
        below = k.below;
        counted = k.counted;
        referenced = k.referenced;
      }

      go :
          (d : Option ℕ)
          → IsOwned (locals_of hid d) m
          → IsOwned (locals_of hid d) (record (disconnect_local hid d m) { current_device_id = [] })
      go none k = unnamed [] m k
      go (some p) k =
          unnamed (p ∷ []) (disconnect_device hid p m).1
            (disconnect_device-IsOwned hid (p ∷ []) p m k)

  validated-IsOwned :
      (d : Option ℕ) (id : Bytes) (r : Result Bytes × Manager W)
      → IsOwned (locals_of hid d) r.1
      → IsOwned (locals_of hid d) (validated hid d id r).1
  unfolding validated is_communication
  validated-IsOwned d id (ok status, m) h = h
  validated-IsOwned d id (err e, m) h = ground (arith, drop_entry-IsOwned d id m h)

  among-at_key :
      (q : ℕ) (key : Bytes) (d : Option ℕ) (entries : List (Bytes × Option ℕ))
      → at_key key entries ≡ some d
      → points_to q d ≡ true
      → among q entries ≡ true
  unfolding among at_key
  among-at_key q key d [] e h = ground arith
  among-at_key q key d ((k, p) ∷ rest) e h = ground (arith, among-at_key q key d rest)

  -- A local copy of a pointer that is held.
  copied :
      (d : Option ℕ) (m : Manager W)
      → ((q : ℕ) → points_to q d ≡ true → among q m.connected_devices_by_id ≡ true)
      → IsOwned [] m
      → IsOwned (locals_of hid d) m
  unfolding among_locals
  copied none m held h = h
  copied (some p) m held h = record {
    below = h.below;
    counted = h.counted;
    referenced = λ q. ground (arith, h.referenced q, held q);
  }

  leave_local-IsOwned :
      (d : Option ℕ) (r : Result Bool × Manager W)
      → IsOwned (locals_of hid d) r.1
      → IsOwned [] (leave_local hid d r).1
  leave_local-IsOwned none (b, m) h = h
  leave_local-IsOwned (some p) (b, m) h = release-IsOwned hid [] p m h

  connect_entry-IsOwned :
      (d : Option ℕ) (id : Bytes) (m : Manager W)
      → at_key id m.connected_devices_by_id ≡ some d
      → IsOwned [] m
      → IsOwned [] (connect_entry hid (some d) id m).1
  unfolding get_status
  connect_entry-IsOwned d id m e h =
      let held : (q : ℕ) → points_to q d ≡ true → among q m.connected_devices_by_id ≡ true =
        λ q. among-at_key q id d m.connected_devices_by_id e in
      let k : IsOwned (locals_of hid d) (set_device hid (locals_of hid d) d m) =
        set_device-IsOwned hid (locals_of hid d) d m
          (unfold IsHeld in λ q p. ground (arith, held q p)) (copied d m held h) in
      let m1 = record (set_device hid (locals_of hid d) d m) { current_device_id = id } in
      let named : IsOwned (locals_of hid d) m1 = record {
        below = k.below;
        counted = k.counted;
        referenced = k.referenced;
      } in
      leave_local-IsOwned d _ (
        validated-IsOwned d id _
          (transact-IsOwned hid (locals_of hid d) (stick10 Stick10.get_status) m1 named))

  pub connect_with_id-IsOwned :
      (id : Bytes) (m : Manager W) → IsOwned [] m → IsOwned [] (connect_with_id hid id m).1
  unfolding connect_with_id
  connect_with_id-IsOwned id m h = go (at_key id m.connected_devices_by_id) refl
    where
      go :
          (d : Option (Option ℕ))
          → at_key id m.connected_devices_by_id ≡ d
          → IsOwned [] (connect_entry hid d id m).1
      go none e = h
      go (some d) e = connect_entry-IsOwned d id m e h

  try_path-IsOwned :
      (model : Option DeviceModel) (path : Bytes) (m : Manager W)
      → IsOwned [] m
      → IsOwned [] (try_path hid model path m).1
  try_path-IsOwned none path m h = h
  try_path-IsOwned (some model) path m h =
      let (p, m1) = make_shared model m in
      let (opened, m2) = connect_device hid p (update_device p (set_path path) m1) in
      release-IsOwned hid [] p _ (choose p m2 opened (opened_at-IsOwned hid model path m h))
    where
      choose :
          (p : ℕ) (t : Manager W) (opened : Bool)
          → IsOwned (p ∷ []) t
          → IsOwned (p ∷ []) (
              if opened
              then record (set_device hid (p ∷ []) (some p) t) { current_device_id = path }
              else t)
      choose p t true k =
          let k' : IsOwned (p ∷ []) (set_device hid (p ∷ []) (some p) t) =
            set_device-IsOwned hid (p ∷ []) (some p) t
              (local-IsHeld p (p ∷ []) t (unfold among_locals in ground arith)) k in
          record { below = k'.below; counted = k'.counted; referenced = k'.referenced }
      choose p t false k = k

  try_vendors-IsOwned :
      (vendors : List ℕ) (path : Bytes) (m : Manager W)
      → IsOwned [] m
      → IsOwned [] (try_vendors hid vendors path m).1
  unfolding try_vendors
  try_vendors-IsOwned [] path m h = h
  try_vendors-IsOwned (vendor_id ∷ rest) path m h =
      let k : IsOwned [] (try_vendor hid vendor_id path m).1 =
        try_path-IsOwned _ path _ (at_world hid _ m h) in
      choose ((try_vendor hid vendor_id path m).0) (try_vendor hid vendor_id path m).1
        (λ t. try_vendors-IsOwned rest path t) k
    where
      choose :
          (done : Bool) (t : Manager W)
          → ((t : Manager W) → IsOwned [] t → IsOwned [] (try_vendors hid rest path t).1)
          → IsOwned [] t
          → let res : Bool × Manager W = if done then (true, t) else try_vendors hid rest path t in
            IsOwned [] (res.1)
      choose true t later k = k
      choose false t later k = later t k

  pub connect_with_path-IsOwned :
      (path : Bytes) (m : Manager W) → IsOwned [] m → IsOwned [] (connect_with_path hid path m).1
  unfolding connect_with_path
  connect_with_path-IsOwned path m h = try_vendors-IsOwned (nitrokey_vid ∷ purism_vid ∷ []) path m h
