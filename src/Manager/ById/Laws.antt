-- ===== src/Manager/ById/Laws.antt =====
-- The ownership of objects through commands and the listing of the devices.
use libnitrokey.Prelude.{ℕ, ◌≡◌, List, [], ◌∷◌, Option, none, some, Bool, true, false, arith}
use libnitrokey.Prelude.Bytes.{Bytes}
use libnitrokey.Exceptions.{Action, Result, ok, err, then_call-state}
use libnitrokey.Device.Model.{DeviceModel, pro, storage, librem}
use libnitrokey.Device.Hid.{Hid}
use libnitrokey.Device.State.{set_path}
use libnitrokey.Device.Heap.{find}
use libnitrokey.Device.Enumeration.{DeviceInfo}
use libnitrokey.Proto.Transaction.{run}
use libnitrokey.Proto.Transaction.Counted.{run-instances_count}
use libnitrokey.Commands.Command.{Command, code_of, payload_of, stick20}
use libnitrokey.Commands.Stick20.{Stick20}
use libnitrokey.Manager.Storage.{get_status_storage}
use libnitrokey.Manager.State.{
  Manager, among_locals, make_shared, update_device, disconnect_device, set_device,
}
use libnitrokey.Manager.State.Laws.{
  IsOwned, on_found-IsOwned, update_device-IsOwned, make_shared-IsOwned, disconnect_device-IsOwned,
  release-IsOwned,
}
use libnitrokey.Manager.State.Pointers.{set_device-IsOwned, set_by_id-IsOwned, clear_by_id-IsOwned}
use libnitrokey.Manager.Connecting.{connect_device, disconnect}
use libnitrokey.Manager.Connecting.Laws.{connect_device-IsOwned, disconnect-IsOwned, local-IsHeld}
use libnitrokey.Manager.Connection.{device_link, run_on, payload_of_result}
use libnitrokey.Manager.ById.{
  id_of, forgive, disconnect_all, register, discover, if_opened, examine, examine_model,
  examine_each, enumerate_devices, forget_devices, list_devices_by_cpu_id,
}

module _ {W : Type 0} (hid : Hid W) where
  pub transact-IsOwned :
      (locals : List ℕ) (c : Command) (m : Manager W)
      → IsOwned locals m
      → IsOwned locals ((device_link hid).transact c m).1
  unfolding device_link
  transact-IsOwned locals c m h = go m.device
    where
      keep :
          (r : Result Bytes × Manager W)
          → IsOwned locals r.1
          → IsOwned locals (payload_of_result hid r).1
      keep (ok resp, m') k = k
      keep (err e, m') k = k

      go : (d : Option ℕ) → IsOwned locals (run_on hid d c m).1
      go none = h
      go (some p) = keep _ (
          on_found-IsOwned locals _ (find p m.heap) p (run hid (code_of c) (payload_of c)) m
            (run-instances_count hid (code_of c) (payload_of c)) h)

  id_of-IsOwned :
      (locals : List ℕ) (path : Bytes) (r : Result Bytes × Manager W)
      → IsOwned locals r.1
      → IsOwned locals (id_of path r).1
  unfolding id_of
  id_of-IsOwned locals path r h = ground arith

  forgive-IsOwned :
      {A : Type 0} (locals : List ℕ) (res : A) (r : Result A × Manager W)
      → IsOwned locals r.1
      → IsOwned locals (forgive res r).1
  unfolding forgive
  forgive-IsOwned locals res (ok a, m) h = h
  forgive-IsOwned locals res (err e, m) h = ground arith

  disconnect_all-IsOwned :
      (entries : List (Bytes × Option ℕ)) (m : Manager W)
      → IsOwned [] m
      → IsOwned [] (disconnect_all hid entries m)
  unfolding disconnect_all
  disconnect_all-IsOwned [] m h = h
  disconnect_all-IsOwned ((id, none) ∷ rest) m h = disconnect_all-IsOwned rest m h
  disconnect_all-IsOwned ((id, some p) ∷ rest) m h =
      disconnect_all-IsOwned rest (disconnect_device hid p m).1
        (disconnect_device-IsOwned hid [] p m h)

  -- `d` is the local variable that holds the device.
  discover-IsOwned :
      (d : ℕ) (path : Bytes) (res : List Bytes) (m : Manager W)
      → IsOwned (d ∷ []) m
      → IsOwned (d ∷ []) (discover hid d path res m).1
  unfolding discover register get_status_storage
  discover-IsOwned d path res m h =
      let m1 = set_device hid (d ∷ []) (some d) m in
      let r = id_of path ((device_link hid).transact (stick20 Stick20.get_device_status) m1) in
      let local : among_locals d (d ∷ []) ≡ true = unfold among_locals in ground arith in
      let k : IsOwned (d ∷ []) r.1 = id_of-IsOwned (d ∷ []) path _ (
        transact-IsOwned (d ∷ []) _ m1
          (set_device-IsOwned hid (d ∷ []) (some d) m (local-IsHeld d (d ∷ []) m local) h)) in
      then_call-state (λ t. IsOwned (d ∷ []) t) r (register hid d res) k
        λ id. set_by_id-IsOwned hid (d ∷ []) id (some d) r.1 (λ q e. ground (arith, local)) k

  if_opened-IsOwned :
      (d : ℕ) (opened : Bool) (k : Action (Manager W) (List Bytes)) (res : List Bytes)
      (m : Manager W)
      → IsOwned (d ∷ []) m
      → IsOwned (d ∷ []) (k m).1
      → IsOwned (d ∷ []) (if_opened hid opened k res m).1
  if_opened-IsOwned d true k res m h g = g
  if_opened-IsOwned d false k res m h g = h

  pub opened_at-IsOwned :
      (model : DeviceModel) (path : Bytes) (m : Manager W)
      → IsOwned [] m
      → let (d, m1) = make_shared model m in
        IsOwned (d ∷ []) (connect_device hid d (update_device d (set_path path) m1)).1
  opened_at-IsOwned model path m h =
      let (d, m1) = make_shared model m in
      connect_device-IsOwned hid (d ∷ []) d (update_device d (set_path path) m1)
        (update_device-IsOwned (d ∷ []) d (set_path path) m1 (make_shared-IsOwned [] model m h))

  examine-IsOwned :
      (info : DeviceInfo) (res : List Bytes) (m : Manager W)
      → IsOwned [] m
      → IsOwned [] (examine hid info res m).1
  unfolding examine
  examine-IsOwned info res m h =
      let (d, m1) = make_shared storage m in
      let (opened, m2) = connect_device hid d (update_device d (set_path info.path) m1) in
      let k : IsOwned (d ∷ []) m2 = opened_at-IsOwned storage info.path m h in
      let r = if_opened hid opened (discover hid d info.path res) res m2 in
      release-IsOwned hid [] d (forgive res r).1 (
        forgive-IsOwned (d ∷ []) res r (
          if_opened-IsOwned d opened (discover hid d info.path res) res m2 k
            (discover-IsOwned d info.path res m2 k)))

  examine_model-IsOwned :
      (model : DeviceModel) (info : DeviceInfo) (res : List Bytes) (m : Manager W)
      → IsOwned [] m
      → IsOwned [] (examine_model hid model info res m).1
  examine_model-IsOwned pro info res m h = h
  examine_model-IsOwned storage info res m h = examine-IsOwned info res m h
  examine_model-IsOwned librem info res m h = h

  examine_each-IsOwned :
      (infos : List DeviceInfo) (res : List Bytes) (m : Manager W)
      → IsOwned [] m
      → IsOwned [] (examine_each hid infos res m).1
  unfolding examine_each
  examine_each-IsOwned [] res m h = h
  examine_each-IsOwned (info ∷ rest) res m h =
      let k : IsOwned [] (examine_model hid info.device_model info res m).1 =
        examine_model-IsOwned info.device_model info res m h in
      then_call-state (λ t. IsOwned [] t) (examine_model hid info.device_model info res m)
        (examine_each hid rest) k (λ found. examine_each-IsOwned rest found _ k)

  forget_devices-IsOwned : (m : Manager W) → IsOwned [] m → IsOwned [] (forget_devices hid m)
  unfolding forget_devices
  forget_devices-IsOwned m h =
      let m1 = (disconnect hid m).1 in
      clear_by_id-IsOwned hid (disconnect_all hid m1.connected_devices_by_id m1)
        (disconnect_all-IsOwned m1.connected_devices_by_id m1 (disconnect-IsOwned hid m h))

  pub at_world : (w : W) (m : Manager W) → IsOwned [] m → IsOwned [] (record m { world = w })
  at_world w m h = record { below = h.below; counted = h.counted; referenced = h.referenced }

  pub list_devices_by_cpu_id-IsOwned :
      (m : Manager W) → IsOwned [] m → IsOwned [] (list_devices_by_cpu_id hid m).1
  unfolding list_devices_by_cpu_id
  list_devices_by_cpu_id-IsOwned m h =
      let m1 = forget_devices hid m in
      let k : IsOwned [] (enumerate_devices hid m1).1 =
        at_world _ m1 (forget_devices-IsOwned m h) in
      then_call-state (λ t. IsOwned [] t) (enumerate_devices hid m1) _ k
        (λ infos. examine_each-IsOwned infos [] _ k)
