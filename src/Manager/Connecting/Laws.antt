-- ===== src/Manager/Connecting/Laws.antt =====
-- The ownership of objects through the calls that connect and disconnect by model.
use libnitrokey.Prelude.{
  ℕ, ◌≡◌, List, [], ◌∷◌, Option, none, some, Bool, true, false, if◌then◌else◌, arith,
}
use libnitrokey.Prelude.Int.{ℤ}
use libnitrokey.Prelude.Bytes.{Bytes}
use libnitrokey.Device.Model.{DeviceModel, pro, storage, librem}
use libnitrokey.Device.Hid.{Hid}
use libnitrokey.Device.Link.{connect as connect_handle, could_be_enumerated}
use libnitrokey.Device.Link.Laws.{connect-instances_count, could_be_enumerated-instances_count}
use libnitrokey.Manager.State.{
  Manager, among_locals, make_shared, disconnect_device, release, set_device,
}
use libnitrokey.Manager.State.Laws.{
  IsOwned, on_pointer-IsOwned, update_device-IsOwned, make_shared-IsOwned,
  disconnect_device-IsOwned, release-IsOwned,
}
use libnitrokey.Manager.State.Shown.{shown, on_pointer-shown}
use libnitrokey.Manager.State.Pointers.{IsHeld, set_device-IsOwned}
use libnitrokey.Manager.Connecting.{
  least_delay, model_of_letter, connect_device, enumerated, disconnect_pointer, disconnect,
  connect_each, release_all, connect, connect_new, connect_known, connect_letter, is_connected_at,
  is_connected, could_be_enumerated_at, could_current_device_be_enumerated, set_speed,
  set_current_device_speed, set_default, set_default_commands_delay,
}

module _ {W : Type 0} where
  same_locals :
      (a b : List ℕ) (m : Manager W)
      → ((q : ℕ) → among_locals q a ≡ among_locals q b)
      → IsOwned a m
      → IsOwned b m
  same_locals a b m e h = record {
    below = h.below;
    counted = h.counted;
    referenced = λ q. ground (arith, h.referenced q, e q);
  }

  pub local-IsHeld :
      (d : ℕ) (locals : List ℕ) (m : Manager W)
      → among_locals d locals ≡ true
      → IsHeld locals (some d) m
  unfolding IsHeld
  local-IsHeld d locals m h q e = ground (arith, h)

module _ {W : Type 0} (hid : Hid W) where
  pub connect_device-IsOwned :
      (locals : List ℕ) (p : ℕ) (m : Manager W)
      → IsOwned locals m
      → IsOwned locals (connect_device hid p m).1
  unfolding connect_device
  connect_device-IsOwned locals p m h =
      on_pointer-IsOwned locals false p (connect_handle hid) m (connect-instances_count hid) h

  pub connect_device-shown : (p : ℕ) (m : Manager W) → shown (connect_device hid p m).1 ≡ shown m
  unfolding connect_device
  connect_device-shown p m = on_pointer-shown false p (connect_handle hid) m

  pub enumerated-shown : (p : ℕ) (m : Manager W) → shown (enumerated hid p m).1 ≡ shown m
  unfolding enumerated
  enumerated-shown p m = on_pointer-shown false p (could_be_enumerated hid) m

  enumerated-IsOwned : (p : ℕ) (m : Manager W) → IsOwned [] m → IsOwned [] (enumerated hid p m).1
  unfolding enumerated
  enumerated-IsOwned p m h =
      on_pointer-IsOwned [] false p (could_be_enumerated hid) m
        (could_be_enumerated-instances_count hid) h

  pub disconnect-IsOwned : (m : Manager W) → IsOwned [] m → IsOwned [] (disconnect hid m).1
  unfolding disconnect
  disconnect-IsOwned m h = go m.device
    where
      go : (d : Option ℕ) → IsOwned [] (disconnect_pointer hid d m).1
      go none = h
      go (some p) =
          set_device-IsOwned hid [] none (disconnect_device hid p m).1
            (unfold IsHeld in λ q e. ground arith) (disconnect_device-IsOwned hid [] p m h)

  connect_each-IsOwned :
      (devices rest : List ℕ) (connected : Bool) (m : Manager W)
      → ((q : ℕ) → among_locals q rest ≡ true → among_locals q devices ≡ true)
      → IsOwned devices m
      → IsOwned devices (connect_each hid devices rest connected m).1
  unfolding connect_each among_locals
  connect_each-IsOwned devices [] connected m held h = h
  connect_each-IsOwned devices (d ∷ rest) connected m held h =
      let m1 = (connect_device hid d m).1 in
      let h1 : IsOwned devices m1 = connect_device-IsOwned devices d m h in
      elim ((connect_device hid d m).0)
        as (λ b.
          IsOwned devices
            (if b
              then connect_each hid devices rest true (set_device hid devices (some d) m1)
              else connect_each hid devices rest connected m1).1) [
                | true ↦
                    connect_each-IsOwned devices rest true (set_device hid devices (some d) m1)
                      (λ q e. held q (ground arith))
                      (set_device-IsOwned hid devices (some d) m1
                        (local-IsHeld d devices m1 (held d (ground arith))) h1)
                | false ↦
                    connect_each-IsOwned devices rest connected m1 (λ q e. held q (ground arith)) h1
              ]

  release_all-IsOwned :
      (locals : List ℕ) (m : Manager W) → IsOwned locals m → IsOwned [] (release_all hid locals m)
  unfolding release_all
  release_all-IsOwned [] m h = h
  release_all-IsOwned (p ∷ rest) m h =
      release_all-IsOwned rest (release hid rest p m) (release-IsOwned hid rest p m h)

  pub connect-IsOwned : (m : Manager W) → IsOwned [] m → IsOwned [] (connect hid m).1
  unfolding connect
  connect-IsOwned m h =
      let (p, m1) = make_shared pro m in
      let (s, m2) = make_shared storage m1 in
      let (l, m3) = make_shared librem m2 in
      let devices = p ∷ s ∷ l ∷ [] in
      let three =
        make_shared-IsOwned _ librem m2
          (make_shared-IsOwned _ storage m1 (make_shared-IsOwned [] pro m h)) in
      release_all-IsOwned devices (connect_each hid devices devices false m3).1 (
        connect_each-IsOwned devices devices false m3 (λ q e. e)
          (same_locals (l ∷ s ∷ p ∷ []) devices m3 (λ q. unfold among_locals in ground arith)
            three))

  connect_new-IsOwned :
      (model : DeviceModel) (m : Manager W) → IsOwned [] m → IsOwned [] (connect_new hid model m).1
  connect_new-IsOwned model m h =
      let (p, m1) = make_shared model m in
      let m2 = set_device hid (p ∷ []) (some p) m1 in
      connect_device-IsOwned [] p (release hid [] p m2) (
        release-IsOwned hid [] p m2 (
          set_device-IsOwned hid (p ∷ []) (some p) m1
            (local-IsHeld p (p ∷ []) m1 (unfold among_locals in ground arith))
            (make_shared-IsOwned [] model m h)))

  pub connect_letter-IsOwned :
      (device_model : Bytes) (m : Manager W)
      → IsOwned [] m
      → IsOwned [] (connect_letter hid device_model m).1
  unfolding connect_letter
  connect_letter-IsOwned device_model m h = go (model_of_letter device_model)
    where
      go : (model : Option DeviceModel) → IsOwned [] (connect_known hid model m).1
      go none = h
      go (some model) = connect_new-IsOwned model m h

  pub is_connected-IsOwned : (m : Manager W) → IsOwned [] m → IsOwned [] (is_connected hid m).1
  unfolding is_connected
  is_connected-IsOwned m h = go m.device
    where
      go : (d : Option ℕ) → IsOwned [] (is_connected_at hid d m).1
      go none = h
      go (some p) = choose ((enumerated hid p m).0)
        where
          choose :
              (there : Bool)
              → let res : Bool × Manager W =
                  if there
                  then (true, (enumerated hid p m).1)
                  else (false, (disconnect hid (enumerated hid p m).1).1) in
                IsOwned [] (res.1)
          choose true = enumerated-IsOwned p m h
          choose false = disconnect-IsOwned (enumerated hid p m).1 (enumerated-IsOwned p m h)

  pub could_current_device_be_enumerated-IsOwned :
      (m : Manager W) → IsOwned [] m → IsOwned [] (could_current_device_be_enumerated hid m).1
  unfolding could_current_device_be_enumerated
  could_current_device_be_enumerated-IsOwned m h = go m.device
    where
      go : (d : Option ℕ) → IsOwned [] (could_be_enumerated_at hid d m).1
      go none = h
      go (some p) = enumerated-IsOwned p m h

module _ {W : Type 0} where
  pub set_current_device_speed-IsOwned :
      (retry_delay send_receive_delay : ℤ) (m : Manager W)
      → IsOwned [] m
      → IsOwned [] (set_current_device_speed retry_delay send_receive_delay m).1
  unfolding set_current_device_speed
  set_current_device_speed-IsOwned retry_delay send_receive_delay m h =
      go (least_delay retry_delay) (least_delay send_receive_delay) m.device
    where
      go : (a b d : Option ℕ) → IsOwned [] (set_speed a b d m).1
      go none b d = h
      go (some a) none d = h
      go (some a) (some b) none = h
      go (some a) (some b) (some p) = update_device-IsOwned [] p _ m h

  pub set_default_commands_delay-IsOwned :
      (delay : ℤ) (m : Manager W) → IsOwned [] m → IsOwned [] (set_default_commands_delay delay m).1
  unfolding set_default_commands_delay
  set_default_commands_delay-IsOwned delay m h = go (least_delay delay)
    where
      go : (a : Option ℕ) → IsOwned [] (set_default a m).1
      go none = h
      go (some a) = record { below = h.below; counted = h.counted; referenced = h.referenced }
