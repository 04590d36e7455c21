-- ===== src/Manager/Ownership.antt =====
-- Every sequence of the calls that connect, disconnect, list or command devices, from the start.
use libnitrokey.Prelude.{refl, [], none}
use libnitrokey.Prelude.Int.{ℤ}
use libnitrokey.Prelude.Bytes.{Bytes}
use libnitrokey.Device.Hid.{Hid}
use libnitrokey.Device.Heap.{find}
use libnitrokey.Commands.Command.{Command}
use libnitrokey.Manager.State.{Manager, among, among_locals}
use libnitrokey.Manager.State.Laws.{IsOwned}
use libnitrokey.Manager.Connecting.{
  disconnect, connect, connect_letter, is_connected, could_current_device_be_enumerated,
  set_current_device_speed, set_default_commands_delay,
}
use libnitrokey.Manager.Connecting.Laws.{
  disconnect-IsOwned, connect-IsOwned, connect_letter-IsOwned, is_connected-IsOwned,
  could_current_device_be_enumerated-IsOwned, set_current_device_speed-IsOwned,
  set_default_commands_delay-IsOwned,
}
use libnitrokey.Manager.Connection.{device_link}
use libnitrokey.Manager.ById.{list_devices_by_cpu_id, connect_with_id, connect_with_path}
use libnitrokey.Manager.ById.Laws.{transact-IsOwned, list_devices_by_cpu_id-IsOwned}
use libnitrokey.Manager.ById.Connected.{connect_with_id-IsOwned, connect_with_path-IsOwned}

-- The constructor `NitrokeyManager()` leaves the pointer null and the maps empty.
abbrev pub new_manager : {W : Type 0} → W → Manager W
new_manager w = record {
  heap = [];
  next = 0;
  device = none;
  connected_devices_by_id = [];
  current_device_id = [];
  default_delay = 0;
  instances_count = 0;
  world = w;
}

-- The calls of a client; the mutex of the manager makes each of them one step.
pub data Call : Type 0 where
  disconnects connects asks_connected asks_enumerated lists_by_cpu_id : Call
  connects_letter : Bytes → Call
  connects_with_id : Bytes → Call
  connects_with_path : Bytes → Call
  sets_speed : ℤ → ℤ → Call
  sets_default_delay : ℤ → Call
  transacts : Command → Call

module _ {W : Type 0} (hid : Hid W) where
  -- The state that a call leaves, whether it returns or throws.
  unfoldable pub after : Call → Manager W → Manager W
  after disconnects m = (disconnect hid m).1
  after connects m = (connect hid m).1
  after asks_connected m = (is_connected hid m).1
  after asks_enumerated m = (could_current_device_be_enumerated hid m).1
  after lists_by_cpu_id m = (list_devices_by_cpu_id hid m).1
  after (connects_letter device_model) m = (connect_letter hid device_model m).1
  after (connects_with_id id) m = (connect_with_id hid id m).1
  after (connects_with_path path) m = (connect_with_path hid path m).1
  after (sets_speed retry_delay send_receive_delay) m =
      (set_current_device_speed retry_delay send_receive_delay m).1
  after (sets_default_delay delay) m = (set_default_commands_delay delay m).1
  after (transacts c) m = ((device_link hid).transact c m).1

  pub data IsReachable : Manager W → Type 0 where
    started : (w : W) → IsReachable (new_manager w)
    called : {m : Manager W} (c : Call) → IsReachable m → IsReachable (after c m)

  after-IsOwned : (c : Call) (m : Manager W) → IsOwned [] m → IsOwned [] (after c m)
  unfolding after
  after-IsOwned disconnects m h = disconnect-IsOwned hid m h
  after-IsOwned connects m h = connect-IsOwned hid m h
  after-IsOwned asks_connected m h = is_connected-IsOwned hid m h
  after-IsOwned asks_enumerated m h = could_current_device_be_enumerated-IsOwned hid m h
  after-IsOwned lists_by_cpu_id m h = list_devices_by_cpu_id-IsOwned hid m h
  after-IsOwned (connects_letter device_model) m h = connect_letter-IsOwned hid device_model m h
  after-IsOwned (connects_with_id id) m h = connect_with_id-IsOwned hid id m h
  after-IsOwned (connects_with_path path) m h = connect_with_path-IsOwned hid path m h
  after-IsOwned (sets_speed r s) m h = set_current_device_speed-IsOwned r s m h
  after-IsOwned (sets_default_delay delay) m h = set_default_commands_delay-IsOwned delay m h
  after-IsOwned (transacts c) m h = transact-IsOwned hid [] c m h

  -- In every state that calls can reach from a new manager, whatever hidapi does, there is an object
  -- at an address exactly when `device` or an entry of the map points to it, no two objects have the
  -- same address, and `instances_count` is the number of the objects.
  pub IsReachable-IsOwned : {m : Manager W} → IsReachable m → IsOwned [] m
  unfolding among among_locals find
  IsReachable-IsOwned (started w) = record { below = tt; counted = refl; referenced = λ p. refl }
  IsReachable-IsOwned (called {m} c r) = after-IsOwned c m (IsReachable-IsOwned r)
