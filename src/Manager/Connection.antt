-- ===== src/Manager/Connection.antt =====
-- The manager's device and `CommandTransaction::run` on it, as the interface of the operations.
pub mod Laws
use libnitrokey.Prelude.{ℕ, Option, some, none}
use libnitrokey.Prelude.Bytes.{Bytes}
use libnitrokey.Exceptions.{Action, Result, ok, err, device_not_connected}
use libnitrokey.Device.Model.{DeviceModel}
use libnitrokey.Device.Hid.{Hid}
use libnitrokey.Device.State.{Device, Session}
use libnitrokey.Device.Heap.{find}
use libnitrokey.Proto.Packet.{response_payload}
use libnitrokey.Proto.Transaction.{run}
use libnitrokey.Commands.Command.{Command, code_of, payload_of}
use libnitrokey.Manager.Interface.{Link}
use libnitrokey.Manager.State.{Manager, session, on_found}

abbrev pub model_of_device : Option Device → Option DeviceModel
model_of_device none = none
model_of_device (some d) = some (d.model)

module _ {W : Type 0} where
  abbrev pub found_at : Option ℕ → Manager W → Option Device
  found_at none m = none
  found_at (some p) m = find p m.heap

  -- The object behind `device`.
  abbrev pub current_device : Manager W → Option Device
  current_device m = found_at m.device m

module _ {W : Type 0} (hid : Hid W) where
  abbrev pub payload_of_result : {S : Type 0} → Result Bytes × S → Result Bytes × S
  payload_of_result (ok resp, s) = (ok (response_payload resp), s)
  payload_of_result (err e, s) = (err e, s)

  abbrev pub run_on : Option ℕ → Command → Action (Manager W) Bytes
  run_on none c m = (err device_not_connected, m)
  run_on (some p) c m =
      payload_of_result (
        on_found (find p m.heap) (err device_not_connected) p (run hid (code_of c) (payload_of c))
          m)

  -- `run` throws `DeviceNotConnected` for a null pointer.
  unfoldable pub device_link : Link (Manager W)
  device_link = record {
    device_model = λ m. model_of_device (current_device m);
    transact = λ c m. run_on m.device c m;
  }
