-- ===== src/Manager/Connection/Laws.antt =====
-- What the operations of the manager may rely on.
use mathlib.Core.Path.{subst}
use libnitrokey.Prelude.{ℕ, ◌≡◌, ◌≢◌, refl, sym, ap, ◌∙◌, Option, some, none, arith}
use libnitrokey.Prelude.Bytes.{Bytes}
use libnitrokey.Exceptions.{
  Result, ok, err, Exception, Throws, Throws-imp, device_not_connected, then_call-Throws,
  command_failed, long_operation_in_progress, runtime_error, logic_error, pure,
}
use libnitrokey.Device.Hid.{Hid}
use libnitrokey.Device.Model.{DeviceModel}
use libnitrokey.Device.State.{Device, Session}
use libnitrokey.Proto.Transaction.{run}
use libnitrokey.Proto.Transaction.Errors.{IsRunError, run-IsRunError}
use libnitrokey.Commands.Command.{Command, code_of, payload_of}
use libnitrokey.Manager.Interface.{execute}
use libnitrokey.Device.Heap.{find}
use libnitrokey.Manager.State.{Manager, session, on_found, run_at}
use libnitrokey.Manager.Connection.{
  device_link, run_on, model_of_device, found_at, payload_of_result,
}

-- What a call on a device may throw.
abbrev pub IsFailure : Exception → Type 0
IsFailure (command_failed command status) = status ≢ 0
IsFailure (long_operation_in_progress command status progress) = status ≢ 0
IsFailure runtime_error = ⊥
IsFailure logic_error = ⊥
IsFailure _ = Unit

some_injective : (a b : DeviceModel) → some a ≡ some b → a ≡ b
some_injective a b e = cc

module _ {W : Type 0} (hid : Hid W) where
  -- What a run throws, the operation on its object throws.
  thrown_at :
      (P : Exception → Type 0) (d : Option Device) (p : ℕ) (c : Command) (m : Manager W)
      → P device_not_connected
      → ((e : Device) → d ≡ some e → Throws P (run hid (code_of c) (payload_of c) (session m e)))
      → Throws P (
          payload_of_result hid
            (on_found d (err device_not_connected) p (run hid (code_of c) (payload_of c)) m))
  thrown_at P none p c m missing h = missing
  thrown_at P (some e) p c m missing h =
      go (run hid (code_of c) (payload_of c) (session m e)) (h e refl)
    where
      go :
          (r : Result Bytes × Session W)
          → Throws P r
          → Throws P (payload_of_result hid (run_at p m r))
      go (ok resp, s) t = tt
      go (err x, s) t = t

  failure : (model : DeviceModel) (e : Exception) → IsRunError model e → IsFailure e
  failure model e h = ground arith

  -- On a connected device of the model, an operation throws what a run on it throws.
  pub execute-IsRunError :
      (model : DeviceModel) (c : Command) (m : Manager W)
      → (device_link hid).device_model m ≡ some model
      → Throws (IsRunError model) (execute (device_link hid) c m)
  unfolding execute device_link
  execute-IsRunError model c m h =
      then_call-Throws (IsRunError model) (run_on hid (m.device) c m) (λ _. pure tt)
        (go (m.device) h) (λ _ s. tt)
    where
      go :
          (p : Option ℕ)
          → model_of_device (found_at p m) ≡ some model
          → Throws (IsRunError model) (run_on hid p c m)
      go none e = tt
      go (some p) e = thrown_at (IsRunError model) (find p m.heap) p c m tt λ d found.
          subst (λ t. Throws (IsRunError t) (run hid (code_of c) (payload_of c) (session m d)))
            (some_injective (d.model) model (sym (ap model_of_device found) ∙ e))
            (run-IsRunError hid (code_of c) (payload_of c) (session m d))

  pub transact-IsFailure :
      (c : Command) (m : Manager W) → Throws IsFailure ((device_link hid).transact c m)
  unfolding device_link
  transact-IsFailure c m = elim (m.device) as (λ p. Throws IsFailure (run_on hid p c m)) [
    | none ↦ tt
    | some p ↦ thrown_at IsFailure (find p m.heap) p c m tt λ d found.
        Throws-imp (IsRunError (d.model)) IsFailure
          (run hid (code_of c) (payload_of c) (session m d)) (failure (d.model))
          (run-IsRunError hid (code_of c) (payload_of c) (session m d))
  ]

  pub execute-IsFailure :
      (c : Command) (m : Manager W) → Throws IsFailure (execute (device_link hid) c m)
  unfolding execute
  execute-IsFailure c m =
      then_call-Throws IsFailure ((device_link hid).transact c m) (λ _. pure tt)
        (transact-IsFailure c m) (λ _ s. tt)
