-- ===== src/CApi/Infos/Laws.antt =====
-- What a caller finds in a struct that it passed.
use libnitrokey.Prelude.{ℕ, ◌≡◌, ◌≢◌, refl, arith, false, Option, none, some}
use libnitrokey.Prelude.Int.{ℤ, pos}
use libnitrokey.Prelude.Bytes.{Bytes}
use libnitrokey.Exceptions.{Action, Result, ok, err, Throws, then_call, then_call-Throws, pure}
use libnitrokey.Device.Hid.{Hid}
use libnitrokey.Commands.Command.{Command, stick10, stick20}
use libnitrokey.Commands.Stick10.{Stick10}
use libnitrokey.Commands.Stick20.{Stick20}
use libnitrokey.Commands.Responses.{
  stick_status, random_data, device_configuration, production_test,
}
use libnitrokey.Manager.Status.{get_status}
use libnitrokey.Manager.Pins.{get_random_pro}
use libnitrokey.Manager.Storage.{get_status_storage, production_info, get_sd_usage_data}
use libnitrokey.Manager.State.{Manager}
use libnitrokey.Manager.Connection.{device_link}
use libnitrokey.Manager.Connection.Laws.{IsFailure, transact-IsFailure}
use libnitrokey.CApi.Status.{Api, status_of, get_type, handle_status, get_with_status}
use libnitrokey.CApi.Structs.{
  nk_status_of, nk_storage_status_of, nk_sd_usage_data_of, nk_production_of, nk_get_random_of,
}
use libnitrokey.CApi.Infos.{
  unset, fill, written, nk_get_status, nk_get_status_storage, nk_get_storage_production_info,
  nk_get_sd_usage_data, nk_get_random,
}

-- Between the outcome of a call and the answer to the caller: where the call returned, 0 and a struct
-- made of what it returned; where it threw, another number, which is recorded, and no struct.
pub IsFilled : {S P T : Type 0} → (P → T) → Result P × S → Result (ℤ × Option T) × Api S → Type 0
IsFilled f (ok p, s) (ok (code, out), a) =
    (code ≡ pos 0) × (out ≡ some (f p)) × (a ≡ record { manager = s; nk_last_command_status = 0 })
IsFilled f (err e, s) (ok (code, out), a) =
    (code ≡ pos a.nk_last_command_status)
    × (a.nk_last_command_status ≢ 0)
    × (out ≡ none)
    × (a.manager ≡ s)
IsFilled f r (err e, a) = ⊥

written-IsFilled :
    {S P T : Type 0} (f : P → T) (fallback : P) (r : Result P × S)
    → Throws IsFailure r
    → IsFilled f r (written f (handle_status fallback r))
unfolding IsFilled handle_status status_of get_type
written-IsFilled f fallback (ok p, s) h = (refl, refl, refl)
written-IsFilled f fallback (err e, s) h = ground arith

fill-IsFilled :
    {S P T : Type 0} (func : Action S P) (fallback : P) (f : P → T) (a : Api S)
    → Throws IsFailure (func (a.manager))
    → IsFilled f (func (a.manager)) (fill func fallback f false a)
unfolding fill get_with_status
fill-IsFilled func fallback f a h = written-IsFilled f fallback (func (a.manager)) h

module _ {W : Type 0} (hid : Hid W) where
  transacted-IsFailure :
      {A : Type 0} (c : Command) (f : Bytes → A) (m : Manager W)
      → Throws IsFailure (then_call (λ payload. pure (f payload)) ((device_link hid).transact c m))
  transacted-IsFailure c f m =
      then_call-Throws IsFailure ((device_link hid).transact c m) (λ payload. pure (f payload))
        (transact-IsFailure hid c m) (λ _ s. tt)

  -- Over any device, with a struct to fill: where the command is answered, `NK_get_status`,
  -- `NK_get_status_storage`, `NK_get_storage_production_info`, `NK_get_SD_usage_data` and
  -- `NK_get_random` return 0 and the struct made of that answer; where it fails they return the
  -- recorded status, which is not 0, and write nothing. No exception leaves them.
  pub nk_structs-IsFilled :
      (len : ℕ) (a : Api (Manager W))
      → let link = device_link hid in
        IsFilled
          (λ payload. nk_status_of (stick_status payload))
          (get_status link a.manager)
          (nk_get_status link false a)
        × IsFilled
            (λ payload. nk_storage_status_of (device_configuration payload))
            (get_status_storage link a.manager)
            (nk_get_status_storage link false a)
        × IsFilled
            (λ payload. nk_production_of (production_test payload))
            (production_info link a.manager)
            (nk_get_storage_production_info link false a)
        × IsFilled nk_sd_usage_data_of
            (get_sd_usage_data link a.manager)
            (nk_get_sd_usage_data link false a)
        × IsFilled
            (λ payload. nk_get_random_of (random_data payload))
            (get_random_pro link len a.manager)
            (nk_get_random link len false a)
  unfolding nk_get_status nk_get_status_storage nk_get_storage_production_info nk_get_sd_usage_data
      nk_get_random get_status get_status_storage production_info get_sd_usage_data get_random_pro
  nk_structs-IsFilled len a =
      let m = a.manager in
      (
        fill-IsFilled (get_status (device_link hid)) unset _ a
            (transact-IsFailure hid (stick10 Stick10.get_status) m),
        fill-IsFilled (get_status_storage (device_link hid)) unset _ a
            (transact-IsFailure hid (stick20 Stick20.get_device_status) m),
        fill-IsFilled (production_info (device_link hid)) unset _ a
            (transact-IsFailure hid (stick20 Stick20.production_test) m),
        fill-IsFilled (get_sd_usage_data (device_link hid)) (0, 0) nk_sd_usage_data_of a
            (transacted-IsFailure (stick20 Stick20.get_sd_card_occupancy) _ m),
        fill-IsFilled (get_random_pro (device_link hid) len) unset _ a
            (transact-IsFailure hid (stick10 (Stick10.get_random len)) m),
      )
