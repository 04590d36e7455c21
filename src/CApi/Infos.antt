-- ===== src/CApi/Infos.antt =====
-- The functions of NK_C_API.cc that write into a struct of the caller, and the ones that return an
-- array, a model or a text of the device. What is written to `out` comes with the returned `int`;
-- `none` is that nothing is.
pub mod Laws
pub mod Counters
use libnitrokey.Prelude.{ℕ, Bool, true, false, Option, none, some, ◌==◌, if◌then◌else◌, replicate}
use libnitrokey.Prelude.Int.{ℤ, pos, negsuc}
use libnitrokey.Prelude.Bytes.{Bytes}
use libnitrokey.Exceptions.{Action, Result, ok, err, pure, ◌>>=◌, device_not_connected}
use libnitrokey.Device.Model.{DeviceModel}
use libnitrokey.Misc.Fields.{CString, strndup}
use libnitrokey.Commands.Command.{stick10}
use libnitrokey.Commands.Stick10.{Stick10}
use libnitrokey.Commands.Responses.{
  stick_status, slot_data, random_data, device_configuration, production_test,
}
use libnitrokey.Manager.Interface.{Link}
use libnitrokey.Manager.Status.{get_status, read_config, get_connected_device_model}
use libnitrokey.Manager.Pins.{get_random_pro}
use libnitrokey.Manager.PasswordSafe.{get_password_safe_slot_status}
use libnitrokey.Manager.Storage.{
  get_status_storage, production_info, get_sd_usage_data, get_progress_bar_value,
}
use libnitrokey.Manager.SlotData.{get_hotp_slot_data, get_serial_number}
use libnitrokey.CApi.Status.{
  Api, get_with_status, get_without_result, get_with_result, get_with_string_result,
}
use libnitrokey.CApi.Structs.{
  NkDeviceModel, nk_disconnected, model_of, NkStatus, nk_status_of, NkStorageStatus,
  nk_storage_status_of, NkSdUsageData, nk_sd_usage_data_of, NkConfig, nk_config_of,
  NkStorageProductionTest, nk_production_of, NkReadSlot, nk_read_slot_of, NkGetRandom,
  nk_get_random_of,
}
use libnitrokey.CApi.Calls.{nk_write_config}

-- A payload that was not assigned to.
abbrev pub unset : Bytes
unset = replicate 60 0

abbrev answer : {P T : Type 0} → (P → T) → ℕ → P → ℤ × Option T
answer f error_code p = if error_code == 0 then (pos 0, some (f p)) else (pos error_code, none)

module _ {S : Type 0} where
  abbrev pub written :
      {P T : Type 0} → (P → T) → Result (ℕ × P) × Api S → Result (ℤ × Option T) × Api S
  written f (ok (error_code, p), a) = (ok (answer f error_code p), a)
  written f (err e, a) = (err e, a)

  -- The common shape: a null pointer is refused, an error is returned, and otherwise `out` is filled.
  unfoldable pub fill :
      {P T : Type 0} → Action S P → P → (P → T) → Bool → Action (Api S) (ℤ × Option T)
  fill func fallback f true a = (ok (negsuc 0, none), a)
  fill func fallback f false a = written f (get_with_status func fallback a)

  abbrev not_null : {P : Type 0} → Result P × S → Result (Option P) × S
  not_null (ok p, s) = (ok (some p), s)
  not_null (err e, s) = (err e, s)

  -- `get_with_array_result`; `none` is a null pointer.
  pub get_with_array_result : Action S Bytes → Action (Api S) (Option Bytes)
  get_with_array_result func = get_with_result (λ s. not_null (func s)) none

  abbrev with_config : Result Bytes × S → Result ℕ × Api S → Result (ℤ × Option NkConfig) × Api S
  with_config (ok v, s) (ok status, a) = (ok (pos status, some (nk_config_of v)), a)
  with_config (err e, s) (ok status, a) = (ok (pos status, none), a)
  with_config r (err e, a) = (err e, a)

  abbrev model_or_disconnected : Result DeviceModel × S → Result NkDeviceModel × S
  model_or_disconnected (ok model, s) = (ok (model_of model), s)
  model_or_disconnected (err device_not_connected, s) = (ok nk_disconnected, s)
  model_or_disconnected (err e, s) = (err e, s)

  abbrev beside_status : {P : Type 0} → ℕ → Result P × S → Result P × Api S
  beside_status status (r, s) = (r, record { manager = s; nk_last_command_status = status })

module _ {S : Type 0} (link : Link S) where
  unfoldable pub nk_get_status : Bool → Action (Api S) (ℤ × Option NkStatus)
  nk_get_status = fill (get_status link) unset (λ payload. nk_status_of (stick_status payload))

  unfoldable pub nk_get_status_storage : Bool → Action (Api S) (ℤ × Option NkStorageStatus)
  nk_get_status_storage =
      fill (get_status_storage link) unset
        (λ payload. nk_storage_status_of (device_configuration payload))

  unfoldable pub nk_get_storage_production_info :
      Bool → Action (Api S) (ℤ × Option NkStorageProductionTest)
  nk_get_storage_production_info =
      fill (production_info link) unset (λ payload. nk_production_of (production_test payload))

  unfoldable pub nk_get_sd_usage_data : Bool → Action (Api S) (ℤ × Option NkSdUsageData)
  nk_get_sd_usage_data = fill (get_sd_usage_data link) (0, 0) nk_sd_usage_data_of

  unfoldable pub nk_get_random : ℕ → Bool → Action (Api S) (ℤ × Option NkGetRandom)
  nk_get_random len =
      fill (get_random_pro link len) unset (λ payload. nk_get_random_of (random_data payload))

  unfoldable pub nk_read_hotp_slot :
      (Bytes → Option ℕ) → ℕ → Bool → Action (Api S) (ℤ × Option NkReadSlot)
  nk_read_hotp_slot stoull slot_num =
      fill (get_hotp_slot_data link stoull slot_num) (slot_data unset) nk_read_slot_of

  pub nk_read_config : Action (Api S) (Option Bytes)
  nk_read_config = get_with_array_result (read_config link)

  pub nk_get_password_safe_slot_status : Action (Api S) (Option Bytes)
  nk_get_password_safe_slot_status = get_with_array_result (get_password_safe_slot_status link)

  -- The closure assigns to `out` behind the call that may throw.
  pub nk_read_config_struct : Bool → Action (Api S) (ℤ × Option NkConfig)
  nk_read_config_struct true a = (ok (negsuc 0, none), a)
  nk_read_config_struct false a =
      with_config (read_config link a.manager) (get_without_result (read_config link) a)

  pub nk_write_config_struct : NkConfig → CString → Action (Api S) ℕ
  nk_write_config_struct config admin_temporary_password =
      nk_write_config link config.numlock config.capslock config.scrolllock
        config.enable_user_password config.disable_user_password admin_temporary_password

  -- `NK_last_command_status` stays as it is.
  pub nk_get_device_model : Action (Api S) NkDeviceModel
  nk_get_device_model a =
      beside_status (a.nk_last_command_status)
        (model_or_disconnected (get_connected_device_model link a.manager))

  pub nk_device_serial_number : Action (Api S) Bytes
  nk_device_serial_number =
      get_with_string_result (do s ← get_serial_number link; pure (strndup 100 s))

  abbrev value : Result (ℕ × ℤ) × Api S → Result ℤ × Api S
  value (ok (status, n), a) = (ok n, a)
  value (err e, a) = (err e, a)

  pub nk_get_progress_bar_value : Action (Api S) ℤ
  nk_get_progress_bar_value a = value (get_with_status (get_progress_bar_value link) (negsuc 1) a)

-- `NK_totp_get_time` asks no device.
pub nk_totp_get_time : ℕ
nk_totp_get_time = 0
