-- ===== src/CApi/Status.antt =====
-- `NK_last_command_status`, and the templates of NK_C_API.cc that run a call and catch what it
-- throws. A number that is returned is a `uint8_t` or an `int` of the same value.
pub mod Laws
use libnitrokey.Prelude.{ℕ, ◌-◌, Option, none, some, Bool, true, false, [], if◌then◌else◌}
use libnitrokey.Prelude.Bytes.{Bytes}
use libnitrokey.Exceptions.{
  Action, Result, ok, err, Exception, target_buffer_smaller_than_source, too_long_string,
  invalid_hex_string, invalid_slot, command_failed, long_operation_in_progress,
  device_not_connected, device_sending_failure, device_receiving_failure, invalid_crc_received,
  runtime_error, logic_error,
}

-- The state of the manager, and the static variable.
pub record Api (S : Type 0) : Type 0 where
  pub manager : S
  pub nk_last_command_status : ℕ

-- `DeviceCommunicationException::getType`: it is not virtual, and the handlers catch the base class.
unfoldable pub get_type : ℕ
get_type = 1

-- What the handlers assign; none where no handler applies. `LongOperationInProgressException` is a
-- `CommandFailedException`.
unfoldable pub status_of : Exception → Option ℕ
status_of (command_failed command status) = some status
status_of (long_operation_in_progress command status progress) = some status
status_of (target_buffer_smaller_than_source source target) = some 203
status_of (invalid_hex_string character) = some 202
status_of (invalid_slot slot) = some 201
status_of (too_long_string source target) = some 200
status_of device_not_connected = some (256 - get_type)
status_of (device_sending_failure sent) = some (256 - get_type)
status_of device_receiving_failure = some (256 - get_type)
status_of invalid_crc_received = some (256 - get_type)
status_of runtime_error = none
status_of logic_error = none

module _ {S : Type 0} where
  abbrev api : S → ℕ → Api S
  api s status = record { manager = s; nk_last_command_status = status }

  abbrev caught : {R : Type 0} → (ℕ → R) → Exception → Option ℕ → S → Result R × Api S
  caught f e (some status) s = (ok (f status), api s status)
  caught f e none s = (err e, api s 0)

  unfoldable pub handle_status : {R : Type 0} → R → Result R × S → Result (ℕ × R) × Api S
  handle_status fallback (ok r, s) = (ok (0, r), api s 0)
  handle_status fallback (err e, s) = caught (λ status. (status, fallback)) e (status_of e) s

  unfoldable pub get_with_status : {R : Type 0} → Action S R → R → Action (Api S) (ℕ × R)
  get_with_status func fallback a = handle_status fallback (func a.manager)

  -- `InvalidCRCReceived` is caught without any effect.
  pub handle_no_result : {R : Type 0} → Result R × S → Result ℕ × Api S
  handle_no_result (ok r, s) = (ok 0, api s 0)
  handle_no_result (err invalid_crc_received, s) = (ok 0, api s 0)
  handle_no_result (err e, s) = caught (λ status. status) e (status_of e) s

  pub get_without_result : {R : Type 0} → Action S R → Action (Api S) ℕ
  get_without_result func a = handle_no_result (func a.manager)

  abbrev second : {R : Type 0} → Result (ℕ × R) × Api S → Result R × Api S
  second (ok (status, r), a) = (ok r, a)
  second (err e, a) = (err e, a)

  -- `get_with_result`, for a result whose zero is given
  pub get_with_result : {R : Type 0} → Action S R → R → Action (Api S) R
  get_with_result func zero a = second (get_with_status func zero a)

  abbrev non_null : Result (Option Bytes) × Api S → Result Bytes × Api S
  non_null (ok none, a) = (ok [], a)
  non_null (ok (some text), a) = (ok text, a)
  non_null (err e, a) = (err e, a)

  abbrev not_null : Result Bytes × S → Result (Option Bytes) × S
  not_null (ok text, s) = (ok (some text), s)
  not_null (err e, s) = (err e, s)

  -- A null pointer becomes the empty string.
  unfoldable pub get_with_string_result : Action S Bytes → Action (Api S) Bytes
  get_with_string_result func a =
      non_null (second (get_with_status (λ s. not_null (func s)) none a))

  -- `NK_get_last_command_status`
  pub nk_get_last_command_status : Action (Api S) ℕ
  nk_get_last_command_status a = (ok (a.nk_last_command_status), api a.manager 0)
