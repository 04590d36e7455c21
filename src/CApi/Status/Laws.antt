-- ===== src/CApi/Status/Laws.antt =====
-- What a C caller learns of a call.
use libnitrokey.Prelude.{ℕ, ◌≡◌, refl, arith}
use libnitrokey.Exceptions.{
  Action, Result, ok, err, Exception, invalid_crc_received, runtime_error, logic_error, Yields,
  Throws,
}
use libnitrokey.Device.Hid.{Hid}
use libnitrokey.Commands.Command.{Command}
use libnitrokey.Manager.Interface.{execute}
use libnitrokey.Manager.State.{Manager}
use libnitrokey.Manager.Connection.{device_link}
use libnitrokey.Manager.Connection.Laws.{IsFailure, execute-IsFailure}
use libnitrokey.CApi.Status.{
  Api, get_type, status_of, get_with_status, get_without_result, handle_status, handle_no_result,
  nk_get_last_command_status,
}

-- A call ended by the exception, or did not.
abbrev pub Threw : {S R : Type 0} → Exception → Result R × S → Type 0
Threw e (ok r, s) = ⊥
Threw e (err e', s) = e' ≡ e

abbrev pub status_and_state : {S R : Type 0} → Result (ℕ × R) × S → Result ℕ × S
status_and_state (ok (status, r), a) = (ok status, a)
status_and_state (err e, a) = (err e, a)

handled :
    {S R : Type 0} (fallback : R) (r : Result R × S)
    → (Threw invalid_crc_received r
        → (handle_no_result r ≡ (ok 0, record { manager = r.1; nk_last_command_status = 0 }))
          × (handle_status fallback r
              ≡ (ok (255, fallback), record { manager = r.1; nk_last_command_status = 255 })))
      × ((Threw invalid_crc_received r → ⊥)
          → handle_no_result r ≡ status_and_state (handle_status fallback r))
unfolding handle_no_result handle_status status_of get_type
handled fallback (ok r, s) = (absurd, λ _. refl)
handled fallback (err invalid_crc_received, s) = ((λ _. (refl, refl)), λ h. absurd (h refl))
handled fallback (err e, s) = ((λ h. ground arith), λ _. ground arith)

-- For every call and every state. After `InvalidCRCReceived`, `get_without_result` returns 0 and
-- records 0, while `get_with_status` gives 255 with the fallback and records 255. After anything else
-- both return the same status, and leave the same state.
pub get_without_result_lem :
    {S R : Type 0} (m : Action S R) (fallback : R) (a : Api S)
    → let r = m (a.manager) in
      (Threw invalid_crc_received r
        → (get_without_result m a ≡ (ok 0, record { manager = r.1; nk_last_command_status = 0 }))
          × (get_with_status m fallback a
              ≡ (ok (255, fallback), record { manager = r.1; nk_last_command_status = 255 })))
      × ((Threw invalid_crc_received r → ⊥)
          → get_without_result m a ≡ status_and_state (get_with_status m fallback a))
unfolding get_without_result get_with_status
get_without_result_lem m fallback a = handled fallback (m (a.manager))

handled_ok : {S R : Type 0} (r : Result R × S) {x : R} → r.0 ≡ ok x → (handle_no_result r).0 ≡ ok 0
unfolding handle_no_result
handled_ok (ok x, s) e = refl
handled_ok (err e', s) e = ground arith

-- A call that returns gives the caller 0.
pub get_without_result-ok :
    {S R : Type 0} (m : Action S R) (a : Api S) {x : R}
    → (m (a.manager)).0 ≡ ok x
    → (get_without_result m a).0 ≡ ok 0
unfolding get_without_result
get_without_result-ok m a e = handled_ok (m (a.manager)) e

recorded :
    {S R : Type 0} (r : Result R × S)
    → Yields
        (λ code a.
          (nk_get_last_command_status a
            ≡ (ok code, record { manager = r.1; nk_last_command_status = 0 })))
        (handle_no_result r)
unfolding handle_no_result nk_get_last_command_status status_of
recorded (ok r, s) = refl
recorded (err invalid_crc_received, s) = refl
recorded (err runtime_error, s) = tt
recorded (err logic_error, s) = tt
recorded (err e, s) = refl

-- When `get_without_result` returns, `NK_get_last_command_status` then gives the same status once and
-- leaves it at 0, and the state of the manager is the one that the call reached.
pub get_without_result-recorded :
    {S R : Type 0} (m : Action S R) (a : Api S)
    → Yields
        (λ code a'.
          nk_get_last_command_status a'
          ≡ (ok code, record { manager = (m a.manager).1; nk_last_command_status = 0 }))
        (get_without_result m a)
unfolding get_without_result
get_without_result-recorded m a = recorded (m (a.manager))

-- The call returned, or its answer was refused as damaged.
abbrev pub ReturnedOrDamaged : {S R : Type 0} → Result R × S → Type 0
ReturnedOrDamaged (ok r, s) = Unit
ReturnedOrDamaged (err e, s) = e ≡ invalid_crc_received

-- A code was returned, and it is 0 exactly then.
abbrev pub IsCode : {S R : Type 0} → Result R × S → Result ℕ × Api S → Type 0
IsCode r (ok code, a) = (code ≡ 0 → ReturnedOrDamaged r) × (ReturnedOrDamaged r → code ≡ 0)
IsCode r (err e, a) = ⊥

handle_no_result-IsCode :
    {S R : Type 0} (r : Result R × S) → Throws IsFailure r → IsCode r (handle_no_result r)
unfolding handle_no_result status_of get_type
handle_no_result-IsCode (ok r, s) h = ((λ _. tt), λ _. refl)
handle_no_result-IsCode (err e, s) h = ground arith

-- For every command, over any device: `get_without_result` returns a code, so no exception leaves it,
-- and the code is 0 exactly when the device confirmed the command or its last answer was refused as
-- damaged.
pub get_without_result-IsCode :
    {W : Type 0} (hid : Hid W) (c : Command) (a : Api (Manager W))
    → IsCode
        (execute (device_link hid) c (a.manager))
        (get_without_result (execute (device_link hid) c) a)
unfolding get_without_result
get_without_result-IsCode hid c a =
    handle_no_result-IsCode (execute (device_link hid) c (a.manager))
      (execute-IsFailure hid c (a.manager))
