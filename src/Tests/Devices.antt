-- ===== src/Tests/Devices.antt =====
-- Runs on a simulated device: the world is the list of the answers that are still to come.
use libnitrokey.Prelude.{
  ℕ, ◌≤◌, ◌+◌, ◌*◌, ◌≡◌, refl, true, false, some, List, [], ◌∷◌, ◌++◌, replicate,
}
use libnitrokey.Prelude.Int.{ℤ, pos}
use libnitrokey.Prelude.Bytes.{Bytes}
use libnitrokey.Exceptions.{Yields, Throws, ok}
use libnitrokey.Device.Model.{pro, storage}
use libnitrokey.Device.Hid.{Hid}
use libnitrokey.Device.Heap.{find}
use libnitrokey.Device.State.{Device, Session, create, init_device, set_default_delay}
use libnitrokey.Device.Link.{send, recv}
use libnitrokey.Device.Link.Laws.{settled, link-settled}
use libnitrokey.Proto.Transaction.{run}
use libnitrokey.Proto.Transaction.Receiving.{model_of}
use libnitrokey.Proto.Transaction.Outcome.{IsSuccess, run-IsSuccess}
use libnitrokey.Proto.Transaction.Errors.{IsRunError, run-IsRunError}
use libnitrokey.Proto.Transaction.Reasons.{HasOneReason, run-HasOneReason}
use libnitrokey.Proto.Packet.{response_payload, is_valid_response}
use libnitrokey.Proto.Transaction.Success.{AnswersAtOnce, run-ok}
use libnitrokey.Proto.Transaction.Bounds.{received, run-received}
use libnitrokey.Device.Link.Asked.{counting, asked}
use libnitrokey.Proto.Transaction.Asked.{run-asked}
use libnitrokey.Commands.Command.{stick20}
use libnitrokey.Commands.Stick20.{Stick20}
use libnitrokey.Manager.Interface.{execute}
use libnitrokey.Manager.State.{Manager}
use libnitrokey.Manager.Connection.{device_link}
use libnitrokey.Manager.Storage.{is_smartcard_in_use}
use libnitrokey.Manager.Storage.Laws.{FailedOutside, is_smartcard_in_use-FailedOutside}
use libnitrokey.Misc.Stream.{str}
use libnitrokey.Commands.Responses.{stick_status}
use libnitrokey.Commands.Dissect.Responses.{dissect_get_status}
use libnitrokey.CApi.Structs.{nk_status_of}
use libnitrokey.CApi.Infos.{nk_get_status}
use libnitrokey.CApi.Texts.{nk_get_status_as_string}
use libnitrokey.CApi.Answered.{IsOpen, IsConfirming, nk-answered}
use libnitrokey.CApi.Status.{Api, get_without_result}
use libnitrokey.CApi.Status.Laws.{IsCode, get_without_result-IsCode}

abbrev pub World : Type 0
World = List Bytes

abbrev next_answer : World → Bytes → ℤ × Bytes × World
next_answer [] buffer = (pos 0, buffer, [])
next_answer (answer ∷ answers) buffer = (pos 65, answer, answers)

abbrev pub simulated : Hid World
simulated = record {
  hid_open = λ vid pid w. (some 1, w);
  hid_open_path = λ path w. (some 1, w);
  hid_close = λ handle w. w;
  hid_exit = λ w. w;
  hid_send_feature_report = λ handle packet w. (pos 65, w);
  hid_get_feature_report = λ handle buffer w. next_answer w buffer;
  hid_enumerate = λ vid pid w. ([], w);
  to_bytes = λ wide. some wide;
  sleep_for = λ ms w. w;
}

-- An answer without errors, with a checksum field.
abbrev pub good_answer : Bytes
good_answer = replicate 61 0 ++ (1 ∷ 2 ∷ 3 ∷ 4 ∷ [])

-- A Pro with an open handle, whose first answer is good.
abbrev pro_session : Session World
pro_session = record {
  device = record (create 0 pro) { handle = some 1 };
  world = good_answer ∷ [];
  instances_count = 1;
}

-- The manager with a Storage that is not open, and with one that is.
abbrev pub storage_manager : Manager World
storage_manager = record {
  heap = (0, create 0 storage) ∷ [];
  next = 1;
  device = some 0;
  connected_devices_by_id = [];
  current_device_id = [];
  default_delay = 0;
  instances_count = 1;
  world = good_answer ∷ [];
}

abbrev pub open_storage_manager : Manager World
open_storage_manager = record storage_manager {
  heap = (0, record (create 0 storage) { handle = some 1 }) ∷ [];
}

run-IsSuccess_example : Yields (λ resp s'. IsSuccess resp) (run simulated 0 [] pro_session)
run-IsSuccess_example = run-IsSuccess simulated 0 [] pro_session

-- A Storage that answers one of its own commands with a wrong password.
abbrev refusing_session : Session World
refusing_session = record {
  device = record (create 0 storage) { handle = some 1 };
  world = ((0 ∷ 0 ∷ 0x30 ∷ replicate 20 0) ++ (3 ∷ replicate 37 0) ++ (1 ∷ 2 ∷ 3 ∷ 4 ∷ [])) ∷ [];
  instances_count = 1;
}

run-IsRunError_example :
    Throws (IsRunError (model_of refusing_session)) (run simulated 0x30 [] refusing_session)
run-IsRunError_example = run-IsRunError simulated 0x30 [] refusing_session

run-HasOneReason_example : Throws HasOneReason (run simulated 0x30 [] refusing_session)
unfolding create
run-HasOneReason_example = run-HasOneReason simulated 0x30 [] refusing_session refl

-- A device that always gives the same answer.
abbrev prompt : Hid World
prompt = record simulated { hid_get_feature_report = λ handle buffer w. (pos 65, good_answer, w) }

prompt-AnswersAtOnce : AnswersAtOnce prompt 1 64 good_answer
prompt-AnswersAtOnce = record {
  sends = λ packet w. refl;
  receives = λ buffer w. refl;
  answers = λ buffer w. refl;
}

good_answer_valid : is_valid_response good_answer ≡ true
unfolding is_valid_response
good_answer_valid = refl

run-ok_example : (run prompt 0 [] pro_session).0 ≡ ok good_answer
unfolding create init_device set_default_delay
run-ok_example =
    run-ok prompt 64 1 0 13 good_answer 0 [] pro_session prompt-AnswersAtOnce refl refl refl refl
      refl refl good_answer_valid

-- The manager with this device as its own.
abbrev open_device : Device
open_device = record (create 0 pro) { handle = some 1 }

abbrev open_manager : Manager World
open_manager = record storage_manager { heap = (0, open_device) ∷ [] }

open_device-IsOpen : IsOpen open_device 1
unfolding create init_device set_default_delay
open_device-IsOpen = record {
  a = 0;
  b = 13;
  connected = refl;
  other = refl;
  once = refl;
  enough = refl;
}

good_answer-IsConfirming : IsConfirming good_answer
good_answer-IsConfirming = record { ready = refl; succeeded = refl; valid = good_answer_valid }

nk-answered_example :
    let a : Api (Manager World) = record { manager = open_manager; nk_last_command_status = 3 } in
    let link = device_link prompt in
    ((get_without_result (execute link (stick20 Stick20.check_smartcard_usage)) a).0 ≡ ok 0)
    × ((nk_get_status link false a).0
        ≡ ok (pos 0, some (nk_status_of (stick_status (response_payload good_answer)))))
    × ((nk_get_status_as_string link a).0
        ≡ ok (str (dissect_get_status (response_payload good_answer))))
unfolding find
nk-answered_example =
    nk-answered prompt 64 1 0 good_answer open_device open_manager prompt-AnswersAtOnce
      good_answer-IsConfirming refl refl open_device-IsOpen (stick20 Stick20.check_smartcard_usage)
      3

sends_once : pro_session.device.retry_sending_count ≡ 1
unfolding create init_device set_default_delay
sends_once = refl

run-received_example :
    received (run simulated 0 [] pro_session).1
    ≤ received pro_session + pro_session.device.retry_receiving_count * 11
run-received_example = run-received simulated 0 [] pro_session sends_once

-- A Pro with an open handle that answers nothing.
abbrev silent_session : Session (World × ℕ)
silent_session = record {
  device = record (create 0 pro) { handle = some 1 };
  world = ([], 0);
  instances_count = 1;
}

silent_sends_once : silent_session.device.retry_sending_count ≡ 1
unfolding create init_device set_default_delay
silent_sends_once = refl

run-asked_example :
    asked (run (counting simulated) 0 [] silent_session).1
    ≤ 0
      + silent_session.device.retry_receiving_count
        * 11
        * (silent_session.device.retry_receiving_count + 1)
run-asked_example = run-asked simulated 0 [] silent_session silent_sends_once

link-settled_example :
    (settled (send simulated good_answer pro_session).1 ≡ settled pro_session)
    × (settled (recv simulated good_answer pro_session).1 ≡ settled pro_session)
link-settled_example = link-settled simulated good_answer good_answer pro_session

-- A Storage that answers with the status 7 and names the command 0.
abbrev busy_manager : Manager World
busy_manager = record open_storage_manager {
  world = (replicate 7 0 ++ (7 ∷ replicate 53 0) ++ (1 ∷ 2 ∷ 3 ∷ 4 ∷ [])) ∷ [];
}

storage_connected : (device_link simulated).device_model busy_manager ≡ some storage
unfolding device_link find create init_device set_default_delay
storage_connected = refl

is_smartcard_in_use-FailedOutside_example :
    Yields
      (λ b m'.
        b ≡ true
        → FailedOutside 7
            (execute (device_link simulated) (stick20 Stick20.check_smartcard_usage) busy_manager))
      (is_smartcard_in_use (device_link simulated) busy_manager)
is_smartcard_in_use-FailedOutside_example =
    is_smartcard_in_use-FailedOutside simulated busy_manager storage_connected

abbrev pub api_state : Api (Manager World)
api_state = record { manager = open_storage_manager; nk_last_command_status = 9 }

get_without_result-IsCode_example :
    IsCode
      (execute (device_link simulated) (stick20 Stick20.wink) open_storage_manager)
      (get_without_result (execute (device_link simulated) (stick20 Stick20.wink)) api_state)
get_without_result-IsCode_example =
    get_without_result-IsCode simulated (stick20 Stick20.wink) api_state
