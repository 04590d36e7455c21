-- ===== src/CApi/Answered.antt =====
-- The C interface on a device that answers, through all layers down to hidapi.
use libnitrokey.Prelude.{ℕ, suc, ◌≡◌, ap, ◌∙◌, List, some, false, true, arith}
use libnitrokey.Prelude.Int.{pos}
use libnitrokey.Prelude.Bytes.{Bytes}
use libnitrokey.Exceptions.{Result, ok, err, pure}
use libnitrokey.Device.Hid.{Hid}
use libnitrokey.Device.Heap.{find}
use libnitrokey.Device.State.{Device}
use libnitrokey.Misc.Stream.{Item, str}
use libnitrokey.Proto.Packet.{
  device_status, last_command_status, is_valid_response, response_payload,
}
use libnitrokey.Proto.Transaction.{is_storage}
use libnitrokey.Proto.Transaction.Success.{AnswersAtOnce, run-ok, then_call-ok}
use libnitrokey.Commands.Command.{Command, stick10, code_of, payload_of}
use libnitrokey.Commands.Stick10.{Stick10}
use libnitrokey.Commands.Responses.{stick_status}
use libnitrokey.Commands.Dissect.Responses.{dissect_get_status}
use libnitrokey.Manager.Interface.{execute}
use libnitrokey.Manager.Status.{get_status}
use libnitrokey.Manager.State.{Manager, session}
use libnitrokey.Manager.Connection.{device_link, payload_of_result}
use libnitrokey.CApi.Status.{Api, get_without_result, get_with_status, handle_status}
use libnitrokey.CApi.Structs.{nk_status_of}
use libnitrokey.CApi.Infos.{nk_get_status, fill, unset, written}
use libnitrokey.CApi.Status.Laws.{get_without_result-ok}
use libnitrokey.CApi.Texts.{nk_get_status_as_string}
use libnitrokey.CApi.Texts.Laws.{nk_texts_lem, told}

-- The device object `d` is open under the handle `h`, is no Storage, and has attempts enough.
pub record IsOpen (d : Device) (h : ℕ) : Type 0 where
  pub a : ℕ
  pub b : ℕ
  pub connected : d.handle ≡ some h
  pub other : is_storage (d.model) ≡ false
  pub once : d.retry_sending_count ≡ suc a
  pub enough : d.retry_receiving_count ≡ suc (suc b)

-- An answer with both statuses ok and a checksum field other than zero.
pub record IsConfirming (answer : Bytes) : Type 0 where
  pub ready : device_status answer ≡ 0
  pub succeeded : last_command_status answer ≡ 0
  pub valid : is_valid_response answer ≡ true

payload_of-ok :
    {W S : Type 0} (hid : Hid W) (r : Result Bytes × S) {answer : Bytes}
    → r.0 ≡ ok answer
    → (payload_of_result hid r).0 ≡ ok (response_payload answer)
payload_of-ok hid (ok resp, s) e = ground arith
payload_of-ok hid (err x, s) e = ground arith

told-ok :
    {S : Type 0} (dissect : Bytes → List Item) (r : Result Bytes × S) {payload : Bytes}
    → r.0 ≡ ok payload
    → (told dissect r).0 ≡ ok (str (dissect payload))
told-ok dissect (ok payload, s) e = cc
told-ok dissect (err x, s) e = ground arith

written-ok :
    {S T : Type 0} (f : Bytes → T) (r : Result Bytes × S) {payload : Bytes}
    → r.0 ≡ ok payload
    → (written f (handle_status unset r)).0 ≡ ok (pos 0, some (f payload))
unfolding handle_status
written-ok f (ok payload, s) e = cc
written-ok f (err x, s) e = ground arith

module _ {W : Type 0} (hid : Hid W) (n h p : ℕ) (answer : Bytes) (d : Device) (m : Manager W)
    (at_once : AnswersAtOnce hid h n answer) (confirming : IsConfirming answer)
    (pointer : m.device ≡ some p) (found : find p (m.heap) ≡ some d) (opened : IsOpen d h) where
  transact-answered :
      (c : Command) → ((device_link hid).transact c m).0 ≡ ok (response_payload answer)
  unfolding device_link
  transact-answered c =
      rw (pointer, found)
        (payload_of-ok hid _ (
          run-ok hid n h (opened.a) (opened.b) answer (code_of c) (payload_of c) (session m d)
            at_once (opened.connected) (opened.other) (opened.once) (opened.enough)
            (confirming.ready) (confirming.succeeded) (confirming.valid)))

  -- Where the manager's device is open, is no Storage, takes every packet and gives at once an answer that
  -- confirms the command, a function of the C interface that sends any one command returns 0,
  -- `NK_get_status` returns 0 with the struct of that answer, and `NK_get_status_as_string` its text.
  pub nk-answered :
      (c : Command) (status : ℕ)
      → let a : Api (Manager W) = record { manager = m; nk_last_command_status = status } in
        let link = device_link hid in
        ((get_without_result (execute link c) a).0 ≡ ok 0)
        × ((nk_get_status link false a).0
            ≡ ok (pos 0, some (nk_status_of (stick_status (response_payload answer)))))
        × ((nk_get_status_as_string link a).0
            ≡ ok (str (dissect_get_status (response_payload answer))))
  unfolding nk_get_status get_status execute fill get_with_status
  nk-answered c status =
      let a : Api (Manager W) = record { manager = m; nk_last_command_status = status } in
      let link = device_link hid in
      let status_answered = transact-answered (stick10 Stick10.get_status) in
      (
        get_without_result-ok (execute link c) a
            (ap (λ r. r.0) (then_call-ok (link.transact c m) (λ _. pure tt) (transact-answered c))),
        written-ok _ (get_status link m) status_answered,
        ap (λ r. r.0) ((nk_texts_lem link a).0) ∙ told-ok dissect_get_status _ status_answered,
      )
