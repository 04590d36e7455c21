-- ===== src/Proto/Transaction.antt =====
-- `Transaction::run` of device_proto.h: one command is sent, and answers are fetched until one is
-- accepted or the retries run out. Log messages are left out, and so is the overwriting of packets
-- that are no longer used. `send_receive_mtx` makes a run atomic.
pub mod Status
pub mod Receiving
pub mod Outcome
pub mod Errors
pub mod Reasons
pub mod Bounds
pub mod Asked
pub mod Success
pub mod Counted
use libnitrokey.Prelude.{
  ℕ, zero, suc, ◌+◌, ◌*◌, min, Bool, true, false, not, ◌&&◌, ◌||◌, if◌then◌else◌, leb, ltb, ◌==◌,
}
use libnitrokey.Prelude.Int.{ℤ, pos, negsuc, is_positive}
use libnitrokey.Prelude.Bytes.{Bytes}
use libnitrokey.Exceptions.{
  Action, pure, throw, throw_if, gets, modify, when, ◌>>=◌, ◌>>◌, device_sending_failure,
  device_receiving_failure, long_operation_in_progress, invalid_crc_received, command_failed, ok,
}
use libnitrokey.Device.Model.{DeviceModel, storage}
use libnitrokey.Device.Hid.{Hid}
use libnitrokey.Device.State.{Session, on_device, count, set_last_command_status as note_status}
use libnitrokey.Device.Link.{send, recv}
use libnitrokey.Proto.Packet.{
  outgoing_packet, empty_response, device_status, command_id, last_command_status,
  storage_device_status, storage_progress_bar_value, set_device_status, set_last_command_status,
  is_valid_response, is_crc_correct,
}

-- The device is a Storage and the answer carries one of its own commands
-- (CMD_START_VALUE, CMD_END_VALUE).
abbrev pub is_storage : DeviceModel → Bool
is_storage storage = true
is_storage _ = false

abbrev pub is_storage_answer : DeviceModel → Bytes → Bool
is_storage_answer model resp =
    is_storage model && (leb 0x20 (command_id resp) && ltb (command_id resp) 0x60)

-- The `switch` that turns the status of a Storage device into the two status bytes of a Pro. The
-- cases are idle and ok, busy and busy_progressbar, wrong_password, no_user_password_unlock.
pub translate_status : Bytes → Bytes
translate_status resp =
    let status = storage_device_status resp in
    let accepted = set_last_command_status 0 resp in
    if status == 0 || status == 1
    then set_device_status 0 accepted
    else if status == 2 || status == 4
    then set_device_status 1 accepted
    else if status == 3
    then set_device_status 0 (set_last_command_status 4 accepted)
    else if status == 6
    then set_device_status 0 (set_last_command_status 10 accepted)
    else set_device_status status accepted

pub translate : DeviceModel → Bytes → Bytes
unfolding translate_status
translate model resp = if is_storage_answer model resp then translate_status resp else resp

-- What the loop makes of an answer: it is accepted, a long operation goes on, the device is busy,
-- or neither.
pub data Verdict : Type 0 where
  accepted in_progress waiting unusable : Verdict

abbrev pub is_progress : Bytes → Bool
is_progress resp = device_status resp == 1 && storage_device_status resp == 4

pub verdict : Bytes → Verdict
verdict resp =
    if device_status resp == 0 && is_valid_response resp
    then accepted
    else if device_status resp == 1
    then if storage_device_status resp == 4 then in_progress else waiting
    else unusable

-- The local variables of `run` behind the receiving loop; `left` is `receiving_retry_counter`.
pub record Exchange : Type 0 where
  pub resp : Bytes
  pub status : ℤ
  pub left : ℤ
  pub successful : Bool

module _ {W : Type 0} (hid : Hid W) where
  abbrev sleep_for : ℕ → Action (Session W) (Unit {0})
  sleep_for ms = modify (λ s. record s { world = hid.sleep_for ms s.world })

  -- Fetching one answer, with its status.
  pub receive_once : Bytes → Action (Session W) (ℤ × Bytes)
  receive_once resp = do
    count (λ c. record c { recv_executed = c.recv_executed + 1 })
    received ← recv hid resp
    model ← gets (λ s. s.device.model)
    pure (received.0, translate model received.1)

  abbrev count_busy : Action (Session W) (Unit {0})
  count_busy = count (λ c. record c { busy = c.busy + 1 })

  -- The end of the loop's body: an answer is dropped, and the loop waits.
  pub drop_answer : ℕ → Bytes → Action (Session W) (Unit {0})
  drop_answer timeout resp = do
    when (not (is_crc_correct resp)) (count (λ c. record c { wrong_crc = c.wrong_crc + 1 }))
    count (λ c. record c { total_retries = c.total_retries + 1 })
    sleep_for timeout

  -- The receiving loop. The first number is `receiving_retry_counter` as the loop's test finds it;
  -- the second is `10 - busy_counter`, the answers "busy" that are still free of charge. The
  -- eleventh in a row of those takes one retry and doubles the waiting time, to at most 300 ms.
  pub receive_loop : ℕ → ℕ → ℕ → Bytes → ℤ → Action (Session W) Exchange
  receive_loop zero free timeout resp status =
      pure (record { resp = resp; status = status; left = negsuc 0; successful = false })
  receive_loop (suc counter) zero timeout resp status = do
    received ← receive_once resp
    elim (verdict received.1) [
      | accepted ↦
          pure (record {
            resp = received.1;
            status = received.0;
            left = pos counter;
            successful = true;
          })
      | in_progress ↦ do
        count_busy
        pure (record {
          resp = received.1;
          status = received.0;
          left = pos counter;
          successful = true;
        })
      | waiting ↦ do
        count_busy
        drop_answer (min (timeout * 2) 300) received.1
        receive_loop counter 10 (min (timeout * 2) 300) received.1 received.0
      | unusable ↦ do
        drop_answer timeout received.1
        receive_loop counter zero timeout received.1 received.0
    ]
  receive_loop (suc counter) (suc free) timeout resp status = do
    received ← receive_once resp
    elim (verdict received.1) [
      | accepted ↦
          pure (record {
            resp = received.1;
            status = received.0;
            left = pos counter;
            successful = true;
          })
      | in_progress ↦ do
        count_busy
        pure (record {
          resp = received.1;
          status = received.0;
          left = pos (suc counter);
          successful = true;
        })
      | waiting ↦ do
        count_busy
        drop_answer timeout received.1
        receive_loop (suc counter) free timeout received.1 received.0
      | unusable ↦ do
        drop_answer timeout received.1
        receive_loop counter (suc free) timeout received.1 received.0
    ]

  abbrev receive_all : Bytes → ℤ → Action (Session W) Exchange
  receive_all resp status s =
      receive_loop (s.device.retry_receiving_count) 10 (s.device.retry_timeout) resp status s

  -- A status that is not positive is an error of sending.
  pub check_sent : ℤ → Action (Session W) (Unit {0})
  check_sent sent = do
    when (not (is_positive sent)) (count (λ c. record c { sending_error = c.sending_error + 1 }))
    throw_if (not (is_positive sent)) (device_sending_failure sent)

  -- One round of the sending loop.
  pub send_round : Bytes → Exchange → Action (Session W) Exchange
  send_round packet x = do
    count (λ c. record c { sends_executed = c.sends_executed + 1 })
    sent ← send hid packet
    check_sent sent
    delay ← gets (λ s. s.device.send_receive_delay)
    sleep_for delay
    receive_all (x.resp) sent

  -- The sending loop, with `sending_retry_counter`.
  pub send_loop : ℕ → Bytes → Exchange → Action (Session W) Exchange
  send_loop zero packet x = pure x
  send_loop (suc left) packet x = do
    y ← send_round packet x
    if y.successful then pure y else send_loop left packet y

  -- What stands behind the loops: the status is noted, and the first of the tests that applies
  -- throws.
  pub conclude : Exchange → Action (Session W) Bytes
  conclude x = do
    modify (on_device (note_status (last_command_status (x.resp))))
    when (not (is_positive (x.status)))
        (count (λ c. record c { receiving_error = c.receiving_error + 1 }))
    throw_if (not (is_positive (x.status))) device_receiving_failure
    when (is_progress (x.resp))
        (count (λ c. record c { busy_progressbar = c.busy_progressbar + 1 }))
    throw_if (is_progress (x.resp)) (
        long_operation_in_progress (command_id (x.resp)) (device_status (x.resp))
          (storage_progress_bar_value (x.resp)))
    throw_if (not (is_valid_response (x.resp))) invalid_crc_received
    throw_if (not (is_positive (x.left))) device_receiving_failure
    count (λ c. record c { communication_successful = c.communication_successful + 1 })
    when (not (last_command_status (x.resp) == 0)) (
        count (λ c. record c {
          command_result_not_equal_0_recv = c.command_result_not_equal_0_recv + 1;
        }))
    throw_if (not (last_command_status (x.resp) == 0))
        (command_failed (command_id (x.resp)) (last_command_status (x.resp)))
    count (λ c. record c { command_successful_recv = c.command_successful_recv + 1 })
    model ← gets (λ s. s.device.model)
    when (is_storage_answer model (x.resp))
        (count (λ c. record c { successful_storage_commands = c.successful_storage_commands + 1 }))
    pure (x.resp)

  abbrev start : Exchange
  start = record { resp = empty_response; status = pos 0; left = pos 0; successful = false }

  -- `Transaction::run` for a device, with the command's code and its packed payload. It returns the
  -- accepted response.
  pub run : ℕ → Bytes → Action (Session W) Bytes
  run command payload = do
    count (λ c. record c { total_comm_runs = c.total_comm_runs + 1 })
    rounds ← gets (λ s. s.device.retry_sending_count)
    x ← send_loop rounds (outgoing_packet command payload) start
    conclude x
