-- ===== src/Proto/Transaction/Success.antt =====
-- A run on a device that answers at once.
use libnitrokey.Prelude.{ℕ, ◌+◌, zero, suc, ◌≡◌, refl, arith, some, true, false}
use libnitrokey.Prelude.Int.{ℤ, pos}
use libnitrokey.Prelude.Bytes.{Bytes}
use libnitrokey.Exceptions.{Action, Result, ok, err, then_call}
use libnitrokey.Device.Hid.{Hid}
use libnitrokey.Device.State.{Session, on_device}
use libnitrokey.Device.Link.{send, send_attempts, recv, recv_attempts}
use libnitrokey.Proto.Packet.{
  last_command_status, device_status, is_valid_response, outgoing_packet,
}
use libnitrokey.Proto.Transaction.{
  accepted, verdict, is_storage, translate, Exchange, receive_once, receive_loop, check_sent,
  send_round, send_loop, start, conclude, run,
}

module _ {W : Type 0} (hid : Hid W) (n : ℕ) (h : ℕ) where
  send_at_once :
      (packet : Bytes) (s : Session W)
      → (hid.hid_send_feature_report h packet s.world).0 ≡ pos (suc n)
      → s.device.handle ≡ some h
      → send hid packet s
        ≡ (ok (pos (suc n)), record s { world = (hid.hid_send_feature_report h packet s.world).1 })
  unfolding send send_attempts
  send_at_once packet s sent connected = ground arith

  recv_at_once :
      (left : ℕ) (buffer : Bytes) (s : Session W) (answer : Bytes)
      → (hid.hid_get_feature_report h buffer s.world).0 ≡ pos (suc n)
      → (hid.hid_get_feature_report h buffer s.world).1 ≡ answer
      → s.device.handle ≡ some h
      → recv_attempts hid left buffer s ≡ (
        ok (pos (suc n), answer),
        record s { world = (hid.hid_get_feature_report h buffer s.world).2 },
      )
  unfolding recv_attempts
  recv_at_once zero buffer s answer got a connected = ground arith
  recv_at_once (suc left) buffer s answer got a connected = ground arith

pub then_call-ok :
    {S A B : Type 0} (r : Result A × S) (f : A → Action S B) {a : A}
    → r.0 ≡ ok a
    → then_call f r ≡ f a r.1
then_call-ok (ok a, s) f e = cc
then_call-ok (err x, s) f e = ground arith

-- A device that takes every packet, and gives the same answer at once whenever it is asked.
pub record AnswersAtOnce {W : Type 0} (hid : Hid W) (h : ℕ) (n : ℕ) (answer : Bytes) : Type 0 where
  pub sends : (packet : Bytes) (w : W) → (hid.hid_send_feature_report h packet w).0 ≡ pos (suc n)
  pub receives : (buffer : Bytes) (w : W) → (hid.hid_get_feature_report h buffer w).0 ≡ pos (suc n)
  pub answers : (buffer : Bytes) (w : W) → (hid.hid_get_feature_report h buffer w).1 ≡ answer

module _ {W : Type 0} (hid : Hid W) (n h : ℕ) (answer : Bytes)
    (at_once : AnswersAtOnce hid h n answer) where
  receive_once-ok :
      (resp : Bytes) (s : Session W)
      → s.device.handle ≡ some h
      → is_storage (s.device.model) ≡ false
      → (receive_once hid resp s).0 ≡ ok (pos (suc n), answer)
  unfolding receive_once recv translate
  receive_once-ok resp s connected other =
      let s' =
        on_device
          (λ d. record d {
            counters = record (d.counters) { recv_executed = d.counters.recv_executed + 1 };
          })
          s in
      rw
        (recv_at_once hid n h (s.device.retry_receiving_count) resp s' answer
          (at_once.receives resp s.world) (at_once.answers resp s.world) connected)
        (ground arith)

  receive_loop-ok :
      (counter timeout : ℕ) (resp : Bytes) (status : ℤ) (s : Session W)
      → s.device.handle ≡ some h
      → is_storage (s.device.model) ≡ false
      → verdict answer ≡ accepted
      → (receive_loop hid (suc counter) 10 timeout resp status s).0
        ≡ ok (record { resp = answer; status = pos (suc n); left = pos counter; successful = true })
  unfolding receive_loop
  receive_loop-ok counter timeout resp status s connected other good =
      rw (then_call-ok (receive_once hid resp s) _ (receive_once-ok resp s connected other))
        (rw good refl)

  abbrev good_exchange : ℕ → Exchange
  good_exchange b = record {
    resp = answer;
    status = pos (suc n);
    left = pos (suc b);
    successful = true;
  }

  send_round-ok :
      (b : ℕ) (packet : Bytes) (x : Exchange) (s : Session W)
      → s.device.handle ≡ some h
      → is_storage (s.device.model) ≡ false
      → s.device.retry_receiving_count ≡ suc (suc b)
      → verdict answer ≡ accepted
      → (send_round hid packet x s).0 ≡ ok (good_exchange b)
  unfolding send_round check_sent
  send_round-ok b packet x s connected other enough good =
      let s' =
        on_device
          (λ d. record d {
            counters = record (d.counters) { sends_executed = d.counters.sends_executed + 1 };
          })
          s in
      rw (send_at_once hid n h packet s' (at_once.sends packet s.world) connected) (
        rw enough (
          receive_loop-ok (suc b) (s.device.retry_timeout) (x.resp) (pos (suc n)) _ connected other
            good))

  send_loop-ok :
      (rounds a b : ℕ) (packet : Bytes) (x : Exchange) (s : Session W)
      → rounds ≡ suc a
      → s.device.handle ≡ some h
      → is_storage (s.device.model) ≡ false
      → s.device.retry_receiving_count ≡ suc (suc b)
      → verdict answer ≡ accepted
      → (send_loop hid rounds packet x s).0 ≡ ok (good_exchange b)
  unfolding send_loop
  send_loop-ok rounds a b packet x s once connected other enough good = rw once (
      rw
        (then_call-ok (send_round hid packet x s) _
          (send_round-ok b packet x s connected other enough good))
        refl)

  conclude-ok :
      (b : ℕ) (s : Session W)
      → verdict answer ≡ accepted
      → last_command_status answer ≡ 0
      → (conclude hid (good_exchange b) s).0 ≡ ok answer
  unfolding conclude verdict
  conclude-ok b s good succeeded = ground arith

accepted_answer :
    (answer : Bytes)
    → device_status answer ≡ 0
    → is_valid_response answer ≡ true
    → verdict answer ≡ accepted
unfolding verdict
accepted_answer answer ready valid = ground arith

-- A connected Pro or Librem Key, with one sending attempt or more and two receiving attempts or more,
-- that takes every packet and gives at once an answer with the device status ok, the command status ok
-- and a checksum field other than zero: the run returns that answer.
pub run-ok :
    {W : Type 0} (hid : Hid W) (n h a b : ℕ) (answer : Bytes) (command : ℕ) (payload : Bytes)
    (s : Session W)
    → AnswersAtOnce hid h n answer
    → s.device.handle ≡ some h
    → is_storage (s.device.model) ≡ false
    → s.device.retry_sending_count ≡ suc a
    → s.device.retry_receiving_count ≡ suc (suc b)
    → device_status answer ≡ 0
    → last_command_status answer ≡ 0
    → is_valid_response answer ≡ true
    → (run hid command payload s).0 ≡ ok answer
unfolding run
run-ok hid n h a b answer command payload s at_once connected other once enough ready succeeded
      valid =
    let good = accepted_answer answer ready valid in
    let s' =
      on_device
        (λ d. record d {
          counters = record (d.counters) { total_comm_runs = d.counters.total_comm_runs + 1 };
        })
        s in
    let packet = outgoing_packet command payload in
    rw
      (then_call-ok (send_loop hid (s.device.retry_sending_count) packet (start hid) s')
        (conclude hid)
        (send_loop-ok hid n h answer at_once (s.device.retry_sending_count) a b packet (start hid)
          s' once connected other enough good))
      (conclude-ok hid n h answer at_once b _ good succeeded)
