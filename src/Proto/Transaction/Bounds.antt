-- ===== src/Proto/Transaction/Bounds.antt =====
-- How often a run calls `Device::recv`.
use libnitrokey.Prelude.{
  ℕ, zero, suc, ◌+◌, ◌-◌, ◌*◌, ◌≤◌, min, ◌≡◌, refl, ap, arith, if◌then◌else◌, Bool, true, false,
}
use libnitrokey.Prelude.Int.{ℤ}
use libnitrokey.Prelude.Bytes.{Bytes}
use libnitrokey.Exceptions.{Action, then_call-state, Keeps, ◌>>◌, pure}
use libnitrokey.Device.Hid.{Hid}
use libnitrokey.Device.State.{Session, on_device, set_last_command_status}
use libnitrokey.Device.Link.{send, recv}
use libnitrokey.Device.Link.Laws.{settled, send-settled, recv-settled}
use libnitrokey.Proto.Packet.{outgoing_packet}
use libnitrokey.Proto.Transaction.{
  Verdict, accepted, in_progress, waiting, unusable, verdict, Exchange, receive_once, drop_answer,
  receive_loop, check_sent, send_round, send_loop, start, conclude, run,
}

abbrev pub received : {W : Type 0} → Session W → ℕ
received s = s.device.counters.recv_executed

module _ {S B : Type 0} (P : S → Type 0) (s : S) (a b c d : Action S B) where
  choose-state :
      (v : Verdict)
      → P (a s).1
      → P (b s).1
      → P (c s).1
      → P (d s).1
      → let m : Action S B = elim v [
        | accepted ↦ a
        | in_progress ↦ b
        | waiting ↦ c
        | unusable ↦ d
      ] in
        P (m s).1
  choose-state accepted p q r t = p
  choose-state in_progress p q r t = q
  choose-state waiting p q r t = r
  choose-state unusable p q r t = t

module _ {W : Type 0} (hid : Hid W) where
  recv-received : (buffer : Bytes) → Keeps received (recv hid buffer)
  recv-received buffer s =
      unfold settled in ap (λ t. t.device.counters.recv_executed) (recv-settled hid buffer s)

  send-received : (packet : Bytes) → Keeps received (send hid packet)
  send-received packet s =
      unfold settled in ap (λ t. t.device.counters.recv_executed) (send-settled hid packet s)

  receive_once-received :
      (resp : Bytes) (s : Session W) → received (receive_once hid resp s).1 ≡ received s + 1
  unfolding receive_once
  receive_once-received resp s =
      then_call-state (λ t. received t ≡ received s + 1) (recv hid resp _) _ (recv-received resp _)
        (λ a. recv-received resp _)

  drop_answer-received :
      (timeout : ℕ) (resp : Bytes) → Keeps received (drop_answer hid timeout resp)
  unfolding drop_answer
  drop_answer-received timeout resp s = ground arith

  dropped :
      {B : Type 0} (bound : ℕ) (k : Action (Session W) B) (timeout : ℕ) (resp : Bytes)
      (s : Session W)
      → received s ≤ bound
      → ((s' : Session W) → received s' ≡ received s → received (k s').1 ≤ bound)
      → received ((drop_answer hid timeout resp >> k) s).1 ≤ bound
  dropped bound k timeout resp s h next =
      then_call-state (λ t. received t ≤ bound) (drop_answer hid timeout resp s) (λ _. k)
        (omega (arith, drop_answer-received timeout resp s))
        (λ _. next (drop_answer hid timeout resp s).1 (drop_answer-received timeout resp s))

  receive_loop-received :
      (counter free timeout : ℕ) (resp : Bytes) (status : ℤ) (s : Session W)
      → free ≤ 10
      → received (receive_loop hid counter free timeout resp status s).1
        ≤ received s + (counter * 11 + free - 10)
  unfolding receive_loop
  receive_loop-received zero free timeout resp status s h = omega arith
  receive_loop-received (suc counter) zero timeout resp status s h =
      let bound = received s + (suc counter * 11 + 0 - 10) in
      let s' = (receive_once hid resp s).1 in
      let once = receive_once-received resp s in
      then_call-state (λ t. received t ≤ bound) (receive_once hid resp s) _ (omega (arith, once))
        λ a.
          choose-state (λ t. received t ≤ bound) s' _ _ _ _ (verdict a.1) (omega (arith, once))
            (omega (arith, once))
            (dropped bound (receive_loop hid counter 10 (min (timeout * 2) 300) a.1 a.0)
              (min (timeout * 2) 300) a.1 _ (omega (arith, once))
              λ s'' e. omega (
                arith,
                once,
                e,
                receive_loop-received counter 10 (min (timeout * 2) 300) a.1 a.0 s'' (omega arith),
              ))
            (dropped bound (receive_loop hid counter zero timeout a.1 a.0) timeout a.1 s'
              (omega (arith, once))
              λ s'' e. omega (
                arith,
                once,
                e,
                receive_loop-received counter zero timeout a.1 a.0 s'' (omega arith),
              ))
  receive_loop-received (suc counter) (suc free) timeout resp status s h =
      let bound = received s + (suc counter * 11 + suc free - 10) in
      let s' = (receive_once hid resp s).1 in
      let once = receive_once-received resp s in
      then_call-state (λ t. received t ≤ bound) (receive_once hid resp s) _ (omega (arith, once))
        λ a.
          choose-state (λ t. received t ≤ bound) s' _ _ _ _ (verdict a.1) (omega (arith, once))
            (omega (arith, once))
            (dropped bound (receive_loop hid (suc counter) free timeout a.1 a.0) timeout a.1 _
              (omega (arith, once))
              λ s'' e. omega (
                arith,
                once,
                e,
                receive_loop-received (suc counter) free timeout a.1 a.0 s'' (omega arith),
              ))
            (dropped bound (receive_loop hid counter (suc free) timeout a.1 a.0) timeout a.1 s'
              (omega (arith, once))
              λ s'' e. omega (
                arith,
                once,
                e,
                receive_loop-received counter (suc free) timeout a.1 a.0 s'' (omega arith),
              ))

  abbrev retries : Session W → ℕ
  retries s = s.device.retry_receiving_count

  send-retries : (packet : Bytes) → Keeps retries (send hid packet)
  send-retries packet s =
      unfold settled in ap (λ t. t.device.retry_receiving_count) (send-settled hid packet s)

  check_sent-received : (sent : ℤ) → Keeps received (check_sent hid sent)
  unfolding check_sent
  check_sent-received sent s = ground arith

  check_sent-retries : (sent : ℤ) → Keeps retries (check_sent hid sent)
  unfolding check_sent
  check_sent-retries sent s = ground arith

  send_round-received :
      (packet : Bytes) (x : Exchange) (s : Session W)
      → received (send_round hid packet x s).1 ≤ received s + retries s * 11
  unfolding send_round
  send_round-received packet x s =
      let bound = received s + retries s * 11 in
      then_call-state (λ t. received t ≤ bound) (send hid packet _) _
        (omega (arith, send-received packet _))
        λ sent.
          let s' = (send hid packet _).1 in
          then_call-state (λ t. received t ≤ bound) (check_sent hid sent s') _
            (omega (arith, check_sent-received sent s', send-received packet _))
            λ _.
              let s'' = (check_sent hid sent s').1 in
              omega (
                arith,
                check_sent-received sent s',
                check_sent-retries sent s',
                send-received packet _,
                send-retries packet _,
                receive_loop-received (retries s'') 10 _ (x.resp) sent _ (omega arith),
              )

  conclude-received : (x : Exchange) → Keeps received (conclude hid x)
  unfolding conclude set_last_command_status
  conclude-received x s = ground arith

  no_second_round :
      (b : Bool) (y : Exchange) (s : Session W)
      → let m : Action (Session W) Exchange = if b then pure y else pure y in
        received (m s).1 ≡ received s
  no_second_round true y s = refl
  no_second_round false y s = refl

  one_round-received :
      (n : ℕ) (packet : Bytes) (x : Exchange) (s : Session W)
      → n ≡ 1
      → received (send_loop hid n packet x s).1 ≤ received s + retries s * 11
  unfolding send_loop
  one_round-received n packet x s once = rw once (
      then_call-state (λ t. received t ≤ received s + retries s * 11) (send_round hid packet x s) _
        (send_round-received packet x s)
        λ y. omega (
          arith,
          send_round-received packet x s,
          no_second_round (y.successful) y (send_round hid packet x s).1,
        ))

-- On a device that sends a command once, as every device does that the constructors make, a run calls
-- `Device::recv`, as the counter `recv_executed` shows, at most eleven times as often as its count of
-- retries, whatever the device answers and whether the run returns or throws.
pub run-received :
    {W : Type 0} (hid : Hid W) (command : ℕ) (payload : Bytes) (s : Session W)
    → s.device.retry_sending_count ≡ 1
    → received (run hid command payload s).1 ≤ received s + s.device.retry_receiving_count * 11
unfolding run
run-received hid command payload s once =
    let packet = outgoing_packet command payload in
    let s' =
      on_device
        (λ d. record d {
          counters = record (d.counters) { total_comm_runs = d.counters.total_comm_runs + 1 };
        })
        s in
    let first = one_round-received hid (s.device.retry_sending_count) packet (start hid) s' once in
    then_call-state (λ t. received t ≤ received s + s.device.retry_receiving_count * 11)
      (send_loop hid (s.device.retry_sending_count) packet (start hid) s') (conclude hid)
      (omega (arith, first))
      λ x. omega (
        arith,
        first,
        conclude-received hid x
            (send_loop hid (s.device.retry_sending_count) packet (start hid) s').1,
      )
