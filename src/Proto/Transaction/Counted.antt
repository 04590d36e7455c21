-- ===== src/Proto/Transaction/Counted.antt =====
-- The count of devices through a run.
use libnitrokey.Prelude.{
  ℕ, zero, suc, ◌+◌, ◌*◌, min, ◌≡◌, refl, ◌∙◌, ap, arith, Bool, true, false, if◌then◌else◌,
}
use libnitrokey.Prelude.Int.{ℤ}
use libnitrokey.Prelude.Bytes.{Bytes}
use libnitrokey.Exceptions.{Action, Result, ok, err, then_call, ◌>>=◌, ◌>>◌}
use libnitrokey.Device.Hid.{Hid}
use libnitrokey.Device.State.{Session, count}
use libnitrokey.Device.Link.{send, recv}
use libnitrokey.Device.Link.Laws.{settled, send-settled, recv-settled}
use libnitrokey.Proto.Packet.{outgoing_packet}
use libnitrokey.Proto.Transaction.{
  Verdict, accepted, in_progress, waiting, unusable, verdict, Exchange, receive_once, drop_answer,
  receive_loop, check_sent, send_round, send_loop, start, conclude, run,
}

record KeepsCounted {W A : Type 0} (m : Action (Session W) A) : Type 0 where
  kept : (s : Session W) → (m s).1.instances_count ≡ s.instances_count

module _ {W A B : Type 0} where
  then_call-counted :
      (r : Result A × Session W) (f : A → Action (Session W) B) (n : ℕ)
      → r.1.instances_count ≡ n
      → ((a : A) → KeepsCounted (f a))
      → (then_call f r).1.instances_count ≡ n
  then_call-counted (ok a, s) f n e h = (h a).kept s ∙ e
  then_call-counted (err x, s) f n e h = e

  bind :
      {m : Action (Session W) A} {f : A → Action (Session W) B}
      → KeepsCounted m
      → ((a : A) → KeepsCounted (f a))
      → KeepsCounted (m >>= f)
  bind {m = m} {f = f} k h = record {
    kept = λ s. then_call-counted (m s) f s.instances_count (k.kept s) h;
  }

module _ {W : Type 0} where
  plain :
      {A : Type 0} {m : Action (Session W) A}
      → ((s : Session W) → (m s).1.instances_count ≡ s.instances_count)
      → KeepsCounted m
  plain h = record { kept = h }

  choose :
      {B : Type 0} {a b c d : Action (Session W) B} (v : Verdict)
      → KeepsCounted a
      → KeepsCounted b
      → KeepsCounted c
      → KeepsCounted d
      → let m : Action (Session W) B = elim v [
        | accepted ↦ a
        | in_progress ↦ b
        | waiting ↦ c
        | unusable ↦ d
      ] in
        KeepsCounted m
  choose accepted p q r t = p
  choose in_progress p q r t = q
  choose waiting p q r t = r
  choose unusable p q r t = t

  choose_if :
      {B : Type 0} {a b : Action (Session W) B} (v : Bool)
      → KeepsCounted a
      → KeepsCounted b
      → KeepsCounted (if v then a else b)
  choose_if true p q = p
  choose_if false p q = q

module _ {W : Type 0} (hid : Hid W) where
  send-counted : (packet : Bytes) → KeepsCounted (send hid packet)
  unfolding settled
  send-counted packet = plain λ s. ap (λ t. t.instances_count) (send-settled hid packet s)

  recv-counted : (buffer : Bytes) → KeepsCounted (recv hid buffer)
  unfolding settled
  recv-counted buffer = plain λ s. ap (λ t. t.instances_count) (recv-settled hid buffer s)

  check_sent-counted : (sent : ℤ) → KeepsCounted (check_sent hid sent)
  unfolding check_sent
  check_sent-counted sent = plain λ s. ground arith

  receive_once-counted : (resp : Bytes) → KeepsCounted (receive_once hid resp)
  unfolding receive_once
  receive_once-counted resp = plain λ s.
      then_call-counted (recv hid resp _) _ _ ((recv-counted resp).kept _)
        (λ received. plain λ s. refl)

  drop_answer-counted : (timeout : ℕ) (resp : Bytes) → KeepsCounted (drop_answer hid timeout resp)
  unfolding drop_answer
  drop_answer-counted timeout resp = plain λ s. ground arith

  dropped :
      {B : Type 0} (timeout : ℕ) (resp : Bytes) {k : Action (Session W) B}
      → KeepsCounted k
      → KeepsCounted (drop_answer hid timeout resp >> k)
  dropped timeout resp h = bind (drop_answer-counted timeout resp) (λ _. h)

  counted_busy : Session W → Session W
  counted_busy s = (count (λ c. record c { busy = c.busy + 1 }) s).1

  receive_loop-counted :
      (counter free timeout : ℕ) (resp : Bytes) (status : ℤ)
      → KeepsCounted (receive_loop hid counter free timeout resp status)
  unfolding receive_loop counted_busy
  receive_loop-counted zero free timeout resp status = plain λ s. refl
  receive_loop-counted (suc counter) zero timeout resp status =
      bind (receive_once-counted resp) λ received.
        choose (verdict (received.1)) (plain λ s. refl) (plain λ s. refl)
          (plain λ s.
            (dropped (min (timeout * 2) 300) (received.1)
                (receive_loop-counted counter 10 _ (received.1) (received.0))).kept
              (counted_busy s))
          (dropped timeout (received.1)
            (receive_loop-counted counter zero timeout (received.1) (received.0)))
  receive_loop-counted (suc counter) (suc free) timeout resp status =
      bind (receive_once-counted resp) λ received.
        choose (verdict (received.1)) (plain λ s. refl) (plain λ s. refl)
          (plain λ s.
            (dropped timeout (received.1)
                (receive_loop-counted (suc counter) free _ (received.1) (received.0))).kept
              (counted_busy s))
          (dropped timeout (received.1)
            (receive_loop-counted counter (suc free) timeout (received.1) (received.0)))

  send_round-counted : (packet : Bytes) (x : Exchange) → KeepsCounted (send_round hid packet x)
  unfolding send_round
  send_round-counted packet x = plain λ s.
      then_call-counted (send hid packet _) _ _ ((send-counted packet).kept _) λ sent.
        bind (check_sent-counted sent) λ _. plain λ s.
          (receive_loop-counted (s.device.retry_receiving_count) 10 (s.device.retry_timeout)
              (x.resp) sent).kept
            _

  send_loop-counted :
      (left : ℕ) (packet : Bytes) (x : Exchange) → KeepsCounted (send_loop hid left packet x)
  unfolding send_loop
  send_loop-counted zero packet x = plain λ s. refl
  send_loop-counted (suc left) packet x =
      bind (send_round-counted packet x)
        λ y. choose_if (y.successful) (plain λ s. refl) (send_loop-counted left packet y)

  conclude-counted : (x : Exchange) → KeepsCounted (conclude hid x)
  unfolding conclude
  conclude-counted x = plain λ s. ground arith

  pub run-instances_count :
      (command : ℕ) (payload : Bytes) (s : Session W)
      → (run hid command payload s).1.instances_count ≡ s.instances_count
  unfolding run
  run-instances_count command payload s =
      (bind
          (send_loop-counted (s.device.retry_sending_count) (outgoing_packet command payload)
            (start hid))
          (conclude-counted)).kept
        _
