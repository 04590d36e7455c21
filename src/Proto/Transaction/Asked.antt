-- ===== src/Proto/Transaction/Asked.antt =====
-- How often a run asks hidapi for a report.
use mathlib.Core.Path.{subst}
use libnitrokey.Prelude.{
  ℕ, zero, suc, ◌+◌, ◌-◌, ◌*◌, ◌≤◌, min, ◌≡◌, refl, ◌∙◌, ap, sym, arith, Bool, true, false,
  if◌then◌else◌,
}
use libnitrokey.Prelude.Int.{ℤ}
use libnitrokey.Prelude.Bytes.{Bytes}
use libnitrokey.Exceptions.{Action, Result, ok, err, then_call, pure, ◌>>=◌, ◌>>◌}
use libnitrokey.Device.Hid.{Hid}
use libnitrokey.Device.State.{Session, count, set_last_command_status}
use libnitrokey.Device.Link.{send, recv}
use libnitrokey.Device.Link.Laws.{settled, send-settled, recv-settled}
use libnitrokey.Device.Link.Asked.{counting, asked, send-asked, recv-asked}
use libnitrokey.Proto.Packet.{outgoing_packet}
use libnitrokey.Proto.Transaction.{
  Verdict, accepted, in_progress, waiting, unusable, verdict, Exchange, receive_once, drop_answer,
  receive_loop, check_sent, send_round, send_loop, start, conclude, run,
}
use libnitrokey.Proto.Transaction.Bounds.{received, run-received}

abbrev retries : {W : Type 0} → Session W → ℕ
retries s = s.device.retry_receiving_count

-- For each call of `Device::recv` on the way, hidapi is asked at most once more than there are
-- retries, of which the count stays.
abbrev IsWithin : {W : Type 0} → Session (W × ℕ) → Session (W × ℕ) → Type 0
IsWithin s s' =
    (retries s' ≡ retries s)
    × (asked s' + received s * (retries s + 1) ≤ asked s + received s' * (retries s + 1))

record AsksWithin {W A : Type 0} (m : Action (Session (W × ℕ)) A) : Type 0 where
  within : (s : Session (W × ℕ)) → IsWithin s (m s).1

module _ {W : Type 0} where
  still :
      (s s' : Session (W × ℕ))
      → asked s' ≡ asked s
      → received s' ≡ received s
      → retries s' ≡ retries s
      → IsWithin s s'
  still s s' a b c = (
    c,
    subst (λ r. asked s' + received s * (retries s + 1) ≤ asked s + r * (retries s + 1)) (sym b)
        (omega (arith, a)),
  )

  chained : (s t u : Session (W × ℕ)) → IsWithin s t → IsWithin t u → IsWithin s u
  chained s t u (c, h) (d, k) = (
    d ∙ c,
    (let k' = subst (λ r. asked u + received t * (r + 1) ≤ asked t + received u * (r + 1)) c k in
        omega (arith, h, k')),
  )

module _ {W A B : Type 0} where
  then_call-IsWithin :
      (r : Result A × Session (W × ℕ)) (f : A → Action (Session (W × ℕ)) B) (s : Session (W × ℕ))
      → IsWithin s r.1
      → ((a : A) → AsksWithin (f a))
      → IsWithin s (then_call f r).1
  then_call-IsWithin (ok a, t) f s e h = chained s t (f a t).1 e ((h a).within t)
  then_call-IsWithin (err x, t) f s e h = e

  bind :
      {m : Action (Session (W × ℕ)) A} {f : A → Action (Session (W × ℕ)) B}
      → AsksWithin m
      → ((a : A) → AsksWithin (f a))
      → AsksWithin (m >>= f)
  bind {m = m} {f = f} k h = record { within = λ s. then_call-IsWithin (m s) f s (k.within s) h }

module _ {W : Type 0} where
  plain :
      {A : Type 0} {m : Action (Session (W × ℕ)) A}
      → ((s : Session (W × ℕ)) → IsWithin s (m s).1)
      → AsksWithin m
  plain h = record { within = h }

  idle :
      {A : Type 0} {m : Action (Session (W × ℕ)) A}
      → ((s : Session (W × ℕ)) → asked (m s).1 ≡ asked s)
      → ((s : Session (W × ℕ)) → received (m s).1 ≡ received s)
      → ((s : Session (W × ℕ)) → retries (m s).1 ≡ retries s)
      → AsksWithin m
  idle {m = m} a b c = plain λ s. still s (m s).1 (a s) (b s) (c s)

  choose :
      {B : Type 0} {a b c d : Action (Session (W × ℕ)) B} (v : Verdict)
      → AsksWithin a
      → AsksWithin b
      → AsksWithin c
      → AsksWithin d
      → let m : Action (Session (W × ℕ)) B = elim v [
        | accepted ↦ a
        | in_progress ↦ b
        | waiting ↦ c
        | unusable ↦ d
      ] in
        AsksWithin m
  choose accepted p q r t = p
  choose in_progress p q r t = q
  choose waiting p q r t = r
  choose unusable p q r t = t

  choose_if :
      {B : Type 0} {a b : Action (Session (W × ℕ)) B} (v : Bool)
      → AsksWithin a
      → AsksWithin b
      → AsksWithin (if v then a else b)
  choose_if true p q = p
  choose_if false p q = q

  returned : {A : Type 0} (x : A) → AsksWithin {W = W} (pure x)
  returned x = idle (λ s. refl) (λ s. refl) (λ s. refl)

  counted_busy : AsksWithin {W = W} (count (λ c. record c { busy = c.busy + 1 }))
  counted_busy = idle (λ s. refl) (λ s. refl) (λ s. refl)

module _ {W : Type 0} (hid : Hid W) where
  send-AsksWithin : (packet : Bytes) → AsksWithin (send (counting hid) packet)
  unfolding settled
  send-AsksWithin packet =
      idle (send-asked hid packet)
        (λ s. ap (λ t. t.device.counters.recv_executed) (send-settled (counting hid) packet s))
        (λ s. ap (λ t. t.device.retry_receiving_count) (send-settled (counting hid) packet s))

  check_sent-AsksWithin : (sent : ℤ) → AsksWithin (check_sent (counting hid) sent)
  unfolding check_sent
  check_sent-AsksWithin sent = idle (λ s. ground arith) (λ s. ground arith) (λ s. ground arith)

  recv-IsWithin :
      (resp : Bytes) (s : Session (W × ℕ))
      → let s' = (recv (counting hid) resp s).1 in
        (asked s' ≤ asked s + (retries s + 1))
        × (received s' ≡ received s)
        × (retries s' ≡ retries s)
  unfolding settled
  recv-IsWithin resp s = (
    omega (arith, recv-asked hid resp s),
    ap (λ t. t.device.counters.recv_executed) (recv-settled (counting hid) resp s),
    ap (λ t. t.device.retry_receiving_count) (recv-settled (counting hid) resp s),
  )

  receive_once-AsksWithin : (resp : Bytes) → AsksWithin (receive_once (counting hid) resp)
  unfolding receive_once
  receive_once-AsksWithin resp = plain λ s.
      let s0 = (count (λ c. record c { recv_executed = c.recv_executed + 1 }) s).1 in
      let s1 = (recv (counting hid) resp s0).1 in
      let (a, r, c) = recv-IsWithin resp s0 in
      let h : IsWithin s s1 = (
        c,
        subst (λ r. asked s1 + received s * (retries s + 1) ≤ asked s + r * (retries s + 1)) (sym r)
            (omega (arith, a)),
      ) in
      then_call-IsWithin (recv (counting hid) resp s0) _ s h
        (λ x. plain λ t. still t t refl refl refl)

  drop_answer-AsksWithin :
      (timeout : ℕ) (resp : Bytes) → AsksWithin (drop_answer (counting hid) timeout resp)
  unfolding drop_answer
  drop_answer-AsksWithin timeout resp =
      idle (λ s. ground arith) (λ s. ground arith) (λ s. ground arith)

  dropped :
      {B : Type 0} (timeout : ℕ) (resp : Bytes) {k : Action (Session (W × ℕ)) B}
      → AsksWithin k
      → AsksWithin (drop_answer (counting hid) timeout resp >> k)
  dropped timeout resp h = bind (drop_answer-AsksWithin timeout resp) (λ _. h)

  receive_loop-AsksWithin :
      (counter free timeout : ℕ) (resp : Bytes) (status : ℤ)
      → AsksWithin (receive_loop (counting hid) counter free timeout resp status)
  unfolding receive_loop
  receive_loop-AsksWithin zero free timeout resp status = returned _
  receive_loop-AsksWithin (suc counter) zero timeout resp status =
      bind (receive_once-AsksWithin resp) λ x.
        choose (verdict (x.1)) (returned _) (idle (λ s. refl) (λ s. refl) (λ s. refl))
          (bind counted_busy λ _.
            dropped (min (timeout * 2) 300) (x.1)
              (receive_loop-AsksWithin counter 10 (min (timeout * 2) 300) (x.1) (x.0)))
          (dropped timeout (x.1) (receive_loop-AsksWithin counter zero timeout (x.1) (x.0)))
  receive_loop-AsksWithin (suc counter) (suc free) timeout resp status =
      bind (receive_once-AsksWithin resp) λ x.
        choose (verdict (x.1)) (returned _) (idle (λ s. refl) (λ s. refl) (λ s. refl))
          (bind counted_busy λ _.
            dropped timeout (x.1) (receive_loop-AsksWithin (suc counter) free timeout (x.1) (x.0)))
          (dropped timeout (x.1) (receive_loop-AsksWithin counter (suc free) timeout (x.1) (x.0)))

  send_round-AsksWithin :
      (packet : Bytes) (x : Exchange) → AsksWithin (send_round (counting hid) packet x)
  unfolding send_round
  send_round-AsksWithin packet x = plain λ s.
      let s0 = (count (λ c. record c { sends_executed = c.sends_executed + 1 }) s).1 in
      then_call-IsWithin (send (counting hid) packet s0) _ s
        (chained s s0 (send (counting hid) packet s0).1 (still s s0 refl refl refl)
          ((send-AsksWithin packet).within s0))
        λ sent. bind (check_sent-AsksWithin sent) λ _. plain λ t.
          let t0 = record t {
            world = (counting hid).sleep_for (t.device.send_receive_delay) t.world;
          } in
          let t1 =
            (receive_loop (counting hid) (retries t) 10 (t.device.retry_timeout) (x.resp) sent
              t0).1 in
          chained t t0 t1 (still t t0 refl refl refl) (
            (receive_loop-AsksWithin (retries t) 10 (t.device.retry_timeout) (x.resp) sent).within
              t0)

  send_loop-AsksWithin :
      (left : ℕ) (packet : Bytes) (x : Exchange)
      → AsksWithin (send_loop (counting hid) left packet x)
  unfolding send_loop
  send_loop-AsksWithin zero packet x = returned _
  send_loop-AsksWithin (suc left) packet x =
      bind (send_round-AsksWithin packet x)
        λ y. choose_if (y.successful) (returned _) (send_loop-AsksWithin left packet y)

  conclude-AsksWithin : (x : Exchange) → AsksWithin (conclude (counting hid) x)
  unfolding conclude set_last_command_status
  conclude-AsksWithin x = idle (λ s. ground arith) (λ s. ground arith) (λ s. ground arith)

  run-IsWithin :
      (command : ℕ) (payload : Bytes) (s : Session (W × ℕ))
      → IsWithin s (run (counting hid) command payload s).1
  unfolding run
  run-IsWithin command payload s =
      let s0 = (count (λ c. record c { total_comm_runs = c.total_comm_runs + 1 }) s).1 in
      let rounds = s.device.retry_sending_count in
      let sending =
        send_loop (counting hid) rounds (outgoing_packet command payload) (start (counting hid)) in
      let whole : AsksWithin (sending >>= conclude (counting hid)) =
        bind (send_loop-AsksWithin rounds (outgoing_packet command payload) (start (counting hid)))
          conclude-AsksWithin in
      chained s s0 ((sending >>= conclude (counting hid)) s0).1 (still s s0 refl refl refl)
        (whole.within s0)

product_bound :
    (asked_before asked_after before after rounds each : ℕ)
    → asked_after + before * each ≤ asked_before + after * each
    → after ≤ before + rounds
    → asked_after ≤ asked_before + rounds * each
product_bound a a' r r' n k h le =
    let e = r + n - r' in
    let split : r' + e ≡ r + n = omega (arith, le) in omega (arith, h, ap (λ t. t * k) split)

-- On a device that sends a command once, as every device does that the constructors make, and whose
-- count of retries is n, a run calls `hid_get_feature_report` at most 11 * n * (n + 1) times, whatever
-- hidapi does and whether the run returns or throws.
pub run-asked :
    {W : Type 0} (hid : Hid W) (command : ℕ) (payload : Bytes) (s : Session (W × ℕ))
    → s.device.retry_sending_count ≡ 1
    → asked (run (counting hid) command payload s).1
      ≤ asked s + s.device.retry_receiving_count * 11 * (s.device.retry_receiving_count + 1)
run-asked hid command payload s once =
    product_bound (asked s) _ (received s) _ (s.device.retry_receiving_count * 11)
      (s.device.retry_receiving_count + 1) ((run-IsWithin hid command payload s).1)
      (run-received (counting hid) command payload s once)
