-- ===== src/Device/Link/Asked.antt =====
-- How often sending and receiving with their retries ask hidapi for a report.
use libnitrokey.Prelude.{
  ℕ, zero, suc, ◌+◌, ◌≤◌, ◌≡◌, refl, ◌∙◌, Bool, true, false, if◌then◌else◌, arith,
}
use libnitrokey.Prelude.Int.{ℤ, pos, negsuc, is_negative, is_positive}
use libnitrokey.Prelude.Bytes.{Bytes}
use libnitrokey.Exceptions.{Action, when, Keeps, >>=-Keeps, when-Keeps, then_call-state, pure, ◌>>◌}
use libnitrokey.Device.Hid.{Hid}
use libnitrokey.Device.State.{Session, on_world}
use libnitrokey.Device.Link.{
  connect, disconnect, reconnect, require_handle, send_attempts, send, get_report,
  sleep_retry_timeout, recv_attempts, recv,
}

-- The same hidapi, which counts the calls of `hid_get_feature_report` beside the world.
abbrev pub counting : {W : Type 0} → Hid W → Hid (W × ℕ)
counting hid = record {
  hid_open = λ vid pid t. let (handle, w) = hid.hid_open vid pid t.0 in (handle, (w, t.1));
  hid_open_path = λ path t. let (handle, w) = hid.hid_open_path path t.0 in (handle, (w, t.1));
  hid_close = λ handle t. (hid.hid_close handle t.0, t.1);
  hid_exit = λ t. (hid.hid_exit t.0, t.1);
  hid_send_feature_report = λ handle packet t.
      let (sent, w) = hid.hid_send_feature_report handle packet t.0 in (sent, (w, t.1));
  hid_get_feature_report = λ handle buffer t.
      let (status, filled, w) = hid.hid_get_feature_report handle buffer t.0 in
      (status, filled, (w, t.1 + 1));
  hid_enumerate = λ vid pid t. let (infos, w) = hid.hid_enumerate vid pid t.0 in (infos, (w, t.1));
  to_bytes = hid.to_bytes;
  sleep_for = λ ms t. (hid.sleep_for ms t.0, t.1);
}

abbrev pub asked : {W : Type 0} → Session (W × ℕ) → ℕ
asked s = s.world.1

module _ {W : Type 0} (hid : Hid W) where
  connect-asked : (s : Session (W × ℕ)) → asked (connect (counting hid) s).1 ≡ asked s
  unfolding connect
  connect-asked s = ground arith

  disconnect-asked : (s : Session (W × ℕ)) → asked (disconnect (counting hid) s).1 ≡ asked s
  unfolding disconnect
  disconnect-asked s = ground arith

  reconnect-asked : Keeps asked (reconnect (counting hid))
  unfolding reconnect
  reconnect-asked s = connect-asked _ ∙ disconnect-asked _

  require_handle-asked : Keeps asked (require_handle (counting hid))
  require_handle-asked s = ground arith

  send_attempts-asked :
      (left : ℕ) (packet : Bytes) (status : ℤ)
      → Keeps asked (send_attempts (counting hid) left packet status)
  unfolding send_attempts
  send_attempts-asked zero packet status = λ s. refl
  send_attempts-asked (suc left) packet (pos n) = λ s. refl
  send_attempts-asked (suc left) packet (negsuc n) =
      >>=-Keeps asked (require_handle (counting hid)) _ require_handle-asked λ h.
        >>=-Keeps asked (on_world ((counting hid).hid_send_feature_report h packet))
          (λ sent.
            when (is_negative sent) (reconnect (counting hid))
            >> send_attempts (counting hid) left packet sent)
          (λ s. refl)
          λ sent.
            >>=-Keeps asked (when (is_negative sent) (reconnect (counting hid)))
              (λ _. send_attempts (counting hid) left packet sent)
              (when-Keeps asked (is_negative sent) (reconnect (counting hid)) reconnect-asked)
              (λ _. send_attempts-asked left packet sent)

  pub send-asked : (packet : Bytes) → Keeps asked (send (counting hid) packet)
  unfolding send
  send-asked packet = send_attempts-asked 3 packet (negsuc 0)

  get_report-asked :
      (buffer : Bytes) (s : Session (W × ℕ))
      → asked (get_report (counting hid) buffer s).1 ≤ asked s + 1
  get_report-asked buffer s = ground arith

  recv_attempts-asked :
      (left : ℕ) (buffer : Bytes) (s : Session (W × ℕ))
      → asked (recv_attempts (counting hid) left buffer s).1 ≤ asked s + suc left
  unfolding recv_attempts
  recv_attempts-asked zero buffer s = get_report-asked buffer s
  recv_attempts-asked (suc left) buffer s =
      then_call-state (λ t. asked t ≤ asked s + suc (suc left)) (get_report (counting hid) buffer s)
        _ (omega (arith, get_report-asked buffer s))
        λ received.
          retry (is_positive received.0) received (get_report (counting hid) buffer s).1
            (get_report-asked buffer s) (recv_attempts-asked left received.1)
    where
      retry :
          (b : Bool) (received : ℤ × Bytes) (s1 : Session (W × ℕ))
          → asked s1 ≤ asked s + 1
          → ((t : Session (W × ℕ))
              → asked (recv_attempts (counting hid) left received.1 t).1 ≤ asked t + suc left)
          → let m : Action (Session (W × ℕ)) (ℤ × Bytes) =
              if b
              then pure received
              else reconnect (counting hid)
                >> (sleep_retry_timeout (counting hid)
                    >> recv_attempts (counting hid) left received.1) in
            asked (m s1).1 ≤ asked s + suc (suc left)
      retry true received s1 once next = omega (arith, once)
      retry false received s1 once next =
          let s2 = (reconnect (counting hid) s1).1 in
          let s3 = (sleep_retry_timeout (counting hid) s2).1 in
          let slept : asked s3 ≡ asked s1 = reconnect-asked s1 in
          then_call-state (λ t. asked t ≤ asked s + suc (suc left)) (reconnect (counting hid) s1) _
            (omega (arith, once, slept))
            (λ _.
              let h : asked (recv_attempts (counting hid) left received.1 s3).1
                  ≤ asked s + suc (suc left) =
                omega (arith, once, slept, next s3) in
              h)

  -- `recv` asks at most once more than there are retries.
  pub recv-asked :
      (buffer : Bytes) (s : Session (W × ℕ))
      → asked (recv (counting hid) buffer s).1 ≤ asked s + suc (s.device.retry_receiving_count)
  unfolding recv
  recv-asked buffer s = recv_attempts-asked (s.device.retry_receiving_count) buffer s
