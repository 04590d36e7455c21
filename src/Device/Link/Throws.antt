-- ===== src/Device/Link/Throws.antt =====
-- The only exception of the link: there is no handle.
use libnitrokey.Prelude.{Bool, true, false, ℕ, zero, suc, ◌≡◌, arith, if◌then◌else◌}
use libnitrokey.Prelude.Int.{ℤ, pos, negsuc, is_positive}
use libnitrokey.Prelude.Bytes.{Bytes}
use libnitrokey.Exceptions.{
  Action, Exception, device_not_connected, Throws, then_call-Throws, when, pure, ◌>>◌,
}
use libnitrokey.Device.Hid.{Hid}
use libnitrokey.Device.State.{Session}
use libnitrokey.Device.Link.{
  reconnect, require_handle, send_attempts, send, get_report, sleep_retry_timeout, recv_attempts,
  recv,
}

abbrev pub IsNotConnected : Exception → Type 0
IsNotConnected e = e ≡ device_not_connected

module _ {W : Type 0} (hid : Hid W) where
  require_handle-Throws : (s : Session W) → Throws IsNotConnected (require_handle hid s)
  require_handle-Throws s = ground arith

  reconnect_if-Throws :
      (b : Bool) (s : Session W) → Throws IsNotConnected (when b (reconnect hid) s)
  unfolding reconnect
  reconnect_if-Throws true s = tt
  reconnect_if-Throws false s = tt

  send_attempts-Throws :
      (left : ℕ) (packet : Bytes) (status : ℤ) (s : Session W)
      → Throws IsNotConnected (send_attempts hid left packet status s)
  unfolding send_attempts
  send_attempts-Throws zero packet status s = tt
  send_attempts-Throws (suc left) packet (pos n) s = tt
  send_attempts-Throws (suc left) packet (negsuc n) s =
      then_call-Throws IsNotConnected (require_handle hid s) _ (require_handle-Throws s) λ h s'.
        then_call-Throws IsNotConnected (when _ (reconnect hid) _) _ (reconnect_if-Throws _ _)
          λ _ s''. send_attempts-Throws left packet _ s''

  -- `send` throws `DeviceNotConnected` or returns.
  pub send-Throws : (packet : Bytes) (s : Session W) → Throws IsNotConnected (send hid packet s)
  unfolding send
  send-Throws packet s = send_attempts-Throws 3 packet (negsuc 0) s

  get_report-Throws :
      (buffer : Bytes) (s : Session W) → Throws IsNotConnected (get_report hid buffer s)
  get_report-Throws buffer s =
      then_call-Throws IsNotConnected (require_handle hid s) _ (require_handle-Throws s) λ h s'. tt

  if-Throws :
      {A : Type 0} (b : Bool) (m k : Action (Session W) A) (s : Session W)
      → Throws IsNotConnected (m s)
      → Throws IsNotConnected (k s)
      → let c : Action (Session W) A = if b then m else k in Throws IsNotConnected (c s)
  if-Throws true m k s p q = p
  if-Throws false m k s p q = q

  retry-Throws :
      {A : Type 0} (m : Action (Session W) A) (s : Session W)
      → ((s' : Session W) → Throws IsNotConnected (m s'))
      → Throws IsNotConnected ((reconnect hid >> (sleep_retry_timeout hid >> m)) s)
  unfolding reconnect
  retry-Throws m s h = h _

  recv_attempts-Throws :
      (left : ℕ) (buffer : Bytes) (s : Session W)
      → Throws IsNotConnected (recv_attempts hid left buffer s)
  unfolding recv_attempts
  recv_attempts-Throws zero buffer s = get_report-Throws buffer s
  recv_attempts-Throws (suc left) buffer s =
      then_call-Throws IsNotConnected (get_report hid buffer s) _ (get_report-Throws buffer s)
        λ received s'.
          if-Throws (is_positive received.0) (pure received)
            (reconnect hid >> (sleep_retry_timeout hid >> recv_attempts hid left received.1)) s' tt
            (retry-Throws (recv_attempts hid left received.1) s'
              (recv_attempts-Throws left received.1))

  -- So does `recv`.
  pub recv-Throws : (buffer : Bytes) (s : Session W) → Throws IsNotConnected (recv hid buffer s)
  unfolding recv
  recv-Throws buffer s = recv_attempts-Throws (s.device.retry_receiving_count) buffer s
