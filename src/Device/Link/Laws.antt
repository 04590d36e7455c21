-- ===== src/Device/Link/Laws.antt =====
-- What the retries of sending and receiving leave alone, and how they fail.
use libnitrokey.Prelude.{ap, Bool, ℕ, zero, suc, ◌≡◌, refl, ◌∙◌, none, arith}
use libnitrokey.Prelude.Int.{ℤ, pos, negsuc, is_negative, is_positive}
use libnitrokey.Prelude.Bytes.{Bytes}
use libnitrokey.Exceptions.{Action, when, Keeps, >>=-Keeps, when-Keeps, if-Keeps, pure, ◌>>◌}
use libnitrokey.Device.Hid.{Hid}
use libnitrokey.Device.State.{Device, Session, on_world}
use libnitrokey.Device.Link.{
  connect, disconnect, reconnect, require_handle, send_attempts, send, get_report,
  sleep_retry_timeout, recv_attempts, recv, could_be_enumerated,
}

-- A session without what a reconnection may change: the handle, its own counter and the world.
pub record Settled : Type 0 where
  pub device : Device
  pub instances_count : ℕ

unfoldable pub settled : {W : Type 0} → Session W → Settled
settled s = record {
  device = record (s.device) {
    handle = none;
    counters = record (s.device.counters) { low_level_reconnect = 0 };
  };
  instances_count = s.instances_count;
}

module _ {W : Type 0} (hid : Hid W) where
  connect-settled : (s : Session W) → settled (connect hid s).1 ≡ settled s
  unfolding connect settled
  connect-settled s = refl

  disconnect-settled : (s : Session W) → settled (disconnect hid s).1 ≡ settled s
  unfolding disconnect settled
  disconnect-settled s = ground arith

  pub disconnect-instances_count :
      (s : Session W) → (disconnect hid s).1.instances_count ≡ s.instances_count
  unfolding settled
  disconnect-instances_count s = ap (λ t. t.instances_count) (disconnect-settled s)

  pub connect-instances_count :
      (s : Session W) → (connect hid s).1.instances_count ≡ s.instances_count
  unfolding settled
  connect-instances_count s = ap (λ t. t.instances_count) (connect-settled s)

  pub could_be_enumerated-instances_count :
      (s : Session W) → (could_be_enumerated hid s).1.instances_count ≡ s.instances_count
  unfolding could_be_enumerated
  could_be_enumerated-instances_count s = ground arith

  reconnect-settled : (s : Session W) → settled (reconnect hid s).1 ≡ settled s
  unfolding reconnect
  reconnect-settled s = connect-settled _ ∙ disconnect-settled _ ∙ (unfold settled in refl)

  require_handle-settled : Keeps settled (require_handle hid)
  require_handle-settled s = ground arith

  world-settled : (s : Session W) (w : W) → settled (record s { world = w }) ≡ settled s
  unfolding settled
  world-settled s w = refl

  reconnect_if-settled :
      {A : Type 0} (b : Bool) (m : Action (Session W) A)
      → Keeps settled m
      → Keeps settled (when b (reconnect hid) >> m)
  reconnect_if-settled b m k =
      >>=-Keeps settled (when b (reconnect hid)) (λ _. m)
        (when-Keeps settled b (reconnect hid) reconnect-settled) (λ _. k)

  send_attempts-settled :
      (left : ℕ) (packet : Bytes) (status : ℤ)
      → Keeps settled (send_attempts hid left packet status)
  unfolding send_attempts
  send_attempts-settled zero packet status = λ s. refl
  send_attempts-settled (suc left) packet (pos n) = λ s. refl
  send_attempts-settled (suc left) packet (negsuc n) =
      >>=-Keeps settled (require_handle hid) _ require_handle-settled λ h.
        >>=-Keeps settled (on_world (hid.hid_send_feature_report h packet))
          (λ sent. when (is_negative sent) (reconnect hid) >> send_attempts hid left packet sent)
          (λ s. world-settled s _)
          λ sent.
            reconnect_if-settled (is_negative sent) (send_attempts hid left packet sent)
              (send_attempts-settled left packet sent)

  -- Whether it returns or throws, `Device::send` with its reconnections leaves every field of the
  -- device as it was, but for the handle and the count of reconnections, and the count of devices.
  pub send-settled : (packet : Bytes) → Keeps settled (send hid packet)
  unfolding send
  send-settled packet = send_attempts-settled 3 packet (negsuc 0)

  get_report-settled : (buffer : Bytes) → Keeps settled (get_report hid buffer)
  get_report-settled buffer =
      >>=-Keeps settled (require_handle hid) _ require_handle-settled λ h s. world-settled s _

  retry-settled :
      {A : Type 0} (m : Action (Session W) A)
      → Keeps settled m
      → Keeps settled (reconnect hid >> (sleep_retry_timeout hid >> m))
  retry-settled m k =
      >>=-Keeps settled (reconnect hid) (λ _. sleep_retry_timeout hid >> m) reconnect-settled
        λ _. >>=-Keeps settled (sleep_retry_timeout hid) (λ _. m) (λ s. world-settled s _) (λ _. k)

  recv_attempts-settled :
      (left : ℕ) (buffer : Bytes) → Keeps settled (recv_attempts hid left buffer)
  unfolding recv_attempts
  recv_attempts-settled zero buffer = get_report-settled buffer
  recv_attempts-settled (suc left) buffer =
      >>=-Keeps settled (get_report hid buffer) _ (get_report-settled buffer) λ received.
        if-Keeps settled (is_positive received.0) (pure received)
          (reconnect hid >> (sleep_retry_timeout hid >> recv_attempts hid left received.1))
          (λ s. refl)
          (retry-settled (recv_attempts hid left received.1)
            (recv_attempts-settled left received.1))

  -- Whether it returns or throws, `Device::recv` with its reconnections leaves every field of the
  -- device as it was, but for the handle and the count of reconnections, and the count of devices.
  pub recv-settled : (buffer : Bytes) → Keeps settled (recv hid buffer)
  unfolding recv
  recv-settled buffer s = recv_attempts-settled (s.device.retry_receiving_count) buffer s

  -- Whether they return or throw, `Device::send` and `Device::recv` with their reconnections leave every
  -- field of the device as it was, but for the handle and the count of reconnections, and the count of
  -- devices.
  pub link-settled :
      (packet buffer : Bytes) (s : Session W)
      → (settled (send hid packet s).1 ≡ settled s) × (settled (recv hid buffer s).1 ≡ settled s)
  link-settled packet buffer s = (send-settled packet s, recv-settled buffer s)

  pub recv-model : (buffer : Bytes) → Keeps (λ s. s.device.model) (recv hid buffer)
  recv-model buffer s = unfold settled in ap (λ t. t.device.model) (recv-settled buffer s)

  pub send-model : (packet : Bytes) → Keeps (λ s. s.device.model) (send hid packet)
  send-model packet s = unfold settled in ap (λ t. t.device.model) (send-settled packet s)
