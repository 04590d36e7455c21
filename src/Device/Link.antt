-- ===== src/Device/Link.antt =====
-- Connecting, disconnecting, and the retries of sending and receiving one report (device.cc). The
-- mutex makes each of these calls atomic.
pub mod Laws
pub mod Throws
pub mod Asked
use libnitrokey.Prelude.{
  ℕ, zero, suc, ◌+◌, Bool, true, false, Option, none, some, List, [], ◌∷◌, ◌==◌, if◌then◌else◌,
}
use libnitrokey.Prelude.Int.{ℤ, negsuc, is_negative, is_positive}
use libnitrokey.Prelude.Bytes.{Bytes}
use libnitrokey.Exceptions.{
  Action, Result, ok, err, device_not_connected, pure, gets, modify, when, ◌>>=◌, ◌>>◌,
}
use libnitrokey.Device.Hid.{Hid}
use libnitrokey.Device.State.{Device, Session, on_device, on_world, count}

abbrev pub is_connected : Option ℕ → Bool
is_connected none = false
is_connected (some h) = true

module _ {W : Type 0} (hid : Hid W) where
  -- `hid_close`, and `hid_exit` for the last instance.
  abbrev close_handle : ℕ → Session W → Session W
  close_handle h s =
      let closed = hid.hid_close h s.world in
      record s {
        device = record (s.device) { handle = none };
        world = if s.instances_count == 1 then hid.hid_exit closed else closed;
      }

  -- `Device::_disconnect`
  pub disconnect : Session W → Bool × Session W
  disconnect s = elim (s.device.handle) [ none ↦ (false, s) | some h ↦ (true, close_handle h s) ]

  abbrev open_handle : Session W → Option ℕ × W
  open_handle s = elim (s.device.path) [
    | [] ↦ hid.hid_open (s.device.vid) (s.device.pid) s.world
    | _ ∷ _ ↦ hid.hid_open_path (s.device.path) s.world
  ]

  -- `Device::_connect`: by path where one is set.
  unfoldable pub connect : Session W → Bool × Session W
  connect s =
      let (h, w) = open_handle s in
      (is_connected h, record s { device = record (s.device) { handle = h }; world = w })

  -- `Device::_reconnect`
  pub reconnect : Action (Session W) (Unit {0})
  reconnect = do
    count (λ c. record c { low_level_reconnect = c.low_level_reconnect + 1 })
    modify (λ s. (disconnect s).1)
    modify (λ s. (connect s).1)

  abbrev pub require_handle : Action (Session W) ℕ
  require_handle s = elim (s.device.handle) [
    | none ↦ (err device_not_connected, s)
    | some h ↦ (ok h, s)
  ]

  -- The loop of `Device::send`, with the attempts left and the last status.
  unfoldable pub send_attempts : ℕ → Bytes → ℤ → Action (Session W) ℤ
  send_attempts zero packet status = pure status
  send_attempts (suc left) packet status =
      if is_negative status
      then (do
        h ← require_handle
        sent ← on_world (hid.hid_send_feature_report h packet)
        when (is_negative sent) reconnect
        send_attempts left packet sent)
      else pure status

  unfoldable pub send : Bytes → Action (Session W) ℤ
  send packet = send_attempts 3 packet (negsuc 0)

  abbrev read_report : ℕ → Bytes → Action (Session W) (ℤ × Bytes)
  read_report h buffer s =
      let (status, filled, w) = hid.hid_get_feature_report h buffer s.world in
      (ok (status, filled), record s { world = w })

  abbrev get_report : Bytes → Action (Session W) (ℤ × Bytes)
  get_report buffer = do h ← require_handle; read_report h buffer

  abbrev sleep_retry_timeout : Action (Session W) (Unit {0})
  sleep_retry_timeout s =
      (ok tt, record s { world = hid.sleep_for (s.device.retry_timeout) s.world })

  -- The loop of `Device::recv`, with `m_retry_receiving_count - retry_count` retries left. It
  -- returns the status and the buffer.
  unfoldable pub recv_attempts : ℕ → Bytes → Action (Session W) (ℤ × Bytes)
  recv_attempts zero buffer = get_report buffer
  recv_attempts (suc left) buffer = do
    received ← get_report buffer
    if is_positive received.0
        then pure received
        else (do reconnect; sleep_retry_timeout; recv_attempts left received.1)

  unfoldable pub recv : Bytes → Action (Session W) (ℤ × Bytes)
  recv buffer s = recv_attempts (s.device.retry_receiving_count) buffer s

  -- `Device::could_be_enumerated`, but for Apple systems.
  unfoldable pub could_be_enumerated : Session W → Bool × Session W
  could_be_enumerated s = elim (s.device.handle) [
    | none ↦ (false, s)
    | some h ↦
        let (infos, w) = hid.hid_enumerate (s.device.vid) (s.device.pid) s.world in
        (elim infos [ [] ↦ false | _ ∷ _ ↦ true ], record s { world = w })
  ]
