-- ===== src/Proto/Transaction/Outcome.antt =====
-- What a run returns.
use libnitrokey.Prelude.{ℕ, zero, suc, ◌≡◌, refl, inl, Bool, true, false, arith, if◌then◌else◌}
use libnitrokey.Prelude.Int.{ℤ, is_positive}
use libnitrokey.Prelude.Bytes.{Bytes}
use libnitrokey.Exceptions.{
  Action, Yields, then_call-Yields_of, Yields-Keeps, Keeps, Yields-imp, pure,
}
use libnitrokey.Device.Hid.{Hid}
use libnitrokey.Device.Model.{DeviceModel}
use libnitrokey.Device.State.{Session}
use libnitrokey.Device.Link.{send}
use libnitrokey.Device.Link.Laws.{send-model}
use libnitrokey.Proto.Packet.{
  device_status, last_command_status, is_valid_response, outgoing_packet,
}
use libnitrokey.Proto.Transaction.{
  verdict, is_progress, Exchange, send_loop, send_round, start, conclude, run, check_sent,
}
use libnitrokey.Proto.Transaction.Status.{IsTranslated}
use libnitrokey.Proto.Transaction.Receiving.{model_of, Ended, receive_loop-Ended}

-- An exchange whose response the tests behind the loops let through.
pub record Passes (x : Exchange) (resp : Bytes) : Type 0 where
  pub same : resp ≡ x.resp
  pub received : is_positive (x.status) ≡ true
  pub no_progress : is_progress (x.resp) ≡ false
  pub valid : is_valid_response (x.resp) ≡ true
  pub retries_left : is_positive (x.left) ≡ true
  pub succeeded : last_command_status (x.resp) ≡ 0

module _ {W : Type 0} (hid : Hid W) where
  pub conclude-Passes :
      (x : Exchange) (s : Session W) → Yields (λ resp s'. Passes x resp) (conclude hid x s)
  unfolding conclude
  conclude-Passes x s = ground arith

  check_sent-model : (sent : ℤ) → Keeps model_of (check_sent hid sent)
  unfolding check_sent
  check_sent-model sent s = ground arith

module _ {W : Type 0} (hid : Hid W) (model : DeviceModel) where
  pub send_round-Ended :
      (packet : Bytes) (x : Exchange) (s : Session W)
      → model_of s ≡ model
      → IsTranslated model (x.resp)
      → Yields (Ended model) (send_round hid packet x s)
  unfolding send_round
  send_round-Ended packet x s e h =
      then_call-Yields_of (λ sent s'. model_of s' ≡ model) (Ended model) (send hid packet _) _
        (Yields-Keeps model_of (send hid packet) _ (send-model hid packet) e)
        λ sent s' same.
          then_call-Yields_of (λ _ s''. model_of s'' ≡ model) (Ended model) (check_sent hid sent s')
            _ (Yields-Keeps model_of (check_sent hid sent) s' (check_sent-model hid sent) same)
            λ _ s'' same'. receive_loop-Ended hid model _ 10 _ (x.resp) sent _ same' h

  if-Yields :
      {S B : Type 0} (P : B → S → Type 0) (b : Bool) (m k : Action S B) (s : S)
      → Yields P (m s)
      → Yields P (k s)
      → let c : Action S B = if b then m else k in Yields P (c s)
  if-Yields P true m k s p q = p
  if-Yields P false m k s p q = q

  pub send_loop-Ended :
      (left : ℕ) (packet : Bytes) (x : Exchange) (s : Session W)
      → Ended model x s
      → Yields (Ended model) (send_loop hid left packet x s)
  unfolding send_loop
  send_loop-Ended zero packet x s h = h
  send_loop-Ended (suc left) packet x s h =
      then_call-Yields_of (Ended model) (Ended model) (send_round hid packet x s) _
        (send_round-Ended packet x s (h.same_model) (h.translated))
        λ y s' q.
          if-Yields (Ended model) (y.successful) (pure y) (send_loop hid left packet y) s' q
            (send_loop-Ended left packet y s' q)

  pub start-Ended : (s : Session W) → model_of s ≡ model → Ended model (start hid) s
  start-Ended s e = record { same_model = e; translated = λ h. inl refl; reason = inl (refl, refl) }

  -- An exchange that passes the tests was accepted by the loop.
  Passes-accepted :
      {x : Exchange} {resp : Bytes} {s : Session W}
      → Ended model x s
      → Passes x resp
      → (device_status resp ≡ 0) × (last_command_status resp ≡ 0) × (is_valid_response resp ≡ true)
  unfolding verdict
  Passes-accepted h p = ground arith

-- What a returned response reports: the device is ready, the command succeeded, and the checksum
-- field is not empty.
abbrev pub IsSuccess : Bytes → Type 0
IsSuccess resp =
    (device_status resp ≡ 0) × (last_command_status resp ≡ 0) × (is_valid_response resp ≡ true)

-- Whatever the device answers, `run` returns only a response in which the device status and the
-- status of the last command are both ok and the checksum field is not zero.
pub run-IsSuccess :
    {W : Type 0} (hid : Hid W) (command : ℕ) (payload : Bytes) (s : Session W)
    → Yields (λ resp s'. IsSuccess resp) (run hid command payload s)
unfolding run
run-IsSuccess hid command payload s =
    then_call-Yields_of (Ended (model_of s)) (λ resp s'. IsSuccess resp)
      (send_loop hid _ (outgoing_packet command payload) (start hid) _) (conclude hid)
      (send_loop-Ended hid (model_of s) _ _ _ _ (start-Ended hid (model_of s) _ refl))
      λ x s' h.
        Yields-imp (λ resp s''. Passes x resp) (λ resp s''. IsSuccess resp) (conclude hid x s')
          (λ resp s'' p. Passes-accepted hid (model_of s) h p) (conclude-Passes hid x s')
