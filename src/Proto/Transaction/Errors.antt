-- ===== src/Proto/Transaction/Errors.antt =====
-- What a run throws.
use libnitrokey.Prelude.{
  ℕ, zero, suc, ◌*◌, min, ◌≡◌, ◌≢◌, refl, ◌⊎◌, Bool, true, false, ◌&&◌, arith, if◌then◌else◌, leb,
  ltb,
}
use libnitrokey.Prelude.Int.{ℤ, is_positive}
use libnitrokey.Prelude.Bytes.{Bytes}
use libnitrokey.Exceptions.{
  Action, Throws, Throws-imp, then_call-Throws, then_call-Throws_of, pure, ◌>>◌, Exception,
  device_not_connected, device_sending_failure, device_receiving_failure,
  long_operation_in_progress, invalid_crc_received, command_failed,
}
use libnitrokey.Device.Hid.{Hid}
use libnitrokey.Device.Model.{DeviceModel}
use libnitrokey.Device.State.{Session}
use libnitrokey.Device.Link.{send, recv}
use libnitrokey.Device.Link.Throws.{IsNotConnected, send-Throws, recv-Throws}
use libnitrokey.Proto.Packet.{device_status, command_id, last_command_status, outgoing_packet}
use libnitrokey.Proto.Transaction.{
  Verdict, accepted, in_progress, waiting, unusable, verdict, Exchange, receive_once, drop_answer,
  receive_loop, check_sent, send_round, send_loop, start, conclude, run, is_storage, is_progress,
}
use libnitrokey.Proto.Transaction.Receiving.{model_of, Ended}
use libnitrokey.Proto.Transaction.Outcome.{send_loop-Ended, start-Ended}

-- The exceptions of a run on a device of the model. In one of a Storage's own commands the status of
-- a failed command is 4, wrong password, or 10, AES decryption failed.
abbrev pub IsRunError : DeviceModel → Exception → Type 0
IsRunError model device_not_connected = Unit
IsRunError model device_receiving_failure = Unit
IsRunError model invalid_crc_received = Unit
IsRunError model (device_sending_failure sent) = is_positive sent ≡ false
IsRunError model (long_operation_in_progress command status progress) = status ≡ 1
IsRunError model (command_failed command status) =
    (status ≢ 0)
    × ((is_storage model && (leb 0x20 command && ltb command 0x60)) ≡ true
        → (status ≡ 4) ⊎ (status ≡ 10))
IsRunError model _ = ⊥

module _ {S B : Type 0} (P : Exception → Type 0) (s : S) (a b c d : Action S B) where
  choose-Throws :
      (v : Verdict)
      → Throws P (a s)
      → Throws P (b s)
      → Throws P (c s)
      → Throws P (d s)
      → let m : Action S B = elim v [
        | accepted ↦ a
        | in_progress ↦ b
        | waiting ↦ c
        | unusable ↦ d
      ] in
        Throws P (m s)
  choose-Throws accepted p q r t = p
  choose-Throws in_progress p q r t = q
  choose-Throws waiting p q r t = r
  choose-Throws unusable p q r t = t

module _ {W : Type 0} (hid : Hid W) where
  receive_once-Throws :
      (resp : Bytes) (s : Session W) → Throws IsNotConnected (receive_once hid resp s)
  unfolding receive_once
  receive_once-Throws resp s =
      then_call-Throws IsNotConnected (recv hid resp _) _ (recv-Throws hid resp _) (λ _ s'. tt)

  dropped-Throws :
      {B : Type 0} (k : Action (Session W) B) (timeout : ℕ) (resp : Bytes) (s : Session W)
      → ((s' : Session W) → Throws IsNotConnected (k s'))
      → Throws IsNotConnected ((drop_answer hid timeout resp >> k) s)
  dropped-Throws k timeout resp s h =
      then_call-Throws IsNotConnected (drop_answer hid timeout resp s) (λ _. k)
        (unfold drop_answer in ground arith) (λ _. h)

  receive_loop-Throws :
      (counter free timeout : ℕ) (resp : Bytes) (status : ℤ) (s : Session W)
      → Throws IsNotConnected (receive_loop hid counter free timeout resp status s)
  unfolding receive_loop
  receive_loop-Throws zero free timeout resp status s = tt
  receive_loop-Throws (suc counter) zero timeout resp status s =
      then_call-Throws IsNotConnected (receive_once hid resp s) _ (receive_once-Throws resp s)
        λ a s'.
          choose-Throws IsNotConnected s' _ _ _ _ (verdict a.1) tt tt
            (dropped-Throws (receive_loop hid counter 10 (min (timeout * 2) 300) a.1 a.0)
              (min (timeout * 2) 300) a.1 _
              (receive_loop-Throws counter 10 (min (timeout * 2) 300) a.1 a.0))
            (dropped-Throws (receive_loop hid counter zero timeout a.1 a.0) timeout a.1 s'
              (receive_loop-Throws counter zero timeout a.1 a.0))
  receive_loop-Throws (suc counter) (suc free) timeout resp status s =
      then_call-Throws IsNotConnected (receive_once hid resp s) _ (receive_once-Throws resp s)
        λ a s'.
          choose-Throws IsNotConnected s' _ _ _ _ (verdict a.1) tt tt
            (dropped-Throws (receive_loop hid (suc counter) free timeout a.1 a.0) timeout a.1 _
              (receive_loop-Throws (suc counter) free timeout a.1 a.0))
            (dropped-Throws (receive_loop hid counter (suc free) timeout a.1 a.0) timeout a.1 s'
              (receive_loop-Throws counter (suc free) timeout a.1 a.0))

module _ {W : Type 0} (hid : Hid W) (model : DeviceModel) where
  not_connected : (e : Exception) → IsNotConnected e → IsRunError model e
  not_connected e h = ground arith

  check_sent-Throws : (sent : ℤ) (s : Session W) → Throws (IsRunError model) (check_sent hid sent s)
  unfolding check_sent
  check_sent-Throws sent s = ground arith

  send_round-Throws :
      (packet : Bytes) (x : Exchange) (s : Session W)
      → Throws (IsRunError model) (send_round hid packet x s)
  unfolding send_round
  send_round-Throws packet x s =
      then_call-Throws (IsRunError model) (send hid packet _) _
        (Throws-imp IsNotConnected (IsRunError model) (send hid packet _) not_connected
          (send-Throws hid packet _))
        λ sent s'.
          then_call-Throws (IsRunError model) (check_sent hid sent s') _ (check_sent-Throws sent s')
            λ _ s''.
              Throws-imp IsNotConnected (IsRunError model) (receive_loop hid _ 10 _ (x.resp) sent _)
                not_connected (receive_loop-Throws hid _ 10 _ (x.resp) sent _)

  if-Throws :
      {S A : Type 0} (P : Exception → Type 0) (b : Bool) (m k : Action S A) (s : S)
      → Throws P (m s)
      → Throws P (k s)
      → let c : Action S A = if b then m else k in Throws P (c s)
  if-Throws P true m k s p q = p
  if-Throws P false m k s p q = q

  send_loop-Throws :
      (left : ℕ) (packet : Bytes) (x : Exchange) (s : Session W)
      → Throws (IsRunError model) (send_loop hid left packet x s)
  unfolding send_loop
  send_loop-Throws zero packet x s = tt
  send_loop-Throws (suc left) packet x s =
      then_call-Throws (IsRunError model) (send_round hid packet x s) _
        (send_round-Throws packet x s)
        λ y s'.
          if-Throws (IsRunError model) (y.successful) (pure y) (send_loop hid left packet y) s' tt
            (send_loop-Throws left packet y s')

  abbrev IsAnswerError : Exchange → Exception → Type 0
  IsAnswerError x device_receiving_failure = Unit
  IsAnswerError x invalid_crc_received = Unit
  IsAnswerError x (long_operation_in_progress command status progress) =
      (status ≡ device_status (x.resp)) × (is_progress (x.resp) ≡ true)
  IsAnswerError x (command_failed command status) =
      (command ≡ command_id (x.resp)) × (status ≡ last_command_status (x.resp)) × (status ≢ 0)
  IsAnswerError x _ = ⊥

  conclude-IsAnswerError :
      (x : Exchange) (s : Session W) → Throws (IsAnswerError x) (conclude hid x s)
  unfolding conclude
  conclude-IsAnswerError x s = ground arith

  not_ok :
      (status : ℕ)
      → status ≢ 0
      → (status ≡ 0) ⊎ ((status ≡ 4) ⊎ (status ≡ 10))
      → (status ≡ 4) ⊎ (status ≡ 10)
  not_ok status h c = omega arith

  answer_error :
      (x : Exchange) (s : Session W)
      → Ended model x s
      → (e : Exception) → IsAnswerError x e
      → IsRunError model e
  answer_error x s h device_receiving_failure p = tt
  answer_error x s h invalid_crc_received p = tt
  answer_error x s h (long_operation_in_progress command status progress) p = ground arith
  answer_error x s h (command_failed command status) p =
      (p.2, λ own. not_ok status (p.2) (rw p.1 (h.translated (rw p.0 at own))))
  answer_error x s h (device_sending_failure z) p = absurd p
  answer_error x s h _ p = absurd p

  conclude-Throws :
      (x : Exchange) (s : Session W)
      → Ended model x s
      → Throws (IsRunError model) (conclude hid x s)
  conclude-Throws x s h =
      Throws-imp (IsAnswerError x) (IsRunError model) (conclude hid x s) (answer_error x s h)
        (conclude-IsAnswerError x s)

-- Whatever the device answers, `run` throws only the exceptions of communication, that of a command
-- that failed, with a status other than ok, and that of a long operation, with the status busy. Where
-- a command of a Storage device fails in an answer that names one of its own commands, 0x20 to 0x5f,
-- the status is 4 (wrong_password) or 10 (AES_dec_failed).
pub run-IsRunError :
    {W : Type 0} (hid : Hid W) (command : ℕ) (payload : Bytes) (s : Session W)
    → Throws (IsRunError (model_of s)) (run hid command payload s)
unfolding run
run-IsRunError hid command payload s =
    then_call-Throws_of (Ended (model_of s)) (IsRunError (model_of s))
      (send_loop hid _ (outgoing_packet command payload) (start hid) _) (conclude hid)
      (send_loop-Ended hid (model_of s) _ _ _ _ (start-Ended hid (model_of s) _ refl))
      (send_loop-Throws hid (model_of s) _ _ _ _) λ x s' h. conclude-Throws hid (model_of s) x s' h
