-- ===== src/Proto/Transaction/Receiving.antt =====
-- How the loops of `run` end.
use libnitrokey.Prelude.{ℕ, zero, suc, ◌*◌, min, ◌≡◌, refl, ◌⊎◌, inl, inr, true, false, arith}
use libnitrokey.Prelude.Int.{ℤ, is_positive}
use libnitrokey.Prelude.Bytes.{Bytes}
use libnitrokey.Exceptions.{Action, Yields, then_call-Yields_of, Yields-Keeps, Keeps, ◌>>◌}
use libnitrokey.Device.Hid.{Hid}
use libnitrokey.Device.Model.{DeviceModel}
use libnitrokey.Device.State.{Session}
use libnitrokey.Device.Link.{recv}
use libnitrokey.Device.Link.Laws.{recv-model}
use libnitrokey.Proto.Transaction.{
  Verdict, accepted, in_progress, waiting, unusable, verdict, Exchange, receive_once, receive_loop,
  drop_answer,
}
use libnitrokey.Proto.Transaction.Status.{IsTranslated, translate-IsTranslated}

abbrev pub model_of : {W : Type 0} → Session W → DeviceModel
model_of s = s.device.model

-- Where a loop stops: the retries have run out, or the last answer ended it. The answer was
-- translated for the device's model, which no call changes.
pub record Ended {W : Type 0} (model : DeviceModel) (x : Exchange) (s : Session W) : Type 0 where
  pub same_model : model_of s ≡ model
  pub translated : IsTranslated model (x.resp)
  pub reason :
      (x.successful ≡ false) × (is_positive (x.left) ≡ false)
      ⊎ (x.successful ≡ true) × ((verdict (x.resp) ≡ accepted) ⊎ (verdict (x.resp) ≡ in_progress))

module _ {S B : Type 0} (P : B → S → Type 0) (s : S) (a b c d : Action S B) where
  -- A split on the verdict.
  choose-Yields :
      (v : Verdict)
      → (v ≡ accepted → Yields P (a s))
      → (v ≡ in_progress → Yields P (b s))
      → Yields P (c s)
      → Yields P (d s)
      → let m : Action S B = elim v [
        | accepted ↦ a
        | in_progress ↦ b
        | waiting ↦ c
        | unusable ↦ d
      ] in
        Yields P (m s)
  choose-Yields accepted p q r t = p refl
  choose-Yields in_progress p q r t = q refl
  choose-Yields waiting p q r t = r
  choose-Yields unusable p q r t = t

module _ {W : Type 0} (hid : Hid W) (model : DeviceModel) where
  abbrev Fetched : ℤ × Bytes → Session W → Type 0
  Fetched received s = (model_of s ≡ model) × IsTranslated model received.1

  receive_once-Fetched :
      (resp : Bytes) (s : Session W) → model_of s ≡ model → Yields Fetched (receive_once hid resp s)
  unfolding receive_once
  receive_once-Fetched resp s e =
      then_call-Yields_of (λ received s'. model_of s' ≡ model) Fetched (recv hid resp _) _
        (Yields-Keeps model_of (recv hid resp) _ (recv-model hid resp) e)
        (λ received s' same. (same, rw same (translate-IsTranslated model received.1)))

  drop_answer-model : (timeout : ℕ) (resp : Bytes) → Keeps model_of (drop_answer hid timeout resp)
  unfolding drop_answer
  drop_answer-model timeout resp s = ground arith

  -- A dropped answer, and what follows.
  dropped :
      {B : Type 0} (P : B → Session W → Type 0) (k : Action (Session W) B) (timeout : ℕ)
      (resp : Bytes) (s : Session W)
      → model_of s ≡ model
      → ((s' : Session W) → model_of s' ≡ model → Yields P (k s'))
      → Yields P ((drop_answer hid timeout resp >> k) s)
  dropped P k timeout resp s e h =
      then_call-Yields_of (λ _ s'. model_of s' ≡ model) P (drop_answer hid timeout resp s) (λ _. k)
        (Yields-Keeps model_of (drop_answer hid timeout resp) s (drop_answer-model timeout resp) e)
        (λ _ s' q. h s' q)

  -- The receiving loop, from an answer that was translated or empty.
  pub receive_loop-Ended :
      (counter free timeout : ℕ) (resp : Bytes) (status : ℤ) (s : Session W)
      → model_of s ≡ model
      → IsTranslated model resp
      → Yields (Ended model) (receive_loop hid counter free timeout resp status s)
  unfolding receive_loop
  receive_loop-Ended zero free timeout resp status s e h = record {
    same_model = e;
    translated = h;
    reason = inl (refl, refl);
  }
  receive_loop-Ended (suc counter) zero timeout resp status s e h =
      then_call-Yields_of Fetched (Ended model) (receive_once hid resp s) _
        (receive_once-Fetched resp s e)
        λ a s' q.
          choose-Yields (Ended model) s' _ _ _ _ (verdict a.1)
            (λ v. record { same_model = q.0; translated = q.1; reason = inr (refl, inl v) })
            (λ v. record { same_model = q.0; translated = q.1; reason = inr (refl, inr v) })
            (dropped (Ended model) (receive_loop hid counter 10 (min (timeout * 2) 300) a.1 a.0)
              (min (timeout * 2) 300) a.1 _ q.0
              λ s'' same.
                receive_loop-Ended counter 10 (min (timeout * 2) 300) a.1 a.0 s'' same q.1)
            (dropped (Ended model) (receive_loop hid counter zero timeout a.1 a.0) timeout a.1 s'
              q.0 λ s'' same. receive_loop-Ended counter zero timeout a.1 a.0 s'' same q.1)
  receive_loop-Ended (suc counter) (suc free) timeout resp status s e h =
      then_call-Yields_of Fetched (Ended model) (receive_once hid resp s) _
        (receive_once-Fetched resp s e)
        λ a s' q.
          choose-Yields (Ended model) s' _ _ _ _ (verdict a.1)
            (λ v. record { same_model = q.0; translated = q.1; reason = inr (refl, inl v) })
            (λ v. record { same_model = q.0; translated = q.1; reason = inr (refl, inr v) })
            (dropped (Ended model) (receive_loop hid (suc counter) free timeout a.1 a.0) timeout a.1
              _ q.0 λ s'' same. receive_loop-Ended (suc counter) free timeout a.1 a.0 s'' same q.1)
            (dropped (Ended model) (receive_loop hid counter (suc free) timeout a.1 a.0) timeout a.1
              s' q.0 λ s'' same. receive_loop-Ended counter (suc free) timeout a.1 a.0 s'' same q.1)
