-- ===== src/Manager/Pins/Laws.antt =====
-- Changing a PIN.
use libnitrokey.Prelude.{◌≡◌, refl, ap, ◌∙◌, some, ◌∷◌, []}
use libnitrokey.Prelude.Bytes.{Bytes}
use libnitrokey.Exceptions.{Exception, Result, ok, err, Yields, then_call, ◌>>◌, pure}
use libnitrokey.Device.Model.{storage}
use libnitrokey.Misc.Fields.{CString, strcpy_t}
use libnitrokey.Commands.Command.{Command, stick20}
use libnitrokey.Commands.Stick20.{Stick20}
use libnitrokey.Manager.Interface.{Link, execute, connected_model}
use libnitrokey.Manager.Authorization.{Role}
use libnitrokey.Manager.Authorization.Log.{Logged, logged, add_log}
use libnitrokey.Manager.Pins.{change_pin_general, kind_of}

module _ {S : Type 0} (link : Link S) where
  execute-log : (c : Command) (s : Logged S) → (execute (logged link) c s).1.1 ≡ c ∷ s.1
  unfolding execute logged
  execute-log c s = go (link.transact c s.0)
    where
      go : (r : Result Bytes × S) → (then_call (λ _. pure tt) (add_log (c ∷ s.1) r)).1.1 ≡ c ∷ s.1
      go (ok a, s') = refl
      go (err e, s') = refl

  execute_both-log :
      (c d : Command) (s : Logged S)
      → Yields (λ _ t. t.1 ≡ d ∷ c ∷ s.1) ((execute (logged link) c >> execute (logged link) d) s)
  execute_both-log c d s = go (execute (logged link) c s) (execute-log c s)
    where
      last :
          (r : Result (Unit {0}) × Logged S)
          → r.1.1 ≡ d ∷ c ∷ s.1
          → Yields (λ _ t. t.1 ≡ d ∷ c ∷ s.1) r
      last (ok a, t) e = e
      last (err x, t) e = tt

      go :
          (r : Result (Unit {0}) × Logged S)
          → r.1.1 ≡ c ∷ s.1
          → Yields (λ _ t. t.1 ≡ d ∷ c ∷ s.1) (then_call (λ _. execute (logged link) d) r)
      go (ok a, t) e = last (execute (logged link) d t) (execute-log d t ∙ ap (λ l. d ∷ l) e)
      go (err x, t) e = tt

  -- Over any link to a Storage device, for both PINs. Where the new PIN is too long for its 20 bytes
  -- and the current one fits, its exception is thrown and no command at all is sent. Where both fit,
  -- and the call returns, exactly two commands were sent: the current PIN first and the new one
  -- second, both with the kind of the PIN that is changed.
  pub change_pin_general_lem :
      (role : Role) (current_pin new_pin : CString) (current : Bytes) (s : Logged S)
      → link.device_model s.0 ≡ some storage
      → strcpy_t 20 [] current_pin ≡ ok current
      → ((e : Exception)
          → strcpy_t 20 [] new_pin ≡ err e
          → change_pin_general (logged link) role current_pin new_pin s ≡ (err e, s))
        × ((new : Bytes)
            → strcpy_t 20 [] new_pin ≡ ok new
            → Yields
                (λ _ t.
                  t.1
                  ≡ stick20 (Stick20.change_admin_user_pin20_new (kind_of role) new)
                    ∷ stick20 (Stick20.change_admin_user_pin20_current (kind_of role) current)
                    ∷ s.1)
                (change_pin_general (logged link) role current_pin new_pin s))
  unfolding change_pin_general connected_model logged
  change_pin_general_lem role current_pin new_pin current s m h =
      ((λ e h'. rw m (rw h (rw h' refl))), (λ new h'. rw m (rw h (rw h' (execute_both-log _ _ s)))))
