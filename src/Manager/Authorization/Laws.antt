-- ===== src/Manager/Authorization/Laws.antt =====
-- Old firmware is never sent an unauthorized change of a slot.
use libnitrokey.Prelude.{
  ℕ, ◌≡◌, refl, sym, ◌∙◌, Option, some, none, Bool, true, false, [], ◌∷◌, arith, if◌then◌else◌,
}
use libnitrokey.Prelude.Bytes.{Bytes}
use libnitrokey.Exceptions.{
  Action, Exception, Result, ok, err, Yields, then_call, then_call-Yields, then_call-state, ◌>>=◌,
  ◌>>◌, lift, pure, throw_if,
}
use libnitrokey.Device.Model.{DeviceModel}
use libnitrokey.Misc.Fields.{CString, strcpy_t}
use libnitrokey.Commands.Command.{Command}
use libnitrokey.Manager.Interface.{Link, connected_model, require_model, execute, field}
use libnitrokey.Manager.Status.{
  is_authorization_command_supported, get_minor_firmware_version, status_command,
}
use libnitrokey.Manager.Authorization.{admin, authorize_packet, authorization, crc_of}
use libnitrokey.Manager.Authorization.Log.{
  Logged, add_log, logged, needs_authorization, IsAuthorization, Authorized,
}

no_true : false ≡ true → ⊥
no_true e = ground arith

-- A call after which every protected command in the log is still authorized.
pub record KeepsAuthorized {S A : Type 0} (m : Action (Logged S) A) : Type 0 where
  pub kept : (s : Logged S) → Authorized s.1 → Authorized (m s).1.1

module _ {S : Type 0} where
  then_call-KeepsAuthorized :
      {A B : Type 0} (f : A → Action (Logged S) B) (r : Result A × Logged S)
      → ((a : A) → KeepsAuthorized (f a))
      → Authorized r.1.1
      → Authorized (then_call f r).1.1
  then_call-KeepsAuthorized f (ok a, s) h p = (h a).kept s p
  then_call-KeepsAuthorized f (err e, s) h p = p

  pub >>=-KeepsAuthorized :
      {A B : Type 0} (m : Action (Logged S) A) (f : A → Action (Logged S) B)
      → KeepsAuthorized m
      → ((a : A) → KeepsAuthorized (f a))
      → KeepsAuthorized (m >>= f)
  >>=-KeepsAuthorized m f k h = record {
    kept = λ s p. then_call-KeepsAuthorized f (m s) h (k.kept s p);
  }

  -- The same for what is called right after an authorization.
  then_call-after :
      {A B : Type 0} (Q : A → Logged S → Type 0) (r : Result A × Logged S)
      (f : A → Action (Logged S) B)
      → Yields Q r
      → Authorized r.1.1
      → ((a : A) (s : Logged S) → Q a s → Authorized s.1 → Authorized (f a s).1.1)
      → Authorized (then_call f r).1.1
  then_call-after Q (ok a, s) f q p h = h a s q p
  then_call-after Q (err e, s) f q p h = p

  pub lift-KeepsAuthorized : {A : Type 0} (r : Result A) → KeepsAuthorized {S = S} (lift r)
  lift-KeepsAuthorized r = record { kept = λ s p. p }

  pub if-KeepsAuthorized :
      {A : Type 0} (b : Bool) (m k : Action (Logged S) A)
      → KeepsAuthorized m
      → KeepsAuthorized k
      → KeepsAuthorized (if b then m else k)
  if-KeepsAuthorized true m k p q = p
  if-KeepsAuthorized false m k p q = q

  pub throw_if-KeepsAuthorized : (b : Bool) (e : Exception) → KeepsAuthorized {S = S} (throw_if b e)
  throw_if-KeepsAuthorized true e = record { kept = λ s p. p }
  throw_if-KeepsAuthorized false e = record { kept = λ s p. p }

  pub pure-KeepsAuthorized : {A : Type 0} (a : A) → KeepsAuthorized {S = S} (pure a)
  pure-KeepsAuthorized a = record { kept = λ s p. p }

  pub field-KeepsAuthorized : (size : ℕ) (src : CString) → KeepsAuthorized {S = S} (field size src)
  field-KeepsAuthorized size src = lift-KeepsAuthorized (strcpy_t size [] src)

module _ {S : Type 0} (link : Link S) where
  pub transact-Authorized :
      (c : Command) (s : Logged S)
      → (needs_authorization c ≡ true → IsAuthorization c s.1)
      → Authorized s.1
      → Authorized ((logged link).transact c s).1.1
  unfolding logged Authorized
  transact-Authorized c s h p = (h, p)

  pub execute-Authorized :
      (c : Command) (s : Logged S)
      → (needs_authorization c ≡ true → IsAuthorization c s.1)
      → Authorized s.1
      → Authorized (execute (logged link) c s).1.1
  unfolding execute
  execute-Authorized c s h p =
      then_call-state (λ t. Authorized t.1) ((logged link).transact c s) (λ _. pure tt)
        (transact-Authorized c s h p) (λ _. transact-Authorized c s h p)

  status-KeepsAuthorized :
      (model : DeviceModel) → KeepsAuthorized ((logged link).transact (status_command model))
  unfolding logged Authorized status_command needs_authorization
  status-KeepsAuthorized DeviceModel.pro = record { kept = λ s p. ((λ e. absurd (no_true e)), p) }
  status-KeepsAuthorized DeviceModel.storage = record {
    kept = λ s p. ((λ e. absurd (no_true e)), p);
  }
  status-KeepsAuthorized DeviceModel.librem = record {
    kept = λ s p. ((λ e. absurd (no_true e)), p);
  }

  require_model-KeepsAuthorized :
      (model : Option DeviceModel) → KeepsAuthorized {S = S} (require_model model)
  require_model-KeepsAuthorized none = record { kept = λ s p. p }
  require_model-KeepsAuthorized (some model) = record { kept = λ s p. p }

  pub connected_model-KeepsAuthorized : KeepsAuthorized (connected_model (logged link))
  unfolding connected_model
  connected_model-KeepsAuthorized = record {
    kept = λ s. (require_model-KeepsAuthorized ((logged link).device_model s)).kept s;
  }

  minor-KeepsAuthorized : KeepsAuthorized (get_minor_firmware_version (logged link))
  unfolding get_minor_firmware_version
  minor-KeepsAuthorized =
      >>=-KeepsAuthorized (connected_model (logged link)) _ connected_model-KeepsAuthorized λ model.
        >>=-KeepsAuthorized ((logged link).transact (status_command model)) _
          (status-KeepsAuthorized model) λ payload. pure-KeepsAuthorized _

  pub supported-KeepsAuthorized : KeepsAuthorized (is_authorization_command_supported (logged link))
  unfolding is_authorization_command_supported
  supported-KeepsAuthorized =
      >>=-KeepsAuthorized (connected_model (logged link)) _ connected_model-KeepsAuthorized λ model.
        >>=-KeepsAuthorized (get_minor_firmware_version (logged link)) _ minor-KeepsAuthorized
          λ minor. pure-KeepsAuthorized _

  authorization-Authorized :
      (crc : ℕ) (password : Bytes) (s : Logged S)
      → Authorized s.1
      → Authorized (execute (logged link) (authorization admin crc password) s).1.1
  unfolding authorization needs_authorization
  authorization-Authorized crc password s p =
      execute-Authorized (authorization admin crc password) s (λ e. absurd (no_true e)) p

  authorization-IsAuthorization :
      (c : Command) (password : Bytes) (s : Logged S)
      → Yields
          (λ _ t. IsAuthorization c t.1)
          (execute (logged link) (authorization admin (crc_of c) password) s)
  unfolding authorization execute logged IsAuthorization
  authorization-IsAuthorization c password s =
      go (link.transact (authorization admin (crc_of c) password) s.0)
    where
      go :
          (r : Result Bytes × S)
          → Yields
              (λ _ t. IsAuthorization c t.1)
              (then_call (λ _. pure tt) (add_log (authorization admin (crc_of c) password ∷ s.1) r))
      go (ok a, s') = refl
      go (err e, s') = tt

  authorize_packet-KeepsAuthorized :
      (c : Command) (password : CString)
      → KeepsAuthorized (authorize_packet (logged link) admin c password)
  unfolding authorize_packet
  authorize_packet-KeepsAuthorized c password =
      >>=-KeepsAuthorized (is_authorization_command_supported (logged link)) _
        supported-KeepsAuthorized
        λ _.
          >>=-KeepsAuthorized (field 25 password) _ (field-KeepsAuthorized 25 password)
            λ p. record { kept = authorization-Authorized (crc_of c) p }

  authorize_packet-IsAuthorization :
      (c : Command) (password : CString) (s : Logged S)
      → Yields (λ _ t. IsAuthorization c t.1) (authorize_packet (logged link) admin c password s)
  unfolding authorize_packet
  authorize_packet-IsAuthorization c password s =
      then_call-Yields (λ _ t. IsAuthorization c t.1)
        (is_authorization_command_supported (logged link) s) _
        λ _ s'.
          then_call-Yields (λ _ t. IsAuthorization c t.1) (lift (strcpy_t 25 [] password) s')
            (λ p. execute (logged link) (authorization admin (crc_of c) p))
            λ p s''. authorization-IsAuthorization c p s''

  -- A protected command right after its authorization.
  pub authorized_execute-KeepsAuthorized :
      {B : Type 0} (c : Command) (password : CString) (k : Action (Logged S) B)
      → KeepsAuthorized k
      → KeepsAuthorized
          (authorize_packet (logged link) admin c password >> (execute (logged link) c >> k))
  authorized_execute-KeepsAuthorized c password k h = record {
    kept = λ s p.
        then_call-after (λ _ t. IsAuthorization c t.1)
          (authorize_packet (logged link) admin c password s) _
          (authorize_packet-IsAuthorization c password s)
          ((authorize_packet-KeepsAuthorized c password).kept s p)
          λ _ s' q p'.
            then_call-KeepsAuthorized (λ _. k) (execute (logged link) c s') (λ _. h)
              (execute-Authorized c s' (λ _. q) p');
  }

  pub authorized_last-KeepsAuthorized :
      (c : Command) (password : CString)
      → KeepsAuthorized (authorize_packet (logged link) admin c password >> execute (logged link) c)
  authorized_last-KeepsAuthorized c password = record {
    kept = λ s p.
        then_call-after (λ _ t. IsAuthorization c t.1)
          (authorize_packet (logged link) admin c password s) _
          (authorize_packet-IsAuthorization c password s)
          ((authorize_packet-KeepsAuthorized c password).kept s p)
          λ _ s' q p'. execute-Authorized c s' (λ _. q) p';
  }

  -- A command that needs none.
  pub execute-KeepsAuthorized :
      (c : Command) → needs_authorization c ≡ false → KeepsAuthorized (execute (logged link) c)
  execute-KeepsAuthorized c e = record {
    kept = λ s. execute-Authorized c s (λ e'. absurd (no_true (sym e ∙ e')));
  }
