-- ===== src/Manager/Storage/Laws.antt =====
-- The commands of a Storage device.
use libnitrokey.Prelude.{
  ℕ, ◌≡◌, refl, ◌⊎◌, inl, inr, Bool, true, false, not, leb, ltb, ◌&&◌, arith, some,
}
use libnitrokey.Prelude.Bytes.{Bytes}
use libnitrokey.Exceptions.Reasons.{reason_smartcard_busy}
use libnitrokey.Exceptions.{
  Action, Result, ok, err, Yields, Throws, then_call, command_failed, long_operation_in_progress,
  when,
}
use libnitrokey.Device.Hid.{Hid}
use libnitrokey.Device.Model.{storage}
use libnitrokey.Misc.Fields.{CString}
use libnitrokey.Proto.Transaction.Errors.{IsRunError}
use libnitrokey.Commands.Command.{stick20}
use libnitrokey.Commands.Stick20.{Stick20}
use libnitrokey.Manager.Interface.{Link, execute}
use libnitrokey.Manager.Status.{set_unencrypted_volume_rorw_pin_type_user}
use libnitrokey.Manager.Authorization.{Role, admin, user}
use libnitrokey.Manager.State.{Manager}
use libnitrokey.Manager.Connection.{device_link}
use libnitrokey.Manager.Connection.Laws.{execute-IsRunError}
use libnitrokey.Manager.Storage.{
  catch_busy, execute_password_command, set_unencrypted_read_only_admin, set_unencrypted_read_only,
  set_unencrypted_read_write_admin, set_unencrypted_read_write, is_smartcard_in_use,
}

-- A call whose result is dropped.
abbrev pub forgotten : {S : Type 0} → Result Bool × S → Result (Unit {0}) × S
forgotten (ok b, s) = (ok tt, s)
forgotten (err e, s) = (err e, s)

module _ {S : Type 0} where
  only_one :
      (r : Result Bool × S) (by_admin by_user : Action S (Unit {0}))
      → let a = then_call (λ b. when (not b) by_admin) r in
        let u = then_call (λ b. when b by_user) r in
        ((a ≡ forgotten r) × (u ≡ then_call (λ _. by_user) r))
        ⊎ ((u ≡ forgotten r) × (a ≡ then_call (λ _. by_admin) r))
  only_one (ok true, s) by_admin by_user = inl (refl, refl)
  only_one (ok false, s) by_admin by_user = inr (refl, refl)
  only_one (err e, s) by_admin by_user = inl (refl, refl)

module _ {S : Type 0} (link : Link S) where
  -- Of setting the unencrypted volume with the admin PIN and with the user PIN, on the same state one
  -- does nothing but ask for the version, and the other sends its command after that question: for
  -- read-only and for read-write.
  pub set_unencrypted-exclusive :
      (admin_pin user_pin : CString) (s : S)
      → let q = set_unencrypted_volume_rorw_pin_type_user link s in
        let command : (ℕ → Bytes → Stick20) → Role → CString → Action S (Unit {0}) =
          execute_password_command link in
        (((set_unencrypted_read_only_admin link admin_pin s ≡ forgotten q)
            × (set_unencrypted_read_only link user_pin s
                ≡ then_call
                    (λ _. command Stick20.send_set_readonly_to_uncrypted_volume user user_pin)
                    q))
          ⊎ ((set_unencrypted_read_only link user_pin s ≡ forgotten q)
              × (set_unencrypted_read_only_admin link admin_pin s
                  ≡ then_call
                      (λ _. command Stick20.set_unencrypted_volume_read_only_admin admin admin_pin)
                      q)))
        × (((set_unencrypted_read_write_admin link admin_pin s ≡ forgotten q)
              × (set_unencrypted_read_write link user_pin s
                  ≡ then_call
                      (λ _. command Stick20.send_set_readwrite_to_uncrypted_volume user user_pin)
                      q))
            ⊎ ((set_unencrypted_read_write link user_pin s ≡ forgotten q)
                × (set_unencrypted_read_write_admin link admin_pin s
                    ≡ then_call
                        (λ _.
                          command Stick20.set_unencrypted_volume_read_write_admin admin admin_pin)
                        q)))
  unfolding set_unencrypted_read_only_admin set_unencrypted_read_only
      set_unencrypted_read_write_admin set_unencrypted_read_write
  set_unencrypted-exclusive admin_pin user_pin s = (
    only_one (set_unencrypted_volume_rorw_pin_type_user link s) _ _,
    only_one (set_unencrypted_volume_rorw_pin_type_user link s) _ _,
  )

-- The command failed with the status, in an answer that names a command outside the range of a
-- Storage's own.
abbrev pub FailedOutside : {S : Type 0} → ℕ → Result (Unit {0}) × S → Type 0
FailedOutside status (err (command_failed command status'), s) =
    (status' ≡ status) × ((leb 0x20 command && ltb command 0x60) ≡ false)
FailedOutside status _ = ⊥

own_or_not : (b : Bool) → (b ≡ true) ⊎ (b ≡ false)
own_or_not true = inl refl
own_or_not false = inr refl

busy :
    {S : Type 0} (r : Result (Unit {0}) × S)
    → Throws (IsRunError storage) r
    → Yields (λ b s. b ≡ true → FailedOutside 7 r) (catch_busy r)
unfolding catch_busy reason_smartcard_busy
busy (ok _, s) h = λ e. ground arith
busy (err (command_failed command status), s) h = λ e.
    elim (own_or_not (leb 0x20 command && ltb command 0x60)) [
      | inl own ↦ ground arith
      | inr other ↦ ground arith
    ]
busy (err (long_operation_in_progress command status progress), s) h = λ e. ground arith
busy (err e, s) h = tt

-- On a Storage device, `is_smartcard_in_use` returns true only where the command failed with the status
-- 7 in an answer that names a command outside the range of a Storage's own, 0x20 to 0x5f: an answer that
-- names the command that was sent never makes it true.
pub is_smartcard_in_use-FailedOutside :
    {W : Type 0} (hid : Hid W) (m : Manager W)
    → (device_link hid).device_model m ≡ some storage
    → Yields
        (λ b m'.
          b ≡ true
          → FailedOutside 7 (execute (device_link hid) (stick20 Stick20.check_smartcard_usage) m))
        (is_smartcard_in_use (device_link hid) m)
unfolding is_smartcard_in_use
is_smartcard_in_use-FailedOutside hid m e =
    busy (execute (device_link hid) (stick20 Stick20.check_smartcard_usage) m)
      (execute-IsRunError hid storage (stick20 Stick20.check_smartcard_usage) m e)
