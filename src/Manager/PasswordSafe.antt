-- ===== src/Manager/PasswordSafe.antt =====
-- The password safe.
use libnitrokey.Prelude.{ℕ, Bool, not, ltb}
use libnitrokey.Prelude.Bytes.{Bytes}
use libnitrokey.Exceptions.{Action, pure, throw_if, ◌>>=◌, ◌>>◌, invalid_slot}
use libnitrokey.Misc.Fields.{CString, strndup}
use libnitrokey.Commands.Command.{stick10}
use libnitrokey.Commands.Stick10.{Stick10}
use libnitrokey.Manager.Interface.{Link, field, execute, payload_bytes}
use libnitrokey.Manager.Slots.{max_string_field_length}

pub is_valid_password_safe_slot_number : ℕ → Bool
is_valid_password_safe_slot_number slot_number = ltb slot_number 16

module _ {S : Type 0} (link : Link S) where
  -- The first command cancels the second where the safe is not supported.
  pub enable_password_safe : CString → Action S (Unit {0})
  enable_password_safe user_pin = do
    tested ← field 20 user_pin
    execute link (stick10 (Stick10.is_aes_supported tested))
    password ← field 30 user_pin
    execute link (stick10 (Stick10.enable_password_safe password))

  pub get_password_safe_slot_status : Action S Bytes
  get_password_safe_slot_status = do
    payload ← link.transact (stick10 Stick10.get_password_safe_slot_status)
    pure (payload_bytes 0 16 payload)

  -- A text that fills its field is not terminated: `strndup` then reads on in the payload.
  pub get_password_safe_slot_name : ℕ → Action S Bytes
  get_password_safe_slot_name slot_number = do
    throw_if (not (is_valid_password_safe_slot_number slot_number)) (invalid_slot slot_number)
    payload ← link.transact (stick10 (Stick10.get_password_safe_slot_name slot_number))
    pure (strndup max_string_field_length payload)

  pub get_password_safe_slot_login : ℕ → Action S Bytes
  get_password_safe_slot_login slot_number = do
    throw_if (not (is_valid_password_safe_slot_number slot_number)) (invalid_slot slot_number)
    payload ← link.transact (stick10 (Stick10.get_password_safe_slot_login slot_number))
    pure (strndup max_string_field_length payload)

  pub get_password_safe_slot_password : ℕ → Action S Bytes
  get_password_safe_slot_password slot_number = do
    throw_if (not (is_valid_password_safe_slot_number slot_number)) (invalid_slot slot_number)
    payload ← link.transact (stick10 (Stick10.get_password_safe_slot_password slot_number))
    pure (strndup max_string_field_length payload)

  pub write_password_safe_slot : ℕ → CString → CString → CString → Action S (Unit {0})
  write_password_safe_slot slot_number slot_name slot_login slot_password = do
    throw_if (not (is_valid_password_safe_slot_number slot_number)) (invalid_slot slot_number)
    name ← field 11 slot_name
    password ← field 20 slot_password
    execute link (stick10 (Stick10.set_password_safe_slot_data slot_number name password))
    login ← field 32 slot_login
    execute link (stick10 (Stick10.set_password_safe_slot_data2 slot_number login))

  pub erase_password_safe_slot : ℕ → Action S (Unit {0})
  erase_password_safe_slot slot_number = do
    throw_if (not (is_valid_password_safe_slot_number slot_number)) (invalid_slot slot_number)
    execute link (stick10 (Stick10.erase_password_safe_slot slot_number))
