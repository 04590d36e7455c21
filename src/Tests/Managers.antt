-- ===== src/Tests/Managers.antt =====
-- Operations of the manager and of the C interface over a device that answers every command.
use libnitrokey.Prelude.{arith, ℕ, ◌≡◌, refl, true, false, some, none, [], ◌∷◌, Option}
use libnitrokey.Prelude.Bytes.{Bytes, zero_filled}
use libnitrokey.Exceptions.{Action, Yields, ok, throw, invalid_slot, invalid_crc_received, err}
use libnitrokey.Device.Model.{DeviceModel, pro, storage}
use libnitrokey.Misc.Fields.{strcpy_t}
use libnitrokey.Commands.Command.{stick20}
use libnitrokey.Commands.Stick20.{Stick20}
use libnitrokey.Manager.Interface.{Link}
use libnitrokey.Manager.Authorization.{user}
use libnitrokey.Manager.Authorization.Log.{logged}
use libnitrokey.Manager.Authorization.Laws.{KeepsAuthorized}
use libnitrokey.Manager.Slots.{
  erase_hotp_slot, erase_totp_slot, is_valid_hotp_slot_number, is_valid_totp_slot_number,
  get_hotp_code, get_hotp_slot_name,
}
use libnitrokey.Manager.Slots.Ranges.{slots_refused}
use libnitrokey.Manager.Slots.Laws.{erase_slots-KeepsAuthorized}
use libnitrokey.Manager.Writing.{OtpSlot, write_hotp_slot, write_totp_slot}
use libnitrokey.Manager.Writing.Laws.{write_slots-KeepsAuthorized}
use libnitrokey.Manager.Pins.{kind_of, change_pin_general}
use libnitrokey.Manager.Pins.Laws.{change_pin_general_lem}
use libnitrokey.CApi.Status.{Api, get_without_result, get_with_status}
use libnitrokey.CApi.Status.Laws.{get_without_result_lem}

-- The state is the model of the connected device, and every answer is empty.
abbrev pub obedient : Link (Option DeviceModel)
obedient = record { device_model = λ s. s; transact = λ c s. (ok [], s) }

abbrev pub pin : Bytes
pin = b'1' ∷ b'2' ∷ b'3' ∷ []

valid_hotp : is_valid_hotp_slot_number 2 ≡ true
unfolding is_valid_hotp_slot_number
valid_hotp = refl

valid_totp : is_valid_totp_slot_number 14 ≡ true
unfolding is_valid_totp_slot_number
valid_totp = refl

abbrev last_hotp : ℕ
last_hotp = 2

abbrev last_totp : ℕ
last_totp = 14

-- HOTP slot 3 is refused.
slots_refused_example :
    (get_hotp_code obedient 3 none (some pro) ≡ (err (invalid_slot 3), some pro))
    × (erase_hotp_slot obedient 3 none (some pro) ≡ (err (invalid_slot 3), some pro))
    × (get_hotp_slot_name obedient 3 (some pro) ≡ (err (invalid_slot 3), some pro))
slots_refused_example = (slots_refused obedient 3 14 0 0 0 none (some pro)).0 (omega arith)

abbrev slot : OtpSlot
slot = record {
  slot_name = some (b'a' ∷ []);
  secret = b'0' ∷ b'a' ∷ [];
  config = record { use_8_digits = true; use_enter = false; use_token_id = false };
  token_id = none;
  temporary_password = some pin;
}

erase_slots-KeepsAuthorized_example :
    KeepsAuthorized (erase_hotp_slot (logged obedient) 1 (some pin))
    × KeepsAuthorized (erase_totp_slot (logged obedient) 1 (some pin))
erase_slots-KeepsAuthorized_example = erase_slots-KeepsAuthorized obedient 1 (some pin)

write_slots-KeepsAuthorized_example :
    KeepsAuthorized (write_hotp_slot (logged obedient) 1 30 slot)
    × KeepsAuthorized (write_totp_slot (logged obedient) 1 30 slot)
write_slots-KeepsAuthorized_example = write_slots-KeepsAuthorized obedient 1 30 slot

stored_pin : strcpy_t 20 [] (some pin) ≡ ok (zero_filled 20 pin)
unfolding strcpy_t
stored_pin = refl

change_pin_general_lem_example :
    Yields
      (λ _ t.
        t.1
        ≡ stick20 (Stick20.change_admin_user_pin20_new (kind_of user) (zero_filled 20 pin))
          ∷ stick20 (Stick20.change_admin_user_pin20_current (kind_of user) (zero_filled 20 pin))
          ∷ [])
      (change_pin_general (logged obedient) user (some pin) (some pin) (some storage, []))
change_pin_general_lem_example =
    (change_pin_general_lem obedient user (some pin) (some pin) (zero_filled 20 pin)
        (some storage, []) refl stored_pin).1
      (zero_filled 20 pin) stored_pin

abbrev api_state : Api ℕ
api_state = record { manager = 5; nk_last_command_status = 9 }

abbrev damaged : Action ℕ ℕ
damaged = throw invalid_crc_received

get_without_result_lem_example :
    (get_without_result damaged api_state
      ≡ (ok 0, record { manager = 5; nk_last_command_status = 0 }))
    × (get_with_status damaged 7 api_state
        ≡ (ok (255, 7), record { manager = 5; nk_last_command_status = 255 }))
get_without_result_lem_example = (get_without_result_lem damaged 7 api_state).0 refl
