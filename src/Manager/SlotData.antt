-- ===== src/Manager/SlotData.antt =====
-- Reading the data of an OTP slot, random bytes and texts of the device (NitrokeyManager.cc).
use libnitrokey.Prelude.{
  ℕ, Option, none, some, Bool, true, false, ◌&&◌, ◌==◌, leb, if◌then◌else◌, [], ◌∷◌,
}
use libnitrokey.Prelude.Bytes.{Bytes}
use libnitrokey.Exceptions.{
  Action, Result, ok, err, pure, throw, ◌>>=◌, logic_error, device_not_connected,
}
use libnitrokey.Proto.Transaction.{is_storage}
use libnitrokey.Commands.Command.{stick10}
use libnitrokey.Commands.Stick10.{Stick10}
use libnitrokey.Commands.Responses.{SlotData, slot_data}
use libnitrokey.Manager.Interface.{Link, connected_model}
use libnitrokey.Manager.Status.{get_minor_firmware_version, get_serial_number_as_u32}
use libnitrokey.Manager.Slots.{
  is_internal_hotp_slot_number, get_internal_slot_number_for_totp,
  get_internal_slot_number_for_hotp,
}
use libnitrokey.Manager.ById.{to_hex}

-- The text in place of a serial number.
pub serial_text : Result ℕ → Result Bytes
serial_text (ok serial_number) =
    if serial_number == 0 then ok (b'N' ∷ b'A' ∷ []) else ok (to_hex serial_number)
serial_text (err device_not_connected) = ok []
serial_text (err e) = err e

-- The counter that `std::stoull` read, or its exception.
unfoldable pub with_counter : {S : Type 0} → SlotData → Option ℕ → Action S SlotData
with_counter payload none = throw logic_error
with_counter payload (some counter) = pure (record payload { slot_counter = counter })

module _ {S : Type 0} (link : Link S) where
  pub get_serial_number : Action S Bytes
  get_serial_number s = let (r, s') = get_serial_number_as_u32 link s in (serial_text r, s')

  -- `std::stoull` on the bytes of the counter is given; `none` is an argument that it refuses.
  module _ (stoull : Bytes → Option ℕ) where
    -- The version is asked for only of a Storage, and only then the slot is looked at.
    unfoldable pub is_ascii_counter : Bool → ℕ → Action S Bool
    is_ascii_counter false slot_number = pure false
    is_ascii_counter true slot_number = do
      minor ← get_minor_firmware_version link
      pure (leb minor 53 && is_internal_hotp_slot_number slot_number)

    unfoldable pub convert_counter : Bool → SlotData → Action S SlotData
    convert_counter false payload = pure payload
    convert_counter true payload = with_counter payload (stoull (payload.slot_counter_s))

    unfoldable pub get_otp_slot_data : ℕ → Action S SlotData
    get_otp_slot_data slot_number = do
      model ← connected_model link
      payload ← link.transact (stick10 (Stick10.read_slot slot_number 1))
      is_ascii ← is_ascii_counter (is_storage model) slot_number
      convert_counter is_ascii (slot_data payload)

    pub get_totp_slot_data : ℕ → Action S SlotData
    get_totp_slot_data slot_number =
        get_otp_slot_data (get_internal_slot_number_for_totp slot_number)

    unfoldable pub get_hotp_slot_data : ℕ → Action S SlotData
    get_hotp_slot_data slot_number =
        get_otp_slot_data (get_internal_slot_number_for_hotp slot_number)
