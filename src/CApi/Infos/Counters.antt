-- ===== src/CApi/Infos/Counters.antt =====
-- The counter of a slot that `NK_read_HOTP_slot` reads.
use libnitrokey.Prelude.{ℕ, ◌≡◌, refl, Bool, true, false, Option, none, some, ap, ◌∙◌}
use libnitrokey.Prelude.Int.{ℤ, pos}
use libnitrokey.Prelude.Bytes.{Bytes}
use libnitrokey.Exceptions.{Result, ok, err, logic_error}
use libnitrokey.Device.Model.{DeviceModel}
use libnitrokey.Proto.Transaction.{is_storage}
use libnitrokey.Commands.Command.{stick10}
use libnitrokey.Commands.Stick10.{Stick10}
use libnitrokey.Commands.Responses.{slot_data}
use libnitrokey.Manager.Interface.{Link, connected_model}
use libnitrokey.Manager.Slots.{get_internal_slot_number_for_hotp}
use libnitrokey.Manager.SlotData.{
  is_ascii_counter, convert_counter, with_counter, get_otp_slot_data, get_hotp_slot_data,
}
use libnitrokey.CApi.Status.{Api, get_with_status, handle_status, status_of}
use libnitrokey.CApi.Structs.{NkReadSlot, nk_read_slot_of}
use libnitrokey.CApi.Infos.{unset, fill, written, nk_read_hotp_slot}

-- What the caller gets for a slot whose data was read, given whether its counter is text and what
-- `std::stoull` makes of that text.
pub read_answer :
    {S : Type 0} → Bool → Option ℕ → Bytes → S → Result (ℤ × Option NkReadSlot) × Api S
read_answer false counter payload s = (
  ok (pos 0, some (nk_read_slot_of (slot_data payload))),
  record { manager = s; nk_last_command_status = 0 },
)
read_answer true (some counter) payload s = (
  ok (pos 0, some (record (nk_read_slot_of (slot_data payload)) { slot_counter = counter })),
  record { manager = s; nk_last_command_status = 0 },
)
read_answer true none payload s =
    (err logic_error, record { manager = s; nk_last_command_status = 0 })

module _ {S : Type 0} (link : Link S) (stoull : Bytes → Option ℕ) where
  converted :
      (slot_num : ℕ) (model : DeviceModel) (payload : Bytes) (is_ascii : Bool) (s s1 s2 : S)
      → link.device_model s ≡ some model
      → link.transact (stick10 (Stick10.read_slot (get_internal_slot_number_for_hotp slot_num) 1)) s
        ≡ (ok payload, s1)
      → is_ascii_counter link stoull
          (is_storage model)
          (get_internal_slot_number_for_hotp slot_num)
          s1
        ≡ (ok is_ascii, s2)
      → get_hotp_slot_data link stoull slot_num s
        ≡ convert_counter link stoull is_ascii (slot_data payload) s2
  unfolding get_hotp_slot_data get_otp_slot_data connected_model
  converted slot_num model payload is_ascii s s1 s2 em et ea = rw (em, et, ea) refl

  answered :
      (is_ascii : Bool) (counter : Option ℕ) (payload : Bytes) (s : S)
      → stoull ((slot_data payload).slot_counter_s) ≡ counter
      → written nk_read_slot_of (
          handle_status
            (slot_data unset)
            (convert_counter link stoull is_ascii (slot_data payload) s))
        ≡ read_answer is_ascii counter payload s
  unfolding handle_status status_of convert_counter with_counter nk_read_slot_of read_answer
  answered false counter payload s e = refl
  answered true none payload s e = rw e refl
  answered true (some c) payload s e = rw e refl

  -- Where the slot is read and it is known whether its counter is text, `NK_read_HOTP_slot` returns 0
  -- with the number in the answer, or with the number of the text; a text that `std::stoull` refuses
  -- lets the exception out of the C function, with no error recorded.
  pub nk_read_hotp_slot-read_answer :
      (slot_num : ℕ) (model : DeviceModel) (payload : Bytes) (is_ascii : Bool) (s s1 s2 : S)
      (status : ℕ)
      → link.device_model s ≡ some model
      → link.transact (stick10 (Stick10.read_slot (get_internal_slot_number_for_hotp slot_num) 1)) s
        ≡ (ok payload, s1)
      → is_ascii_counter link stoull
          (is_storage model)
          (get_internal_slot_number_for_hotp slot_num)
          s1
        ≡ (ok is_ascii, s2)
      → nk_read_hotp_slot link stoull slot_num false
          (record { manager = s; nk_last_command_status = status })
        ≡ read_answer is_ascii (stoull ((slot_data payload).slot_counter_s)) payload s2
  unfolding nk_read_hotp_slot fill get_with_status
  nk_read_hotp_slot-read_answer slot_num model payload is_ascii s s1 s2 status em et ea =
      ap (λ r. written nk_read_slot_of (handle_status (slot_data unset) r))
        (converted slot_num model payload is_ascii s s1 s2 em et ea)
      ∙ answered is_ascii (stoull ((slot_data payload).slot_counter_s)) payload s2 refl
