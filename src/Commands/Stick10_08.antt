-- ===== src/Commands/Stick10_08.antt =====
-- The commands that stick10_commands_0.8.h declares anew, as in Stick10. `get_hotp_08` has 17 bytes
-- that are not used, between its two members.
pub mod Payloads
use libnitrokey.Prelude.{ℕ, [], ◌++◌}
use libnitrokey.Prelude.Bytes.{Bytes, le_bytes}
use libnitrokey.Commands.Ids.{CommandId}
use libnitrokey.Commands.Layout.{SlotConfig, slot_config, byte, c_array}
use libnitrokey.Commands.Stick10_08.Payloads.{
  pack_erase_slot_08, pack_send_otp_data, pack_write_to_otp_slot, pack_get_hotp_08,
  pack_get_totp_08, pack_write_general_config,
}

pub data Stick10_08 : Type 0 where
  erase_slot_08 : (slot_number : ℕ) → (temporary_admin_password : Bytes) → Stick10_08
  send_otp_data :
      (temporary_admin_password : Bytes) → (type : ℕ) → (id : ℕ) → (content : Bytes) → Stick10_08
  write_to_otp_slot :
      (temporary_admin_password : Bytes)
      → (slot_number : ℕ) → (slot_counter_or_interval : ℕ) → (config : SlotConfig)
      → (slot_token_id : Bytes) → Stick10_08
  get_hotp_08 : (slot_number : ℕ) → (temporary_user_password : Bytes) → Stick10_08
  get_totp_08 :
      (slot_number : ℕ)
      → (challenge : ℕ) → (last_totp_time : ℕ) → (last_interval : ℕ)
      → (temporary_user_password : Bytes) → Stick10_08
  write_general_config :
      (numlock : ℕ)
      → (capslock : ℕ) → (scrolllock : ℕ) → (enable_user_password : ℕ) → (delete_user_password : ℕ)
      → (temporary_admin_password : Bytes) → Stick10_08

pub command_of : Stick10_08 → CommandId
command_of (erase_slot_08 _ _) = CommandId.erase_slot
command_of (send_otp_data _ _ _ _) = CommandId.send_otp_data
command_of (write_to_otp_slot _ _ _ _ _) = CommandId.write_to_slot
command_of (get_hotp_08 _ _) = CommandId.get_code
command_of (get_totp_08 _ _ _ _ _) = CommandId.get_code
command_of (write_general_config _ _ _ _ _ _) = CommandId.write_config

-- The packed payload.
unfoldable pub pack : Stick10_08 → Bytes
pack (erase_slot_08 slot_number temporary_admin_password) =
    pack_erase_slot_08 slot_number temporary_admin_password
pack (send_otp_data temporary_admin_password type id content) =
    pack_send_otp_data temporary_admin_password type id content
pack
      (write_to_otp_slot temporary_admin_password slot_number slot_counter_or_interval config
        slot_token_id) =
    pack_write_to_otp_slot temporary_admin_password slot_number slot_counter_or_interval config
      slot_token_id
pack (get_hotp_08 slot_number temporary_user_password) =
    pack_get_hotp_08 slot_number temporary_user_password
pack (get_totp_08 slot_number challenge last_totp_time last_interval temporary_user_password) =
    pack_get_totp_08 slot_number challenge last_totp_time last_interval temporary_user_password
pack
      (write_general_config numlock capslock scrolllock enable_user_password delete_user_password
        temporary_admin_password) =
    pack_write_general_config numlock capslock scrolllock enable_user_password delete_user_password
      temporary_admin_password
