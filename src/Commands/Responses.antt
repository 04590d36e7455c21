-- ===== src/Commands/Responses.antt =====
-- The members of the responses of stick10_commands.h and stick20_commands.h that the library hands
-- on, read out of a payload. Arrays are the bytes in them; a bit field is a bit of its byte, the
-- lowest first.
use libnitrokey.Prelude.{ℕ, ◌/◌, ◌%◌, ◌^◌, Bool, ◌==◌}
use libnitrokey.Prelude.Bytes.{Bytes, le_value}
use libnitrokey.Manager.Interface.{payload_byte, payload_bytes, payload_u32}

abbrev pub payload_u16 : ℕ → Bytes → ℕ
payload_u16 i payload = le_value (payload_bytes i 2 payload)

abbrev pub payload_bit : ℕ → ℕ → Bytes → Bool
payload_bit i bit payload = (payload_byte i payload / 2 ^ bit) % 2 == 1

-- `GetStatus::ResponsePayload`
pub record StickStatus : Type 0 where
  pub minor : ℕ
  pub major : ℕ
  pub card_serial_u32 : ℕ
  pub numlock : ℕ
  pub capslock : ℕ
  pub scrolllock : ℕ
  pub enable_user_password : ℕ
  pub delete_user_password : ℕ

unfoldable pub stick_status : Bytes → StickStatus
stick_status payload = record {
  minor = payload_byte 0 payload;
  major = payload_byte 1 payload;
  card_serial_u32 = payload_u32 2 payload;
  numlock = payload_byte 6 payload;
  capslock = payload_byte 7 payload;
  scrolllock = payload_byte 8 payload;
  enable_user_password = payload_byte 9 payload;
  delete_user_password = payload_byte 10 payload;
}

-- `ReadSlot::ResponsePayload`; `slot_counter_s` are the bytes of `slot_counter`.
pub record SlotData : Type 0 where
  pub slot_name : Bytes
  pub slot_config : ℕ
  pub slot_token_id : Bytes
  pub slot_counter_s : Bytes
  pub slot_counter : ℕ

unfoldable pub slot_data : Bytes → SlotData
slot_data payload = record {
  slot_name = payload_bytes 0 15 payload;
  slot_config = payload_byte 15 payload;
  slot_token_id = payload_bytes 16 13 payload;
  slot_counter_s = payload_bytes 29 8 payload;
  slot_counter = le_value (payload_bytes 29 8 payload);
}

-- `GetRandom::ResponsePayload`
pub record RandomData : Type 0 where
  pub op_success : ℕ
  pub size_effective : ℕ
  pub bytes : Bytes

unfoldable pub random_data : Bytes → RandomData
random_data payload = record {
  op_success = payload_byte 0 payload;
  size_effective = payload_byte 1 payload;
  bytes = payload_bytes 2 51 payload;
}

-- `DeviceConfigurationResponsePacket::ResponsePayload`, behind the 22 bytes of `transmission_data`
pub record DeviceConfiguration : Type 0 where
  pub magic_number : ℕ
  pub read_write_flag_uncrypted_volume : ℕ
  pub read_write_flag_crypted_volume : ℕ
  pub major : ℕ
  pub minor : ℕ
  pub build_iteration : ℕ
  pub read_write_flag_hidden_volume : ℕ
  pub firmware_locked : ℕ
  pub new_card : Bool
  pub sd_fill_with_random_chars : ℕ
  pub active_sd_card_id : ℕ
  pub unencrypted : Bool
  pub encrypted : Bool
  pub hidden : Bool
  pub new_smart_card_found : ℕ
  pub user_pw_retry_count : ℕ
  pub admin_pw_retry_count : ℕ
  pub active_smart_card_id : ℕ
  pub stick_keys_not_initiated : ℕ

unfoldable pub device_configuration : Bytes → DeviceConfiguration
device_configuration payload = record {
  magic_number = payload_u16 22 payload;
  read_write_flag_uncrypted_volume = payload_byte 24 payload;
  read_write_flag_crypted_volume = payload_byte 25 payload;
  major = payload_byte 26 payload;
  minor = payload_byte 27 payload;
  build_iteration = payload_byte 29 payload;
  read_write_flag_hidden_volume = payload_byte 30 payload;
  firmware_locked = payload_byte 31 payload;
  new_card = payload_bit 32 0 payload;
  sd_fill_with_random_chars = payload_byte 33 payload;
  active_sd_card_id = payload_u32 34 payload;
  unencrypted = payload_bit 38 0 payload;
  encrypted = payload_bit 38 1 payload;
  hidden = payload_bit 38 2 payload;
  new_smart_card_found = payload_byte 39 payload;
  user_pw_retry_count = payload_byte 40 payload;
  admin_pw_retry_count = payload_byte 41 payload;
  active_smart_card_id = payload_u32 42 payload;
  stick_keys_not_initiated = payload_byte 46 payload;
}

-- `ProductionTest::ResponsePayload`
pub record ProductionTest : Type 0 where
  pub firmware_version_0 : ℕ
  pub firmware_version_1 : ℕ
  pub firmware_version_internal : ℕ
  pub sd_card_size : ℕ
  pub cpu_card_id : ℕ
  pub smart_card_id : ℕ
  pub sd_card_id : ℕ
  pub sc_user_pw_retry_count : ℕ
  pub sc_admin_pw_retry_count : ℕ
  pub sd_card_manufacturing_year : ℕ
  pub sd_card_manufacturing_month : ℕ
  pub sd_card_oem : ℕ
  pub sd_write_speed : ℕ
  pub sd_card_manufacturer : ℕ

unfoldable pub production_test : Bytes → ProductionTest
production_test payload = record {
  firmware_version_0 = payload_byte 22 payload;
  firmware_version_1 = payload_byte 23 payload;
  firmware_version_internal = payload_byte 24 payload;
  sd_card_size = payload_byte 25 payload;
  cpu_card_id = payload_u32 26 payload;
  smart_card_id = payload_u32 30 payload;
  sd_card_id = payload_u32 34 payload;
  sc_user_pw_retry_count = payload_byte 38 payload;
  sc_admin_pw_retry_count = payload_byte 39 payload;
  sd_card_manufacturing_year = payload_byte 40 payload;
  sd_card_manufacturing_month = payload_byte 41 payload;
  sd_card_oem = payload_u16 42 payload;
  sd_write_speed = payload_u16 44 payload;
  sd_card_manufacturer = payload_byte 46 payload;
}
