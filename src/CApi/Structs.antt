-- ===== src/CApi/Structs.antt =====
-- The structs of NK_C_API.h, and what NK_C_API.cc puts into them.
use libnitrokey.Prelude.{ℕ, ◌%◌, Bool, not, ◌==◌, get_or}
use libnitrokey.Prelude.Bytes.{Bytes}
use libnitrokey.Device.Model.{DeviceModel, pro, storage, librem}
use libnitrokey.Commands.Responses.{
  StickStatus, SlotData, RandomData, DeviceConfiguration, ProductionTest,
}

pub data NkDeviceModel : Type 0 where
  nk_disconnected nk_pro nk_storage nk_librem : NkDeviceModel

unfoldable pub model_of : DeviceModel → NkDeviceModel
model_of pro = nk_pro
model_of storage = nk_storage
model_of librem = nk_librem

abbrev is_set : ℕ → Bool
is_set flag = not (flag == 0)

pub record NkStatus : Type 0 where
  pub firmware_version_major : ℕ
  pub firmware_version_minor : ℕ
  pub serial_number_smart_card : ℕ
  pub config_numlock : ℕ
  pub config_capslock : ℕ
  pub config_scrolllock : ℕ
  pub otp_user_password : Bool

pub nk_status_of : StickStatus → NkStatus
nk_status_of status = record {
  firmware_version_major = status.major;
  firmware_version_minor = status.minor;
  serial_number_smart_card = status.card_serial_u32;
  config_numlock = status.numlock;
  config_capslock = status.capslock;
  config_scrolllock = status.scrolllock;
  otp_user_password = is_set (status.enable_user_password);
}

pub record NkStorageStatus : Type 0 where
  pub unencrypted_volume_read_only : Bool
  pub unencrypted_volume_active : Bool
  pub encrypted_volume_read_only : Bool
  pub encrypted_volume_active : Bool
  pub hidden_volume_read_only : Bool
  pub hidden_volume_active : Bool
  pub firmware_version_major : ℕ
  pub firmware_version_minor : ℕ
  pub firmware_locked : Bool
  pub serial_number_sd_card : ℕ
  pub serial_number_smart_card : ℕ
  pub user_retry_count : ℕ
  pub admin_retry_count : ℕ
  pub new_sd_card_found : Bool
  pub filled_with_random : Bool
  pub stick_initialized : Bool

pub nk_storage_status_of : DeviceConfiguration → NkStorageStatus
nk_storage_status_of status = record {
  unencrypted_volume_read_only = is_set (status.read_write_flag_uncrypted_volume);
  unencrypted_volume_active = status.unencrypted;
  encrypted_volume_read_only = is_set (status.read_write_flag_crypted_volume);
  encrypted_volume_active = status.encrypted;
  hidden_volume_read_only = is_set (status.read_write_flag_hidden_volume);
  hidden_volume_active = status.hidden;
  firmware_version_major = status.major;
  firmware_version_minor = status.minor;
  firmware_locked = is_set (status.firmware_locked);
  serial_number_sd_card = status.active_sd_card_id;
  serial_number_smart_card = status.active_smart_card_id;
  user_retry_count = status.user_pw_retry_count;
  admin_retry_count = status.admin_pw_retry_count;
  new_sd_card_found = status.new_card;
  filled_with_random = is_set (status.sd_fill_with_random_chars % 2);
  stick_initialized = status.stick_keys_not_initiated == 0;
}

pub record NkSdUsageData : Type 0 where
  pub write_level_min : ℕ
  pub write_level_max : ℕ

pub nk_sd_usage_data_of : ℕ × ℕ → NkSdUsageData
nk_sd_usage_data_of (low, high) = record { write_level_min = low; write_level_max = high }

pub record NkConfig : Type 0 where
  pub numlock : ℕ
  pub capslock : ℕ
  pub scrolllock : ℕ
  pub enable_user_password : Bool
  pub disable_user_password : Bool

-- From the five bytes of the configuration.
pub nk_config_of : Bytes → NkConfig
nk_config_of v = record {
  numlock = get_or v 0 0;
  capslock = get_or v 1 0;
  scrolllock = get_or v 2 0;
  enable_user_password = is_set (get_or v 3 0);
  disable_user_password = is_set (get_or v 4 0);
}

pub record NkStorageProductionTest : Type 0 where
  pub firmware_version_0 : ℕ
  pub firmware_version_1 : ℕ
  pub firmware_version_internal : ℕ
  pub sd_card_size : ℕ
  pub cpu_card_id : ℕ
  pub smart_card_id : ℕ
  pub sd_card_id : ℕ
  pub sc_user_pw_retry_count : ℕ
  pub sc_admin_pw_retry_count : ℕ
  pub sd_card_manufacturing_year : ℕ
  pub sd_card_manufacturing_month : ℕ
  pub sd_card_oem : ℕ
  pub sd_write_speed : ℕ
  pub sd_card_manufacturer : ℕ

pub nk_production_of : ProductionTest → NkStorageProductionTest
nk_production_of status = record {
  firmware_version_0 = status.firmware_version_0;
  firmware_version_1 = status.firmware_version_1;
  firmware_version_internal = status.firmware_version_internal;
  sd_card_size = status.sd_card_size;
  cpu_card_id = status.cpu_card_id;
  smart_card_id = status.smart_card_id;
  sd_card_id = status.sd_card_id;
  sc_user_pw_retry_count = status.sc_user_pw_retry_count;
  sc_admin_pw_retry_count = status.sc_admin_pw_retry_count;
  sd_card_manufacturing_year = status.sd_card_manufacturing_year;
  sd_card_manufacturing_month = status.sd_card_manufacturing_month;
  sd_card_oem = status.sd_card_oem;
  sd_write_speed = status.sd_write_speed;
  sd_card_manufacturer = status.sd_card_manufacturer;
}

-- `ReadSlot_t` and `GetRandom_t`
pub record NkReadSlot : Type 0 where
  pub slot_name : Bytes
  pub slot_config : ℕ
  pub slot_token_id : Bytes
  pub slot_counter : ℕ

unfoldable pub nk_read_slot_of : SlotData → NkReadSlot
nk_read_slot_of read_slot = record {
  slot_name = read_slot.slot_name;
  slot_config = read_slot.slot_config;
  slot_token_id = read_slot.slot_token_id;
  slot_counter = read_slot.slot_counter;
}

pub record NkGetRandom : Type 0 where
  pub op_success : ℕ
  pub size_effective : ℕ
  pub bytes : Bytes

pub nk_get_random_of : RandomData → NkGetRandom
nk_get_random_of random = record {
  op_success = random.op_success;
  size_effective = random.size_effective;
  bytes = random.bytes;
}
