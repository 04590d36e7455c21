-- ===== src/Commands/Names.antt =====
-- `commandid_to_string` (command_id.cc): for the identifiers of the enumeration, and for any number that is
-- cast to it.
use Prim.Native.String.{String}
use libnitrokey.Prelude.{ℕ, ◌≡◌, ◌==◌, if◌then◌else◌, arith, List, [], ◌∷◌}
use libnitrokey.Commands.Ids.{CommandId, code}

unfoldable pub commandid_to_string : CommandId → String
commandid_to_string CommandId.get_status = "GET_STATUS"
commandid_to_string CommandId.write_to_slot = "WRITE_TO_SLOT"
commandid_to_string CommandId.read_slot_name = "READ_SLOT_NAME"
commandid_to_string CommandId.read_slot = "READ_SLOT"
commandid_to_string CommandId.get_code = "GET_CODE"
commandid_to_string CommandId.write_config = "WRITE_CONFIG"
commandid_to_string CommandId.erase_slot = "ERASE_SLOT"
commandid_to_string CommandId.first_authenticate = "FIRST_AUTHENTICATE"
commandid_to_string CommandId.authorize = "AUTHORIZE"
commandid_to_string CommandId.get_password_retry_count = "GET_PASSWORD_RETRY_COUNT"
commandid_to_string CommandId.clear_warning = "CLEAR_WARNING"
commandid_to_string CommandId.set_time = "SET_TIME"
commandid_to_string CommandId.test_counter = "TEST_COUNTER"
commandid_to_string CommandId.test_time = "TEST_TIME"
commandid_to_string CommandId.user_authenticate = "USER_AUTHENTICATE"
commandid_to_string CommandId.get_user_password_retry_count = "GET_USER_PASSWORD_RETRY_COUNT"
commandid_to_string CommandId.user_authorize = "USER_AUTHORIZE"
commandid_to_string CommandId.unlock_user_password = "UNLOCK_USER_PASSWORD"
commandid_to_string CommandId.lock_device = "LOCK_DEVICE"
commandid_to_string CommandId.factory_reset = "FACTORY_RESET"
commandid_to_string CommandId.change_user_pin = "CHANGE_USER_PIN"
commandid_to_string CommandId.change_admin_pin = "CHANGE_ADMIN_PIN"
commandid_to_string CommandId.firmware_update = "FIRMWARE_UPDATE"
commandid_to_string CommandId.firmware_password_change = "FIRMWARE_PASSWORD_CHANGE"
commandid_to_string CommandId.enable_crypted_pari = "ENABLE_CRYPTED_PARI"
commandid_to_string CommandId.disable_crypted_pari = "DISABLE_CRYPTED_PARI"
commandid_to_string CommandId.enable_hidden_crypted_pari = "ENABLE_HIDDEN_CRYPTED_PARI"
commandid_to_string CommandId.disable_hidden_crypted_pari = "DISABLE_HIDDEN_CRYPTED_PARI"
commandid_to_string CommandId.enable_firmware_update = "ENABLE_FIRMWARE_UPDATE"
commandid_to_string CommandId.export_firmware_to_file = "EXPORT_FIRMWARE_TO_FILE"
commandid_to_string CommandId.generate_new_keys = "GENERATE_NEW_KEYS"
commandid_to_string CommandId.fill_sd_card_with_random_chars = "FILL_SD_CARD_WITH_RANDOM_CHARS"
commandid_to_string CommandId.write_status_data = "WRITE_STATUS_DATA"
commandid_to_string CommandId.enable_readonly_uncrypted_lun = "ENABLE_READONLY_UNCRYPTED_LUN"
commandid_to_string CommandId.enable_readwrite_uncrypted_lun = "ENABLE_READWRITE_UNCRYPTED_LUN"
commandid_to_string CommandId.send_password_matrix = "SEND_PASSWORD_MATRIX"
commandid_to_string CommandId.send_password_matrix_pindata = "SEND_PASSWORD_MATRIX_PINDATA"
commandid_to_string CommandId.send_password_matrix_setup = "SEND_PASSWORD_MATRIX_SETUP"
commandid_to_string CommandId.get_device_status = "GET_DEVICE_STATUS"
commandid_to_string CommandId.send_device_status = "SEND_DEVICE_STATUS"
commandid_to_string CommandId.send_hidden_volume_password = "SEND_HIDDEN_VOLUME_PASSWORD"
commandid_to_string CommandId.send_hidden_volume_setup = "SEND_HIDDEN_VOLUME_SETUP"
commandid_to_string CommandId.send_password = "SEND_PASSWORD"
commandid_to_string CommandId.send_new_password = "SEND_NEW_PASSWORD"
commandid_to_string CommandId.clear_new_sd_card_found = "CLEAR_NEW_SD_CARD_FOUND"
commandid_to_string CommandId.send_startup = "SEND_STARTUP"
commandid_to_string CommandId.send_clear_stick_keys_not_initiated =
    "SEND_CLEAR_STICK_KEYS_NOT_INITIATED"
commandid_to_string CommandId.send_lock_stick_hardware = "SEND_LOCK_STICK_HARDWARE"
commandid_to_string CommandId.production_test = "PRODUCTION_TEST"
commandid_to_string CommandId.send_debug_data = "SEND_DEBUG_DATA"
commandid_to_string CommandId.change_update_pin = "CHANGE_UPDATE_PIN"
commandid_to_string CommandId.enable_admin_readonly_uncrypted_lun =
    "ENABLE_ADMIN_READONLY_UNCRYPTED_LUN"
commandid_to_string CommandId.enable_admin_readwrite_uncrypted_lun =
    "ENABLE_ADMIN_READWRITE_UNCRYPTED_LUN"
commandid_to_string CommandId.enable_admin_readonly_encrypted_lun =
    "ENABLE_ADMIN_READONLY_ENCRYPTED_LUN"
commandid_to_string CommandId.enable_admin_readwrite_encrypted_lun =
    "ENABLE_ADMIN_READWRITE_ENCRYPTED_LUN"
commandid_to_string CommandId.check_smartcard_usage = "CHECK_SMARTCARD_USAGE"
commandid_to_string CommandId.get_pw_safe_slot_status = "GET_PW_SAFE_SLOT_STATUS"
commandid_to_string CommandId.get_pw_safe_slot_name = "GET_PW_SAFE_SLOT_NAME"
commandid_to_string CommandId.get_pw_safe_slot_password = "GET_PW_SAFE_SLOT_PASSWORD"
commandid_to_string CommandId.get_pw_safe_slot_loginname = "GET_PW_SAFE_SLOT_LOGINNAME"
commandid_to_string CommandId.set_pw_safe_slot_data_1 = "SET_PW_SAFE_SLOT_DATA_1"
commandid_to_string CommandId.set_pw_safe_slot_data_2 = "SET_PW_SAFE_SLOT_DATA_2"
commandid_to_string CommandId.pw_safe_erase_slot = "PW_SAFE_ERASE_SLOT"
commandid_to_string CommandId.pw_safe_enable = "PW_SAFE_ENABLE"
commandid_to_string CommandId.pw_safe_init_key = "PW_SAFE_INIT_KEY"
commandid_to_string CommandId.pw_safe_send_data = "PW_SAFE_SEND_DATA"
commandid_to_string CommandId.sd_card_high_watermark = "SD_CARD_HIGH_WATERMARK"
commandid_to_string CommandId.detect_sc_aes = "DETECT_SC_AES"
commandid_to_string CommandId.new_aes_key = "NEW_AES_KEY"
commandid_to_string CommandId.write_to_slot_2 = "WRITE_TO_SLOT_2"
commandid_to_string CommandId.send_otp_data = "SEND_OTP_DATA"
commandid_to_string CommandId.wink = "WINK"
commandid_to_string CommandId.get_random = "GET_RANDOM"

abbrev command_ids : List CommandId
command_ids =
    CommandId.get_status ∷ CommandId.write_to_slot ∷ CommandId.read_slot_name ∷ CommandId.read_slot
    ∷ CommandId.get_code ∷ CommandId.write_config ∷ CommandId.erase_slot
    ∷ CommandId.first_authenticate ∷ CommandId.authorize ∷ CommandId.get_password_retry_count
    ∷ CommandId.clear_warning ∷ CommandId.set_time ∷ CommandId.test_counter ∷ CommandId.test_time
    ∷ CommandId.user_authenticate ∷ CommandId.get_user_password_retry_count
    ∷ CommandId.user_authorize ∷ CommandId.unlock_user_password ∷ CommandId.lock_device
    ∷ CommandId.factory_reset ∷ CommandId.change_user_pin ∷ CommandId.change_admin_pin
    ∷ CommandId.write_to_slot_2 ∷ CommandId.send_otp_data ∷ CommandId.firmware_update
    ∷ CommandId.firmware_password_change ∷ CommandId.get_random ∷ CommandId.enable_crypted_pari
    ∷ CommandId.disable_crypted_pari ∷ CommandId.enable_hidden_crypted_pari
    ∷ CommandId.disable_hidden_crypted_pari ∷ CommandId.enable_firmware_update
    ∷ CommandId.export_firmware_to_file ∷ CommandId.generate_new_keys
    ∷ CommandId.fill_sd_card_with_random_chars ∷ CommandId.write_status_data
    ∷ CommandId.enable_readonly_uncrypted_lun ∷ CommandId.enable_readwrite_uncrypted_lun
    ∷ CommandId.send_password_matrix ∷ CommandId.send_password_matrix_pindata
    ∷ CommandId.send_password_matrix_setup ∷ CommandId.get_device_status
    ∷ CommandId.send_device_status ∷ CommandId.send_hidden_volume_password
    ∷ CommandId.send_hidden_volume_setup ∷ CommandId.send_password ∷ CommandId.send_new_password
    ∷ CommandId.clear_new_sd_card_found ∷ CommandId.send_startup
    ∷ CommandId.send_clear_stick_keys_not_initiated ∷ CommandId.send_lock_stick_hardware
    ∷ CommandId.production_test ∷ CommandId.send_debug_data ∷ CommandId.change_update_pin
    ∷ CommandId.enable_admin_readonly_uncrypted_lun ∷ CommandId.enable_admin_readwrite_uncrypted_lun
    ∷ CommandId.enable_admin_readonly_encrypted_lun ∷ CommandId.enable_admin_readwrite_encrypted_lun
    ∷ CommandId.check_smartcard_usage ∷ CommandId.wink ∷ CommandId.get_pw_safe_slot_status
    ∷ CommandId.get_pw_safe_slot_name ∷ CommandId.get_pw_safe_slot_password
    ∷ CommandId.get_pw_safe_slot_loginname ∷ CommandId.set_pw_safe_slot_data_1
    ∷ CommandId.set_pw_safe_slot_data_2 ∷ CommandId.pw_safe_erase_slot ∷ CommandId.pw_safe_enable
    ∷ CommandId.pw_safe_init_key ∷ CommandId.pw_safe_send_data ∷ CommandId.sd_card_high_watermark
    ∷ CommandId.detect_sc_aes ∷ CommandId.new_aes_key ∷ []

unfoldable pub name_in : ℕ → List CommandId → String
name_in n [] = "UNKNOWN"
name_in n (c ∷ rest) =
    let others = name_in n rest in if n == code c then commandid_to_string c else others

-- `commandid_to_string(static_cast<CommandID>(n))`
unfoldable pub name_of_number : ℕ → String
name_of_number n = name_in n command_ids

-- The number of an identifier gets the identifier's name.
pub name_of_number-code : (c : CommandId) → name_of_number (code c) ≡ commandid_to_string c
unfolding name_of_number name_in code
name_of_number-code c = ground arith
