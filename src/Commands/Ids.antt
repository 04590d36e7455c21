-- ===== src/Commands/Ids.antt =====
-- `CommandID` of command_id.h, with the byte that each stands for.
use libnitrokey.Prelude.{
  ℕ, ◌<◌, ◌≡◌, refl, ◌∙◌, sym, ap, arith, Option, none, some, List, [], ◌∷◌, ◌==◌, if◌then◌else◌,
}

pub data CommandId : Type 0 where
  get_status : CommandId
  write_to_slot : CommandId
  read_slot_name : CommandId
  read_slot : CommandId
  get_code : CommandId
  write_config : CommandId
  erase_slot : CommandId
  first_authenticate : CommandId
  authorize : CommandId
  get_password_retry_count : CommandId
  clear_warning : CommandId
  set_time : CommandId
  test_counter : CommandId
  test_time : CommandId
  user_authenticate : CommandId
  get_user_password_retry_count : CommandId
  user_authorize : CommandId
  unlock_user_password : CommandId
  lock_device : CommandId
  factory_reset : CommandId
  change_user_pin : CommandId
  change_admin_pin : CommandId
  write_to_slot_2 : CommandId
  send_otp_data : CommandId
  firmware_update : CommandId
  firmware_password_change : CommandId
  get_random : CommandId
  enable_crypted_pari : CommandId
  disable_crypted_pari : CommandId
  enable_hidden_crypted_pari : CommandId
  disable_hidden_crypted_pari : CommandId
  enable_firmware_update : CommandId
  export_firmware_to_file : CommandId
  generate_new_keys : CommandId
  fill_sd_card_with_random_chars : CommandId
  write_status_data : CommandId
  enable_readonly_uncrypted_lun : CommandId
  enable_readwrite_uncrypted_lun : CommandId
  send_password_matrix : CommandId
  send_password_matrix_pindata : CommandId
  send_password_matrix_setup : CommandId
  get_device_status : CommandId
  send_device_status : CommandId
  send_hidden_volume_password : CommandId
  send_hidden_volume_setup : CommandId
  send_password : CommandId
  send_new_password : CommandId
  clear_new_sd_card_found : CommandId
  send_startup : CommandId
  send_clear_stick_keys_not_initiated : CommandId
  send_lock_stick_hardware : CommandId
  production_test : CommandId
  send_debug_data : CommandId
  change_update_pin : CommandId
  enable_admin_readonly_uncrypted_lun : CommandId
  enable_admin_readwrite_uncrypted_lun : CommandId
  enable_admin_readonly_encrypted_lun : CommandId
  enable_admin_readwrite_encrypted_lun : CommandId
  check_smartcard_usage : CommandId
  wink : CommandId
  get_pw_safe_slot_status : CommandId
  get_pw_safe_slot_name : CommandId
  get_pw_safe_slot_password : CommandId
  get_pw_safe_slot_loginname : CommandId
  set_pw_safe_slot_data_1 : CommandId
  set_pw_safe_slot_data_2 : CommandId
  pw_safe_erase_slot : CommandId
  pw_safe_enable : CommandId
  pw_safe_init_key : CommandId
  pw_safe_send_data : CommandId
  sd_card_high_watermark : CommandId
  detect_sc_aes : CommandId
  new_aes_key : CommandId

unfoldable pub code : CommandId → ℕ
code get_status = 0x00
code write_to_slot = 0x01
code read_slot_name = 0x02
code read_slot = 0x03
code get_code = 0x04
code write_config = 0x05
code erase_slot = 0x06
code first_authenticate = 0x07
code authorize = 0x08
code get_password_retry_count = 0x09
code clear_warning = 0x0a
code set_time = 0x0b
code test_counter = 0x0c
code test_time = 0x0d
code user_authenticate = 0x0e
code get_user_password_retry_count = 0x0f
code user_authorize = 0x10
code unlock_user_password = 0x11
code lock_device = 0x12
code factory_reset = 0x13
code change_user_pin = 0x14
code change_admin_pin = 0x15
code write_to_slot_2 = 0x16
code send_otp_data = 0x17
code firmware_update = 0x19
code firmware_password_change = 0x1a
code get_random = 0x1b
code enable_crypted_pari = 0x20
code disable_crypted_pari = 0x21
code enable_hidden_crypted_pari = 0x22
code disable_hidden_crypted_pari = 0x23
code enable_firmware_update = 0x24
code export_firmware_to_file = 0x25
code generate_new_keys = 0x26
code fill_sd_card_with_random_chars = 0x27
code write_status_data = 0x28
code enable_readonly_uncrypted_lun = 0x29
code enable_readwrite_uncrypted_lun = 0x2a
code send_password_matrix = 0x2b
code send_password_matrix_pindata = 0x2c
code send_password_matrix_setup = 0x2d
code get_device_status = 0x2e
code send_device_status = 0x2f
code send_hidden_volume_password = 0x30
code send_hidden_volume_setup = 0x31
code send_password = 0x32
code send_new_password = 0x33
code clear_new_sd_card_found = 0x34
code send_startup = 0x35
code send_clear_stick_keys_not_initiated = 0x36
code send_lock_stick_hardware = 0x37
code production_test = 0x38
code send_debug_data = 0x39
code change_update_pin = 0x3a
code enable_admin_readonly_uncrypted_lun = 0x3c
code enable_admin_readwrite_uncrypted_lun = 0x3d
code enable_admin_readonly_encrypted_lun = 0x3e
code enable_admin_readwrite_encrypted_lun = 0x3f
code check_smartcard_usage = 0x40
code wink = 0x41
code get_pw_safe_slot_status = 0x60
code get_pw_safe_slot_name = 0x61
code get_pw_safe_slot_password = 0x62
code get_pw_safe_slot_loginname = 0x63
code set_pw_safe_slot_data_1 = 0x64
code set_pw_safe_slot_data_2 = 0x65
code pw_safe_erase_slot = 0x66
code pw_safe_enable = 0x67
code pw_safe_init_key = 0x68
code pw_safe_send_data = 0x69
code sd_card_high_watermark = 0x70
code detect_sc_aes = 0x6a
code new_aes_key = 0x6b

-- Every command, in the order of the declaration.
all_commands : List CommandId
all_commands =
    get_status ∷ write_to_slot ∷ read_slot_name ∷ read_slot ∷ get_code ∷ write_config ∷ erase_slot
    ∷ first_authenticate ∷ authorize ∷ get_password_retry_count ∷ clear_warning ∷ set_time
    ∷ test_counter ∷ test_time ∷ user_authenticate ∷ get_user_password_retry_count ∷ user_authorize
    ∷ unlock_user_password ∷ lock_device ∷ factory_reset ∷ change_user_pin ∷ change_admin_pin
    ∷ write_to_slot_2 ∷ send_otp_data ∷ firmware_update ∷ firmware_password_change ∷ get_random
    ∷ enable_crypted_pari ∷ disable_crypted_pari ∷ enable_hidden_crypted_pari
    ∷ disable_hidden_crypted_pari ∷ enable_firmware_update ∷ export_firmware_to_file
    ∷ generate_new_keys ∷ fill_sd_card_with_random_chars ∷ write_status_data
    ∷ enable_readonly_uncrypted_lun ∷ enable_readwrite_uncrypted_lun ∷ send_password_matrix
    ∷ send_password_matrix_pindata ∷ send_password_matrix_setup ∷ get_device_status
    ∷ send_device_status ∷ send_hidden_volume_password ∷ send_hidden_volume_setup ∷ send_password
    ∷ send_new_password ∷ clear_new_sd_card_found ∷ send_startup
    ∷ send_clear_stick_keys_not_initiated ∷ send_lock_stick_hardware ∷ production_test
    ∷ send_debug_data ∷ change_update_pin ∷ enable_admin_readonly_uncrypted_lun
    ∷ enable_admin_readwrite_uncrypted_lun ∷ enable_admin_readonly_encrypted_lun
    ∷ enable_admin_readwrite_encrypted_lun ∷ check_smartcard_usage ∷ wink ∷ get_pw_safe_slot_status
    ∷ get_pw_safe_slot_name ∷ get_pw_safe_slot_password ∷ get_pw_safe_slot_loginname
    ∷ set_pw_safe_slot_data_1 ∷ set_pw_safe_slot_data_2 ∷ pw_safe_erase_slot ∷ pw_safe_enable
    ∷ pw_safe_init_key ∷ pw_safe_send_data ∷ sd_card_high_watermark ∷ detect_sc_aes ∷ new_aes_key
    ∷ []

-- The first of some commands with a code.
find_code : ℕ → List CommandId → Option CommandId
find_code n [] = none
find_code n (c ∷ cs) = if code c == n then some c else find_code n cs

find_code-code : (c : CommandId) → find_code (code c) all_commands ≡ some c
unfolding find_code all_commands code
find_code-code get_status = refl
find_code-code _ = refl

some_injective : (c d : CommandId) → some c ≡ some d → c ≡ d
some_injective c d e = cc

-- No two commands share a code.
pub code_injective : (c d : CommandId) → code c ≡ code d → c ≡ d
code_injective c d e =
    some_injective c d
      (sym (find_code-code c) ∙ ap (λ n. find_code n all_commands) e ∙ find_code-code d)

pub code-lt : (c : CommandId) → code c < 256
unfolding code
code-lt get_status = omega arith
code-lt _ = omega arith
