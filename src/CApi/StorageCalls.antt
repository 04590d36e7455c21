-- ===== src/CApi/StorageCalls.antt =====
-- The functions of NK_C_API.cc for a Storage device that return a status.
use libnitrokey.Prelude.{ℕ}
use libnitrokey.Exceptions.{Action}
use libnitrokey.Misc.Fields.{CString}
use libnitrokey.Manager.Interface.{Link}
use libnitrokey.Manager.Storage.{
  send_startup, unlock_encrypted_volume, lock_encrypted_volume, unlock_hidden_volume,
  lock_hidden_volume, create_hidden_volume, set_unencrypted_read_only, set_unencrypted_read_write,
  set_unencrypted_read_only_admin, set_unencrypted_read_write_admin, set_encrypted_volume_read_only,
  set_encrypted_volume_read_write, export_firmware, clear_new_sd_card_warning,
  fill_sd_card_with_random_data, change_update_password, enable_firmware_update, wink,
}
use libnitrokey.CApi.Status.{Api, get_without_result}

module _ {S : Type 0} (link : Link S) where
  pub nk_send_startup : ℕ → Action (Api S) ℕ
  nk_send_startup seconds_from_epoch = get_without_result (send_startup link seconds_from_epoch)

  pub nk_unlock_encrypted_volume : CString → Action (Api S) ℕ
  nk_unlock_encrypted_volume user_pin = get_without_result (unlock_encrypted_volume link user_pin)

  pub nk_lock_encrypted_volume : Action (Api S) ℕ
  nk_lock_encrypted_volume = get_without_result (lock_encrypted_volume link)

  pub nk_unlock_hidden_volume : CString → Action (Api S) ℕ
  nk_unlock_hidden_volume hidden_volume_password =
      get_without_result (unlock_hidden_volume link hidden_volume_password)

  pub nk_lock_hidden_volume : Action (Api S) ℕ
  nk_lock_hidden_volume = get_without_result (lock_hidden_volume link)

  pub nk_create_hidden_volume : ℕ → ℕ → ℕ → CString → Action (Api S) ℕ
  nk_create_hidden_volume slot_nr start_percent end_percent hidden_volume_password =
      get_without_result
        (create_hidden_volume link slot_nr start_percent end_percent hidden_volume_password)

  pub nk_set_unencrypted_read_only : CString → Action (Api S) ℕ
  nk_set_unencrypted_read_only user_pin =
      get_without_result (set_unencrypted_read_only link user_pin)

  pub nk_set_unencrypted_read_write : CString → Action (Api S) ℕ
  nk_set_unencrypted_read_write user_pin =
      get_without_result (set_unencrypted_read_write link user_pin)

  pub nk_set_unencrypted_read_only_admin : CString → Action (Api S) ℕ
  nk_set_unencrypted_read_only_admin admin_pin =
      get_without_result (set_unencrypted_read_only_admin link admin_pin)

  pub nk_set_unencrypted_read_write_admin : CString → Action (Api S) ℕ
  nk_set_unencrypted_read_write_admin admin_pin =
      get_without_result (set_unencrypted_read_write_admin link admin_pin)

  pub nk_set_encrypted_read_only : CString → Action (Api S) ℕ
  nk_set_encrypted_read_only admin_pin =
      get_without_result (set_encrypted_volume_read_only link admin_pin)

  pub nk_set_encrypted_read_write : CString → Action (Api S) ℕ
  nk_set_encrypted_read_write admin_pin =
      get_without_result (set_encrypted_volume_read_write link admin_pin)

  pub nk_export_firmware : CString → Action (Api S) ℕ
  nk_export_firmware admin_pin = get_without_result (export_firmware link admin_pin)

  pub nk_clear_new_sd_card_warning : CString → Action (Api S) ℕ
  nk_clear_new_sd_card_warning admin_pin =
      get_without_result (clear_new_sd_card_warning link admin_pin)

  pub nk_fill_sd_card_with_random_data : CString → Action (Api S) ℕ
  nk_fill_sd_card_with_random_data admin_pin =
      get_without_result (fill_sd_card_with_random_data link admin_pin)

  pub nk_change_update_password : CString → CString → Action (Api S) ℕ
  nk_change_update_password current_update_password new_update_password =
      get_without_result (change_update_password link current_update_password new_update_password)

  pub nk_enable_firmware_update : CString → Action (Api S) ℕ
  nk_enable_firmware_update update_password =
      get_without_result (enable_firmware_update link update_password)

  pub nk_wink : Action (Api S) ℕ
  nk_wink = get_without_result (wink link)
