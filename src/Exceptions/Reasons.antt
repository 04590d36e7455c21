-- ===== src/Exceptions/Reasons.antt =====
-- The questions of CommandFailedException.h why a command failed. Each compares the status of the
-- command with one value.
use libnitrokey.Prelude.{ℕ, Bool, ◌==◌}

unfoldable pub reason_timestamp_warning : ℕ → Bool
reason_timestamp_warning last_command_status = last_command_status == 6

unfoldable pub reason_aes_not_initialized : ℕ → Bool
reason_aes_not_initialized last_command_status = last_command_status == 10

unfoldable pub reason_not_authorized : ℕ → Bool
reason_not_authorized last_command_status = last_command_status == 5

unfoldable pub reason_slot_not_programmed : ℕ → Bool
reason_slot_not_programmed last_command_status = last_command_status == 3

unfoldable pub reason_wrong_password : ℕ → Bool
reason_wrong_password last_command_status = last_command_status == 4

-- The value is `smartcard_error`, a status of a Storage device and not of a command.
unfoldable pub reason_smartcard_busy : ℕ → Bool
reason_smartcard_busy last_command_status = last_command_status == 7
