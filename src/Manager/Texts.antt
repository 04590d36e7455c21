-- ===== src/Manager/Texts.antt =====
-- The operations of NitrokeyManager.cc that return the text of a response.
use libnitrokey.Prelude.{ℕ, ◌*◌}
use libnitrokey.Prelude.Bytes.{Bytes}
use libnitrokey.Exceptions.{Action, pure, ◌>>=◌}
use libnitrokey.Misc.Fields.{strndup}
use libnitrokey.Misc.Stream.{str}
use libnitrokey.Commands.Command.{stick10, stick20}
use libnitrokey.Commands.Stick10.{Stick10}
use libnitrokey.Commands.Stick20.{Stick20}
use libnitrokey.Commands.Dissect.Responses.{
  dissect_get_status, dissect_device_configuration, dissect_get_sd_card_occupancy,
}
use libnitrokey.Manager.Interface.{Link}

-- `max_string_field_length`
abbrev pub max_string_field_length : ℕ
max_string_field_length = 2 * 1024

module _ {S : Type 0} (link : Link S) where
  unfoldable pub get_status_as_string : Action S Bytes
  get_status_as_string = do
    payload ← link.transact (stick10 Stick10.get_status)
    pure (str (dissect_get_status payload))

  unfoldable pub get_status_storage_as_string : Action S Bytes
  get_status_storage_as_string = do
    payload ← link.transact (stick20 Stick20.get_device_status)
    pure (strndup max_string_field_length (str (dissect_device_configuration payload)))

  unfoldable pub get_sd_usage_data_as_string : Action S Bytes
  get_sd_usage_data_as_string = do
    payload ← link.transact (stick20 Stick20.get_sd_card_occupancy)
    pure (strndup max_string_field_length (str (dissect_get_sd_card_occupancy payload)))
