-- ===== src/Device/Texts.antt =====
-- `ErrorCounters::get_as_string` and `operator<<` of a model (device.cc), in a build with a log.
use Prim.Native.String.{String}
use libnitrokey.Prelude.{ℕ, ◌==◌, if◌then◌else◌, List, [], ◌∷◌}
use libnitrokey.Prelude.Bytes.{Bytes, codes}
use libnitrokey.Misc.Stream.{Item, text, number, joined, str}
use libnitrokey.Device.Model.{DeviceModel, pro, storage, librem}
use libnitrokey.Device.State.{ErrorCounters}

-- The macro `p`.
abbrev counter : String → ℕ → List Item
counter name x = text name ∷ text " " ∷ number x ∷ text ", " ∷ []

unfoldable pub get_as_string : ErrorCounters → Bytes
get_as_string c =
    let all = joined (
      counter "total_comm_runs" (c.total_comm_runs)
      ∷ counter "communication_successful" (c.communication_successful)
      ∷ (text "(" ∷ [])
      ∷ counter "command_successful_recv" (c.command_successful_recv)
      ∷ counter "command_result_not_equal_0_recv" (c.command_result_not_equal_0_recv)
      ∷ (text "), " ∷ [])
      ∷ counter "sends_executed" (c.sends_executed)
      ∷ counter "recv_executed" (c.recv_executed)
      ∷ counter "successful_storage_commands" (c.successful_storage_commands)
      ∷ counter "total_retries" (c.total_retries)
      ∷ (text "(" ∷ [])
      ∷ counter "busy" (c.busy)
      ∷ counter "busy_progressbar" (c.busy_progressbar)
      ∷ counter "CRC_other_than_awaited" (c.crc_other_than_awaited)
      ∷ counter "wrong_CRC" (c.wrong_crc)
      ∷ (text "), " ∷ [])
      ∷ counter "low_level_reconnect" (c.low_level_reconnect)
      ∷ counter "sending_error" (c.sending_error)
      ∷ counter "receiving_error" (c.receiving_error)
      ∷ []) in
    if c.total_comm_runs == 0 then codes "Statistics: no connection run" else str all

pub model_name : DeviceModel → String
model_name pro = "Pro"
model_name storage = "Storage"
model_name librem = "Librem"
