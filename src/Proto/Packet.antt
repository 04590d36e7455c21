-- ===== src/Proto/Packet.antt =====
-- The two packed structures of device_proto.h, as the 65 bytes of a USB HID report.
--   HIDReport: _zero, command_id, 59 bytes of payload, crc (4 bytes).
--   DeviceResponse: _zero, device_status, command_id, last_command_crc (4), last_command_status,
--   53 bytes of payload, crc (4). The payload is a union with the status of a Storage device.
pub mod Laws
use libnitrokey.Prelude.{
  ℕ, ◌+◌, ◌-◌, Bool, not, List, [], ◌∷◌, ◌++◌, ◌==◌, get_or, set, take, drop, replicate,
}
use libnitrokey.Prelude.Bytes.{Bytes, le_bytes, le_value, zero_filled}
use libnitrokey.Misc.Crc.{stm_crc32}

abbrev pub hid_report_size : ℕ
hid_report_size = 65

-- sizeof _padding in HIDReport and in DeviceResponse
abbrev pub report_payload_size : ℕ
report_payload_size = hid_report_size - 6

abbrev pub response_payload_size : ℕ
response_payload_size = hid_report_size - 12

-- `calculate_CRC` of both: without the leading byte and the checksum itself.
pub calculate_crc : Bytes → ℕ
calculate_crc packet = stm_crc32 (drop 1 packet) (hid_report_size - 5)

abbrev pub crc_field : Bytes → ℕ
crc_field packet = le_value (drop (hid_report_size - 4) packet)

-- `isCRCcorrect`
pub is_crc_correct : Bytes → Bool
is_crc_correct packet = crc_field packet == calculate_crc packet

-- `initialize`, the assignments of `command_id` and `payload`, and `update_CRC`.
pub outgoing_packet : ℕ → Bytes → Bytes
outgoing_packet command_id payload =
    let body = 0 ∷ command_id ∷ zero_filled report_payload_size payload in
    body ++ le_bytes 4 (calculate_crc body)

-- `Transaction::getCRC`
pub get_crc : ℕ → Bytes → ℕ
unfolding outgoing_packet
get_crc command_id payload = crc_field (outgoing_packet command_id payload)

-- `initialize` of a response
abbrev pub empty_response : Bytes
empty_response = replicate hid_report_size 0

abbrev pub byte_at : ℕ → Bytes → ℕ
byte_at i packet = get_or packet i 0

abbrev pub device_status : Bytes → ℕ
device_status = byte_at 1

abbrev pub command_id : Bytes → ℕ
command_id = byte_at 2

abbrev pub last_command_status : Bytes → ℕ
last_command_status = byte_at 7

-- the members of `storage_status`
abbrev pub storage_device_status : Bytes → ℕ
storage_device_status = byte_at 23

abbrev pub storage_progress_bar_value : Bytes → ℕ
storage_progress_bar_value = byte_at 24

abbrev pub set_device_status : ℕ → Bytes → Bytes
set_device_status v packet = set packet 1 v

abbrev pub set_last_command_status : ℕ → Bytes → Bytes
set_last_command_status v packet = set packet 7 v

abbrev pub response_payload : Bytes → Bytes
response_payload packet = take response_payload_size (drop 8 packet)

-- `isValid` of a response: only that the checksum field is not zero.
unfoldable pub is_valid_response : Bytes → Bool
is_valid_response packet = not (crc_field packet == 0)
