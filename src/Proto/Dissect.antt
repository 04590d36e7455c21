-- ===== src/Proto/Dissect.antt =====
-- dissect.h: the text of a packet that is sent and of one that is received, in a build without
-- LOG_VOLATILE_DATA. The text of the payload is that of its class.
pub mod Statuses
pub mod Checksum
use Prim.Native.String.{String}
use libnitrokey.Prelude.{
  ℕ, ◌+◌, ◌-◌, ◌&&◌, Bool, leb, ◌==◌, if◌then◌else◌, List, [], ◌∷◌, ◌++◌, map, take, drop,
}
use libnitrokey.Prelude.Bytes.{Bytes, codes, le_value}
use libnitrokey.Misc.Decimal.{decimal}
use libnitrokey.Misc.Stream.{Item, text, bytes, number, hex, setw, setfill, endl, str}
use libnitrokey.Commands.Names.{commandid_to_string, name_of_number}
use libnitrokey.Commands.Command.{Command, id_of, code_of, payload_of}
use libnitrokey.Commands.Dissect.Query.{dissect}
use libnitrokey.Proto.Packet.{
  get_crc, byte_at, device_status, command_id, last_command_status, storage_device_status,
  storage_progress_bar_value, response_payload, crc_field,
}

-- `out << std::hex << std::setw(2) << std::setfill('0') << value << std::endl`
abbrev hex_line : ℕ → List Item
hex_line value = hex ∷ setw 2 ∷ setfill b'0' ∷ number value ∷ endl ∷ []

-- `QueryDissector::dissect` of the packet of a command.
unfoldable pub query_items : Command → List Item
query_items c =
    text "Contents:"
      ∷ endl
      ∷ text "Command ID:\t"
      ∷ text (commandid_to_string (id_of c))
      ∷ endl
      ∷ text "CRC:\t"
      ∷ hex_line (get_crc (code_of c) (payload_of c))
    ++ (text "Payload:" ∷ endl ∷ bytes (dissect c) ∷ [])

unfoldable pub dissect_query : Command → Bytes
dissect_query c = str (query_items c)

unfoldable pub unknown_status : ℕ → Bytes
unknown_status status = codes "UNKNOWN: " ++ decimal status

unfoldable pub status_translate_device : ℕ → Bytes
status_translate_device status =
    if status == 0
    then codes "OK"
    else if status == 1
    then codes "BUSY"
    else if status == 2
    then codes "ERROR"
    else if status == 3
    then codes "RECEIVED_REPORT"
    else unknown_status status

-- `toupper` in the C locale
unfoldable pub upper : ℕ → ℕ
upper c = if leb b'a' c && leb c b'z' then c - 32 else c

unfoldable pub to_upper : Bytes → Bytes
to_upper [] = []
to_upper (c ∷ rest) = upper c ∷ to_upper rest

-- The macro `p` makes the text of its argument upper case, with the names of its scopes.
unfoldable pub status_translate_command : ℕ → Bytes
status_translate_command status =
    if status == 0
    then to_upper (codes "stick10::command_status::ok")
    else if status == 1
    then to_upper (codes "stick10::command_status::wrong_CRC")
    else if status == 2
    then to_upper (codes "stick10::command_status::wrong_slot")
    else if status == 3
    then to_upper (codes "stick10::command_status::slot_not_programmed")
    else if status == 4
    then to_upper (codes "stick10::command_status::wrong_password")
    else if status == 5
    then to_upper (codes "stick10::command_status::not_authorized")
    else if status == 6
    then to_upper (codes "stick10::command_status::timestamp_warning")
    else if status == 7
    then to_upper (codes "stick10::command_status::no_name_error")
    else if status == 8
    then to_upper (codes "stick10::command_status::not_supported")
    else if status == 9
    then to_upper (codes "stick10::command_status::unknown_command")
    else if status == 10
    then to_upper (codes "stick10::command_status::AES_dec_failed")
    else unknown_status status

abbrev last_command_crc : Bytes → ℕ
last_command_crc packet = le_value (take 4 (drop 3 packet))

abbrev storage_command_counter : Bytes → ℕ
storage_command_counter = byte_at 21

abbrev storage_command_id : Bytes → ℕ
storage_command_id = byte_at 22

-- The macro `d`.
abbrev storage_line : String → ℕ → List Item
storage_line name x = text " " ∷ text name ∷ text ": \t" ∷ hex_line x

-- The part for a packet whose identifier stands in the storage status, too.
unfoldable pub storage_items : Bytes → List Item
storage_items pod =
    text "Storage stick status (where applicable):"
      ∷ endl
      ∷ storage_line "pod.storage_status.command_counter" (storage_command_counter pod)
    ++ (storage_line "pod.storage_status.command_id" (storage_command_id pod)
        ++ (storage_line "pod.storage_status.device_status" (storage_device_status pod)
            ++ storage_line "pod.storage_status.progress_bar_value"
                (storage_progress_bar_value pod)))

-- `ResponseDissector::dissect`, with the `dissect` of the payload. The status of the command is printed
-- in hex, since `hex` stays.
unfoldable pub response_items : (Bytes → List Item) → Bytes → List Item
response_items dissect_payload pod =
    (text "Device status:\t"
      ∷ number (device_status pod)
      ∷ text " "
      ∷ bytes (status_translate_device (device_status pod))
      ∷ endl
      ∷ text "Command ID:\t"
      ∷ text (name_of_number (command_id pod))
      ∷ text " hex: "
      ∷ hex
      ∷ number (command_id pod)
      ∷ endl
      ∷ text "Last command CRC:\t"
      ∷ hex_line (last_command_crc pod))
    ++ ((text "Last command status:\t"
          ∷ number (last_command_status pod)
          ∷ text " "
          ∷ bytes (status_translate_command (last_command_status pod))
          ∷ endl
          ∷ text "CRC:\t"
          ∷ hex_line (crc_field pod))
        ++ ((if command_id pod == storage_command_id pod then storage_items pod else [])
            ++ (text "Payload:"
                ∷ endl
                ∷ bytes (str (dissect_payload (response_payload pod)))
                ∷ [])))

unfoldable pub dissect_response : (Bytes → List Item) → Bytes → Bytes
dissect_response dissect_payload pod = str (response_items dissect_payload pod)
