-- ===== src/Proto/Dissect/Statuses.antt =====
-- The texts of statuses are told apart.
use libnitrokey.Prelude.{ℕ, ◌≡◌, ◌<◌, if◌then◌else◌, arith, drop}
use libnitrokey.Prelude.Bytes.{Bytes, codes, bytes_eq}
use libnitrokey.Misc.Decimal.{read_decimal, read_decimal-decimal}
use libnitrokey.Proto.Dissect.{
  unknown_status, status_translate_device, upper, to_upper, status_translate_command,
}

abbrev read_unknown : Bytes → ℕ
read_unknown t = read_decimal 0 (drop 9 t)

-- The status of a device, and of a command, that a text names.
pub read_device : Bytes → ℕ
read_device t =
    if bytes_eq t (codes "OK")
    then 0
    else if bytes_eq t (codes "BUSY")
    then 1
    else if bytes_eq t (codes "ERROR")
    then 2
    else if bytes_eq t (codes "RECEIVED_REPORT")
    then 3
    else read_unknown t

pub read_command : Bytes → ℕ
read_command t =
    if bytes_eq t (codes "STICK10::COMMAND_STATUS::OK")
    then 0
    else if bytes_eq t (codes "STICK10::COMMAND_STATUS::WRONG_CRC")
    then 1
    else if bytes_eq t (codes "STICK10::COMMAND_STATUS::WRONG_SLOT")
    then 2
    else if bytes_eq t (codes "STICK10::COMMAND_STATUS::SLOT_NOT_PROGRAMMED")
    then 3
    else if bytes_eq t (codes "STICK10::COMMAND_STATUS::WRONG_PASSWORD")
    then 4
    else if bytes_eq t (codes "STICK10::COMMAND_STATUS::NOT_AUTHORIZED")
    then 5
    else if bytes_eq t (codes "STICK10::COMMAND_STATUS::TIMESTAMP_WARNING")
    then 6
    else if bytes_eq t (codes "STICK10::COMMAND_STATUS::NO_NAME_ERROR")
    then 7
    else if bytes_eq t (codes "STICK10::COMMAND_STATUS::NOT_SUPPORTED")
    then 8
    else if bytes_eq t (codes "STICK10::COMMAND_STATUS::UNKNOWN_COMMAND")
    then 9
    else if bytes_eq t (codes "STICK10::COMMAND_STATUS::AES_DEC_FAILED")
    then 10
    else read_unknown t

read_device-translate : (n : ℕ) → n < 256 → read_device (status_translate_device n) ≡ n
unfolding read_device status_translate_device unknown_status bytes_eq
read_device-translate n h = ground (arith, read_decimal-decimal n (omega arith))

read_command-translate : (n : ℕ) → n < 256 → read_command (status_translate_command n) ≡ n
unfolding read_command status_translate_command unknown_status to_upper upper bytes_eq
read_command-translate n h = ground (arith, read_decimal-decimal n (omega arith))

-- The text of a status tells the status, for devices as for commands, known or not.
pub read-status_translate :
    (n : ℕ)
    → n < 256
    → (read_device (status_translate_device n) ≡ n)
      × (read_command (status_translate_command n) ≡ n)
read-status_translate n h = (read_device-translate n h, read_command-translate n h)
