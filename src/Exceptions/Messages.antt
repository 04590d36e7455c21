-- ===== src/Exceptions/Messages.antt =====
-- The messages of the exceptions (`what`), of those classes that do not take theirs from the place that
-- throws.
use libnitrokey.Prelude.{Option, none, some, [], ◌∷◌}
use libnitrokey.Prelude.Bytes.{Bytes, codes}
use libnitrokey.Misc.Stream.{text, number, str}
use libnitrokey.Exceptions.{
  Exception, target_buffer_smaller_than_source, too_long_string, invalid_hex_string, invalid_slot,
  command_failed, long_operation_in_progress,
}

unfoldable pub what : Exception → Option Bytes
what (target_buffer_smaller_than_source source target) = some (
    str (
      text "Target buffer size is smaller than source: [source size, buffer size]"
      ∷ text " "
      ∷ number source
      ∷ text " "
      ∷ number target
      ∷ []))
what (invalid_hex_string character) = some (codes "Invalid character in hex string")
what (invalid_slot slot) = some (codes "Wrong slot selected")
what (too_long_string source target) =
    some (codes "Too long string has been supplied as an argument")
what (command_failed command status) = some (codes "Command execution has failed on device")
what (long_operation_in_progress command status progress) =
    some (codes "Device returned busy status with long operation in progress")
what _ = none
