-- ===== src/Commands/Fits.antt =====
-- The size of the payloads: what the `static_assert` of `Transaction` on `command_payload` demands.
use libnitrokey.Prelude.{◌≤◌, ◌<◌, length, length-append, arith}
use libnitrokey.Prelude.Bytes.{length-le_bytes}
use libnitrokey.Commands.Layout.{length-byte, length-c_array, length-slot_config}
use libnitrokey.Commands.Ids.{code-lt}
use libnitrokey.Commands.Stick10.{Stick10, pack as pack_stick10}
use libnitrokey.Commands.Stick10_08.{Stick10_08, pack as pack_stick10_08}
use libnitrokey.Commands.Stick20.{Stick20, pack as pack_stick20}
use libnitrokey.Commands.Command.{Command, stick10, stick10_08, stick20, id_of, code_of, payload_of}
use libnitrokey.Proto.Packet.{report_payload_size}

ruleset sizes = (length-append, length-byte, length-c_array, length-slot_config, length-le_bytes)

stick10_fits : (c : Stick10) → length (pack_stick10 c) ≤ 59
unfolding pack_stick10
stick10_fits Stick10.get_status = omega arith
stick10_fits _ = grind (arith, sizes)

stick10_08_fits : (c : Stick10_08) → length (pack_stick10_08 c) ≤ 59
unfolding pack_stick10_08
stick10_08_fits (Stick10_08.erase_slot_08 slot_number temporary_admin_password) =
    grind (arith, sizes)
stick10_08_fits _ = grind (arith, sizes)

stick20_fits : (c : Stick20) → length (pack_stick20 c) ≤ 59
unfolding pack_stick20
stick20_fits Stick20.get_device_status = omega arith
stick20_fits _ = grind (arith, sizes)

-- Every command's code is a byte, and its packed payload fits into the payload of a report,
-- whatever the members hold.
pub payload_of-fits :
    (c : Command) → (code_of c < 256) × (length (payload_of c) ≤ report_payload_size)
unfolding code_of payload_of id_of
payload_of-fits (stick10 c) = (code-lt _, stick10_fits c)
payload_of-fits (stick10_08 c) = (code-lt _, stick10_08_fits c)
payload_of-fits (stick20 c) = (code-lt _, stick20_fits c)
