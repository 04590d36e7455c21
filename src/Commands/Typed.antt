-- ===== src/Commands/Typed.antt =====
-- The type of the payloads: `uint8_t` members and arrays, packed.
use libnitrokey.Prelude.Bytes.{AreBytes, append-AreBytes, le_bytes-AreBytes}
use libnitrokey.Commands.Layout.{byte-AreBytes, c_array-AreBytes, slot_config-AreBytes}
use libnitrokey.Commands.Stick10.{Stick10, pack as pack_stick10}
use libnitrokey.Commands.Stick10_08.{Stick10_08, pack as pack_stick10_08}
use libnitrokey.Commands.Stick20.{Stick20, pack as pack_stick20}
use libnitrokey.Commands.Command.{Command, stick10, stick10_08, stick20, payload_of}

ruleset members =
    (append-AreBytes, byte-AreBytes, c_array-AreBytes, slot_config-AreBytes, le_bytes-AreBytes)

stick10-AreBytes : (c : Stick10) → AreBytes (pack_stick10 c)
unfolding pack_stick10
stick10-AreBytes Stick10.get_status = tt
stick10-AreBytes Stick10.get_password_retry_count = tt
stick10-AreBytes Stick10.get_user_password_retry_count = tt
stick10-AreBytes Stick10.get_password_safe_slot_status = tt
stick10-AreBytes Stick10.lock_device = tt
stick10-AreBytes _ = search members depth 8

stick10_08-AreBytes : (c : Stick10_08) → AreBytes (pack_stick10_08 c)
unfolding pack_stick10_08
stick10_08-AreBytes (Stick10_08.erase_slot_08 slot_number temporary_admin_password) =
    search members depth 8
stick10_08-AreBytes _ = search members depth 8

stick20-AreBytes : (c : Stick20) → AreBytes (pack_stick20 c)
unfolding pack_stick20
stick20-AreBytes Stick20.get_device_status = tt
stick20-AreBytes _ = search members depth 8

pub payload_of-AreBytes : (c : Command) → AreBytes (payload_of c)
unfolding payload_of
payload_of-AreBytes (stick10 c) = stick10-AreBytes c
payload_of-AreBytes (stick10_08 c) = stick10_08-AreBytes c
payload_of-AreBytes (stick20 c) = stick20-AreBytes c
