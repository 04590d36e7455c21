-- ===== src/Proto/Queries.antt =====
-- The packets of the commands, as they are sent (`Transaction::run`).
use libnitrokey.Prelude.{◌≡◌, true, length, take, drop}
use libnitrokey.Prelude.Bytes.{AreBytes}
use libnitrokey.Commands.Command.{Command, code_of, payload_of}
use libnitrokey.Commands.Fits.{payload_of-fits}
use libnitrokey.Commands.Typed.{payload_of-AreBytes}
use libnitrokey.Proto.Packet.{hid_report_size, outgoing_packet, byte_at, is_crc_correct}
use libnitrokey.Proto.Packet.Laws.{outgoing_packet_lem, outgoing_packet-AreBytes}

-- The packet of any command, whatever its members hold, is a report: 65 bytes, each below 256, a zero
-- and the command's code first, then its whole payload, and a checksum that `isCRCcorrect` accepts.
pub outgoing_packet-command :
    (c : Command)
    → let packet = outgoing_packet (code_of c) (payload_of c) in
      (length packet ≡ hid_report_size)
      × AreBytes packet
      × (byte_at 0 packet ≡ 0)
      × (byte_at 1 packet ≡ code_of c)
      × (take (length (payload_of c)) (drop 2 packet) ≡ payload_of c)
      × (is_crc_correct packet ≡ true)
outgoing_packet-command c =
    let (small, fits) = payload_of-fits c in
    let typed = payload_of-AreBytes c in
    let (size, leading, first, content, accepted) =
      outgoing_packet_lem (code_of c) (payload_of c) fits small typed in
    let bytes = outgoing_packet-AreBytes (code_of c) (payload_of c) fits small typed in
    (size, bytes, leading, first, content, accepted)
