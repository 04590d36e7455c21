-- ===== src/Commands/Command.antt =====
-- Any command: its code and its packed payload, the two template arguments of a `Transaction`.
use libnitrokey.Prelude.{ℕ}
use libnitrokey.Prelude.Bytes.{Bytes}
use libnitrokey.Commands.Ids.{CommandId, code}
use libnitrokey.Commands.Stick10.{Stick10, command_of as stick10_id, pack as pack_stick10}
use libnitrokey.Commands.Stick10_08.{
  Stick10_08, command_of as stick10_08_id, pack as pack_stick10_08,
}
use libnitrokey.Commands.Stick20.{Stick20, command_of as stick20_id, pack as pack_stick20}

pub data Command : Type 0 where
  stick10 : Stick10 → Command
  stick10_08 : Stick10_08 → Command
  stick20 : Stick20 → Command

unfoldable pub id_of : Command → CommandId
id_of (stick10 c) = stick10_id c
id_of (stick10_08 c) = stick10_08_id c
id_of (stick20 c) = stick20_id c

unfoldable pub code_of : Command → ℕ
code_of c = code (id_of c)

unfoldable pub payload_of : Command → Bytes
payload_of (stick10 c) = pack_stick10 c
payload_of (stick10_08 c) = pack_stick10_08 c
payload_of (stick20 c) = pack_stick20 c
