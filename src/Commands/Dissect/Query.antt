-- ===== src/Commands/Dissect/Query.antt =====
-- `dissect` of the payload of any command.
pub mod Secrets
pub mod Temporary
use libnitrokey.Prelude.Bytes.{Bytes}
use libnitrokey.Misc.Stream.{str}
use libnitrokey.Commands.Command.{Command, stick10, stick10_08, stick20}
use libnitrokey.Commands.Dissect.Stick10.{items as stick10_items}
use libnitrokey.Commands.Dissect.Stick10_08.{items as stick10_08_items}
use libnitrokey.Commands.Dissect.Stick20.{items as stick20_items}

unfoldable pub dissect : Command → Bytes
dissect (stick10 c) = str (stick10_items c)
dissect (stick10_08 c) = str (stick10_08_items c)
dissect (stick20 c) = str (stick20_items c)
