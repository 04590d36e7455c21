-- ===== src/Manager/Authorization.antt =====
-- `authorize_packet`: old firmware wants the checksum of a command's packet, with the temporary
-- password, before the command itself.
pub mod Log
pub mod Laws
use libnitrokey.Prelude.{ℕ}
use libnitrokey.Prelude.Bytes.{Bytes}
use libnitrokey.Exceptions.{Action, pure, ◌>>=◌, ◌>>◌}
use libnitrokey.Misc.Fields.{CString}
use libnitrokey.Proto.Packet.{get_crc}
use libnitrokey.Commands.Command.{Command, stick10, code_of, payload_of}
use libnitrokey.Commands.Stick10.{Stick10}
use libnitrokey.Manager.Interface.{Link, field, execute}
use libnitrokey.Manager.Status.{is_authorization_command_supported}

-- The type to authorize with: `Authorize` or `UserAuthorize`.
pub data Role : Type 0 where
  admin user : Role

pub authorization : Role → ℕ → Bytes → Command
authorization admin crc password = stick10 (Stick10.authorize crc password)
authorization user crc password = stick10 (Stick10.user_authorize crc password)

-- `Transaction::getCRC`
pub crc_of : Command → ℕ
crc_of c = get_crc (code_of c) (payload_of c)

module _ {S : Type 0} (link : Link S) where
  -- The version is asked for once more, and only a warning depends on it.
  pub authorize_packet : Role → Command → CString → Action S (Unit {0})
  authorize_packet role packet temporary_password = do
    _ ← is_authorization_command_supported link
    password ← field 25 temporary_password
    execute link (authorization role (crc_of packet) password)
