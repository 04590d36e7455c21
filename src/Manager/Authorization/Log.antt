-- ===== src/Manager/Authorization/Log.antt =====
-- A link that keeps the commands it was given, newest first, and what holds of such a log.
use libnitrokey.Prelude.{◌≡◌, Bool, true, false, List, [], ◌∷◌}
use libnitrokey.Commands.Command.{Command, stick10}
use libnitrokey.Commands.Stick10.{Stick10}
use libnitrokey.Manager.Interface.{Link}
use libnitrokey.Manager.Authorization.{crc_of}

abbrev pub Logged : Type 0 → Type 0
Logged S = S × List Command

abbrev pub add_log : {S A : Type 0} → List Command → A × S → A × Logged S
add_log log (a, s) = (a, (s, log))

unfoldable pub logged : {S : Type 0} → Link S → Link (Logged S)
logged link = record {
  device_model = λ s. link.device_model s.0;
  transact = λ c s. add_log (c ∷ s.1) (link.transact c s.0);
}

-- The commands that change a slot and carry no password of their own.
unfoldable pub needs_authorization : Command → Bool
needs_authorization (stick10 (Stick10.erase_slot _)) = true
needs_authorization (stick10 (Stick10.write_to_hotp_slot _ _ _ _ _ _)) = true
needs_authorization (stick10 (Stick10.write_to_totp_slot _ _ _ _ _ _)) = true
needs_authorization _ = false

-- The command before was an authorization of that packet.
unfoldable pub IsAuthorization : Command → List Command → Type 0
IsAuthorization c (stick10 (Stick10.authorize crc password) ∷ log) = crc ≡ crc_of c
IsAuthorization c _ = ⊥

unfoldable pub Authorized : List Command → Type 0
Authorized [] = Unit
Authorized (c ∷ log) = (needs_authorization c ≡ true → IsAuthorization c log) × Authorized log
