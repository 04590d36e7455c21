-- ===== src/Manager/Interface.antt =====
-- What `NitrokeyManager` uses of the layers below: whether a device is connected, its model, and
-- `CommandTransaction::run`. `S` is the state of the manager.
use libnitrokey.Prelude.{ℕ, Option, none, some, Bool, true, false, get_or, take, drop, [], ◌∷◌}
use libnitrokey.Prelude.Bytes.{Bytes, le_value}
use libnitrokey.Exceptions.{Action, throw, pure, lift, ◌>>=◌, device_not_connected}
use libnitrokey.Device.Model.{DeviceModel}
use libnitrokey.Misc.Fields.{CString, strcpy_t}
use libnitrokey.Commands.Command.{Command}

pub record Link (S : Type 0) : Type 0 where
  -- `device` and its `get_device_model`
  pub device_model : S → Option DeviceModel
  -- `CommandTransaction::run` of the command, with the payload of its response
  pub transact : Command → Action S Bytes

-- A member of a response's payload.
abbrev pub payload_byte : ℕ → Bytes → ℕ
payload_byte i payload = get_or payload i 0

abbrev pub payload_bytes : ℕ → ℕ → Bytes → Bytes
payload_bytes i n payload = take n (drop i payload)

abbrev pub payload_u32 : ℕ → Bytes → ℕ
payload_u32 i payload = le_value (payload_bytes i 4 payload)

-- Whether a password was given: a null pointer and the empty string are none.
pub is_given : CString → Bool
is_given none = false
is_given (some []) = false
is_given (some (c ∷ cs)) = true

abbrev pub require_model : {S : Type 0} → Option DeviceModel → Action S DeviceModel
require_model none = throw device_not_connected
require_model (some model) = pure model

-- `strcpyT` into a member of a payload that `get_payload` has filled with zeroes.
abbrev pub field : {S : Type 0} → ℕ → CString → Action S Bytes
field size src = lift (strcpy_t size [] src)

module _ {S : Type 0} (link : Link S) where
  -- `if (device == nullptr) throw DeviceNotConnected`, and the model.
  unfoldable pub connected_model : Action S DeviceModel
  connected_model s = require_model (link.device_model s) s

  -- A command whose response has nothing of interest.
  unfoldable pub execute : Command → Action S (Unit {0})
  execute c = do _ ← link.transact c; pure tt
