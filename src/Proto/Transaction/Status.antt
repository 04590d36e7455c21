-- ===== src/Proto/Transaction/Status.antt =====
-- The translated status of a Storage device.
use libnitrokey.Prelude.{◌≡◌, ◌⊎◌, true, arith}
use libnitrokey.Prelude.Bytes.{Bytes}
use libnitrokey.Device.Model.{DeviceModel}
use libnitrokey.Proto.Packet.{last_command_status}
use libnitrokey.Proto.Transaction.{is_storage_answer, translate}
use libnitrokey.Prelude.{◌∷◌}

-- The only command statuses that a translated answer can carry.
abbrev pub IsTranslated : DeviceModel → Bytes → Type 0
IsTranslated model resp =
    is_storage_answer model resp ≡ true
    → (last_command_status resp ≡ 0)
      ⊎ ((last_command_status resp ≡ 4) ⊎ (last_command_status resp ≡ 10))

pub translate-IsTranslated :
    (model : DeviceModel) (resp : Bytes) → IsTranslated model (translate model resp)
unfolding translate
translate-IsTranslated model (a ∷ b ∷ c ∷ d ∷ e ∷ f ∷ g ∷ i ∷ rest) = λ h. ground arith
translate-IsTranslated model _ = λ h. ground arith
