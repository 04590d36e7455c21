-- ===== src/Commands/Layout.antt =====
-- How the members of a packed payload are laid out in bytes.
use libnitrokey.Prelude.{
  ℕ, zero, suc, ◌+◌, ◌*◌, ◌%◌, ◌≡◌, refl, ap, Bool, [], ◌∷◌, length, if◌then◌else◌, arith,
}
use libnitrokey.Prelude.Bytes.{Bytes, AreBytes}

-- The union of `_slot_config` and its three bits.
pub record SlotConfig : Type 0 where
  pub use_8_digits : Bool
  pub use_enter : Bool
  pub use_token_id : Bool

abbrev bit : Bool → ℕ
bit b = if b then 1 else 0

abbrev pub config_byte : SlotConfig → ℕ
config_byte c = bit c.use_8_digits + 2 * bit c.use_enter + 4 * bit c.use_token_id

pub slot_config : SlotConfig → Bytes
slot_config c = config_byte c ∷ []

pub byte : ℕ → Bytes
byte n = (n % 256) ∷ []

-- An array of so many bytes, of which the last ones are zero.
unfoldable pub c_array : ℕ → Bytes → Bytes
c_array zero bs = []
c_array (suc n) [] = 0 ∷ c_array n []
c_array (suc n) (b ∷ bs) = (b % 256) ∷ c_array n bs

pub length-slot_config : (c : SlotConfig) → length (slot_config c) ≡ 1
unfolding slot_config
length-slot_config c = refl

pub length-byte : (n : ℕ) → length (byte n) ≡ 1
unfolding byte
length-byte n = refl

pub length-c_array : (n : ℕ) (bs : Bytes) → length (c_array n bs) ≡ n
unfolding c_array
length-c_array zero bs = refl
length-c_array (suc n) [] = ap suc (length-c_array n [])
length-c_array (suc n) (b ∷ bs) = ap suc (length-c_array n bs)

pub c_array-AreBytes : (n : ℕ) (bs : Bytes) → AreBytes (c_array n bs)
unfolding c_array
c_array-AreBytes zero bs = tt
c_array-AreBytes (suc n) [] = (omega arith, c_array-AreBytes n [])
c_array-AreBytes (suc n) (b ∷ bs) = (omega arith, c_array-AreBytes n bs)

pub byte-AreBytes : (n : ℕ) → AreBytes (byte n)
unfolding byte
byte-AreBytes n = (omega arith, tt)

pub slot_config-AreBytes : (c : SlotConfig) → AreBytes (slot_config c)
unfolding slot_config
slot_config-AreBytes c = (ground arith, tt)
