-- ===== src/Device/Hid.antt =====
-- What the code calls of hidapi, a library outside this repository, and two calls of the C++ library.
-- `W` is the state of the world behind it: the operating system and the devices that are plugged in.
-- Handles are numbers, and a null pointer is `none`.
use libnitrokey.Prelude.{ℕ, Option, List}
use libnitrokey.Prelude.Int.{ℤ}
use libnitrokey.Prelude.Bytes.{Bytes}

pub record HidDeviceInfo : Type 0 where
  pub path : Option Bytes
  -- the characters of a wide string
  pub serial_number : Option (List ℕ)
  pub vendor_id : ℕ
  pub product_id : ℕ

pub record Hid (W : Type 0) : Type 0 where
  -- `hid_open` with a vendor and a product, and `hid_open_path`
  pub hid_open : ℕ → ℕ → W → Option ℕ × W
  pub hid_open_path : Bytes → W → Option ℕ × W
  pub hid_close : ℕ → W → W
  pub hid_exit : W → W
  -- the returned `int`
  pub hid_send_feature_report : ℕ → Bytes → W → ℤ × W
  -- the returned `int`, and the buffer that was passed in after the call
  pub hid_get_feature_report : ℕ → Bytes → W → ℤ × Bytes × W
  pub hid_enumerate : ℕ → ℕ → W → List HidDeviceInfo × W
  -- `to_bytes` of `std::wstring_convert` with `std::codecvt_utf8`; where it fails, it throws
  pub to_bytes : List ℕ → Option Bytes
  -- `std::this_thread::sleep_for` of so many milliseconds
  pub sleep_for : ℕ → W → W
