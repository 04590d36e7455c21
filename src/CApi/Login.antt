-- ===== src/CApi/Login.antt =====
-- The functions of NK_C_API.cc that connect, list and disconnect devices. A Boolean stands for the
-- numbers 1 and 0, and a linked list of `NK_device_info` is the list of its nodes.
pub mod Laws
use libnitrokey.Prelude.{
  ℕ, ◌-◌, Bool, true, false, Option, none, some, List, [], ◌∷◌, ◌++◌, length, take, map,
}
use libnitrokey.Prelude.Bytes.{Bytes}
use libnitrokey.Exceptions.{
  Action, Result, ok, err, command_failed, long_operation_in_progress, device_not_connected,
  device_sending_failure, device_receiving_failure, invalid_crc_received, runtime_error, pure,
  ◌>>=◌,
}
use libnitrokey.Misc.Fields.{strndup}
use libnitrokey.Device.Hid.{Hid}
use libnitrokey.Device.Enumeration.{DeviceInfo, enumerate}
use libnitrokey.Manager.State.{Manager}
use libnitrokey.Manager.Connecting.{connect, connect_letter, disconnect}
use libnitrokey.Manager.ById.{list_devices_by_cpu_id, connect_with_id, connect_with_path}
use libnitrokey.CApi.Status.{
  Api, get_type, get_with_result, get_with_string_result, get_without_result,
}
use libnitrokey.CApi.Structs.{
  NkDeviceModel, nk_disconnected, nk_pro, nk_storage, nk_librem, model_of,
}

pub record NkDeviceInfo : Type 0 where
  pub model : NkDeviceModel
  pub path : Bytes
  pub serial_number : Bytes

-- `MAXIMUM_STR_REPLY_LENGTH`
abbrev pub maximum_str_reply_length : ℕ
maximum_str_reply_length = 8192

-- Where memory is not short.
pub copy_device_info : DeviceInfo → NkDeviceInfo
copy_device_info source = record {
  model = model_of source.device_model;
  path = strndup maximum_str_reply_length source.path;
  serial_number = strndup maximum_str_reply_length source.serial_number;
}

-- The loop, then `pop_back`.
unfoldable pub with_delimiters : List Bytes → Bytes
with_delimiters [] = []
with_delimiters (a ∷ rest) = (a ++ (b';' ∷ [])) ++ with_delimiters rest

unfoldable pub join_ids : List Bytes → Bytes
join_ids ids = let res = with_delimiters ids in take (length res - 1) res

-- The letter that `NK_login_enum` passes on.
unfoldable pub letter_of : NkDeviceModel → Option Bytes
letter_of nk_disconnected = none
letter_of nk_pro = some (b'P' ∷ [])
letter_of nk_storage = some (b'S' ∷ [])
letter_of nk_librem = some (b'L' ∷ [])

abbrev one_if : Bool → ℕ
one_if true = 1
one_if false = 0

module _ {S : Type 0} where
  abbrev api : S → ℕ → Api S
  api s status = record { manager = s; nk_last_command_status = status }

  -- The handlers of `NK_login`.
  unfoldable pub handle_login : Result Bool × S → Result ℕ × Api S
  handle_login (ok connected, s) = (ok (one_if connected), api s 0)
  handle_login (err (command_failed command status), s) = (ok status, api s status)
  handle_login (err (long_operation_in_progress command status progress), s) =
      (ok status, api s status)
  handle_login (err device_not_connected, s) = (ok 0, api s (256 - get_type))
  handle_login (err (device_sending_failure sent), s) = (ok 0, api s (256 - get_type))
  handle_login (err device_receiving_failure, s) = (ok 0, api s (256 - get_type))
  handle_login (err invalid_crc_received, s) = (ok 0, api s (256 - get_type))
  handle_login (err runtime_error, s) = (ok 0, api s 0)
  handle_login (err e, s) = (err e, api s 0)

  -- A call that does not throw.
  abbrev returning : {A : Type 0} → (S → A × S) → Action S A
  returning f s = let (a, s') = f s in (ok a, s')

module _ {W : Type 0} (hid : Hid W) where
  unfoldable pub nk_login : Bytes → Action (Api (Manager W)) ℕ
  nk_login device_model a = handle_login (connect_letter hid device_model a.manager)

  abbrev login_letter : Option Bytes → Action (Api (Manager W)) ℕ
  login_letter none a = (ok 0, a)
  login_letter (some letter) a = nk_login letter a

  unfoldable pub nk_login_enum : NkDeviceModel → Action (Api (Manager W)) ℕ
  nk_login_enum device_model = login_letter (letter_of device_model)

  pub nk_login_auto : Action (Api (Manager W)) Bool
  nk_login_auto = get_with_result (returning (connect hid)) false

  pub nk_logout : Action (Api (Manager W)) ℕ
  nk_logout = get_without_result (returning (disconnect hid))

  pub nk_list_devices_by_cpu_id : Action (Api (Manager W)) Bytes
  nk_list_devices_by_cpu_id =
      get_with_string_result
        (do v ← list_devices_by_cpu_id hid; pure (strndup maximum_str_reply_length (join_ids v)))

  abbrev list_devices : Action (Manager W) (List DeviceInfo)
  list_devices m = let (r, w) = enumerate hid m.world in (r, record m { world = w })

  pub nk_list_devices : Action (Api (Manager W)) (List NkDeviceInfo)
  nk_list_devices = get_with_result (do v ← list_devices; pure (map copy_device_info v)) []

  pub nk_connect_with_id : Bytes → Action (Api (Manager W)) Bool
  nk_connect_with_id id = get_with_result (connect_with_id hid id) false

  pub nk_connect_with_path : Bytes → Action (Api (Manager W)) Bool
  nk_connect_with_path path = get_with_result (returning (connect_with_path hid path)) false
