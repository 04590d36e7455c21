-- ===== src/Tests/Connections.antt =====
-- Runs of the calls that connect devices and of the C interface, on simulated devices.
use libnitrokey.Prelude.{
  ℕ, Option, Bool, not, if◌then◌else◌, ◌==◌, true, ◌≡◌, ◌≢◌, refl, arith, false, some, none, [],
  ◌∷◌, ◌⊎◌, length,
}
use libnitrokey.Prelude.Int.{ℤ, pos}
use libnitrokey.Prelude.Bytes.{Bytes, bytes_eq}
use libnitrokey.Exceptions.{Yields, Throws, ok}
use libnitrokey.Misc.Hex.{hex_string_to_byte}
use libnitrokey.Device.Model.{pro, storage, librem, librem_key_pid}
use libnitrokey.Device.Hid.{Hid, HidDeviceInfo}
use libnitrokey.Commands.Command.{stick10}
use libnitrokey.Commands.Stick10.{Stick10}
use libnitrokey.Manager.State.{Manager, at_key, make_shared}
use libnitrokey.Manager.State.Laws.{IsOwned}
use libnitrokey.Manager.Connection.{device_link}
use libnitrokey.Manager.Ownership.{
  new_manager, lists_by_cpu_id, connects_with_path, transacts, after, started, called,
  IsReachable-IsOwned,
}
use libnitrokey.Manager.Connection.{current_device}
use libnitrokey.Manager.ById.{to_hex, is_communication, list_devices_by_cpu_id, connect_with_id}
use libnitrokey.Manager.ById.Chosen.{IsChosen, connect_with_id-IsChosen}
use libnitrokey.Manager.ById.Listed.{AreEntries, list_devices_by_cpu_id-AreEntries}
use libnitrokey.Manager.Writing.{send_secret}
use libnitrokey.Manager.Writing.Parts.{parts, joined, AreParts, send_parts, send_secret_lem}
use libnitrokey.Manager.Status.{get_status}
use libnitrokey.Manager.Pins.{get_random_pro}
use libnitrokey.Manager.Storage.{get_status_storage, production_info, get_sd_usage_data}
use libnitrokey.Commands.Responses.{
  stick_status, random_data, device_configuration, production_test,
}
use libnitrokey.CApi.Structs.{
  model_of, nk_status_of, nk_storage_status_of, nk_sd_usage_data_of, nk_production_of,
  nk_get_random_of,
}
use libnitrokey.CApi.Infos.{
  nk_get_status, nk_get_status_storage, nk_get_storage_production_info, nk_get_sd_usage_data,
  nk_get_random,
}
use libnitrokey.CApi.Infos.Laws.{IsFilled, nk_structs-IsFilled}
use libnitrokey.CApi.Login.{nk_login, nk_login_enum, join_ids}
use libnitrokey.CApi.Login.Laws.{IsLogin, nk_login-IsLogin, cut, HasNone, cut-join_ids}
use libnitrokey.Manager.Connecting.Chosen.{is_there, is_connected-device}
use libnitrokey.Manager.Connecting.Last.{
  IsSettled, any_opened, last_opened, three_devices, connect-last,
}
use libnitrokey.Device.Link.{is_connected as is_connected_handle}
use libnitrokey.Manager.Connecting.{connect, is_connected, connect_letter, connect_model}
use libnitrokey.Manager.ById.Identifiers.{big_endian, hex_string_to_byte-identifier}
use libnitrokey.CApi.Infos.{nk_read_hotp_slot}
use libnitrokey.CApi.Infos.Counters.{read_answer, nk_read_hotp_slot-read_answer}
use libnitrokey.Manager.SlotData.{is_ascii_counter}
use libnitrokey.Manager.Slots.{is_internal_hotp_slot_number, get_internal_slot_number_for_hotp}
use libnitrokey.Manager.Interface.{connected_model}
use libnitrokey.Manager.Status.{get_minor_firmware_version, minor_in}
use libnitrokey.Log.{Log, error, warning, debug, set_loglevel, print}
use libnitrokey.Log.Laws.{AtMost, print-set_loglevel}
use libnitrokey.Tests.Devices.{
  World, simulated, good_answer, storage_manager, open_storage_manager, api_state,
}
use libnitrokey.Tests.Managers.{obedient, pin}

abbrev path : Bytes
path = b'x' ∷ []

abbrev pub storage_info : HidDeviceInfo
storage_info = record {
  path = some path;
  serial_number = some [];
  vendor_id = 0x20a0;
  product_id = 0x4109;
}

-- One Storage is plugged in.
abbrev pub plugged : Hid World
plugged = record simulated { hid_enumerate = λ vid pid w. (storage_info ∷ [], w) }

abbrev fresh : Manager World
fresh = new_manager (good_answer ∷ good_answer ∷ [])

IsReachable-IsOwned_example : IsOwned [] (
    after plugged
      (transacts (stick10 Stick10.get_status))
      (after plugged (connects_with_path path) (after plugged lists_by_cpu_id fresh)))
IsReachable-IsOwned_example = IsReachable-IsOwned plugged (
    called (transacts (stick10 Stick10.get_status)) (
      called (connects_with_path path)
        (called lists_by_cpu_id (started (good_answer ∷ good_answer ∷ [])))))

abbrev listed_manager : Manager World
listed_manager = record storage_manager {
  connected_devices_by_id = (path, some 0) ∷ [];
  device = none;
}

listed_at_key : at_key path (listed_manager.connected_devices_by_id) ≡ some (some 0)
unfolding at_key bytes_eq
listed_at_key = refl

connect_with_id-IsChosen_example :
    Yields (IsChosen path (some 0) listed_manager) (connect_with_id simulated path listed_manager)
    × Throws (λ x. is_communication x ≡ false) (connect_with_id simulated path listed_manager)
connect_with_id-IsChosen_example =
    connect_with_id-IsChosen simulated path (some 0) listed_manager listed_at_key

list_devices_by_cpu_id-AreEntries_example :
    Yields
      (λ ids m'. AreEntries ids (m'.connected_devices_by_id))
      (list_devices_by_cpu_id plugged listed_manager)
list_devices_by_cpu_id-AreEntries_example = list_devices_by_cpu_id-AreEntries plugged listed_manager

abbrev secret : Bytes
secret = 1 ∷ 2 ∷ 3 ∷ []

send_secret_lem_example :
    (send_secret obedient (length secret) pin secret (length secret) 0 (some pro)
      ≡ send_parts obedient pin (parts (length secret) secret) 0 (some pro))
    × (joined (parts (length secret) secret) ≡ secret)
    × AreParts (parts (length secret) secret)
send_secret_lem_example = send_secret_lem obedient pin secret (some pro)

nk_structs-IsFilled_example :
    let link = device_link simulated in
    IsFilled
      (λ payload. nk_status_of (stick_status payload))
      (get_status link open_storage_manager)
      (nk_get_status link false api_state)
    × IsFilled
        (λ payload. nk_storage_status_of (device_configuration payload))
        (get_status_storage link open_storage_manager)
        (nk_get_status_storage link false api_state)
    × IsFilled
        (λ payload. nk_production_of (production_test payload))
        (production_info link open_storage_manager)
        (nk_get_storage_production_info link false api_state)
    × IsFilled nk_sd_usage_data_of
        (get_sd_usage_data link open_storage_manager)
        (nk_get_sd_usage_data link false api_state)
    × IsFilled
        (λ payload. nk_get_random_of (random_data payload))
        (get_random_pro link 16 open_storage_manager)
        (nk_get_random link 16 false api_state)
nk_structs-IsFilled_example = nk_structs-IsFilled simulated 16 api_state

abbrev quiet : Log
quiet = record { handler = some 0; loglevel = warning; log_prefix = b'[' ∷ []; last_short = false }

abbrev three : ℤ
three = pos 3

print-set_loglevel_example :
    ((AtMost debug three ⊎ (debug ≡ error))
      → print path debug (set_loglevel three quiet)
        ≡ some (record { handler = 0; text = b'[' ∷ path; level = debug }))
    × ((AtMost debug three → ⊥)
        → (debug ≡ error → ⊥)
        → print path debug (set_loglevel three quiet) ≡ none)
print-set_loglevel_example = print-set_loglevel three 0 path debug quiet refl

nk_login-IsLogin_example :
    IsLogin
      (connect_letter simulated (b'X' ∷ []) open_storage_manager)
      (nk_login simulated (b'X' ∷ []) api_state)
    × IsLogin
        (connect_model simulated storage open_storage_manager)
        (nk_login_enum simulated (model_of storage) api_state)
nk_login-IsLogin_example = nk_login-IsLogin simulated (b'X' ∷ []) storage api_state

path-HasNone : HasNone path
path-HasNone = (ground arith, tt)

cut-join_ids_example : cut [] (join_ids (path ∷ path ∷ [])) ≡ path ∷ path ∷ []
cut-join_ids_example = cut-join_ids path (path ∷ []) path-HasNone (path-HasNone, tt)

hex_string_to_byte-identifier_example :
    hex_string_to_byte (to_hex 0x12345678) ≡ ok (big_endian 0x12345678)
hex_string_to_byte-identifier_example = hex_string_to_byte-identifier 0x12345678

-- No text is a number.
abbrev refusing : Bytes → Option ℕ
refusing text = none

abbrev last_hotp : ℕ
last_hotp = 2

-- The answers are all zero, so the Storage is of an old version.
old_storage :
    is_ascii_counter obedient refusing true
      (get_internal_slot_number_for_hotp last_hotp)
      (some storage)
    ≡ (ok true, some storage)
unfolding is_ascii_counter get_minor_firmware_version connected_model minor_in
    is_internal_hotp_slot_number get_internal_slot_number_for_hotp
old_storage = refl

abbrev no_answer : Bytes
no_answer = []

nk_read_hotp_slot-read_answer_example :
    nk_read_hotp_slot obedient refusing last_hotp false
      (record { manager = some storage; nk_last_command_status = 7 })
    ≡ read_answer true none no_answer (some storage)
nk_read_hotp_slot-read_answer_example =
    nk_read_hotp_slot-read_answer obedient refusing last_hotp storage no_answer true (some storage)
      (some storage) (some storage) 7 refl refl old_storage

-- A Pro and a Storage are plugged in, and no Librem Key.
abbrev plugged_in : ℕ → ℕ → Bool
plugged_in vid pid = not (pid == librem_key_pid)

abbrev pro_and_storage : Hid World
pro_and_storage = record simulated {
  hid_open = λ vid pid w. (if plugged_in vid pid then some 1 else none, w);
}

pro_and_storage-IsSettled : IsSettled pro_and_storage plugged_in
pro_and_storage-IsSettled vid pid w =
    elim (plugged_in vid pid) as (λ b. is_connected_handle (if b then some 1 else none) ≡ b) [
      | true ↦ refl
      | false ↦ refl
    ]

connect-last_example :
    let (p, m1) = make_shared pro storage_manager in
    let (s, m2) = make_shared storage m1 in
    let (l, m3) = make_shared librem m2 in
    let made = three_devices p s l in
    let (connected, m') = connect pro_and_storage storage_manager in
    (connected ≡ any_opened plugged_in false made)
    × (m'.device ≡ last_opened plugged_in (some 0) made)
connect-last_example =
    connect-last pro_and_storage plugged_in pro_and_storage-IsSettled storage_manager

-- It is the Storage, the second of the devices that were made.
connect-last_second : (connect pro_and_storage storage_manager).1.device ≡ some 2
unfolding make_shared
connect-last_second =
    (connect-last pro_and_storage plugged_in pro_and_storage-IsSettled storage_manager).1

is_connected-device_example :
    let (connected, m') = is_connected plugged open_storage_manager in
    (connected ≡ is_there plugged (current_device open_storage_manager) (good_answer ∷ []))
    × (connected ≡ true → (m'.device ≡ some 0) × (open_storage_manager.device ≢ none))
    × (connected ≡ false → m'.device ≡ none)
is_connected-device_example = is_connected-device plugged open_storage_manager
