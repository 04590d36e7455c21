-- ===== src/Tests/Texts.antt =====
-- Dumps, the text of packets and of responses, the log, and enumeration.
use Prim.Native.String.{String}
use mathlib.Core.List.{Memᴰ}
use libnitrokey.Prelude.{
  ◌≡◌, ◌≢◌, refl, ◌++◌, ◌↔◌, ◌⊎◌, true, some, none, [], ◌∷◌, replicate, arith,
}
use libnitrokey.Prelude.Bytes.{Bytes, codes}
use libnitrokey.Exceptions.{ok}
use libnitrokey.Misc.Hexdump.Told.{hexdump_injective}
use libnitrokey.Misc.Decimal.{decimal, digits_of}
use libnitrokey.Misc.Stream.{str, write, inserted, next_format, numeral}
use libnitrokey.Device.Model.{nitrokey_vid, purism_vid, pro, storage, product_id_to_model}
use libnitrokey.Device.Enumeration.{
  DeviceInfo, read_entry, read_entries, enumerate, add_vendor_devices,
}
use libnitrokey.Device.Enumeration.Listed.{IsListed, enumerate-AreListed}
use libnitrokey.Commands.Layout.{c_array}
use libnitrokey.Commands.Command.{Command, stick10, code_of, id_of, payload_of}
use libnitrokey.Commands.Stick10.{Stick10, command_of, pack}
use libnitrokey.Commands.Ids.{code}
use libnitrokey.Commands.Dissect.Query.{dissect}
use libnitrokey.Commands.Dissect.Query.Secrets.{masked, dissect-masked}
use libnitrokey.Commands.Dissect.Query.Temporary.{by_first_authenticate, dissect-with_password}
use libnitrokey.Commands.Dissect.Responses.{
  dissect_get_status, dissect_device_configuration, dissect_get_sd_card_occupancy,
}
use libnitrokey.Commands.Dissect.{print_to_ss}
use libnitrokey.Proto.Dissect.Checksum.{dissect_query-detects}
use libnitrokey.Proto.Dissect.{dissect_query}
use libnitrokey.Manager.Interface.{Link}
use libnitrokey.CApi.Status.{Api}
use libnitrokey.CApi.Texts.{
  nk_get_status_as_string, nk_get_status_storage_as_string, nk_get_sd_usage_data_as_string,
}
use libnitrokey.CApi.Texts.Laws.{nk_texts_lem, told}
use libnitrokey.Log.{warning, new_log, level_number}
use libnitrokey.Log.Functions.{
  Logging, nk_set_log_function, set_log_functions, log_message, to_raw_function,
}
use libnitrokey.Tests.Connections.{plugged, storage_info}
use libnitrokey.Log.Functions.First.{log_message-first}

abbrev two : Bytes
two = 1 ∷ 0xAB ∷ []

hexdump_injective_example : two ≡ 1 ∷ 0xAB ∷ []
hexdump_injective_example =
    hexdump_injective two (1 ∷ 0xAB ∷ []) true true true (ground arith) (ground arith) refl refl

dissect-masked_example :
    dissect (stick10 (Stick10.change_user_pin (codes "123456") (codes "654321")))
    ≡ dissect (masked (stick10 (Stick10.change_user_pin (codes "123456") (codes "654321"))))
dissect-masked_example =
    dissect-masked (stick10 (Stick10.change_user_pin (codes "123456") (codes "654321")))

dissect-with_password_example : c_array 25 (codes "temporary") ≡ c_array 25 (codes "temporary")
dissect-with_password_example =
    dissect-with_password (by_first_authenticate (codes "123456")) (codes "temporary")
      (codes "temporary") refl

-- Two PINs that differ in their second digit.
abbrev by_pin : String → Command
by_pin pin = stick10 (Stick10.user_authenticate (codes pin) [])

abbrev behind_pin : Bytes
behind_pin = codes "456" ++ replicate 53 0

dissect_query-detects_example : dissect_query (by_pin "123456") ≢ dissect_query (by_pin "193456")
unfolding code_of id_of payload_of command_of code pack c_array
dissect_query-detects_example =
    dissect_query-detects (by_pin "123456") (by_pin "193456") 0 [] (14 ∷ codes "123")
      (14 ∷ codes "193") behind_pin refl refl refl refl refl refl (ground arith)

-- A device that answers every command with bytes 255.
abbrev full : Bytes
full = replicate 53 255

abbrev answering : Link (Unit {0})
answering = record { device_model = λ s. some pro; transact = λ c s. (ok full, s) }

abbrev client : Api (Unit {0})
client = record { manager = tt; nk_last_command_status = 7 }

nk_texts_lem_example :
    (nk_get_status_as_string answering client ≡ told dissect_get_status (ok full, tt))
    × (nk_get_status_storage_as_string answering client
        ≡ told dissect_device_configuration (ok full, tt))
    × (nk_get_sd_usage_data_as_string answering client
        ≡ told dissect_get_sd_card_occupancy (ok full, tt))
nk_texts_lem_example = nk_texts_lem answering client

-- The text of one response.
occupancy_text :
    str (dissect_get_sd_card_occupancy (1 ∷ 20 ∷ 3 ∷ 255 ∷ []))
    ≡ codes
        " static_cast<int>(WriteLevelMin):\t1\n static_cast<int>(WriteLevelMax):\t20\n static_cast<int>(ReadLevelMin):\t3\n static_cast<int>(ReadLevelMax):\t255\n"
unfolding str write inserted next_format numeral decimal digits_of print_to_ss
    dissect_get_sd_card_occupancy
occupancy_text = refl

-- A log without functions of the client.
abbrev silent : Logging
silent = record { log = new_log; functional = none; raw = none }

log_message-first_example :
    (log_message []
      (codes "sent")
      warning
      (set_log_functions (8 ∷ 9 ∷ []) (nk_set_log_function 5 silent))).0
    ≡ to_raw_function 5 (codes "sent") 1 ∷ []
unfolding new_log level_number
log_message-first_example = log_message-first 5 (8 ∷ 9 ∷ []) silent [] (codes "sent") warning refl

-- What `enumerate` lists where one Storage is plugged in.
abbrev storage_listed : DeviceInfo
storage_listed = record { device_model = storage; path = codes "x"; serial_number = [] }

enumerate_storage : enumerate plugged [] ≡ (ok (storage_listed ∷ []), [])
unfolding enumerate add_vendor_devices read_entries read_entry product_id_to_model
enumerate_storage = refl

enumerate-AreListed_example : Memᴰ storage_listed (storage_listed ∷ []) ↔ (
    IsListed plugged nitrokey_vid (storage_info ∷ []) storage_listed
    ⊎ IsListed plugged purism_vid (storage_info ∷ []) storage_listed)
enumerate-AreListed_example = enumerate-AreListed plugged [] enumerate_storage storage_listed
