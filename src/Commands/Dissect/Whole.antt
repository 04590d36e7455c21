-- ===== src/Commands/Dissect/Whole.antt =====
-- The texts of responses that the library hands on, in their greatest length.
use libnitrokey.Prelude.{ℕ, ◌≤◌, arith, length-take, drop, true, false, Bool, ◌*◌}
use libnitrokey.Prelude.Bytes.{Bytes}
use libnitrokey.Misc.Hexdump.{hexdump}
use libnitrokey.Misc.Hexdump.Sizes.{IsPrinted, IsPrinted-mono, hexdump-IsPrinted}
use libnitrokey.Misc.Stream.{str}
use libnitrokey.Misc.Stream.Laws.{rooms, ArePlain, str-IsPrinted}
use libnitrokey.Manager.Interface.{payload_bytes}
use libnitrokey.Commands.Dissect.{print_to_ss, line, truth}
use libnitrokey.Commands.Dissect.Responses.{
  dissect_get_status, dissect_transmission_data, dissect_device_configuration,
  dissect_get_sd_card_occupancy,
}

occupancy-ArePlain : (payload : Bytes) → ArePlain (dissect_get_sd_card_occupancy payload)
unfolding dissect_get_sd_card_occupancy print_to_ss
occupancy-ArePlain payload = ground arith

occupancy-rooms : (payload : Bytes) → rooms (dissect_get_sd_card_occupancy payload) ≤ 2048
unfolding dissect_get_sd_card_occupancy print_to_ss
occupancy-rooms payload = omega arith

payload-IsPrinted :
    (i n k : ℕ) (payload : Bytes) (h a e : Bool)
    → n ≤ 16 * k
    → IsPrinted (80 * k) (hexdump (payload_bytes i n payload) h a e)
payload-IsPrinted i n k payload h a e fits =
    hexdump-IsPrinted k (payload_bytes i n payload) h a e
      (omega (arith, length-take {0} n (drop i payload)))

transmission-ArePlain : (payload : Bytes) → ArePlain (dissect_transmission_data payload)
unfolding dissect_transmission_data print_to_ss
transmission-ArePlain payload =
    ground (arith, payload-IsPrinted 0 18 2 payload true true true (omega arith))

transmission-rooms : (payload : Bytes) → rooms (dissect_transmission_data payload) ≤ 440
unfolding dissect_transmission_data print_to_ss
transmission-rooms payload =
    omega (arith, (payload-IsPrinted 0 18 2 payload true true true (omega arith)).0)

configuration-ArePlain : (payload : Bytes) → ArePlain (dissect_device_configuration payload)
unfolding dissect_device_configuration print_to_ss
configuration-ArePlain payload =
    ground
      (arith, str-IsPrinted (dissect_transmission_data payload) (transmission-ArePlain payload))

configuration-rooms : (payload : Bytes) → rooms (dissect_device_configuration payload) ≤ 2048
unfolding dissect_device_configuration print_to_ss
configuration-rooms payload = omega (
  arith,
  transmission-rooms payload,
  (str-IsPrinted (dissect_transmission_data payload) (transmission-ArePlain payload)).0,
)

status-ArePlain : (payload : Bytes) → ArePlain (dissect_get_status payload)
unfolding dissect_get_status line truth
status-ArePlain payload = ground (
  arith,
  payload-IsPrinted 0 2 1 payload false true true (omega arith),
  payload-IsPrinted 2 4 1 payload false true true (omega arith),
  payload-IsPrinted 6 5 1 payload false true true (omega arith),
)

status-rooms : (payload : Bytes) → rooms (dissect_get_status payload) ≤ 2048
unfolding dissect_get_status line truth
status-rooms payload = omega (
  arith,
  (payload-IsPrinted 0 2 1 payload false true true (omega arith)).0,
  (payload-IsPrinted 2 4 1 payload false true true (omega arith)).0,
  (payload-IsPrinted 6 5 1 payload false true true (omega arith)).0,
)

-- The text of each response that is handed on has at most 2048 characters, none of them zero.
pub texts-ArePrinted :
    (payload : Bytes)
    → IsPrinted 2048 (str (dissect_get_status payload))
      × IsPrinted 2048 (str (dissect_device_configuration payload))
      × IsPrinted 2048 (str (dissect_get_sd_card_occupancy payload))
texts-ArePrinted payload = (
  IsPrinted-mono (rooms (dissect_get_status payload)) 2048 (str (dissect_get_status payload))
      (status-rooms payload) (str-IsPrinted (dissect_get_status payload) (status-ArePlain payload)),
  IsPrinted-mono (rooms (dissect_device_configuration payload)) 2048
      (str (dissect_device_configuration payload)) (configuration-rooms payload)
      (str-IsPrinted (dissect_device_configuration payload) (configuration-ArePlain payload)),
  IsPrinted-mono (rooms (dissect_get_sd_card_occupancy payload)) 2048
      (str (dissect_get_sd_card_occupancy payload)) (occupancy-rooms payload)
      (str-IsPrinted (dissect_get_sd_card_occupancy payload) (occupancy-ArePlain payload)),
)
