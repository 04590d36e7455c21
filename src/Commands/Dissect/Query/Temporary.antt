-- ===== src/Commands/Dissect/Query/Temporary.antt =====
-- The temporary passwords that the texts of payloads give away: they are dumped, and not masked.
use Prim.Native.String.{String}
use libnitrokey.Prelude.{ℕ, ◌≡◌, refl, ◌∙◌, sym, length, List, [], ◌∷◌, ◌++◌, true, false}
use libnitrokey.Prelude.Bytes.{Bytes, le_bytes}
use libnitrokey.Misc.Hexdump.{hexdump}
use libnitrokey.Misc.Hexdump.Told.{length-hexdump, hexdump_injective}
use libnitrokey.Misc.Stream.{Item, text, bytes, char, number, int, hex, setw, setfill, endl, str}
use libnitrokey.Misc.Stream.Laws.{str-bytes_injective}
use libnitrokey.Commands.Layout.{c_array, length-c_array, c_array-AreBytes, SlotConfig, config_byte}
use libnitrokey.Commands.Command.{Command, stick10, stick10_08}
use libnitrokey.Commands.Stick10.{Stick10}
use libnitrokey.Commands.Stick10_08.{Stick10_08}
use libnitrokey.Commands.Dissect.{
  hexdump_to_ss, print_to_ss_volatile, line, slot_config_lines, slot_token_id_line,
}
use libnitrokey.Commands.Dissect.Stick10.{
  items as stick10_items, dissect_first_authenticate, dissect_user_authenticate, dissect_authorize,
  dissect_user_authorize,
}
use libnitrokey.Commands.Dissect.Stick10_08.{
  items as stick10_08_items, dissect_erase_slot_08, dissect_send_otp_data,
  dissect_write_to_otp_slot, dissect_get_hotp_08, dissect_get_totp_08,
}
use libnitrokey.Commands.Dissect.Query.{dissect}

-- A command with a temporary password that its text shows, without the password: all that have one but
-- WriteGeneralConfig.
pub data Carrier : Type 0 where
  by_first_authenticate : (card_password : Bytes) → Carrier
  by_user_authenticate : (card_password : Bytes) → Carrier
  by_authorize : (crc_to_authorize : ℕ) → Carrier
  by_user_authorize : (crc_to_authorize : ℕ) → Carrier
  by_erase_slot : (slot_number : ℕ) → Carrier
  by_send_otp_data : (type : ℕ) → (id : ℕ) → (content : Bytes) → Carrier
  by_write_to_otp_slot :
      (slot_number : ℕ)
      → (slot_counter_or_interval : ℕ) → (config : SlotConfig) → (slot_token_id : Bytes) → Carrier
  by_get_hotp : (slot_number : ℕ) → Carrier
  by_get_totp :
      (slot_number : ℕ) → (challenge : ℕ) → (last_totp_time : ℕ) → (last_interval : ℕ) → Carrier

pub with_password : Carrier → Bytes → Command
with_password (by_first_authenticate card) t = stick10 (Stick10.first_authenticate card t)
with_password (by_user_authenticate card) t = stick10 (Stick10.user_authenticate card t)
with_password (by_authorize n) t = stick10 (Stick10.authorize n t)
with_password (by_user_authorize n) t = stick10 (Stick10.user_authorize n t)
with_password (by_erase_slot n) t = stick10_08 (Stick10_08.erase_slot_08 n t)
with_password (by_send_otp_data type id content) t =
    stick10_08 (Stick10_08.send_otp_data t type id content)
with_password (by_write_to_otp_slot n m c token) t =
    stick10_08 (Stick10_08.write_to_otp_slot t n m c token)
with_password (by_get_hotp n) t = stick10_08 (Stick10_08.get_hotp_08 n t)
with_password (by_get_totp n m k i) t = stick10_08 (Stick10_08.get_totp_08 n m k i t)

name_of_dump : String → List Item
name_of_dump name = text name ∷ text ":\n" ∷ []

-- What stands before and behind the dump of the password.
before : Carrier → List Item
before (by_first_authenticate card) =
    print_to_ss_volatile "card_password" card ++ name_of_dump "temporary_password"
before (by_user_authenticate card) =
    print_to_ss_volatile "card_password" card ++ name_of_dump "temporary_password"
before (by_authorize n) =
    text " crc_to_authorize:\t"
    ∷ hex
    ∷ setw 2
    ∷ setfill b'0'
    ∷ number n
    ∷ endl
    ∷ name_of_dump "temporary_password"
before (by_user_authorize n) =
    line " crc_to_authorize:\t" (number n) ++ name_of_dump "temporary_password"
before (by_erase_slot n) =
    line "slot_number:\t" (number n) ++ name_of_dump "temporary_admin_password"
before (by_send_otp_data _ _ _) = name_of_dump "temporary_admin_password"
before (by_write_to_otp_slot _ _ _ _) = name_of_dump "temporary_admin_password"
before (by_get_hotp _) = name_of_dump "temporary_user_password"
before (by_get_totp _ _ _ _) = name_of_dump "temporary_user_password"

behind : Carrier → List Item
behind (by_send_otp_data type id content) =
    line "type:\t" (char type)
    ++ (line "id:\t" (number id) ++ text " Volatile data not logged" ∷ endl ∷ [])
behind (by_write_to_otp_slot n m c token) =
    slot_config_lines (config_byte c)
    ++ (line "slot_number:\t" (number n)
        ++ (text "slot_counter_or_interval:\t["
            ∷ int m
            ∷ text "]\t"
            ∷ bytes (hexdump (le_bytes 8 m) false true true)
            ∷ (slot_token_id_line (c_array 13 token))))
behind (by_get_hotp n) = line "slot_number:\t" (number n)
behind (by_get_totp n m k i) =
    line "slot_number:\t" (number n)
    ++ (line "challenge:\t" (number m)
        ++ (line "last_totp_time:\t" (number k) ++ line "last_interval:\t" (number i)))
behind _ = []

abbrev dump : Bytes → Bytes
dump t = hexdump (c_array 25 t) false true true

dissect-dump :
    (x : Carrier) (t : Bytes)
    → dissect (with_password x t) ≡ str (before x ++ bytes (dump t) ∷ behind x)
unfolding with_password before behind name_of_dump dissect stick10_items stick10_08_items
    hexdump_to_ss print_to_ss_volatile line slot_config_lines dissect_first_authenticate
    dissect_user_authenticate dissect_authorize dissect_user_authorize dissect_erase_slot_08
    dissect_send_otp_data dissect_write_to_otp_slot dissect_get_hotp_08 dissect_get_totp_08
dissect-dump (by_first_authenticate card) t = refl
dissect-dump (by_user_authenticate card) t = refl
dissect-dump (by_authorize n) t = refl
dissect-dump (by_user_authorize n) t = refl
dissect-dump (by_erase_slot n) t = refl
dissect-dump (by_send_otp_data type id content) t = refl
dissect-dump (by_write_to_otp_slot n m c token) t = refl
dissect-dump (by_get_hotp n) t = refl
dissect-dump (by_get_totp n m k i) t = refl

-- Where two payloads that show a temporary password agree in everything else, they have one text only if
-- the passwords are the same in the 25 bytes of the payload: the text gives the password away.
pub dissect-with_password :
    (x : Carrier) (t u : Bytes)
    → dissect (with_password x t) ≡ dissect (with_password x u)
    → c_array 25 t ≡ c_array 25 u
dissect-with_password x t u e =
    let same : length (c_array 25 t) ≡ length (c_array 25 u) =
      length-c_array 25 t ∙ sym (length-c_array 25 u) in
    hexdump_injective (c_array 25 t) (c_array 25 u) false true true (c_array-AreBytes 25 t)
      (c_array-AreBytes 25 u) same
      (str-bytes_injective (before x) (behind x) (dump t) (dump u)
        (length-hexdump (c_array 25 t) (c_array 25 u) false true true same)
        (sym (dissect-dump x t) ∙ e ∙ dissect-dump x u))
