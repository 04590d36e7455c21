-- ===== src/Commands/Dissect.antt =====
-- The text of payloads: the macros of command.h, in a build without LOG_VOLATILE_DATA, and what the
-- `dissect` methods of the payloads share.
pub mod Stick10
pub mod Stick10_08
pub mod Stick20
pub mod Responses
pub mod Query
pub mod Whole
use Prim.Native.String.{String}
use libnitrokey.Prelude.{ℕ, true, false, List, [], ◌∷◌, ◌++◌, ◌/◌, ◌%◌, ◌+◌, ◌==◌, if◌then◌else◌}
use libnitrokey.Prelude.Bytes.{Bytes}
use libnitrokey.Misc.Hexdump.{hexdump}
use libnitrokey.Misc.Stream.{Item, text, bytes, number, hex, setw, setfill, endl}

-- `ss << label << value << std::endl`
unfoldable pub line : String → Item → List Item
line label value = text label ∷ value ∷ endl ∷ []

unfoldable pub print_to_ss : String → Item → List Item
print_to_ss name x = text " " ∷ text name ∷ text ":\t" ∷ x ∷ endl ∷ []

-- The value is not printed.
unfoldable pub print_to_ss_volatile : String → Bytes → List Item
print_to_ss_volatile name x = text " " ∷ text name ∷ text ":\t" ∷ text "***********" ∷ endl ∷ []

pub hexdump_to_ss : String → Bytes → List Item
hexdump_to_ss name x = text name ∷ text ":\n" ∷ bytes (hexdump x false true true) ∷ []

-- `static_cast<bool>`
unfoldable pub truth : ℕ → Item
truth n = number (if n == 0 then 0 else 1)

-- `EmptyPayload::dissect`
pub empty_payload : List Item
empty_payload = text "Empty Payload." ∷ []

-- `std::bitset<8>` of a byte, the highest bit first.
bit_char : ℕ → ℕ → ℕ
bit_char n power = b'0' + n / power % 2

pub bitset8 : ℕ → Bytes
bitset8 n =
    bit_char n 128
    ∷ bit_char n 64
    ∷ bit_char n 32
    ∷ bit_char n 16
    ∷ bit_char n 8
    ∷ bit_char n 4
    ∷ bit_char n 2
    ∷ bit_char n 1
    ∷ []

-- The union of `_slot_config` and its bits.
pub slot_config_lines : ℕ → List Item
slot_config_lines config =
    line "slot_config:\t" (bytes (bitset8 config))
    ++ line "\tuse_8_digits(0):\t" (number (config % 2))
    ++ line "\tuse_enter(1):\t" (number (config / 2 % 2))
    ++ line "\tuse_tokenID(2):\t" (number (config / 4 % 2))

token_bytes : Bytes → List Item
token_bytes [] = endl ∷ []
token_bytes (i ∷ rest) = hex ∷ setw 2 ∷ setfill b'0' ∷ number i ∷ text " " ∷ token_bytes rest

pub slot_token_id_line : Bytes → List Item
slot_token_id_line slot_token_id = text "slot_token_id:\t" ∷ token_bytes slot_token_id
