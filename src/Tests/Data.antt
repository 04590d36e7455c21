-- ===== src/Tests/Data.antt =====
-- Checksums, packets, fields and commands.
use libnitrokey.Prelude.{
  inr, ℕ, ◌≡◌, ◌≢◌, refl, ◌<◌, true, false, some, [], ◌∷◌, ◌++◌, length, replicate, take, drop,
  arith,
}
use libnitrokey.Prelude.Bytes.{Bytes, AreBytes, le_bytes, replicate-AreBytes}
use libnitrokey.Exceptions.{ok}
use libnitrokey.Misc.Crc.{stm_crc32, crc_words, words, crc_word, crc_rounds, crc_step}
use libnitrokey.Misc.Hex.Laws.{
  hex_char, to_hex, hex_string_to_byte-to_hex, hex_string_to_byte_sound, AreHex,
}
use libnitrokey.Misc.Hexdump.{
  hexdump, lines, line, ascii, is_graph, cells, cell, header, hex_numeral,
}
use libnitrokey.Misc.Fields.{strcpy_t, strndup, strcpy_t_lem}
use libnitrokey.Misc.Decimal.{filled_otp_code, filled_otp_code_lem, otp_width, read_decimal}
use libnitrokey.Proto.Packet.{outgoing_packet, is_crc_correct, byte_at, hid_report_size}
use libnitrokey.Proto.Packet.Laws.{corruption_detected, checked_packet}
use libnitrokey.Commands.Stick10.{Stick10}
use libnitrokey.Commands.Command.{stick10, code_of, payload_of}
use libnitrokey.Proto.Queries.{outgoing_packet-command}

-- The checksum unit of the STM32 on a word of zeroes.
stm_crc32_zero : stm_crc32 (0 ∷ 0 ∷ 0 ∷ 0 ∷ []) 4 ≡ 0xC704DD7B
unfolding stm_crc32 crc_words words crc_word crc_rounds crc_step
stm_crc32_zero = refl

different : {a b : ℕ} {xs ys : Bytes} → a ≢ b → (a ∷ xs) ≢ (b ∷ ys)
different h e = ground arith

-- The text of two bytes with the offset, padding to sixteen columns, and what is printable.
hexdump_all :
    hexdump (b'A' ∷ 0xAB ∷ []) true true true
    ≡ header 0 ++ cells 16 true (b'A' ∷ 0xAB ∷ []) ++ (b' ' ∷ b' ' ∷ b'A' ∷ b'.' ∷ 10 ∷ [])
unfolding hexdump lines line ascii is_graph cells cell hex_char header hex_numeral
hexdump_all = refl

header_wide : header 0x123A0 ≡ b'1' ∷ b'2' ∷ b'3' ∷ b'a' ∷ b'0' ∷ 9 ∷ []
unfolding header hex_numeral hex_char
header_wide = refl

header_narrow : header 16 ≡ b'0' ∷ b'0' ∷ b'1' ∷ b'0' ∷ 9 ∷ []
unfolding header hex_numeral hex_char
header_narrow = refl

abbrev text : Bytes
text = to_hex (0xAB ∷ 7 ∷ [])

text-AreBytes : AreBytes (0xAB ∷ 7 ∷ [])
text-AreBytes = (ground arith)

hex_string_to_byte_sound_example :
    (length text < 257) × (length text ≡ 4) × AreHex text × AreBytes (0xAB ∷ 7 ∷ [])
hex_string_to_byte_sound_example =
    hex_string_to_byte_sound text
      (hex_string_to_byte-to_hex (0xAB ∷ 7 ∷ []) text-AreBytes (omega arith))

-- A PIN of three letters in a field of four bytes, in front of other bytes.
strcpy_t_lem_example :
    (stored : Bytes) × (strcpy_t 4 [] (some (b'P' ∷ b'I' ∷ b'N' ∷ [])) ≡ ok stored)
    × (length stored ≡ 4)
    × (strndup 10 (stored ++ (7 ∷ 8 ∷ [])) ≡ b'P' ∷ b'I' ∷ b'N' ∷ [])
strcpy_t_lem_example =
    (strcpy_t_lem 4 10 [] (b'P' ∷ b'I' ∷ b'N' ∷ []) (7 ∷ 8 ∷ []) (omega arith) (ground arith)
        (omega arith) (inr (omega arith))).0
      (omega arith)

-- The code 42 in six digits: "000042".
filled_otp_code_lem_example :
    (length (filled_otp_code 42 false) ≡ otp_width false)
    × (read_decimal 0 (filled_otp_code 42 false) ≡ 42)
filled_otp_code_lem_example = filled_otp_code_lem 42 false (omega arith)

-- `SetTime` with two bytes of payload.
abbrev zeroes : Bytes
zeroes = replicate 56 0

abbrev checksum : Bytes
checksum = le_bytes 4 (stm_crc32 ((4 ∷ 1 ∷ 200 ∷ 0 ∷ []) ++ zeroes) 60)

corruption_detected_example :
    is_crc_correct (0 ∷ (([] ++ ((5 ∷ 1 ∷ 200 ∷ 0 ∷ []) ++ zeroes)) ++ checksum)) ≡ false
corruption_detected_example =
    let zero_bytes = replicate-AreBytes 56 0 (omega arith) in
    corruption_detected 0 0 [] (4 ∷ 1 ∷ 200 ∷ 0 ∷ []) (5 ∷ 1 ∷ 200 ∷ 0 ∷ []) zeroes checksum refl
      refl refl refl tt (ground arith) (ground arith) zero_bytes (different (omega arith))
      (checked_packet ((4 ∷ 1 ∷ 200 ∷ 0 ∷ []) ++ zeroes) refl
        (omega arith, (omega arith, (omega arith, (omega arith, zero_bytes)))))

outgoing_packet-command_example :
    let c = stick10 (Stick10.set_time 1 1000) in
    let packet = outgoing_packet (code_of c) (payload_of c) in
    (length packet ≡ hid_report_size)
    × AreBytes packet
    × (byte_at 0 packet ≡ 0)
    × (byte_at 1 packet ≡ code_of c)
    × (take (length (payload_of c)) (drop 2 packet) ≡ payload_of c)
    × (is_crc_correct packet ≡ true)
outgoing_packet-command_example = outgoing_packet-command (stick10 (Stick10.set_time 1 1000))
