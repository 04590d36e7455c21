-- ===== src/Proto/Dissect/Checksum.antt =====
-- What the text of a packet tells of its payload.
use mathlib.Core.Path.{subst}
use libnitrokey.Prelude.{
  ℕ, zero, suc, ◌+◌, ◌-◌, ◌*◌, ◌/◌, ◌%◌, ◌^◌, ◌<◌, ◌≡◌, ◌≢◌, refl, ap, sym, ◌∙◌, true, false, List,
  [], ◌∷◌, ◌++◌, append_assoc, append_inj, length-append, length, replicate, ◌==◌, if◌then◌else◌,
  arith,
}
use libnitrokey.Prelude.Bytes.{
  Bytes, AreBytes, append-AreBytes, append-AreBytes_parts, replicate-AreBytes, zero_filled,
  length-zero_filled,
}
use libnitrokey.Misc.Crc.{stm_crc32}
use libnitrokey.Misc.Crc.Buffers.{stm_crc32_detects}
use libnitrokey.Misc.Hex.{hex_value}
use libnitrokey.Misc.Hex.Laws.{hex_char, hex_value-hex_char}
use libnitrokey.Misc.Hexdump.{hex_numeral}
use libnitrokey.Misc.Stream.{
  Item, text, bytes, number, hex, setw, setfill, endl, new_format, numeral, inserted, next_format,
  write, str,
}
use libnitrokey.Misc.Stream.Laws.{write-append}
use libnitrokey.Commands.Ids.{CommandId}
use libnitrokey.Commands.Names.{commandid_to_string}
use libnitrokey.Commands.Command.{Command, id_of, code_of, payload_of}
use libnitrokey.Commands.Fits.{payload_of-fits}
use libnitrokey.Commands.Typed.{payload_of-AreBytes}
use libnitrokey.Commands.Dissect.Query.{dissect}
use libnitrokey.Proto.Packet.{report_payload_size, get_crc}
use libnitrokey.Proto.Packet.Laws.{get_crc-stm_crc32}
use libnitrokey.Proto.Dissect.{query_items, dissect_query}
use native.Mathlib.Nat.{pow-suc}

-- The number that hex digits up to the end of a line stand for, after a number read so far.
unfoldable read_line : ℕ → Bytes → ℕ
read_line acc [] = acc
read_line acc (c ∷ cs) =
    let rest = read_line (acc * 16 + hex_value c) cs in if c == 10 then acc else rest

read_line-hex_char :
    (acc n : ℕ) (rest : Bytes)
    → n < 16
    → read_line acc (hex_char n ∷ rest) ≡ read_line (acc * 16 + n) rest
unfolding read_line
read_line-hex_char acc n rest h =
    let value = hex_value-hex_char n h in
    let printed : (hex_char n == 10) ≡ false = unfold hex_char in ground arith in
    rw (printed, value)

read_line-hex_numeral :
    (limit n : ℕ) (rest : Bytes)
    → n < 16 ^ limit
    → read_line 0 (hex_numeral limit n ++ rest) ≡ read_line n rest
unfolding hex_numeral
read_line-hex_numeral zero n rest h = ap (λ m. read_line m rest) (omega arith)
read_line-hex_numeral (suc limit) n rest h =
    let above = hex_numeral limit (n / 16) in
    let last = hex_char (n % 16) in
    let long : read_line 0 ((above ++ last ∷ []) ++ rest) ≡ read_line n rest =
      ap (read_line 0) (append_assoc above (last ∷ []) rest)
      ∙ read_line-hex_numeral limit (n / 16) (last ∷ rest) (omega (arith, pow-suc 16 limit))
      ∙ read_line-hex_char (n / 16) (n % 16) rest (omega arith)
      ∙ ap (λ m. read_line m rest) (omega arith) in
    ground (arith, long, read_line-hex_char 0 n rest)

read_line-zeroes :
    (k : ℕ) (rest : Bytes) → read_line 0 (replicate k b'0' ++ rest) ≡ read_line 0 rest
unfolding hex_char
read_line-zeroes zero rest = refl
read_line-zeroes (suc k) rest =
    read_line-hex_char 0 0 (replicate k b'0' ++ rest) (omega arith) ∙ read_line-zeroes k rest

-- The items behind the checksum.
abbrev below : Command → List Item
below c = endl ∷ text "Payload:" ∷ endl ∷ bytes (dissect c) ∷ []

abbrev above_crc : CommandId → List Item
above_crc id =
    text "Contents:"
    ∷ endl
    ∷ text "Command ID:\t"
    ∷ text (commandid_to_string id)
    ∷ endl
    ∷ text "CRC:\t"
    ∷ hex
    ∷ setw 2
    ∷ setfill b'0'
    ∷ []

abbrev crc_of : Command → ℕ
crc_of c = get_crc (code_of c) (payload_of c)

abbrev behind : Command → Bytes
behind c = write (number (crc_of c) ∷ below c) (record { is_hex = true; width = 2; fill = b'0' })

dissect_query-parts :
    (c : Command) → dissect_query c ≡ write (above_crc (id_of c)) new_format ++ behind c
unfolding dissect_query query_items str next_format
dissect_query-parts c = write-append (above_crc (id_of c)) (number (crc_of c) ∷ below c) new_format

read_line-padded :
    (k n : ℕ) (rest : Bytes)
    → n < 2 ^ 32
    → read_line 0 ((replicate k b'0' ++ hex_numeral 16 n) ++ 10 ∷ rest) ≡ n
unfolding read_line
read_line-padded k n rest h =
    ap (read_line 0) (append_assoc (replicate k b'0') (hex_numeral 16 n) (10 ∷ rest))
    ∙ read_line-zeroes k (hex_numeral 16 n ++ 10 ∷ rest)
    ∙ read_line-hex_numeral 16 n (10 ∷ rest) (omega arith)

-- The checksum is read back from its line.
read_line-behind : (c : Command) → crc_of c < 2 ^ 32 → read_line 0 (behind c) ≡ crc_of c
unfolding write inserted numeral
read_line-behind c h = read_line-padded (2 - length (hex_numeral 16 (crc_of c))) (crc_of c) _ h

-- Packets of one command with the same text have the same checksum.
dissect_query-crc :
    (c d : Command)
    → id_of c ≡ id_of d
    → crc_of c < 2 ^ 32
    → crc_of d < 2 ^ 32
    → dissect_query c ≡ dissect_query d
    → crc_of c ≡ crc_of d
dissect_query-crc c d same hc hd e =
    let head : CommandId → Bytes = λ id. write (above_crc id) new_format in
    let parts =
      append_inj (head (id_of c)) (head (id_of d)) (ap (λ id. length (head id)) same)
        (sym (dissect_query-parts c) ∙ e ∙ dissect_query-parts d) in
    sym (read_line-behind c hc) ∙ ap (read_line 0) (parts.1) ∙ read_line-behind d hd

-- The bytes of the packet of a command that its checksum covers.
abbrev pub query_bytes : Command → Bytes
query_bytes c = code_of c ∷ zero_filled report_payload_size (payload_of c)

crc_of_lem :
    (c : Command)
    → (crc_of c ≡ stm_crc32 (query_bytes c) 60) × (stm_crc32 (query_bytes c) 60 < 2 ^ 32)
crc_of_lem c =
    let fits = payload_of-fits c in
    get_crc-stm_crc32 (code_of c) (payload_of c) fits.1 fits.0 (payload_of-AreBytes c)

query_bytes-AreBytes : (c : Command) → AreBytes (query_bytes c)
query_bytes-AreBytes c = (
  (payload_of-fits c).0,
  append-AreBytes (payload_of c) _ (payload_of-AreBytes c) (replicate-AreBytes _ 0 (omega arith)),
)

-- The parts of what the checksum covers are bytes.
parts-AreBytes :
    (c : Command) (before v after : Bytes)
    → query_bytes c ≡ before ++ (v ++ after)
    → AreBytes before × AreBytes v × AreBytes after
parts-AreBytes c before v after e =
    let outer =
      append-AreBytes_parts before (v ++ after) (subst AreBytes e (query_bytes-AreBytes c)) in
    let inner = append-AreBytes_parts v after (outer.1) in (outer.0, inner.0, inner.1)

-- A group of what the checksum covers begins within its sixty bytes.
group_inside :
    (c : Command) (before v after : Bytes) (k : ℕ)
    → query_bytes c ≡ before ++ (v ++ after)
    → length before ≡ 4 * k
    → length v ≡ 4
    → 4 * k < 60
group_inside c before v after k e hk hv =
    let size : length (query_bytes c) ≡ length (before ++ (v ++ after)) = ap length e in
    omega (
      arith,
      size,
      length-zero_filled report_payload_size (payload_of c) (payload_of-fits c).1,
      length-append {0} before (v ++ after),
      length-append {0} v after,
    )

-- Where the packets of two commands with one identifier differ only within one aligned group of four of
-- the bytes that the checksum covers, their texts differ, also where what differs is masked.
pub dissect_query-detects :
    (c d : Command) (k : ℕ) (before v w after : Bytes)
    → id_of c ≡ id_of d
    → query_bytes c ≡ before ++ (v ++ after)
    → query_bytes d ≡ before ++ (w ++ after)
    → length before ≡ 4 * k
    → length v ≡ 4
    → length w ≡ 4
    → v ≢ w
    → dissect_query c ≢ dissect_query d
dissect_query-detects c d k before v w after same ec ed hk hv hw ne e =
    let (pb, pv, pa) = parts-AreBytes c before v after ec in
    let (qb, pw, qa) = parts-AreBytes d before w after ed in
    let crc_c = crc_of_lem c in
    let crc_d = crc_of_lem d in
    stm_crc32_detects 60 k before v w after hk (group_inside c before v after k ec hk hv) hv hw pb
      pv pw pa ne
      (ap (λ bs. stm_crc32 bs 60) (sym ec)
        ∙ sym (crc_c.0)
        ∙ dissect_query-crc c d same (omega (arith, crc_c)) (omega (arith, crc_d)) e
        ∙ crc_d.0
        ∙ ap (λ bs. stm_crc32 bs 60) ed)
