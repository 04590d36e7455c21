-- ===== src/Proto/Packet/Laws.antt =====
-- The packet that is sent, and what its checksum detects.
use libnitrokey.Prelude.{
  ℕ, ◌+◌, ◌*◌, ◌^◌, ◌≤◌, ◌<◌, ◌≡◌, ◌≢◌, refl, ap, ◌∙◌, true, false, [], ◌∷◌, ◌++◌, arith, length,
  length-append, ==_iff, ◌==◌, ◌-◌, replicate, append_assoc, take, drop, sym, take-append_exact,
  drop-append_exact,
}
use libnitrokey.Prelude.Bytes.{
  Bytes, AreBytes, le_bytes, le_value, length-le_bytes, le_value-le_bytes, le_bytes-AreBytes,
  zero_filled, length-zero_filled, append-AreBytes, replicate-AreBytes,
}
use libnitrokey.Misc.Crc.{stm_crc32}
use libnitrokey.Misc.Crc.Buffers.{stm_crc32-lt, stm_crc32-append, stm_crc32_detects}
use libnitrokey.Proto.Packet.{
  hid_report_size, report_payload_size, calculate_crc, crc_field, is_crc_correct, outgoing_packet,
  byte_at, get_crc,
}

-- A packet as the sixty checked bytes between the leading byte and the checksum.
module _ (z : ℕ) (checked tail : Bytes) (sixty : length checked ≡ 60) where
  crc_field_parts : crc_field (z ∷ (checked ++ tail)) ≡ le_value tail
  crc_field_parts = ap le_value (drop-append_exact 60 checked tail sixty)

  calculate_crc_parts : calculate_crc (z ∷ (checked ++ tail)) ≡ stm_crc32 checked 60
  unfolding calculate_crc
  calculate_crc_parts = stm_crc32-append 15 checked tail sixty

  calculate_crc_body : calculate_crc (z ∷ checked) ≡ stm_crc32 checked 60
  unfolding calculate_crc
  calculate_crc_body = refl

module _ (c : ℕ) (payload : Bytes) (fits : length payload ≤ report_payload_size) where
  abbrev checked_bytes : Bytes
  checked_bytes = c ∷ zero_filled report_payload_size payload

  checked_sixty : length checked_bytes ≡ 60
  checked_sixty = omega (arith, length-zero_filled report_payload_size payload fits)

  outgoing_packet_parts :
      outgoing_packet c payload ≡ 0 ∷ (checked_bytes ++ le_bytes 4 (stm_crc32 checked_bytes 60))
  unfolding outgoing_packet
  outgoing_packet_parts = rw (calculate_crc_body 0 checked_bytes [] checked_sixty)

  length_parts : (n : ℕ) → length (0 ∷ (checked_bytes ++ le_bytes 4 n)) ≡ hid_report_size
  length_parts n =
      omega
        (arith, length-append {0} checked_bytes (le_bytes 4 n), checked_sixty, length-le_bytes 4 n)

  payload_parts :
      (tail : Bytes) → take (length payload) (drop 2 (0 ∷ (checked_bytes ++ tail))) ≡ payload
  payload_parts tail = rw append_assoc (
      take-append_exact (length payload) payload
        (replicate (report_payload_size - length payload) 0 ++ tail) refl)

checked-AreBytes :
    (c : ℕ) (payload : Bytes) (fits : length payload ≤ report_payload_size)
    → c < 256
    → AreBytes payload
    → AreBytes (checked_bytes c payload fits)
checked-AreBytes c payload fits hc hp =
    (hc, append-AreBytes payload _ hp (replicate-AreBytes _ 0 (omega arith)))

pub checked_packet :
    (checked : Bytes)
    → length checked ≡ 60
    → AreBytes checked
    → is_crc_correct (0 ∷ (checked ++ le_bytes 4 (stm_crc32 checked 60))) ≡ true
unfolding is_crc_correct
checked_packet checked sixty bytes = (==_iff _ _).1 (
    crc_field_parts 0 checked (le_bytes 4 (stm_crc32 checked 60)) sixty
    ∙ le_value-le_bytes 4 (stm_crc32 checked 60) (stm_crc32-lt checked 60 bytes)
    ∙ sym (calculate_crc_parts 0 checked (le_bytes 4 (stm_crc32 checked 60)) sixty))

-- For a command byte and a payload of at most 59 bytes, the packet is a whole HID report of 65
-- bytes: its first byte is zero, its second the command, the payload stands unchanged behind them,
-- and `isCRCcorrect` accepts its checksum.
pub outgoing_packet_lem :
    (c : ℕ) (payload : Bytes)
    → length payload ≤ report_payload_size
    → c < 256
    → AreBytes payload
    → (length (outgoing_packet c payload) ≡ hid_report_size)
      × (byte_at 0 (outgoing_packet c payload) ≡ 0)
      × (byte_at 1 (outgoing_packet c payload) ≡ c)
      × (take (length payload) (drop 2 (outgoing_packet c payload)) ≡ payload)
      × (is_crc_correct (outgoing_packet c payload) ≡ true)
outgoing_packet_lem c payload fits hc hp =
    let checked = checked_bytes c payload fits in
    let bytes = checked-AreBytes c payload fits hc hp in
    rw (outgoing_packet_parts c payload fits) (
      length_parts c payload fits (stm_crc32 checked 60),
      refl,
      refl,
      payload_parts c payload fits (le_bytes 4 (stm_crc32 checked 60)),
      checked_packet checked (checked_sixty c payload fits) bytes,
    )

pub outgoing_packet-AreBytes :
    (c : ℕ) (payload : Bytes)
    → length payload ≤ report_payload_size
    → c < 256
    → AreBytes payload
    → AreBytes (outgoing_packet c payload)
outgoing_packet-AreBytes c payload fits hc hp =
    let checked = checked_bytes c payload fits in
    rw (outgoing_packet_parts c payload fits) (
      omega arith,
      append-AreBytes checked (le_bytes 4 (stm_crc32 checked 60))
          (checked-AreBytes c payload fits hc hp) (le_bytes-AreBytes 4 (stm_crc32 checked 60)),
    )

-- The checksum of the packet of a command and its payload is that of its sixty bytes, a 32-bit word.
pub get_crc-stm_crc32 :
    (c : ℕ) (payload : Bytes)
    → length payload ≤ report_payload_size
    → c < 256
    → AreBytes payload
    → (get_crc c payload ≡ stm_crc32 (c ∷ zero_filled report_payload_size payload) 60)
      × (stm_crc32 (c ∷ zero_filled report_payload_size payload) 60 < 2 ^ 32)
unfolding get_crc
get_crc-stm_crc32 c payload fits hc hp =
    let checked = checked_bytes c payload fits in
    let small = stm_crc32-lt checked 60 (checked-AreBytes c payload fits hc hp) in
    (
      ap crc_field (outgoing_packet_parts c payload fits)
          ∙ crc_field_parts 0 checked (le_bytes 4 (stm_crc32 checked 60))
              (checked_sixty c payload fits)
          ∙ le_value-le_bytes 4 (stm_crc32 checked 60) small,
      small,
    )

sixty_of :
    (before u after : Bytes)
    → length u ≡ 4
    → length before + 4 + length after ≡ 60
    → length (before ++ (u ++ after)) ≡ 60
sixty_of before u after hu h =
    omega (arith, length-append {0} before (u ++ after), length-append {0} u after)

not_equal : {a b : ℕ} → a ≢ b → (a == b) ≡ false
not_equal h = ground arith

-- Of two packets of 65 bytes that differ only in one aligned group of four bytes between the leading
-- byte and the checksum, `isCRCcorrect` accepts at most one.
pub corruption_detected :
    (z k : ℕ) (before v w after crc : Bytes)
    → length before ≡ 4 * k
    → length v ≡ 4
    → length w ≡ 4
    → length before + 4 + length after ≡ 60
    → AreBytes before
    → AreBytes v
    → AreBytes w
    → AreBytes after
    → v ≢ w
    → is_crc_correct (z ∷ ((before ++ (v ++ after)) ++ crc)) ≡ true
    → is_crc_correct (z ∷ ((before ++ (w ++ after)) ++ crc)) ≡ false
unfolding is_crc_correct
corruption_detected z k before v w after crc hk hv hw sixty pb pv pw pa ne accepted =
    let size = λ (u : Bytes) (hu : length u ≡ 4). sixty_of before u after hu sixty in
    let first = (==_iff _ _).0 accepted in
    not_equal (λ second.
      stm_crc32_detects 60 k before v w after hk (omega arith) hv hw pb pv pw pa ne (
        sym (calculate_crc_parts z (before ++ (v ++ after)) crc (size v hv))
        ∙ sym first
        ∙ crc_field_parts z (before ++ (v ++ after)) crc (size v hv)
        ∙ sym (crc_field_parts z (before ++ (w ++ after)) crc (size w hw))
        ∙ second
        ∙ calculate_crc_parts z (before ++ (w ++ after)) crc (size w hw)))
