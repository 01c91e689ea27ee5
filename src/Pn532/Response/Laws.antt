-- ===== src/Pn532/Response/Laws.antt =====
-- What `parse_response_frame` accepts, refuses, and cannot handle.
use nfc_cpp.Base.{ℕ, ◌+◌, ◌%◌, ◌≤◌, ◌<◌, ◌≡◌, ◌≢◌, refl, sym, ap, ◌∙◌, arith, inl, inr}
use nfc_cpp.Base.{List, [], ◌∷◌, ◌++◌, length, All, some, append_assoc, length-append}
use nfc_cpp.Base.{ok, err, ◌==◌, Bool-cases, ◌&&◌}
use nfc_cpp.Pn532.{tfi_device_to_host}
use nfc_cpp.Pn532.Checksum.{sum-append, IsPacket, byte_sum-sum, sum}
use nfc_cpp.Pn532.Response.{parse_response_frame, parse_packet, find_start, frame_check_failed}
use nfc_cpp.Pn532.Response.Packet.{tail, parse_packet-append, checked, parse_packet-checked}

-- Noise before a frame: bytes that cannot be the end of a start code.
abbrev pub IsQuiet : List ℕ → Type 0
IsQuiet = All (λ (b : ℕ). b ≢ 0xFF)

find_start-quiet :
    (pre rest : List ℕ) (k i : ℕ)
    → IsQuiet pre
    → i ≡ k + length pre
    → find_start (pre ++ 0x00 ∷ 0x00 ∷ 0xFF ∷ rest) k ≡ some i
unfolding find_start
find_start-quiet [] rest k i h e = ground arith
find_start-quiet (a ∷ []) rest k i (p, h) e = ground arith
find_start-quiet (a ∷ b ∷ []) rest k i (p, (q, h)) e = ground arith
find_start-quiet (a ∷ b ∷ c ∷ pre) rest k i (p, h) e =
    ground (arith, find_start-quiet (b ∷ c ∷ pre) rest (k + 1) i h)

pub find_start-some :
    (frame : List ℕ) (k i : ℕ)
    → find_start frame k ≡ some i
    → (pre rest : List ℕ) × (frame ≡ pre ++ 0x00 ∷ 0x00 ∷ 0xFF ∷ rest) × (i ≡ k + length pre)
unfolding find_start
find_start-some [] k i h = cc
find_start-some (a ∷ []) k i h = cc
find_start-some (a ∷ b ∷ []) k i h = cc
find_start-some (a ∷ b ∷ c ∷ frame) k i h =
    elim (Bool-cases ((a == 0x00) && ((b == 0x00) && (c == 0xFF)))) [
      | inl t ↦ ([], frame, ground arith, ground arith)
      | inr f ↦
          let (pre, rest, e, n) = find_start-some (b ∷ c ∷ frame) (k + 1) i (rw f at h) in
          (a ∷ pre, rest, ap (◌∷◌ a) e, omega arith)
    ]

-- The start code is found behind a quiet prefix, and the packet is read from there.
pub parse-at :
    (pre rest : List ℕ) (sent : ℕ)
    → find_start (pre ++ 0x00 ∷ 0x00 ∷ 0xFF ∷ rest) 0 ≡ some (length pre)
    → parse_response_frame (pre ++ 0x00 ∷ 0x00 ∷ 0xFF ∷ rest) sent ≡ parse_packet rest 0 sent
unfolding parse_response_frame
parse-at pre rest sent h =
    rw (h, parse_response_frame)
      (ap (λ (n : ℕ). parse_packet (pre ++ 0x00 ∷ 0x00 ∷ 0xFF ∷ rest) n sent) at_end
        ∙ ap (λ (l : List ℕ). parse_packet l (length before) sent) regroup
        ∙ parse_packet-append before rest sent)
  where
    before : List ℕ
    before = pre ++ 0x00 ∷ 0x00 ∷ 0xFF ∷ []

    at_end : length pre + 3 ≡ length before
    at_end = omega (arith, length-append pre (0x00 ∷ 0x00 ∷ 0xFF ∷ []))

    regroup : pre ++ 0x00 ∷ 0x00 ∷ 0xFF ∷ rest ≡ before ++ rest
    regroup = sym (append_assoc pre (0x00 ∷ 0x00 ∷ 0xFF ∷ []) rest)

pub parse-quiet :
    (pre rest : List ℕ) (sent : ℕ)
    → IsQuiet pre
    → parse_response_frame (pre ++ 0x00 ∷ 0x00 ∷ 0xFF ∷ rest) sent ≡ parse_packet rest 0 sent
parse-quiet pre rest sent h =
    parse-at pre rest sent (find_start-quiet pre _ 0 (length pre) h (omega arith))

checked-IsPacket :
    (len lcs tfi code dcs : ℕ) (payload : List ℕ) (sent : ℕ)
    → (len + lcs) % 256 ≡ 0
    → tfi ≡ 0xD5
    → code ≡ (sent + 1) % 256
    → (tfi + (code + sum payload) + dcs) % 256 ≡ 0
    → dcs < 256
    → checked len lcs tfi code payload dcs sent
      ≡ ok (record { command_code = code; payload = payload })
unfolding checked
checked-IsPacket len lcs tfi code dcs payload sent a b c d e =
    ground (arith, byte_sum-sum 0 (tfi ∷ code ∷ payload))

module _ (pre rest payload : List ℕ) (sent len lcs dcs : ℕ) (quiet : IsQuiet pre) where
  abbrev framed : List ℕ
  framed =
      pre
      ++ (0x00 ∷ 0x00 ∷ 0xFF ∷ len ∷ lcs ∷ 0xD5 ∷ ((sent + 1) % 256) ∷ (payload ++ (dcs ∷ []))
          ++ rest)

  parse-framed :
      len ≡ length payload + 2
      → len ≤ 254
      → parse_response_frame framed sent ≡ checked len lcs 0xD5 ((sent + 1) % 256) payload dcs sent
  parse-framed e h =
      ap
        (λ (l : List ℕ).
          parse_response_frame
            (pre ++ 0x00 ∷ 0x00 ∷ 0xFF ∷ len ∷ lcs ∷ 0xD5 ∷ ((sent + 1) % 256) ∷ l) sent)
        (append_assoc payload (dcs ∷ []) rest)
      ∙ parse-quiet pre (tail len lcs 0xD5 ((sent + 1) % 256) dcs payload rest) sent quiet
      ∙ parse_packet-checked len lcs 0xD5 ((sent + 1) % 256) dcs payload rest sent e h

-- parseResponseFrame accepts every packet from the chip that answers the sent command, behind a
-- prefix without 0xFF and before any further bytes, and returns its payload unchanged.
pub parse_response_frame-IsPacket :
    (pre packet rest payload : List ℕ) (sent : ℕ)
    → IsQuiet pre
    → IsPacket tfi_device_to_host ((sent + 1) % 256) payload packet
    → parse_response_frame (pre ++ (packet ++ rest)) sent
      ≡ ok (record { command_code = (sent + 1) % 256; payload = payload })
parse_response_frame-IsPacket pre packet rest payload sent h p =
    ap (λ (l : List ℕ). parse_response_frame (pre ++ (l ++ rest)) sent) p.bytes
    ∙ parse-framed pre rest payload sent p.len p.lcs p.dcs h p.counts p.bounded
    ∙ checked-IsPacket p.len p.lcs 0xD5 ((sent + 1) % 256) p.dcs payload sent p.length_zero refl
        refl p.data_zero p.dcs_byte

checked_corrupt :
    (len lcs code dcs b b' : ℕ) (front back : List ℕ)
    → b < 256
    → b' < 256
    → b ≢ b'
    → (sent : ℕ) → (len + lcs) % 256 ≡ 0
    → code ≡ (sent + 1) % 256
    → (0xD5 + (code + sum (front ++ (b ∷ back))) + dcs) % 256 ≡ 0
    → checked len lcs 0xD5 code (front ++ (b' ∷ back)) dcs sent ≡ err frame_check_failed
unfolding checked
checked_corrupt len lcs code dcs b b' front back h h' ne sent a c d = ground (
  arith,
  byte_sum-sum 0 (0xD5 ∷ code ∷ (front ++ (b' ∷ back))),
  sum-append front (b ∷ back),
  sum-append front (b' ∷ back),
)

-- A packet from the chip that answers the sent command, behind a prefix without 0xFF, in which one
-- payload byte was changed to another byte is refused as a failed frame check.
pub parse_response_frame_corrupt :
    (pre rest front back : List ℕ) (b b' sent : ℕ) (packet : List ℕ)
    → IsQuiet pre
    → b < 256
    → b' < 256
    → b ≢ b'
    → (p : IsPacket tfi_device_to_host ((sent + 1) % 256) (front ++ (b ∷ back)) packet)
    → parse_response_frame
        (pre
          ++ (0x00
                ∷ 0x00
                ∷ 0xFF
                ∷ p.len
                ∷ p.lcs
                ∷ 0xD5
                ∷ ((sent + 1) % 256)
                ∷ ((front ++ (b' ∷ back)) ++ (p.dcs ∷ []))
              ++ rest))
        sent
      ≡ err frame_check_failed
parse_response_frame_corrupt pre rest front back b b' sent packet h hb hb' ne p =
    parse-framed pre rest (front ++ (b' ∷ back)) sent p.len p.lcs p.dcs h
      (omega (arith, p.counts, length-append front (b ∷ back), length-append front (b' ∷ back)))
      p.bounded
    ∙ checked_corrupt p.len p.lcs ((sent + 1) % 256) p.dcs b b' front back hb hb' ne sent
        p.length_zero refl p.data_zero
