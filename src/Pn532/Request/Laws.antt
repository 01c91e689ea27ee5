-- ===== src/Pn532/Request/Laws.antt =====
-- The frame that `build` returns, and the sizes at which it returns none.
use nfc_cpp.Base.{ℕ, ◌+◌, ◌%◌, ◌≤◌, ◌≡◌, refl, arith, List, [], ◌∷◌, ◌++◌, length, leb}
use nfc_cpp.Base.{
  ◌==◌, ==→eq, Bool-cases, inl, inr, true, false, if◌then◌else◌, from_pn532, length-append,
  append_assoc,
}
use nfc_cpp.Base.{ok, err, fault}
use nfc_cpp.Base.Codes.Pn532Error
use nfc_cpp.Pn532.{CommandRequest, tfi_host_to_device}
use nfc_cpp.Pn532.Checksum.{calculate_checksum, calculate_length_checksum, IsPacket}
use nfc_cpp.Pn532.Checksum.{calculate_checksum-sum}
use nfc_cpp.Pn532.Request.{build}

module _ (r : CommandRequest) where
  abbrev packet : List ℕ
  packet =
      0x00
      ∷ 0x00
      ∷ 0xFF
      ∷ (length r.payload + 2)
      ∷ calculate_length_checksum (length r.payload + 2)
      ∷ 0xD4
      ∷ r.command_code
      ∷ (r.payload ++ (calculate_checksum (0xD4 ∷ r.command_code ∷ r.payload) ∷ []))

  packet-IsPacket : length r.payload ≤ 252 → IsPacket 0xD4 r.command_code r.payload packet
  packet-IsPacket h = record {
    len = length r.payload + 2;
    lcs = calculate_length_checksum (length r.payload + 2);
    dcs = calculate_checksum (0xD4 ∷ r.command_code ∷ r.payload);
    bytes = refl;
    counts = refl;
    bounded = omega arith;
    length_zero = unfold calculate_length_checksum in omega arith;
    data_zero = omega (arith, calculate_checksum-sum (0xD4 ∷ r.command_code ∷ r.payload));
    lcs_byte = unfold calculate_length_checksum in omega arith;
    dcs_byte = omega (arith, calculate_checksum-sum (0xD4 ∷ r.command_code ∷ r.payload));
  }

  frame_length : length r.payload ≤ 252 → (2 + length r.payload) % 256 ≡ length r.payload + 2
  frame_length h = omega arith

  build-packet : length r.payload ≤ 252 → build r ≡ ok (packet ++ 0x00 ∷ [])
  unfolding build
  build-packet h = ground (
    arith,
    frame_length,
    length-append r.payload (calculate_checksum (0xD4 ∷ r.command_code ∷ r.payload) ∷ []),
    append_assoc r.payload (calculate_checksum (0xD4 ∷ r.command_code ∷ r.payload) ∷ [])
        (0x00 ∷ []),
  )

  length-packet : length (packet ++ 0x00 ∷ []) ≡ length r.payload + 9
  length-packet = omega (
    arith,
    length-append packet (0x00 ∷ []),
    length-append r.payload (calculate_checksum (0xD4 ∷ r.command_code ∷ r.payload) ∷ []),
  )

-- A request of at most 252 payload bytes is framed as a packet from the host with its code and
-- payload, followed by the postamble, nine bytes longer than the payload.
pub build-IsPacket :
    (r : CommandRequest)
    → length r.payload ≤ 252
    → (frame : List ℕ) × (build r ≡ ok (frame ++ 0x00 ∷ []))
      × IsPacket tfi_host_to_device r.command_code r.payload frame
      × (length (frame ++ 0x00 ∷ []) ≡ length r.payload + 9)
build-IsPacket r h = (packet r, build-packet r h, packet-IsPacket r h, length-packet r)

-- At 253 payload bytes build refuses the request; from 254 to 300 the length has wrapped, the size
-- test passes and a vector overflows.
pub build_oversize :
    (r : CommandRequest)
    → 253 ≤ length r.payload
    → length r.payload ≤ 300
    → build r
      ≡ (if length r.payload == 253 then err (from_pn532 Pn532Error.invalid_parameter) else fault)
unfolding build
build_oversize r lo hi = elim (Bool-cases (length r.payload == 253)) [
  | inl e ↦ rw (==→eq _ _ e) refl
  | inr e ↦ rw (e, wraps) (ground arith)
]
  where
    wraps :
        leb ((2 + length r.payload) % 256) 254 ≡ (if length r.payload == 253 then false else true)
    wraps = ground arith
