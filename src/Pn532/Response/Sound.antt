-- ===== src/Pn532/Response/Sound.antt =====
-- Every frame that `parse_response_frame` accepts holds a packet, and the one kind of frame that
-- it cannot handle.
use nfc_cpp.Base.{ℕ, ◌+◌, ◌-◌, ◌%◌, ◌^◌, ◌≤◌, ◌<◌, ◌≡◌, ◌≢◌, refl, sym, ap, ◌∙◌, arith}
use nfc_cpp.Base.{
  List, [], ◌∷◌, ◌++◌, length, All, IsByte, Option, none, some, append_assoc, length-append,
}
use nfc_cpp.Base.{
  ok, err, fault, slice, subst, ◌↔◌, slice_out, All-append_right, true, ==_self, ◌==◌,
}
use nfc_cpp.Pn532.{Pn532ResponseFrame, tfi_device_to_host}
use nfc_cpp.Pn532.Checksum.{IsPacket, byte_sum-sum, sum}
use nfc_cpp.Pn532.Response.{parse_response_frame, parse_packet, find_start, frame_check_failed}
use nfc_cpp.Pn532.Response.Packet.{tail, checked, parse_packet-checked}
use nfc_cpp.Pn532.Response.Shape.{Shape, shape, refused, whole, wrapped}
use nfc_cpp.Pn532.Response.Laws.{find_start-some, parse-at}

-- Where the start code is, and that the rest is what `parse_packet` reads.
data Located (frame : List ℕ) (sent : ℕ) : Type 0 where
  nowhere : parse_response_frame frame sent ≡ err frame_check_failed → Located frame sent
  behind :
      (pre rest : List ℕ)
      → frame ≡ pre ++ 0x00 ∷ 0x00 ∷ 0xFF ∷ rest
      → find_start frame 0 ≡ some (length pre)
      → parse_response_frame frame sent ≡ parse_packet rest 0 sent
      → Located frame sent

locate_at :
    (frame : List ℕ) (sent : ℕ) (found : Option ℕ) → find_start frame 0 ≡ found → Located frame sent
locate_at frame sent none h = nowhere (unfold parse_response_frame in rw (h, parse_response_frame))
locate_at frame sent (some i) h =
    let (pre, rest, e, n) = find_start-some frame 0 i h in
    let at_pre : find_start frame 0 ≡ some (length pre) = h ∙ ap some (omega arith) in
    behind pre rest e at_pre (
      ap (λ (f : List ℕ). parse_response_frame f sent) e
      ∙ parse-at pre rest sent (subst (λ f. find_start f 0 ≡ some (length pre)) e at_pre))

locate : (frame : List ℕ) (sent : ℕ) → Located frame sent
locate frame sent = locate_at frame sent (find_start frame 0) refl

checked_ok :
    (len lcs tfi code dcs : ℕ) (payload : List ℕ) (sent : ℕ) (r : Pn532ResponseFrame)
    → checked len lcs tfi code payload dcs sent ≡ ok r
    → ((len + lcs) % 256 ≡ 0)
      × (tfi ≡ 0xD5)
      × (code ≡ (sent + 1) % 256)
      × ((tfi + (code + sum payload) + dcs) % 256 ≡ 0)
      × (dcs < 256)
      × (r ≡ record { command_code = code; payload = payload })
unfolding checked
checked_ok len lcs tfi code dcs payload sent r h =
    ground (arith, byte_sum-sum 0 (tfi ∷ code ∷ payload))

-- With length 1 the payload length wraps to 2 ^ 64 - 1, and the payload loop leaves the frame.
len_one-fault :
    (lcs sent : ℕ) (body : List ℕ)
    → (1 + lcs) % 256 ≡ 0
    → length body ≤ 300
    → parse_packet (1 ∷ lcs ∷ 0xD5 ∷ ((sent + 1) % 256) ∷ body) 0 sent ≡ fault
unfolding parse_packet
len_one-fault lcs sent body h fits =
    simp (zero_sum, ==_self ((sent + 1) % 256), leaves) (ground arith)
  where
    zero_sum : ((1 + lcs) % 256 == 0) ≡ true
    zero_sum = ground arith

    leaves : slice (1 ∷ lcs ∷ 0xD5 ∷ ((sent + 1) % 256) ∷ body) 4 (2 ^ 64 - 1) ≡ fault
    leaves = slice_out _ 4 (2 ^ 64 - 1) (omega arith)

-- The frame holds a packet from the chip that answers `sent` and carries what `r` says.
pub record HoldsPacket (frame : List ℕ) (sent : ℕ) (r : Pn532ResponseFrame) : Type 0 where
  pub pre : List ℕ
  pub packet : List ℕ
  pub rest : List ℕ
  pub parts : frame ≡ pre ++ (packet ++ rest)
  pub is_packet : IsPacket tfi_device_to_host r.command_code r.payload packet
  pub answers : r.command_code ≡ (sent + 1) % 256

whole-HoldsPacket :
    (pre payload rest : List ℕ) (len lcs tfi code dcs sent : ℕ) (r : Pn532ResponseFrame)
    → lcs < 256
    → len ≡ length payload + 2
    → len ≤ 254
    → checked len lcs tfi code payload dcs sent ≡ ok r
    → HoldsPacket (pre ++ 0x00 ∷ 0x00 ∷ 0xFF ∷ tail len lcs tfi code dcs payload rest) sent r
whole-HoldsPacket pre payload rest len lcs tfi code dcs sent r byte counts bounded h =
    let (length_zero, from_chip, answers, data_zero, dcs_byte, eq) =
      checked_ok len lcs tfi code dcs payload sent r h in
    rw eq (record {
      pre = pre;
      packet = 0x00 ∷ 0x00 ∷ 0xFF ∷ len ∷ lcs ∷ tfi ∷ code ∷ (payload ++ (dcs ∷ []));
      rest = rest;
      parts =
          ap (λ (l : List ℕ). pre ++ 0x00 ∷ 0x00 ∷ 0xFF ∷ len ∷ lcs ∷ tfi ∷ code ∷ l)
            (sym (append_assoc payload (dcs ∷ []) rest));
      is_packet = record {
        len = len;
        lcs = lcs;
        dcs = dcs;
        bytes =
            ap (λ (t : ℕ). 0x00 ∷ 0x00 ∷ 0xFF ∷ len ∷ lcs ∷ t ∷ code ∷ (payload ++ (dcs ∷ [])))
              from_chip;
        counts = counts;
        bounded = bounded;
        length_zero = length_zero;
        data_zero = rw (← from_chip) data_zero;
        lcs_byte = byte;
        dcs_byte = dcs_byte;
      };
      answers = answers;
    })

Shape-HoldsPacket :
    (pre rest : List ℕ) (sent : ℕ) (r : Pn532ResponseFrame)
    → All IsByte (pre ++ 0x00 ∷ 0x00 ∷ 0xFF ∷ rest)
    → length (pre ++ 0x00 ∷ 0x00 ∷ 0xFF ∷ rest) ≤ 261
    → parse_packet rest 0 sent ≡ ok r
    → Shape rest sent
    → HoldsPacket (pre ++ 0x00 ∷ 0x00 ∷ 0xFF ∷ rest) sent r
Shape-HoldsPacket pre rest sent r bytes fits h (refused e f) = cc
Shape-HoldsPacket pre rest sent r bytes fits h (wrapped lcs body f z) = cc (
  f,
  h,
  len_one-fault lcs sent body z
      (omega (arith, ap length f, length-append pre (0x00 ∷ 0x00 ∷ 0xFF ∷ rest))),
)
Shape-HoldsPacket pre rest sent r bytes fits h (whole len lcs tfi code dcs payload more f n b) =
    rw f (
      whole-HoldsPacket pre payload more len lcs tfi code dcs sent r lcs_byte n b
        (sym (parse_packet-checked len lcs tfi code dcs payload more sent n b) ∙ (rw f at h)))
  where
    tail_bytes : All IsByte (tail len lcs tfi code dcs payload more)
    tail_bytes =
        subst (All IsByte) f (All-append_right IsByte pre (0x00 ∷ 0x00 ∷ 0xFF ∷ rest) bytes).1.1.1

    lcs_byte : lcs < 256
    lcs_byte = tail_bytes.1.0

-- A frame of at most 261 entries, all bytes, that parseResponseFrame accepts holds a packet from
-- the chip with valid length, length checksum and data checksum that answers the sent command, and
-- the result is its code and payload.
pub parse_response_frame-HoldsPacket :
    (frame : List ℕ) (sent : ℕ) (r : Pn532ResponseFrame)
    → All IsByte frame
    → length frame ≤ 261
    → parse_response_frame frame sent ≡ ok r
    → HoldsPacket frame sent r
parse_response_frame-HoldsPacket frame sent r bytes fits h = from (locate frame sent)
  where
    from : Located frame sent → HoldsPacket frame sent r
    from (nowhere f) = cc
    from (behind pre rest e found f) = rw e (
        Shape-HoldsPacket pre rest sent r (subst (All IsByte) e bytes)
          (subst (λ l. length l ≤ 261) e fits) (sym f ∙ h) (shape rest sent))

-- The first start code is followed by a length of 1 with its checksum, the direction byte, and
-- the awaited code in the place of the data checksum.
pub record IsLenOne (frame : List ℕ) (sent : ℕ) : Type 0 where
  pub pre : List ℕ
  pub lcs : ℕ
  pub body : List ℕ
  pub parts : frame ≡ pre ++ 0x00 ∷ 0x00 ∷ 0xFF ∷ 1 ∷ lcs ∷ 0xD5 ∷ ((sent + 1) % 256) ∷ body
  pub first : find_start frame 0 ≡ some (length pre)
  pub sums : (1 + lcs) % 256 ≡ 0

checked-ne-fault :
    (len lcs tfi code : ℕ) (payload : List ℕ) (dcs sent : ℕ)
    → checked len lcs tfi code payload dcs sent ≢ fault
unfolding checked
checked-ne-fault len lcs tfi code payload dcs sent h = ground arith

Shape-IsLenOne :
    (frame pre rest : List ℕ) (sent : ℕ)
    → frame ≡ pre ++ 0x00 ∷ 0x00 ∷ 0xFF ∷ rest
    → find_start frame 0 ≡ some (length pre)
    → parse_packet rest 0 sent ≡ fault
    → Shape rest sent
    → IsLenOne frame sent
Shape-IsLenOne frame pre rest sent e found h (refused x f) = cc
Shape-IsLenOne frame pre rest sent e found h (wrapped lcs body f z) = record {
  pre = pre;
  lcs = lcs;
  body = body;
  parts = e ∙ ap (λ (l : List ℕ). pre ++ 0x00 ∷ 0x00 ∷ 0xFF ∷ l) f;
  first = found;
  sums = z;
}
Shape-IsLenOne frame pre rest sent e found h (whole len lcs tfi code dcs payload more f n b) =
    absurd (
      checked-ne-fault len lcs tfi code payload dcs sent
        (sym (parse_packet-checked len lcs tfi code dcs payload more sent n b) ∙ (rw f at h)))

-- On a received frame of at most 261 bytes, parseResponseFrame leaves the frame exactly when the
-- first start code is followed by a length of 1 with its checksum, the direction byte and the
-- awaited code.
pub parse_response_frame-fault_iff :
    (frame : List ℕ) (sent : ℕ)
    → length frame ≤ 261
    → (parse_response_frame frame sent ≡ fault) ↔ IsLenOne frame sent
parse_response_frame-fault_iff frame sent fits = (λ h. from h (locate frame sent), back)
  where
    from : parse_response_frame frame sent ≡ fault → Located frame sent → IsLenOne frame sent
    from h (nowhere f) = cc
    from h (behind pre rest e found f) =
        Shape-IsLenOne frame pre rest sent e found (sym f ∙ h) (shape rest sent)

    back : IsLenOne frame sent → parse_response_frame frame sent ≡ fault
    back w =
        let more : List ℕ = 1 ∷ w.lcs ∷ 0xD5 ∷ ((sent + 1) % 256) ∷ w.body in
        ap (λ (f : List ℕ). parse_response_frame f sent) w.parts
        ∙ parse-at w.pre more sent
            (subst (λ f. find_start f 0 ≡ some (length w.pre)) w.parts w.first)
        ∙ len_one-fault w.lcs sent w.body w.sums
            (omega (arith, ap length w.parts, length-append w.pre (0x00 ∷ 0x00 ∷ 0xFF ∷ more)))
