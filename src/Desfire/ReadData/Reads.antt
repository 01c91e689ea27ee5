-- ===== src/Desfire/ReadData/Reads.antt =====
-- ReadData of plain data, run by executeCommand on a card with a file.
use nfc_cpp.Base.{
  ℕ, zero, suc, ◌+◌, ◌-◌, ◌≤◌, ◌<◌, ◌^◌, ◌≡◌, refl, sym, ap, ◌∙◌, arith, true, false, ◌==◌, ltb,
  if◌then◌else◌, List, [], ◌∷◌, ◌++◌, length, take, drop, drop-drop, some, ok, slice_in, le→ltb,
  ne→==, length-slice, Bool-cases, inl, inr, take-add, take-length,
}
use nfc_cpp.Crypto.Ciphers.{Ciphers}
use nfc_cpp.Crypto.Words.{le24}
use nfc_cpp.Wire.{WireKind}
use nfc_cpp.Desfire.Context.{DesfireContext, unknown}
use nfc_cpp.Desfire.Command.{DesfireRequest}
use nfc_cpp.Desfire.Card.{
  IApduTransceiver, Run, execute_round, execute_loop, execute_command, check_status,
}
use nfc_cpp.Desfire.Card.Round.{execute_round-after, wrap_fits}
use nfc_cpp.Desfire.Memory.{IsFileCard}
use nfc_cpp.Desfire.WriteData.{effective_chunk_size, has_settings, resolve_communication_settings}
use nfc_cpp.Desfire.WriteData.Stores.{effective_chunk_size-bounds}
use nfc_cpp.Desfire.ReadData.{
  ReadDataCommand, ReadDataOptions, Stage, read_chunk, completed, read_data, build_next, open_stage,
  reset, derives_request_iv, parse_frame, finish_chunk, take_chunk, unverified_length,
  validate_options,
}

module _ (c : Ciphers) (wire : WireKind) (t : IApduTransceiver) (options : ReadDataOptions)
    (card : IsFileCard wire t options.file_no) (session : DesfireContext) (file : List ℕ) where
  open t use {Link}

  abbrev context : DesfireContext
  context = record session { authenticated = false }

  abbrev total : ℕ
  total = options.read_length

  -- The command when `i` bytes are read, with the length that was asked for last.
  abbrev at : ℕ → ℕ → Stage → ReadDataCommand
  at i asked stage = record {
    options = options;
    stage = stage;
    current_offset = options.offset + i;
    remaining_length = total - i;
    last_requested_chunk_length = asked;
    frame_data = [];
    bytes = take i (drop options.offset file);
    active_settings = 0x00;
    session_cipher = unknown;
    request_iv = [];
    has_request_iv = false;
  }

  abbrev cap : ℕ
  cap = effective_chunk_size options.chunk_size

  abbrev size : ℕ → ℕ
  size i = if ltb (total - i) cap then total - i else cap

  size-bounds : (i : ℕ) → i < total → (0 < size i) × (size i ≤ 240) × (i + size i ≤ total)
  size-bounds i h = ground (arith, effective_chunk_size-bounds options.chunk_size)

  abbrev chunk : ℕ → List ℕ
  chunk i = take (size i) (drop (options.offset + i) file)

  length-chunk :
      (i : ℕ) → i < total → options.offset + total ≤ length file → length (chunk i) ≡ size i
  length-chunk i h room =
      length-slice file (options.offset + i) (size i) (omega (arith, size-bounds i h))

  abbrev request : ℕ → DesfireRequest
  request i = record {
    command_code = 0xBD;
    request_data = options.file_no ∷ (le24 (options.offset + i) ++ le24 (size i));
    expected_response_length = size i;
  }

  length-request : (i : ℕ) → length (request i).request_data ≡ 7
  unfolding le24
  length-request i = refl

  builds :
      (i asked : ℕ)
      → i < total
      → build_next c context (at i asked read_chunk) ≡ (ok (request i), at i (size i) read_chunk)
  unfolding build_next derives_request_iv
  builds i asked h = rw (ne→== (total - i) 0 (λ e. omega arith)) refl

  abbrev later : ℕ → Stage
  later i = if total - i == 0 then completed else read_chunk

  abbrev run : ReadDataCommand → Link → Run ReadDataCommand Link
  run command link = record { command = command; link = link; context = context }

  gathered :
      (i : ℕ)
      → take i (drop options.offset file) ++ chunk i ≡ take (i + size i) (drop options.offset file)
  gathered i =
      rw (← drop-drop options.offset i file) (sym (take-add i (size i) (drop options.offset file)))

  length-gathered :
      (i : ℕ)
      → i < total
      → options.offset + total ≤ length file
      → length (take i (drop options.offset file)) ≡ i
  length-gathered i h room = length-slice file options.offset i (omega arith)

  takes :
      (i : ℕ)
      → i < total
      → total ≤ 4096
      → options.offset + total ≤ length file
      → take_chunk
          (record (at i (size i) read_chunk) { frame_data = chunk i })
          (record { status_code = 0x00; result_data = chunk i })
          (chunk i)
          (length (chunk i))
          context
        ≡ (
          ok (record { status_code = 0x00; result_data = chunk i }),
          at (i + size i) (size i) (later (i + size i)),
          context,
        )
  unfolding take_chunk
  takes i h few room =
      rw
        (
          length-chunk i h room,
          ne→== (size i) 0 (λ e. omega (arith, size-bounds i h)),
          le→ltb (size i) (size i) (omega arith),
          length-gathered i h room,
          le→ltb 4096 (i + size i) (omega (arith, size-bounds i h)),
          slice_in (chunk i) 0 (size i) (omega (arith, length-chunk i h room)),
          take-length (chunk i) (size i) (omega (arith, length-chunk i h room)),
          le→ltb (total - i) (size i) (omega (arith, size-bounds i h)),
          gathered i,
          (let e : options.offset + i + size i ≡ options.offset + (i + size i) = omega arith in e),
          (let e : total - i - size i ≡ total - (i + size i) = omega arith in e),
        )
        refl

  parses :
      (i : ℕ)
      → i < total
      → total ≤ 4096
      → options.offset + total ≤ length file
      → parse_frame c (at i (size i) read_chunk) (0x00 ∷ chunk i) context ≡ (
        ok (record { status_code = 0x00; result_data = chunk i }),
        at (i + size i) (size i) (later (i + size i)),
        context,
      )
  unfolding parse_frame finish_chunk unverified_length
  parses i h few room =
      rw
        (
          take-length (chunk i) 256 (omega (arith, length-chunk i h room, size-bounds i h)),
          le→ltb 256 (length (chunk i)) (omega (arith, length-chunk i h room, size-bounds i h)),
        )
        (takes i h few room)

  -- A round reads the next chunk.
  round :
      (i asked : ℕ) (link : Link)
      → i < total
      → total ≤ 4096
      → options.offset + total ≤ 2 ^ 24
      → options.offset + total ≤ length file
      → card.contents link ≡ file
      → (next : Link) × (execute_round wire t (read_data c) (run (at i asked read_chunk) link)
          ≡ (ok tt, run (at (i + size i) (size i) (later (i + size i))) next))
        × (card.contents next ≡ file)
  unfolding check_status
  round i asked link h few in_range room same =
      let (apdu, wraps) =
        wrap_fits wire 0xBD (request i).request_data (omega (arith, length-request i)) in
      let (next, sends, kept) =
        card.reads link (options.offset + i) (size i) apdu (omega (arith, size-bounds i h))
          (omega arith) (omega (arith, size-bounds i h, ap length same)) wraps in
      (
        next,
        execute_round-after wire t (read_data c) (run (at i asked read_chunk) link)
              (at i (size i) read_chunk) (request i) apdu (ok (0x00 ∷ chunk i)) next
              (builds i asked h) (omega (arith, length-request i)) wraps
              (sends
                ∙ ap
                    (λ (f : List ℕ).
                      (ok (0x00 ∷ take (size i) (drop (options.offset + i) f)), next))
                    same)
            ∙ rw (parses i h few room) refl,
        kept ∙ same,
      )

  abbrev Done : ℕ → ℕ → ℕ → Link → Type 0
  Done fuel i asked link =
      (n : ℕ) × (last : Link) × (execute_loop wire t (read_data c) fuel
          (run (at i asked read_chunk) link)
        ≡ some (ok tt, run (at total n completed) last))
      × (card.contents last ≡ file)

  last_round :
      (fuel i asked : ℕ) (link next : Link)
      → execute_round wire t (read_data c) (run (at i asked read_chunk) link)
        ≡ (ok tt, run (at (i + size i) (size i) (later (i + size i))) next)
      → i + size i ≡ total
      → execute_loop wire t (read_data c) (suc (suc fuel)) (run (at i asked read_chunk) link)
        ≡ some (ok tt, run (at total (size i) completed) next)
  unfolding execute_loop
  last_round fuel i asked link next e done =
      rw
        (
          e,
          execute_loop,
          (let z : total - (i + size i) ≡ 0 = omega arith in z),
          done,
          (let z : total - total ≡ 0 = omega arith in z),
        )
        refl

  inner_round :
      (fuel i asked : ℕ) (link next : Link)
      → execute_round wire t (read_data c) (run (at i asked read_chunk) link)
        ≡ (ok tt, run (at (i + size i) (size i) (later (i + size i))) next)
      → i + size i < total
      → execute_loop wire t (read_data c) (suc fuel) (run (at i asked read_chunk) link)
        ≡ execute_loop wire t (read_data c) fuel (run (at (i + size i) (size i) read_chunk) next)
  unfolding execute_loop
  inner_round fuel i asked link next e more =
      rw (e, ne→== (total - (i + size i)) 0 (λ z. omega arith)) refl

  loop :
      (fuel i asked : ℕ) (link : Link)
      → total - i < fuel
      → i < total
      → total ≤ 4096
      → options.offset + total ≤ 2 ^ 24
      → options.offset + total ≤ length file
      → card.contents link ≡ file
      → Done fuel i asked link
  loop zero i asked link enough h few in_range room same = absurd (omega arith)
  loop (suc zero) i asked link enough h few in_range room same = absurd (omega arith)
  loop (suc (suc fuel)) i asked link enough h few in_range room same =
      let (next, e, kept) = round i asked link h few in_range room same in
      elim (Bool-cases (ltb (i + size i) total)) [
        | inl more ↦
            let j : i + size i < total = ground (arith, more) in
            let (n, last, ends, rest) =
              loop (suc fuel) (i + size i) (size i) next (omega (arith, size-bounds i h)) j few
                in_range room kept in
            (n, last, inner_round (suc fuel) i asked link next e j ∙ ends, rest)
        | inr done ↦
            let j : i + size i ≡ total = ground (arith, done, size-bounds i h) in
            (size i, next, last_round fuel i asked link next e j, kept)
      ]

  validates :
      options.file_no ≤ 31
      → 0 < total
      → total ≤ 4096
      → options.offset + total ≤ 2 ^ 24
      → resolve_communication_settings options.communication_settings context ≡ 0x00
      → validate_options options ≡ true
  unfolding validate_options has_settings resolve_communication_settings
  validates small some_bytes few in_range plain =
      ground (arith, effective_chunk_size-bounds options.chunk_size)

  opens :
      (command : ReadDataCommand)
      → validate_options options ≡ true
      → resolve_communication_settings options.communication_settings context ≡ 0x00
      → open_stage context (reset c (record command { options = options }))
        ≡ (ok tt, at 0 0 read_chunk)
  unfolding open_stage
  opens command valid plain =
      rw
        (
          valid,
          plain,
          (let e : options.offset + 0 ≡ options.offset = omega arith in e),
          (let e : total - 0 ≡ total = omega arith in e),
        )
        refl

  starts :
      (fuel : ℕ) (command : ReadDataCommand) (link : Link)
      → open_stage context (reset c (record command { options = options }))
        ≡ (ok tt, at 0 0 read_chunk)
      → execute_command wire t
          (read_data c)
          (suc fuel)
          (record command { options = options })
          link
          context
        ≡ execute_loop wire t (read_data c) (suc fuel) (run (at 0 0 read_chunk) link)
  unfolding execute_command execute_loop execute_round
  starts fuel command link opened = rw opened refl

-- ReadData of plain data, outside a session, that is valid and asks for 1 to 4096 bytes that lie
-- in the file, succeeds: with a fuel above the number of bytes the call ends, the bytes read are
-- those of the file from the offset on, however many chunks that took, and the file and the
-- session are as they were.
pub read_data-take :
    (c : Ciphers) (wire : WireKind) (t : IApduTransceiver) (options : ReadDataOptions)
    (card : IsFileCard wire t options.file_no) (session : DesfireContext) (fuel : ℕ)
    (command : ReadDataCommand) (link : t.Link)
    → options.read_length < fuel
    → options.file_no ≤ 31
    → 0 < options.read_length
    → options.read_length ≤ 4096
    → options.offset + options.read_length ≤ 2 ^ 24
    → options.offset + options.read_length ≤ length (card.contents link)
    → resolve_communication_settings options.communication_settings
        (record session { authenticated = false })
      ≡ 0x00
    → (last : Run ReadDataCommand t.Link) × (execute_command wire t
          (read_data c)
          fuel
          (record command { options = options })
          link
          (record session { authenticated = false })
        ≡ some (ok tt, last))
      × ((last.command.bytes ≡ take options.read_length (drop options.offset (card.contents link)))
          × ((card.contents last.link ≡ card.contents link)
              × (last.context ≡ record session { authenticated = false })))
read_data-take c wire t options card session zero command link enough small some_bytes few in_range
      room plain =
    absurd (omega arith)
read_data-take c wire t options card session (suc fuel) command link enough small some_bytes few
      in_range room plain =
    let file = card.contents link in
    let (n, last, ends, kept) =
      loop c wire t options card session file (suc fuel) 0 0 link (omega arith) some_bytes few
        in_range room refl in
    (
      _,
      starts c wire t options card session file fuel command link (
            opens c wire t options card session file command
              (validates c wire t options card session file small some_bytes few in_range plain)
              plain)
          ∙ ends,
      (refl, (kept, refl)),
    )
