-- ===== src/Desfire/WriteData/Stores.antt =====
-- WriteData of plain data, run by executeCommand on a card with a file.
use nfc_cpp.Base.{
  ℕ, zero, suc, ◌+◌, ◌-◌, ◌≤◌, ◌<◌, ◌^◌, ◌≡◌, refl, ap, ◌∙◌, arith, true, false, ltb, leb,
  if◌then◌else◌, List, [], ◌∷◌, ◌++◌, length, take, drop, length-append, take-append-drop,
  drop-drop, some, ok, slice_in, push_all_fits, lt→leb, le→ltb, ne→==, length-drop, length-slice,
  Bool-cases, inl, inr, le→leb, take-length,
}
use nfc_cpp.Crypto.Ciphers.{Ciphers}
use nfc_cpp.Crypto.Words.{le24}
use nfc_cpp.Wire.{WireKind}
use nfc_cpp.Desfire.Context.{DesfireContext, unknown}
use nfc_cpp.Desfire.Command.{DesfireRequest}
use nfc_cpp.Desfire.Card.{
  IApduTransceiver, Run, execute_round, execute_loop, execute_command, check_status,
}
use nfc_cpp.Desfire.Card.Round.{execute_round-after, wrap_fits}
use nfc_cpp.Desfire.Memory.{IsFileCard, overwrite, overwrite-overwrite, length-overwrite}
use nfc_cpp.Desfire.WriteData.{
  WriteDataCommand, WriteDataOptions, Stage, writing, completed, write_data, build_next, open_stage,
  reset, effective_chunk_size, effective_plain_chunk_budget, parse_writing, take_progress,
  resolve_communication_settings, validate_options, validate_data, validate_range, has_settings,
}

pub effective_chunk_size-bounds :
    (n : ℕ) → (0 < effective_chunk_size n) × (effective_chunk_size n ≤ 240)
unfolding effective_chunk_size
effective_chunk_size-bounds n = ground arith

-- The options of a write of plain data.
abbrev pub write_options : ℕ → ℕ → List ℕ → ℕ → ℕ → WriteDataOptions
write_options file_no offset bytes chunk_size settings = record {
  file_no = file_no;
  offset = offset;
  bytes = some bytes;
  chunk_size = chunk_size;
  communication_settings = settings;
}

le24-length : (v : ℕ) → length (le24 v) ≡ 3
unfolding le24
le24-length v = refl

module _ (c : Ciphers) (file_no offset : ℕ) (bytes : List ℕ) (chunk_size settings : ℕ)
    (context : DesfireContext) where
  abbrev pub options : WriteDataOptions
  options = write_options file_no offset bytes chunk_size settings

  -- The command when `i` bytes are written.
  abbrev pub at : ℕ → Stage → WriteDataCommand
  at i stage = record {
    options = options;
    stage = stage;
    current_offset = offset + i;
    current_index = i;
    last_chunk_length = 0;
    active_settings = 0x00;
    session_cipher = unknown;
    pending_iv = [];
    update_context_iv = false;
    legacy_des_crypto_mode = false;
  }

  abbrev pub cap : ℕ
  cap = effective_chunk_size chunk_size

  abbrev pub size : ℕ → ℕ
  size i = if ltb (length bytes - i) cap then length bytes - i else cap

  pub size-bounds :
      (i : ℕ) → i < length bytes → (0 < size i) × (size i ≤ 240) × (i + size i ≤ length bytes)
  size-bounds i h = ground (arith, effective_chunk_size-bounds chunk_size)

  abbrev pub chunk : ℕ → List ℕ
  chunk i = take (size i) (drop i bytes)

  pub length-chunk : (i : ℕ) → i < length bytes → length (chunk i) ≡ size i
  length-chunk i h = length-slice bytes i (size i) (omega (arith, size-bounds i h))

  abbrev pub header : ℕ → List ℕ
  header i = file_no ∷ (le24 (offset + i) ++ le24 (size i))

  abbrev pub request : ℕ → DesfireRequest
  request i = record {
    command_code = 0x3D;
    request_data = header i ++ chunk i;
    expected_response_length = 0;
  }

  pub length-request : (i : ℕ) → i < length bytes → length (header i ++ chunk i) ≡ 7 + size i
  length-request i h = omega (
    arith,
    length-append (header i) (chunk i),
    length-append (le24 (offset + i)) (le24 (size i)),
    le24-length (offset + i),
    le24-length (size i),
    length-chunk i h,
    size-bounds i h,
  )

  abbrev pub asked : ℕ → WriteDataCommand
  asked i = record (at i writing) { last_chunk_length = size i }

  pub builds :
      (i : ℕ)
      → i < length bytes
      → build_next c context (some bytes) (at i writing) ≡ (ok (request i), asked i)
  unfolding build_next effective_plain_chunk_budget
  builds i h =
      rw
        (
          lt→leb (length bytes) i h,
          ne→== cap 0 (λ e. omega (arith, effective_chunk_size-bounds chunk_size)),
          slice_in bytes i (size i) (omega (arith, size-bounds i h)),
          push_all_fits 252 (header i) (chunk i) (
              omega
                (arith, length-request i h, size-bounds i h, length-append (header i) (chunk i))),
        )
        refl

  pub validates :
      file_no ≤ 31
      → 0 < length bytes
      → length bytes < 2 ^ 24
      → offset + length bytes ≤ 2 ^ 24
      → resolve_communication_settings settings context ≡ 0x00
      → validate_options options ≡ true
  unfolding validate_options validate_data validate_range has_settings
      resolve_communication_settings
  validates file some_bytes few in_range plain =
      ground (arith, effective_chunk_size-bounds chunk_size)

  pub opens :
      (command : WriteDataCommand)
      → validate_options options ≡ true
      → resolve_communication_settings settings context ≡ 0x00
      → open_stage context (reset c (record command { options = options })) ≡ (ok tt, at 0 writing)
  unfolding open_stage
  opens command valid plain =
      rw (valid, plain, (let e : offset + 0 ≡ offset = omega arith in e)) refl

  module _ (wire : WireKind) (t : IApduTransceiver) (card : IsFileCard wire t file_no) where
    open t use {Link}

    abbrev later : ℕ → Stage
    later i = if leb (length bytes) i then completed else writing

    abbrev run : WriteDataCommand → Link → Run WriteDataCommand Link
    run command link = record { command = command; link = link; context = context }

    -- A round writes the next chunk.
    round :
        (i : ℕ) (link : Link)
        → i < length bytes
        → offset + length bytes ≤ 2 ^ 24
        → offset + length bytes ≤ length (card.contents link)
        → (next : Link) × (execute_round wire t (write_data c) (run (at i writing) link)
            ≡ (ok tt, run (at (i + size i) (later (i + size i))) next))
          × (card.contents next ≡ overwrite (card.contents link) (offset + i) (chunk i))
    unfolding parse_writing take_progress check_status
    round i link h in_range room =
        let (apdu, wraps) =
          wrap_fits wire 0x3D (header i ++ chunk i)
            (omega (arith, length-request i h, size-bounds i h)) in
        let (next, sends, stored) =
          card.writes link (offset + i) (chunk i) apdu
            (omega (arith, length-chunk i h, size-bounds i h)) (omega arith)
            (omega (arith, length-chunk i h, size-bounds i h)) (rw (length-chunk i h) wraps) in
        (
          next,
          execute_round-after wire t (write_data c) (run (at i writing) link) (asked i) (request i)
                apdu (ok (0x00 ∷ [])) next (builds i h)
                (omega (arith, length-request i h, size-bounds i h)) wraps sends
              ∙ rw
                  (
                    ne→== (size i) 0 (λ e. omega (arith, size-bounds i h)),
                    le→ltb (length bytes) (i + size i) (omega (arith, size-bounds i h)),
                    (let e : offset + i + size i ≡ offset + (i + size i) = omega arith in e),
                  )
                  refl,
          stored,
        )

    abbrev Stored : ℕ → ℕ → Link → Type 0
    Stored fuel i link =
        (last : Link) × (execute_loop wire t (write_data c) fuel (run (at i writing) link)
          ≡ some (ok tt, run (at (length bytes) completed) last))
        × (card.contents last ≡ overwrite (card.contents link) (offset + i) (drop i bytes))

    -- The chunk and what follows it are the bytes that are left.
    joined :
        (i : ℕ) (file : List ℕ)
        → i < length bytes
        → offset + length bytes ≤ length file
        → overwrite
            (overwrite file (offset + i) (chunk i))
            (offset + (i + size i))
            (drop (i + size i) bytes)
          ≡ overwrite file (offset + i) (drop i bytes)
    joined i file h room =
        ap
          (λ (o : ℕ). overwrite (overwrite file (offset + i) (chunk i)) o (drop (i + size i) bytes))
          (omega (arith, length-chunk i h))
        ∙ overwrite-overwrite file (offset + i) (chunk i) (drop (i + size i) bytes)
            (omega (arith, length-chunk i h, size-bounds i h))
        ∙ ap (overwrite file (offset + i))
            (rw (← drop-drop i (size i) bytes) (take-append-drop (size i) (drop i bytes)))

    length-stored :
        (i : ℕ) (file : List ℕ)
        → i < length bytes
        → offset + length bytes ≤ length file
        → length (overwrite file (offset + i) (chunk i)) ≡ length file
    length-stored i file h room =
        length-overwrite file (offset + i) (chunk i)
          (omega (arith, length-chunk i h, size-bounds i h))

    last_round :
        (fuel i : ℕ) (link next : Link)
        → execute_round wire t (write_data c) (run (at i writing) link)
          ≡ (ok tt, run (at (i + size i) (later (i + size i))) next)
        → i + size i ≡ length bytes
        → execute_loop wire t (write_data c) (suc (suc fuel)) (run (at i writing) link)
          ≡ some (ok tt, run (at (length bytes) completed) next)
    unfolding execute_loop
    last_round fuel i link next e done =
        rw (e, execute_loop, le→leb (length bytes) (i + size i) (omega arith), done) refl

    inner_round :
        (fuel i : ℕ) (link next : Link)
        → execute_round wire t (write_data c) (run (at i writing) link)
          ≡ (ok tt, run (at (i + size i) (later (i + size i))) next)
        → i + size i < length bytes
        → execute_loop wire t (write_data c) (suc fuel) (run (at i writing) link)
          ≡ execute_loop wire t (write_data c) fuel (run (at (i + size i) writing) next)
    unfolding execute_loop
    inner_round fuel i link next e more =
        rw (e, lt→leb (length bytes) (i + size i) (omega arith)) refl

    loop :
        (fuel i : ℕ) (link : Link)
        → length bytes - i < fuel
        → i < length bytes
        → offset + length bytes ≤ 2 ^ 24
        → offset + length bytes ≤ length (card.contents link)
        → Stored fuel i link
    loop zero i link enough h in_range room = absurd (omega arith)
    loop (suc zero) i link enough h in_range room = absurd (omega arith)
    loop (suc (suc fuel)) i link enough h in_range room =
        let (next, e, stored) = round i link h in_range room in
        elim (Bool-cases (ltb (i + size i) (length bytes))) [
          | inl more ↦
              let j : i + size i < length bytes = ground (arith, more) in
              let (last, ends, rest) =
                loop (suc fuel) (i + size i) next (omega (arith, size-bounds i h)) j in_range
                  (rw (stored, length-stored i (card.contents link) h room) room) in
              (
                last,
                inner_round (suc fuel) i link next e j ∙ ends,
                rest ∙ rw stored (joined i (card.contents link) h room),
              )
          | inr done ↦
              let j : i + size i ≡ length bytes = ground (arith, done, size-bounds i h) in
              (
                next,
                last_round fuel i link next e j,
                stored
                    ∙ ap (overwrite (card.contents link) (offset + i))
                        (take-length (drop i bytes) (size i) (omega (arith, length-drop i bytes))),
              )
        ]

    starts :
        (fuel : ℕ) (command : WriteDataCommand) (link : Link)
        → open_stage context (reset c (record command { options = options }))
          ≡ (ok tt, at 0 writing)
        → execute_command wire t
            (write_data c)
            (suc fuel)
            (record command { options = options })
            link
            context
          ≡ execute_loop wire t (write_data c) (suc fuel) (run (at 0 writing) link)
    unfolding execute_command execute_loop execute_round
    starts fuel command link opened = rw opened refl

    -- WriteData of plain data that is allowed, in a file that has room for it, succeeds: with a
    -- fuel above the number of bytes the call ends, the file is the old one with the bytes written
    -- at the offset, however many chunks that took, the command is complete and the session is as
    -- it was.
    pub write_data-overwrite :
        (fuel : ℕ) (command : WriteDataCommand) (link : Link)
        → length bytes < fuel
        → file_no ≤ 31
        → 0 < length bytes
        → length bytes < 2 ^ 24
        → offset + length bytes ≤ 2 ^ 24
        → offset + length bytes ≤ length (card.contents link)
        → resolve_communication_settings settings context ≡ 0x00
        → (last : Link) × (execute_command wire t
              (write_data c)
              fuel
              (record command { options = options })
              link
              context
            ≡ some (ok tt, run (at (length bytes) completed) last))
          × (card.contents last ≡ overwrite (card.contents link) offset bytes)
    write_data-overwrite zero command link enough file some_bytes few in_range room plain =
        absurd (omega arith)
    write_data-overwrite (suc fuel) command link enough file some_bytes few in_range room plain =
        let (last, ends, stored) = loop (suc fuel) 0 link (omega arith) some_bytes in_range room in
        (
          last,
          starts fuel command link
                (opens command (validates file some_bytes few in_range plain) plain)
              ∙ ends,
          stored ∙ ap (λ (o : ℕ). overwrite (card.contents link) o bytes) (omega arith),
        )
