-- ===== src/Desfire/WriteData/Ends.antt =====
-- WriteData ends: a round that succeeds has taken bytes off those that are left.
use nfc_cpp.Base.{
  ℕ, ◌+◌, ◌-◌, ◌≤◌, ◌<◌, ◌≡◌, refl, sym, ap, ap₂, subst, inl, inr, arith, Bool, true, false, not,
  ◌||◌, ◌==◌, ltb, leb, if◌then◌else◌, Bool-cases, List, [], ◌∷◌, length, Option, none, some,
  Result, ok, err, fault,
}
use nfc_cpp.Crypto.Ciphers.{Ciphers}
use nfc_cpp.Wire.{WireKind}
use nfc_cpp.Desfire.Context.{DesfireContext, resolve_session_cipher, is_legacy_des_or_2k_session}
use nfc_cpp.Desfire.Policy.{Outcome, has_no_session}
use nfc_cpp.Desfire.EncryptedPayload.{is_unknown}
use nfc_cpp.Desfire.Command.{DesfireRequest, DesfireResult}
use nfc_cpp.Desfire.Card.{IApduTransceiver, Run, execute_command}
use nfc_cpp.Desfire.Card.OneFrame.{Ends}
use nfc_cpp.Desfire.Card.Bounded.{Nearer, Parses, execute_command_stops}
use nfc_cpp.Desfire.WriteData.{
  parse_staged, start_writing, clear_session, resolve_communication_settings, validate_options,
  WriteDataCommand, Stage, initial, writing, completed, write_data, build_next, build_bounded,
  build_chunk, enciphered_chunk, enciphered_data, request_of, open_stage, open_session,
  take_progress, progress_after, parse_writing, response_update, advance, is_completed,
  build_staged, build_opened, chunk_header,
}

abbrev pub size : Option (List ℕ) → ℕ
size none = 0
size (some bytes) = length bytes

abbrev left_at : Stage → WriteDataCommand → ℕ
left_at initial command = size command.options.bytes
left_at writing command = size command.options.bytes - command.current_index
left_at completed command = 0

abbrev bytes_left : WriteDataCommand → ℕ
bytes_left command = left_at command.stage command

-- A command that is writing, with `i` bytes of its data written.
abbrev Placed : Option (List ℕ) → ℕ → WriteDataCommand → Type 0
Placed o i command =
    (command.options.bytes ≡ o) × (command.stage ≡ writing) × (command.current_index ≡ i)

if-Ends :
    {S A : Type 0} (P : S → Type 0) (test : Bool) (x y : Result A × S)
    → Ends P x
    → Ends P y
    → Ends P (if test then x else y)
if-Ends P true x y h k = h
if-Ends P false x y h k = k

ends_ok :
    {S A : Type 0} (P : S → Type 0) (first : Result A × S) (a : A)
    → first.0 ≡ ok a
    → Ends P first
    → P first.1
ends_ok P (ok b, s) a e h = h
ends_ok P (err x, s) a e h = cc
ends_ok P (fault, s) a e h = cc

module _ (c : Ciphers) where
  abbrev Taken : ℕ → WriteDataCommand → Type 0
  Taken n = Nearer (write_data c) bytes_left n

  if-Parses :
      {S : Type 0} (P : S → Type 0) (test : Bool) (x y : Result DesfireResult × S × DesfireContext)
      → Parses P x
      → Parses P y
      → Parses P (if test then x else y)
  if-Parses P true x y h k = h
  if-Parses P false x y h k = k

  advance-Taken :
      (command : WriteDataCommand) (bytes : List ℕ)
      → command.options.bytes ≡ some bytes
      → 0 < command.last_chunk_length
      → command.current_index + command.last_chunk_length ≤ length bytes
      → Taken (length bytes - command.current_index) (advance command (length bytes))
  advance-Taken command bytes e some_bytes room =
      elim (Bool-cases (leb (length bytes) (command.current_index + command.last_chunk_length))) [
        | inl done ↦ inl (rw done refl)
        | inr more ↦ inr (rw more (omega (arith, ap size e)))
      ]

  take_progress-Taken :
      (command : WriteDataCommand) (result : DesfireResult) (o : Option (List ℕ))
      (context : DesfireContext)
      → command.options.bytes ≡ o
      → Parses (Taken (size o - command.current_index)) (take_progress command result o context)
  unfolding take_progress
  take_progress-Taken command result none context e = tt
  take_progress-Taken command result (some bytes) context e =
      elim (Bool-cases (
        (command.last_chunk_length == 0)
        || ltb (length bytes) (command.current_index + command.last_chunk_length))) [
          | inl bad ↦ rw bad tt
          | inr good ↦
              rw good (advance-Taken command bytes e (ground (arith, good)) (ground (arith, good)))
        ]

  progress_after-Taken :
      (command : WriteDataCommand) (result : DesfireResult) (o : Outcome (Unit {0}))
      → Parses
          (Taken (size command.options.bytes - command.current_index))
          (progress_after command result o)
  progress_after-Taken command result (ok done, context) =
      take_progress-Taken command result command.options.bytes context refl
  progress_after-Taken command result (err e, context) = tt
  progress_after-Taken command result (fault, context) = tt

  parse_writing-Taken :
      (command : WriteDataCommand) (answer : List ℕ) (context : DesfireContext)
      → Parses
          (Taken (size command.options.bytes - command.current_index))
          (parse_writing c command answer context)
  unfolding parse_writing
  parse_writing-Taken command [] context = tt
  parse_writing-Taken command (status ∷ rest) context =
      if-Parses (Taken (size command.options.bytes - command.current_index)) (not (status == 0x00))
        _ _ tt
        (if-Parses (Taken (size command.options.bytes - command.current_index))
          (ltb 256 (length rest)) _ _ tt
          (progress_after-Taken command _ (response_update c command (status ∷ rest) context)))

module _ (c : Ciphers) (context : DesfireContext) (o : Option (List ℕ)) (i : ℕ) where
  request_of-Placed :
      (command : WriteDataCommand) (n : ℕ) (r : Result (List ℕ))
      → Placed o i command
      → Ends (Placed o i) (request_of command n r)
  request_of-Placed command n (ok bytes) h = h
  request_of-Placed command n (err e) h = tt
  request_of-Placed command n fault h = tt

  enciphered_chunk-Placed :
      (n : ℕ) (command : WriteDataCommand) (r : Result (List ℕ × List ℕ))
      → Placed o i command
      → Ends (Placed o i) (enciphered_chunk n command r)
  enciphered_chunk-Placed n command (ok (payload, iv)) h =
      request_of-Placed (record command { pending_iv = iv; update_context_iv = true }) n
        (enciphered_data (chunk_header command n) payload) h
  enciphered_chunk-Placed n command (err e) h = tt
  enciphered_chunk-Placed n command fault h = tt

  build_chunk-Placed :
      (bytes : List ℕ) (n : ℕ) (command : WriteDataCommand)
      → Placed o i command
      → Ends (Placed o i) (build_chunk c context bytes n command)
  build_chunk-Placed bytes n command h =
      if-Ends (Placed o i) (command.active_settings == 0x03) _ _
        (enciphered_chunk-Placed n command _ h)
        (request_of-Placed (record command { update_context_iv = false; pending_iv = [] }) n _ h)

  build_bounded-Placed :
      (bytes : List ℕ) (cap : ℕ) (command : WriteDataCommand)
      → Placed o i command
      → Ends (Placed o i) (build_bounded c context bytes cap command)
  build_bounded-Placed bytes cap command h =
      if-Ends (Placed o i) (cap == 0) _ _ tt (build_chunk-Placed bytes _ command h)

  build_next-Placed :
      (data_ : Option (List ℕ)) (command : WriteDataCommand)
      → Placed o i command
      → Ends (Placed o i) (build_next c context data_ command)
  unfolding build_next
  build_next-Placed none command h = tt
  build_next-Placed (some bytes) command h =
      if-Ends (Placed o i) (leb (length bytes) command.current_index) _ _ tt
        (build_bounded-Placed bytes _ command h)

  parse-Taken :
      (command : WriteDataCommand) (answer : List ℕ)
      → Placed o i command
      → Parses (Taken c (size o - i)) (parse_staged c command.stage command answer context)
  parse-Taken command answer (same, stage, index) =
      subst (λ st. Parses (Taken c (size o - i)) (parse_staged c st command answer context))
        (sym stage)
        (subst (λ n. Parses (Taken c n) (parse_writing c command answer context))
          (ap₂ ◌-◌ (ap size same) index) (parse_writing-Taken c command answer context))

module _ (c : Ciphers) (context : DesfireContext) where
  start_writing-Placed :
      (command : WriteDataCommand) → Ends (Placed command.options.bytes 0) (start_writing command)
  start_writing-Placed command = (refl, refl, refl)

  open_session-Placed :
      (command : WriteDataCommand)
      → Ends (Placed command.options.bytes 0) (open_session context command)
  open_session-Placed command =
      let cipher = resolve_session_cipher context in
      if-Ends (Placed command.options.bytes 0) (has_no_session context) _ _ tt (
        if-Ends (Placed command.options.bytes 0) (is_unknown cipher) _ _ tt (
          start_writing-Placed (record command {
            session_cipher = cipher;
            legacy_des_crypto_mode = is_legacy_des_or_2k_session context;
          })))

  open_stage-Placed :
      (command : WriteDataCommand)
      → Ends (Placed command.options.bytes 0) (open_stage context command)
  unfolding open_stage
  open_stage-Placed command =
      let settings =
        resolve_communication_settings command.options.communication_settings context in
      let opened : WriteDataCommand =
        clear_session (record command { active_settings = settings }) in
      if-Ends (Placed command.options.bytes 0) (not (validate_options command.options)) _ _ tt (
        if-Ends (Placed command.options.bytes 0) (settings == 0x01) _ _ tt (
          if-Ends (Placed command.options.bytes 0) (settings == 0x03) _ _
            (open_session-Placed opened) (start_writing-Placed opened)))

  build_opened-Placed :
      (o : Option (List ℕ)) (opened : Result (Unit {0}) × WriteDataCommand)
      → Ends (Placed o 0) opened
      → Ends (Placed o 0) (build_opened c context opened)
  build_opened-Placed o (ok done, command) h =
      build_next-Placed c context o 0 command.options.bytes command h
  build_opened-Placed o (err e, command) h = tt
  build_opened-Placed o (fault, command) h = tt

  drops :
      (stage : Stage) (command : WriteDataCommand) (request : DesfireRequest) (answer : List ℕ)
      → command.stage ≡ stage
      → is_completed c stage ≡ false
      → (build_staged c context stage command).0 ≡ ok request
      → (let built = (build_staged c context stage command).1 in
          Parses
            (Taken c (left_at stage command))
            (parse_staged c built.stage built answer context))
  drops writing command request answer same going e =
      parse-Taken c context command.options.bytes command.current_index _ answer (
        ends_ok (Placed command.options.bytes command.current_index) _ request e (
          build_next-Placed c context command.options.bytes command.current_index
            command.options.bytes command (refl, same, refl)))
  drops initial command request answer same going e =
      let whole : size command.options.bytes - 0 ≡ size command.options.bytes = omega arith in
      rw (← whole) (
        parse-Taken c context command.options.bytes 0 _ answer (
          ends_ok (Placed command.options.bytes 0) _ request e (
            build_opened-Placed command.options.bytes (open_stage context command)
              (open_stage-Placed command))))
  drops completed command request answer same going e = cc

-- WriteData, plain or enciphered, ends with every card and wire, whatever is answered: with a fuel
-- two above the number of its bytes it succeeds, fails or faults.
pub write_data_stops :
    (c : Ciphers) (wire : WireKind) (t : IApduTransceiver) (fuel : ℕ) (command : WriteDataCommand)
    (link : t.Link) (context : DesfireContext)
    → size command.options.bytes + 1 < fuel
    → (end : Result (Unit {0}) × Run WriteDataCommand t.Link) × (execute_command wire t
          (write_data c)
          fuel
          command
          link
          context
        ≡ some end)
write_data_stops c wire t fuel command link context h =
    execute_command_stops wire t (write_data c)
      (record {
        measure = bytes_left;
        drops = λ s context request answer going e.
            drops c context s.stage s request answer refl going e;
      })
      fuel command link context h
