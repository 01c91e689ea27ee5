-- ===== src/Desfire/FreeMemory/Runs.antt =====
-- DesfireCard::freeMemory, over any wire and any card.
use nfc_cpp.Base.{
  ℕ, suc, ◌+◌, ◌*◌, ◌/◌, ◌%◌, ◌^◌, ◌<◌, ◌≡◌, refl, ap, ◌∙◌, arith, true, false, ◌==◌, ltb,
  Bool-cases, inl, inr, ◌⊎◌, List, [], ◌∷◌, length, some, Error, Result, ok, err, fault, slice,
  Bool, if◌then◌else◌, ◌&&◌,
}
use nfc_cpp.Base.Bits.{bit_and-byte, bit_or-above}
use nfc_cpp.Crypto.Ciphers.{Ciphers}
use nfc_cpp.Crypto.Words.{le24}
use nfc_cpp.Wire.{WireKind, wrap}
use nfc_cpp.Desfire.Context.{DesfireContext}
use nfc_cpp.Desfire.Policy.{Outcome}
use nfc_cpp.Desfire.Command.{DesfireResult, is_success}
use nfc_cpp.Desfire.FreeMemory.{
  FreeMemoryCommand, FreeMemoryStage, initial, finished, free_memory, build_free_memory,
  parse_free_memory, parse_le24, unverified_payload, decode_payload, keep_request_iv, take_payload,
  take_count,
}
use nfc_cpp.Desfire.Card.{IApduTransceiver, execute_command, check_status}
use nfc_cpp.Desfire.Card.Round.{conclude, execute_round-after}
use nfc_cpp.Desfire.Card.OneFrame.{IsOneFrame, execute_command-execute_round}

-- A parseResponse that succeeds has finished the command.
abbrev Finishes : Result DesfireResult × FreeMemoryCommand × DesfireContext → Type 0
Finishes parsed = (result : DesfireResult) → parsed.0 ≡ ok result → parsed.1.stage ≡ finished

take_count-Finishes :
    (command : FreeMemoryCommand) (payload : List ℕ) (context : DesfireContext) (r : Result ℕ)
    → Finishes (take_count command payload context r)
take_count-Finishes command payload context (ok n) result e = refl
take_count-Finishes command payload context (err x) result e = cc
take_count-Finishes command payload context fault result e = cc

take_payload-Finishes :
    (command : FreeMemoryCommand) (o : Outcome (List ℕ)) → Finishes (take_payload command o)
take_payload-Finishes command (ok payload, context) =
    take_count-Finishes command payload context (parse_le24 payload)
take_payload-Finishes command (err x, context) = λ result e. cc
take_payload-Finishes command (fault, context) = λ result e. cc

refused-Finishes :
    (command : FreeMemoryCommand) (context : DesfireContext) (x : Error)
    → Finishes (err x, command, context)
refused-Finishes command context x result e = cc

stage_view : (s : FreeMemoryStage) → (s ≡ initial) ⊎ (s ≡ finished)
stage_view initial = inl refl
stage_view finished = inr refl

module _ (c : Ciphers) where
  parse_free_memory-Finishes :
      (command : FreeMemoryCommand) (response : List ℕ) (context : DesfireContext)
      → Finishes (parse_free_memory c command response context)
  unfolding parse_free_memory
  parse_free_memory-Finishes command [] context = elim (stage_view command.stage) [
    | inl e ↦ rw e (refused-Finishes (record command { stage = initial }) context _)
    | inr e ↦ rw e (refused-Finishes (record command { stage = finished }) context _)
  ]
  parse_free_memory-Finishes command (status ∷ bytes) context = elim (stage_view command.stage) [
    | inr e ↦ rw e (refused-Finishes (record command { stage = finished }) context _)
    | inl e ↦ rw e (elim (Bool-cases (status == 0x00)) [
      | inr other ↦ rw other (refused-Finishes (record command { stage = initial }) context _)
      | inl zero_status ↦ rw zero_status (elim (Bool-cases (ltb 16 (length bytes))) [
        | inl long ↦ rw long (refused-Finishes (record command { stage = initial }) context _)
        | inr short ↦ rw short (take_payload-Finishes (record command { stage = initial }) _)
      ])
    ])
  ]

  free_memory-IsOneFrame : IsOneFrame (free_memory c)
  free_memory-IsOneFrame = record {
    starts = λ s. refl;
    ends = λ s response context result e.
        ap (λ stage. elim stage [ initial ↦ false | finished ↦ true ])
          (parse_free_memory-Finishes s response context result e);
  }

parse_le24-le24 : (n : ℕ) → n < 2 ^ 24 → parse_le24 (le24 n) ≡ ok n
unfolding parse_le24 le24
parse_le24-le24 n h =
    rw
      (
        bit_and-byte n,
        bit_and-byte (n / 2 ^ 8),
        bit_and-byte (n / 2 ^ 16),
        bit_or-above 8 (n / 2 ^ 8 % 256) (n % 256) (omega arith),
        bit_or-above 16 (n / 2 ^ 16 % 256) (n / 2 ^ 8 % 256 * 2 ^ 8 + n % 256) (omega arith),
      )
      (ap ok (omega arith))

abbrev holding : FreeMemoryStage → ℕ → List ℕ → FreeMemoryCommand
holding stage n payload = record {
  stage = stage;
  free_memory_bytes = n;
  raw_payload = payload;
  request_iv = [];
  has_request_iv = false;
}

module _ (c : Ciphers) (context : DesfireContext) (outside : context.authenticated ≡ false) where
  if-false : {A : Type 0} (b : Bool) (x y : A) → b ≡ false → (if b then x else y) ≡ y
  if-false true x y h = cc
  if-false false x y h = refl

  builds : build_free_memory c (holding initial 0 []) context ≡ (
    ok (record { command_code = 0x6E; request_data = []; expected_response_length = 0 }),
    holding initial 0 [],
  )
  unfolding build_free_memory
  builds = ap (keep_request_iv (holding initial 0 [])) (if-false context.authenticated _ _ outside)

  decodes :
      (n : ℕ) → decode_payload c (holding initial 0 []) (le24 n) context ≡ (ok (le24 n), context)
  unfolding decode_payload unverified_payload le24 slice
  decodes n = if-false (context.authenticated && false) _ _ (rw outside refl)

  parses :
      (n : ℕ)
      → n < 2 ^ 24
      → parse_free_memory c (holding initial 0 []) (0x00 ∷ le24 n) context ≡ (
        ok (record { status_code = 0x00; result_data = le24 n }),
        holding finished n (le24 n),
        context,
      )
  unfolding parse_free_memory slice le24
  parses n h =
      ap (take_payload (holding initial 0 [])) (decodes n)
      ∙ ap (take_count (holding initial 0 []) (le24 n) context) (parse_le24-le24 n h)

  module _ (wire : WireKind) (t : IApduTransceiver) where
    concludes :
        (n : ℕ) (next : t.Link)
        → n < 2 ^ 24
        → conclude wire t
            (free_memory c)
            (0x00 ∷ le24 n)
            (record { command = holding initial 0 []; link = next; context = context })
          ≡ (
            ok tt,
            record { command = holding finished n (le24 n); link = next; context = context },
          )
    unfolding check_status is_success
    concludes n next h = rw (parses n h) refl

    -- Outside a session, a card that answers FreeMemory with status 0x00 and a number below 2^24
    -- in three bytes, the lowest first, is understood after one round: the call succeeds with that
    -- number, and the session's context is as it was.
    pub execute_command-free_memory :
        (fuel n : ℕ) (command : FreeMemoryCommand) (apdu : List ℕ) (link next : t.Link)
        → n < 2 ^ 24
        → wrap wire (0x6E ∷ []) ≡ ok apdu
        → t.transceive link apdu ≡ (ok (0x00 ∷ le24 n), next)
        → execute_command wire t (free_memory c) (suc (suc fuel)) command link context
          ≡ some (
            ok tt,
            record { command = holding finished n (le24 n); link = next; context = context },
          )
    execute_command-free_memory fuel n command apdu link next h wraps sends =
        execute_command-execute_round wire t (free_memory c) (free_memory-IsOneFrame c) fuel command
          link context
        ∙ ap some (
            execute_round-after wire t (free_memory c)
              (record { command = holding initial 0 []; link = link; context = context })
              (holding initial 0 []) _ apdu (ok (0x00 ∷ le24 n)) next builds (omega arith) wraps
              sends
            ∙ concludes n next h)
