-- ===== src/Desfire/Authenticate/Guarded.antt =====
-- A session is opened by a card that decrypted RndA, and by nothing else.
use nfc_cpp.Base.{
  ℕ, ◌≡◌, refl, sym, subst, ap, ◌∙◌, ap₂, ==→eq, Bool, true, false, not, ◌&&◌, ◌==◌, ltb, List, [],
  ◌∷◌, length, if◌then◌else◌, Option, none, some, Error, Result, ok, err, fault, >>=-eq-ok,
  push_all, from_desfire,
}
use nfc_cpp.Base.Posts.{Post}
use nfc_cpp.Base.Codes.DesfireError
use nfc_cpp.Crypto.Ciphers.{Ciphers}
use nfc_cpp.Crypto.Keys.{rotate_right}
use nfc_cpp.Desfire.Context.{DesfireContext}
use nfc_cpp.Desfire.Command.{DesfireResult, is_success, is_additional_frame}
use nfc_cpp.Desfire.Authenticate.Keying.{AuthenticateCommandOptions, random_size, same_bytes}
use nfc_cpp.Desfire.Authenticate.Ciphering.{
  decrypt_confirmation, compare_confirmation, verify_auth_confirmation,
}
use nfc_cpp.Desfire.Authenticate.Stages.{
  initial, challenge_sent, complete, AuthenticateCommand, answer_challenge, check_confirmation,
  note_challenge, open_session, parse_challenge, parse_confirmation, parse_stage, parse_response,
  Parsed, settle,
}

-- What holds after parseResponse, of the command and the context that it leaves.
abbrev pub ParsePost :
    (DesfireResult → AuthenticateCommand × DesfireContext → Type 0)
    → (AuthenticateCommand × DesfireContext → Type 0)
    → Parsed
    → Type 0
ParsePost P Q parsed = Post P Q (parsed.0, (parsed.1, parsed.2))

if-ParsePost :
    (P : DesfireResult → AuthenticateCommand × DesfireContext → Type 0)
    (Q : AuthenticateCommand × DesfireContext → Type 0) (b : Bool) (x y : Parsed)
    → ParsePost P Q x
    → ParsePost P Q y
    → ParsePost P Q (if b then x else y)
if-ParsePost P Q true x y h k = h
if-ParsePost P Q false x y h k = k

settle-ParsePost :
    {A : Type 0} (P : DesfireResult → AuthenticateCommand × DesfireContext → Type 0)
    (Q : AuthenticateCommand × DesfireContext → Type 0) (command : AuthenticateCommand)
    (context : DesfireContext) (call : Result A) (leave : A → Parsed)
    → Q (command, context)
    → ((a : A) → call ≡ ok a → ParsePost P Q (leave a))
    → ParsePost P Q (settle command context call leave)
settle-ParsePost P Q command context (ok a) leave q h = h a refl
settle-ParsePost P Q command context (err e) leave q h = q
settle-ParsePost P Q command context fault leave q h = q

&&-true : (a b : Bool) → (a && b) ≡ true → (a ≡ true) × (b ≡ true)
&&-true true b h = (refl, h)
&&-true false b h = cc

pub same_bytes→eq : (xs ys : List ℕ) → same_bytes xs ys ≡ true → xs ≡ ys
same_bytes→eq [] [] h = refl
same_bytes→eq [] (y ∷ ys) h = cc
same_bytes→eq (x ∷ xs) [] h = cc
same_bytes→eq (x ∷ xs) (y ∷ ys) h =
    let (first, rest) = &&-true (x == y) (same_bytes xs ys) h in
    ap₂ ◌∷◌ (==→eq x y first) (same_bytes→eq xs ys rest)

ok-inj : {A : Type 0} {a b : A} → ok a ≡ ok b → a ≡ b
ok-inj h = cc

passed :
    {A : Type 0} (otherwise : Error) (rest : Result A) (out : A) (verified : Bool)
    → (if not verified then err otherwise else rest) ≡ ok out
    → verified ≡ true
passed otherwise rest out true h = refl
passed otherwise rest out false h = cc

module _ (c : Ciphers) where
  -- `bytes`, decrypted and turned, are `rnd_a`.
  abbrev pub Proves : AuthenticateCommandOptions → List ℕ → List ℕ → List ℕ → Type 0
  Proves options encrypted_response rnd_a bytes =
      (decrypted : List ℕ) × (decrypt_confirmation c options encrypted_response bytes
        ≡ ok (some decrypted))
      × (rotate_right decrypted 1 ≡ ok rnd_a)

  compared :
      (options : AuthenticateCommandOptions) (encrypted_response rnd_a bytes : List ℕ)
      (found : Option (List ℕ))
      → decrypt_confirmation c options encrypted_response bytes ≡ ok found
      → compare_confirmation rnd_a found ≡ ok true
      → Proves options encrypted_response rnd_a bytes
  unfolding compare_confirmation
  compared options encrypted_response rnd_a bytes none reads h = cc
  compared options encrypted_response rnd_a bytes (some decrypted) reads h =
      let (turned, turns, same) = >>=-eq-ok (rotate_right decrypted 1) _ h in
      (decrypted, reads, turns ∙ ap ok (same_bytes→eq turned rnd_a (ok-inj same)))

  verify_auth_confirmation-Proves :
      (options : AuthenticateCommandOptions) (encrypted_response rnd_a bytes : List ℕ)
      → verify_auth_confirmation c options encrypted_response rnd_a bytes ≡ ok true
      → Proves options encrypted_response rnd_a bytes
  unfolding verify_auth_confirmation
  verify_auth_confirmation-Proves options encrypted_response rnd_a bytes h =
      let (found, reads, rest) =
        >>=-eq-ok (decrypt_confirmation c options encrypted_response bytes)
          (compare_confirmation rnd_a) h in
      compared options encrypted_response rnd_a bytes found reads rest

  -- A confirmation that is accepted decrypts to `rnd_a`, turned.
  pub check_confirmation-Proves :
      (command : AuthenticateCommand) (bytes : List ℕ) (confirmed : List ℕ × List ℕ)
      → check_confirmation c command bytes ≡ ok confirmed
      → Proves command.options command.encrypted_response command.rnd_a bytes
  unfolding check_confirmation
  check_confirmation-Proves command bytes confirmed h =
      let (verified, reads, rest) =
        >>=-eq-ok
          (verify_auth_confirmation c command.options command.encrypted_response command.rnd_a
            bytes)
          _ h in
      verify_auth_confirmation-Proves command.options command.encrypted_response command.rnd_a bytes
        (reads ∙ ap ok (passed _ _ _ verified rest))

  module _ (command : AuthenticateCommand) (context : DesfireContext) where
    abbrev pub Unchanged : AuthenticateCommand × DesfireContext → Type 0
    Unchanged (command', context') = context' ≡ context

    -- The challenge has been answered.
    abbrev pub Answered : DesfireResult → AuthenticateCommand × DesfireContext → Type 0
    Answered result (command', context') =
        (bytes : List ℕ) × (answered : List ℕ × List ℕ × List ℕ × List ℕ) × (answer_challenge c
            command bytes
          ≡ ok answered)
        × (command' ≡ note_challenge command answered)
        × (context' ≡ context)
        × (result.status_code ≡ 0xAF)

    -- The confirmation has been accepted.
    abbrev pub Confirmed : DesfireResult → AuthenticateCommand × DesfireContext → Type 0
    Confirmed result (command', context') =
        (bytes : List ℕ) × (confirmed : List ℕ × List ℕ) × (check_confirmation c command bytes
          ≡ ok confirmed)
        × (command'.stage ≡ complete)
        × (context' ≡ open_session command.options confirmed.1 command.encrypted_challenge context)
        × (result.status_code ≡ 0x00)

    parse_challenge-Answered :
        (bytes : List ℕ) → ParsePost Answered Unchanged (parse_challenge c command bytes context)
    unfolding parse_challenge
    parse_challenge-Answered bytes =
        let call = answer_challenge c command bytes in
        let leave : List ℕ × List ℕ × List ℕ × List ℕ → Parsed = λ answered. (
          ok (record { status_code = 0xAF; result_data = [] }),
          note_challenge command answered,
          context,
        ) in
        if-ParsePost Answered Unchanged (ltb (length bytes) (random_size command.options))
          (err (from_desfire DesfireError.invalid_response), command, context)
          (settle command context call leave) refl
          (settle-ParsePost Answered Unchanged command context call leave refl
            (λ answered e. (bytes, answered, e, refl, refl, refl)))

    parse_confirmation-Confirmed :
        (bytes : List ℕ)
        → ParsePost Confirmed Unchanged (parse_confirmation c command bytes context)
    unfolding parse_confirmation
    parse_confirmation-Confirmed bytes =
        let call = check_confirmation c command bytes in
        let leave : List ℕ × List ℕ → Parsed = λ confirmed. (
          ok (record { status_code = 0x00; result_data = [] }),
          record command { rnd_b = confirmed.0; stage = complete },
          open_session command.options confirmed.1 command.encrypted_challenge context,
        ) in
        if-ParsePost Confirmed Unchanged (ltb (length bytes) (random_size command.options))
          (err (from_desfire DesfireError.invalid_response), command, context)
          (settle command context call leave) refl
          (settle-ParsePost Confirmed Unchanged command context call leave refl
            (λ confirmed e. (bytes, confirmed, e, refl, refl, refl)))

    -- What the switch on the stage does holds of the whole of parseResponse.
    parse_response-ParsePost :
        (P : DesfireResult → AuthenticateCommand × DesfireContext → Type 0)
        → ((bytes : List ℕ)
            → ParsePost P Unchanged (parse_stage c command.stage command bytes context))
        → (response : List ℕ) → ParsePost P Unchanged (parse_response c command response context)
    unfolding parse_response
    parse_response-ParsePost P h [] = refl
    parse_response-ParsePost P h (status ∷ response) =
        if-ParsePost P Unchanged
          (not (is_success (record { status_code = status; result_data = [] }))
            && not (is_additional_frame (record { status_code = status; result_data = [] })))
          (err (from_desfire status), command, context)
          (settle command context (push_all 256 [] response)
            (λ bytes. parse_stage c command.stage command bytes context))
          refl
          (settle-ParsePost P Unchanged command context (push_all 256 [] response)
            (λ bytes. parse_stage c command.stage command bytes context) refl (λ bytes e. h bytes))

    pub parse_response-Answered :
        command.stage ≡ initial
        → (response : List ℕ)
        → ParsePost Answered Unchanged (parse_response c command response context)
    unfolding parse_stage
    parse_response-Answered h = parse_response-ParsePost Answered (λ bytes.
        subst (λ s. ParsePost Answered Unchanged (parse_stage c s command bytes context)) (sym h)
          (parse_challenge-Answered bytes))

    pub parse_response-Confirmed :
        command.stage ≡ challenge_sent
        → (response : List ℕ)
        → ParsePost Confirmed Unchanged (parse_response c command response context)
    unfolding parse_stage
    parse_response-Confirmed h = parse_response-ParsePost Confirmed (λ bytes.
        subst (λ s. ParsePost Confirmed Unchanged (parse_stage c s command bytes context)) (sym h)
          (parse_confirmation-Confirmed bytes))
