-- ===== src/Desfire/Policy/Frame.antt =====
-- What the operations leave alone.
use nfc_cpp.Base.{
  not, ◌-◌, ◌==◌, inl, inr, Bool-cases, ℕ, ◌≡◌, refl, arith, Bool, true, false, List, [], ◌∷◌,
  length, Error, if◌then◌else◌, Result, ok, err, fault,
}
use nfc_cpp.Crypto.Ciphers.{Ciphers}
use nfc_cpp.Desfire.Context.{DesfireContext, set_context_iv}
use nfc_cpp.Desfire.Policy.{
  Outcome, commit_iv, apply_legacy_command_boundary_iv_policy, IvMode, iv_mode, no_mode,
  legacy_mode, aes_mode, tktdes_mode,
}
use nfc_cpp.Desfire.Policy.{
  update_context_iv_for_plain_command, verify_payload_and_update_context_iv,
}
use nfc_cpp.Desfire.Policy.{try_mac_lengths, verify_payload_auto_mac_and_update_context_iv}
use nfc_cpp.Desfire.Policy.{update_context_iv_for_value_operation_response}
use nfc_cpp.Desfire.Policy.{update_context_iv_from_encrypted_ciphertext, trailing_block_iv}

-- Only the IV may differ, and an error changes nothing at all.
pub record IsFramed {A : Type 0} (context : DesfireContext) (o : Outcome A) : Type 0 where
  pub only_iv : o.1 ≡ record context { iv = o.1.iv }
  pub on_error : (e : Error) → o.0 ≡ err e → o.1 ≡ context

pub kept : {A : Type 0} (context : DesfireContext) (r : Result A) → IsFramed context (r, context)
kept context r = record { only_iv = refl; on_error = λ e h. refl }

commit_iv-IsFramed :
    {A : Type 0} (context : DesfireContext) (value : A) (r : Result (List ℕ))
    → IsFramed context (commit_iv context value r)
unfolding commit_iv
commit_iv-IsFramed context value (err e) = kept context (err e)
commit_iv-IsFramed context value fault = kept context fault
commit_iv-IsFramed context value (ok iv) = record {
  only_iv = unfold set_context_iv in ground arith;
  on_error = λ e h. unfold set_context_iv in ground arith;
}

pub legacy-IsFramed :
    (context : DesfireContext)
    → IsFramed {A = Unit {0}} context (ok tt, apply_legacy_command_boundary_iv_policy context)
unfolding apply_legacy_command_boundary_iv_policy
legacy-IsFramed context = record { only_iv = ground arith; on_error = λ e h. cc }

pub if-IsFramed :
    {A : Type 0} (context : DesfireContext) (b : Bool) {x y : Outcome A}
    → IsFramed context x
    → IsFramed context y
    → IsFramed context (if b then x else y)
if-IsFramed context true h k = h
if-IsFramed context false h k = k

trailing-IsFramed :
    (context : DesfireContext) (ciphertext : List ℕ) (size : ℕ)
    → IsFramed context (trailing_block_iv context ciphertext size)
unfolding trailing_block_iv
trailing-IsFramed context ciphertext size = search (if-IsFramed, kept, commit_iv-IsFramed)

pub data ModeView (m : IvMode) : Type 0 where
  in_no_mode : m ≡ no_mode → ModeView m
  in_legacy_mode : m ≡ legacy_mode → ModeView m
  in_aes_mode : m ≡ aes_mode → ModeView m
  in_tktdes_mode : m ≡ tktdes_mode → ModeView m

pub mode_view : (m : IvMode) → ModeView m
mode_view no_mode = in_no_mode refl
mode_view legacy_mode = in_legacy_mode refl
mode_view aes_mode = in_aes_mode refl
mode_view tktdes_mode = in_tktdes_mode refl

ruleset framing = (if-IsFramed, kept, commit_iv-IsFramed, legacy-IsFramed, trailing-IsFramed)

-- Taking the IV from a ciphertext changes at most the IV of the session, and an error changes
-- nothing.
pub update_context_iv_from_encrypted_ciphertext-IsFramed :
    (context : DesfireContext) (ciphertext : List ℕ)
    → IsFramed context (update_context_iv_from_encrypted_ciphertext context ciphertext)
unfolding update_context_iv_from_encrypted_ciphertext
update_context_iv_from_encrypted_ciphertext-IsFramed context ciphertext =
    elim (mode_view (iv_mode context)) [
      | in_no_mode e ↦ rw e (search (framing))
      | in_legacy_mode e ↦ rw e (search (framing))
      | in_aes_mode e ↦ rw e (search (framing))
      | in_tktdes_mode e ↦ rw e (search (framing))
    ]

module _ (c : Ciphers) where
  -- The IV update after a plain command changes at most the IV of the session, and an error
  -- changes nothing.
  pub update_context_iv_for_plain_command-IsFramed :
      (context : DesfireContext) (request response : List ℕ) (n : ℕ)
      → IsFramed context (update_context_iv_for_plain_command c context request response n)
  unfolding update_context_iv_for_plain_command
  update_context_iv_for_plain_command-IsFramed context request response n =
      elim (mode_view (iv_mode context)) [
        | in_no_mode e ↦ rw e (search (framing))
        | in_legacy_mode e ↦ rw e (search (framing))
        | in_aes_mode e ↦ rw e (search (framing))
        | in_tktdes_mode e ↦ rw e (search (framing))
      ]

  -- The IV update after a value operation changes at most the IV of the session, and an error
  -- changes nothing.
  pub update_context_iv_for_value_operation_response-IsFramed :
      (context : DesfireContext) (response request_state : List ℕ)
      → IsFramed context
          (update_context_iv_for_value_operation_response c context response request_state)
  unfolding update_context_iv_for_value_operation_response
  update_context_iv_for_value_operation_response-IsFramed context response request_state =
      elim (mode_view (iv_mode context)) [
        | in_no_mode e ↦ rw e (search (framing))
        | in_legacy_mode e ↦ rw e (search (framing))
        | in_aes_mode e ↦ rw e (search (framing))
        | in_tktdes_mode e ↦ rw e (search (framing))
      ]

  module _ (payload_and_mac : List ℕ) (status : ℕ) (request_iv : List ℕ) (payload_length : ℕ) where
    -- The same of the verification of a payload with a MAC of a given length.
    pub verify_payload_and_update_context_iv-IsFramed :
        (context : DesfireContext) (n : ℕ)
        → IsFramed context (
            verify_payload_and_update_context_iv c context payload_and_mac status request_iv
              payload_length n)
    unfolding verify_payload_and_update_context_iv
    verify_payload_and_update_context_iv-IsFramed context n = elim (mode_view (iv_mode context)) [
      | in_no_mode e ↦ rw e (search (framing))
      | in_legacy_mode e ↦ rw e (search (framing))
      | in_aes_mode e ↦ rw e (search (framing))
      | in_tktdes_mode e ↦ rw e (search (framing))
    ]

    try-IsFramed :
        (context : DesfireContext) (ns : List ℕ)
        → IsFramed context
            (try_mac_lengths c context payload_and_mac status request_iv payload_length ns)
    unfolding try_mac_lengths
    try-IsFramed context [] = kept context _
    try-IsFramed context (n ∷ ns) =
        let here = verify_payload_and_update_context_iv-IsFramed context n in
        let rest = try-IsFramed context ns in
        elim (Bool-cases (not (length payload_and_mac - payload_length == n))) [
          | inl e ↦ rw (e, try_mac_lengths) rest
          | inr e ↦ rw (e, try_mac_lengths) (tried _ _ here rest)
        ]
      where
        tried :
            (result : Result (Unit {0})) (after : DesfireContext)
            → IsFramed context (result, after)
            → IsFramed context
                (try_mac_lengths c context payload_and_mac status request_iv payload_length ns)
            → IsFramed context (elim result [
              | ok done ↦ (ok n, after)
              | err e ↦ try_mac_lengths c after payload_and_mac status request_iv payload_length ns
              | fault ↦ (fault, after)
            ])
        tried (ok done) after here rest = record { only_iv = here.only_iv; on_error = λ e h. cc }
        tried (err e) after here rest = rw (here.on_error e refl) rest
        tried fault after here rest = record { only_iv = here.only_iv; on_error = λ e h. cc }

    -- Verifying a payload with the MAC length among 8, 4 and 0 that was received changes at most
    -- the IV of the session, and an error changes nothing.
    pub verify_payload_auto_mac_and_update_context_iv-IsFramed :
        (context : DesfireContext)
        → IsFramed context (
            verify_payload_auto_mac_and_update_context_iv c context payload_and_mac status
              request_iv payload_length)
    unfolding verify_payload_auto_mac_and_update_context_iv
    verify_payload_auto_mac_and_update_context_iv-IsFramed context = search (framing, try-IsFramed)
