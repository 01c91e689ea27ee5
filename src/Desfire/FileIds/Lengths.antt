-- ===== src/Desfire/FileIds/Lengths.antt =====
-- The length that GetFileIDs finds for the file numbers of an answer.
use nfc_cpp.Base.{
  ℕ, ◌+◌, ◌-◌, ◌≤◌, ◌≡◌, refl, sym, subst, arith, Bool, true, false, ◌&&◌, ltb, leb, List, [], ◌∷◌,
  length, take, All, inl, inr, Bool-cases, if◌then◌else◌, Result, ok, err, fault,
}
use nfc_cpp.Base.Codes.DesfireError
use nfc_cpp.Crypto.Ciphers.{Ciphers}
use nfc_cpp.Desfire.Context.{DesfireContext}
use nfc_cpp.Desfire.Policy.{Outcome, refuse}
use nfc_cpp.Desfire.Policy.Frame.{
  IsFramed, kept, verify_payload_auto_mac_and_update_context_iv-IsFramed,
}
use nfc_cpp.Desfire.FileIds.{
  GetFileIdsCommand, are_file_numbers, is_plausible_file_id_payload, unverified_length,
  try_candidates, data_length,
}

abbrev pub IsFileNumber : ℕ → Type 0
IsFileNumber b = b ≤ 0x1F

-- The first `n` bytes are at most 32 file numbers, and what follows is no longer than a MAC.
pub record IsListing (payload : List ℕ) (n : ℕ) : Type 0 where
  pub few : n ≤ 32
  pub within : n ≤ length payload
  pub rest_short : length payload ≤ n + 8
  pub numbers : All IsFileNumber (take n payload)

are_file_numbers-All : (bs : List ℕ) → are_file_numbers bs ≡ true → All IsFileNumber bs
unfolding are_file_numbers
are_file_numbers-All [] h = tt
are_file_numbers-All (b ∷ bs) h = elim (Bool-cases (ltb 0x1F b)) [
  | inl big ↦ cc
  | inr small ↦ (ground arith, are_file_numbers-All bs (rw (sym h, small) refl))
]

plausible-IsListing :
    (payload : List ℕ) (n : ℕ)
    → is_plausible_file_id_payload payload n ≡ true
    → length payload ≤ n + 8
    → IsListing payload n
unfolding is_plausible_file_id_payload
plausible-IsListing payload n h short = record {
  few = ground arith;
  within = ground arith;
  rest_short = short;
  numbers = are_file_numbers-All (take n payload) (ground arith);
}

and_both : (a b : Bool) → (a && b) ≡ true → (a ≡ true) × (b ≡ true)
and_both true b h = (refl, h)
and_both false b h = cc

-- A length that is found behind the room that it leaves for a MAC.
candidate-IsListing :
    (payload : List ℕ) (mac : ℕ)
    → mac ≤ 8
    → (leb mac (length payload) && is_plausible_file_id_payload payload (length payload - mac))
      ≡ true
    → IsListing payload (length payload - mac)
candidate-IsListing payload mac short h =
    plausible-IsListing payload _ (and_both _ _ h).1 (omega (arith, short))

pub ok-inj : {A : Type 0} {a b : A} → ok a ≡ ok b → a ≡ b
ok-inj h = cc

offered-IsListing :
    (payload : List ℕ) (k n : ℕ) (test : Bool) (otherwise : Result ℕ)
    → (test ≡ true → IsListing payload k)
    → (otherwise ≡ ok n → IsListing payload n)
    → (if test then ok k else otherwise) ≡ ok n
    → IsListing payload n
offered-IsListing payload k n true otherwise here there e =
    subst (IsListing payload) (ok-inj e) (here refl)
offered-IsListing payload k n false otherwise here there e = there e

whole-IsListing :
    (payload : List ℕ)
    → is_plausible_file_id_payload payload (length payload) ≡ true
    → IsListing payload (length payload)
whole-IsListing payload h = plausible-IsListing payload _ h (omega arith)

unverified_length-IsListing :
    (payload : List ℕ) (n : ℕ) → unverified_length payload ≡ ok n → IsListing payload n
unfolding unverified_length
unverified_length-IsListing payload n =
    offered-IsListing payload _ n _ _ (whole-IsListing payload) (
      offered-IsListing payload _ n _ _ (candidate-IsListing payload 8 (omega arith))
        (offered-IsListing payload _ n _ _ (candidate-IsListing payload 4 (omega arith)) (λ e. cc)))

-- The length that is found, and the session that is left.
pub record IsMeasured (payload : List ℕ) (context : DesfireContext) (o : Outcome ℕ) : Type 0 where
  pub framed : IsFramed context o
  pub listing : (n : ℕ) → o.0 ≡ ok n → IsListing payload n

err-IsMeasured :
    (payload : List ℕ) (context : DesfireContext) (r : Result ℕ)
    → ((n : ℕ) → r ≡ ok n → IsListing payload n)
    → IsMeasured payload context (r, context)
err-IsMeasured payload context r h = record { framed = kept context r; listing = h }

module _ (c : Ciphers) (command : GetFileIdsCommand) where
  abbrev payload : List ℕ
  payload = command.raw_payload

  -- One candidate: the verification's outcome, and the candidates after it.
  verified-IsMeasured :
      (context : DesfireContext) (n : ℕ) (rest : DesfireContext → Outcome ℕ) (o : Outcome ℕ)
      → IsFramed context o
      → IsListing payload n
      → ((context' : DesfireContext) → IsMeasured payload context' (rest context'))
      → IsMeasured payload context
          (elim o.0 [ ok found ↦ (ok n, o.1) | err e ↦ rest o.1 | fault ↦ (fault, o.1) ])
  verified-IsMeasured context n rest (ok found, context') h k next = record {
    framed = record { only_iv = h.only_iv; on_error = λ e x. cc };
    listing = λ m x. subst (IsListing payload) (ok-inj x) k;
  }
  verified-IsMeasured context n rest (err e, context') h k next =
      subst (λ x. IsMeasured payload context (rest x)) (sym (h.on_error e refl)) (next context)
  verified-IsMeasured context n rest (fault, context') h k next = record {
    framed = record { only_iv = h.only_iv; on_error = λ e x. cc };
    listing = λ m x. cc;
  }

  try_candidates-IsMeasured :
      (macs : List ℕ)
      → All (λ m. m ≤ 8) macs
      → (context : DesfireContext)
      → IsMeasured payload context (try_candidates c command context macs)
  unfolding try_candidates
  try_candidates-IsMeasured [] h context = err-IsMeasured payload context _ (λ n x. cc)
  try_candidates-IsMeasured (mac ∷ macs) (h, hs) context =
      let n = length payload - mac in
      elim (Bool-cases (leb mac (length payload) && is_plausible_file_id_payload payload n)) [
        | inl fits ↦
            rw (try_candidates, fits)
              (verified-IsMeasured context n (λ x. try_candidates c command x macs) _
                (verify_payload_auto_mac_and_update_context_iv-IsFramed c payload 0x00
                  command.request_iv n context)
                (candidate-IsListing payload mac h fits) (try_candidates-IsMeasured macs hs))
        | inr fails ↦ rw (try_candidates, fails) (try_candidates-IsMeasured macs hs context)
      ]

  whole-IsMeasured :
      (context : DesfireContext) (plausible : Bool)
      → (plausible ≡ true → IsListing payload (length payload))
      → IsMeasured payload context (
          if plausible
          then (ok (length payload), context)
          else refuse context DesfireError.invalid_response)
  whole-IsMeasured context true h =
      err-IsMeasured payload context _ (λ n e. subst (IsListing payload) (ok-inj e) (h refl))
  whole-IsMeasured context false h = err-IsMeasured payload context _ (λ n e. cc)

  if-IsMeasured :
      (context : DesfireContext) (test : Bool) {x y : Outcome ℕ}
      → IsMeasured payload context x
      → IsMeasured payload context y
      → IsMeasured payload context (if test then x else y)
  if-IsMeasured context true h k = h
  if-IsMeasured context false h k = k

  pub data_length-IsMeasured :
      (context : DesfireContext) → IsMeasured payload context (data_length c command context)
  unfolding data_length
  data_length-IsMeasured context =
      if-IsMeasured context _
        (try_candidates-IsMeasured (8 ∷ 4 ∷ 0 ∷ []) (omega arith, (omega arith, (omega arith, tt)))
          context)
        (if-IsMeasured context _
          (err-IsMeasured payload context _ (unverified_length-IsListing payload))
          (whole-IsMeasured context _ (whole-IsListing payload)))
