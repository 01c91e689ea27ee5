-- ===== src/Desfire/FileIds/Listing.antt =====
-- What GetFileIDs reports of a card's answer.
use nfc_cpp.Base.{
  ℕ, ◌≡◌, refl, sym, subst, arith, ltb, List, [], ◌∷◌, length, take, inl, inr, Bool-cases, Error,
  le→ltb, ==→eq, ◌==◌, take-length, ◌⊎◌, Result, ok, err, fault,
}
use nfc_cpp.Desfire.Command.{DesfireResult}
use nfc_cpp.Crypto.Ciphers.{Ciphers}
use nfc_cpp.Desfire.Context.{DesfireContext}
use nfc_cpp.Desfire.Policy.{Outcome}
use nfc_cpp.Desfire.Policy.Frame.{IsFramed, kept}
use nfc_cpp.Desfire.FileIds.{
  GetFileIdsCommand, FileIdsStage, initial, finished, take_payload, data_length, parse_file_ids,
  list_files,
}
use nfc_cpp.Desfire.FileIds.Lengths.{IsListing, IsMeasured, data_length-IsMeasured, ok-inj}

-- What parseResponse leaves: at most the IV of the session is new, and on success the command is
-- complete and holds a listing of the answer.
pub record IsListed (response : List ℕ) (context : DesfireContext)
    (parsed : Result DesfireResult × GetFileIdsCommand × DesfireContext) : Type 0 where
  pub framed : IsFramed context (parsed.0, parsed.2)
  pub listed :
      (result : DesfireResult)
      → parsed.0 ≡ ok result
      → (bytes : List ℕ) × (response ≡ 0x00 ∷ bytes)
        × ((n : ℕ) × IsListing bytes n
            × (parsed.1.file_ids ≡ take n bytes)
            × (result ≡ record { status_code = 0x00; result_data = take n bytes })
            × (parsed.1.stage ≡ finished))

stage_view : (s : FileIdsStage) → (s ≡ initial) ⊎ (s ≡ finished)
stage_view initial = inl refl
stage_view finished = inr refl

refused-IsListed :
    (response : List ℕ) (context : DesfireContext) (command : GetFileIdsCommand) (e : Error)
    → IsListed response context (err e, command, context)
refused-IsListed response context command e = record {
  framed = kept context (err e);
  listed = λ result h. cc;
}

list_files-IsListed :
    (bytes : List ℕ) (context : DesfireContext) (command : GetFileIdsCommand) (o : Outcome ℕ)
    → command.raw_payload ≡ bytes
    → IsMeasured bytes context o
    → IsListed (0x00 ∷ bytes) context (list_files command o)
list_files-IsListed bytes context command (fault, context') e h = record {
  framed = record { only_iv = h.framed.only_iv; on_error = λ x k. cc };
  listed = λ result k. cc;
}
list_files-IsListed bytes context command (err x, context') e h = record {
  framed = record { only_iv = h.framed.only_iv; on_error = λ x' k. h.framed.on_error x refl };
  listed = λ result k. cc;
}
list_files-IsListed bytes context command (ok n, context') e h =
    let found = h.listing n refl in
    rw (le→ltb 32 n found.few, e)
      (record {
        framed = record { only_iv = h.framed.only_iv; on_error = λ x k. cc };
        listed = λ result k. (bytes, refl, (n, found, refl, sym (ok-inj k), refl));
      })

module _ (c : Ciphers) where
  take_payload-IsListed :
      (command : GetFileIdsCommand) (bytes : List ℕ) (context : DesfireContext)
      → IsListed (0x00 ∷ bytes) context (take_payload c command bytes context)
  take_payload-IsListed command bytes context = elim (Bool-cases (ltb 40 (length bytes))) [
    | inl long ↦ rw long (refused-IsListed (0x00 ∷ bytes) context _ _)
    | inr short ↦
        let whole : take 40 bytes ≡ bytes = take-length bytes 40 (ground arith) in
        rw short (
          list_files-IsListed bytes context _ _ whole (
            subst
              (λ x.
                IsMeasured x context
                  (data_length c (record command { raw_payload = take 40 bytes }) context))
              whole (data_length-IsMeasured c _ context)))
  ]

  -- parseResponse of GetFileIDs, on any answer and in any session, changes at most the IV of the
  -- session, and nothing if it reports an error. If it succeeds, the answer has status 0x00, the
  -- command is complete, and the file numbers that it holds and returns are the first bytes of the
  -- answer: at most 32, each at most 0x1F, and at most 8 bytes follow them.
  pub parse_file_ids-IsListed :
      (command : GetFileIdsCommand) (response : List ℕ) (context : DesfireContext)
      → IsListed response context (parse_file_ids c command response context)
  unfolding parse_file_ids
  parse_file_ids-IsListed command [] context = elim (stage_view command.stage) [
    | inl e ↦ rw e (refused-IsListed [] context _ _)
    | inr e ↦ rw e (refused-IsListed [] context _ _)
  ]
  parse_file_ids-IsListed command (status ∷ bytes) context = elim (stage_view command.stage) [
    | inl e ↦ rw e (elim (Bool-cases (status == 0x00)) [
      | inl zero_status ↦
          rw (==→eq status 0 zero_status)
            (take_payload-IsListed (record command { stage = initial }) bytes context)
      | inr other ↦ rw other (refused-IsListed (status ∷ bytes) context _ _)
    ])
    | inr e ↦ rw e (refused-IsListed (status ∷ bytes) context _ _)
  ]
