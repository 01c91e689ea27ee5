-- ===== src/Desfire/FileIds/Runs.antt =====
-- DesfireCard::getFileIds, over any wire and any card.
use nfc_cpp.Base.{
  ℕ, suc, ◌+◌, ◌≤◌, ◌≡◌, refl, ap, ◌∙◌, arith, true, false, List, [], ◌∷◌, ◌++◌, length, take, All,
  some, ok, le→ltb, take-length, take-append_length,
}
use nfc_cpp.Crypto.Ciphers.{Ciphers, IsSized}
use nfc_cpp.Crypto.Cmac.{calculate_aes_cmac}
use nfc_cpp.Wire.{WireKind, wrap}
use nfc_cpp.Desfire.Context.{DesfireContext}
use nfc_cpp.Desfire.Command.{is_success}
use nfc_cpp.Desfire.FileIds.{
  GetFileIdsCommand, initial, finished, get_file_ids, build_file_ids, parse_file_ids,
  keep_request_iv,
}
use nfc_cpp.Desfire.FileIds.Listing.{parse_file_ids-IsListed}
use nfc_cpp.Desfire.FileIds.Lengths.{IsFileNumber}
use nfc_cpp.Desfire.FileIds.Chained.{IsAesSession, if-true, length-mac, derives, finds, length-sent}
use nfc_cpp.Desfire.Card.{IApduTransceiver, execute_command, check_status}
use nfc_cpp.Desfire.Card.Round.{conclude, execute_round-after}
use nfc_cpp.Desfire.Card.OneFrame.{IsOneFrame, execute_command-execute_round}

get_file_ids-IsOneFrame : (c : Ciphers) → IsOneFrame (get_file_ids c)
get_file_ids-IsOneFrame c = record {
  starts = λ s. refl;
  ends = λ s response context result e.
      let (bytes, status, listing) =
        (parse_file_ids-IsListed c s response context).listed result e in
      ap (λ stage. elim stage [ initial ↦ false | finished ↦ true ]) listing.4;
}

abbrev fresh : GetFileIdsCommand
fresh = record {
  stage = initial;
  raw_payload = [];
  file_ids = [];
  request_iv = [];
  has_request_iv = false;
}

abbrev asked : List ℕ → GetFileIdsCommand
asked request_mac = record {
  stage = initial;
  raw_payload = [];
  file_ids = [];
  request_iv = request_mac;
  has_request_iv = true;
}

abbrev listing : List ℕ → List ℕ → List ℕ → GetFileIdsCommand
listing ids request_mac mac = record {
  stage = finished;
  raw_payload = ids ++ take 8 mac;
  file_ids = ids;
  request_iv = request_mac;
  has_request_iv = true;
}

module _ (c : Ciphers) (sized : IsSized c) (context : DesfireContext)
    (session : IsAesSession context) (ids request_mac mac : List ℕ) (few : length ids ≤ 32)
    (numbers : All IsFileNumber ids)
    (e₁ : calculate_aes_cmac c context.session_key_enc context.iv (0x6F ∷ [])
      ≡ ok (some request_mac))
    (e₂ : calculate_aes_cmac c context.session_key_enc request_mac (ids ++ (0x00 ∷ []))
      ≡ ok (some mac)) where
  abbrev size : length request_mac ≡ 16
  size = length-mac c sized context session context.iv (0x6F ∷ []) request_mac session.iv_size e₁

  builds : build_file_ids c fresh context ≡ (
    ok (record { command_code = 0x6F; request_data = []; expected_response_length = 0 }),
    asked request_mac,
  )
  unfolding build_file_ids
  builds = ap (keep_request_iv fresh) (
      if-true context.authenticated _ _ session.authenticated
      ∙ derives c sized context session request_mac e₁)

  parses : parse_file_ids c (asked request_mac) (0x00 ∷ (ids ++ take 8 mac)) context ≡ (
    ok (record { status_code = 0x00; result_data = ids }),
    listing ids request_mac mac,
    record context { iv = mac },
  )
  unfolding parse_file_ids
  parses =
      let long : length (ids ++ take 8 mac) ≡ length ids + 8 =
        length-sent c sized context session ids request_mac mac few size e₂ in
      rw
        (
          le→ltb 40 (length (ids ++ take 8 mac)) (omega arith),
          take-length (ids ++ take 8 mac) 40 (omega arith),
          finds c sized context session (asked request_mac) ids request_mac mac few numbers size e₂,
          le→ltb 32 (length ids) few,
          take-append_length ids (take 8 mac) (length ids) refl,
        )
        refl

  concludes :
      (wire : WireKind) (t : IApduTransceiver) (next : t.Link)
      → conclude wire t
          (get_file_ids c)
          (0x00 ∷ (ids ++ take 8 mac))
          (record { command = asked request_mac; link = next; context = context })
        ≡ (
          ok tt,
          record {
            command = listing ids request_mac mac;
            link = next;
            context = record context { iv = mac };
          },
        )
  unfolding check_status is_success
  concludes wire t next = rw parses refl

  module _ (wire : WireKind) (t : IApduTransceiver) where
    -- In an AES session, a card that answers GetFileIDs with status 0x00, at most 32 file numbers
    -- up to 0x1F and the first 8 bytes of the CMAC over them and the status, whose IV is the CMAC
    -- over the request under the session's IV, is believed after one round: the call succeeds, the
    -- command holds exactly these file numbers, and the session's IV is the CMAC of the answer.
    pub execute_command-get_file_ids :
        (n : ℕ) (command : GetFileIdsCommand) (apdu : List ℕ) (link next : t.Link)
        → wrap wire (0x6F ∷ []) ≡ ok apdu
        → t.transceive link apdu ≡ (ok (0x00 ∷ (ids ++ take 8 mac)), next)
        → execute_command wire t (get_file_ids c) (suc (suc n)) command link context
          ≡ some (
            ok tt,
            record {
              command = listing ids request_mac mac;
              link = next;
              context = record context { iv = mac };
            },
          )
    execute_command-get_file_ids n command apdu link next wraps sends =
        execute_command-execute_round wire t (get_file_ids c) (get_file_ids-IsOneFrame c) n command
          link context
        ∙ ap some (
            execute_round-after wire t (get_file_ids c)
              (record { command = fresh; link = link; context = context }) (asked request_mac) _
              apdu (ok (0x00 ∷ (ids ++ take 8 mac))) next builds (omega arith) wraps sends
            ∙ concludes wire t next)
