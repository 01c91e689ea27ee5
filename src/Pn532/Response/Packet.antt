-- ===== src/Pn532/Response/Packet.antt =====
-- `parse_packet` behind any prefix, as a function of the bytes behind the start code.
use nfc_cpp.Base.{ℕ, suc, ◌+◌, ◌-◌, ◌%◌, ◌^◌, ◌≤◌, ◌≡◌, refl, sym, ap, ◌∙◌, arith}
use nfc_cpp.Base.{List, ◌∷◌, ◌++◌, length, length-append, drop, get_elem?, leb}
use nfc_cpp.Base.{get_elem?-drop, drop-append_length, drop-drop, if◌then◌else◌}
use nfc_cpp.Base.{Result, ok, err, slice, slice_in, some}
use nfc_cpp.Pn532.{Pn532ResponseFrame}
use nfc_cpp.Pn532.Checksum.{byte_sum, negate}
use nfc_cpp.Base.{◌==◌, take-append_length, from_pn532}
use nfc_cpp.Base.Codes.Pn532Error
use nfc_cpp.Pn532.Response.{parse_packet, frame_check_failed}

pub get_elem?-append :
    (xs ys : List ℕ) (i j : ℕ) → i ≡ length xs + j → get_elem? (xs ++ ys) i ≡ get_elem? ys j
get_elem?-append xs ys i j h =
    ap (get_elem? (xs ++ ys)) h
    ∙ sym (get_elem?-drop (length xs) j (xs ++ ys))
    ∙ ap (λ (l : List ℕ). get_elem? l j) (drop-append_length xs ys (length xs) refl)

pub slice-append :
    (xs ys : List ℕ) (i j n : ℕ) → i ≡ length xs + j → slice (xs ++ ys) i n ≡ slice ys j n
unfolding slice
slice-append xs ys i j n h = ground (arith, tests, copies)
  where
    tests : leb (i + n) (length (xs ++ ys)) ≡ leb (j + n) (length ys)
    tests = ground (arith, length-append xs ys)

    copies : drop i (xs ++ ys) ≡ drop j ys
    copies = rw h (
        sym (drop-drop (length xs) j (xs ++ ys))
        ∙ ap (drop j) (drop-append_length xs ys (length xs) refl))

module _ (xs ys : List ℕ) where
  fits-append : (i j : ℕ) → i ≡ length xs + j → leb i (length (xs ++ ys)) ≡ leb j (length ys)
  fits-append i j h = ground (arith, length-append xs ys)

  -- The prefix plays no part.
  pub parse_packet-append :
      (sent : ℕ) → parse_packet (xs ++ ys) (length xs) sent ≡ parse_packet ys 0 sent
  unfolding parse_packet
  parse_packet-append sent = simp (
    fits-append (length xs + 2) 2 refl,
    λ (p : ℕ). fits-append (length xs + 2 + p + 1) (2 + p + 1) (omega arith),
    get_elem?-append xs ys (length xs) 0 (omega arith),
    get_elem?-append xs ys (length xs + 1) 1 refl,
    get_elem?-append xs ys (length xs + 2) 2 refl,
    get_elem?-append xs ys (length xs + 3) 3 refl,
    λ (n : ℕ). get_elem?-append xs ys (length xs + 4 + n) (4 + n) (omega arith),
    λ (n : ℕ). slice-append xs ys (length xs + 2) 2 n refl,
    λ (n : ℕ). slice-append xs ys (length xs + 4) 4 n refl,
  )

-- The bytes behind the start code, split where the packet ends: `parse_packet` on them is a
-- check of each field and then the payload.
unfoldable pub checked : ℕ → ℕ → ℕ → ℕ → List ℕ → ℕ → ℕ → Result Pn532ResponseFrame
checked len lcs tfi code payload dcs sent =
    if (len + lcs) % 256 == 0
    then (if tfi == 0xD5
        then (if code == (sent + 1) % 256
            then (if dcs == negate (byte_sum 0 (tfi ∷ code ∷ payload))
                then ok (record { command_code = code; payload = payload })
                else err frame_check_failed)
            else err (from_pn532 Pn532Error.invalid_response))
        else err frame_check_failed)
    else err frame_check_failed

module _ (len lcs tfi code dcs : ℕ) (payload rest : List ℕ) where
  abbrev pub tail : List ℕ
  tail = len ∷ lcs ∷ tfi ∷ code ∷ (payload ++ dcs ∷ rest)

  length-tail : length tail ≡ length payload + length rest + 5
  length-tail = omega (arith, length-append payload (dcs ∷ rest))

  slice_payload : len ≡ length payload + 2 → slice tail 4 (length payload) ≡ ok payload
  slice_payload e =
      slice_in tail 4 (length payload) (omega (arith, length-tail))
      ∙ ap ok (take-append_length payload (dcs ∷ rest) (length payload) refl)

  slice_summed : len ≡ length payload + 2 → slice tail 2 len ≡ ok (tfi ∷ code ∷ payload)
  slice_summed e =
      slice_in tail 2 len (omega (arith, length-tail))
      ∙ rw (e, add_two)
          (ap (λ (l : List ℕ). ok (tfi ∷ code ∷ l))
            (take-append_length payload (dcs ∷ rest) _ refl))
    where
      add_two : length payload + 2 ≡ suc (suc (length payload))
      add_two = omega arith

  read_checksum : get_elem? tail (4 + length payload) ≡ some dcs
  read_checksum =
      get_elem?-append (len ∷ lcs ∷ tfi ∷ code ∷ payload) (dcs ∷ rest) (4 + length payload) 0
        (omega arith)

  pub parse_packet-checked :
      (sent : ℕ)
      → len ≡ length payload + 2
      → len ≤ 254
      → parse_packet tail 0 sent ≡ checked len lcs tfi code payload dcs sent
  unfolding parse_packet checked
  parse_packet-checked sent e h =
      ground (arith, wraps, length-tail, slice_payload e, slice_summed e, read_checksum)
    where
      wraps : (len + (2 ^ 64 - 2)) % 2 ^ 64 ≡ length payload
      wraps = omega arith
