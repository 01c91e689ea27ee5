-- ===== src/Wire/Iso.antt =====
-- What IsoWire promises: the APDU's layout, how it is read back, and every answer that `unwrap`
-- accepts or refuses.
use nfc_cpp.Base.{ℕ, ◌+◌, ◌-◌, ◌≤◌, ◌<◌, ◌%◌, ◌^◌, ◌≡◌, refl, sym, arith, ◌∙◌, ap}
use nfc_cpp.Base.{List, [], ◌∷◌, ◌++◌, Option, none, some, length, take, get_elem?, length-append}
use nfc_cpp.Base.{
  Result, ok, err, fault, from_apdu, if◌then◌else◌, leb, ◌==◌, slice_in, take-append_length,
  get_elem?-drop, drop-append_length, lt→leb, read, or_fault, ◌||◌,
}
use nfc_cpp.Base.Codes.ApduError
use nfc_cpp.Wire.{iso_wrap, iso_unwrap}

-- A card's reading of a command APDU: CLA INS P1 P2 [Lc data] Le.
unfoldable pub read_command : List ℕ → Option (List ℕ)
read_command (cla ∷ ins ∷ p1 ∷ p2 ∷ le ∷ []) = some (ins ∷ [])
read_command (cla ∷ ins ∷ p1 ∷ p2 ∷ lc ∷ d ∷ ds) =
    if length (d ∷ ds) == lc + 1 then some (ins ∷ take lc (d ∷ ds)) else none
read_command _ = none

-- A PDU of a command code and at most 255 data bytes is wrapped by IsoWire::wrap into an APDU from
-- which a card reads the same PDU.
pub read_command-iso_wrap :
    (ins : ℕ) (ds : List ℕ)
    → length ds ≤ 255
    → (apdu : List ℕ) × (iso_wrap (ins ∷ ds) ≡ ok apdu) × (read_command apdu ≡ some (ins ∷ ds))
unfolding iso_wrap read_command
read_command-iso_wrap ins [] h = (_, refl, refl)
read_command-iso_wrap ins (d ∷ ds) h = (
  0x90 ∷ ins ∷ 0x00 ∷ 0x00 ∷ (length (d ∷ ds) % 2 ^ 8) ∷ d ∷ (ds ++ (0x00 ∷ [])),
  ground arith,
  reads,
)
  where
    lc : length (d ∷ ds) % 256 ≡ length (d ∷ ds)
    lc = omega arith

    reads :
        read_command
          (0x90 ∷ ins ∷ 0x00 ∷ 0x00 ∷ (length (d ∷ ds) % 2 ^ 8) ∷ d ∷ (ds ++ (0x00 ∷ [])))
        ≡ some (ins ∷ d ∷ ds)
    reads = ground (
      arith,
      lc,
      length-append ds (0x00 ∷ []),
      take-append_length (d ∷ ds) (0x00 ∷ []) (length (d ∷ ds) % 256),
    )

-- A PDU of 256 data bytes or more overflows the APDU vector of IsoWire::wrap.
pub iso_wrap_long : (ins : ℕ) (ds : List ℕ) → 256 ≤ length ds → iso_wrap (ins ∷ ds) ≡ fault
unfolding iso_wrap
iso_wrap_long ins [] h = absurd (omega arith)
iso_wrap_long ins (d ∷ ds) h = ground (arith, length-append ds (0x00 ∷ []))

read-append : (xs ys : List ℕ) (i j : ℕ) → i ≡ length xs + j → read (xs ++ ys) i ≡ read ys j
read-append xs ys i j h = ap or_fault (
    ap (get_elem? (xs ++ ys)) h
    ∙ sym (get_elem?-drop (length xs) j (xs ++ ys))
    ∙ ap (λ (l : List ℕ). get_elem? l j) (drop-append_length xs ys (length xs) refl))

-- What `unwrap` does with a status word and the bytes before it.
unfoldable pub status_answer : List ℕ → ℕ → ℕ → Result (List ℕ)
status_answer answer sw1 sw2 =
    if (sw1 == 0x90) || (sw1 == 0x91)
    then (if leb (length answer) 255 then ok (sw2 ∷ answer) else fault)
    else err (from_apdu ApduError.unknown)

-- IsoWire::unwrap judges an answer of at least two bytes by SW1 alone, keeps SW2 and all data of a
-- 90xx or 91xx answer of at most 255 data bytes, refuses any other status word, and overflows its
-- vector on more data.
pub iso_unwrap-status_answer :
    (answer : List ℕ) (sw1 sw2 : ℕ)
    → iso_unwrap (answer ++ sw1 ∷ sw2 ∷ []) ≡ status_answer answer sw1 sw2
unfolding iso_unwrap status_answer
iso_unwrap-status_answer answer sw1 sw2 = ground (
  arith,
  length-append answer (sw1 ∷ sw2 ∷ []),
  read-append answer (sw1 ∷ sw2 ∷ []) (length (answer ++ sw1 ∷ sw2 ∷ []) - 2) 0,
  read-append answer (sw1 ∷ sw2 ∷ []) (length (answer ++ sw1 ∷ sw2 ∷ []) - 1) 1,
  slice_in (answer ++ sw1 ∷ sw2 ∷ []) 0 (length (answer ++ sw1 ∷ sw2 ∷ []) - 2),
  take-append_length answer (sw1 ∷ sw2 ∷ []) (length (answer ++ sw1 ∷ sw2 ∷ []) - 2),
)

pub iso_unwrap_short :
    (apdu : List ℕ) → length apdu < 2 → iso_unwrap apdu ≡ err (from_apdu ApduError.wrong_length)
unfolding iso_unwrap
iso_unwrap_short apdu h = rw (lt→leb 2 (length apdu) h)
