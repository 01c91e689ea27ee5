-- ===== src/Desfire/Memory/PlainCard.antt =====
-- A card behind NativeWire that is a file and nothing else.
use nfc_cpp.Base.{
  ℕ, ◌+◌, ◌^◌, ◌≤◌, ◌<◌, ◌≡◌, refl, sym, ap, ◌∙◌, arith, ◌==◌, if◌then◌else◌, List, [], ◌∷◌, ◌++◌,
  length, take, drop, length-append, push_all_fits, Result, ok,
}
use nfc_cpp.Crypto.Words.{le24}
use nfc_cpp.Crypto.Words.RoundTrip.{from_le, le-from_le}
use nfc_cpp.Wire.{native, wrap, native_wrap}
use nfc_cpp.Desfire.Card.{IApduTransceiver}
use nfc_cpp.Desfire.Memory.{IsFileCard, overwrite}

unfoldable pub answer : List ℕ → List ℕ → Result (List ℕ) × List ℕ
unfolding overwrite
answer file (ins ∷ file_no ∷ o0 ∷ o1 ∷ o2 ∷ n0 ∷ n1 ∷ n2 ∷ chunk) =
    let offset = from_le (o0 ∷ o1 ∷ o2 ∷ []) in
    if ins == 0x3D
    then (ok (0x00 ∷ []), overwrite file offset chunk)
    else (ok (0x00 ∷ take (from_le (n0 ∷ n1 ∷ n2 ∷ [])) (drop offset file)), file)
answer file _ = (ok (0x7E ∷ []), file)

abbrev pub plain_card : IApduTransceiver
plain_card = record { Link = List ℕ; transceive = answer }

ok-inj : {A : Type 0} {a b : A} → ok a ≡ ok b → a ≡ b
ok-inj h = cc

wrapped : (pdu apdu : List ℕ) → length pdu ≤ 261 → wrap native pdu ≡ ok apdu → apdu ≡ pdu
unfolding wrap native_wrap
wrapped pdu apdu h e = ok-inj (sym e ∙ push_all_fits 261 [] pdu (omega arith))

le24-value : (v : ℕ) → v < 2 ^ 24 → from_le (le24 v) ≡ v
le24-value v h = omega (arith, (le-from_le v).1)

answer-write :
    (file : List ℕ) (file_no offset : ℕ) (chunk : List ℕ)
    → offset < 2 ^ 24
    → answer file (0x3D ∷ file_no ∷ ((le24 offset ++ le24 (length chunk)) ++ chunk))
      ≡ (ok (0x00 ∷ []), overwrite file offset chunk)
unfolding answer le24
answer-write file file_no offset chunk h =
    ap (λ (o : ℕ). (ok (0x00 ∷ []), overwrite file o chunk)) (unfold le24 in le24-value offset h)

answer-read :
    (file : List ℕ) (file_no offset count : ℕ)
    → offset < 2 ^ 24
    → count < 2 ^ 24
    → answer file (0xBD ∷ file_no ∷ (le24 offset ++ le24 count))
      ≡ (ok (0x00 ∷ take count (drop offset file)), file)
unfolding answer le24
answer-read file file_no offset count h k =
    ap (λ (o : ℕ). (ok (0x00 ∷ take (from_le (le24 count)) (drop o file)), file))
      (le24-value offset h)
    ∙ ap (λ (n : ℕ). (ok (0x00 ∷ take n (drop offset file)), file)) (le24-value count k)

length-le24s : (a b : ℕ) → length (le24 a ++ le24 b) ≡ 6
unfolding le24
length-le24s a b = refl

pub writes :
    (file_no : ℕ) (link : List ℕ) (offset : ℕ) (chunk apdu : List ℕ)
    → length chunk ≤ 240
    → offset < 2 ^ 24
    → offset + length chunk ≤ length link
    → wrap native (0x3D ∷ file_no ∷ ((le24 offset ++ le24 (length chunk)) ++ chunk)) ≡ ok apdu
    → (next : List ℕ) × (answer link apdu ≡ (ok (0x00 ∷ []), next))
      × (next ≡ overwrite link offset chunk)
writes file_no link offset chunk apdu short in_range room wraps = (
  overwrite link offset chunk,
  ap (answer link) (
        wrapped (0x3D ∷ file_no ∷ ((le24 offset ++ le24 (length chunk)) ++ chunk)) apdu
          (omega (
            arith,
            length-le24s offset (length chunk),
            length-append (le24 offset ++ le24 (length chunk)) chunk,
          ))
          wraps)
      ∙ answer-write link file_no offset chunk in_range,
  refl,
)

pub reads :
    (file_no : ℕ) (link : List ℕ) (offset count : ℕ) (apdu : List ℕ)
    → count ≤ 240
    → offset < 2 ^ 24
    → offset + count ≤ length link
    → wrap native (0xBD ∷ file_no ∷ (le24 offset ++ le24 count)) ≡ ok apdu
    → (next : List ℕ) × (answer link apdu ≡ (ok (0x00 ∷ take count (drop offset link)), next))
      × (next ≡ link)
reads file_no link offset count apdu short in_range room wraps = (
  link,
  ap (answer link) (
        wrapped (0xBD ∷ file_no ∷ (le24 offset ++ le24 count)) apdu
          (omega (arith, length-le24s offset count)) wraps)
      ∙ answer-read link file_no offset count in_range (omega arith),
  refl,
)

abbrev pub plain_file : (file_no : ℕ) → IsFileCard native plain_card file_no
plain_file file_no = record {
  contents = λ link. link;
  writes = writes file_no;
  reads = reads file_no;
}
