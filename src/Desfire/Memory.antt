-- ===== src/Desfire/Memory.antt =====
-- The file of a card, as the specification that reading and writing are measured by: a list of
-- bytes, and a card that answers WriteData and ReadData of plain data by it.
pub mod PlainCard
use nfc_cpp.Base.{
  ℕ, ◌+◌, ◌≤◌, ◌<◌, ◌^◌, ◌≡◌, refl, sym, ap, ap₂, ◌∙◌, arith, List, [], ◌∷◌, ◌++◌, length, take,
  drop, length-append, length-take, length-drop, take-append_length, drop-append_length, drop-drop,
  append_assoc, Result, ok,
}
use nfc_cpp.Crypto.Words.{le24}
use nfc_cpp.Wire.{WireKind, wrap}
use nfc_cpp.Desfire.Card.{IApduTransceiver}

-- The bytes from `offset` on become those of `chunk`.
unfoldable pub overwrite : List ℕ → ℕ → List ℕ → List ℕ
overwrite file offset chunk = take offset file ++ (chunk ++ drop (offset + length chunk) file)

module _ (file : List ℕ) (offset : ℕ) where
  pub length-overwrite :
      (chunk : List ℕ)
      → offset + length chunk ≤ length file
      → length (overwrite file offset chunk) ≡ length file
  unfolding overwrite
  length-overwrite chunk h = omega (
    arith,
    length-append (take offset file) (chunk ++ drop (offset + length chunk) file),
    length-append chunk (drop (offset + length chunk) file),
    length-take offset file,
    length-drop (offset + length chunk) file,
  )

  -- A write behind a write is one write of both chunks.
  pub overwrite-overwrite :
      (a b : List ℕ)
      → offset + length a ≤ length file
      → overwrite (overwrite file offset a) (offset + length a) b ≡ overwrite file offset (a ++ b)
  unfolding overwrite
  overwrite-overwrite a b h =
      rw
        (
          front,
          back,
          length-append a b,
          append_assoc a b (drop (offset + (length a + length b)) file),
        )
        (append_assoc (take offset file) a _)
    where
      whole : List ℕ
      whole = take offset file ++ (a ++ drop (offset + length a) file)

      long : offset + length a ≡ length (take offset file ++ a)
      long = omega (arith, length-append (take offset file) a, length-take offset file)

      split : whole ≡ (take offset file ++ a) ++ drop (offset + length a) file
      split = sym (append_assoc (take offset file) a (drop (offset + length a) file))

      front : take (offset + length a) whole ≡ take offset file ++ a
      front = rw split (take-append_length (take offset file ++ a) _ (offset + length a) long)

      back : drop (offset + length a + length b) whole ≡ drop (offset + (length a + length b)) file
      back =
          sym (drop-drop (offset + length a) (length b) whole)
          ∙ rw split (
              rw (drop-append_length (take offset file ++ a) _ (offset + length a) long) (
                drop-drop (offset + length a) (length b) file
                ∙ ap (λ (n : ℕ). drop n file) (omega arith)))

-- What was written is read back.
pub take-overwrite :
    (file chunk : List ℕ) (offset : ℕ)
    → offset + length chunk ≤ length file
    → take (length chunk) (drop offset (overwrite file offset chunk)) ≡ chunk
unfolding overwrite
take-overwrite file chunk offset h =
    rw
      (drop-append_length (take offset file) (chunk ++ drop (offset + length chunk) file) offset
        (sym (length-take offset file (omega arith))))
      (take-append_length chunk (drop (offset + length chunk) file) (length chunk) refl)

-- A card with the file `contents link`, behind a wire and a transceiver: a plain write that lies
-- in the file is carried out and answered by 0x00, and a plain read is answered by its bytes.
pub record IsFileCard (wire : WireKind) (t : IApduTransceiver) (file_no : ℕ) : Type 0 where
  pub contents : t.Link → List ℕ
  pub writes :
      (link : t.Link) (offset : ℕ) (chunk apdu : List ℕ)
      → length chunk ≤ 240
      → offset < 2 ^ 24
      → offset + length chunk ≤ length (contents link)
      → wrap wire (0x3D ∷ file_no ∷ ((le24 offset ++ le24 (length chunk)) ++ chunk)) ≡ ok apdu
      → (next : t.Link) × (t.transceive link apdu ≡ (ok (0x00 ∷ []), next))
        × (contents next ≡ overwrite (contents link) offset chunk)
  pub reads :
      (link : t.Link) (offset count : ℕ) (apdu : List ℕ)
      → count ≤ 240
      → offset < 2 ^ 24
      → offset + count ≤ length (contents link)
      → wrap wire (0xBD ∷ file_no ∷ (le24 offset ++ le24 count)) ≡ ok apdu
      → (next : t.Link) × (t.transceive link apdu
          ≡ (ok (0x00 ∷ take count (drop offset (contents link))), next))
        × (contents next ≡ contents link)
