-- ===== src/Pn532/Response/Shape.antt =====
-- The three shapes of the bytes behind the start code, by what `parse_packet` does with them.
use nfc_cpp.Base.{ℕ, zero, suc, ◌+◌, ◌-◌, ◌%◌, ◌≤◌, ◌<◌, ◌≡◌, refl, sym, ap, arith, ◌||◌, not}
use nfc_cpp.Base.{List, [], ◌∷◌, ◌++◌, length, take, drop, leb, ltb, ◌==◌, inl, inr}
use nfc_cpp.Base.{get_elem?-in, drop-get_elem?, take-append-drop, length-take, false}
use nfc_cpp.Base.{err, Error, Bool-cases}
use nfc_cpp.Base.{◌&&◌, if◌then◌else◌, from_pn532}
use nfc_cpp.Base.Codes.Pn532Error
use nfc_cpp.Pn532.Response.{parse_packet, frame_check_failed}
use nfc_cpp.Pn532.Response.Packet.{tail}

pub data Shape (ys : List ℕ) (sent : ℕ) : Type 0 where
  refused : (e : Error) → parse_packet ys 0 sent ≡ err e → Shape ys sent
  whole :
      (len lcs tfi code dcs : ℕ) (payload rest : List ℕ)
      → ys ≡ tail len lcs tfi code dcs payload rest
      → len ≡ length payload + 2
      → len ≤ 254
      → Shape ys sent
  wrapped :
      (lcs : ℕ) (body : List ℕ)
      → ys ≡ 1 ∷ lcs ∷ 0xD5 ∷ ((sent + 1) % 256) ∷ body
      → (1 + lcs) % 256 ≡ 0
      → Shape ys sent

split_body :
    (n : ℕ) (body : List ℕ)
    → n < length body
    → (dcs : ℕ) × (rest : List ℕ) × (body ≡ take n body ++ (dcs ∷ rest))
split_body n body h =
    let (dcs, e) = get_elem?-in body n h in
    (dcs, drop (suc n) body, sym (rw (← drop-get_elem? body n dcs e) (take-append-drop n body)))

bad_length :
    (len lcs tfi code : ℕ) (body : List ℕ) (sent : ℕ)
    → (not ((len == 0) || ltb 254 len) && leb (2 + len + 1) (4 + length body)) ≡ false
    → parse_packet (len ∷ lcs ∷ tfi ∷ code ∷ body) 0 sent ≡ err frame_check_failed
unfolding parse_packet
bad_length len lcs tfi code body sent h = ground arith

-- The tests that stand between a packet of length 1 and its payload.
len_one :
    (lcs tfi code : ℕ) (body : List ℕ) (sent : ℕ)
    → (((1 + lcs) % 256 == 0) && ((tfi == 0xD5) && (code == (sent + 1) % 256))) ≡ false
    → (e : Error) × (parse_packet (1 ∷ lcs ∷ tfi ∷ code ∷ body) 0 sent ≡ err e)
unfolding parse_packet
len_one lcs tfi code body sent h = (
  if ((1 + lcs) % 256 == 0) && (tfi == 0xD5)
      then from_pn532 Pn532Error.invalid_response
      else frame_check_failed,
  ground arith,
)

long-Shape :
    (len lcs tfi code : ℕ) (body : List ℕ) (sent : ℕ)
    → 2 ≤ len
    → len ≤ 254
    → len ≤ length body + 1
    → Shape (len ∷ lcs ∷ tfi ∷ code ∷ body) sent
long-Shape len lcs tfi code body sent lo hi fits =
    let (dcs, rest, e) = split_body (len - 2) body (omega arith) in
    let n : length (take (len - 2) body) ≡ len - 2 = length-take (len - 2) body (omega arith) in
    whole len lcs tfi code dcs (take (len - 2) body) rest
      (ap (λ (l : List ℕ). len ∷ lcs ∷ tfi ∷ code ∷ l) e) (omega arith) hi

one-Shape : (lcs tfi code : ℕ) (body : List ℕ) (sent : ℕ) → Shape (1 ∷ lcs ∷ tfi ∷ code ∷ body) sent
one-Shape lcs tfi code body sent =
    elim (Bool-cases (((1 + lcs) % 256 == 0) && ((tfi == 0xD5) && (code == (sent + 1) % 256)))) [
      | inl t ↦ wrapped lcs body (ground arith) (ground arith)
      | inr f ↦ let (e, h) = len_one lcs tfi code body sent f in refused e h
    ]

pub shape : (ys : List ℕ) (sent : ℕ) → Shape ys sent
unfolding parse_packet
shape [] sent = refused frame_check_failed refl
shape (a ∷ []) sent = refused frame_check_failed refl
shape (a ∷ b ∷ []) sent = refused frame_check_failed (ground arith)
shape (a ∷ b ∷ c ∷ []) sent = refused frame_check_failed (ground arith)
shape (zero ∷ lcs ∷ tfi ∷ code ∷ body) sent =
    refused frame_check_failed (bad_length zero lcs tfi code body sent refl)
shape (suc zero ∷ lcs ∷ tfi ∷ code ∷ body) sent = one-Shape lcs tfi code body sent
shape (suc (suc n) ∷ lcs ∷ tfi ∷ code ∷ body) sent =
    elim (Bool-cases (
      not ((suc (suc n) == 0) || ltb 254 (suc (suc n)))
      && leb (2 + suc (suc n) + 1) (4 + length body))) [
        | inl t ↦
            long-Shape (suc (suc n)) lcs tfi code body sent (omega arith) (ground arith)
              (ground arith)
        | inr f ↦ refused frame_check_failed (bad_length (suc (suc n)) lcs tfi code body sent f)
      ]
