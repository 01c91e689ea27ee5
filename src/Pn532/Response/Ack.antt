-- ===== src/Pn532/Response/Ack.antt =====
-- Which buffers `check_ack` takes for an acknowledgement.
use nfc_cpp.Base.{ℕ, ◌≡◌, ◌↔◌, refl, arith, true, Bool-cases, inl, inr}
use nfc_cpp.Base.{List, [], ◌∷◌, ◌++◌, length, length-append, ◌==◌, ==→eq, ==_self, le→ltb}
use nfc_cpp.Pn532.Request.{build_ack}
use nfc_cpp.Pn532.Response.{starts_with, check_ack, ack_frame}

starts_with-append : (es rest : List ℕ) → starts_with (es ++ rest) es ≡ true
unfolding starts_with
starts_with-append [] rest = refl
starts_with-append (e ∷ es) rest = rw (==_self e, starts_with-append es rest) refl

starts_with_split :
    (buffer es : List ℕ) → starts_with buffer es ≡ true → (rest : List ℕ) × (buffer ≡ es ++ rest)
unfolding starts_with
starts_with_split buffer [] h = (buffer, refl)
starts_with_split [] (e ∷ es) h = cc
starts_with_split (b ∷ bs) (e ∷ es) h = elim (Bool-cases (b == e)) [
  | inl t ↦ let (rest, same) = starts_with_split bs es (rw t at h) in (rest, cc (==→eq b e t, same))
  | inr f ↦ absurd (cc (rw f at h))
]

-- checkAck accepts exactly the buffers that begin with the frame that buildAck builds.
pub check_ack_iff :
    (buffer : List ℕ) → (check_ack buffer ≡ true) ↔ ((rest : List ℕ) × (buffer ≡ build_ack ++ rest))
unfolding check_ack
check_ack_iff buffer = (λ h. starts h, λ (rest, e). ends rest e)
  where
    starts : check_ack buffer ≡ true → (rest : List ℕ) × (buffer ≡ build_ack ++ rest)
    starts h = starts_with_split buffer ack_frame (ground arith)

    ends : (rest : List ℕ) → buffer ≡ build_ack ++ rest → check_ack buffer ≡ true
    ends rest e =
        rw (e, le→ltb (length (ack_frame ++ rest)) 6 (omega (arith, length-append ack_frame rest)))
          (starts_with-append ack_frame rest)
