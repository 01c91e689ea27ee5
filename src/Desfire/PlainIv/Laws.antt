-- ===== src/Desfire/PlainIv/Laws.antt =====
-- How a received MAC decides, and the next IV.
use nfc_cpp.Base.{
  ℕ, zero, suc, ◌+◌, ◌≤◌, ◌≡◌, ◌≢◌, ◌↔◌, refl, sym, ap, ◌∙◌, arith, Bool, true, false, ◌||◌, ◌⊎◌,
  inl, inr,
}
use nfc_cpp.Base.{
  List, [], ◌∷◌, length, take, drop, get_elem?-in, drop-get_elem?, some, from_desfire, Bool-cases,
  ==→eq, ==_self, ◌==◌,
}
use nfc_cpp.Base.{le→leb, get_elem?, ltb, guard, ◌>>=◌, ◌>>◌, subst, if◌then◌else◌}
use nfc_cpp.Base.{Result, ok, err, slice, slice_in, take-length}
use nfc_cpp.Base.Codes.DesfireError
use nfc_cpp.Crypto.Ciphers.{Ciphers, IsSized}
use nfc_cpp.Crypto.Cmac.{calculate_tktdes_cmac, calculate_aes_cmac}
use nfc_cpp.Crypto.Cmac.Total.{calculate_tktdes_cmac-Fills, calculate_aes_cmac-Fills}
use nfc_cpp.Desfire.Context.{DesfireContext}
use nfc_cpp.Desfire.PlainIv.{
  mac_matches, derive_aes_plain_response_iv, derive_tktdes_plain_response_iv,
}

-- `b` says whether `P` holds.
abbrev pub Decides : Bool → Type 0 → Type 0
Decides b P = (b ≡ true) ↔ P

step_decides :
    (b : Bool) (x y : ℕ) (xs ys : List ℕ)
    → Decides b (xs ≡ ys)
    → Decides (if x == y then b else false) (◌≡◌ {A = List ℕ} (x ∷ xs) (y ∷ ys))
step_decides b x y xs ys (there, back) = elim (Bool-cases (x == y)) [
  | inl e ↦ rw e (λ t. cc (==→eq x y e, there t), λ t. back (cc t))
  | inr e ↦ rw e (λ t. cc, λ t. cc (e, ==_self x, t))
]

mac_matches-at :
    (xs : List ℕ) (off : ℕ) (cmac : List ℕ) (i n : ℕ)
    → off + i + n ≤ length xs
    → i + n ≤ length cmac
    → (b : Bool) × (mac_matches xs off cmac i n ≡ ok b)
      × Decides b (take n (drop (off + i) xs) ≡ take n (drop i cmac))
unfolding mac_matches
mac_matches-at xs off cmac i zero h k = (true, refl, (λ e. refl, λ e. refl))
mac_matches-at xs off cmac i (suc n) h k =
    let (x, ex) = get_elem?-in xs (off + i) (omega arith) in
    let (y, ey) = get_elem?-in cmac i (omega arith) in
    let (b, eb, dec) = mac_matches-at xs off cmac (i + 1) n (omega arith) (omega arith) in
    let here : drop (off + i) xs ≡ x ∷ drop (off + (i + 1)) xs =
      drop-get_elem? xs (off + i) x ex
      ∙ ap (λ (m : ℕ). x ∷ drop m xs) {x = suc (off + i)} {y = off + (i + 1)} (omega arith) in
    let there : drop i cmac ≡ y ∷ drop (i + 1) cmac =
      drop-get_elem? cmac i y ey
      ∙ ap (λ (m : ℕ). y ∷ drop m cmac) {x = suc i} {y = i + 1} (omega arith) in
    (
      if x == y then b else false,
      chosen b x y ex ey eb,
      rw (here, there)
          (step_decides b x y (take n (drop (off + (i + 1)) xs)) (take n (drop (i + 1) cmac)) dec),
    )
  where
    chosen :
        (b : Bool) (x y : ℕ)
        → get_elem? xs (off + i) ≡ some x
        → get_elem? cmac i ≡ some y
        → mac_matches xs off cmac (i + 1) n ≡ ok b
        → mac_matches xs off cmac i (suc n) ≡ ok (if x == y then b else false)
    chosen b x y ex ey eb = ground arith

pub mac_matches-Decides :
    (xs : List ℕ) (off : ℕ) (cmac : List ℕ) (n : ℕ)
    → off + n ≤ length xs
    → n ≤ length cmac
    → (b : Bool) × (mac_matches xs off cmac 0 n ≡ ok b)
      × Decides b (take n (drop off xs) ≡ take n cmac)
mac_matches-Decides xs off cmac n h k =
    let (b, eb, dec) = mac_matches-at xs off cmac 0 n (omega arith) (omega arith) in
    let start : off + 0 ≡ off = omega arith in
    (b, eb, subst (λ m. Decides b (take n (drop m xs) ≡ take n cmac)) start dec)

-- A response whose MAC bytes are absent or right gives the CMAC as the next IV; any other is an
-- integrity error.
pub data Judged (cmac received : List ℕ) (n : ℕ) (result : Result (List ℕ)) : Type 0 where
  accepted :
      result ≡ ok cmac → (received ≡ []) ⊎ (received ≡ take n cmac) → Judged cmac received n result
  rejected :
      result ≡ err (from_desfire DesfireError.integrity_error)
      → received ≢ []
      → received ≢ take n cmac
      → Judged cmac received n result

-- What both derivations do with the status byte's CMAC.
unfoldable judge : List ℕ → List ℕ → ℕ → ℕ → Result (List ℕ)
judge response cmac n size = do
  same ← if ltb 1 (length response) then mac_matches response 1 cmac 0 n else ok true
  guard same (from_desfire DesfireError.integrity_error)
  slice cmac 0 size

judge-Judged :
    (status : ℕ) (received cmac : List ℕ) (n size : ℕ)
    → length cmac ≡ size
    → n ≤ size
    → (received ≡ []) ⊎ (length received ≡ n)
    → Judged cmac received n (judge (status ∷ received) cmac n size)
unfolding judge
judge-Judged status [] cmac n size h k form =
    accepted (slice_in cmac 0 size (omega arith) ∙ ap ok (take-length cmac size (omega arith)))
      (inl refl)
judge-Judged status (r ∷ rs) cmac n size h k (inl none_left) = cc
judge-Judged status (r ∷ rs) cmac n size h k (inr counted) =
    let (b, eb, dec) = mac_matches-Decides (status ∷ r ∷ rs) 1 cmac n (omega arith) (omega arith) in
    let all_of : take n (r ∷ rs) ≡ r ∷ rs = take-length (r ∷ rs) n (omega arith) in
    let whole : slice cmac 0 size ≡ ok cmac =
      slice_in cmac 0 size (omega arith) ∙ ap ok (take-length cmac size (omega arith)) in
    elim (Bool-cases b) [
      | inl t ↦ accepted (rw (eb, t, whole) (ground arith)) (inr (sym all_of ∙ dec.0 t))
      | inr f ↦ rejected (rw (eb, f) (ground arith)) (λ e. cc) (λ e. cc (f, dec.1 (all_of ∙ e)))
    ]

module _ (c : Ciphers) (context : DesfireContext) (status : ℕ) (received request_iv : List ℕ)
    (n : ℕ) (form : (received ≡ []) ⊎ (length received ≡ n)) where
  counted_form : ((length (status ∷ received) == 1) || (length (status ∷ received) == 1 + n)) ≡ true
  counted_form = elim form [ inl e ↦ rw e refl | inr e ↦ ground arith ]

  -- On an AES session with a key of at least 16 bytes and a 16-byte request IV, a response of a
  -- status byte and either nothing or n MAC bytes, at most 16, gives the CMAC of the status byte
  -- as the next IV if the MAC is absent or right, and an integrity error otherwise.
  pub derive_aes_plain_response_iv-Judged :
      IsSized c
      → 16 ≤ length context.session_key_enc
      → length request_iv ≡ 16
      → n ≤ 16
      → (cmac : List ℕ) × (calculate_aes_cmac c context.session_key_enc request_iv (status ∷ [])
          ≡ ok (some cmac))
        × Judged cmac received n
            (derive_aes_plain_response_iv c (status ∷ received) context request_iv n)
  unfolding derive_aes_plain_response_iv
  derive_aes_plain_response_iv-Judged sized key_fits iv_fits short =
      let (cmac, e, size) =
        calculate_aes_cmac-Fills c context.session_key_enc request_iv (status ∷ []) sized key_fits
          (omega arith) in
      (
        cmac,
        e,
        subst (Judged cmac received n) (sym (same cmac e))
            (judge-Judged status received cmac n 16 size short form),
      )
    where
      same :
          (cmac : List ℕ)
          → calculate_aes_cmac c context.session_key_enc request_iv (status ∷ []) ≡ ok (some cmac)
          → derive_aes_plain_response_iv c (status ∷ received) context request_iv n
            ≡ judge (status ∷ received) cmac n 16
      same cmac e =
          unfold judge in
          simp (le→leb n 16 short, le→leb 16 _ key_fits, iv_fits, counted_form, e) (ground arith)

  -- On a 3DES session with a key of 16 or 24 bytes and an 8-byte request IV, a response of a
  -- status byte and either nothing or n MAC bytes, at most 8, gives the CMAC of the status byte as
  -- the next IV if the MAC is absent or right, and an integrity error otherwise.
  pub derive_tktdes_plain_response_iv-Judged :
      (length context.session_key_enc ≡ 16) ⊎ (length context.session_key_enc ≡ 24)
      → length request_iv ≡ 8
      → n ≤ 8
      → (cmac : List ℕ) × (calculate_tktdes_cmac c context.session_key_enc
            (length context.session_key_enc)
            request_iv
            (status ∷ [])
          ≡ ok (some cmac))
        × Judged cmac received n
            (derive_tktdes_plain_response_iv c (status ∷ received) context request_iv n)
  unfolding derive_tktdes_plain_response_iv
  derive_tktdes_plain_response_iv-Judged key_fits iv_fits short =
      let (cmac, e, size) =
        calculate_tktdes_cmac-Fills c context.session_key_enc (length context.session_key_enc)
          request_iv (status ∷ []) key_fits (omega arith) (omega arith) in
      (
        cmac,
        e,
        subst (Judged cmac received n) (sym (same cmac e))
            (judge-Judged status received cmac n 8 size short form),
      )
    where
      key_test :
          ((length context.session_key_enc == 16) || (length context.session_key_enc == 24)) ≡ true
      key_test = elim key_fits [ inl k ↦ rw k refl | inr k ↦ rw k refl ]

      same :
          (cmac : List ℕ)
          → calculate_tktdes_cmac c context.session_key_enc
              (length context.session_key_enc)
              request_iv
              (status ∷ [])
            ≡ ok (some cmac)
          → derive_tktdes_plain_response_iv c (status ∷ received) context request_iv n
            ≡ judge (status ∷ received) cmac n 8
      same cmac e =
          unfold judge in simp (le→leb n 8 short, key_test, iv_fits, counted_form, e) (ground arith)
