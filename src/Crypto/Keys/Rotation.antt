-- ===== src/Crypto/Keys/Rotation.antt =====
-- What the rotations do, and that they undo each other where they return.
use native.Mathlib.Nat.{mod-lt, mod-eq_of_lt}
use nfc_cpp.Base.{
  ◌+◌, ◌^◌, ap, ap₂, ◌∙◌, append-nil, some, Result, Bool-cases, inl, inr, ◌==◌, ==→eq, ℕ, zero, suc,
  ◌-◌, ◌%◌, ◌≤◌, ◌<◌, ◌≡◌, ◌≢◌, refl, sym, subst, arith, List, [], ◌++◌, length, take, drop, ok,
  fault, push_all_fits, ne→==, length-take, length-drop, length-append, take-append-drop,
  take-append_length, drop-append_length,
}
use nfc_cpp.Crypto.Keys.{rotate_left, rotate_right, move_up}
use nfc_cpp.Crypto.Keys.Moving.{move_up_moves, move_up_leaves}

-- The first `n` bytes go behind the others.
pub rotate_left_split :
    (front back : List ℕ) (n : ℕ)
    → 0 < n
    → n % length (front ++ back) ≡ length front
    → 0 < length back
    → length front ≤ 32
    → rotate_left (front ++ back) n ≡ ok (back ++ front)
unfolding rotate_left
rotate_left_split front back n some_turn turn some_back short =
    let some_bytes : length (front ++ back) ≢ 0 = λ h. omega (arith, length-append front back) in
    let some_shift : n ≢ 0 = λ h. omega arith in
    rw
      (
        ne→== _ 0 some_bytes,
        ne→== n 0 some_shift,
        turn,
        take-append_length front back (length front) refl,
        drop-append_length front back (length front) refl,
        push_all_fits 32 [] front (omega arith),
      )
      refl

-- The last `n` bytes go before the others.
pub rotate_right_split :
    (front back : List ℕ) (n : ℕ)
    → 0 < n
    → n % length (front ++ back) ≡ length back
    → 0 < length back
    → length back ≤ 32
    → length (front ++ back) < 2 ^ 64
    → rotate_right (front ++ back) n ≡ ok (back ++ front)
unfolding rotate_right
rotate_right_split front back n some_turn turn some_back short small =
    let size : length (front ++ back) ≡ length front + length back = length-append front back in
    let rest : length (front ++ back) - length back ≡ length front = omega (arith, size) in
    let (kept, kept_size, moves) =
      move_up_moves (length front) (length (front ++ back) + 1) (length back) front back [] refl
        refl some_back (omega (arith, size)) (omega (arith, size)) in
    let moved : move_up (length (front ++ back) + 1) (front ++ back) (length back)
          (length (front ++ back) - 1)
        ≡ some (ok (kept ++ front)) =
      ap₂
        (λ (xs : List ℕ) (i : ℕ).
          move_up (length (front ++ back) + 1) (front ++ xs) (length back) i)
        {x = back} {y = back ++ []} {u = length (front ++ back) - 1}
        {v = length front + length back - 1} (sym (append-nil back)) (omega (arith, size))
      ∙ moves
      ∙ ap (λ (xs : List ℕ). some (ok (kept ++ xs))) (append-nil front) in
    rw
      (
        ne→== (length (front ++ back)) 0 (λ h. omega (arith, size)),
        ne→== n 0 (λ h. omega arith),
        turn,
        rest,
        drop-append_length front back (length front) refl,
        push_all_fits 32 [] back (omega arith),
        moved,
        drop-append_length kept front (length back) (sym kept_size),
      )
      refl

positive : (n m : ℕ) → 0 < m → n % m ≢ 0 → 0 < n
positive zero m h turns = absurd (turns (mod-eq_of_lt h))
positive (suc n) m h turns = omega arith

-- A rotation to the left of 2 to 33 bytes by a number that is no multiple of their count is undone
-- by the rotation to the right.
pub rotate_right-rotate_left :
    (bytes : List ℕ) (n : ℕ)
    → 2 ≤ length bytes
    → length bytes ≤ 33
    → n % length bytes ≢ 0
    → (turned : List ℕ) × (rotate_left bytes n ≡ ok turned) × (rotate_right turned n ≡ ok bytes)
rotate_right-rotate_left bytes n least most turns =
    let shift = n % length bytes in
    let front = take shift bytes in
    let back = drop shift bytes in
    let small : shift < length bytes = mod-lt n (omega arith) in
    let front_long : length front ≡ shift = length-take shift bytes (omega arith) in
    let back_long : length back ≡ length bytes - shift = length-drop shift bytes in
    let whole : front ++ back ≡ bytes = take-append-drop shift bytes in
    let same : length (back ++ front) ≡ length bytes = omega (arith, length-append back front) in
    let some_turn : 0 < n = positive n (length bytes) (omega arith) turns in
    (
      back ++ front,
      subst (λ x. rotate_left x n ≡ ok (back ++ front)) whole
          (rotate_left_split front back n some_turn (rw whole (sym front_long)) (omega arith)
            (omega arith)),
      subst (λ x. rotate_right (back ++ front) n ≡ ok x) whole
          (rotate_right_split back front n some_turn (rw same (sym front_long)) (omega arith)
            (omega arith) (omega arith)),
    )

-- What a rotation to the right by `shift` bytes makes of a vector: the last `shift` bytes go before
-- the others; with none to go, the loop ends in an access outside the vector, not for want of
-- rounds.
pub data IsTurned (bytes : List ℕ) (shift : ℕ) (result : Result (List ℕ)) : Type 0 where
  turned :
      shift ≢ 0
      → result ≡ ok (drop (length bytes - shift) bytes ++ take (length bytes - shift) bytes)
      → IsTurned bytes shift result
  leaves :
      shift ≡ 0
      → move_up (length bytes + 1) bytes 0 (length bytes - 1) ≡ some fault
      → result ≡ fault
      → IsTurned bytes shift result

rotate_right_full :
    (bytes : List ℕ) (n : ℕ)
    → 0 < length bytes
    → length bytes < 2 ^ 64
    → 0 < n
    → n % length bytes ≡ 0
    → (move_up (length bytes + 1) bytes 0 (length bytes - 1) ≡ some fault)
      × (rotate_right bytes n ≡ fault)
unfolding rotate_right
rotate_right_full bytes n some_bytes small some_turn full =
    let stuck =
      move_up_leaves (length bytes - 1) (length bytes + 1) bytes (omega arith) (omega arith)
        small in
    (
      stuck,
      rw
          (
            ne→== (length bytes) 0 (λ h. omega arith),
            ne→== n 0 (λ h. omega arith),
            full,
            push_all_fits 32 [] (drop (length bytes - 0) bytes)
                (omega (arith, length-drop (length bytes - 0) bytes)),
            stuck,
          )
          refl,
    )

-- rotateRight of one byte or more, fewer than 2^64, by n > 0, where n modulo the number of bytes
-- is at most 32: if that remainder is not 0, as many of the last bytes go before the others; if it
-- is 0, the index of the loop wraps below zero and the loop reads outside the vector.
pub rotate_right-IsTurned :
    (bytes : List ℕ) (n : ℕ)
    → 0 < length bytes
    → length bytes < 2 ^ 64
    → 0 < n
    → n % length bytes ≤ 32
    → IsTurned bytes (n % length bytes) (rotate_right bytes n)
rotate_right-IsTurned bytes n some_bytes small some_turn short =
    let shift = n % length bytes in
    let front = take (length bytes - shift) bytes in
    let back = drop (length bytes - shift) bytes in
    let below : shift < length bytes = mod-lt n (omega arith) in
    let back_size : length back ≡ shift = length-drop (length bytes - shift) bytes ∙ omega arith in
    let whole : front ++ back ≡ bytes = take-append-drop (length bytes - shift) bytes in
    elim (Bool-cases (shift == 0)) [
      | inl e ↦
          let (stuck, result) =
            rotate_right_full bytes n some_bytes small some_turn (==→eq shift 0 e) in
          leaves (==→eq shift 0 e) stuck result
      | inr e ↦
          let some_shift : shift ≢ 0 = λ h. ground arith in
          turned some_shift (
            subst (λ (xs : List ℕ). rotate_right xs n ≡ ok (back ++ front)) whole
              (rotate_right_split front back n some_turn (rw whole (sym back_size)) (ground arith)
                (omega arith) (rw whole small)))
    ]
