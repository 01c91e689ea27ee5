-- ===== src/Crypto/Keys.antt =====
-- rotateLeft, rotateRight, generateRandom, generateSessionKey and clearParityBits of
-- Src/Utils/DesfireCrypto.cpp.
pub mod Moving
pub mod Rotation
use nfc_cpp.Base.{ℕ, zero, suc, ◌+◌, ◌-◌, ◌%◌, ◌||◌, ◌==◌, List, [], ◌∷◌, ◌++◌, map, length, take}
use nfc_cpp.Base.{true, false, ◌^◌, leb, ltb, set, read, Option, none, some, err}
use nfc_cpp.Base.{drop, if◌then◌else◌, bit_and, Result, ok, fault, ◌>>=◌, push_all, slice}

-- The first `n` bytes are kept in a vector of 32 bytes while the others move down.
unfoldable pub rotate_left : List ℕ → ℕ → Result (List ℕ)
rotate_left bytes n = if (length bytes == 0) || (n == 0) then ok bytes else (do
  let shift = n % length bytes
  temp ← push_all 32 [] (take shift bytes)
  ok (drop shift bytes ++ temp))

-- `data[i] = b`
unfoldable pub store : List ℕ → ℕ → ℕ → Result (List ℕ)
store block i b = if ltb i (length block) then ok (set block i b) else fault

-- `for (size_t i = ...; i >= n; --i) data[i] = data[i - n];`, on fuel: none when the rounds run out.
-- The index is 64 bits wide, and below zero it wraps.
unfoldable pub move_up : ℕ → List ℕ → ℕ → ℕ → Option (Result (List ℕ))
unfolding store
move_up zero block n i = none
move_up (suc fuel) block n i = elim (leb n i) [
  | false ↦ some (ok block)
  | true ↦ elim (read block (i - n) >>= λ b. store block i b) [
    | ok block' ↦ move_up fuel block' n ((i + (2 ^ 64 - 1)) % 2 ^ 64)
    | err e ↦ some (err e)
    | fault ↦ some fault
  ]
]

abbrev pub move_result : Option (Result (List ℕ)) → Result (List ℕ)
move_result none = fault
move_result (some result) = result

-- The last `n` bytes are kept in a vector of 32 bytes while the others move up, and are then copied
-- to the front. The loop has a round for each byte and one for its end.
unfoldable pub rotate_right : List ℕ → ℕ → Result (List ℕ)
unfolding move_up
rotate_right bytes n = if (length bytes == 0) || (n == 0) then ok bytes else (do
  let shift = n % length bytes
  temp ← push_all 32 [] (drop (length bytes - shift) bytes)
  moved ← move_result (move_up (length bytes + 1) bytes shift (length bytes - 1))
  ok (temp ++ drop shift moved))

unfoldable pub clear_parity_bits : List ℕ → List ℕ
clear_parity_bits key = map (λ b. bit_and b 0xFE) key

-- Parts of the two random numbers in turn.
unfoldable pub generate_session_key : List ℕ → List ℕ → Result (List ℕ)
unfolding clear_parity_bits
generate_session_key rnd_a rnd_b = do
  a0 ← slice rnd_a 0 4
  b0 ← slice rnd_b 0 4
  a4 ← slice rnd_a 4 4
  b4 ← slice rnd_b 4 4
  ok (clear_parity_bits (a0 ++ b0 ++ a4 ++ b4))

-- The numbers that the generator has still to give, in order: `draws 0` is the next.
abbrev pub Draws : Type 0
Draws = ℕ → ℕ

unfoldable pub generate_random : Draws → ℕ → List ℕ
generate_random draws zero = []
generate_random draws (suc n) = draws 0 % 256 ∷ generate_random (λ i. draws (suc i)) n
