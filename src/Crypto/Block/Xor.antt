-- ===== src/Crypto/Block/Xor.antt =====
-- A block combined with another by an exclusive or, which the other undoes.
use nfc_cpp.Base.{
  ℕ, zero, suc, ◌≡◌, refl, ◌∙◌, arith, List, [], ◌∷◌, length, take, drop, All, IsByte,
}
use nfc_cpp.Base.Bits.{bit_xor_cancel, bit_xor-lt}
use nfc_cpp.Crypto.Block.{xor_block}

-- Eight bytes.
abbrev pub IsBlock : List ℕ → Type 0
IsBlock b = (length b ≡ 8) × All IsByte b

pub xor_block_cancel : (a b : List ℕ) → length a ≡ length b → xor_block (xor_block a b) b ≡ a
unfolding xor_block
xor_block_cancel [] b h = refl
xor_block_cancel (x ∷ xs) [] h = absurd (omega arith)
xor_block_cancel (x ∷ xs) (y ∷ ys) h =
    rw (bit_xor_cancel x y, xor_block_cancel xs ys (omega arith)) refl

xor_block-length : (a b : List ℕ) → length a ≡ length b → length (xor_block a b) ≡ length a
unfolding xor_block
xor_block-length [] b h = refl
xor_block-length (x ∷ xs) [] h = absurd (omega arith)
xor_block-length (x ∷ xs) (y ∷ ys) h = omega (arith, xor_block-length xs ys (omega arith))

xor_block-bytes : (a b : List ℕ) → All IsByte a → All IsByte b → All IsByte (xor_block a b)
unfolding xor_block
xor_block-bytes [] b h k = tt
xor_block-bytes (x ∷ xs) [] h k = tt
xor_block-bytes (x ∷ xs) (y ∷ ys) (hx, h) (hy, k) =
    (bit_xor-lt 8 x y hx hy, xor_block-bytes xs ys h k)

pub xor_block-IsBlock : (a b : List ℕ) → IsBlock a → IsBlock b → IsBlock (xor_block a b)
xor_block-IsBlock a b (ha, ka) (hb, kb) =
    (xor_block-length a b (omega arith) ∙ ha, xor_block-bytes a b ka kb)

pub All-take : (n : ℕ) (xs : List ℕ) → All IsByte xs → All IsByte (take n xs)
All-take zero xs h = tt
All-take (suc n) [] h = tt
All-take (suc n) (x ∷ xs) (hx, h) = (hx, All-take n xs h)

pub All-drop : (n : ℕ) (xs : List ℕ) → All IsByte xs → All IsByte (drop n xs)
All-drop zero xs h = h
All-drop (suc n) [] h = tt
All-drop (suc n) (x ∷ xs) (hx, h) = All-drop n xs h
