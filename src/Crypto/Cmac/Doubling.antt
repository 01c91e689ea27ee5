-- ===== src/Crypto/Cmac/Doubling.antt =====
-- The subkeys of CMAC as numbers: the code's shifts and masks of bytes double a block in a field
-- of 2^64 or 2^128 elements.
use native.Mathlib.Nat.{div-div-eq-div-mul, pow-suc}
use nfc_cpp.Base.{
  ℕ, zero, suc, ◌+◌, ◌-◌, ◌*◌, ◌/◌, ◌%◌, ◌^◌, ◌<◌, ◌≡◌, refl, sym, subst, ap, ap₂, ◌∙◌, arith, List,
  [], ◌∷◌, ◌++◌, length, set, append-nil, All, IsByte, bit_and, bit_or, bit_xor, ◌==◌,
  if◌then◌else◌, Bool-cases, inl, inr, get_elem?, some, ok,
}
use nfc_cpp.Base.Bits.{bit_and_step, bit_and-one, bit_or-shift, bit_xor-shift, bit_xor-lt}
use nfc_cpp.Crypto.Block.{left_shift_one_bit}
use nfc_cpp.Crypto.Cmac.{next_subkey}

-- The number whose bytes are `value` and then those of the list, the highest first.
unfoldable pub from_be : ℕ → List ℕ → ℕ
from_be value [] = value
from_be value (b ∷ bs) = from_be (value * 256 + b) bs

-- The `n` lowest bytes of a number, the highest first, before `rest`.
unfoldable pub to_be : ℕ → ℕ → List ℕ → List ℕ
to_be zero value rest = rest
to_be (suc n) value rest = to_be n (value / 256) (value % 256 ∷ rest)

-- Multiplication by x in the field of 2^(8 size) elements whose polynomial ends in `rb`.
unfoldable pub double : ℕ → ℕ → ℕ → ℕ
double size rb v = if 2 * v / 256 ^ size == 0 then 2 * v else bit_xor (2 * v) rb

abbrev carry : List ℕ → ℕ
carry bs = (left_shift_one_bit bs).1

abbrev shifted : List ℕ → List ℕ
shifted bs = (left_shift_one_bit bs).0

bit_and-top : (a : ℕ) → a < 256 → (if bit_and a 0x80 == 0 then 0x00 else 0x01) ≡ a / 128
bit_and-top a h = ground (
  arith,
  bit_and_step a 128,
  bit_and_step (a / 2) 64,
  bit_and_step (a / 2 / 2) 32,
  bit_and_step (a / 2 / 2 / 2) 16,
  bit_and_step (a / 2 / 2 / 2 / 2) 8,
  bit_and_step (a / 2 / 2 / 2 / 2 / 2) 4,
  bit_and_step (a / 2 / 2 / 2 / 2 / 2 / 2) 2,
  bit_and-one (a / 2 / 2 / 2 / 2 / 2 / 2 / 2),
)

carry-lt : (bs : List ℕ) → carry bs < 2
unfolding left_shift_one_bit
carry-lt [] = omega arith
carry-lt (b ∷ bs) = ground arith

shift_byte : (b c : ℕ) → b < 256 → c < 2 → bit_or (b * 2 % 2 ^ 8) c ≡ (2 * b + c) % 256
shift_byte b c h k =
    ap (λ (n : ℕ). bit_or n c) {y = b % 128 * 2 ^ 1} (omega arith)
    ∙ bit_or-shift 1 (b % 128) c (omega arith)
    ∙ omega arith

-- The bytes of twice a number are the shifted bytes, and the carry goes on.
to_be-shift :
    (bs : List ℕ) (k v : ℕ) (rest : List ℕ)
    → All IsByte bs
    → to_be (k + length bs) (2 * from_be v bs) rest
      ≡ to_be k (2 * v + carry bs) (shifted bs ++ rest)
unfolding from_be left_shift_one_bit to_be
to_be-shift [] k v rest h =
    ap₂ (λ (n w : ℕ). to_be n w rest) {x = k + 0} {y = k} (omega arith) (omega arith)
to_be-shift (b ∷ bs) k v rest (hb, h) =
    ap (λ (n : ℕ). to_be n (2 * from_be (v * 256 + b) bs) rest) {x = k + suc (length bs)}
      {y = suc k + length bs} (omega arith)
    ∙ to_be-shift bs (suc k) (v * 256 + b) rest h
    ∙ rw (shift_byte b (carry bs) hb (carry-lt bs), bit_and-top b hb)
        (ap₂ (λ (q r : ℕ). to_be k q (r ∷ (shifted bs ++ rest)))
          {x = (2 * (v * 256 + b) + carry bs) / 256} {y = 2 * v + b / 128}
          {u = (2 * (v * 256 + b) + carry bs) % 256} {v = (2 * b + carry bs) % 256}
          (omega (arith, carry-lt bs)) (omega (arith, carry-lt bs)))

-- What is left of twice a number above its bytes is the carry.
top-shift :
    (bs : List ℕ) (v : ℕ) → All IsByte bs → 2 * from_be v bs / 256 ^ length bs ≡ 2 * v + carry bs
unfolding from_be left_shift_one_bit
top-shift [] v h = omega arith
top-shift (b ∷ bs) v (hb, h) =
    rw (bit_and-top b hb, pow-suc 256 (length bs))
      (sym (div-div-eq-div-mul (2 * from_be (v * 256 + b) bs) (256 ^ length bs) 256)
        ∙ ap (λ (n : ℕ). n / 256) (top-shift bs (v * 256 + b) h)
        ∙ omega (arith, carry-lt bs))

set-append : (xs rest : List ℕ) (a b : ℕ) → set (xs ++ (a ∷ rest)) (length xs) b ≡ xs ++ (b ∷ rest)
set-append [] rest a b = refl
set-append (x ∷ xs) rest a b = ap (λ (ys : List ℕ). x ∷ ys) (set-append xs rest a b)

get_elem?-append : (xs rest : List ℕ) (a : ℕ) → get_elem? (xs ++ (a ∷ rest)) (length xs) ≡ some a
get_elem?-append [] rest a = refl
get_elem?-append (x ∷ xs) rest a = get_elem?-append xs rest a

-- What stands behind the bytes of a number is read and replaced.
behind :
    (n v : ℕ) (xs : List ℕ) (a b : ℕ)
    → (get_elem? (to_be n v (xs ++ (a ∷ []))) (n + length xs) ≡ some a)
      × (set (to_be n v (xs ++ (a ∷ []))) (n + length xs) b ≡ to_be n v (xs ++ (b ∷ [])))
unfolding to_be
behind zero v xs a b = (
  ap (get_elem? (xs ++ (a ∷ []))) {x = 0 + length xs} {y = length xs} (omega arith)
      ∙ get_elem?-append xs [] a,
  ap (λ (n : ℕ). set (xs ++ (a ∷ [])) n b) {x = 0 + length xs} {y = length xs} (omega arith)
      ∙ set-append xs [] a b,
)
behind (suc n) v xs a b =
    let (found, replaced) = behind n (v / 256) (v % 256 ∷ xs) a b in
    let index : suc n + length xs ≡ n + suc (length xs) = omega arith in
    (rw index found, rw index replaced)

shifted-to_be :
    (n : ℕ) (block : List ℕ)
    → length block ≡ n
    → All IsByte block
    → shifted block ≡ to_be n (2 * from_be 0 block) []
unfolding to_be
shifted-to_be n block size h = sym (
    ap (λ (k : ℕ). to_be k (2 * from_be 0 block) []) {x = n} {y = 0 + length block} (omega arith)
    ∙ to_be-shift block 0 0 [] h
    ∙ append-nil (shifted block))

top-carry :
    (n top : ℕ) (rest : List ℕ)
    → length (top ∷ rest) ≡ n
    → All IsByte (top ∷ rest)
    → 2 * from_be 0 (top ∷ rest) / 256 ^ n ≡ (if bit_and top 0x80 == 0 then 0x00 else 0x01)
unfolding left_shift_one_bit
top-carry n top rest size h = rw (← size) (top-shift (top ∷ rest) 0 h ∙ omega arith)

pub to_be-bytes :
    (n v : ℕ) (rest : List ℕ)
    → All IsByte rest
    → (length (to_be n v rest) ≡ n + length rest) × All IsByte (to_be n v rest)
unfolding to_be
to_be-bytes zero v rest h = (omega arith, h)
to_be-bytes (suc n) v rest h =
    let (size, bytes) = to_be-bytes n (v / 256) (v % 256 ∷ rest) (omega arith, h) in
    (size ∙ omega arith, bytes)

module _ (rb : ℕ) (rb_fits : rb < 256) (n : ℕ) where
  masked :
      (v : ℕ)
      → (get_elem? (to_be (suc n) v []) n ≡ some (v % 256))
        × (set (to_be (suc n) v []) n (bit_xor (v % 256) rb) ≡ to_be (suc n) (bit_xor v rb) [])
  unfolding to_be
  masked v =
      let (found, replaced) = behind n (v / 256) [] (v % 256) (bit_xor (v % 256) rb) in
      let index : n + 0 ≡ n = omega arith in
      let whole : bit_xor v rb ≡ v / 256 * 2 ^ 8 + bit_xor (v % 256) rb =
        ap (λ (w : ℕ). bit_xor w rb) {x = v} {y = v / 256 * 2 ^ 8 + v % 256} (omega arith)
        ∙ bit_xor-shift 8 (v / 256) (v % 256) rb (omega arith) (omega (arith, rb_fits)) in
      let low : bit_xor (v % 256) rb < 2 ^ 8 =
        bit_xor-lt 8 (v % 256) rb (omega arith) (omega (arith, rb_fits)) in
      (
        subst (λ (i : ℕ). get_elem? (to_be n (v / 256) (v % 256 ∷ [])) i ≡ some (v % 256)) index
            found,
        subst
              (λ (i : ℕ).
                set (to_be n (v / 256) (v % 256 ∷ [])) i (bit_xor (v % 256) rb)
                ≡ to_be n (v / 256) (bit_xor (v % 256) rb ∷ []))
              index replaced
            ∙ ap₂ (λ (q r : ℕ). to_be n q (r ∷ [])) {x = v / 256} {y = bit_xor v rb / 256}
                {u = bit_xor (v % 256) rb} {v = bit_xor v rb % 256} (omega arith) (omega arith),
      )

  -- The next subkey is the double of the block, as a number.
  pub next_subkey-double :
      (block : List ℕ)
      → length block ≡ suc n
      → All IsByte block
      → next_subkey (suc n) rb block
        ≡ ok (some (to_be (suc n) (double (suc n) rb (from_be 0 block)) []))
  unfolding next_subkey double
  next_subkey-double [] size h = absurd (omega arith)
  next_subkey-double (top ∷ rest) size h =
      let twice = 2 * from_be 0 (top ∷ rest) in
      let bytes : shifted (top ∷ rest) ≡ to_be (suc n) twice [] =
        shifted-to_be (suc n) (top ∷ rest) size h in
      let above = top-carry (suc n) top rest size h in
      let (last, whole) = masked twice in
      elim (Bool-cases (bit_and top 0x80 == 0)) [
        | inl e ↦
            let none_above : twice / 256 ^ suc n ≡ 0 = above ∙ rw e refl in
            rw (e, bytes, none_above) refl
        | inr e ↦
            let some_above : twice / 256 ^ suc n ≡ 1 = above ∙ rw e refl in
            let index : suc n - 1 ≡ n = omega arith in
            rw (e, bytes, some_above, index, last, whole) refl
      ]
