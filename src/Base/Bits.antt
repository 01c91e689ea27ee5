-- ===== src/Base/Bits.antt =====
-- The bit operations at variables: one law for the lowest digit of each, and what follows.
use Prim.Native.Nat.{ℕ, zero, suc, ◌+◌, ◌-◌, ◌*◌, ◌/◌, ◌%◌, ◌^◌, ◌≤◌, ◌<◌, min, max}
use Prim.Native.Nat.{digits, bitwise, bit_and, bit_or, bit_xor, bit_and-bitwise, bit_or-bitwise}
use Prim.Native.Nat.{bit_xor-bitwise, differ}
use mathlib.Core.Path.{◌≡◌, refl, ap, ◌∙◌}
use mathlib.Core.WellFounded.{Acc, WellFounded, induction}
use native.Mathlib.Nat.{pow-suc, one-le-pow}
use native.Mathlib.Omega.{arith}

reach : (k n : ℕ) → n < k → Acc ◌<◌ n
reach zero n h = absurd (omega arith)
reach (suc k) n h = Acc.intro n (λ m hm. reach k m (omega arith))

pub lt_wf : WellFounded ◌<◌
lt_wf = record { apply = λ n. reach (suc n) n (omega arith) }

module _ (z : ℕ → ℕ) (f : ℕ → ℕ → ℕ) where
  digits-suc : (n a b : ℕ) → a ≤ n → digits z f (suc n) a b ≡ digits z f n a b
  digits-suc zero zero b h = refl
  digits-suc zero (suc a) b h = absurd (omega arith)
  digits-suc (suc n) zero b h = refl
  digits-suc (suc n) (suc a) b h =
      ap (λ (d : ℕ). d * 2 + f (suc a % 2) (b % 2)) (digits-suc n (suc a / 2) (b / 2) (omega arith))

  digits-add : (k a b : ℕ) → digits z f (a + k) a b ≡ digits z f a a b
  digits-add zero a b = ap (λ (n : ℕ). digits z f n a b) (omega arith)
  digits-add (suc k) a b =
      ap (λ (n : ℕ). digits z f n a b) {y = suc (a + k)} (omega arith)
      ∙ digits-suc (a + k) a b (omega arith)
      ∙ digits-add k a b

  bitwise_step :
      (a b : ℕ)
      → bitwise z f (suc a) b ≡ bitwise z f (suc a / 2) (b / 2) * 2 + f (suc a % 2) (b % 2)
  bitwise_step a b =
      ap (λ (d : ℕ). d * 2 + f (suc a % 2) (b % 2))
        (ap (λ (n : ℕ). digits z f n (suc a / 2) (b / 2)) (omega arith)
          ∙ digits-add (a - suc a / 2) (suc a / 2) (b / 2))

-- The lowest digits of `x & y` and `x | y`, in one law each.
pub bit_or_step : (x y : ℕ) → bit_or x y ≡ bit_or (x / 2) (y / 2) * 2 + max (x % 2) (y % 2)
bit_or_step (suc x) y = simp bit_or-bitwise (bitwise_step (λ rest. rest) max x y)
bit_or_step zero y = simp bit_or-bitwise (omega arith)

differ_digit : (x y : ℕ) → x < 2 → y < 2 → differ x y ≡ (x + y) % 2
differ_digit zero y hx hy = omega arith
differ_digit (suc zero) zero hx hy = refl
differ_digit (suc zero) (suc zero) hx hy = refl
differ_digit (suc zero) (suc (suc y)) hx hy = absurd (omega arith)
differ_digit (suc (suc x)) y hx hy = absurd (omega arith)

pub bit_xor_step : (a b : ℕ) → bit_xor a b ≡ bit_xor (a / 2) (b / 2) * 2 + (a + b) % 2
bit_xor_step zero b = simp bit_xor-bitwise (omega arith)
bit_xor_step (suc a) b = simp bit_xor-bitwise (
    bitwise_step (λ b. b) differ a b
    ∙ ap (λ (d : ℕ). bitwise (λ b. b) differ (suc a / 2) (b / 2) * 2 + d)
        (differ_digit (suc a % 2) (b % 2) (omega arith) (omega arith) ∙ omega arith))

pub bit_and_step : (x y : ℕ) → bit_and x y ≡ bit_and (x / 2) (y / 2) * 2 + min (x % 2) (y % 2)
bit_and_step (suc x) y = simp bit_and-bitwise (bitwise_step (λ rest. 0) min x y)
bit_and_step zero y = simp bit_and-bitwise (omega arith)

pub bit_and-zero : (a : ℕ) → bit_and a 0 ≡ 0
bit_and-zero a = induction lt_wf {C = λ n. bit_and n 0 ≡ 0} a go
  where
    go : (n : ℕ) → ((m : ℕ) → m < n → bit_and m 0 ≡ 0) → bit_and n 0 ≡ 0
    go zero ih = refl
    go (suc n) ih = omega (arith, bit_and_step (suc n) 0, ih (suc n / 2) (omega arith))

pub bit_or-zero : (a : ℕ) → bit_or a 0 ≡ a
bit_or-zero a = induction lt_wf {C = λ n. bit_or n 0 ≡ n} a go
  where
    go : (n : ℕ) → ((m : ℕ) → m < n → bit_or m 0 ≡ m) → bit_or n 0 ≡ n
    go zero ih = refl
    go (suc n) ih = omega (arith, bit_or_step (suc n) 0, ih (suc n / 2) (omega arith))

pub zero-bit_xor : (b : ℕ) → bit_xor 0 b ≡ b
zero-bit_xor b = bit_xor-bitwise 0 b

pub bit_xor-zero : (a : ℕ) → bit_xor a 0 ≡ a
bit_xor-zero a = induction lt_wf {C = λ n. bit_xor n 0 ≡ n} a go
  where
    go : (n : ℕ) → ((m : ℕ) → m < n → bit_xor m 0 ≡ m) → bit_xor n 0 ≡ n
    go zero ih = refl
    go (suc n) ih = omega (arith, bit_xor_step (suc n) 0, ih (suc n / 2) (omega arith))

pub bit_xor_self : (a : ℕ) → bit_xor a a ≡ 0
bit_xor_self a = induction lt_wf {C = λ n. bit_xor n n ≡ 0} a go
  where
    go : (n : ℕ) → ((m : ℕ) → m < n → bit_xor m m ≡ 0) → bit_xor n n ≡ 0
    go zero ih = refl
    go (suc n) ih = omega (arith, bit_xor_step (suc n) (suc n), ih (suc n / 2) (omega arith))

-- Applying the same mask twice changes nothing.
pub bit_xor_cancel : (a b : ℕ) → bit_xor (bit_xor a b) b ≡ a
bit_xor_cancel a = induction lt_wf {C = λ n. (b : ℕ) → bit_xor (bit_xor n b) b ≡ n} a go
  where
    go :
        (n : ℕ)
        → ((m : ℕ) → m < n → (b : ℕ) → bit_xor (bit_xor m b) b ≡ m)
        → (b : ℕ) → bit_xor (bit_xor n b) b ≡ n
    go zero ih b = ap (λ (c : ℕ). bit_xor c b) (zero-bit_xor b) ∙ bit_xor_self b
    go (suc n) ih b = ground (
      arith,
      bit_xor_step (suc n) b,
      bit_xor_step (bit_xor (suc n) b) b,
      ih (suc n / 2) (omega arith) (b / 2),
    )

mul-pow-suc : (q k : ℕ) → q * 2 ^ suc k ≡ 2 * (q * 2 ^ k)
mul-pow-suc q k = omega (arith, ap (λ (t : ℕ). q * t) (pow-suc 2 k))

-- `(q << k) | r` with `r` below `1 << k` is a sum.
pub bit_or-shift : (k q r : ℕ) → r < 2 ^ k → bit_or (q * 2 ^ k) r ≡ q * 2 ^ k + r
bit_or-shift zero q r h = ground (arith, bit_or-zero q)
bit_or-shift (suc k) q r h =
    ground
      (arith, mul-pow-suc q k, bit_or_step (q * 2 ^ suc k) r, bit_or-shift k q (r / 2), pow-suc 2 k)

zero-bit_or : (b : ℕ) → bit_or 0 b ≡ b
zero-bit_or b = simp bit_or-bitwise refl

-- The same sum, with the shifted number on the right.
pub bit_or-above : (k q r : ℕ) → r < 2 ^ k → bit_or r (q * 2 ^ k) ≡ q * 2 ^ k + r
bit_or-above zero q zero h = ground (arith, zero-bit_or q)
bit_or-above zero q (suc r) h = absurd (omega arith)
bit_or-above (suc k) q r h =
    ground
      (arith, mul-pow-suc q k, bit_or_step r (q * 2 ^ suc k), bit_or-above k q (r / 2), pow-suc 2 k)

-- An exclusive or with a number below `1 << k` leaves what stands above alone.
pub bit_xor-shift :
    (k q r s : ℕ) → r < 2 ^ k → s < 2 ^ k → bit_xor (q * 2 ^ k + r) s ≡ q * 2 ^ k + bit_xor r s
bit_xor-shift zero q r s hr hs = ground (arith, bit_xor-zero q)
bit_xor-shift (suc k) q r s hr hs = ground (
  arith,
  mul-pow-suc q k,
  pow-suc 2 k,
  bit_xor_step (q * 2 ^ suc k + r) s,
  bit_xor_step r s,
  bit_xor-shift k q (r / 2) (s / 2),
)

pub bit_xor-lt : (k a b : ℕ) → a < 2 ^ k → b < 2 ^ k → bit_xor a b < 2 ^ k
bit_xor-lt zero a b ha hb = ground arith
bit_xor-lt (suc k) a b ha hb =
    ground (arith, pow-suc 2 k, bit_xor_step a b, bit_xor-lt k (a / 2) (b / 2))

-- `a & 0x01`, `a & 0x0F` and `a & 0xFF`.
pub bit_and-one : (x : ℕ) → bit_and x 1 ≡ x % 2
bit_and-one x = omega (bit_and-zero (x / 2), bit_and_step x 1, arith)

pub bit_and-nibble : (a : ℕ) → bit_and a 15 ≡ a % 16
bit_and-nibble a = omega (
  arith,
  bit_and_step a 15,
  bit_and_step (a / 2) 7,
  bit_and_step (a / 2 / 2) 3,
  bit_and-one (a / 2 / 2 / 2),
)

pub bit_and-byte : (a : ℕ) → bit_and a 255 ≡ a % 256
bit_and-byte a = omega (
  arith,
  bit_and_step a 255,
  bit_and_step (a / 2) 127,
  bit_and_step (a / 2 / 2) 63,
  bit_and_step (a / 2 / 2 / 2) 31,
  bit_and-nibble (a / 2 / 2 / 2 / 2),
)

-- `a & 0xFE` on a byte clears the lowest bit.
pub bit_and-even : (a : ℕ) → a < 256 → bit_and a 254 ≡ a / 2 * 2
bit_and-even a h = omega (
  arith,
  bit_and_step a 254,
  bit_and_step (a / 2) 127,
  bit_and_step (a / 2 / 2) 63,
  bit_and_step (a / 2 / 2 / 2) 31,
  bit_and-nibble (a / 2 / 2 / 2 / 2),
)

-- `a ^ mask` with a mask of `k` ones is a complement.
pub bit_xor-ones : (k a : ℕ) → a < 2 ^ k → bit_xor a (2 ^ k - 1) + a ≡ 2 ^ k - 1
bit_xor-ones zero a h = ground (arith, bit_xor-zero a)
bit_xor-ones (suc k) a h = omega (
  arith,
  pow-suc 2 k,
  bit_xor_step a (2 ^ suc k - 1),
  ap (bit_xor (a / 2)) {x = (2 ^ suc k - 1) / 2} {y = 2 ^ k - 1}
      (omega (arith, pow-suc 2 k, one-le-pow k 2)),
  bit_xor-ones k (a / 2) (omega (arith, pow-suc 2 k)),
  one-le-pow k 2,
)
