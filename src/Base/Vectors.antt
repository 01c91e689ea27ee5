-- ===== src/Base/Vectors.antt =====
-- Byte arrays and `etl::vector`, whose capacity is fixed: reads, pushes and copies that fault
-- where C++ has no defined behaviour.
use Prim.Native.Nat.{ℕ, ◌+◌, ◌≤◌, ◌<◌}
use mathlib.Core.Path.{◌≡◌, refl}
use mathlib.Core.List.{List, [], ◌∷◌, ◌++◌}
use native.Mathlib.Omega.{arith}
use nfc_cpp.Base.Tests.{leb, if◌then◌else◌, le→leb, lt→leb}
use nfc_cpp.Base.Lists.{length, get_elem?, take, drop, length-take, length-drop}
use nfc_cpp.Base.Outcome.{Result, ok, fault, or_fault}

abbrev pub IsByte : ℕ → Type 0
IsByte b = b < 256

-- xs[i]
abbrev pub read : List ℕ → ℕ → Result ℕ
read xs i = or_fault (get_elem? xs i)

-- The `n` bytes from `off`, as a copying loop reads them.
unfoldable pub slice : List ℕ → ℕ → ℕ → Result (List ℕ)
slice xs off n = if leb (off + n) (length xs) then ok (take n (drop off xs)) else fault

-- A loop of `push_back` calls onto an `etl::vector` of capacity `cap`.
abbrev pub push_all : ℕ → List ℕ → List ℕ → Result (List ℕ)
push_all cap xs ys = if leb (length xs + length ys) cap then ok (xs ++ ys) else fault

abbrev pub push : ℕ → List ℕ → ℕ → Result (List ℕ)
push cap xs b = push_all cap xs (b ∷ [])

pub slice_in :
    (xs : List ℕ) (off n : ℕ) → off + n ≤ length xs → slice xs off n ≡ ok (take n (drop off xs))
unfolding slice
slice_in xs off n h = rw (le→leb _ _ h)

pub slice_out : (xs : List ℕ) (off n : ℕ) → length xs < off + n → slice xs off n ≡ fault
unfolding slice
slice_out xs off n h = rw (lt→leb _ _ h)

pub length-slice :
    (xs : List ℕ) (off n : ℕ) → off + n ≤ length xs → length (take n (drop off xs)) ≡ n
length-slice xs off n h = length-take n (drop off xs) (omega (arith, length-drop off xs))

pub push_all_fits :
    (cap : ℕ) (xs ys : List ℕ) → length xs + length ys ≤ cap → push_all cap xs ys ≡ ok (xs ++ ys)
push_all_fits cap xs ys h = rw (le→leb (length xs + length ys) cap h) refl
