-- ===== src/Crypto/Keys/Moving.antt =====
-- The loop of rotateRight that moves the bytes up.
use nfc_cpp.Base.{
  ℕ, zero, suc, ◌+◌, ◌-◌, ◌%◌, ◌^◌, ◌≤◌, ◌<◌, ◌≡◌, refl, sym, ap, ◌∙◌, arith, List, [], ◌∷◌, ◌++◌,
  length, set, some, ok, fault, read, le→leb, lt→leb, lt→ltb, append_assoc, length-append,
  length-set, get_elem?-in, get_elem?-out,
}
use nfc_cpp.Crypto.Keys.{store, move_up}

-- A list that is not empty ends in a byte.
pub unsnoc :
    (k : ℕ) (xs : List ℕ)
    → length xs ≡ suc k
    → (init : List ℕ) × (b : ℕ) × (xs ≡ init ++ (b ∷ [])) × (length init ≡ k)
unsnoc zero [] h = absurd (omega arith)
unsnoc zero (x ∷ []) h = ([], x, refl, refl)
unsnoc zero (x ∷ y ∷ ys) h = absurd (omega arith)
unsnoc (suc k) [] h = absurd (omega arith)
unsnoc (suc k) (x ∷ xs) h =
    let (init, b, e, n) = unsnoc k xs (omega arith) in
    (x ∷ init, b, ap (λ (ys : List ℕ). x ∷ ys) e, omega arith)

read-append : (u rest : List ℕ) (b : ℕ) → read (u ++ (b ∷ rest)) (length u) ≡ ok b
read-append [] rest b = refl
read-append (x ∷ u) rest b = read-append u rest b

set-append : (u rest : List ℕ) (a b : ℕ) → set (u ++ (a ∷ rest)) (length u) b ≡ u ++ (b ∷ rest)
set-append [] rest a b = refl
set-append (x ∷ u) rest a b = ap (λ (ys : List ℕ). x ∷ ys) (set-append u rest a b)

store-append :
    (u rest : List ℕ) (a b : ℕ) → store (u ++ (a ∷ rest)) (length u) b ≡ ok (u ++ (b ∷ rest))
unfolding store
store-append u rest a b =
    rw
      (
        lt→ltb (length u) (length (u ++ (a ∷ rest))) (omega (arith, length-append u (a ∷ rest))),
        set-append u rest a b,
      )
      refl

stop :
    (fuel : ℕ) (block : List ℕ) (n i : ℕ) → i < n → move_up (suc fuel) block n i ≡ some (ok block)
unfolding move_up
stop fuel block n i h = rw (move_up, lt→leb n i h) refl

go_on :
    (fuel : ℕ) (block block' : List ℕ) (n i b : ℕ)
    → n ≤ i
    → read block (i - n) ≡ ok b
    → store block i b ≡ ok block'
    → move_up (suc fuel) block n i ≡ move_up fuel block' n ((i + (2 ^ 64 - 1)) % 2 ^ 64)
unfolding move_up
go_on fuel block block' n i b h reads writes = rw (move_up, le→leb n i h, reads, writes) refl

-- With `u` still to move, `n` bytes that were copied or saved, and `w` moved.
pub move_up_moves :
    (k fuel n : ℕ) (u e w : List ℕ)
    → length u ≡ k
    → length e ≡ n
    → 0 < n
    → k < fuel
    → k + n < 2 ^ 64
    → (e' : List ℕ) × (length e' ≡ n)
      × (move_up fuel (u ++ (e ++ w)) n (k + n - 1) ≡ some (ok (e' ++ (u ++ w))))
move_up_moves k zero n u e w hu he pos room small = absurd (omega arith)
move_up_moves zero (suc fuel) n [] e w hu he pos room small =
    (e, he, stop fuel (e ++ w) n (zero + n - 1) (omega arith))
move_up_moves zero (suc fuel) n (x ∷ u) e w hu he pos room small = absurd (omega arith)
move_up_moves (suc k) (suc fuel) n u e w hu he pos room small =
    let (u', b, eu, nu) = unsnoc k u hu in
    let (e', z, ee, ne) = unsnoc n (b ∷ e) (omega arith) in
    let (out, size, eo) =
      move_up_moves k fuel n u' e' (b ∷ w) nu ne pos (omega arith) (omega arith) in
    let front : u ++ (e ++ w) ≡ u' ++ (b ∷ (e ++ w)) =
      ap (λ (xs : List ℕ). xs ++ (e ++ w)) eu ∙ append_assoc u' (b ∷ []) (e ++ w) in
    let back : u' ++ (b ∷ (e ++ w)) ≡ (u' ++ e') ++ (z ∷ w) =
      ap (λ (xs : List ℕ). u' ++ (xs ++ w)) ee
      ∙ ap (λ (xs : List ℕ). u' ++ xs) (append_assoc e' (z ∷ []) w)
      ∙ sym (append_assoc u' e' (z ∷ w)) in
    let reads : read (u' ++ (b ∷ (e ++ w))) (suc k + n - 1 - n) ≡ ok b =
      ap (read (u' ++ (b ∷ (e ++ w)))) {x = suc k + n - 1 - n} {y = length u'} (omega arith)
      ∙ read-append u' (e ++ w) b in
    let writes : store (u' ++ (b ∷ (e ++ w))) (suc k + n - 1) b ≡ ok ((u' ++ e') ++ (b ∷ w)) =
      ap (λ (xs : List ℕ). store xs (suc k + n - 1) b) back
      ∙ ap (λ (i : ℕ). store ((u' ++ e') ++ (z ∷ w)) i b) {x = suc k + n - 1}
          {y = length (u' ++ e')} (omega (arith, length-append u' e'))
      ∙ store-append (u' ++ e') w z b in
    let index : (suc k + n - 1 + (2 ^ 64 - 1)) % 2 ^ 64 ≡ k + n - 1 = omega arith in
    let rest : out ++ (u' ++ (b ∷ w)) ≡ out ++ (u ++ w) =
      ap (λ (xs : List ℕ). out ++ xs)
        (sym (append_assoc u' (b ∷ []) w) ∙ ap (λ (xs : List ℕ). xs ++ w) (sym eu)) in
    (
      out,
      size,
      ap (λ (xs : List ℕ). move_up (suc fuel) xs n (suc k + n - 1)) front
          ∙ go_on fuel _ _ n (suc k + n - 1) b (omega arith) reads writes
          ∙ ap (move_up fuel ((u' ++ e') ++ (b ∷ w)) n) index
          ∙ ap (λ (xs : List ℕ). move_up fuel xs n (k + n - 1)) (append_assoc u' e' (b ∷ w))
          ∙ eo
          ∙ ap (λ (xs : List ℕ). some (ok xs)) rest,
    )

fails :
    (fuel : ℕ) (block : List ℕ) (n i : ℕ)
    → n ≤ i
    → length block ≤ i - n
    → move_up (suc fuel) block n i ≡ some fault
unfolding move_up
fails fuel block n i h out = rw (move_up, le→leb n i h, get_elem?-out block (i - n) out) refl

-- With nothing to rotate the loop copies each byte onto itself, its index wraps below zero, and it
-- reads outside the vector.
pub move_up_leaves :
    (i fuel : ℕ) (block : List ℕ)
    → i < length block
    → i + 1 < fuel
    → length block < 2 ^ 64
    → move_up fuel block 0 i ≡ some fault
move_up_leaves i zero block h room small = absurd (omega arith)
move_up_leaves zero (suc zero) block h room small = absurd (omega arith)
move_up_leaves zero (suc (suc fuel)) block h room small =
    let (b, found) = get_elem?-in block 0 h in
    go_on (suc fuel) block (set block 0 b) 0 0 b (omega arith) (rw found refl)
      (unfold store in rw (lt→ltb 0 (length block) h) refl)
    ∙ ap (move_up (suc fuel) (set block 0 b) 0) {x = (0 + (2 ^ 64 - 1)) % 2 ^ 64} {y = 2 ^ 64 - 1}
        (omega arith)
    ∙ fails fuel (set block 0 b) 0 (2 ^ 64 - 1) (omega arith) (omega (arith, length-set block 0 b))
move_up_leaves (suc i) (suc fuel) block h room small =
    let (b, found) = get_elem?-in block (suc i) h in
    let same : suc i - 0 ≡ suc i = omega arith in
    go_on fuel block (set block (suc i) b) 0 (suc i) b (omega arith) (rw (same, found) refl)
      (unfold store in rw (lt→ltb (suc i) (length block) h) refl)
    ∙ ap (move_up fuel (set block (suc i) b) 0) {x = (suc i + (2 ^ 64 - 1)) % 2 ^ 64} {y = i}
        (omega arith)
    ∙ move_up_leaves i fuel (set block (suc i) b) (omega (arith, length-set block (suc i) b))
        (omega arith) (omega (arith, length-set block (suc i) b))
