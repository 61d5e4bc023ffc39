-- ===== src/Bigint/Leading.antt =====
-- `hi0bits`.
use ocaml_solo.Prelude.{
  ℕ, ◌+◌, ◌-◌, ◌*◌, ◌%◌, ◌^◌, ◌≤◌, ◌<◌, ◌≡◌, ◌⊎◌, refl, ap, ◌∙◌, Bool-cases, Nat-cases, true, false,
  inl, inr, arith, ◌==◌, if◌then◌else◌, bit_and, high_bits,
}
use ocaml_solo.Bigint.Words.{pow_pos, pow_add, pow_next}
use native.Mathlib.Nat.{mul-le-mul_left, mul-le-mul_right, mul-pos}

-- One of the tests: are the bits of the mask zero, the number moves up by `j` bits.
unfoldable pub hi_step : ℕ → ℕ → ℕ × ℕ → ℕ × ℕ
hi_step mask j (k, x) = if bit_and x mask == 0 then (k + j, x * 2 ^ j % 2 ^ 32) else (k, x)

unfoldable pub hi0bits : ℕ → ℕ
hi0bits x =
    let s16 = hi_step 0xffff0000 16 (0, x) in
    let s24 = hi_step 0xff000000 8 s16 in
    let s28 = hi_step 0xf0000000 4 s24 in
    let (k, x) = hi_step 0xc0000000 2 s28 in
    if bit_and x 0x80000000 == 0 then if bit_and x 0x40000000 == 0 then 32 else k + 1 else k

-- `x` is the number moved up by `k` bits, and at least `low` unless it is 0.
abbrev Moved : ℕ → ℕ → ℕ × ℕ → Type 0
Moved low x0 (k, x) = (x ≡ x0 * 2 ^ k) × (x < 2 ^ 32) × ((x ≡ 0) ⊎ (low ≤ x))

hi_step-Moved :
    (mask j low low' x0 : ℕ) (s : ℕ × ℕ)
    → ((x : ℕ)
        → x < 2 ^ 32
        → (bit_and x mask == 0) ≡ true
        → (x * 2 ^ j < 2 ^ 32) × ((x ≡ 0) ⊎ (low ≤ x) → (x * 2 ^ j ≡ 0) ⊎ (low' ≤ x * 2 ^ j)))
    → ((x : ℕ) → x < 2 ^ 32 → (bit_and x mask == 0) ≡ false → low' ≤ x)
    → Moved low x0 s
    → Moved low' x0 (hi_step mask j s)
unfolding hi_step
hi_step-Moved mask j low low' x0 (k, x) zero_ high (e, lt, m) =
    elim (Bool-cases (bit_and x mask == 0)) [
      | inl clear ↦
          let (fits, grows) = zero_ x lt clear in
          let same : x * 2 ^ j % 2 ^ 32 ≡ x * 2 ^ j = omega arith in
          rw (clear, same)
            (ap (λ t. t * 2 ^ j) e ∙ omega (arith, ap (λ t. x0 * t) (pow_add 2 k j)), fits, grows m)
      | inr set ↦ rw set (e, lt, inr (high x lt set))
    ]

scanned :
    (x : ℕ)
    → x < 2 ^ 32
    → Moved (2 ^ 30) x (
        hi_step 0xc0000000 2
          (hi_step 0xf0000000 4 (hi_step 0xff000000 8 (hi_step 0xffff0000 16 (0, x)))))
scanned x lt =
    let m16 =
      hi_step-Moved 0xffff0000 16 1 (2 ^ 16) x (0, x)
        (λ x l z. let e = high_bits 16 16 x in ground arith)
        (λ x l z. let e = high_bits 16 16 x in ground arith) (omega arith, lt, ground arith) in
    let m8 =
      hi_step-Moved 0xff000000 8 (2 ^ 16) (2 ^ 24) x (hi_step 0xffff0000 16 (0, x))
        (λ x l z. let e = high_bits 8 24 x in ground arith)
        (λ x l z. let e = high_bits 8 24 x in ground arith) m16 in
    let m4 =
      hi_step-Moved 0xf0000000 4 (2 ^ 24) (2 ^ 28) x
        (hi_step 0xff000000 8 (hi_step 0xffff0000 16 (0, x)))
        (λ x l z. let e = high_bits 4 28 x in ground arith)
        (λ x l z. let e = high_bits 4 28 x in ground arith) m8 in
    hi_step-Moved 0xc0000000 2 (2 ^ 28) (2 ^ 30) x
      (hi_step 0xf0000000 4 (hi_step 0xff000000 8 (hi_step 0xffff0000 16 (0, x))))
      (λ x l z. let e = high_bits 2 30 x in ground arith)
      (λ x l z. let e = high_bits 2 30 x in ground arith) m4

-- What `hi0bits` tells of a word: it is 0, or moved up by `k` bits it has its highest bit set.
abbrev pub Leading : ℕ → ℕ → Type 0
Leading x k = ((x ≡ 0) × (k ≡ 32)) ⊎ ((k < 32) × (2 ^ 31 ≤ x * 2 ^ k) × (x * 2 ^ k < 2 ^ 32))

-- A positive number still fits `n` bits after `k` bits: then `k` is below `n`.
pub shift_bound : (n x k : ℕ) → 0 < x → x * 2 ^ k < 2 ^ n → k < n
shift_bound n x k h lt =
    let grows = mul-le-mul_right {m = 1} {n = x} (2 ^ k) h in
    elim (Nat-cases (n - k)) [
      | inl beyond ↦
          let e : n + (k - n) ≡ k = omega arith in
          let p = pow_add 2 n (k - n) in
          let q = mul-le-mul_left {m = 1} {n = 2 ^ (k - n)} (2 ^ n) (pow_pos (k - n)) in
          absurd (omega (arith, ap (λ t. 2 ^ t) e))
      | inr small ↦ omega arith
    ]

-- The last tests, on the bits 31 and 30.
abbrev hi_last : ℕ × ℕ → ℕ
hi_last (k, x) =
    if bit_and x 0x80000000 == 0 then if bit_and x 0x40000000 == 0 then 32 else k + 1 else k

hi_last-Leading : (x : ℕ) (s : ℕ × ℕ) → Moved (2 ^ 30) x s → Leading x (hi_last s)
hi_last-Leading x (k, y) (e, l, inl none_) =
    let zero_ : x ≡ 0 = elim (Nat-cases x) [
      | inl z ↦ z
      | inr positive ↦ absurd (let p = mul-pos positive (pow_pos k) in omega arith)
    ] in
    rw none_ (inl (zero_, refl))
hi_last-Leading x (k, y) (e, l, inr some_) =
    let top = high_bits 1 31 y in
    let next = high_bits 1 30 y in
    let p = pow_next k in
    let up : x * 2 ^ (k + 1) ≡ 2 * y = omega (arith, ap (λ t. x * t) (pow_next k)) in
    let positive : 0 < x = elim (Nat-cases x) [
      | inl z ↦ absurd (let none_ = ap (λ (t : ℕ). t * 2 ^ k) z in omega arith)
      | inr positive ↦ positive
    ] in
    elim (Bool-cases (bit_and y 0x80000000 == 0)) [
      | inl clear ↦
          let set : (bit_and y 0x40000000 == 0) ≡ false = ground arith in
          rw (clear, set)
            (inr (shift_bound 32 x (k + 1) positive (ground arith), ground arith, ground arith))
      | inr set ↦
          rw set (inr (shift_bound 32 x k positive (ground arith), ground arith, ground arith))
    ]

-- `hi0bits` counts the zero bits in front, 32 for the word 0.
pub hi0bits-Leading : (x : ℕ) → x < 2 ^ 32 → Leading x (hi0bits x)
unfolding hi0bits
hi0bits-Leading x lt =
    hi_last-Leading x
      (hi_step 0xc0000000 2
        (hi_step 0xf0000000 4 (hi_step 0xff000000 8 (hi_step 0xffff0000 16 (0, x)))))
      (scanned x lt)
