-- ===== src/Bigint/Trailing.antt =====
-- `lo0bits`.
use ocaml_solo.Prelude.{
  ℕ, ◌+◌, ◌-◌, ◌*◌, ◌/◌, ◌%◌, ◌^◌, ◌<◌, ◌≡◌, ◌⊎◌, refl, ap, ◌∙◌, Bool-cases, false, inl, inr, arith,
  ◌==◌, if◌then◌else◌, bit_and, bit_and_mask, high_bits,
}
use ocaml_solo.Bigint.Words.{pow_add, pow_next}
use ocaml_solo.Bigint.Leading.{shift_bound}

-- One of the tests: are the low bits zero, the number moves down by `j` bits.
unfoldable pub lo_step : ℕ → ℕ → ℕ × ℕ → ℕ × ℕ
lo_step mask j (k, x) = if bit_and x mask == 0 then (k + j, x / 2 ^ j) else (k, x)

-- The tests for a word `y` whose lowest three bits are zero.
unfoldable pub low_scan : ℕ → ℕ × ℕ
low_scan y =
    let s16 = lo_step 0xffff 16 (0, y) in
    let s24 = lo_step 0xff 8 s16 in
    let s28 = lo_step 0xf 4 s24 in
    let (k, x) = lo_step 0x3 2 s28 in
    if bit_and x 1 == 0 then if x / 2 == 0 then (32, y) else (k + 1, x / 2) else (k, x)

-- The count, and the word that `lo0bits` leaves at its argument.
unfoldable pub lo0bits : ℕ → ℕ × ℕ
lo0bits y =
    if bit_and y 7 == 0
    then low_scan y
    else if bit_and y 1 == 0
    then if bit_and y 2 == 0 then (2, y / 2 ^ 2) else (1, y / 2)
    else (0, y)

-- `x` is `y` moved down by `k` bits, and one of its bits below `2 ^ i` is set unless it is 0.
abbrev Moved : ℕ → ℕ → ℕ × ℕ → Type 0
Moved p y (k, x) = (y ≡ x * 2 ^ k) × ((x ≡ 0) ⊎ (0 < x % p))

lo_step-Moved :
    (j p y : ℕ) (s : ℕ × ℕ)
    → ((x : ℕ)
        → x % 2 ^ j ≡ 0
        → (x ≡ x / 2 ^ j * 2 ^ j)
          × ((x ≡ 0) ⊎ (0 < x % p) → (x / 2 ^ j ≡ 0) ⊎ (0 < x / 2 ^ j % 2 ^ j)))
    → Moved p y s
    → Moved (2 ^ j) y (lo_step (2 ^ j - 1) j s)
unfolding lo_step
lo_step-Moved j p y (k, x) down (e, m) =
    let low = bit_and_mask j x in
    elim (Bool-cases (bit_and x (2 ^ j - 1) == 0)) [
      | inl clear ↦
          let (whole, some_) = down x (ground arith) in
          rw clear (
            e ∙ ap (λ t. t * 2 ^ k) whole ∙ omega (arith, ap (λ t. x / 2 ^ j * t) (pow_add 2 k j)),
            some_ m,
          )
      | inr set ↦ rw set (e, inr (ground arith))
    ]

scan : ℕ → ℕ × ℕ
scan y = lo_step 0x3 2 (lo_step 0xf 4 (lo_step 0xff 8 (lo_step 0xffff 16 (0, y))))

scanned : (y : ℕ) → y < 2 ^ 32 → Moved (2 ^ 2) y (scan y)
unfolding scan
scanned y lt =
    let s16 = lo_step 0xffff 16 (0, y) in
    let s24 = lo_step 0xff 8 s16 in
    let m16 =
      lo_step-Moved 16 (2 ^ 32) y (0, y) (λ x e. (omega arith, λ m. ground arith))
        (omega arith, ground arith) in
    let m8 = lo_step-Moved 8 (2 ^ 16) y s16 (λ x e. (omega arith, λ m. ground arith)) m16 in
    let m4 = lo_step-Moved 4 (2 ^ 8) y s24 (λ x e. (omega arith, λ m. ground arith)) m8 in
    lo_step-Moved 2 (2 ^ 4) y (lo_step 0xf 4 s24) (λ x e. (omega arith, λ m. ground arith)) m4

-- A word `y` is 0, or `k` zero bits stand below an odd `x`.
abbrev pub Trailing : ℕ → ℕ × ℕ → Type 0
Trailing y (k, x) = ((y ≡ 0) × (k ≡ 32) × (x ≡ 0)) ⊎ ((k < 32) × (y ≡ x * 2 ^ k) × (x % 2 ≡ 1))

abbrev lo_last : ℕ → ℕ × ℕ → ℕ × ℕ
lo_last y (k, x) =
    if bit_and x 1 == 0 then if x / 2 == 0 then (32, y) else (k + 1, x / 2) else (k, x)

lo_last-Trailing : (y : ℕ) (s : ℕ × ℕ) → y < 2 ^ 32 → Moved (2 ^ 2) y s → Trailing y (lo_last y s)
lo_last-Trailing y (k, x) lt (e, inl none_) =
    let zero_ : y ≡ 0 = e ∙ omega (arith, ap (λ (t : ℕ). t * 2 ^ k) none_) in
    rw none_ (inl (zero_, refl, zero_))
lo_last-Trailing y (k, x) lt (e, inr some_) =
    let low = bit_and_mask 1 x in
    elim (Bool-cases (bit_and x 1 == 0)) [
      | inl clear ↦
          let more : (x / 2 == 0) ≡ false = ground arith in
          let half : x ≡ x / 2 * 2 = ground arith in
          let whole : y ≡ x / 2 * 2 ^ (k + 1) =
            e ∙ ap (λ t. t * 2 ^ k) half ∙ omega (arith, ap (λ t. x / 2 * t) (pow_next k)) in
          rw (clear, more)
            (inr (shift_bound 32 (x / 2) (k + 1) (ground arith) (omega arith), whole, ground arith))
      | inr set ↦ rw set (inr (shift_bound 32 x k (ground arith) (omega arith), e, ground arith))
    ]

-- `lo0bits` counts the zero bits at the end and moves the word down by them, 32 for the word 0.
pub lo0bits-Trailing : (y : ℕ) → y < 2 ^ 32 → Trailing y (lo0bits y)
unfolding lo0bits low_scan scan
lo0bits-Trailing y lt =
    let low3 = bit_and_mask 3 y in
    let low2 = high_bits 1 1 y in
    let low1 = bit_and_mask 1 y in
    elim (Bool-cases (bit_and y 7 == 0)) [
      | inl clear ↦ rw clear (lo_last-Trailing y (scan y) lt (scanned y lt))
      | inr set ↦ elim (Bool-cases (bit_and y 1 == 0)) [
        | inr odd ↦ rw (set, odd) (inr (omega arith, omega arith, ground arith))
        | inl even ↦ elim (Bool-cases (bit_and y 2 == 0)) [
          | inr second ↦ rw (set, even, second) (inr (omega arith, ground arith, ground arith))
          | inl third ↦ rw (set, even, third) (inr (omega arith, ground arith, ground arith))
        ]
      ]
    ]
