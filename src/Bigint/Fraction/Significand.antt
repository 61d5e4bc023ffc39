-- ===== src/Bigint/Fraction/Significand.antt =====
-- The words of a double from 1 to 2 with the highest bits of a number.
use native.Mathlib.Nat.{lt_of_mul-lt-mul_right, mod-lt, mul-le-mul_right}
use native.Mathlib.Omega.{div_any}
use ocaml_solo.Prelude.{
  ℕ, suc, ◌+◌, ◌-◌, ◌*◌, ◌/◌, ◌%◌, ◌^◌, ◌≤◌, ◌<◌, ◌≡◌, ap, sym, ◌∙◌, Bool-cases, Nat-cases, true,
  false, inl, inr, arith, ltb, ◌==◌, bit_or, bit_or_fields, bit_or_sum, zero-bit_or,
}
use ocaml_solo.Bigint.Fraction.{words_of}
use ocaml_solo.Bigint.Words.{pow_pos, pow_add}
use ocaml_solo.Bigint.Shift.{pow_split, shifted}

-- The exponent of a number from 1 to 2, above 20 bits with their highest set.
exponent_above : (h : ℕ) → 2 ^ 20 ≤ h → h < 2 ^ 21 → bit_or 0x3ff00000 h ≡ 0x3fe00000 + h
exponent_above h low high =
    let e : h ≡ 1 * 2 ^ 20 + (h - 2 ^ 20) = omega arith in
    let f = bit_or_fields 20 0x3ff 0 1 (h - 2 ^ 20) (omega arith) (omega arith) in
    ap (bit_or 0x3ff00000) e ∙ f ∙ rw (zero-bit_or (h - 2 ^ 20)) (omega arith)

-- The 53 bits that a double from 1 to 2 holds.
abbrev pub significand : ℕ × ℕ → ℕ
significand (d0, d1) = (d0 % 2 ^ 20 + 2 ^ 20) * 2 ^ 32 + d1

-- The words of a double from 1 to 2, with the highest bits of `n`, whose low `m` is left out.
abbrev pub IsTop : ℕ → ℕ → ℕ × ℕ → Type 0
IsTop n m (d0, d1) =
    (d0 / 2 ^ 20 ≡ 0x3ff) × (d1 < 2 ^ 32) × (r : ℕ) × (significand (d0, d1) * m + r ≡ n) × (r < m)

joined_words :
    (h d1 n m r : ℕ)
    → 2 ^ 20 ≤ h
    → h < 2 ^ 21
    → d1 < 2 ^ 32
    → (h * 2 ^ 32 + d1) * m + r ≡ n
    → r < m
    → IsTop n m (0x3fe00000 + h, d1)
joined_words h d1 n m r low high lt e small =
    let same : (0x3fe00000 + h) % 2 ^ 20 + 2 ^ 20 ≡ h = omega arith in
    (omega arith, lt, r, rw same e, small)

few_zeros :
    (k y z y1 : ℕ)
    → k < 11
    → z < 2 ^ 32
    → y1 < 2 ^ 32
    → y < 2 ^ 32
    → 2 ^ 31 ≤ y * 2 ^ k
    → y * 2 ^ k < 2 ^ 32
    → IsTop (y * 2 ^ 64 + z * 2 ^ 32 + y1) (2 ^ (11 - k) * 2 ^ 32) (
      bit_or 0x3ff00000 (y / 2 ^ (11 - k)),
      bit_or (y * 2 ^ (32 - 11 + k) % 2 ^ 32) (z / 2 ^ (11 - k)),
    )
few_zeros k y z y1 hk hz hy1 hy low high =
    let q = 2 ^ (11 - k) in
    let p = 2 ^ (32 - 11 + k) in
    let size : 32 - 11 + k ≡ 32 - (11 - k) = omega arith in
    let e : q * p ≡ 2 ^ 32 =
      omega (arith, pow_split (11 - k) (omega arith), ap (λ n. 2 ^ (11 - k) * 2 ^ n) size) in
    let all : 11 - k + k ≡ 11 = omega arith in
    let down : q * 2 ^ k ≡ 2 ^ 11 = sym (pow_add 2 (11 - k) k) ∙ ap (λ n. 2 ^ n) all in
    let wz =
      (shifted p q z 0 e (pow_pos (11 - k)) (pow_pos (32 - 11 + k)) hz (pow_pos (32 - 11 + k))).2 in
    let (moved, fits, hh) =
      shifted p q y (z / q) e (pow_pos (11 - k)) (pow_pos (32 - 11 + k)) hy wz in
    let ydiv = div_any y q in
    let zdiv = div_any z q in
    let ry = mod-lt y {m = q} (pow_pos (11 - k)) in
    let rz = mod-lt z {m = q} (pow_pos (11 - k)) in
    let scaled = ap (λ (t : ℕ). t * 2 ^ k) ydiv in
    let scaled' = ap (λ (t : ℕ). y / q * t) down in
    let room = mul-le-mul_right {m = suc (y % q)} {n = q} (2 ^ k) ry in
    let h_low : 2 ^ 20 ≤ y / q = omega (arith, pow_pos k) in
    let h_high : y / q < 2 ^ 21 = omega arith in
    rw (moved, exponent_above (y / q) h_low h_high, bit_or_sum (32 - 11 + k) (y % q) (z / q) wz)
      (joined_words (y / q) (y % q * p + z / q) (y * 2 ^ 64 + z * 2 ^ 32 + y1) (q * 2 ^ 32)
        (z % q * 2 ^ 32 + y1) h_low h_high fits
        (omega (arith, ydiv, zdiv, ap (λ (t : ℕ). y % q * t) e)) (omega arith))

-- A product of powers, with the exponents in either order.
pub power_split : (n s : ℕ) → s ≤ n → 2 ^ (n - s) * 2 ^ s ≡ 2 ^ n
power_split n s h =
    let all : n - s + s ≡ n = omega arith in sym (pow_add 2 (n - s) s) ∙ ap (λ t. 2 ^ t) all

many_zeros :
    (s y z y1 : ℕ)
    → s ≤ 20
    → z < 2 ^ 32
    → y1 < 2 ^ 32
    → 2 ^ 20 ≤ y * 2 ^ s
    → y * 2 ^ s < 2 ^ 21
    → IsTop (y * 2 ^ 64 + z * 2 ^ 32 + y1) (2 ^ (32 - s)) (
      bit_or (bit_or 0x3ff00000 (y * 2 ^ s % 2 ^ 32)) (z / 2 ^ (32 - s)),
      bit_or (z * 2 ^ s % 2 ^ 32) (y1 / 2 ^ (32 - s)),
    )
many_zeros s y z y1 hs hz hy1 low high =
    let q = 2 ^ (32 - s) in
    let p = 2 ^ s in
    let e : q * p ≡ 2 ^ 32 = power_split 32 s (omega arith) in
    let e20 = power_split 20 s hs in
    let e21 = power_split 21 s (omega arith) in
    let less : y < 2 ^ (21 - s) =
      lt_of_mul-lt-mul_right p {m = y} {n = 2 ^ (21 - s)} (omega arith) in
    let room = mul-le-mul_right {m = suc y} {n = 2 ^ (21 - s)} p less in
    let wy = (shifted p q y1 0 e (pow_pos (32 - s)) (pow_pos s) hy1 (pow_pos s)).2 in
    let (moved, fits, wz) = shifted p q z (y1 / q) e (pow_pos (32 - s)) (pow_pos s) hz wy in
    let zdiv = div_any z q in
    let y1div = div_any y1 q in
    let r1 = mod-lt y1 {m = q} (pow_pos (32 - s)) in
    let whole : y * p % 2 ^ 32 ≡ y * p = omega arith in
    let l = 0x3fe * 2 ^ (20 - s) + y in
    let high_part : 0x3fe00000 + y * p ≡ l * p = omega arith in
    let sum : bit_or (bit_or 0x3ff00000 (y * p % 2 ^ 32)) (z / q) ≡ 0x3fe00000 + (y * p + z / q) =
      rw (whole, exponent_above (y * p) low high, high_part)
        (bit_or_sum s l (z / q) wz ∙ omega arith) in
    rw (sum, moved, bit_or_sum s (z % q) (y1 / q) wy)
      (joined_words (y * p + z / q) (z % q * p + y1 / q) (y * 2 ^ 64 + z * 2 ^ 32 + y1) q (y1 % q)
        (omega arith) (omega arith) fits
        (omega (arith, zdiv, y1div, ap (λ (t : ℕ). z % q * t) e, ap (λ (t : ℕ). y * t) e)) r1)

pub words_of-IsTop :
    (k y z y1 : ℕ)
    → k < 32
    → y < 2 ^ 32
    → z < 2 ^ 32
    → y1 < 2 ^ 32
    → 2 ^ 31 ≤ y * 2 ^ k
    → y * 2 ^ k < 2 ^ 32
    → IsTop (y * 2 ^ 64 + z * 2 ^ 32 + y1) (2 ^ (43 - k)) (words_of k y z y1)
unfolding words_of
words_of-IsTop k y z y1 hk hy hz hy1 low high = elim (Bool-cases (ltb k 11)) [
  | inl few ↦
      let size : 43 - k ≡ 11 - k + 32 = ground arith in
      rw (few, size, pow_add 2 (11 - k) 32) (few_zeros k y z y1 (ground arith) hz hy1 hy low high)
  | inr many ↦
      let size : 43 - k ≡ 32 - (k - 11) = ground arith in
      let up : k ≡ k - 11 + 11 = ground arith in
      let scaled = ap (λ n. y * 2 ^ n) up in
      let parts = ap (λ (t : ℕ). y * t) (pow_add 2 (k - 11) 11) in
      elim (Nat-cases (k - 11)) [
        | inl none_ ↦
            let b : (k - 11 == 0) ≡ true = ground arith in
            let one = ap (λ n. y * 2 ^ n) none_ in
            let low_ : 2 ^ 20 ≤ y = omega arith in
            let high_ : y < 2 ^ 21 = omega arith in
            rw (many, b, size, none_, exponent_above y low_ high_)
              (joined_words y z (y * 2 ^ 64 + z * 2 ^ 32 + y1) (2 ^ 32) y1 low_ high_ hz
                (omega arith) hy1)
        | inr some_ ↦
            let b : (k - 11 == 0) ≡ false = ground arith in
            rw (many, b, size)
              (many_zeros (k - 11) y z y1 (omega arith) hz hy1 (omega arith) (omega arith))
      ]
]
