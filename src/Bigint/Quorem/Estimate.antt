-- ===== src/Bigint/Quorem/Estimate.antt =====
-- The first quotient of `quorem` is not too large, and at most one too small.
use native.Mathlib.Nat.{mul-le-mul_left, mul-le-mul_right, lt_of_mul-lt-mul_right, mod-lt}
use native.Mathlib.Omega.{div_any}
use ocaml_solo.Prelude.{
  ℕ, zero, suc, ◌+◌, ◌-◌, ◌*◌, ◌/◌, ◌%◌, ◌^◌, ◌≤◌, ◌<◌, ◌≡◌, Bool-cases, ltb, inl, inr, List, [],
  ◌∷◌, arith,
}
use ocaml_solo.Bigint.Words.{length, Below, value, span}
use ocaml_solo.Bigint.Quorem.{word, estimate}

-- The highest word bounds the value on both sides.
top_bounds :
    (ws : List ℕ) (n : ℕ)
    → Below ws
    → length ws ≡ suc n
    → (word ws n * span n ≤ value ws) × (value ws < (word ws n + 1) * span n)
unfolding value span
top_bounds [] n b l = absurd (omega arith)
top_bounds (w ∷ []) zero b l = (omega arith, omega arith)
top_bounds (w ∷ []) (suc n) b l = absurd (omega arith)
top_bounds (w ∷ (v ∷ vs)) zero b l = absurd (omega arith)
top_bounds (w ∷ (v ∷ vs)) (suc n) (h, b) l =
    let (low, high) = top_bounds (v ∷ vs) n b (omega arith) in (omega arith, omega arith)

quotient_bounds : (b s : ℕ) → (b / (s + 1) * (s + 1) ≤ b) × (b < (b / (s + 1) + 1) * (s + 1))
quotient_bounds b s =
    let parts = div_any b (s + 1) in
    let low = mod-lt b {m = s + 1} (omega arith) in (omega arith, omega arith)

module _ (bs ss : List ℕ) (n : ℕ) (below_b : Below bs) (below_s : Below ss)
    (long_b : length bs ≡ suc n) (long_s : length ss ≡ suc n) (top : word ss n < 2 ^ 32 - 1) where
  estimate_bounds :
      (estimate bs ss * (word ss n + 1) ≤ word bs n)
      × (word bs n < (estimate bs ss + 1) * (word ss n + 1))
  unfolding estimate
  estimate_bounds =
      let last : length ss - 1 ≡ n = omega arith in
      let next : (word ss n + 1) % 2 ^ 32 ≡ word ss n + 1 = omega arith in
      rw (last, next) (quotient_bounds (word bs n) (word ss n))

  -- `q` times the divisor is at most the dividend.
  pub estimate-le : estimate bs ss * value ss ≤ value bs
  estimate-le =
      let (low, high) = estimate_bounds in
      let (s_low, s_high) = top_bounds ss n below_s long_s in
      let (b_low, b_high) = top_bounds bs n below_b long_b in
      let q = estimate bs ss in
      let first : q * value ss ≤ q * ((word ss n + 1) * span n) = mul-le-mul_left q (omega arith) in
      let second : q * (word ss n + 1) * span n ≤ word bs n * span n =
        mul-le-mul_right (span n) low in
      omega arith

  not_twice :
      10 ≤ word ss n → value bs < 10 * value ss → (estimate bs ss + 2) * value ss ≤ value bs → ⊥
  not_twice large digit far =
      let (low, high) = estimate_bounds in
      let (s_low, s_high) = top_bounds ss n below_s long_s in
      let (b_low, b_high) = top_bounds bs n below_b long_b in
      let q = estimate bs ss in
      let small : q < 10 = lt_of_mul-lt-mul_right (value ss) (let e = estimate-le in omega arith) in
      let more : (q + 2) * (word ss n * span n) ≤ (q + 2) * value ss =
        mul-le-mul_left (q + 2) s_low in
      let tops : (q + 2) * word ss n < word bs n + 1 =
        lt_of_mul-lt-mul_right (span n) (omega arith) in
      omega arith

  -- Where the quotient is a decimal digit and the divisor's highest word is 10 or more, one more
  -- subtraction is enough.
  pub estimate_close :
      10 ≤ word ss n → value bs < 10 * value ss → value bs < (estimate bs ss + 2) * value ss
  estimate_close large digit =
      elim (Bool-cases (ltb (value bs) ((estimate bs ss + 2) * value ss))) [
        | inl yes_ ↦ ground arith
        | inr no_ ↦ absurd (not_twice large digit (ground arith))
      ]
