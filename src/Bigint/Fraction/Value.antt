-- ===== src/Bigint/Fraction/Value.antt =====
-- The value of the double that `b2d` gives.
use native.Mathlib.Nat.{div-eq_of_lt-le, mul-div-mul_right, mul-le-mul_right}
use ocaml_solo.Prelude.{
  ℕ, suc, ◌+◌, ◌-◌, ◌*◌, ◌/◌, ◌^◌, ◌<◌, ◌≡◌, ap, ap₂, sym, ◌∙◌, inl, inr, List, [], ◌∷◌, arith,
}
use ocaml_solo.Bigint.{Bigint, IsValid}
use ocaml_solo.Bigint.Words.{length, value, Below, Top, span, pow_add, Trimmed-Top}
use ocaml_solo.Bigint.Shift.{span-pow}
use ocaml_solo.Bigint.Leading.{hi0bits, hi0bits-Leading}
use ocaml_solo.Bigint.Fraction.{
  b2d, words_of, from_top, from_top-lt, from_top-positive, top3, top_three,
}
use ocaml_solo.Bigint.Fraction.Significand.{IsTop, words_of-IsTop, significand}

-- A quotient twice, from the two divisions with remainder.
quotient :
    (v t s m q r r' : ℕ) → v ≡ t * s + r → r < s → q * m + r' ≡ t → r' < m → 0 < s → v / (m * s) ≡ q
quotient v t s m q r r' e lt e' lt' h =
    let room = mul-le-mul_right {m = suc r'} {n = m} s lt' in
    let whole : v ≡ q * (m * s) + (r' * s + r) = omega (arith, ap (λ (n : ℕ). n * s) e') in
    div-eq_of_lt-le {k = q} (m * s) {m = v} (omega arith) (omega arith)

-- The double, from 1 to 2, that `b2d` gives, and the exponent.
abbrev pub IsFraction : Bigint → ℕ × ℕ × ℕ → Type 0
IsFraction a (d0, d1, e) =
    (d0 / 2 ^ 20 ≡ 0x3ff)
    × (d1 < 2 ^ 32)
    × (significand (d0, d1) ≡ value a.x * 2 ^ 53 / 2 ^ (32 * (length a.x - 1) + e))

highest-IsTop :
    (w : ℕ) (ws : List ℕ)
    → Below (w ∷ ws)
    → Top (w ∷ ws)
    → let k = hi0bits (from_top (w ∷ ws) 0) in
      (k < 32)
      × IsTop
          (top3 (w ∷ ws))
          (2 ^ (43 - k))
          (words_of k (from_top (w ∷ ws) 0) (from_top (w ∷ ws) 1) (from_top (w ∷ ws) 2))
highest-IsTop w ws b t =
    let y = from_top (w ∷ ws) 0 in
    let lt = from_top-lt (w ∷ ws) 0 b in
    let positive = from_top-positive (w ∷ ws) t in
    elim (hi0bits-Leading y lt) [
      | inl none_ ↦ absurd (let z = none_.0 in omega arith)
      | inr (small, low, high) ↦ (
        small,
        words_of-IsTop (hi0bits y) y (from_top (w ∷ ws) 1) (from_top (w ∷ ws) 2) small lt
            (from_top-lt (w ∷ ws) 1 b) (from_top-lt (w ∷ ws) 2 b) low high,
      )
    ]

-- The quotient, with 2 ^ 11 taken away from both of its sides.
same_quotient :
    (v n k : ℕ)
    → k < 32
    → v * 2 ^ 53 / 2 ^ (32 * n + (32 - k)) ≡ v * 2 ^ 64 / (2 ^ (43 - k) * span n)
same_quotient v n k h =
    let size : 43 - k + 32 * n ≡ 32 * n + (32 - k) + 11 = omega arith in
    let below : 2 ^ (43 - k) * span n ≡ 2 ^ (32 * n + (32 - k)) * 2 ^ 11 =
      ap (λ t. 2 ^ (43 - k) * t) (span-pow n)
      ∙ sym (pow_add 2 (43 - k) (32 * n))
      ∙ ap (λ t. 2 ^ t) size
      ∙ pow_add 2 (32 * n + (32 - k)) 11 in
    let above : v * 2 ^ 64 ≡ v * 2 ^ 53 * 2 ^ 11 = omega arith in
    sym (
      ap₂ (λ s t. s / t) above below
      ∙ mul-div-mul_right {m = 2 ^ 11} (v * 2 ^ 53) (2 ^ (32 * n + (32 - k))) (omega arith))

words-IsFraction :
    (k y z y1 v n : ℕ)
    → k < 32
    → IsTop (y * 2 ^ 64 + z * 2 ^ 32 + y1) (2 ^ (43 - k)) (words_of k y z y1)
    → (r : ℕ) × (v * 2 ^ 64 ≡ (y * 2 ^ 64 + z * 2 ^ 32 + y1) * span n + r) × (r < span n)
    → let (d0, d1) = words_of k y z y1 in
      (d0 / 2 ^ 20 ≡ 0x3ff)
      × (d1 < 2 ^ 32)
      × (significand (d0, d1) ≡ v * 2 ^ 53 / 2 ^ (32 * n + (32 - k)))
words-IsFraction k y z y1 v n small (top, fits, r', e', lt') (r, e, lt) =
    let t = y * 2 ^ 64 + z * 2 ^ 32 + y1 in
    let q = significand (words_of k y z y1) in
    (
      top,
      fits,
      sym (
          same_quotient v n k small
          ∙ quotient (v * 2 ^ 64) t (span n) (2 ^ (43 - k)) q r r' e lt e' lt' (omega arith)),
    )

fraction :
    (xs : List ℕ)
    → Below xs
    → Top xs
    → let k = hi0bits (from_top xs 0) in
      let (d0, d1) = words_of k (from_top xs 0) (from_top xs 1) (from_top xs 2) in
      (d0 / 2 ^ 20 ≡ 0x3ff)
      × (d1 < 2 ^ 32)
      × (significand (d0, d1) ≡ value xs * 2 ^ 53 / 2 ^ (32 * (length xs - 1) + (32 - k)))
fraction [] b t = absurd t
fraction (w ∷ ws) b t =
    let (small, top) = highest-IsTop w ws b t in
    let xs = w ∷ ws in
    let n : length xs - 1 ≡ length ws = omega arith in
    let k = hi0bits (from_top xs 0) in
    let (p, q, e) =
      words-IsFraction k (from_top xs 0) (from_top xs 1) (from_top xs 2) (value xs) (length ws)
        small top (top_three w ws b) in
    (p, q, e ∙ ap (λ t. value xs * 2 ^ 53 / 2 ^ (32 * t + (32 - k))) (sym n))

-- `b2d` gives the highest 53 bits of a number that is not 0, cut off below, as a double from 1 to 2;
-- `*e` is the number of bits in use of the highest word.
pub b2d-IsFraction : (a : Bigint) → IsValid a → 0 < value a.x → IsFraction a (b2d a)
unfolding b2d
b2d-IsFraction a v h = fraction a.x v.below (Trimmed-Top a.x v.trimmed h)
