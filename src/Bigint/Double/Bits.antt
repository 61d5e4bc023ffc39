-- ===== src/Bigint/Double/Bits.antt =====
-- The parts that `d2b` finds.
use native.Mathlib.Nat.{lt_of_mul-lt-mul_right, le_of_mul-le-mul_right}
use ocaml_solo.Prelude.{
  ℕ, ◌+◌, ◌-◌, ◌*◌, ◌/◌, ◌%◌, ◌^◌, ◌≤◌, ◌<◌, max, ◌≡◌, refl, ap, sym, ◌∙◌, Nat-cases, true, false,
  inl, inr, List, [], ◌∷◌, arith, ◌==◌, if◌then◌else◌, bit_and, bit_and_mask,
}
use ocaml_solo.Prelude.Int.{sub_ℕ}
use ocaml_solo.Bigint.{balloc, IsValid}
use ocaml_solo.Bigint.Words.{length, value, Below, Top, pow_pos, pow_add, Top-Trimmed, Top-value}
use ocaml_solo.Bigint.Shift.{pow_split}
use ocaml_solo.Bigint.Leading.{shift_bound, hi0bits, hi0bits-Leading, Leading}
use ocaml_solo.Bigint.Right.{or_above}
use ocaml_solo.Bigint.Double.{low_words, low_words-Reduced, Reduced, top_word, Parts, d2b}

-- A number of `n` binary digits.
abbrev pub HasBits : ℕ → ℕ → Type 0
HasBits v n = (2 ^ n ≤ 2 * v) × (v < 2 ^ n)

word_bits : (w : ℕ) → 0 < w → Leading w (hi0bits w) → HasBits w (32 - hi0bits w) × (hi0bits w < 32)
word_bits w h (inl (none_, r)) = absurd (omega arith)
word_bits w h (inr (small, low, high)) =
    let k = hi0bits w in
    let e = pow_split k (omega arith) in
    let p = pow_pos k in
    (
      (
        le_of_mul-le-mul_right {m = 2 ^ (32 - k)} {n = 2 * w} {k = 2 ^ k} (omega arith) p,
        lt_of_mul-lt-mul_right (2 ^ k) {m = w} {n = 2 ^ (32 - k)} (omega arith),
      ),
      small,
    )

pub value-HasBits :
    (ws : List ℕ)
    → Below ws
    → Top ws
    → HasBits (value ws) (32 * length ws - hi0bits (top_word ws)) × (hi0bits (top_word ws) < 32)
unfolding value
value-HasBits [] b t = absurd t
value-HasBits (w ∷ []) (h, b) t =
    let ((low, high), small) = word_bits w t (hi0bits-Leading w h) in
    ((omega arith, omega arith), small)
value-HasBits (w ∷ (v ∷ vs)) (h, b) t =
    let ((low, high), small) = value-HasBits (v ∷ vs) b t in
    let n = 32 * length (v ∷ vs) - hi0bits (top_word (v ∷ vs)) in
    let e : 32 * length (w ∷ (v ∷ vs)) - hi0bits (top_word (v ∷ vs)) ≡ 32 + n = omega arith in
    rw e (let p = pow_add 2 32 n in ((omega arith, omega arith), small))

-- The exponent and the digits that the two words of a double hold.
abbrev pub exponent : ℕ → ℕ
exponent d0 = d0 / 2 ^ 20 % 2 ^ 11

abbrev pub mantissa : ℕ → ℕ → ℕ
mantissa d0 d1 = (if exponent d0 == 0 then 0 else 2 ^ 52) + d0 % 2 ^ 20 * 2 ^ 32 + d1

-- The parts of a double: an odd number of `bits` binary digits, which `k` zeros follow in the
-- mantissa, and the exponent that goes with it.
pub record IsParts (d0 d1 : ℕ) (p : Parts) : Type 0 where
  pub k : ℕ
  pub valid : IsValid p.b
  pub whole : value p.b.x * 2 ^ k ≡ mantissa d0 d1
  pub odd : value p.b.x % 2 ≡ 1
  pub power : p.e ≡ sub_ℕ (max 1 (exponent d0) + k) 1075
  pub digits : HasBits (value p.b.x) p.bits
  pub unsigned : p.high ≡ d0 % 2 ^ 31

-- A mantissa of 53 binary digits without `k` zeros at its end.
normal_bits : (v k m : ℕ) → 0 < v → v * 2 ^ k ≡ m → HasBits m 53 → HasBits v (53 - k)
normal_bits v k m h e (low, high) =
    let lt = shift_bound 53 v k h (omega arith) in
    let n : 53 - k + k ≡ 53 = omega arith in
    let p = sym (pow_add 2 (53 - k) k) ∙ ap (λ t. 2 ^ t) n in
    (
      le_of_mul-le-mul_right {m = 2 ^ (53 - k)} {n = 2 * v} {k = 2 ^ k} (omega arith) (pow_pos k),
      lt_of_mul-lt-mul_right (2 ^ k) {m = v} {n = 2 ^ (53 - k)} (omega arith),
    )

Reduced-IsValid : {n k : ℕ} → {ws : List ℕ} → Reduced n k ws → IsValid (balloc 1 ws)
unfolding balloc
Reduced-IsValid {ws = ws} r = record {
  space = refl;
  fits = r.size;
  below = r.below;
  trimmed = Top-Trimmed ws r.top;
}

-- `d2b` takes a double that is not 0 apart, subnormal numbers included.
pub d2b-IsParts :
    (d0 d1 : ℕ) → d0 < 2 ^ 32 → d1 < 2 ^ 32 → 0 < mantissa d0 d1 → IsParts d0 d1 (d2b d0 d1)
unfolding d2b balloc
d2b-IsParts d0 d1 lt lt' h =
    let high : bit_and d0 0x7fffffff ≡ d0 % 2 ^ 31 = bit_and_mask 31 d0 in
    let low : bit_and d0 0xfffff ≡ d0 % 2 ^ 20 = bit_and_mask 20 d0 in
    let de : d0 % 2 ^ 31 / 2 ^ 20 ≡ exponent d0 = omega arith in
    rw (high, low, de)
      (elim (Nat-cases (exponent d0)) [
        | inl none_ ↦
            let b : (exponent d0 == 0) ≡ true = ground arith in
            let z = d0 % 2 ^ 20 in
            let m : d1 + 2 ^ 32 * z ≡ mantissa d0 d1 = rw b (omega arith) in
            let r = low_words-Reduced d1 z lt' (omega arith) (omega (arith, m)) in
            let (k, ws) = low_words d1 z in
            rw b (record {
              k = k;
              valid = Reduced-IsValid r;
              whole = r.whole ∙ m;
              odd = r.odd;
              power = ap (λ (t : ℕ). sub_ℕ (t + k) 1075) (omega arith);
              digits = (value-HasBits ws r.below r.top).0;
              unsigned = refl;
            })
        | inr some_ ↦
            let b : (exponent d0 == 0) ≡ false = ground arith in
            let z = d0 % 2 ^ 20 + 1 * 2 ^ 20 in
            let m : d1 + 2 ^ 32 * z ≡ mantissa d0 d1 = rw b (omega arith) in
            let r = low_words-Reduced d1 z lt' (omega arith) (omega (arith, m)) in
            let (k, ws) = low_words d1 z in
            rw (b, or_above 20 1 (d0 % 2 ^ 20) (omega arith))
              (record {
                k = k;
                valid = Reduced-IsValid r;
                whole = r.whole ∙ m;
                odd = r.odd;
                power = ap (λ (t : ℕ). sub_ℕ (t + k) 1075) (omega arith);
                digits =
                    normal_bits (value ws) k (d1 + 2 ^ 32 * z) (Top-value ws r.top) r.whole
                      (omega arith);
                unsigned = refl;
              })
      ])
