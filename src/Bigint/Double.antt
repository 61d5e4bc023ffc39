-- ===== src/Bigint/Double.antt =====
-- `d2b`, in the branch for IEEE doubles with subnormal numbers, on the two words of the double.
pub mod Bits
use native.Mathlib.Omega.{div_any}
use native.Mathlib.Nat.{mul-le-mul_left, div-le_self, lt_of_mul-lt-mul_right, mul-pos}
use ocaml_solo.Prelude.{
  ℕ, zero, suc, ◌+◌, ◌-◌, ◌*◌, ◌/◌, ◌%◌, ◌^◌, ◌≤◌, ◌<◌, ◌≡◌, ◌⊎◌, refl, ap, sym, ◌∙◌, Nat-cases,
  true, false, inl, inr, List, [], ◌∷◌, arith, ◌==◌, if◌then◌else◌, bit_and, bit_or, bit_and_mask,
}
use ocaml_solo.Prelude.Int.{ℤ, sub_ℕ}
use ocaml_solo.Bigint.{Bigint, balloc, IsValid}
use ocaml_solo.Bigint.Words.{length, value, Below, Top, pow_pos, pow_add, pow_next}
use ocaml_solo.Bigint.Shift.{pow_split, shifted}
use ocaml_solo.Bigint.Right.{or_above}
use ocaml_solo.Bigint.Leading.{hi0bits}
use ocaml_solo.Bigint.Trailing.{lo0bits, lo0bits-Trailing, Trailing}

-- The words of the number with the high part `z` and the low word `d1`, moved down by `k` bits.
unfoldable pub low_words : ℕ → ℕ → ℕ × List ℕ
low_words d1 z =
    let (k0, z0) = lo0bits z in
    let (k, y) = lo0bits d1 in
    let x0 = if k == 0 then y else bit_or y (z * 2 ^ (32 - k) % 2 ^ 32) in
    let z1 = if k == 0 then z else z / 2 ^ k in
    if d1 == 0 then (k0 + 32, z0 ∷ []) else (k, if z1 == 0 then x0 ∷ [] else x0 ∷ z1 ∷ [])

abbrev pub top_word : List ℕ → ℕ
top_word [] = 0
top_word (w ∷ []) = w
top_word (w ∷ (v ∷ vs)) = top_word (v ∷ vs)

-- The number, `*e`, `*bits`, and the high word of the double, whose sign is cleared.
pub record Parts : Type 0 where
  pub b : Bigint
  pub e : ℤ
  pub bits : ℕ
  pub high : ℕ

unfoldable pub d2b : ℕ → ℕ → Parts
unfolding balloc
d2b d0 d1 =
    let high = bit_and d0 0x7fffffff in
    let de = high / 2 ^ 20 in
    let fraction = bit_and d0 0xfffff in
    let z = if de == 0 then fraction else bit_or fraction 0x100000 in
    let (k, words) = low_words d1 z in
    if de == 0
    then record {
      b = balloc 1 words;
      e = sub_ℕ (1 + k) (1023 + 52);
      bits = 32 * length words - hi0bits (top_word words);
      high = high;
    }
    else record { b = balloc 1 words; e = sub_ℕ (de + k) (1023 + 52); bits = 53 - k; high = high }

-- What `low_words` gives: an odd number that times 2 ^ k is the number it stands for.
pub record Reduced (n k : ℕ) (ws : List ℕ) : Type 0 where
  pub whole : value ws * 2 ^ k ≡ n
  pub odd : value ws % 2 ≡ 1
  pub below : Below ws
  pub top : Top ws
  pub size : length ws ≤ 2

low-Reduced :
    (z : ℕ) (s : ℕ × ℕ)
    → 0 < z
    → z < 2 ^ 32
    → Trailing z s
    → Reduced (2 ^ 32 * z) (s.0 + 32) (s.1 ∷ [])
unfolding value
low-Reduced z (k, y) h lt (inl (none_, r, r')) = absurd (omega arith)
low-Reduced z (k, y) h lt (inr (small, e, odd)) =
    let grows = mul-le-mul_left {m = 1} {n = 2 ^ k} y (pow_pos k) in
    record {
      whole = omega (arith, ap (λ t. y * t) (pow_add 2 k 32));
      odd = omega arith;
      below = (omega arith, tt);
      top = omega arith;
      size = omega arith;
    }

-- The lowest word, which takes the low bits of `z` above those of `y`.
joined :
    (z k y : ℕ)
    → k < 32
    → z < 2 ^ 32
    → y * 2 ^ k < 2 ^ 32
    → let x0 = if k == 0 then y else bit_or y (z * 2 ^ (32 - k) % 2 ^ 32) in
      let z1 = if k == 0 then z else z / 2 ^ k in
      (x0 ≡ y + z % 2 ^ k * 2 ^ (32 - k)) × (x0 < 2 ^ 32) × (z1 ≡ z / 2 ^ k)
joined z zero y hk hz hy = (omega arith, omega arith, omega arith)
joined z (suc k') y hk hz hy =
    let k = suc k' in
    let e = pow_split k (omega arith) in
    let small : y < 2 ^ (32 - k) = lt_of_mul-lt-mul_right (2 ^ k) (omega arith) in
    let split : 2 ^ k * 2 ^ (32 - k) ≡ 2 ^ 32 = omega arith in
    let (moved, fits, high) =
      shifted (2 ^ (32 - k)) (2 ^ k) z y split (pow_pos k) (pow_pos (32 - k)) hz small in
    let b : (k == 0) ≡ false = ground arith in
    rw (b, moved, or_above (32 - k) (z % 2 ^ k) y small) (refl, omega arith, refl)

-- The words with `z1` in front where it is not 0.
abbrev pair : ℕ → ℕ → List ℕ
pair x0 z1 = if z1 == 0 then x0 ∷ [] else x0 ∷ z1 ∷ []

pair_lem :
    (x0 z1 : ℕ)
    → 0 < x0
    → x0 < 2 ^ 32
    → z1 < 2 ^ 32
    → (value (pair x0 z1) ≡ x0 + 2 ^ 32 * z1)
      × Below (pair x0 z1)
      × Top (pair x0 z1)
      × (length (pair x0 z1) ≤ 2)
unfolding value
pair_lem x0 z1 h lt lt' = elim (Nat-cases z1) [
  | inl none_ ↦
      let b : (z1 == 0) ≡ true = ground arith in rw b (omega arith, (lt, tt), h, omega arith)
  | inr some_ ↦
      let b : (z1 == 0) ≡ false = ground arith in
      rw b (omega arith, (lt, (lt', tt)), some_, omega arith)
]

joined-Reduced :
    (d1 z : ℕ) (s : ℕ × ℕ)
    → 0 < d1
    → d1 < 2 ^ 32
    → z < 2 ^ 32
    → Trailing d1 s
    → let (k, y) = s in
      let x0 = if k == 0 then y else bit_or y (z * 2 ^ (32 - k) % 2 ^ 32) in
      let z1 = if k == 0 then z else z / 2 ^ k in Reduced (d1 + 2 ^ 32 * z) k (pair x0 z1)
joined-Reduced d1 z (k, y) h lt hz (inl (none_, r, r')) = absurd (omega arith)
joined-Reduced d1 z (k, y) h lt hz (inr (small, e, odd)) =
    let (low, fits, high) = joined z k y small hz (omega arith) in
    let x0 = if k == 0 then y else bit_or y (z * 2 ^ (32 - k) % 2 ^ 32) in
    let z1 = if k == 0 then z else z / 2 ^ k in
    let parts = div_any z (2 ^ k) in
    let less : z1 ≤ z = rw high (div-le_self z (2 ^ k)) in
    let (v, below, top, size) = pair_lem x0 z1 (omega arith) fits (omega arith) in
    let even : 2 ^ (32 - k) ≡ 2 * 2 ^ (31 - k) =
      sym (ap (λ n. 2 ^ n) (omega arith)) ∙ pow_next (31 - k) ∙ omega arith in
    let split = pow_split k (omega arith) in
    record {
      whole = rw v (
          omega (
            arith,
            ap (λ (t : ℕ). t * 2 ^ k) low,
            ap (λ (t : ℕ). t * 2 ^ k) high,
            ap (λ (t : ℕ). z % 2 ^ k * t) split,
          ));
      odd = rw v (omega (arith, ap (λ (t : ℕ). z % 2 ^ k * t) even));
      below = below;
      top = top;
      size = size;
    }

pub low_words-Reduced :
    (d1 z : ℕ)
    → d1 < 2 ^ 32
    → z < 2 ^ 32
    → 0 < d1 + 2 ^ 32 * z
    → let (k, ws) = low_words d1 z in Reduced (d1 + 2 ^ 32 * z) k ws
unfolding low_words
low_words-Reduced d1 z lt hz h = elim (Nat-cases d1) [
  | inl none_ ↦
      let b : (d1 == 0) ≡ true = ground arith in
      let all : 2 ^ 32 * z ≡ d1 + 2 ^ 32 * z = omega arith in
      rw (b, sym all) (low-Reduced z (lo0bits z) (omega arith) hz (lo0bits-Trailing z hz))
  | inr some_ ↦
      let b : (d1 == 0) ≡ false = ground arith in
      rw b (joined-Reduced d1 z (lo0bits d1) some_ lt hz (lo0bits-Trailing d1 lt))
]
