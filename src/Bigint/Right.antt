-- ===== src/Bigint/Right.antt =====
-- `rshift`.
pub mod Increment
use native.Mathlib.Nat.{
  mod-lt, div-div-eq-div-mul, div-lt_iff_lt-mul, mul_comm, add-mul-div_left, add-mul-div_right,
  mul-div_cancel_left,
}
use native.Mathlib.Omega.{div_any}
use ocaml_solo.Prelude.{
  ℕ, zero, suc, ◌+◌, ◌-◌, ◌*◌, ◌/◌, ◌%◌, ◌^◌, ◌≤◌, ◌<◌, ◌≡◌, ◌⊎◌, refl, ap, ap₂, sym, ◌∙◌, Bool,
  Bool-cases, Nat-cases, true, false, inl, inr, List, [], ◌∷◌, ◌++◌, arith, ltb, leb, ◌==◌, not,
  ◌||◌, if◌then◌else◌, bit_and, bit_or, bit_or_fields, zero-bit_or, bit_or-zero, bit_and_mask,
}
use ocaml_solo.Bigint.{Bigint}
use ocaml_solo.Bigint.Words.{length, Below, value, span, value-lt-span, pow_pos}
use ocaml_solo.Bigint.Shift.{pow_split, shifted, span-pow, shift_pow}

-- The words from `n` on.
unfoldable pub drop : ℕ → List ℕ → List ℕ
drop zero ws = ws
drop (suc n) [] = []
drop (suc n) (w ∷ ws) = drop n ws

-- The loop of `rshift` for a shift by `s` bits, from 1 to 31; `y` is what is left of the word before.
unfoldable pub rshift_words : ℕ → List ℕ → ℕ → List ℕ
rshift_words y [] s = if y == 0 then [] else y ∷ []
rshift_words y (x ∷ xs) s =
    bit_and (bit_or y (x * 2 ^ (32 - s) % 2 ^ 32)) 0xffffffff ∷ rshift_words (x / 2 ^ s) xs s

abbrev pub rshift_from : List ℕ → ℕ → List ℕ
rshift_from [] s = []
rshift_from (x ∷ xs) s = rshift_words (x / 2 ^ s) xs s

unfoldable pub rshift : Bigint → ℕ → Bigint
rshift b k =
    let n = k / 32 in
    let s = bit_and k 31 in
    if ltb n (length b.x)
    then record b { x = if s == 0 then drop n b.x else rshift_from (drop n b.x) s }
    else record b { x = [] }

pub drop-value : (n : ℕ) (ws : List ℕ) → Below ws → value (drop n ws) ≡ value ws / span n
unfolding drop value span
drop-value zero ws b = omega arith
drop-value (suc n) [] b = omega arith
drop-value (suc n) (w ∷ ws) (h, b) =
    let low : (w + 2 ^ 32 * value ws) / 2 ^ 32 ≡ value ws = omega arith in
    drop-value n ws b
    ∙ ap (λ v. v / span n) (sym low)
    ∙ div-div-eq-div-mul (w + 2 ^ 32 * value ws) (2 ^ 32) (span n)

-- A word of the shifted number: the bits of the next word come in above.
pub or_above : (k l y : ℕ) → y < 2 ^ k → bit_or y (l * 2 ^ k) ≡ y + l * 2 ^ k
or_above k l y h =
    let e : y ≡ 0 * 2 ^ k + y = omega arith in
    let e' : l * 2 ^ k ≡ l * 2 ^ k + 0 = omega arith in
    ap₂ bit_or e e'
    ∙ bit_or_fields k 0 y l 0 h (pow_pos k)
    ∙ rw (zero-bit_or l, bit_or-zero y) (omega arith)

split : (s : ℕ) → s < 32 → 2 ^ s * 2 ^ (32 - s) ≡ 2 ^ 32
split s lt = omega (arith, pow_split s (omega arith))

merged :
    (s y x : ℕ)
    → 0 < s
    → s < 32
    → x < 2 ^ 32
    → y < 2 ^ (32 - s)
    → bit_and (bit_or y (x * 2 ^ (32 - s) % 2 ^ 32)) 0xffffffff ≡ y + x % 2 ^ s * 2 ^ (32 - s)
merged s y x hs lt hx hy =
    let (moved, fits, high) =
      shifted (2 ^ (32 - s)) (2 ^ s) x y (split s lt) (pow_pos s) (pow_pos (32 - s)) hx hy in
    rw (moved, or_above (32 - s) (x % 2 ^ s) y hy, bit_and_mask 32 (y + x % 2 ^ s * 2 ^ (32 - s)))
      (omega arith)

words-value :
    (y : ℕ) (xs : List ℕ) (s : ℕ)
    → 0 < s
    → s < 32
    → y < 2 ^ (32 - s)
    → Below xs
    → value (rshift_words y xs s) ≡ y + 2 ^ (32 - s) * value xs
unfolding rshift_words value
words-value y [] s hs lt hy b = ground arith
words-value y (x ∷ xs) s hs lt hy (hx, b) =
    let high : x / 2 ^ s < 2 ^ (32 - s) =
      (shifted (2 ^ (32 - s)) (2 ^ s) x y (split s lt) (pow_pos s) (pow_pos (32 - s)) hx hy).2 in
    rw (merged s y x hs lt hx hy, words-value (x / 2 ^ s) xs s hs lt high b)
      (let parts = div_any x (2 ^ s) in
        omega (
          arith,
          ap (λ (t : ℕ). 2 ^ (32 - s) * t) parts,
          ap (λ (t : ℕ). t * (x / 2 ^ s)) (split s lt),
        ))

-- The value of the words with the first already shifted.
from-value :
    (xs : List ℕ) (s : ℕ) → 0 < s → s < 32 → Below xs → value (rshift_from xs s) ≡ value xs / 2 ^ s
unfolding value
from-value [] s hs lt b = omega arith
from-value (x ∷ xs) s hs lt (hx, b) =
    let high : x / 2 ^ s < 2 ^ (32 - s) =
      (div-lt_iff_lt-mul {k = 2 ^ s} {x = x} {y = 2 ^ (32 - s)} (pow_pos s)).1
        (let e = split s lt in omega arith) in
    let same : x + 2 ^ 32 * value xs ≡ x + 2 ^ (32 - s) * value xs * 2 ^ s =
      omega (arith, ap (λ (t : ℕ). t * value xs) (split s lt)) in
    words-value (x / 2 ^ s) xs s hs lt high b
    ∙ sym (add-mul-div_right x (2 ^ (32 - s) * value xs) (pow_pos s))
    ∙ ap (λ t. t / 2 ^ s) (sym same)

drop-Below : (n : ℕ) (ws : List ℕ) → Below ws → Below (drop n ws)
unfolding drop
drop-Below zero ws b = b
drop-Below (suc n) [] b = tt
drop-Below (suc n) (w ∷ ws) (h, b) = drop-Below n ws b

drop_all : (n : ℕ) (ws : List ℕ) → length ws ≤ n → drop n ws ≡ []
unfolding drop
drop_all zero [] h = refl
drop_all zero (w ∷ ws) h = absurd (omega arith)
drop_all (suc n) [] h = refl
drop_all (suc n) (w ∷ ws) h = drop_all n ws (omega arith)

-- `rshift` divides by 2 ^ k, rounding down, for every `k`.
pub rshift-value : (b : Bigint) (k : ℕ) → Below b.x → value (rshift b k).x ≡ value b.x / 2 ^ k
unfolding rshift value
rshift-value b k below =
    let s_eq : bit_and k 31 ≡ k % 32 = bit_and_mask 5 k in
    let n = k / 32 in
    let whole : value b.x / 2 ^ k ≡ value b.x / span n / 2 ^ (k % 32) =
      ap (λ t. value b.x / t) (sym (shift_pow k))
      ∙ sym (div-div-eq-div-mul (value b.x) (span n) (2 ^ (k % 32))) in
    let words = drop-value n b.x below in
    elim (Bool-cases (ltb n (length b.x))) [
      | inr beyond ↦
          let nothing : value b.x / span n ≡ 0 =
            sym words ∙ ap value (drop_all n b.x (ground arith)) in
          rw beyond (omega (arith, whole, ap (λ (t : ℕ). t / 2 ^ (k % 32)) nothing))
      | inl inside ↦ elim (Nat-cases (k % 32)) [
        | inl none_ ↦
            let e : (k % 32 == 0) ≡ true = ground arith in
            rw (s_eq, inside, e)
              (words ∙ sym (whole ∙ ap (λ (t : ℕ). value b.x / span n / 2 ^ t) none_ ∙ omega arith))
        | inr some_ ↦
            let e : (k % 32 == 0) ≡ false = ground arith in
            rw (s_eq, inside, e)
              (from-value (drop n b.x) (k % 32) some_ (omega arith) (drop-Below n b.x below)
                ∙ ap (λ t. t / 2 ^ (k % 32)) words
                ∙ sym whole)
      ]
    ]
