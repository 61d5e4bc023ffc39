-- ===== src/Bigint/Fraction.antt =====
-- `b2d`, in the branch for IEEE doubles and 32-bit words: the words of the double.
pub mod Significand
pub mod Value
use native.Mathlib.Nat.{
  lt_of_mul-lt-mul_right, mod-lt, add-mul-div_right, div-div-eq-div-mul, mul-le-mul_right,
}
use native.Mathlib.Omega.{div_any}
use ocaml_solo.Prelude.{
  ℕ, suc, ◌+◌, ◌-◌, ◌*◌, ◌/◌, ◌%◌, ◌^◌, ◌≤◌, ◌<◌, ◌≡◌, refl, ap, ap₂, sym, ◌∙◌, Bool-cases,
  Nat-cases, true, false, inl, inr, List, [], ◌∷◌, arith, ltb, ◌==◌, if◌then◌else◌, bit_or,
  bit_or_fields, bit_or_sum, zero-bit_or,
}
use ocaml_solo.Bigint.{Bigint, IsValid}
use ocaml_solo.Bigint.Words.{length, value, Below, Top, span, pow_pos, pow_add, pow_next}
use ocaml_solo.Bigint.Shift.{pow_split, shifted, span-pow}
use ocaml_solo.Bigint.Leading.{hi0bits, hi0bits-Leading}

-- The word that `i` further reads `xa > xa0 ? *--xa : 0` find, from the highest word down.
unfoldable pub from_top : List ℕ → ℕ → ℕ
from_top [] i = 0
from_top (w ∷ ws) i = if length ws == i then w else from_top ws i

-- The words of the double, from the number `k` of zeros in front and the three highest words.
unfoldable pub words_of : ℕ → ℕ → ℕ → ℕ → ℕ × ℕ
words_of k y z y1 =
    let s = k - 11 in
    if ltb k 11
    then (
      bit_or 0x3ff00000 (y / 2 ^ (11 - k)),
      bit_or (y * 2 ^ (32 - 11 + k) % 2 ^ 32) (z / 2 ^ (11 - k)),
    )
    else if s == 0
    then (bit_or 0x3ff00000 y, z)
    else (
      bit_or (bit_or 0x3ff00000 (y * 2 ^ s % 2 ^ 32)) (z / 2 ^ (32 - s)),
      bit_or (z * 2 ^ s % 2 ^ 32) (y1 / 2 ^ (32 - s)),
    )

-- The high and the low word of the double, and `*e`.
unfoldable pub b2d : Bigint → ℕ × ℕ × ℕ
unfolding words_of
b2d a =
    let y = from_top a.x 0 in
    let k = hi0bits y in
    let (d0, d1) = words_of k y (from_top a.x 1) (from_top a.x 2) in (d0, d1, 32 - k)

abbrev pub top3 : List ℕ → ℕ
top3 ws = from_top ws 0 * 2 ^ 64 + from_top ws 1 * 2 ^ 32 + from_top ws 2

-- A lower word is not among the three highest of a longer number.
top3-cons : (w : ℕ) (ws : List ℕ) → 3 ≤ length ws → top3 (w ∷ ws) ≡ top3 ws
unfolding from_top
top3-cons w ws h =
    let e : (length ws == 0) ≡ false = ground arith in
    let e' : (length ws == 1) ≡ false = ground arith in
    let e'' : (length ws == 2) ≡ false = ground arith in rw (e, e', e'') refl

three_words :
    (w v u : ℕ) (ts : List ℕ)
    → Below (w ∷ (v ∷ (u ∷ ts)))
    → let ws = w ∷ (v ∷ (u ∷ ts)) in
      let n = span (suc (suc (length ts))) in
      (r : ℕ) × (value ws * 2 ^ 64 ≡ top3 ws * n + r) × (r + 2 ^ 64 ≤ n)
unfolding from_top value span
three_words w v u [] b = (0, omega arith, omega arith)
three_words w v u (t ∷ ts) (h, b) =
    let (r, e, fits) = three_words v u t ts b in
    let same = top3-cons w (v ∷ (u ∷ (t ∷ ts))) (omega arith) in
    (w * 2 ^ 64 + 2 ^ 32 * r, rw same (omega arith), omega arith)

-- The three highest words are the highest part of the number.
pub top_three :
    (w : ℕ) (ws : List ℕ)
    → Below (w ∷ ws)
    → (r : ℕ) × (value (w ∷ ws) * 2 ^ 64 ≡ top3 (w ∷ ws) * span (length ws) + r)
      × (r < span (length ws))
unfolding from_top value span
top_three w [] b = (0, omega arith, omega arith)
top_three w (v ∷ []) b = (0, omega arith, omega arith)
top_three w (v ∷ (u ∷ [])) b = (0, omega arith, omega arith)
top_three w (v ∷ (u ∷ (t ∷ ts))) b =
    let (r, e, fits) = three_words w v u (t ∷ ts) b in (r, e, omega arith)

-- A word from the top fits 32 bits.
pub from_top-lt : (ws : List ℕ) (i : ℕ) → Below ws → from_top ws i < 2 ^ 32
unfolding from_top
from_top-lt [] i b = omega arith
from_top-lt (w ∷ ws) i (h, b) = let rest = from_top-lt ws i b in ground arith

pub from_top-positive : (ws : List ℕ) → Top ws → 0 < from_top ws 0
unfolding from_top
from_top-positive [] t = absurd t
from_top-positive (w ∷ []) t = t
from_top-positive (w ∷ (v ∷ vs)) t =
    let e : (suc (length vs) == 0) ≡ false = ground arith in rw e (from_top-positive (v ∷ vs) t)
