-- ===== src/Bigint/Sticky.antt =====
-- `any_on`.
use native.Mathlib.Nat.{
  mul-pos, add-mul-mod_self_left, mod-eq_of_lt, mod-lt, pow-le-pow_right, mul-le-mul_left,
}
use native.Mathlib.Omega.{div_any}
use ocaml_solo.Prelude.{
  ℕ, zero, suc, ◌+◌, ◌-◌, ◌*◌, ◌/◌, ◌%◌, ◌^◌, ◌≤◌, ◌<◌, ◌≡◌, refl, ap, sym, ◌∙◌, Bool-cases,
  Nat-cases, true, false, inl, inr, List, [], ◌∷◌, arith, ltb, ◌==◌, not, ◌&&◌, if◌then◌else◌,
  bit_and, bit_and_mask,
}
use ocaml_solo.Bigint.{Bigint}
use ocaml_solo.Bigint.Words.{length, Below, value, span, value-lt-span, pow_pos}
use ocaml_solo.Bigint.Shift.{pow_split, span-pow, shift_pow}
use ocaml_solo.Bigint.Right.{drop, drop-value}
use ocaml_solo.Bigint.Quorem.{word}

-- The loop from word `n` down.
unfoldable pub any_words : ℕ → List ℕ → ℕ
any_words zero ws = 0
any_words (suc n) ws = if word ws n == 0 then any_words n ws else 1

unfoldable pub any_on : Bigint → ℕ → ℕ
any_on b k =
    let n = k / 32 in
    let s = bit_and k 31 in
    let x2 = word b.x n in
    let x1 = x2 / 2 ^ s * 2 ^ s % 2 ^ 32 in
    if ltb (length b.x) n
    then any_words (length b.x) b.x
    else if ltb n (length b.x) && not (s == 0) && not (x1 == x2)
    then 1
    else any_words n b.x

-- 0 for the number 0, else 1.
abbrev pub flag : ℕ → ℕ
flag v = if v == 0 then 0 else 1

any_words-cons :
    (n w : ℕ) (ws : List ℕ) → any_words (suc n) (w ∷ ws) ≡ (if w == 0 then any_words n ws else 1)
unfolding any_words
any_words-cons zero w ws = refl
any_words-cons (suc n) w ws =
    let rest = any_words-cons n w ws in
    elim (Bool-cases (word ws n == 0)) [
      | inl clear ↦ rw (clear, rest) refl
      | inr set ↦ rw set (ground arith)
    ]

-- The remainder of a number with one more word below.
mod_join : (w v s : ℕ) → w < 2 ^ 32 → 0 < s → (w + 2 ^ 32 * v) % (2 ^ 32 * s) ≡ w + 2 ^ 32 * (v % s)
mod_join w v s h hs =
    let e = div_any v s in
    let r = mod-lt v {m = s} hs in
    let parts : w + 2 ^ 32 * v ≡ w + 2 ^ 32 * (v % s) + 2 ^ 32 * s * (v / s) = omega arith in
    ap (λ t. t % (2 ^ 32 * s)) parts
    ∙ add-mul-mod_self_left (w + 2 ^ 32 * (v % s)) (2 ^ 32 * s) (v / s)
    ∙ mod-eq_of_lt {n = w + 2 ^ 32 * (v % s)} {m = 2 ^ 32 * s} (omega arith)

span_pos : (n : ℕ) → 0 < span n
span_pos n = rw (span-pow n) (pow_pos (32 * n))

any_words-flag :
    (n : ℕ) (ws : List ℕ) → n ≤ length ws → Below ws → any_words n ws ≡ flag (value ws % span n)
unfolding any_words value span
any_words-flag zero ws h b = ground arith
any_words-flag (suc n) [] h b = absurd (omega arith)
any_words-flag (suc n) (w ∷ ws) h (lt, b) =
    let rest = any_words-flag n ws (omega arith) b in
    rw (any_words-cons n w ws, mod_join w (value ws) (span n) lt (span_pos n), rest) (ground arith)

drop-word :
    (n : ℕ) (ws : List ℕ) → n < length ws → (r : ℕ) × (value (drop n ws) ≡ word ws n + 2 ^ 32 * r)
unfolding drop value
drop-word n [] h = absurd (omega arith)
drop-word zero (w ∷ ws) h = (value ws, refl)
drop-word (suc n) (w ∷ ws) h = drop-word n ws (omega arith)

-- The remainder by a product: the low part, and the remainder of the quotient above it.
mod_product : (v s p : ℕ) → 0 < s → 0 < p → v % (s * p) ≡ v % s + s * (v / s % p)
mod_product v s p hs hp =
    let q = v / s in
    let e = div_any v s in
    let e' = div_any q p in
    let r = mod-lt v {m = s} hs in
    let r' = mod-lt q {m = p} hp in
    let room = mul-le-mul_left {m = suc (q % p)} {n = p} s r' in
    let parts : v ≡ v % s + s * (q % p) + s * p * (q / p) =
      omega (arith, ap (λ (t : ℕ). s * t) e') in
    ap (λ t. t % (s * p)) parts
    ∙ add-mul-mod_self_left (v % s + s * (q % p)) (s * p) (q / p)
    ∙ mod-eq_of_lt {n = v % s + s * (q % p)} {m = s * p} (omega arith)

-- The low bits of a word are those of the number with more words above it.
low_bits : (x r s : ℕ) → s < 32 → (x + 2 ^ 32 * r) % 2 ^ s ≡ x % 2 ^ s
low_bits x r s h =
    let e = pow_split s (omega arith) in
    let parts : x + 2 ^ 32 * r ≡ x + 2 ^ s * (2 ^ (32 - s) * r) =
      omega (arith, ap (λ (t : ℕ). t * r) e) in
    ap (λ t. t % 2 ^ s) parts ∙ add-mul-mod_self_left x (2 ^ s) (2 ^ (32 - s) * r)

word-lt : (n : ℕ) (ws : List ℕ) → Below ws → word ws n < 2 ^ 32
word-lt n [] b = omega arith
word-lt zero (w ∷ ws) (h, b) = h
word-lt (suc n) (w ∷ ws) (h, b) = word-lt n ws b

-- The bits that the first `n` words and the low `s` bits of the next hold.
split_value :
    (n s : ℕ) (ws : List ℕ)
    → n < length ws
    → s < 32
    → Below ws
    → value ws % (span n * 2 ^ s) ≡ value ws % span n + span n * (word ws n % 2 ^ s)
split_value n s ws h hs b =
    let (r, e) = drop-word n ws h in
    let quot : value ws / span n % 2 ^ s ≡ word ws n % 2 ^ s =
      ap (λ t. t % 2 ^ s) (sym (drop-value n ws b) ∙ e) ∙ low_bits (word ws n) r s hs in
    mod_product (value ws) (span n) (2 ^ s) (span_pos n) (pow_pos s)
    ∙ ap (λ t. value ws % span n + span n * t) quot

-- A word with its low `s` bits cleared is the same one where they are zero.
cleared :
    (x s : ℕ)
    → x < 2 ^ 32
    → (x / 2 ^ s * 2 ^ s % 2 ^ 32 ≡ x / 2 ^ s * 2 ^ s) × (x / 2 ^ s * 2 ^ s + x % 2 ^ s ≡ x)
cleared x s lt = let e = div_any x (2 ^ s) in (omega arith, omega arith)

-- All words of a number below 2 ^ k.
whole_number :
    (k : ℕ) (ws : List ℕ)
    → Below ws
    → 32 * length ws ≤ k
    → any_words (length ws) ws ≡ flag (value ws % 2 ^ k)
whole_number k ws b h =
    let fits = value-lt-span ws b in
    let size = span-pow (length ws) in
    let grows = pow-le-pow_right {n = 2} (omega arith) {i = 32 * length ws} {j = k} h in
    any_words-flag (length ws) ws (omega arith) b
    ∙ ap flag (mod-eq_of_lt fits ∙ sym (mod-eq_of_lt {n = value ws} {m = 2 ^ k} (omega arith)))

-- The test on the word that `k` ends in, whose low bits are `low`.
last_word :
    (s x1 x2 low v n total rest : ℕ)
    → x1 + low ≡ x2
    → (s ≡ 0 → low ≡ 0)
    → total ≡ v + n * low
    → 0 < n
    → rest ≡ flag v
    → (if not (s == 0) && not (x1 == x2) then 1 else rest) ≡ flag total
last_word s x1 x2 zero v n total rest e z t h r =
    let same : (x1 == x2) ≡ true = ground arith in
    let all : total ≡ v = omega arith in
    rw (same, all, r) (elim (Bool-cases (s == 0)) [ inl b ↦ rw b refl | inr b ↦ rw b refl ])
last_word s x1 x2 (suc low) v n total rest e z t h r =
    let other : (x1 == x2) ≡ false = ground arith in
    let some_ = mul-pos {m = n} {n = suc low} h (omega arith) in
    elim (Nat-cases s) [
      | inl none_ ↦ absurd (let no = z none_ in omega arith)
      | inr positive ↦
          let b : (s == 0) ≡ false = ground arith in
          let b' : (total == 0) ≡ false = ground arith in rw (other, b, b') refl
    ]

no_bits : (x s : ℕ) → s ≡ 0 → x % 2 ^ s ≡ 0
no_bits x s h = ap (λ t. x % 2 ^ t) h ∙ omega arith

-- `any_on` tells if one of the low `k` bits of a number is set, for every `k`.
pub any_on-flag : (b : Bigint) (k : ℕ) → Below b.x → any_on b k ≡ flag (value b.x % 2 ^ k)
unfolding any_on
any_on-flag b k below =
    let n = k / 32 in
    let s_eq : bit_and k 31 ≡ k % 32 = bit_and_mask 5 k in
    let all = shift_pow k in
    elim (Bool-cases (ltb (length b.x) n)) [
      | inl beyond ↦ rw beyond (whole_number k b.x below (ground arith))
      | inr within ↦ elim (Bool-cases (ltb n (length b.x))) [
        | inr exact ↦
            rw (within, exact)
              (ap (λ t. any_words t b.x) (ground arith) ∙ whole_number k b.x below (ground arith))
        | inl inside ↦
            let low = any_words-flag n b.x (ground arith) below in
            let split = split_value n (k % 32) b.x (ground arith) (omega arith) below in
            let (c, c') = cleared (word b.x n) (k % 32) (word-lt n b.x below) in
            rw (within, inside, s_eq, c)
              (last_word (k % 32) (word b.x n / 2 ^ (k % 32) * 2 ^ (k % 32)) (word b.x n)
                (word b.x n % 2 ^ (k % 32)) (value b.x % span n) (span n) (value b.x % 2 ^ k)
                (any_words n b.x) c' (no_bits (word b.x n) (k % 32))
                (ap (λ t. value b.x % t) (sym all) ∙ split) (span_pos n) low)
      ]
    ]
