-- ===== src/Bigint/Decimal.antt =====
-- `s2b`. A character stands at each place of the string that the call reads.
use native.Mathlib.Nat.{pow-le-pow_right}
use ocaml_solo.Prelude.{
  ℕ, zero, suc, ◌+◌, ◌-◌, ◌*◌, ◌/◌, ◌%◌, ◌^◌, ◌≤◌, ◌<◌, ◌≡◌, refl, ap, ◌∙◌, Bool-cases, Nat-cases,
  inl, inr, [], ◌∷◌, arith, ltb, min, if◌then◌else◌, Option, some, none, ◌>>=◌,
}
use ocaml_solo.Bigint.{Bigint, balloc, IsValid}
use ocaml_solo.Bigint.Words.{value, pow_pos, pow_next}
use ocaml_solo.Bigint.Multadd.{multadd, multadd-IsValid}

-- The loop that finds the size of the block.
unfoldable pub log2 : ℕ → ℕ → ℕ → ℕ → Option ℕ
log2 zero x k y = none
log2 (suc fuel) x k y = let rest = log2 fuel x (k + 1) (y * 2) in if ltb y x then rest else some k

-- `n` more digits, from the place `s` on.
unfoldable pub add_digits : ℕ → (ℕ → ℕ) → ℕ → Bigint → Bigint
add_digits zero text s b = b
add_digits (suc n) text s b =
    add_digits n text (s + 1) (multadd b 10 ((text s + 2 ^ 64 - b'0') % 2 ^ 64))

unfoldable pub s2b : ℕ → (ℕ → ℕ) → ℕ → ℕ → ℕ → ℕ → Option Bigint
unfolding balloc
s2b fuel text nd0 nd y9 dplen = log2 fuel ((nd + 8) / 9) 0 1 >>= λ k.
    let b = balloc k (y9 ∷ []) in
    some (
      if ltb 9 nd0
      then add_digits (nd - nd0) text (nd0 + dplen) (add_digits (nd0 - 9) text 9 b)
      else add_digits (nd - 9) text (dplen + 9) b)

-- The place of digit `i`: `dplen` characters stand between the first `nd0` digits and the others.
abbrev pub place : ℕ → ℕ → ℕ → ℕ
place nd0 dplen i = if ltb i nd0 then i else i + dplen

abbrev pub digit_at : (ℕ → ℕ) → ℕ → ℕ → ℕ → ℕ
digit_at text nd0 dplen i = text (place nd0 dplen i) - b'0'

-- The number that the first `n` digits stand for.
unfoldable pub number : (ℕ → ℕ) → ℕ → ℕ
number digit zero = 0
number digit (suc n) = number digit n * 10 + digit n

log2_enough :
    (fuel x k y : ℕ)
    → y ≡ 2 ^ k
    → 0 < fuel
    → x ≤ 2 ^ (k + fuel - 1)
    → (k' : ℕ) × (log2 fuel x k y ≡ some k')
unfolding log2
log2_enough zero x k y e h f = absurd (omega arith)
log2_enough (suc fuel) x k y e h f = elim (Bool-cases (ltb y x)) [
  | inr done ↦ (k, rw done refl)
  | inl more ↦ elim (Nat-cases fuel) [
    | inl none_ ↦
        let last : k + suc fuel - 1 ≡ k = omega arith in
        absurd (let p = ap (λ n. 2 ^ n) last in ground arith)
    | inr some_ ↦
        let next : k + suc fuel - 1 ≡ k + 1 + fuel - 1 = omega arith in
        rw more (
          log2_enough fuel x (k + 1) (y * 2) (omega (arith, pow_next k)) some_
            (let p = ap (λ n. 2 ^ n) next in omega arith))
  ]
]

-- The digits of a run that are the digits `i` to `i + n` of the number.
add_digits-value :
    (n : ℕ) (text digit : ℕ → ℕ) (s i : ℕ) (b : Bigint)
    → IsValid b
    → ((j : ℕ) → j < n → (text (s + j) ≡ digit (i + j) + 48) × (digit (i + j) < 10))
    → value b.x ≡ number digit i
    → IsValid (add_digits n text s b) × (value (add_digits n text s b).x ≡ number digit (i + n))
unfolding add_digits number
add_digits-value zero text digit s i b v d e = (v, e ∙ ap (number digit) (omega arith))
add_digits-value (suc n) text digit s i b v d e =
    let (same, small) = d 0 (omega arith) in
    let here : text s ≡ digit i + 48 =
      ap text (omega arith) ∙ same ∙ ap (λ t. digit t + 48) (omega arith) in
    let less : digit i < 10 =
      let p : digit (i + 0) ≡ digit i = ap digit (omega arith) in omega arith in
    let char : (text s + 2 ^ 64 - b'0') % 2 ^ 64 ≡ digit i = omega arith in
    let c = (text s + 2 ^ 64 - b'0') % 2 ^ 64 in
    let step : IsValid (multadd b 10 c) × (value (multadd b 10 c).x ≡ value b.x * 10 + digit i) =
      rw char (
        let (v', e', sign) =
          multadd-IsValid b 10 (digit i) v (omega arith) (omega arith) (omega arith) in
        (v', e')) in
    let later =
      add_digits-value n text digit (s + 1) (suc i) (multadd b 10 c) step.0
        (λ j lt.
          let (p, q) = d (j + 1) (omega arith) in
          let next : i + (j + 1) ≡ suc i + j = omega arith in
          (
            ap text (omega arith) ∙ p ∙ ap (λ t. digit t + 48) next,
            let r = ap digit next in omega arith,
          ))
        (step.1 ∙ omega (arith, e)) in
    (later.0, later.1 ∙ ap (number digit) (omega arith))

-- The character of each digit below `nd` is '0' to '9'.
abbrev pub Digits : (ℕ → ℕ) → ℕ → ℕ → ℕ → Type 0
Digits text nd0 dplen nd =
    (i : ℕ) → i < nd → (b'0' ≤ text (place nd0 dplen i)) × (text (place nd0 dplen i) ≤ b'9')

start-IsValid : (k y9 : ℕ) → y9 < 2 ^ 32 → IsValid (balloc k (y9 ∷ []))
unfolding balloc
start-IsValid k y9 small = record {
  space = refl;
  fits = let p = pow_pos k in omega arith;
  below = (small, tt);
  trimmed = tt;
}

-- The character at the place `s` of digit `i`.
char_at :
    (text : ℕ → ℕ) (nd0 dplen nd : ℕ)
    → Digits text nd0 dplen nd
    → (i s : ℕ) → i < nd
    → place nd0 dplen i ≡ s
    → (text s ≡ digit_at text nd0 dplen i + 48) × (digit_at text nd0 dplen i < 10)
char_at text nd0 dplen nd digits i s lt e =
    let (low, high) = digits i lt in let same = ap text e in (omega arith, omega arith)

-- `s2b` reads the digits of a number with a point after the first `nd0`, given the number `y9` of the
-- first nine: the result is well formed and has the value of all `nd` digits.
pub s2b-IsValid :
    (fuel : ℕ) (text : ℕ → ℕ) (nd0 nd y9 dplen : ℕ)
    → Digits text nd0 dplen nd
    → y9 ≡ number (digit_at text nd0 dplen) (min 9 nd)
    → y9 < 2 ^ 32
    → nd0 ≤ nd
    → nd + 8 < 2 ^ 31
    → 31 ≤ fuel
    → (b : Bigint) × (s2b fuel text nd0 nd y9 dplen ≡ some b)
      × IsValid b
      × (value b.x ≡ number (digit_at text nd0 dplen) nd)
unfolding s2b balloc value
s2b-IsValid fuel text nd0 nd y9 dplen digits first small order size enough =
    let room = pow-le-pow_right {n = 2} (omega arith) {i = 30} {j = 0 + fuel - 1} (omega arith) in
    let (k, ends) = log2_enough fuel ((nd + 8) / 9) 0 1 refl (omega arith) (omega arith) in
    let digit = digit_at text nd0 dplen in
    let start = start-IsValid k y9 small in
    elim (Bool-cases (ltb 9 nd0)) [
      | inl long ↦
          let nine : y9 ≡ number digit 9 = first ∙ ap (number digit) (ground arith) in
          let (v, e) =
            add_digits-value (nd0 - 9) text digit 9 9 (balloc k (y9 ∷ [])) start
              (λ j lt.
                char_at text nd0 dplen nd digits (9 + j) (9 + j) (ground arith) (ground arith))
              (omega (arith, nine)) in
          let (v', e') =
            add_digits-value (nd - nd0) text digit (nd0 + dplen) nd0
              (add_digits (nd0 - 9) text 9 (balloc k (y9 ∷ []))) v
              (λ j lt.
                char_at text nd0 dplen nd digits (nd0 + j) (nd0 + dplen + j) (omega arith)
                  (ground arith))
              (e ∙ ap (number digit) (ground arith)) in
          rw (ends, long)
            (
              add_digits (nd - nd0) text (nd0 + dplen)
                  (add_digits (nd0 - 9) text 9 (balloc k (y9 ∷ []))),
              refl,
              v',
              e' ∙ ap (number digit) (omega arith),
            )
      | inr short ↦
          let (v, e) =
            add_digits-value (nd - 9) text digit (dplen + 9) (min 9 nd) (balloc k (y9 ∷ [])) start
              (λ j lt.
                char_at text nd0 dplen nd digits (min 9 nd + j) (dplen + 9 + j) (omega arith)
                  (ground arith))
              (omega (arith, first)) in
          rw (ends, short)
            (
              add_digits (nd - 9) text (dplen + 9) (balloc k (y9 ∷ [])),
              refl,
              v,
              e ∙ ap (number digit) (omega arith),
            )
    ]
