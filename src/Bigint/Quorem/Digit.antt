-- ===== src/Bigint/Quorem/Digit.antt =====
-- `quorem` is division with remainder, where the quotient is a decimal digit.
use native.Mathlib.Nat.{mul-le-mul_right, lt_of_mul-lt-mul_right}
use ocaml_solo.Prelude.{
  ℕ, zero, suc, ◌+◌, ◌-◌, ◌*◌, ◌%◌, ◌^◌, ◌≤◌, ◌<◌, ◌≡◌, refl, ap, Bool-cases, Nat-cases, true,
  false, inl, inr, List, [], ◌∷◌, arith, ltb, leb, ◌==◌,
}
use ocaml_solo.Prelude.Int.{ℤ, pos, negsuc}
use ocaml_solo.Bigint.{Bigint, IsValid}
use ocaml_solo.Bigint.Compare.{cmp, Orders, words-Orders, shorter-value}
use ocaml_solo.Bigint.Words.{
  length, Below, value, Top, Trimmed-Top, span, value-lt-span, trim-value, trim-Below, trim-length,
}
use ocaml_solo.Bigint.Quorem.{
  mulsub, sub_once, strip, is_negative, word, estimate, correct, quorem, mulsub-value,
}
use ocaml_solo.Bigint.Quorem.Estimate.{estimate-le, estimate_close}

strip-value :
    (ws : List ℕ)
    → Below ws
    → (value (strip ws) ≡ value ws) × Below (strip ws) × (length (strip ws) ≤ length ws)
unfolding strip value
strip-value [] b = (refl, tt, omega arith)
strip-value (w ∷ []) b = ground arith
strip-value (w ∷ (v ∷ vs)) (h, b) = (
  ap (λ n. w + 2 ^ 32 * n) (trim-value (v ∷ vs)),
  (h, trim-Below (v ∷ vs) b),
  omega (arith, trim-length (v ∷ vs)),
)

-- A multiple of the divisor that is not larger is subtracted exactly.
mulsub_exact :
    (ss : List ℕ) (q : ℕ) (bs : List ℕ)
    → Below ss
    → q < 2 ^ 32
    → Below bs
    → length ss ≡ length bs
    → q * value ss ≤ value bs
    → let ws = strip (mulsub ss q bs 0 0).0 in
      (value ws + q * value ss ≡ value bs) × Below ws × (length ws ≤ length bs)
mulsub_exact ss q bs hs hq hb l le =
    let (v, b, n) = mulsub-value ss q bs 0 0 hs hq hb (omega arith) (omega arith) l in
    let (ws, c, w) = mulsub ss q bs 0 0 in
    let small = value-lt-span ws b in
    let same : span (length ws) ≡ span (length bs) = ap span n in
    let (sv, sb, sl) = strip-value ws b in
    elim (Nat-cases (c + w)) [
      | inl none_ ↦ (omega (arith, v, ap (λ (t : ℕ). t * span (length bs)) none_), sb, omega arith)
      | inr some_ ↦
          let grows : 1 * span (length bs) ≤ (c + w) * span (length bs) =
            mul-le-mul_right (span (length bs)) some_ in
          absurd (omega (arith, v))
    ]

sub_once-mulsub :
    (ss bs : List ℕ) (carry borrow : ℕ) → sub_once ss bs carry borrow ≡ mulsub ss 1 bs carry borrow
unfolding sub_once mulsub
sub_once-mulsub [] bs carry borrow = refl
sub_once-mulsub (s ∷ ss) [] carry borrow = refl
sub_once-mulsub (s ∷ ss) (b ∷ bs) carry borrow =
    let one : s * 1 ≡ s = omega arith in
    rw one (
      ap
        (λ (r : List ℕ × ℕ × ℕ).
          ((b + 2 ^ 64 - (s + carry) % 2 ^ 64 % 2 ^ 32 - borrow) % 2 ^ 64 % 2 ^ 32 ∷ r.0, r.1, r.2))
        (sub_once-mulsub ss bs _ _))

cmp_short :
    (b s : Bigint)
    → Below b.x
    → Below s.x
    → Top s.x
    → length b.x ≤ length s.x
    → Orders (cmp b s) (value b.x) (value s.x)
unfolding cmp
cmp_short b s hb hs top l = elim (Bool-cases (length b.x == length s.x)) [
  | inl same ↦ rw same (words-Orders b.x s.x hb hs (ground arith))
  | inr other ↦
      let lt : length b.x < length s.x = ground arith in
      let less : leb (length s.x) (length b.x) ≡ false = ground arith in
      rw (other, less) (shorter-value b.x s.x hb top lt)
]

negative-Orders : (r : ℤ) (m n : ℕ) → Orders r m n → is_negative r ≡ true → m < n
negative-Orders (pos zero) m n o e = cc
negative-Orders (pos (suc k)) m n o e = cc
negative-Orders (negsuc k) m n o e = o

other-Orders : (r : ℤ) (m n : ℕ) → Orders r m n → is_negative r ≡ false → n ≤ m
other-Orders (pos zero) m n o e = omega arith
other-Orders (pos (suc k)) m n o e = omega arith
other-Orders (negsuc k) m n o e = cc

not_shorter :
    (bs ss : List ℕ)
    → Below bs
    → Top ss
    → length bs ≤ length ss
    → value ss ≤ value bs
    → length ss ≡ length bs
not_shorter bs ss hb top l le = elim (Bool-cases (ltb (length bs) (length ss))) [
  | inl shorter ↦ let less = shorter-value bs ss hb top (ground arith) in absurd (omega arith)
  | inr same ↦ ground arith
]

-- The part behind the first subtraction leaves the remainder.
correct_lem :
    (q : ℕ) (b s : Bigint)
    → q < 2 ^ 32 - 1
    → Below b.x
    → Below s.x
    → Top s.x
    → length b.x ≤ length s.x
    → value b.x < 2 * value s.x
    → let (q', d) = correct q b s in
      (value b.x + q * value s.x ≡ q' * value s.x + value d.x) × (value d.x < value s.x)
unfolding correct
correct_lem q b s hq hb hs top l twice =
    let order = cmp_short b s hb hs top l in
    elim (Bool-cases (is_negative (cmp b s))) [
      | inl less ↦
          rw less (omega arith, negative-Orders (cmp b s) (value b.x) (value s.x) order less)
      | inr more ↦
          let le = other-Orders (cmp b s) (value b.x) (value s.x) order more in
          let same : length s.x ≡ length b.x = not_shorter b.x s.x hb top l le in
          let (v, below, n) = mulsub_exact s.x 1 b.x hs (omega arith) hb same (omega arith) in
          let next : (q + 1) % 2 ^ 32 ≡ q + 1 = omega arith in
          rw (more, next, sub_once-mulsub s.x b.x 0 0) (omega arith, omega arith)
    ]

Top-length : (ws : List ℕ) → Top ws → 0 < length ws
Top-length [] t = absurd t
Top-length (w ∷ ws) t = omega arith

digit_small : (q s r b : ℕ) → b ≡ q * s + r → b < 10 * s → q < 10
digit_small q s r b e h = lt_of_mul-lt-mul_right s (omega arith)

-- For a divisor whose highest word is from 10 to 2 ^ 32 - 2, and a dividend of no more words that is
-- less than ten times the divisor, `quorem` divides: it returns the quotient and leaves the
-- remainder, which is less than the divisor.
pub quorem_lem :
    (b s : Bigint)
    → IsValid b
    → IsValid s
    → length b.x ≤ length s.x
    → 10 ≤ word s.x (length s.x - 1)
    → word s.x (length s.x - 1) < 2 ^ 32 - 1
    → value b.x < 10 * value s.x
    → let (q, d) = quorem b s in
      (value b.x ≡ q * value s.x + value d.x) × (value d.x < value s.x) × (q < 10)
unfolding quorem
quorem_lem b s vb vs l large top digit =
    let s_top = Trimmed-Top s.x vs.trimmed (omega arith) in
    elim (Bool-cases (ltb (length b.x) (length s.x))) [
      | inl shorter ↦
          let less = shorter-value b.x s.x vb.below s_top (ground arith) in
          rw shorter (omega arith, less, omega arith)
      | inr long ↦
          let q = estimate b.x s.x in
          let n = length s.x - 1 in
          let long_s : length s.x ≡ suc n = let some_ = Top-length s.x s_top in omega arith in
          let long_b : length b.x ≡ suc n = ground arith in
          let low = estimate-le b.x s.x n vb.below vs.below long_b long_s top in
          let close = estimate_close b.x s.x n vb.below vs.below long_b long_s top large digit in
          let small : q < 10 = lt_of_mul-lt-mul_right (value s.x) (omega arith) in
          elim (Bool-cases (q == 0)) [
            | inl none_ ↦
                let zero_ : q ≡ 0 = ground arith in
                let (v, d) =
                  correct_lem 0 b s (omega arith) vb.below vs.below s_top l
                    (omega (arith, close, ap (λ (t : ℕ). t * value s.x) zero_)) in
                let all : value b.x ≡ (correct 0 b s).0 * value s.x + value (correct 0 b s).1.x =
                  omega arith in
                rw (long, none_) (all, d, digit_small _ (value s.x) _ (value b.x) all digit)
            | inr some_ ↦
                let (v, below, n') =
                  mulsub_exact s.x q b.x vs.below (omega arith) vb.below (omega arith) low in
                let (v', d) =
                  correct_lem q (record b { x = strip (mulsub s.x q b.x 0 0).0 }) s (omega arith)
                    below vs.below s_top (omega arith) (omega arith) in
                let b' = record b { x = strip (mulsub s.x q b.x 0 0).0 } in
                let all : value b.x ≡ (correct q b' s).0 * value s.x + value (correct q b' s).1.x =
                  omega arith in
                rw (long, some_) (all, d, digit_small _ (value s.x) _ (value b.x) all digit)
          ]
    ]
