-- ===== src/Bigint/Quorem.antt =====
-- `quorem`: one digit of a quotient, and the remainder in place of the dividend.
pub mod Estimate
pub mod Digit
use native.Mathlib.Nat.{mul-le-mul_right}
use ocaml_solo.Prelude.{
  ℕ, zero, suc, ◌+◌, ◌-◌, ◌*◌, ◌/◌, ◌%◌, ◌^◌, ◌≤◌, ◌<◌, ◌≡◌, ◌⊎◌, refl, ap, sym, ◌∙◌, Bool,
  Bool-cases, Nat-cases, true, false, inl, inr, List, [], ◌∷◌, ◌++◌, arith, ltb, leb, ◌==◌,
  if◌then◌else◌, bit_and, bit_and_mask,
}
use ocaml_solo.Prelude.Int.{ℤ, pos, negsuc, sub_ℕ}
use ocaml_solo.Bigint.{Bigint, balloc, IsValid}
use ocaml_solo.Bigint.Compare.{cmp, Orders, words-Orders, shorter-value}
use ocaml_solo.Bigint.Words.{
  length, Below, value, Top, span, value-lt-span, product_fits, trim, trim-value, trim-Below,
  trim-length,
}

abbrev pub word : List ℕ → ℕ → ℕ
word [] i = 0
word (w ∷ ws) zero = w
word (w ∷ ws) (suc i) = word ws i

-- The loop that subtracts `q` times the words `ss`, with the carry of the product and the borrow.
unfoldable pub mulsub : List ℕ → ℕ → List ℕ → ℕ → ℕ → List ℕ × ℕ × ℕ
mulsub [] q bs carry borrow = (bs, carry, borrow)
mulsub (s ∷ ss) q [] carry borrow = ([], carry, borrow)
mulsub (s ∷ ss) q (b ∷ bs) carry borrow =
    let ys = (s * q + carry) % 2 ^ 64 in
    let y = (b + 2 ^ 64 - ys % 2 ^ 32 - borrow) % 2 ^ 64 in
    let (rest, c, w) = mulsub ss q bs (ys / 2 ^ 32) (bit_and (y / 2 ^ 32) 1) in
    (y % 2 ^ 32 ∷ rest, c, w)

-- The loop that subtracts the words `ss` once more.
unfoldable pub sub_once : List ℕ → List ℕ → ℕ → ℕ → List ℕ × ℕ × ℕ
sub_once [] bs carry borrow = (bs, carry, borrow)
sub_once (s ∷ ss) [] carry borrow = ([], carry, borrow)
sub_once (s ∷ ss) (b ∷ bs) carry borrow =
    let ys = (s + carry) % 2 ^ 64 in
    let y = (b + 2 ^ 64 - ys % 2 ^ 32 - borrow) % 2 ^ 64 in
    let (rest, c, w) = sub_once ss bs (ys / 2 ^ 32) (bit_and (y / 2 ^ 32) 1) in
    (y % 2 ^ 32 ∷ rest, c, w)

-- The zeros in front are left out; of two words or more the lowest stays.
unfoldable pub strip : List ℕ → List ℕ
strip [] = []
strip (w ∷ []) = if w == 0 then [] else w ∷ []
strip (w ∷ (v ∷ vs)) = w ∷ trim (v ∷ vs)

abbrev pub is_negative : ℤ → Bool
is_negative (pos n) = false
is_negative (negsuc n) = true

-- `q`, a first quotient that is not too large.
unfoldable pub estimate : List ℕ → List ℕ → ℕ
estimate bs ss = let n = length ss - 1 in word bs n / ((word ss n + 1) % 2 ^ 32)

-- The part behind the first subtraction.
unfoldable pub correct : ℕ → Bigint → Bigint → ℕ × Bigint
correct q b s =
    if is_negative (cmp b s)
    then (q, b)
    else ((q + 1) % 2 ^ 32, record b { x = strip (sub_once s.x b.x 0 0).0 })

unfoldable pub quorem : Bigint → Bigint → ℕ × Bigint
quorem b s =
    if ltb (length b.x) (length s.x)
    then (0, b)
    else let q = estimate b.x s.x in
      if q == 0
      then correct 0 b s
      else correct q (record b { x = strip (mulsub s.x q b.x 0 0).0 }) s

-- One word of the subtraction: what is taken too much comes back as the borrow.
word_step :
    (b p borrow : ℕ)
    → p < 2 ^ 64
    → b < 2 ^ 32
    → borrow ≤ 1
    → let y = (b + 2 ^ 64 - p % 2 ^ 64 % 2 ^ 32 - borrow) % 2 ^ 64 in
      (y % 2 ^ 32 + p + borrow ≡ b + 2 ^ 32 * (p % 2 ^ 64 / 2 ^ 32 + bit_and (y / 2 ^ 32) 1))
      × (bit_and (y / 2 ^ 32) 1 ≤ 1)
word_step b p borrow hp hb hw =
    let y = (b + 2 ^ 64 - p % 2 ^ 64 % 2 ^ 32 - borrow) % 2 ^ 64 in
    let bit : bit_and (y / 2 ^ 32) 1 ≡ y / 2 ^ 32 % 2 = bit_and_mask 1 (y / 2 ^ 32) in
    (omega (arith, bit), omega (arith, bit))

pub mulsub-value :
    (ss : List ℕ) (q : ℕ) (bs : List ℕ) (carry borrow : ℕ)
    → Below ss
    → q < 2 ^ 32
    → Below bs
    → carry < 2 ^ 32
    → borrow ≤ 1
    → length ss ≡ length bs
    → let (ws, c, w) = mulsub ss q bs carry borrow in
      (value ws + value ss * q + carry + borrow ≡ value bs + (c + w) * span (length bs))
      × Below ws
      × (length ws ≡ length bs)
unfolding mulsub value span
mulsub-value [] q [] carry borrow bs hq bb hc hw l = (omega arith, tt, refl)
mulsub-value [] q (b ∷ bs) carry borrow hs hq bb hc hw l = absurd (omega arith)
mulsub-value (s ∷ ss) q [] carry borrow hs hq bb hc hw l = absurd (omega arith)
mulsub-value (s ∷ ss) q (b ∷ bs) carry borrow (hs, ps) hq (hb, pb) hc hw l =
    let ys = (s * q + carry) % 2 ^ 64 in
    let y = (b + 2 ^ 64 - ys % 2 ^ 32 - borrow) % 2 ^ 64 in
    let fits = product_fits s q carry 0 hs hq hc (omega arith) in
    let (step, bit) = word_step b (s * q + carry) borrow (omega arith) hb hw in
    let (v, below, n) =
      mulsub-value ss q bs (ys / 2 ^ 32) (bit_and (y / 2 ^ 32) 1) ps hq pb (omega arith) bit
        (omega arith) in
    (omega (arith, step, v), (omega arith, below), ap suc n)
