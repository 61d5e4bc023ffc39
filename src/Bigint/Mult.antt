-- ===== src/Bigint/Mult.antt =====
-- `mult`.
use native.Mathlib.Nat.{mul-pos, mul_comm}
use ocaml_solo.Prelude.{
  ℕ, zero, suc, ◌+◌, ◌*◌, ◌/◌, ◌%◌, ◌^◌, ◌≤◌, ◌<◌, ◌≡◌, ◌⊎◌, refl, ap, ◌∙◌, Bool-cases, inl, inr,
  List, [], ◌∷◌, arith, ltb, ◌==◌, if◌then◌else◌,
}
use ocaml_solo.Bigint.{Bigint, balloc, IsValid}
use ocaml_solo.Bigint.Words.{
  length, Below, value, product_fits, zeros, zeros-length, zeros-Below, zeros-value, trim,
  trim-value, trim-Below, trim-length, trim-Clean, Clean-Top, Top-Trimmed, pow_next,
}

-- The loop over the words of the first number, for one word `y` of the second: it adds into the
-- words of the product, and stores the last carry.
unfoldable pub mult_row : List ℕ → ℕ → List ℕ → ℕ → List ℕ
mult_row xs y [] carry = []
mult_row [] y (c ∷ cs) carry = carry ∷ cs
mult_row (x ∷ xs) y (c ∷ cs) carry =
    let z = (x * y + c + carry) % 2 ^ 64 in z % 2 ^ 32 ∷ mult_row xs y cs (z / 2 ^ 32)

abbrev pub next_row : List ℕ → (List ℕ → List ℕ) → List ℕ
next_row [] rest = []
next_row (c ∷ cs) rest = c ∷ rest cs

-- The loop over the words of the second number; a word that is 0 is passed over.
unfoldable pub mult_rows : List ℕ → List ℕ → List ℕ → List ℕ
mult_rows xs [] cs = cs
mult_rows xs (y ∷ ys) cs =
    let row = if y == 0 then cs else mult_row xs y cs 0 in
    next_row row (λ rest. mult_rows xs ys rest)

-- The rest of `mult`, where `a` has at least as many words as `b`.
unfoldable pub product : Bigint → Bigint → Bigint
unfolding balloc
product a b =
    let wc = length a.x + length b.x in
    let k = if ltb a.maxwds wc then a.k + 1 else a.k in
    balloc k (trim (mult_rows a.x b.x (zeros wc)))

unfoldable pub mult : Bigint → Bigint → Bigint
mult a b = if ltb (length a.x) (length b.x) then product b a else product a b

abbrev AllZero : List ℕ → Type 0
AllZero [] = Unit {0}
AllZero (c ∷ cs) = (c ≡ 0) × AllZero cs

-- From the word `n` on there are zeros.
abbrev Clear : ℕ → List ℕ → Type 0
Clear zero cs = AllZero cs
Clear (suc n) [] = Unit {0}
Clear (suc n) (c ∷ cs) = Clear n cs

Clear-more : (n : ℕ) (cs : List ℕ) → Clear n cs → Clear (suc n) cs
Clear-more zero [] z = tt
Clear-more zero (c ∷ cs) (h, z) = z
Clear-more (suc n) [] z = tt
Clear-more (suc n) (c ∷ cs) z = Clear-more n cs z

zeros-Clear : (m n : ℕ) → Clear m (zeros n)
unfolding zeros
zeros-Clear zero zero = tt
zeros-Clear zero (suc n) = (refl, zeros-Clear zero n)
zeros-Clear (suc m) zero = tt
zeros-Clear (suc m) (suc n) = zeros-Clear m n

row-value :
    (xs : List ℕ) (y : ℕ) (cs : List ℕ) (carry : ℕ)
    → Below xs
    → y < 2 ^ 32
    → Below cs
    → carry < 2 ^ 32
    → Clear (length xs) cs
    → length xs < length cs
    → let ws = mult_row xs y cs carry in
      (value ws ≡ value cs + value xs * y + carry)
      × Below ws
      × (length ws ≡ length cs)
      × Clear (suc (length xs)) ws
unfolding mult_row value
row-value xs y [] carry bx hy bc hc clear room = absurd (omega arith)
row-value [] y (c ∷ cs) carry bx hy (h, bc) hc (z, clear) room =
    (omega arith, (hc, bc), refl, clear)
row-value (x ∷ xs) y (c ∷ cs) carry (hx, bx) hy (h, bc) hc clear room =
    let fits = product_fits x y c carry hx hy h hc in
    let (v, b, l, z) =
      row-value xs y cs ((x * y + c + carry) % 2 ^ 64 / 2 ^ 32) bx hy bc (omega arith) clear
        (omega arith) in
    (omega arith, (omega arith, b), ap suc l, z)

next-value :
    (row : List ℕ) (rest : List ℕ → List ℕ) (n m w : ℕ)
    → Below row
    → Clear (suc n) row
    → length row ≡ n + suc m
    → ((cs : List ℕ)
        → Below cs
        → Clear n cs
        → length cs ≡ n + m
        → (value (rest cs) ≡ value cs + w) × Below (rest cs) × (length (rest cs) ≡ length cs))
    → (value (next_row row rest) ≡ value row + 2 ^ 32 * w)
      × Below (next_row row rest)
      × (length (next_row row rest) ≡ length row)
unfolding value
next-value [] rest n m w b clear len all = absurd (omega arith)
next-value (c ∷ cs) rest n m w (h, b) clear len all =
    let (v, bs, l) = all cs b clear (omega arith) in (omega arith, (h, bs), ap suc l)

rows-value :
    (xs ys cs : List ℕ)
    → Below xs
    → Below ys
    → Below cs
    → Clear (length xs) cs
    → length cs ≡ length xs + length ys
    → let ws = mult_rows xs ys cs in
      (value ws ≡ value cs + value xs * value ys) × Below ws × (length ws ≡ length cs)
unfolding mult_rows value
rows-value xs [] cs bx by bc clear room = (omega arith, bc, refl)
rows-value xs (y ∷ ys) cs bx (hy, by) bc clear room =
    let later =
      λ (ds : List ℕ) (bd : Below ds) (cd : Clear (length xs) ds)
          (ld : length ds ≡ length xs + length ys).
        rows-value xs ys ds bx by bd cd ld in
    elim (Bool-cases (y == 0)) [
      | inl none_ ↦
          let zero_ : y ≡ 0 = ground arith in
          let (v, b, l) =
            next-value cs (mult_rows xs ys) (length xs) (length ys) (value xs * value ys) bc
              (Clear-more (length xs) cs clear) room later in
          rw none_ (omega (arith, ap (λ (t : ℕ). value xs * t) zero_), b, l)
      | inr some_ ↦
          let (rv, rb, rl, rc) = row-value xs y cs 0 bx hy bc (omega arith) clear (omega arith) in
          let (v, b, l) =
            next-value (mult_row xs y cs 0) (mult_rows xs ys) (length xs) (length ys)
              (value xs * value ys) rb rc (rl ∙ room) later in
          rw some_ (omega arith, b, l ∙ rl)
    ]

-- The block of `c`, where `words` words fit it, and else the next larger one.
abbrev pub InBlock : Bigint → ℕ → Bigint → Type 0
InBlock c words d = (words ≤ c.maxwds) × (d.k ≡ c.k) ⊎ (c.maxwds < words) × (d.k ≡ c.k + 1)

product-InBlock : (a b : Bigint) → InBlock a (length a.x + length b.x) (product a b)
unfolding product balloc
product-InBlock a b = ground arith

product-IsValid :
    (a b : Bigint)
    → IsValid a
    → IsValid b
    → 0 < value a.x
    → 0 < value b.x
    → length b.x ≤ length a.x
    → IsValid (product a b) × (value (product a b).x ≡ value a.x * value b.x)
unfolding product balloc
product-IsValid a b va vb pa pb longer =
    let wc = length a.x + length b.x in
    let cleared = zeros-length wc in
    let (v, bs, l) =
      rows-value a.x b.x (zeros wc) va.below vb.below (zeros-Below wc) (zeros-Clear (length a.x) wc)
        cleared in
    let words = mult_rows a.x b.x (zeros wc) in
    let all : value words ≡ value a.x * value b.x = v ∙ rw (zeros-value wc) (omega arith) in
    let some_ : 0 < value (trim words) = rw (trim-value words, all) (mul-pos pa pb) in
    let most : length (trim words) ≤ wc = omega (arith, trim-length words) in
    let larger = pow_next a.k in
    (
      record {
        space = refl;
        fits = let s = va.space in let f = va.fits in ground arith;
        below = trim-Below words bs;
        trimmed = Top-Trimmed (trim words) (Clean-Top (trim words) (trim-Clean words) some_);
      },
      trim-value words ∙ all,
    )

-- The product of two numbers that are not 0 has the value of the product, with no zero in front, and
-- fits its block: that of the number with more words, where the words of both fit it together, and
-- else the next larger one.
pub mult-IsValid :
    (a b : Bigint)
    → IsValid a
    → IsValid b
    → 0 < value a.x
    → 0 < value b.x
    → IsValid (mult a b)
      × (value (mult a b).x ≡ value a.x * value b.x)
      × InBlock
          (if ltb (length a.x) (length b.x) then b else a)
          (length a.x + length b.x)
          (mult a b)
unfolding mult
mult-IsValid a b va vb pa pb = elim (Bool-cases (ltb (length a.x) (length b.x))) [
  | inl shorter ↦
      let (v, e) = product-IsValid b a vb va pb pa (ground arith) in
      let block = product-InBlock b a in
      rw shorter (v, e ∙ mul_comm (value b.x) (value a.x), omega arith)
  | inr longer ↦
      let (v, e) = product-IsValid a b va vb pa pb (ground arith) in
      rw longer (v, e, product-InBlock a b)
]
