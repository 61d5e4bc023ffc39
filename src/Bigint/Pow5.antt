-- ===== src/Bigint/Pow5.antt =====
-- `i2b` and `pow5mult`.
use native.Mathlib.Nat.{pow-suc, pow-zero, mul-pos}
use ocaml_solo.Prelude.{
  ℕ, zero, suc, ◌+◌, ◌*◌, ◌/◌, ◌%◌, ◌^◌, ◌<◌, ◌≡◌, refl, ap, sym, ◌∙◌, Nat-cases, true, false, inl,
  inr, List, [], ◌∷◌, arith, ◌==◌, if◌then◌else◌, bit_and, bit_and_mask, ◌||◌, below_all,
  below_all_at, Option, some, none, ◌>>=◌,
}
use ocaml_solo.Bigint.{Bigint, balloc, IsValid}
use ocaml_solo.Bigint.Words.{value, pow_add}
use ocaml_solo.Bigint.Multadd.{multadd, multadd-IsValid}
use ocaml_solo.Bigint.Mult.{mult, mult-IsValid}

unfoldable pub i2b : ℕ → Bigint
unfolding balloc
i2b i = balloc 1 (i ∷ [])

-- The next power: the next of the list, or the square, which goes behind the list.
unfoldable pub next_power : Bigint → List Bigint → Bigint × List Bigint
next_power p5 [] = (mult p5 p5, [])
next_power p5 (p ∷ ps) = (p, ps)

-- The first power, and the list behind it.
unfoldable pub first_power : List Bigint → Bigint × List Bigint
unfolding i2b
first_power [] = (i2b 625, [])
first_power (p ∷ ps) = (p, ps)

-- The loop of `pow5mult`. `p5` is the power in hand and `rest` the list behind it, which grows by the
-- powers that it computes; the result holds the list as well.
unfoldable pub pow5_loop : ℕ → ℕ → Bigint → Bigint → List Bigint → Option (Bigint × List Bigint)
pow5_loop zero k b p5 rest = none
pow5_loop (suc fuel) k b p5 rest =
    let b1 = if bit_and k 1 == 0 then b else mult b p5 in
    let (p51, more) = next_power p5 rest in
    let later = pow5_loop fuel (k / 2) b1 p51 more >>= λ r. some (r.0, p51 ∷ r.1) in
    if k / 2 == 0 then some (b1, rest) else later

-- The table p05, at the remainder less 1.
unfoldable pub p05 : ℕ → ℕ
p05 i = if i == 1 then 5 else if i == 2 then 25 else 125

-- `p5s` is the static list of powers, empty before the first use.
unfoldable pub pow5mult : ℕ → Bigint → ℕ → List Bigint → Option (Bigint × List Bigint)
unfolding p05
pow5mult fuel b k p5s =
    let i = bit_and k 3 in
    let b = if i == 0 then b else multadd b (p05 i) 0 in
    let (p5, rest) = first_power p5s in
    let later = pow5_loop fuel (k / 4) b p5 rest >>= λ r. some (r.0, p5 ∷ r.1) in
    if k / 4 == 0 then some (b, p5s) else later

-- Each power in the list is the square of the one before.
abbrev pub Squares : ℕ → List Bigint → Type 0
Squares n [] = Unit {0}
Squares n (p ∷ ps) = IsValid p × (value p.x ≡ n * n) × Squares (n * n) ps

-- The list of `pow5mult`: nothing yet, or the powers from 625 on.
abbrev pub IsCache : List Bigint → Type 0
IsCache [] = Unit {0}
IsCache (p ∷ ps) = IsValid p × (value p.x ≡ 625) × Squares 625 ps

square_pow : (n k : ℕ) → (n * n) ^ k ≡ n ^ (k + k)
square_pow n zero = rw (pow-zero (n * n)) (sym (pow-zero n))
square_pow n (suc k) =
    let e : suc k + suc k ≡ suc (suc (k + k)) = omega arith in
    rw (e, pow-suc (n * n) k, pow-suc n (suc (k + k)), pow-suc n (k + k), square_pow n k)
      (omega arith)

-- Half of the exponent, and the bit that is left.
pow_half : (n k : ℕ) → (n * n) ^ (k / 2) * n ^ (k % 2) ≡ n ^ k
pow_half n k =
    rw (square_pow n (k / 2))
      (sym (pow_add n (k / 2 + k / 2) (k % 2)) ∙ ap (λ e. n ^ e) (omega arith))

pow_positive : (n k : ℕ) → 0 < n → 0 < n ^ k
pow_positive n zero h = rw (pow-zero n) (omega arith)
pow_positive n (suc k) h = rw (pow-suc n k) (mul-pos (pow_positive n k h) h)

next_power-Squares :
    (p5 : Bigint) (n : ℕ) (rest : List Bigint)
    → IsValid p5
    → value p5.x ≡ n
    → 0 < n
    → Squares n rest
    → let (p, ps) = next_power p5 rest in IsValid p × (value p.x ≡ n * n) × Squares (n * n) ps
unfolding next_power
next_power-Squares p5 n [] v e h c =
    let (v', e', fit') = mult-IsValid p5 p5 v v (omega arith) (omega arith) in
    (v', e' ∙ ap (λ (t : ℕ). t * t) e, tt)
next_power-Squares p5 n (p ∷ ps) v e h c = c

-- One step of the exponentiation.
step_product : (b n k : ℕ) → b * n ^ (k % 2) * (n * n) ^ (k / 2) ≡ b * n ^ k
step_product b n k = omega (arith, ap (λ (t : ℕ). b * t) (pow_half n k))

pow_none : (n e : ℕ) → e ≡ 0 → n ^ e ≡ 1
pow_none n e h = rw h (pow-zero n)

pow_once : (n e : ℕ) → e ≡ 1 → n ^ e ≡ n
pow_once n e h = rw (h, pow-suc n 0, pow-zero n) (omega arith)

times_power :
    (k : ℕ) (b p5 : Bigint) (n : ℕ)
    → IsValid b
    → 0 < value b.x
    → IsValid p5
    → value p5.x ≡ n
    → 0 < n
    → let b1 = if bit_and k 1 == 0 then b else mult b p5 in
      IsValid b1 × (value b1.x ≡ value b.x * n ^ (k % 2)) × (0 < value b1.x)
times_power k b p5 n vb pb vp e h =
    let bit : bit_and k 1 ≡ k % 2 = bit_and_mask 1 k in
    elim (Nat-cases (k % 2)) [
      | inl none_ ↦
          let even : (bit_and k 1 == 0) ≡ true = ground arith in
          rw even (vb, omega (arith, ap (λ (t : ℕ). value b.x * t) (pow_none n (k % 2) none_)), pb)
      | inr some_ ↦
          let odd : (bit_and k 1 == 0) ≡ false = ground arith in
          let one : k % 2 ≡ 1 = omega arith in
          let (v, e', fit) = mult-IsValid b p5 vb vp pb (omega arith) in
          let all : value (mult b p5).x ≡ value b.x * n ^ (k % 2) =
            e' ∙ ap (λ (t : ℕ). value b.x * t) (e ∙ sym (pow_once n (k % 2) one)) in
          rw odd (v, all, rw e' (mul-pos pb (omega arith)))
    ]

loop_lem :
    (fuel k : ℕ) (b p5 : Bigint) (n : ℕ) (rest : List Bigint)
    → k < fuel
    → IsValid b
    → 0 < value b.x
    → IsValid p5
    → value p5.x ≡ n
    → 0 < n
    → Squares n rest
    → (d : Bigint) × (ps : List Bigint) × (pow5_loop fuel k b p5 rest ≡ some (d, ps))
      × IsValid d
      × (value d.x ≡ value b.x * n ^ k)
      × Squares n ps
unfolding pow5_loop
loop_lem zero k b p5 n rest enough vb pb vp e h c = absurd (omega arith)
loop_lem (suc fuel) k b p5 n rest enough vb pb vp e h c =
    let (v1, e1, p1) = times_power k b p5 n vb pb vp e h in
    let b1 = if bit_and k 1 == 0 then b else mult b p5 in
    elim (Nat-cases (k / 2)) [
      | inl none_ ↦
          let last : (k / 2 == 0) ≡ true = ground arith in
          rw last (b1, rest, refl, v1, e1 ∙ ap (λ (t : ℕ). value b.x * n ^ t) (omega arith), c)
      | inr some_ ↦
          let more : (k / 2 == 0) ≡ false = ground arith in
          let (vq, eq, cq) = next_power-Squares p5 n rest vp e h c in
          let (p51, later) = next_power p5 rest in
          let (d, ps, ends, vd, ed, cd) =
            loop_lem fuel (k / 2) b1 p51 (n * n) later (omega arith) v1 p1 vq eq (mul-pos h h) cq in
          rw (more, ends)
            (
              d,
              p51 ∷ ps,
              refl,
              vd,
              ed ∙ ap (λ (t : ℕ). t * (n * n) ^ (k / 2)) e1 ∙ step_product (value b.x) n k,
              (vq, eq, cd),
            )
    ]

pow_625 : (j : ℕ) → 625 ^ j ≡ 5 ^ (4 * j)
pow_625 j = square_pow 25 j ∙ square_pow 5 (j + j) ∙ ap (λ e. 5 ^ e) (omega arith)

p05_table : below_all (λ i. i == 0 || p05 i == 5 ^ i) 4 ≡ true
unfolding below_all p05
p05_table = refl

p05-pow : (i : ℕ) → 0 < i → i < 4 → p05 i ≡ 5 ^ i
p05-pow i h lt =
    let found = below_all_at (λ i. i == 0 || p05 i == 5 ^ i) 4 i p05_table lt in
    ground (arith, found)

p05_bounds : (i : ℕ) → (0 < p05 i) × (p05 i < 2 ^ 32)
unfolding p05
p05_bounds i = ground arith

-- The factor from the table.
first_factor :
    (b : Bigint) (k : ℕ)
    → IsValid b
    → 0 < value b.x
    → let b' = if bit_and k 3 == 0 then b else multadd b (p05 (bit_and k 3)) 0 in
      IsValid b' × (value b'.x ≡ value b.x * 5 ^ (k % 4)) × (0 < value b'.x)
first_factor b k v positive =
    let low : bit_and k 3 ≡ k % 4 = bit_and_mask 2 k in
    let some_ = pow_positive 5 (k % 4) (omega arith) in
    elim (Nat-cases (k % 4)) [
      | inl none_ ↦
          let e : (bit_and k 3 == 0) ≡ true = ground arith in
          rw e
            (v, omega (arith, ap (λ (t : ℕ). value b.x * t) (pow_none 5 (k % 4) none_)), positive)
      | inr odd ↦
          let e : (bit_and k 3 == 0) ≡ false = ground arith in
          let (low_, high_) = p05_bounds (k % 4) in
          let (v', e', s) = multadd-IsValid b (p05 (k % 4)) 0 v low_ high_ (omega arith) in
          let all : value (multadd b (p05 (k % 4)) 0).x ≡ value b.x * 5 ^ (k % 4) =
            e' ∙ omega (arith, ap (λ (t : ℕ). value b.x * t) (p05-pow (k % 4) odd (omega arith))) in
          rw (e, low) (v', all, rw all (mul-pos positive some_))
    ]

first_power-Squares :
    (ps : List Bigint)
    → IsCache ps
    → let (p, rest) = first_power ps in IsValid p × (value p.x ≡ 625) × Squares 625 rest
unfolding first_power balloc value i2b
first_power-Squares [] c = (
  record { space = refl; fits = omega arith; below = (omega arith, tt); trimmed = tt },
  omega arith,
  tt,
)
first_power-Squares (p ∷ ps) c = c

-- `pow5mult` multiplies a number that is not 0 by 5 ^ k, with more fuel than `k / 4`; the list of
-- powers that it keeps for later calls stays a list of repeated squares of 625.
pub pow5mult_lem :
    (fuel : ℕ) (b : Bigint) (k : ℕ) (p5s : List Bigint)
    → IsValid b
    → 0 < value b.x
    → IsCache p5s
    → k / 4 < fuel
    → (d : Bigint) × (ps : List Bigint) × (pow5mult fuel b k p5s ≡ some (d, ps))
      × IsValid d
      × (value d.x ≡ value b.x * 5 ^ k)
      × IsCache ps
unfolding pow5mult
pow5mult_lem fuel b k p5s v positive cache enough =
    let (vb, eb, pb) = first_factor b k v positive in
    let b' = if bit_and k 3 == 0 then b else multadd b (p05 (bit_and k 3)) 0 in
    elim (Nat-cases (k / 4)) [
      | inl none_ ↦
          let last : (k / 4 == 0) ≡ true = ground arith in
          rw last (b', p5s, refl, vb, eb ∙ ap (λ (t : ℕ). value b.x * 5 ^ t) (omega arith), cache)
      | inr some_ ↦
          let more : (k / 4 == 0) ≡ false = ground arith in
          let (vp, ep, cp) = first_power-Squares p5s cache in
          let (p5, rest) = first_power p5s in
          let (d, ps, ends, vd, ed, cd) =
            loop_lem fuel (k / 4) b' p5 625 rest enough vb pb vp ep (omega arith) cp in
          let exponent : k % 4 + 4 * (k / 4) ≡ k = omega arith in
          let power : 5 ^ (k % 4) * 625 ^ (k / 4) ≡ 5 ^ k =
            rw (pow_625 (k / 4))
              (sym (pow_add 5 (k % 4) (4 * (k / 4))) ∙ ap (λ e. 5 ^ e) exponent) in
          rw (more, ends)
            (
              d,
              p5 ∷ ps,
              refl,
              vd,
              ed
                  ∙ omega (
                    arith,
                    ap (λ (t : ℕ). t * 625 ^ (k / 4)) eb,
                    ap (λ (t : ℕ). value b.x * t) power,
                  ),
              (vp, ep, cd),
            )
    ]
