-- ===== src/Strtol/Cutoff.antt =====
-- `cutoff` and `cutlim` decide, before the multiplication, whether one more digit fits a `long`.
use native.Mathlib.Nat.{mul-le-mul_right, mod-lt, mul_comm}
use native.Mathlib.Omega.{div_any}
use ocaml_solo.Prelude.{
  ℕ, zero, suc, ◌+◌, ◌-◌, ◌*◌, ◌/◌, ◌%◌, ◌^◌, ◌≤◌, ◌<◌, ◌≡◌, ◌⊎◌, inl, inr, refl, ap, Bool, true,
  false, ◌&&◌, ◌||◌, ltb, leb, ◌==◌, arith,
}
use ocaml_solo.Prelude.Int.{ℤ, pos, negsuc}
use ocaml_solo.Strtol.{
  neg_of, times, minus, plus, quot, rem, negate, less, equal, cutoffs, accumulate,
}
use ocaml_solo.System.{erange}

-- A magnitude with its sign, and the greatest magnitude that a `long` of that sign has.
abbrev pub signed : Bool → ℕ → ℤ
signed true n = neg_of n
signed false n = pos n

abbrev pub limit : Bool → ℕ
limit true = 2 ^ 63
limit false = 2 ^ 63 - 1

order : (a b : ℕ) → (a < b) ⊎ ((a ≡ b) ⊎ (b < a))
order a b = ground arith

-- The test of the code is exact.
fits_or_not :
    (n b v d : ℕ)
    → d < b
    → (v * b + d ≤ n) × (ltb (n / b) v || v == n / b && ltb (n % b) d ≡ false)
      ⊎ (n < v * b + d) × (ltb (n / b) v || v == n / b && ltb (n % b) d ≡ true)
fits_or_not n b v d small =
    let all : n / b * b + n % b ≡ n = rw (mul_comm (n / b) b) (div_any n b) in
    let low = mod-lt n {m = b} (omega arith) in
    let under : suc v ≤ n / b → v * b + b ≤ n / b * b = λ h. omega (arith, mul-le-mul_right b h) in
    let over : suc (n / b) ≤ v → n / b * b + b ≤ v * b = λ h. omega (arith, mul-le-mul_right b h) in
    elim (order v (n / b)) [
      | inl less_ ↦ inl (let u = under less_ in omega arith, let u = under less_ in ground arith)
      | inr (inl same) ↦ rw same (ground arith)
      | inr (inr more) ↦ inr (let u = over more in omega arith, ground arith)
    ]

minus-neg_of : (v d : ℕ) → minus (neg_of v) d ≡ neg_of (v + d)
unfolding minus neg_of
minus-neg_of zero zero = refl
minus-neg_of zero (suc d) =
    let whole : leb (suc d) 0 ≡ false = ground arith in rw whole (ap neg_of (omega arith))
minus-neg_of (suc v) d = ap neg_of {x = suc (v + d)} (omega arith)

times-neg_of : (v b : ℕ) → times (neg_of v) b ≡ neg_of (v * b)
unfolding times neg_of
times-neg_of zero b = let none_ : 0 * b ≡ 0 = omega arith in rw none_ refl
times-neg_of (suc v) b = refl

less-neg_of : (a b : ℕ) → less (neg_of a) (neg_of b) ≡ ltb b a
unfolding less neg_of
less-neg_of zero zero = refl
less-neg_of zero (suc b) = ground arith
less-neg_of (suc a) zero = ground arith
less-neg_of (suc a) (suc b) = ground arith

equal-neg_of : (a b : ℕ) → equal (neg_of a) (neg_of b) ≡ (a == b)
unfolding equal neg_of
equal-neg_of zero zero = refl
equal-neg_of zero (suc b) = ground arith
equal-neg_of (suc a) zero = ground arith
equal-neg_of (suc a) (suc b) = ground arith

less-pos_zero-neg_of : (n : ℕ) → less (pos 0) (neg_of n) ≡ false
unfolding less neg_of
less-pos_zero-neg_of zero = refl
less-pos_zero-neg_of (suc n) = refl

negate-neg_of : (n : ℕ) → negate (neg_of n) ≡ pos n
unfolding negate neg_of
negate-neg_of zero = refl
negate-neg_of (suc n) = refl

-- `cutoff` and `cutlim` are the quotient and the remainder of the greatest magnitude.
cutoffs_lem :
    (neg : Bool) (base : ℕ)
    → cutoffs neg base ≡ (signed neg (limit neg / base), pos (limit neg % base))
unfolding cutoffs quot rem
cutoffs_lem true base =
    rw (less-pos_zero-neg_of (2 ^ 63 % base), negate-neg_of (2 ^ 63 % base)) refl
cutoffs_lem false base = refl

not_less_than_zero : (n : ℕ) → ltb n 0 ≡ false
not_less_than_zero n = ground arith

-- One more digit `d` of a magnitude `v` that fits: the result is the greater magnitude where that
-- fits as well, and the extreme `long` with ERANGE where it does not.
pub accumulate_lem :
    (neg : Bool) (base v d errno some_ : ℕ)
    → d < base
    → (v * base + d ≤ limit neg)
        × (accumulate neg
              (cutoffs neg base)
              base
              d
              (record { acc = signed neg v; any = pos some_; errno = errno })
            ≡ record { acc = signed neg (v * base + d); any = pos 1; errno = errno })
      ⊎ (limit neg < v * base + d)
        × (accumulate neg
              (cutoffs neg base)
              base
              d
              (record { acc = signed neg v; any = pos some_; errno = errno })
            ≡ record { acc = signed neg (limit neg); any = negsuc 0; errno = erange })
unfolding accumulate less equal times plus
accumulate_lem true base v d errno some_ small =
    rw
      (
        not_less_than_zero some_,
        cutoffs_lem true base,
        less-neg_of v (2 ^ 63 / base),
        equal-neg_of v (2 ^ 63 / base),
        times-neg_of v base,
        minus-neg_of (v * base) d,
      )
      (elim (fits_or_not (2 ^ 63) base v d small) [
        | inl (le, no_) ↦ inl (le, rw no_ refl)
        | inr (gt_, yes_) ↦ inr (gt_, rw yes_ refl)
      ])
accumulate_lem false base v d errno some_ small =
    rw (not_less_than_zero some_, cutoffs_lem false base)
      (elim (fits_or_not (2 ^ 63 - 1) base v d small) [
        | inl (le, no_) ↦ inl (le, rw no_ refl)
        | inr (gt_, yes_) ↦ inr (gt_, rw yes_ refl)
      ])
