-- ===== src/Format/Digits.antt =====
-- A number as its digits in memory, and a loop that writes them from the last to the first.
use native.Mathlib.Nat.{div-lt_iff_lt-mul, mod-lt, mul-zero, mul_comm, pow-suc, pow-zero}
use native.Mathlib.Omega.{div_any}
use ocaml_solo.Prelude.{
  ℕ, zero, suc, ◌+◌, ◌-◌, ◌*◌, ◌/◌, ◌%◌, ◌^◌, ◌≤◌, ◌<◌, ◌≡◌, sym, ap, Nat-cases, Bool-cases, ◌==◌,
  inl, inr, ◌∙◌, refl, Option, some, arith,
}
use ocaml_solo.Memory.{Memory, write, write_self, write_ne}

-- The number that `count` digits at `p` stand for in base `b`, by what each byte is worth.
unfoldable pub number : ℕ → (ℕ → ℕ) → Memory → ℕ → ℕ → ℕ
number b worth m p zero = 0
number b worth m p (suc count) = number b worth m p count * b + worth (m (p + count))

-- `count` digits of base `b`, and no other bytes, that end before `s` are written, stand for `x`, do not begin with a zero, and
-- nothing else of the memory differs.
pub record Written (b : ℕ) (worth : ℕ → ℕ) (x s : ℕ) (before after : Memory) (p count : ℕ)
    : Type 0 where
  pub place : p + count ≡ s
  pub stands : number b worth after p count ≡ x
  pub digits : (i : ℕ) → i < count → worth (after (p + i)) < b
  pub first : 0 < count → 0 < worth (after p)
  pub behind : (a : ℕ) → s ≤ a → after a ≡ before a
  pub in_front : (a : ℕ) → a < p → after a ≡ before a

-- Where the quotient has no digit, the one digit is the number.
first_digit :
    {b : ℕ} {worth : ℕ → ℕ} {x s : ℕ} {m m' : Memory} {p count : ℕ}
    → count ≡ 0
    → Written b worth (x / b) s m m' p count
    → 0 < x
    → worth (m' (p + count)) ≡ x % b
    → 0 < worth (m' p)
unfolding number
first_digit {b} {worth} {x} {s} {m} {m'} {p} {count} none_ w some_ written =
    let quotient : x / b ≡ 0 = sym (w.stands) ∙ ap (number b worth m' p) none_ in
    let all : x ≡ x % b =
      sym (div_any x b)
      ∙ ap (λ q. b * q + x % b) quotient
      ∙ ap (λ z. z + x % b) (mul-zero b)
      ∙ omega arith in
    let here : worth (m' p) ≡ x =
      ap (λ a. worth (m' a)) (omega (arith, none_)) ∙ written ∙ sym all in
    omega (arith, here, some_)

-- One more digit in front of `s`, after which the digits of the quotient were written.
Written-digit :
    (b d : ℕ) (worth : ℕ → ℕ) {x s : ℕ} {m m' : Memory} {p count : ℕ}
    → 0 < b
    → 0 < x
    → 0 < s
    → worth d ≡ x % b
    → Written b worth (x / b) (s - 1) (write m (s - 1) d) m' p count
    → Written b worth x s m m' p (suc count)
unfolding number
Written-digit b d worth {x} {s} {m} {m'} {p} {count} base some_ room is_digit w =
    let written : worth (m' (p + count)) ≡ x % b =
      rw (w.place, w.behind (s - 1) (omega arith), write_self m (s - 1) d) is_digit in
    let rest = div_any x b in
    record {
      place = let e = w.place in omega arith;
      stands = rw (w.stands, written) (rw (mul_comm (x / b) b) rest);
      digits = λ i lt. elim (Bool-cases (i == count)) [
        | inl last ↦ let at : i ≡ count = ground arith in rw (at, written) (mod-lt x base)
        | inr before ↦ w.digits i (ground arith)
      ];
      first = λ h. elim (Nat-cases count) [
        | inl none_ ↦ first_digit none_ w some_ written
        | inr more ↦ w.first more
      ];
      behind = λ a le. w.behind a (omega arith) ∙ write_ne m (s - 1) d a (λ e. omega arith);
      in_front =
          λ a lt. w.in_front a lt ∙ write_ne m (s - 1) d a (λ e. let q = w.place in omega arith);
    }

Written-nothing : (b : ℕ) (worth : ℕ → ℕ) (s : ℕ) (m : Memory) → Written b worth 0 s m m s 0
unfolding number
Written-nothing b worth s m = record {
  place = omega arith;
  stands = refl;
  digits = λ i lt. absurd (omega arith);
  first = λ h. absurd (omega arith);
  behind = λ a le. refl;
  in_front = λ a lt. refl;
}

module _ (b : ℕ) (digit worth : ℕ → ℕ) (base : 1 < b)
    (reads : (d : ℕ) → d < b → worth (digit d) ≡ d)
    (loop : ℕ → ℕ → ℕ → Memory → Option (ℕ × Memory))
    (stop : (fuel s : ℕ) (m : Memory) → loop (suc fuel) 0 s m ≡ some (s, m))
    (go : (fuel x s : ℕ) (m : Memory)
      → 0 < x
      → loop (suc fuel) x s m ≡ loop fuel (x / b) (s - 1) (write m (s - 1) (digit (x % b)))) where
  -- The loop ends on one more fuel than the digits that `x` can have, and writes no more than these.
  pub loop-Written :
      (n x s : ℕ) (m : Memory)
      → x < b ^ n
      → n ≤ s
      → (p : ℕ) × (count : ℕ) × (m' : Memory) × (loop (suc n) x s m ≡ some (p, m'))
        × (count ≤ n)
        × Written b worth x s m m' p count
  loop-Written n zero s m lt room = (s, 0, m, stop n s m, omega arith, Written-nothing b worth s m)
  loop-Written zero (suc x) s m lt room = absurd (omega (arith, pow-zero b))
  loop-Written (suc n) (suc x) s m lt room =
      let d = digit (suc x % b) in
      let shorter : suc x / b < b ^ n =
        (div-lt_iff_lt-mul {k = b} {x = suc x} {y = b ^ n} (omega arith)).1
          (rw (sym (pow-suc b n)) lt) in
      let (p, count, m', ends, few, w) =
        loop-Written n (suc x / b) (s - 1) (write m (s - 1) d) shorter (omega arith) in
      (
        p,
        suc count,
        m',
        go (suc n) (suc x) s m (omega arith) ∙ ends,
        omega arith,
        Written-digit b d worth (omega arith) (omega arith) (omega arith)
            (reads (suc x % b) (mod-lt (suc x) (omega arith))) w,
      )
