-- ===== src/Prelude/Bits.antt =====
-- The bitwise operations of machine words: one binary digit at a time, and field by field.
use Prim.Native.Nat.{
  ℕ, zero, suc, ◌+◌, ◌-◌, ◌*◌, ◌/◌, ◌%◌, ◌^◌, ◌≤◌, ◌<◌, min, max, differ, bit_and, bit_or, bit_xor,
  digits, bitwise, bit_and-bitwise, bit_or-bitwise, bit_xor-bitwise,
}
use native.Mathlib.Nat.{
  le_refl, pow-suc, mul-one, add-zero, one-le-pow, div-add-mod', mod-lt, mod-eq_of_lt,
  add-mul-mod_self_right,
}
use native.Mathlib.Omega.{arith, div_any}
use mathlib.Core.Path.{◌≡◌, refl, sym, ap, ap₂, ◌∙◌}
use mathlib.Core.Bool.{Bool, true, false}
use ocaml_solo.Prelude.Tests.{if◌then◌else◌}

module _ (z : ℕ → ℕ) (f : ℕ → ℕ → ℕ) where
  digits-zero : (count b : ℕ) → digits z f count 0 b ≡ z b
  digits-zero zero b = refl
  digits-zero (suc count) b = refl

  -- Any two counts that are large enough give the same digits.
  same_digits :
      (count more : ℕ) (a b : ℕ) → a ≤ count → a ≤ more → digits z f count a b ≡ digits z f more a b
  same_digits count more zero b h h' = digits-zero count b ∙ sym (digits-zero more b)
  same_digits zero more (suc a) b h h' = absurd (omega arith)
  same_digits (suc count) zero (suc a) b h h' = absurd (omega arith)
  same_digits (suc count) (suc more) (suc a) b h h' =
      let upper = same_digits count more (suc a / 2) (b / 2) (omega arith) (omega arith) in
      ap (λ (t : ℕ). t * 2 + f (suc a % 2) (b % 2)) upper

  -- The law of the lowest digit, for an operation that has these digits.
  lowest_digit :
      (op : ℕ → ℕ → ℕ)
      → ((a b : ℕ) → op a b ≡ bitwise z f a b)
      → ((b : ℕ) → z b ≡ z (b / 2) * 2 + f 0 (b % 2))
      → (a b : ℕ) → op a b ≡ op (a / 2) (b / 2) * 2 + f (a % 2) (b % 2)
  lowest_digit op law base zero b = omega (arith, law 0 b, law 0 (b / 2), base b)
  lowest_digit op law base (suc a) b =
      let upper = same_digits a (suc a / 2) (suc a / 2) (b / 2) (omega arith) (le_refl _) in
      omega (arith, law (suc a) b, law (suc a / 2) (b / 2), upper)

pub bit_and_step : (a b : ℕ) → bit_and a b ≡ bit_and (a / 2) (b / 2) * 2 + min (a % 2) (b % 2)
bit_and_step = lowest_digit (λ y. 0) min bit_and (λ a b. bit_and-bitwise a b) (λ b. omega arith)

pub bit_or_step : (a b : ℕ) → bit_or a b ≡ bit_or (a / 2) (b / 2) * 2 + max (a % 2) (b % 2)
bit_or_step = lowest_digit (λ y. y) max bit_or (λ a b. bit_or-bitwise a b) (λ b. omega arith)

pub bit_xor_step : (a b : ℕ) → bit_xor a b ≡ bit_xor (a / 2) (b / 2) * 2 + differ (a % 2) (b % 2)
bit_xor_step = lowest_digit (λ y. y) differ bit_xor (λ a b. bit_xor-bitwise a b) (λ b. omega arith)

-- An operation on digits acts on the fields above and below bit `k` apart.
module _ (op f : ℕ → ℕ → ℕ) (start : op 0 0 ≡ 0)
    (step : (a b : ℕ) → op a b ≡ op (a / 2) (b / 2) * 2 + f (a % 2) (b % 2)) where
  halves :
      (k q r : ℕ)
      → ((q * 2 ^ suc k + r) / 2 ≡ q * 2 ^ k + r / 2) × ((q * 2 ^ suc k + r) % 2 ≡ r % 2)
  halves k q r =
      let e : q * 2 ^ suc k ≡ 2 * (q * 2 ^ k) =
        omega (arith, ap (λ (t : ℕ). q * t) (pow-suc 2 k)) in
      omega arith

  op_fields :
      (k q r q' r' : ℕ)
      → r < 2 ^ k
      → r' < 2 ^ k
      → op (q * 2 ^ k + r) (q' * 2 ^ k + r') ≡ op q q' * 2 ^ k + op r r'
  op_fields zero q r q' r' h h' =
      let e : r ≡ 0 = omega arith in
      let e' : r' ≡ 0 = omega arith in rw (e, e', start) (simp (mul-one, add-zero))
  op_fields (suc k) q r q' r' h h' =
      let t = halves k q r in
      let t' = halves k q' r' in
      let ih = op_fields k q (r / 2) q' (r' / 2) (omega arith) (omega arith) in
      let double = ap (λ (t : ℕ). op q q' * t) (pow-suc 2 k) in
      let top = step (q * 2 ^ suc k + r) (q' * 2 ^ suc k + r') in
      rw (step (q * 2 ^ suc k + r), t.0, t.1, t'.0, t'.1, ih) (omega (arith, double, step r r'))

  op-lt :
      ((a b : ℕ) → f (a % 2) (b % 2) ≤ 1) → (k r r' : ℕ) → r < 2 ^ k → r' < 2 ^ k → op r r' < 2 ^ k
  op-lt digit zero r r' h h' =
      let e : r ≡ 0 = omega arith in
      let e' : r' ≡ 0 = omega arith in rw (e, e', start) (omega arith)
  op-lt digit (suc k) r r' h h' =
      let p = pow-suc 2 k in
      let ih = op-lt digit k (r / 2) (r' / 2) (omega arith) (omega arith) in
      omega (arith, step r r', digit r r')

differ-le : (a b : ℕ) → differ a b ≤ max a b
differ-le zero b = omega arith
differ-le (suc a) zero = omega arith
differ-le (suc a) (suc b) = omega (arith, differ-le a b)

pub bit_xor-lt : (k r r' : ℕ) → r < 2 ^ k → r' < 2 ^ k → bit_xor r r' < 2 ^ k
bit_xor-lt =
    op-lt bit_xor differ refl bit_xor_step (λ a b. omega (arith, differ-le (a % 2) (b % 2)))

pub bit_or-lt : (k r r' : ℕ) → r < 2 ^ k → r' < 2 ^ k → bit_or r r' < 2 ^ k
bit_or-lt = op-lt bit_or max refl bit_or_step (λ a b. omega arith)

pub bit_and_fields :
    (k q r q' r' : ℕ)
    → r < 2 ^ k
    → r' < 2 ^ k
    → bit_and (q * 2 ^ k + r) (q' * 2 ^ k + r') ≡ bit_and q q' * 2 ^ k + bit_and r r'
bit_and_fields = op_fields bit_and min refl bit_and_step

pub bit_or_fields :
    (k q r q' r' : ℕ)
    → r < 2 ^ k
    → r' < 2 ^ k
    → bit_or (q * 2 ^ k + r) (q' * 2 ^ k + r') ≡ bit_or q q' * 2 ^ k + bit_or r r'
bit_or_fields = op_fields bit_or max refl bit_or_step

pub bit_xor_fields :
    (k q r q' r' : ℕ)
    → r < 2 ^ k
    → r' < 2 ^ k
    → bit_xor (q * 2 ^ k + r) (q' * 2 ^ k + r') ≡ bit_xor q q' * 2 ^ k + bit_xor r r'
bit_xor_fields = op_fields bit_xor differ refl bit_xor_step

-- The zero operand, by strong induction on the other one.
bit_or-zero_fuel : (n a : ℕ) → a ≤ n → bit_or a 0 ≡ a
bit_or-zero_fuel n zero h = refl
bit_or-zero_fuel zero (suc a) h = absurd (omega arith)
bit_or-zero_fuel (suc n) (suc a) h =
    omega (arith, bit_or_step (suc a) 0, bit_or-zero_fuel n (suc a / 2) (omega arith))

pub bit_or-zero : (a : ℕ) → bit_or a 0 ≡ a
bit_or-zero a = bit_or-zero_fuel a a (le_refl a)

pub zero-bit_or : (a : ℕ) → bit_or 0 a ≡ a
zero-bit_or a = bit_or-bitwise 0 a

pub zero-bit_and : (a : ℕ) → bit_and 0 a ≡ 0
zero-bit_and a = bit_and-bitwise 0 a

bit_and-le_right_fuel : (k a b : ℕ) → a ≤ k → bit_and a b ≤ b
bit_and-le_right_fuel k zero b h = omega (arith, zero-bit_and b)
bit_and-le_right_fuel zero (suc a) b h = absurd (omega arith)
bit_and-le_right_fuel (suc k) (suc a) b h =
    let upper = bit_and-le_right_fuel k (suc a / 2) (b / 2) (omega arith) in
    omega (arith, bit_and_step (suc a) b)

pub bit_and-zero : (a : ℕ) → bit_and a 0 ≡ 0
bit_and-zero a = omega (arith, bit_and-le_right_fuel a a 0 (le_refl a))

bit_and-le_fuel : (n a b : ℕ) → a ≤ n → bit_and a b ≤ a
bit_and-le_fuel n zero b h = omega (arith, zero-bit_and b)
bit_and-le_fuel zero (suc a) b h = absurd (omega arith)
bit_and-le_fuel (suc n) (suc a) b h =
    omega (arith, bit_and_step (suc a) b, bit_and-le_fuel n (suc a / 2) (b / 2) (omega arith))

pub bit_and-le : (a b : ℕ) → bit_and a b ≤ a
bit_and-le a b = bit_and-le_fuel a a b (le_refl a)

mod-half : (k a : ℕ) → a / 2 % 2 ^ k * 2 + a % 2 ≡ a % 2 ^ suc k
mod-half k a =
    let p = pow-suc 2 k in
    let d = div-add-mod' (a / 2) (2 ^ k) in
    let q = a / 2 / 2 ^ k in
    let r = a / 2 % 2 ^ k in
    let small : r < 2 ^ k = mod-lt (a / 2) (omega (arith, one-le-pow k 2)) in
    let e : a ≡ r * 2 + a % 2 + q * 2 ^ suc k = omega (arith, ap (λ (t : ℕ). q * t) p) in
    let whole : (r * 2 + a % 2 + q * 2 ^ suc k) % 2 ^ suc k ≡ (r * 2 + a % 2) % 2 ^ suc k =
      add-mul-mod_self_right (r * 2 + a % 2) q (2 ^ suc k) in
    sym (ap (λ (t : ℕ). t % 2 ^ suc k) e ∙ whole ∙ mod-eq_of_lt (omega arith))

-- A low mask is a remainder.
pub bit_and_mask : (k a : ℕ) → bit_and a (2 ^ k - 1) ≡ a % 2 ^ k
bit_and_mask zero a = omega (arith, bit_and-zero a)
bit_and_mask (suc k) a =
    let half : (2 ^ suc k - 1) / 2 ≡ 2 ^ k - 1 = omega (arith, pow-suc 2 k, one-le-pow k 2) in
    let low : (2 ^ suc k - 1) % 2 ≡ 1 = omega (arith, pow-suc 2 k, one-le-pow k 2) in
    rw (bit_and_step a (2 ^ suc k - 1), half, low, bit_and_mask k (a / 2))
      (omega (arith, mod-half k a))

-- Disjoint fields: `(q << k) | r` is a sum.
pub bit_or_sum : (k q r : ℕ) → r < 2 ^ k → bit_or (q * 2 ^ k) r ≡ q * 2 ^ k + r
bit_or_sum k q r h =
    let e : q * 2 ^ k ≡ q * 2 ^ k + 0 = omega arith in
    let p = bit_or_fields k q 0 0 r (omega (arith, one-le-pow k 2)) h in
    ground (arith, p, bit_or-zero q, zero-bit_or r)

differ_eq : (a b : ℕ) → differ a b ≡ 0 → a ≡ b
differ_eq zero b h = sym h
differ_eq (suc a) zero h = h
differ_eq (suc a) (suc b) h = ap suc (differ_eq a b h)

bit_xor_eq_fuel : (n a b : ℕ) → a ≤ n → bit_xor a b ≡ 0 → a ≡ b
bit_xor_eq_fuel n zero b p h = sym h ∙ bit_xor-bitwise 0 b
bit_xor_eq_fuel zero (suc a) b p h = absurd (omega arith)
bit_xor_eq_fuel (suc n) (suc a) b p h =
    let step = bit_xor_step (suc a) b in
    let high = bit_xor_eq_fuel n (suc a / 2) (b / 2) (omega arith) (omega arith) in
    let low = differ_eq (suc a % 2) (b % 2) (omega arith) in omega arith

-- `a ^ b` is 0 only where the operands agree.
pub bit_xor_eq : (a b : ℕ) → bit_xor a b ≡ 0 → a ≡ b
bit_xor_eq a b = bit_xor_eq_fuel a a b (le_refl a)

differ_self : (a : ℕ) → differ a a ≡ 0
differ_self zero = refl
differ_self (suc a) = differ_self a

bit_xor_self_fuel : (n a : ℕ) → a ≤ n → bit_xor a a ≡ 0
bit_xor_self_fuel n zero h = refl
bit_xor_self_fuel zero (suc a) h = absurd (omega arith)
bit_xor_self_fuel (suc n) (suc a) h = omega (
  arith,
  bit_xor_step (suc a) (suc a),
  bit_xor_self_fuel n (suc a / 2) (omega arith),
  differ_self (suc a % 2),
)

pub bit_xor_self : (a : ℕ) → bit_xor a a ≡ 0
bit_xor_self a = bit_xor_self_fuel a a (le_refl a)

-- The bits that a mask of `j` ones above `k` zeros keeps.
pub high_bits : (j k x : ℕ) → bit_and x ((2 ^ j - 1) * 2 ^ k) ≡ x / 2 ^ k % 2 ^ j * 2 ^ k
high_bits j k x =
    let parts : x ≡ x / 2 ^ k * 2 ^ k + x % 2 ^ k = omega (arith, div_any x (2 ^ k)) in
    let room : 0 < 2 ^ k = one-le-pow k 2 (omega arith) in
    let mask : (2 ^ j - 1) * 2 ^ k ≡ (2 ^ j - 1) * 2 ^ k + 0 = omega arith in
    ap₂ bit_and parts mask
    ∙ bit_and_fields k (x / 2 ^ k) (x % 2 ^ k) (2 ^ j - 1) 0 (mod-lt x room) room
    ∙ rw (bit_and-zero (x % 2 ^ k), bit_and_mask j (x / 2 ^ k)) (omega arith)

-- A finite table: the test holds at every number below the bound.
unfoldable pub below_all : (ℕ → Bool) → ℕ → Bool
below_all test zero = true
below_all test (suc bound) = if test bound then below_all test bound else false

pub below_all_at :
    (test : ℕ → Bool) (bound at : ℕ) → below_all test bound ≡ true → at < bound → test at ≡ true
unfolding below_all
below_all_at test zero at table lt = absurd (omega arith)
below_all_at test (suc bound) at table lt = ground (arith, below_all_at test bound at)
