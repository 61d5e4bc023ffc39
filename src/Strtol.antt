-- ===== src/Strtol.antt =====
-- nolibc/strtol.c: a `long` is an integer, and an `int` that `ctype.h` reads is its 32-bit pattern.
pub mod Cutoff
pub mod Digits
pub mod Parse
pub mod Tests
use ocaml_solo.Prelude.{
  ℕ, zero, suc, ◌+◌, ◌-◌, ◌*◌, ◌/◌, ◌%◌, ◌^◌, Bool, true, false, not, ◌&&◌, ◌||◌, Option, none,
  some, ltb, leb, ◌==◌, if◌then◌else◌, ◌>>=◌,
}
use ocaml_solo.Prelude.Int.{ℤ, pos, negsuc}
use ocaml_solo.Memory.{Memory}
use ocaml_solo.System.{erange}
use ocaml_solo.Ctype.{isalpha, isdigit, isspace, isupper}

unfoldable pub neg_of : ℕ → ℤ
neg_of zero = pos 0
neg_of (suc n) = negsuc n

-- `a * b`, `a - b`, `a + b`, `a / b` and `a % b` for a `b` that is not negative; C rounds towards 0.
unfoldable pub times : ℤ → ℕ → ℤ
unfolding neg_of
times (pos a) b = pos (a * b)
times (negsuc a) b = neg_of (suc a * b)

unfoldable pub minus : ℤ → ℕ → ℤ
unfolding neg_of
minus (pos a) b = if leb b a then pos (a - b) else neg_of (b - a)
minus (negsuc a) b = negsuc (a + b)

unfoldable pub plus : ℤ → ℕ → ℤ
unfolding neg_of
plus (pos a) b = pos (a + b)
plus (negsuc a) b = if leb (suc a) b then pos (b - suc a) else neg_of (suc a - b)

unfoldable pub quot : ℤ → ℕ → ℤ
unfolding neg_of
quot (pos a) b = pos (a / b)
quot (negsuc a) b = neg_of (suc a / b)

unfoldable pub rem : ℤ → ℕ → ℤ
unfolding neg_of
rem (pos a) b = pos (a % b)
rem (negsuc a) b = neg_of (suc a % b)

unfoldable pub negate : ℤ → ℤ
unfolding neg_of
negate (pos a) = neg_of a
negate (negsuc a) = pos (suc a)

unfoldable pub less : ℤ → ℤ → Bool
less (pos a) (pos b) = ltb a b
less (pos a) (negsuc b) = false
less (negsuc a) (pos b) = true
less (negsuc a) (negsuc b) = ltb b a

unfoldable pub equal : ℤ → ℤ → Bool
equal (pos a) (pos b) = a == b
equal (pos a) (negsuc b) = false
equal (negsuc a) (pos b) = false
equal (negsuc a) (negsuc b) = a == b

abbrev pub long_max : ℤ
long_max = pos (2 ^ 63 - 1)

abbrev pub long_min : ℤ
long_min = negsuc (2 ^ 63 - 1)

-- The value of `c` as a digit, where it is one in some base.
unfoldable pub digit : ℕ → Option ℕ
unfolding isalpha isdigit isupper
digit c =
    if isdigit c
    then some (c - b'0')
    else if isalpha c
    then some (c - (if isupper c then b'A' - 10 else b'a' - 10))
    else none

-- `cutoff` and `cutlim`.
unfoldable pub cutoffs : Bool → ℕ → ℤ × ℤ
unfolding quot rem less plus minus negate
cutoffs neg base =
    let limit = if neg then long_min else long_max in
    let cutlim = rem limit base in
    let cutoff = quot limit base in
    if neg
    then (if less (pos 0) cutlim
        then (plus cutoff 1, negate (minus cutlim base))
        else (cutoff, negate cutlim))
    else (cutoff, cutlim)

-- The variables `acc` and `any`, and errno.
pub record Read : Type 0 where
  pub acc : ℤ
  pub any : ℤ
  pub errno : ℕ

-- The body of the loop after the tests on the digit `c`.
unfoldable pub accumulate : Bool → ℤ × ℤ → ℕ → ℕ → Read → Read
unfolding less equal times minus plus
accumulate neg (cutoff, cutlim) base c r =
    if less r.any (pos 0)
    then r
    else if neg
    then (if less r.acc cutoff || equal r.acc cutoff && less cutlim (pos c)
        then record { acc = long_min; any = negsuc 0; errno = erange }
        else record r { acc = minus (times r.acc base) c; any = pos 1 })
    else if less cutoff r.acc || equal r.acc cutoff && less cutlim (pos c)
    then record { acc = long_max; any = negsuc 0; errno = erange }
    else record r { acc = plus (times r.acc base) c; any = pos 1 }

-- The tests on `c` that end the loop.
unfoldable pub accepted : ℕ → Option ℕ → Option ℕ
accepted base none = none
accepted base (some d) = if leb base d then none else some d

-- The loop; `s` is the address behind the character `c`.
unfoldable pub read_digits : ℕ → Memory → Bool → ℕ → ℕ → ℕ → Read → Option (ℕ × Read)
read_digits zero m neg base c s r = none
read_digits (suc fuel) m neg base c s r = elim (accepted base (digit c)) [
  | none ↦ some (s, r)
  | some d ↦ read_digits fuel m neg base (m s) (s + 1) (accumulate neg (cutoffs neg base) base d r)
]
