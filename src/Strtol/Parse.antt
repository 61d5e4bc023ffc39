-- ===== src/Strtol/Parse.antt =====
-- `strtol` as a whole: white space, the sign, the prefix of the base, the digits, and `*endptr`.
use ocaml_solo.Prelude.{
  ℕ, zero, suc, ◌+◌, ◌-◌, ◌^◌, ◌≤◌, ◌<◌, ◌≡◌, ◌≢◌, refl, Bool, true, false, not, ◌&&◌, ◌||◌, Option,
  none, some, leb, ltb, ◌==◌, if◌then◌else◌, ◌>>=◌, arith, below_all, below_all_at,
}
use ocaml_solo.Prelude.Int.{ℤ, pos, negsuc}
use ocaml_solo.Memory.{Memory, IsBytes}
use ocaml_solo.System.{einval, erange}
use ocaml_solo.Ctype.{isspace}
use ocaml_solo.Strtol.{digit, equal, neg_of, long_min, Read, read_digits}
use ocaml_solo.Strtol.Digits.{value, IsNumeral, clamped, read_digits-IsNumeral}

-- The first character that is no white space, and the address behind it.
unfoldable pub skip_space : ℕ → Memory → ℕ → Option (ℕ × ℕ)
skip_space zero m s = none
skip_space (suc fuel) m s =
    let rest = skip_space fuel m (s + 1) in if isspace (m s) then rest else some (m s, s + 1)

-- A plain `char` as an `int`.
unfoldable pub signed_char : ℕ → ℕ
signed_char b = if ltb b 128 then b else b + (2 ^ 32 - 256)

-- `neg`, `c` and `s` behind the sign.
unfoldable pub read_sign : Memory → ℕ → ℕ → Bool × ℕ × ℕ
read_sign m c s =
    if c == b'-'
    then (true, signed_char (m s), s + 1)
    else if c == b'+'
    then (false, signed_char (m s), s + 1)
    else (false, c, s)

-- `base`, `c` and `s` behind the prefix.
unfoldable pub read_prefix : Memory → ℕ → ℕ → ℕ → ℕ × ℕ × ℕ
read_prefix m base c s =
    if (base == 0 || base == 16) && (c == b'0' && (m s == b'x' || m s == b'X'))
    then (16, signed_char (m (s + 1)), s + 2)
    else if base == 0
    then (if c == b'0' then 8 else 10, c, s)
    else (base, c, s)

-- The result, `*endptr` and errno; `s` is the address behind the last character read.
unfoldable pub finish : ℕ → ℕ × Read → ℤ × ℕ × ℕ
finish nptr (s, r) = (r.acc, if equal r.any (pos 0) then nptr else s - 1, r.errno)

unfoldable pub convert : ℕ → Memory → ℕ → ℕ → ℕ → Option (ℤ × ℕ × ℕ)
convert fuel m nptr base errno = skip_space fuel m nptr >>= λ start.
    let (neg, c, s) = read_sign m start.0 start.1 in
    let (base, c, s) = read_prefix m base c s in
    read_digits fuel m neg base c s (record { acc = pos 0; any = pos 0; errno = errno }) >>= λ r.
    some (finish nptr r)

unfoldable pub strtol : ℕ → Memory → ℕ → ℤ → ℕ → Option (ℤ × ℕ × ℕ)
strtol fuel m nptr base errno = elim base [
  | pos b ↦ if b == 1 || ltb 36 b then some (pos 0, nptr, einval) else convert fuel m nptr b errno
  | negsuc n ↦ some (pos 0, nptr, einval)
]

abbrev is_none : Option ℕ → Bool
is_none none = true
is_none (some d) = false

-- A digit is neither white space nor a sign.
abbrev is_plain : ℕ → Bool
is_plain c = is_none (digit c) || not (isspace c || c == b'-' || c == b'+')

plain_table : below_all is_plain 256 ≡ true
unfolding below_all digit isspace
plain_table = refl

plain_digit :
    (c d : ℕ)
    → c < 256
    → digit c ≡ some d
    → (isspace c ≡ false) × ((c == b'-') ≡ false) × ((c == b'+') ≡ false)
plain_digit c d lt e =
    let plain : (is_none (digit c) || not (isspace c || c == b'-' || c == b'+')) ≡ true =
      below_all_at is_plain 256 c plain_table lt in
    let fine = rw e at plain in ground (arith, fine)

skip_none :
    (fuel : ℕ) (m : Memory) (a : ℕ)
    → isspace (m a) ≡ false
    → skip_space (suc fuel) m a ≡ some (m a, a + 1)
unfolding skip_space
skip_none fuel m a e = rw e refl

no_sign :
    (m : Memory) (c s : ℕ)
    → (c == b'-') ≡ false
    → (c == b'+') ≡ false
    → read_sign m c s ≡ (false, c, s)
unfolding read_sign
no_sign m c s e e' = rw (e, e') refl

no_prefix : (m : Memory) (b c s : ℕ) → 0 < b → b ≢ 16 → read_prefix m b c s ≡ (b, c, s)
unfolding read_prefix
no_prefix m b c s h h' =
    let zero_ : (b == 0) ≡ false = ground arith in
    let hex : (b == 16) ≡ false = ground arith in rw (zero_, hex) refl

finish_fits :
    (nptr s n errno : ℕ)
    → finish nptr (s + 1, clamped false n (pos 1) errno)
      ≡ (if leb n (2 ^ 63 - 1) then (pos n, s, errno) else (pos (2 ^ 63 - 1), s, erange))
unfolding finish clamped equal
finish_fits nptr s n errno = let here : s + 1 - 1 ≡ s = omega arith in rw here (ground arith)

-- A numeral of at least one digit, without white space, sign or prefix, in a base from 2 to 36 other
-- than 16: with fuel above its digits `strtol` returns its value, with errno left alone, or LONG_MAX
-- with ERANGE where the value is above LONG_MAX; `*endptr` is the address behind the last digit.
pub strtol-IsNumeral :
    (m : Memory) (a b count fuel errno : ℕ)
    → IsBytes m
    → 2 ≤ b
    → b ≤ 36
    → b ≢ 16
    → IsNumeral m b a (suc count)
    → suc count < fuel
    → strtol fuel m a (pos b) errno
      ≡ some (
          if leb (value m b a (suc count) 0) (2 ^ 63 - 1)
          then (pos (value m b a (suc count) 0), a + suc count, errno)
          else (pos (2 ^ 63 - 1), a + suc count, erange))
unfolding strtol convert
strtol-IsNumeral m a b count zero errno byte low high not_hex num enough = absurd (omega arith)
strtol-IsNumeral m a b count (suc fuel) errno byte low high not_hex num enough =
    let (d, e, small, rest) = num in
    let (blank, minus_, plus_) = plain_digit (m a) d (byte a) e in
    let base_ok : (b == 1 || ltb 36 b) ≡ false = ground arith in
    rw
      (
        base_ok,
        skip_none fuel m a blank,
        no_sign m (m a) (a + 1) minus_ plus_,
        no_prefix m b (m a) (a + 1) (omega arith) not_hex,
        read_digits-IsNumeral (suc count) (suc fuel) m false b a 0 0 errno enough num (omega arith),
        finish_fits a (a + suc count) (value m b a (suc count) 0) errno,
      )
      refl

-- A digit is an ASCII character, which a plain `char` holds as it is.
ascii_table : below_all (λ c. is_none (digit c) || ltb c 128) 256 ≡ true
unfolding below_all digit
ascii_table = refl

digit_signed : (c d : ℕ) → c < 256 → digit c ≡ some d → signed_char c ≡ c
unfolding signed_char
digit_signed c d lt e =
    let ascii : (is_none (digit c) || ltb c 128) ≡ true =
      below_all_at (λ c. is_none (digit c) || ltb c 128) 256 c ascii_table lt in
    let fine = rw e at ascii in ground (arith, fine)

finish_minus :
    (nptr s n errno : ℕ)
    → finish nptr (s + 1, clamped true n (pos 1) errno)
      ≡ (if leb n (2 ^ 63) then (neg_of n, s, errno) else (long_min, s, erange))
unfolding finish clamped equal neg_of
finish_minus nptr s n errno = let here : s + 1 - 1 ≡ s = omega arith in rw here (ground arith)

-- A numeral of at least one digit behind a minus sign, without white space or prefix, in a base from
-- 2 to 36 other than 16: with fuel above its digits `strtol` returns the value negated, with errno
-- left alone, or LONG_MIN with ERANGE where that is below LONG_MIN; `*endptr` is the address behind
-- the last digit.
pub strtol_minus-IsNumeral :
    (m : Memory) (a b count fuel errno : ℕ)
    → IsBytes m
    → 2 ≤ b
    → b ≤ 36
    → b ≢ 16
    → m a ≡ b'-'
    → IsNumeral m b (a + 1) (suc count)
    → suc count < fuel
    → strtol fuel m a (pos b) errno
      ≡ some (
          if leb (value m b (a + 1) (suc count) 0) (2 ^ 63)
          then (neg_of (value m b (a + 1) (suc count) 0), a + 1 + suc count, errno)
          else (long_min, a + 1 + suc count, erange))
unfolding strtol convert read_sign isspace neg_of
strtol_minus-IsNumeral m a b count zero errno byte low high not_hex sign num enough =
    absurd (omega arith)
strtol_minus-IsNumeral m a b count (suc fuel) errno byte low high not_hex sign num enough =
    let (d, e, small, rest) = num in
    let blank : isspace (m a) ≡ false = rw sign refl in
    let base_ok : (b == 1 || ltb 36 b) ≡ false = ground arith in
    rw
      (
        base_ok,
        skip_none fuel m a blank,
        sign,
        digit_signed (m (a + 1)) d (byte (a + 1)) e,
        no_prefix m b (m (a + 1)) (a + 1 + 1) (omega arith) not_hex,
        read_digits-IsNumeral (suc count) (suc fuel) m true b (a + 1) 0 0 errno enough num
            (omega arith),
        finish_minus a (a + 1 + suc count) (value m b (a + 1) (suc count) 0) errno,
      )
      refl
