-- ===== src/System.antt =====
-- What the code does to the world outside: the console of solo5, errno, and how a call ends.
-- nolibc/sysdeps_solo5.c (console, exit, abort, time), nolibc/puts.c, nolibc/assert.c and
-- nolibc/sysconf.c.
pub mod Clock
pub mod Tests
use ocaml_solo.Prelude.{
  ℕ, zero, suc, ◌≢◌, ap, ◌+◌, ◌-◌, ◌*◌, ◌/◌, ◌%◌, ◌^◌, ◌≤◌, ◌<◌, ◌≡◌, ◌⊎◌, inl, inr, refl, Bool,
  true, false, ◌||◌, Option, none, some, List, [], ◌∷◌, ◌++◌, arith, ◌==◌, if◌then◌else◌,
}
use mathlib.Core.List.{append_assoc}
use ocaml_solo.Prelude.Int.{ℤ, pos, negsuc}
use ocaml_solo.Prelude.Text.{bytes}

pub record World : Type 0 where
  pub console : List ℕ
  pub errno : ℕ

pub data Outcome (A : Type 0) : Type 0 where
  returned : A → World → Outcome A
  stopped : World → Outcome A
  exited : ℕ → World → Outcome A

-- The error numbers of errno.h that this code sets.
abbrev pub einval : ℕ
einval = 6

abbrev pub erange : ℕ
erange = 9

abbrev pub enosys : ℕ
enosys = 12

-- `solo5_console_write`
unfoldable pub emit : List ℕ → World → World
emit s w = record w { console = w.console ++ s }

-- `write`; `buf` holds the `count` bytes.
unfoldable pub write : ℤ → List ℕ → ℕ → World → Outcome ℤ
unfolding emit
write fd buf count w = elim fd [
  | pos n ↦
      if n == 1 || n == 2
      then returned (pos count) (emit buf w)
      else returned (negsuc 0) (record w { errno = enosys })
  | negsuc n ↦ returned (negsuc 0) (record w { errno = enosys })
]

unfoldable pub exit : ℕ → World → Outcome (Unit {0})
exit status w = exited status w

unfoldable pub abort : {A : Type 0} → World → Outcome A
unfolding emit
abort w = stopped (emit (bytes "Aborted\n") w)

abbrev length : List ℕ → ℕ
length [] = 0
length (x ∷ xs) = suc (length xs)

-- `puts` writes the string and no newline; `s` holds the bytes before its NUL.
unfoldable pub puts : List ℕ → World → ℕ × World
unfolding emit
puts s w = (length s, emit s w)

-- `putchar`: the lowest byte of the int, on a little-endian machine.
unfoldable pub putchar : ℕ → World → ℕ × World
unfolding emit
putchar chr w = (1, emit (chr % 256 ∷ []) w)

-- `_assert_fail`
unfoldable pub assert_fail : List ℕ → List ℕ → List ℕ → World → Outcome (Unit {0})
unfolding puts abort
assert_fail file line e w =
    let w = (puts file w).1 in
    let w = (puts (bytes ":") w).1 in
    let w = (puts line w).1 in
    let w = (puts (bytes ": Assertion `") w).1 in
    let w = (puts e w).1 in let w = (puts (bytes "' failed\n") w).1 in abort w

pub record Timeval : Type 0 where
  pub sec : ℕ
  pub usec : ℕ

-- `gettimeofday`: `now` is what solo5_clock_wall returns; a NULL `tv` or `tz` is `false`, and the
-- second component says whether `*tz` was cleared.
unfoldable pub gettimeofday : Bool → Bool → ℕ → Option Timeval × Bool
gettimeofday tv tz now = (
  if tv then some (record { sec = now / 1000000000; usec = now % 1000000000 / 1000 }) else none,
  tz,
)

-- `sysconf`
unfoldable pub sysconf : ℤ → ℤ
sysconf x = elim x [ pos n ↦ if n == 1 then pos 4096 else negsuc 0 | negsuc n ↦ negsuc 0 ]

-- A failed assertion writes one line that names the file, the line and the expression, then
-- "Aborted", and stops without returning; errno is left alone.
pub assert_fail_lem :
    (file line e : List ℕ) (w : World)
    → assert_fail file line e w
      ≡ stopped (record w {
        console =
            w.console
            ++ (file
                ++ (bytes ":"
                    ++ (line ++ (bytes ": Assertion `" ++ (e ++ bytes "' failed\nAborted\n")))));
      })
unfolding assert_fail
assert_fail_lem file line e w = ap (λ c. stopped (record w { console = c })) (simp append_assoc)

-- The time of `gettimeofday` is the wall clock in whole microseconds, rounded down, with less than
-- a second in `tv_usec`.
pub gettimeofday_lem :
    (tz : Bool) (now : ℕ)
    → (t : Timeval) × ((gettimeofday true tz now).0 ≡ some t)
      × (t.usec < 1000000)
      × (t.sec * 1000000 + t.usec ≡ now / 1000)
unfolding gettimeofday
gettimeofday_lem tz now = (
  record { sec = now / 1000000000; usec = now % 1000000000 / 1000 },
  refl,
  omega arith,
  omega arith,
)

-- `write` appends to the console exactly for the descriptors 1 and 2 and then returns the count;
-- for any other it leaves the console alone and fails with ENOSYS.
pub write_lem :
    (fd : ℤ) (buf : List ℕ) (count : ℕ) (w : World)
    → ((fd ≡ pos 1) ⊎ (fd ≡ pos 2))
        × (write fd buf count w ≡ returned (pos count) (record w { console = w.console ++ buf }))
      ⊎ (fd ≢ pos 1)
        × (fd ≢ pos 2)
        × (write fd buf count w ≡ returned (negsuc 0) (record w { errno = enosys }))
unfolding write
write_lem (pos n) buf count w = ground arith
write_lem (negsuc n) buf count w = ground arith
