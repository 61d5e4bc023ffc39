-- ===== src/Format.antt =====
-- nolibc/vfprintf.c: the digits of an integer argument, written backwards from the end of a buffer.
pub mod Digits
pub mod Radix
pub mod Pad
pub mod Tests
use ocaml_solo.Prelude.{
  ℕ, zero, suc, ◌+◌, ◌-◌, ◌*◌, ◌/◌, ◌%◌, ◌^◌, Option, none, some, bit_and, bit_or, ltb, ◌==◌,
  if◌then◌else◌, ◌>>=◌,
}
use ocaml_solo.Memory.{Memory, write}

-- The table `xdigits`, "0123456789ABCDEF".
unfoldable pub xdigits : ℕ → ℕ
xdigits i = if ltb i 10 then b'0' + i else b'A' + (i - 10)

-- The end of the buffer `s` is an address; the result is the first digit and the memory.
unfoldable pub fmt_x : ℕ → ℕ → ℕ → ℕ → Memory → Option (ℕ × Memory)
unfolding xdigits
fmt_x zero x s lower m = none
fmt_x (suc fuel) x s lower m =
    let rest =
      fmt_x fuel (x / 2 ^ 4) (s - 1) lower
        (write m (s - 1) (bit_or (xdigits (bit_and x 15)) lower)) in
    if x == 0 then some (s, m) else rest

unfoldable pub fmt_o : ℕ → ℕ → ℕ → Memory → Option (ℕ × Memory)
fmt_o zero x s m = none
fmt_o (suc fuel) x s m =
    let rest = fmt_o fuel (x / 2 ^ 3) (s - 1) (write m (s - 1) (b'0' + bit_and x 7)) in
    if x == 0 then some (s, m) else rest

-- The first loop of `fmt_u`, for an `x` that is wider than an unsigned long.
unfoldable pub fmt_u_wide : ℕ → ℕ → ℕ → Memory → Option (ℕ × ℕ × Memory)
fmt_u_wide zero x s m = none
fmt_u_wide (suc fuel) x s m =
    let rest = fmt_u_wide fuel (x / 10) (s - 1) (write m (s - 1) (b'0' + x % 10)) in
    if ltb (2 ^ 64 - 1) x then rest else some (x, s, m)

-- The second loop of `fmt_u`.
unfoldable pub fmt_u_long : ℕ → ℕ → ℕ → Memory → Option (ℕ × Memory)
fmt_u_long zero y s m = none
fmt_u_long (suc fuel) y s m =
    let rest = fmt_u_long fuel (y / 10) (s - 1) (write m (s - 1) (b'0' + y % 10)) in
    if y == 0 then some (s, m) else rest

unfoldable pub fmt_u : ℕ → ℕ → ℕ → Memory → Option (ℕ × Memory)
fmt_u fuel x s m = fmt_u_wide fuel x s m >>= λ r. fmt_u_long fuel r.0 r.1 r.2
