-- ===== src/Format/Tests.antt =====
-- Runs of the conversions of integers.
use ocaml_solo.Prelude.{ℕ, ◌≡◌, refl, some, none, Option}
use ocaml_solo.Memory.{Memory, write}
use ocaml_solo.Memory.Sample.{sample}
use ocaml_solo.Format.{fmt_x, fmt_u, fmt_u_wide, fmt_u_long}

abbrev byte_of : Option (ℕ × Memory) → ℕ → Option ℕ
byte_of none a = none
byte_of (some (p, m)) a = some (m a)

fmt_x_run : byte_of (fmt_x 17 0xbeef 1000 32 sample) 996 ≡ some b'b'
unfolding fmt_x write
fmt_x_run = refl

fmt_u_run : byte_of (fmt_u 21 1204 1000 sample) 997 ≡ some b'2'
unfolding fmt_u fmt_u_wide fmt_u_long write
fmt_u_run = refl
