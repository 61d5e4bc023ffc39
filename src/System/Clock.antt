-- ===== src/System/Clock.antt =====
-- `times` and __getauxval of nolibc/sysdeps_solo5.c; `now` is what solo5_clock_monotonic returns.
use ocaml_solo.Prelude.{ℕ, ◌+◌, ◌-◌, ◌^◌, ◌<◌, ◌≡◌, arith, leb, ltb, ◌&&◌, if◌then◌else◌, refl}
use ocaml_solo.Prelude.Int.{ℤ, negsuc}
use ocaml_solo.Memory.{Memory}
use ocaml_solo.Memset.{memset}
use ocaml_solo.Memset.Total.{memset_lem}
use ocaml_solo.Printf.Argument.{to_int}
use ocaml_solo.System.{World}

abbrev enoent : ℕ
enoent = 1

-- clock_t is int, and struct tms holds four of them.
unfoldable pub times : Memory → ℕ → ℕ → ℤ × Memory
unfolding to_int memset
times m buf now = (to_int now, memset m buf 0 16)

unfoldable pub getauxval : World → ℕ × World
getauxval w = (0, record w { errno = enoent })

-- `times` clears the structure and nothing else.
pub times_lem :
    (m : Memory) (buf now : ℕ)
    → buf < 2 ^ 64
    → (b : ℕ) → (times m buf now).1 b ≡ (if leb buf b && ltb b (buf + 16) then 0 else m b)
unfolding times
times_lem m buf now h b = memset_lem m buf 0 16 (omega arith) h b

-- From 2 ^ 31 on the monotonic clock in nanoseconds comes back negative.
times_negative : (times (λ a. 0) 0 (2 ^ 31)).0 ≡ negsuc (2 ^ 31 - 1)
unfolding times
times_negative = refl
