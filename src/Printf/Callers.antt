-- ===== src/Printf/Callers.antt =====
-- nolibc/fprintf.c, nolibc/printf.c, nolibc/snprintf.c, and the FILE of nolibc/sysdeps_solo5.c. A
-- variable list of arguments is the list that `va_start` gives.
use ocaml_solo.Prelude.{ℕ, Option, List}
use ocaml_solo.Memory.{Memory}
use ocaml_solo.System.{World, emit}
use ocaml_solo.Printf.Outcome.{Outcome, done, ◌>>=◌}
use ocaml_solo.Printf.Core.{vfprintf}
use ocaml_solo.Printf.Buffer.{vsnprintf}

-- The file of `stdout` and `stderr`; the return value, always `l`, is not used by the callers.
unfoldable pub console_write : List ℕ → World → World
unfolding emit
console_write s w = emit s w

-- `nl_arg` is what the array on the stack of `vfprintf` holds before it is written.
unfoldable pub fprintf :
    {F : Type 0}
    → (List ℕ → F → F)
    → ℕ
    → Memory
    → ℕ
    → List ℕ
    → (ℕ → ℕ)
    → Memory
    → ℕ
    → F
    → Outcome (Option ℕ × F × Memory × ℕ)
unfolding vfprintf
fprintf out fuel fmt at args nl_arg m errno f = vfprintf out fuel fmt at args nl_arg m errno f

unfoldable pub printf :
    ℕ → Memory → ℕ → List ℕ → (ℕ → ℕ) → Memory → World → Outcome (Option ℕ × Memory × World)
unfolding vfprintf console_write
printf fuel fmt at args nl_arg m w =
    vfprintf console_write fuel fmt at args nl_arg m w.errno w >>= λ r.
    done (r.0, r.2, record (r.1) { errno = r.3 })

unfoldable pub snprintf :
    ℕ
    → ℕ
    → Memory
    → ℕ
    → List ℕ
    → (ℕ → ℕ)
    → Memory
    → ℕ
    → ℕ
    → ℕ
    → Memory
    → Outcome (Option ℕ × Memory × Memory × ℕ)
unfolding vsnprintf
snprintf b fuel fmt at args nl_arg m errno s n dest =
    vsnprintf b fuel fmt at args nl_arg m errno s n dest
