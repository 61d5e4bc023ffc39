-- ===== src/Strerror.antt =====
-- nolibc/strerror_r.c and the table of nolibc/errlist.c.
pub mod Message
pub mod Tests
use ocaml_solo.Prelude.{
  ℕ, zero, suc, ◌+◌, ◌-◌, ◌^◌, ◌≤◌, ◌<◌, ◌≡◌, ◌≢◌, Bool, leb, if◌then◌else◌, Option, none, some,
  List, [], ◌∷◌,
}
use ocaml_solo.Prelude.Int.{ℤ, pos, negsuc}
use ocaml_solo.Prelude.Text.{bytes}
use ocaml_solo.Memory.{Memory}
use ocaml_solo.System.{einval, erange}
use ocaml_solo.Printf.Outcome.{Outcome, done, ◌>>=◌}
use ocaml_solo.Printf.Argument.{to_int}
use ocaml_solo.Printf.Callers.{snprintf}

abbrev pub nb_errors : ℕ
nb_errors = 14

-- The texts of `sys_errlist`, by the error number.
unfoldable pub errlist : List (List ℕ)
errlist =
    bytes "Undefined error: 0"
    ∷ bytes "No such file or directory"
    ∷ bytes "Interrupted system call"
    ∷ bytes "Bad file descriptor"
    ∷ bytes "Cannot allocate memory"
    ∷ bytes "Device busy"
    ∷ bytes "Invalid argument"
    ∷ bytes "Too many open files"
    ∷ bytes "Broken pipe"
    ∷ bytes "Result too large"
    ∷ bytes "Resource temporarily unavailable"
    ∷ bytes "Connection reset by peer"
    ∷ bytes "Function not implemented"
    ∷ bytes "Value too large to be stored in data type"
    ∷ []

-- The result of `snprintf` as an int, and `>=` on ints.
abbrev pub as_int : Option ℕ → ℤ
as_int none = negsuc 0
as_int (some n) = pos n

abbrev pub at_least : ℤ → ℤ → Bool
at_least (pos a) (pos b) = leb b a
at_least (pos a) (negsuc b) = Bool.true
at_least (negsuc a) (pos b) = Bool.false
at_least (negsuc a) (negsuc b) = leb a b

-- `fmt` holds "%s" at `at`, and `sys_errlist` gives the addresses of the texts; the result, the
-- destination and errno.
unfoldable pub strerror_r :
    ℕ
    → ℕ
    → Memory
    → ℕ
    → (ℕ → ℕ)
    → (ℕ → ℕ)
    → Memory
    → ℤ
    → ℕ
    → ℕ
    → Memory
    → ℕ
    → Outcome (ℕ × Memory × ℕ)
strerror_r b fuel fmt at sys_errlist nl_arg m (negsuc n) buf buflen dest errno =
    done (einval, dest, einval)
strerror_r b fuel fmt at sys_errlist nl_arg m (pos n) buf buflen dest errno =
    let message =
      snprintf b fuel fmt at (sys_errlist n ∷ []) nl_arg m errno buf buflen dest >>= λ r.
      if at_least (as_int r.0) (to_int buflen)
      then done (erange, r.2, erange)
      else done (0, r.2, r.3) in
    if leb nb_errors n then done (einval, dest, einval) else message
