-- ===== src/Strtol/Tests.antt =====
-- Runs of `strtol`.
use ocaml_solo.Prelude.{◌≡◌, refl, some, arith}
use ocaml_solo.Prelude.Int.{pos}
use ocaml_solo.Memory.Sample.{sample, sample-IsBytes}
use ocaml_solo.Ctype.{isalpha, isdigit, isupper}
use ocaml_solo.Strtol.{digit}
use ocaml_solo.Strtol.Digits.{value, IsNumeral}
use ocaml_solo.Strtol.Parse.{strtol, strtol-IsNumeral}

-- "hello" in base 36.
hello-IsNumeral : IsNumeral sample 36 103 5
unfolding digit isalpha isdigit isupper
hello-IsNumeral = (
  17,
  refl,
  omega arith,
  (
    14,
    refl,
    omega arith,
    (21, refl, omega arith, (21, refl, omega arith, (24, refl, omega arith, tt))),
  ),
)

strtol_example : strtol 20 sample 103 (pos 36) 0 ≡ some (pos 29234652, 108, 0)
unfolding value digit isalpha isdigit isupper
strtol_example =
    strtol-IsNumeral sample 103 36 4 20 0 sample-IsBytes (omega arith) (omega arith)
      (λ e. omega arith) hello-IsNumeral (omega arith)
