-- ===== src/Length/Tests.antt =====
-- Runs of `strlen` and `strnlen`.
use ocaml_solo.Prelude.{◌≡◌, refl, some, arith}
use ocaml_solo.Memory.{span_of}
use ocaml_solo.Memory.Sample.{sample, sample-IsBytes, hello-IsString}
use ocaml_solo.Length.{strlen, strnlen, strlen_lem, strnlen_lem}

strlen_run : strlen 20 sample 103 ≡ some 5
unfolding strlen
strlen_run = refl

strlen_example : strlen 20 sample 103 ≡ some 5
strlen_example = strlen_lem sample 103 5 hello-IsString 20 sample-IsBytes (omega arith)

strnlen_example : strnlen 20 sample 103 3 ≡ some 3
unfolding span_of
strnlen_example = strnlen_lem sample 103 3 sample-IsBytes 20 (omega arith)
