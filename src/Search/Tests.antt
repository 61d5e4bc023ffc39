-- ===== src/Search/Tests.antt =====
-- Runs of `memchr`, `__strchrnul` and `strchr`.
use ocaml_solo.Prelude.{◌≡◌, refl, none, some, arith}
use ocaml_solo.Memory.{span_of}
use ocaml_solo.Memory.Sample.{sample, sample-IsBytes}
use ocaml_solo.Search.{memchr, strchrnul, strchr, memchr_lem}

memchr_run : memchr 20 sample 103 b'x' 8 ≡ some none
unfolding memchr
memchr_run = refl

memchr_example : memchr 20 sample 103 b'l' 5 ≡ some (some 105)
unfolding span_of
memchr_example = memchr_lem sample 103 5 b'l' 20 sample-IsBytes (omega arith)

strchrnul_run : strchrnul 20 sample 103 b'x' ≡ some 108
unfolding strchrnul
strchrnul_run = refl

strchr_run : strchr 20 sample 103 b'o' ≡ some (some 107)
unfolding strchr
strchr_run = refl
