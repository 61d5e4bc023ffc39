-- ===== src/Memmove/Tests.antt =====
-- Runs of `memmove` between overlapping regions, in both directions.
use ocaml_solo.Prelude.{◌≡◌, refl}
use ocaml_solo.Memory.Sample.{sample, sample-IsBytes}
use ocaml_solo.Memmove.{memmove}
use ocaml_solo.Memmove.Total.{memmove_lem}

memmove_run : memmove sample 108 100 20 112 ≡ b'e'
unfolding memmove
memmove_run = refl

memmove_example : memmove sample 102 103 5 106 ≡ b'o'
memmove_example = memmove_lem sample 102 103 5 sample-IsBytes 106
