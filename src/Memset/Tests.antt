-- ===== src/Memset/Tests.antt =====
-- Runs of `memset`.
use ocaml_solo.Prelude.{◌≡◌, refl, arith}
use ocaml_solo.Memory.Sample.{sample}
use ocaml_solo.Memset.{memset}
use ocaml_solo.Memset.Total.{memset_lem}

memset_run : memset sample 103 b'z' 50 140 ≡ b'z'
unfolding memset
memset_run = refl

memset_example : memset sample 103 b'z' 50 152 ≡ b'z'
memset_example = memset_lem sample 103 b'z' 50 (omega arith) (omega arith) 152
