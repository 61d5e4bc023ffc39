-- ===== src/Memcpy/Tests.antt =====
-- Runs of `memcpy`: the source and the destination are aligned differently.
use ocaml_solo.Prelude.{◌≡◌, refl, inl, arith}
use ocaml_solo.Memory.Sample.{sample, sample-IsBytes}
use ocaml_solo.Memcpy.{memcpy}
use ocaml_solo.Memcpy.Total.{memcpy_lem}

memcpy_run : memcpy sample 301 100 60 305 ≡ b'e'
unfolding memcpy
memcpy_run = refl

memcpy_example : memcpy sample 301 100 60 305 ≡ b'e'
memcpy_example = memcpy_lem sample 301 100 60 sample-IsBytes (inl (omega arith)) 305
