-- ===== src/ZeroByte/Tests.antt =====
-- Runs of the zero-byte test.
use ocaml_solo.Prelude.{ℕ, ◌+◌, ◌<◌, ◌≡◌, ◌≢◌, ◌↔◌, refl, true, false}
use ocaml_solo.Memory.{load}
use ocaml_solo.Memory.Sample.{sample, sample-IsBytes}
use ocaml_solo.ZeroByte.{has_zero, has_zero_iff}

has_zero_run : has_zero 0x6168_0100_6f6c_6c65 ≡ true
unfolding has_zero
has_zero_run = refl

has_zero_example : (has_zero (load sample 103 8) ≡ false) ↔ ((i : ℕ) → i < 8 → sample (103 + i) ≢ 0)
has_zero_example = has_zero_iff sample 103 sample-IsBytes
