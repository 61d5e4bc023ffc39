-- ===== src/Strncpy/Tests.antt =====
-- Runs of `strncpy` on the string "hello": cut off, padded, and with pointers aligned alike.
use ocaml_solo.Prelude.{ℕ, ◌≡◌, refl, inl, arith, Option, none, some, ◌+◌}
use ocaml_solo.Memory.{Memory, span_of}
use ocaml_solo.Memory.Sample.{sample, sample-IsBytes}
use ocaml_solo.Strncpy.{stpncpy}
use ocaml_solo.Strncpy.Copying.{is_nul}
use ocaml_solo.Strncpy.Padded.{padded, stpncpy_lem}

byte_at : Option (ℕ × Memory) → ℕ → ℕ
byte_at none a = 256
byte_at (some r) a = r.1 a

stpncpy_cut : byte_at (stpncpy 9 sample 303 103 3) 305 ≡ b'l'
unfolding stpncpy byte_at
stpncpy_cut = refl

stpncpy_padded : byte_at (stpncpy 20 sample 203 103 9) 206 ≡ b'l'
unfolding stpncpy byte_at
stpncpy_padded = refl

stpncpy_example :
    (m' : Memory) × (stpncpy 20 sample 303 103 9 ≡ some (303 + span_of is_nul sample 103 9, m'))
    × ((b : ℕ) → m' b ≡ padded sample 303 103 (span_of is_nul sample 103 9) 9 b)
stpncpy_example =
    stpncpy_lem sample 303 103 9 20 (record { bytes = sample-IsBytes; apart = inl (omega arith) })
      (omega arith) (omega arith)
