-- ===== src/Printf/Render/Tests.antt =====
-- A run of a plain format.
use ocaml_solo.Prelude.{ℕ, ◌≡◌, ◌≤◌, ◌-◌, ◌^◌, inr, some, List, [], ◌∷◌, ◌++◌, arith}
use ocaml_solo.Prelude.Lists.{length}
use ocaml_solo.Prelude.Text.{bytes}
use ocaml_solo.Memory.{Memory, write}
use ocaml_solo.Memory.Sample.{sample, sample-IsBytes, hello-IsString}
use ocaml_solo.Format.Pad.{append, append-Stream, prefix, repeat}
use ocaml_solo.Printf.Outcome.{done}
use ocaml_solo.Printf.Directive.{int_max}
use ocaml_solo.Printf.Plain.{d, s}
use ocaml_solo.Printf.Core.{vfprintf}
use ocaml_solo.Printf.Buffer.{put_bytes, vsnprintf}
use ocaml_solo.Printf.Render.{Chunk, in_front, escaped, Rendered}
use ocaml_solo.Printf.Render.Passes.{vfprintf-Rendered}
use ocaml_solo.Printf.Render.Buffers.{vsnprintf-Rendered}

-- "n=%d%%, %s." at 100, for -12 and the string at 103 of the other memory.
abbrev format : Memory
format = put_bytes (λ a. 0) 100 (bytes "n=%d%%, %s.")

abbrev chunks : List Chunk
chunks = in_front (bytes "n=") 0 d ∷ escaped [] 0 ∷ in_front (bytes ", ") 0 s ∷ []

abbrev arguments : List ℕ
arguments = (2 ^ 64 - 12) ∷ 103 ∷ []

vfprintf-Rendered_example :
    (t : List ℕ) × Rendered sample chunks (bytes ".") 0 arguments t
    × (length t ≤ int_max
        → vfprintf append 20 format 100 arguments (λ i. 0) sample 0 []
          ≡ done (some (length t), append t [], sample, 0))
unfolding put_bytes write repeat
vfprintf-Rendered_example =
    vfprintf-Rendered append append-Stream format chunks (bytes ".") 0 arguments 20 100 (λ i. 0)
      sample 0 [] (omega arith) (omega arith) sample-IsBytes
      (tt, (inr (λ e. omega arith, (5, hello-IsString, omega arith)), tt)) (omega arith)
      (omega arith)

vsnprintf-Rendered_example :
    (t : List ℕ) × Rendered sample chunks (bytes ".") 0 arguments t
    × (length t ≤ int_max
        → vsnprintf 900 20 format 100 arguments (λ i. 0) sample 0 500 8 sample
          ≡ done (some (length t), sample, put_bytes sample 500 (prefix (8 - 1) t ++ 0 ∷ []), 0))
unfolding put_bytes write repeat
vsnprintf-Rendered_example =
    vsnprintf-Rendered format chunks (bytes ".") 0 arguments 900 20 100 (λ i. 0) sample 0 500 8
      sample (omega arith) (omega arith) sample-IsBytes
      (tt, (inr (λ e. omega arith, (5, hello-IsString, omega arith)), tt)) (omega arith)
      (omega arith) (omega arith) (omega arith) (omega arith)
