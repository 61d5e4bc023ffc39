-- ===== src/Printf/Render/Buffers.antt =====
-- `vsnprintf` over such a format.
use ocaml_solo.Prelude.{
  ℕ, zero, suc, ◌+◌, ◌-◌, ◌%◌, ◌^◌, ◌≤◌, ◌<◌, ◌≡◌, ap, false, ltb, some, List, [], ◌∷◌, ◌++◌, arith,
}
use ocaml_solo.Prelude.Lists.{length}
use ocaml_solo.Memory.{Memory, IsBytes}
use ocaml_solo.Format.Pad.{prefix}
use ocaml_solo.Printf.Outcome.{done}
use ocaml_solo.Printf.Directive.{int_max}
use ocaml_solo.Printf.Rounds.{Spelled}
use ocaml_solo.Printf.Buffer.{
  Buffer, put_bytes, sn_write, sn_write-Stream, terminate, clamped, print_into, vsnprintf,
}
use ocaml_solo.Printf.Snprintf.{terminate-sn_write}
use ocaml_solo.Printf.Render.{Chunk, spell, IsPlain, AllSuit, Rendered}
use ocaml_solo.Printf.Render.Passes.{vfprintf-Rendered}

terminate_pos :
    (s n : ℕ) (d : Memory) (text : List ℕ)
    → 0 < n
    → terminate n (sn_write text (record { wpos = s; wend = s + n; dest = d }))
      ≡ put_bytes d s (prefix (n - 1) text ++ 0 ∷ [])
terminate_pos s zero d text h = absurd (omega arith)
terminate_pos s (suc n) d text h =
    let e : suc n - 1 ≡ n = omega arith in rw e (terminate-sn_write s n d text)

-- For such a format and a size from 1 to INT_MAX, `vsnprintf` writes as many characters of the text
-- as fit before a NUL, and the NUL, and returns the length of the whole text, with errno left alone, if
-- that is no more than INT_MAX.
pub vsnprintf-Rendered :
    (fmt : Memory) (fs : List Chunk) (words : List ℕ) (k : ℕ) (args : List ℕ) (b fuel at : ℕ)
    (nl_arg : ℕ → ℕ) (m : Memory) (errno s n : ℕ) (dest : Memory)
    → IsPlain fs words k
    → Spelled fmt at (spell fs words k)
    → IsBytes m
    → AllSuit m fs args
    → length (spell fs words k) ≤ fuel
    → length (spell fs words k) ≤ int_max
    → 0 < n
    → n ≤ int_max
    → s + n < 2 ^ 64 - 1
    → (t : List ℕ) × Rendered m fs words k args t
      × (length t ≤ int_max
          → vsnprintf b fuel fmt at args nl_arg m errno s n dest
            ≡ done (some (length t), m, put_bytes dest s (prefix (n - 1) t ++ 0 ∷ []), errno))
unfolding vsnprintf print_into
vsnprintf-Rendered fmt fs words k args b fuel at nl_arg m errno s n dest is_plain h bytes suit
      enough small pos_ top room =
    let f : Buffer = record { wpos = s; wend = s + n; dest = dest } in
    let (t, rendered, run) =
      vfprintf-Rendered sn_write sn_write-Stream fmt fs words k args fuel at nl_arg m errno f
        is_plain h bytes suit enough small in
    let fits : ltb (int_max - 1) ((n + 2 ^ 64 - 1) % 2 ^ 64) ≡ false = ground arith in
    let whole : clamped s n ≡ n = ground arith in
    (
      t,
      rendered,
      λ short.
          rw (fits, whole, run short)
            (ap (λ d. done (some (length t), m, d, errno)) (terminate_pos s n dest t pos_)),
    )
