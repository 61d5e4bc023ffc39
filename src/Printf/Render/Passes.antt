-- ===== src/Printf/Render/Passes.antt =====
-- Both passes over such a format.
use ocaml_solo.Prelude.{
  ℕ, suc, ◌+◌, ◌≤◌, ◌≡◌, refl, sym, inr, ap, ◌∙◌, false, none, some, List, [], ◌∷◌, arith,
}
use ocaml_solo.Prelude.Lists.{length}
use ocaml_solo.Memory.{Memory, IsBytes}
use ocaml_solo.Format.Pad.{Stream}
use ocaml_solo.Printf.Outcome.{done, leave}
use ocaml_solo.Printf.Directive.{int_max}
use ocaml_solo.Printf.Rounds.{Spelled, literal_text}
use ocaml_solo.Printf.Plain.{Letter, code, read_directive_first}
use ocaml_solo.Printf.Turn.{moved, to_directive, to_text, to_end}
use ocaml_solo.Printf.Core.{
  Printer, directive, finish_pass, printf_core, put_out, pass_start, second_pass, vfprintf,
}
use ocaml_solo.Printf.Render.{
  Chunk, in_front, escaped, spell, IsPlain, AllSuit, Rendered, code_ne, escaped-Literal,
  segment-Literal, last-Literal,
}
use ocaml_solo.Printf.Render.Second.{length-spelled, second_pass-Rendered}

module _ {F : Type 0} (out : List ℕ → F → F) (stream : Stream out) (fmt : Memory) where
  -- The first pass leaves at a directive.
  first_directive :
      (fuel c : ℕ) (l : Letter) (st : Printer F)
      → fmt (st.r.s + 1) ≡ code l
      → st.file ≡ none
      → directive out (suc fuel) fmt (some c) st ≡ leave
  unfolding directive
  first_directive fuel c l st here file = rw (file, read_directive_first fmt l fuel st.r here) refl

  -- The first pass finds no position, and takes no argument.
  first_pass_plain :
      (fs : List Chunk) (words : List ℕ) (k fuel c l : ℕ) (st : Printer F)
      → IsPlain fs words k
      → Spelled fmt st.r.s (spell fs words k)
      → st.file ≡ none
      → st.r.l10n ≡ false
      → length (spell fs words k) ≤ fuel
      → c + l + length (spell fs words k) ≤ int_max
      → (st' : Printer F) × (printf_core out fuel fmt (some c) l st ≡ done (some 0, st'))
        × (st'.r.ap ≡ st.r.ap)
        × (st'.m ≡ st.m)
        × (st'.errno ≡ st.errno)
  unfolding finish_pass
  first_pass_plain [] words k fuel c l st is_plain h file no_positions enough small =
      let (lit, nul) = last-Literal fmt st.r.s words k is_plain h in
      let long = length-spelled words k (0 ∷ []) in
      (
        moved out stream fmt st words k,
        to_end out stream fmt words k c l st lit (omega arith) fuel nul (omega arith)
            ∙ rw (file, no_positions) refl,
        refl,
        refl,
        refl,
      )
  first_pass_plain (in_front ws n letter ∷ fs) words k fuel c l st is_plain h file no_positions
        enough small =
      let tail = spell fs words k in
      let ne = (code_ne letter).0 in
      let (lit, pct, at, spelled) =
        segment-Literal fmt st.r.s ws n (code letter) tail is_plain.0 ne h in
      let long = length-spelled ws n (b'%' ∷ code letter ∷ tail) in
      let st1 : Printer F = moved out stream fmt st ws n in
      let (fuel', run, le) =
        to_directive out stream fmt ws n c l st lit (omega arith) fuel 0 (λ z. omega arith)
          (inr (pct, λ e. ne (sym at ∙ e))) (omega arith) in
      let dir =
        first_directive fuel' (c + l + (length ws + n)) letter st1 at
          (ap (put_out out (literal_text ws n)) file) in
      (st1, run ∙ rw dir refl, refl, refl, refl)
  first_pass_plain (escaped ws n ∷ fs) words k fuel c l st is_plain h file no_positions enough
        small =
      let tail = spell fs words k in
      let (lit, spelled) =
        escaped-Literal fmt st.r.s ws (suc n) tail is_plain.0 (omega arith) is_plain.1 h in
      let long = length-spelled ws (suc n) tail in
      let (fuel', run, le) =
        to_text out stream fmt ws (suc n) c l st lit (omega arith) fuel (length tail) (omega arith)
          (omega arith) in
      let (st', run', args', m', errno') =
        first_pass_plain fs words k fuel' (c + l) (length ws + suc n)
          (moved out stream fmt st ws (suc n)) is_plain.2 spelled
          (ap (put_out out (literal_text ws (suc n))) file) no_positions le (omega arith) in
      (st', run ∙ run', args', m', errno')

  -- `vfprintf` of a format of ordinary text, `%%` and the directives d, i, o, u, x, X, c and s without
  -- flags, width and precision, and of arguments that suit them, puts out the text of the format with
  -- each directive replaced by what it shows of its argument: the decimal number with its sign, the
  -- number in base 8, 10 or 16, with the letters of the case of the directive and no zero in front, the
  -- character, or the string. It returns the number of characters and
  -- leaves the memory and errno alone, if these are no more than INT_MAX; more fuel than the format has
  -- characters is enough.
  pub vfprintf-Rendered :
      (fs : List Chunk) (words : List ℕ) (k : ℕ) (args : List ℕ) (fuel s : ℕ) (nl_arg : ℕ → ℕ)
      (m : Memory) (errno : ℕ) (f : F)
      → IsPlain fs words k
      → Spelled fmt s (spell fs words k)
      → IsBytes m
      → AllSuit m fs args
      → length (spell fs words k) ≤ fuel
      → length (spell fs words k) ≤ int_max
      → (t : List ℕ) × Rendered m fs words k args t
        × (length t ≤ int_max
            → vfprintf out fuel fmt s args nl_arg m errno f
              ≡ done (some (length t), out t f, m, errno))
  unfolding vfprintf second_pass
  vfprintf-Rendered fs words k args fuel s nl_arg m errno f is_plain h bytes suit enough small =
      let first : Printer F = record {
        r = pass_start s args nl_arg (λ i. 0);
        file = none;
        m = m;
        errno = errno;
      } in
      let (st1, run1, args1, m1, errno1) =
        first_pass_plain fs words k fuel 0 0 first is_plain h refl refl enough (omega arith) in
      let (t, rendered, prints) =
        second_pass-Rendered out stream fmt m fs words k args is_plain bytes suit in
      (
        t,
        rendered,
        λ fits.
            let r = pass_start s st1.r.ap st1.r.nl_arg st1.r.nl_type in
            let start : Printer F = record st1 { r = r; file = some f } in
            let (st2, run2, file2, m2, errno2) =
              prints fuel 0 0 start f h args1 m1 refl enough (omega arith) in
            rw (run1, run2, file2, m2 ∙ m1, errno2 ∙ errno1)
              (ap (λ n. done (some n, out t f, m, errno)) (omega arith)),
      )
