-- ===== src/Printf/Render/Second.antt =====
-- The second pass over such a format.
use ocaml_solo.Prelude.{
  ℕ, suc, ◌+◌, ◌*◌, ◌≤◌, ◌≡◌, refl, sym, inr, ap, ◌∙◌, Option, none, some, List, [], ◌∷◌, ◌++◌,
  arith,
}
use ocaml_solo.Prelude.Lists.{length, length-append}
use ocaml_solo.Memory.{Memory, IsBytes}
use ocaml_solo.Format.Pad.{Stream, repeat}
use ocaml_solo.Printf.Outcome.{done}
use ocaml_solo.Printf.Argument.{converted}
use ocaml_solo.Printf.Directive.{int_max}
use ocaml_solo.Printf.Field.{length-repeat}
use ocaml_solo.Printf.Rounds.{Spelled, Ordinary, literal_text}
use ocaml_solo.Printf.Plain.{Letter, code, type_of, plain, read_directive_second}
use ocaml_solo.Printf.Turn.{moved, to_directive, to_text, to_end}
use ocaml_solo.Printf.Core.{
  Printer, print_directive, act, directive, finish_pass, printf_core, put_out, after_directive,
}
use ocaml_solo.Printf.Render.{
  Chunk, in_front, escaped, spell, IsPlain, AllSuit, Opens, Rendered, code_ne, escaped-Literal,
  segment-Literal, last-Literal, print_plain,
}

length-literal_text : (words : List ℕ) (k : ℕ) → length (literal_text words k) ≡ length words + k
length-literal_text words k =
    omega (arith, length-append words (repeat k b'%'), length-repeat k b'%')

pub length-spelled :
    (words : List ℕ) (k : ℕ) (t : List ℕ)
    → length (words ++ (repeat (2 * k) b'%' ++ t)) ≡ length words + 2 * k + length t
length-spelled words k t = omega (
  arith,
  length-append words (repeat (2 * k) b'%' ++ t),
  length-append (repeat (2 * k) b'%') t,
  length-repeat (2 * k) b'%',
)

module _ {F : Type 0} (out : List ℕ → F → F) (stream : Stream out) (fmt : Memory) where
  -- A directive of the second pass has put `t` out.
  second_directive :
      (fuel c : ℕ) (l : Letter) (v : ℕ) (rest : List ℕ) (st : Printer F) (f : F) (t : List ℕ)
      → fmt (st.r.s + 1) ≡ code l
      → st.r.ap ≡ v ∷ rest
      → st.file ≡ some f
      → print_directive out (some c) (plain l (converted (type_of l) v)) st.m f
        ≡ done (length t, st.m, out t f)
      → directive out (suc fuel) fmt (some c) st
        ≡ done (
          length t,
          record st { r = record (st.r) { s = st.r.s + 1 + 1; ap = rest }; file = some (out t f) },
        )
  unfolding directive act
  second_directive fuel c l v rest st f t here args file printed =
      rw (file, read_directive_second fmt l fuel st.r here v rest args, printed) refl

  -- From the state `st` with the file `f` and `c + l` characters, the run puts `t` out and ends.
  abbrev Ran : ℕ → ℕ → ℕ → Printer F → F → List ℕ → Type 0
  Ran fuel c l st f t =
      (st' : Printer F) × (printf_core out fuel fmt (some c) l st
        ≡ done (some (c + l + length t), st'))
      × (st'.file ≡ some (out t f))
      × (st'.m ≡ st.m)
      × (st'.errno ≡ st.errno)

  end_Ran :
      (words : List ℕ) (k fuel c l : ℕ) (st : Printer F) (f : F)
      → Ordinary words
      → Spelled fmt st.r.s (spell [] words k)
      → st.file ≡ some f
      → length (spell [] words k) ≤ fuel
      → c + l + length (literal_text words k) ≤ int_max
      → Ran fuel c l st f (literal_text words k)
  unfolding finish_pass
  end_Ran words k fuel c l st f ordinary h file enough small =
      let (lit, nul) = last-Literal fmt st.r.s words k ordinary h in
      let len = length-literal_text words k in
      let long = length-spelled words k (0 ∷ []) in
      let file' = ap (put_out out (literal_text words k)) file in
      (
        moved out stream fmt st words k,
        to_end out stream fmt words k c l st lit (omega arith) fuel nul (omega arith)
            ∙ rw (file, len) refl,
        file',
        refl,
        refl,
      )

  -- From any state at the format, with the memory and the arguments, `t` is put out.
  abbrev Prints : Memory → List Chunk → List ℕ → ℕ → List ℕ → List ℕ → Type 0
  Prints m fs words k args t =
      (fuel c l : ℕ) (st : Printer F) (f : F)
      → Spelled fmt st.r.s (spell fs words k)
      → st.r.ap ≡ args
      → st.m ≡ m
      → st.file ≡ some f
      → length (spell fs words k) ≤ fuel
      → c + l + length t ≤ int_max
      → Ran fuel c l st f t

  -- One directive in front of a format that is printed.
  in_front_Prints :
      (m : Memory) (ws : List ℕ) (n : ℕ) (letter : Letter) (fs : List Chunk) (words : List ℕ)
      (k v : ℕ) (args t u : List ℕ)
      → Ordinary ws
      → ((cnt : Option ℕ) (f : F)
          → length t ≤ int_max
          → print_directive out cnt (plain letter (converted (type_of letter) v)) m f
            ≡ done (length t, m, out t f))
      → Prints m fs words k args u
      → Prints m (in_front ws n letter ∷ fs) words k (v ∷ args) (literal_text ws n ++ (t ++ u))
  in_front_Prints m ws n letter fs words k v args t u ordinary printed rest fuel c l st f h arg same
        file enough small =
      let tail = spell fs words k in
      let ne = code_ne letter in
      let (lit, pct, at, spelled) =
        segment-Literal fmt st.r.s ws n (code letter) tail ordinary ne.0 h in
      let lead = literal_text ws n in
      let len = length-literal_text ws n in
      let len2 = length-append lead (t ++ u) in
      let len3 = length-append t u in
      let long = length-spelled ws n (b'%' ∷ code letter ∷ tail) in
      let (fuel', run, le) =
        to_directive out stream fmt ws n c l st lit (omega arith) fuel (length tail)
          (λ z. omega arith) (inr (pct, λ e. ne.0 (sym at ∙ e))) (omega arith) in
      let total = c + l + (length ws + n) in
      let st1 : Printer F = moved out stream fmt st ws n in
      let f1 = out lead f in
      let file1 : st1.file ≡ some f1 = ap (put_out out lead) file in
      let st2 : Printer F = record st1 {
        r = record (st1.r) { s = st1.r.s + 1 + 1; ap = args };
        file = some (out t f1);
      } in
      let show = printed (some total) f1 (omega arith) in
      let dir = second_directive fuel' total letter v args st1 f1 t at arg file1 (rw same show) in
      let (st', run', file', m', errno') =
        rest fuel' total (length t) st2 (out t f1) spelled refl same refl le (omega arith) in
      let count : total + length t + length u ≡ c + l + length (lead ++ (t ++ u)) = omega arith in
      (
        st',
        run
            ∙ ap
                (λ r.
                  after_directive r (done (none, st1)) (done (some 0, st1))
                    (λ (b : ℕ × Printer F). printf_core out fuel' fmt (some total) b.0 b.1))
                dir
            ∙ run'
            ∙ ap (λ (n : ℕ). done (some n, st')) count,
        file' ∙ ap some (stream.join t u f1 ∙ stream.join lead (t ++ u) f),
        m',
        errno',
      )

  -- Text with `%%` in front of a format that is printed.
  escaped_Prints :
      (m : Memory) (ws : List ℕ) (n : ℕ) (fs : List Chunk) (words : List ℕ) (k : ℕ)
      (args u : List ℕ)
      → Ordinary ws
      → Opens (spell fs words k)
      → Prints m fs words k args u
      → Prints m (escaped ws n ∷ fs) words k args (literal_text ws (suc n) ++ u)
  escaped_Prints m ws n fs words k args u ordinary opens rest fuel c l st f h arg same file enough
        small =
      let tail = spell fs words k in
      let (lit, spelled) =
        escaped-Literal fmt st.r.s ws (suc n) tail ordinary (omega arith) opens h in
      let lead = literal_text ws (suc n) in
      let len = length-literal_text ws (suc n) in
      let len2 = length-append lead u in
      let long = length-spelled ws (suc n) tail in
      let (fuel', run, le) =
        to_text out stream fmt ws (suc n) c l st lit (omega arith) fuel (length tail) (omega arith)
          (omega arith) in
      let (st', run', file', m', errno') =
        rest fuel' (c + l) (length ws + suc n) (moved out stream fmt st ws (suc n)) (out lead f)
          spelled arg same (ap (put_out out lead) file) le (omega arith) in
      let count : c + l + (length ws + suc n) + length u ≡ c + l + length (lead ++ u) =
        omega arith in
      (
        st',
        run ∙ run' ∙ ap (λ (n : ℕ). done (some n, st')) count,
        file' ∙ ap some (stream.join lead u f),
        m',
        errno',
      )

  -- The second pass puts out what the format says.
  pub second_pass-Rendered :
      (m : Memory) (fs : List Chunk) (words : List ℕ) (k : ℕ) (args : List ℕ)
      → IsPlain fs words k
      → IsBytes m
      → AllSuit m fs args
      → (t : List ℕ) × Rendered m fs words k args t × Prints m fs words k args t
  second_pass-Rendered m [] words k args is_plain bytes suit = (
    literal_text words k,
    refl,
    λ fuel c l st f h arg same file enough small.
        end_Ran words k fuel c l st f is_plain h file enough small,
  )
  second_pass-Rendered m (in_front ws n l ∷ fs) words k [] is_plain bytes suit = absurd suit
  second_pass-Rendered m (in_front ws n l ∷ fs) words k (v ∷ args) is_plain bytes suit =
      let (t, shown, printed) = print_plain out stream l v m bytes suit.0 in
      let (u, rendered, rest) = second_pass-Rendered m fs words k args is_plain.1 bytes suit.1 in
      (
        literal_text ws n ++ (t ++ u),
        (t, u, refl, shown, rendered),
        in_front_Prints m ws n l fs words k v args t u is_plain.0 printed rest,
      )
  second_pass-Rendered m (escaped ws n ∷ fs) words k args is_plain bytes suit =
      let (u, rendered, rest) = second_pass-Rendered m fs words k args is_plain.2 bytes suit in
      (
        literal_text ws (suc n) ++ u,
        (u, refl, rendered),
        escaped_Prints m ws n fs words k args u is_plain.0 is_plain.1 rest,
      )
