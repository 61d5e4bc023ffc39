-- ===== src/Printf/Render.antt =====
-- Formats of ordinary text, `%%` and plain directives, and what `vfprintf` prints of them.
pub mod Second
pub mod Passes
pub mod Buffers
pub mod Tests
use ocaml_solo.Prelude.{
  ℕ, zero, suc, ◌+◌, ◌-◌, ◌*◌, ◌^◌, ◌≤◌, ◌<◌, ◌≡◌, ◌≢◌, refl, ap, sym, ◌∙◌, inl, inr, true, false,
  ◌==◌, ltb, if◌then◌else◌, ◌&&◌, Option, none, some, List, [], ◌∷◌, ◌++◌, arith,
}
use ocaml_solo.Prelude.Lists.{length, length-append}
use ocaml_solo.Memory.{Memory, IsBytes}
use ocaml_solo.Format.Pad.{Stream, repeat}
use ocaml_solo.Printf.Outcome.{Outcome, done, leave, Ensures-done, ◌>>=◌}
use ocaml_solo.Printf.Table.{bare}
use ocaml_solo.Printf.Argument.{converted}
use ocaml_solo.Printf.Directive.{Reader, int_max, read_directive}
use ocaml_solo.Printf.Convert.{Field, letter, conversion}
use ocaml_solo.Printf.Field.{
  print_field, print_field_lem, layout, layout-length, length-repeat, digits_wide, field_wide,
}
use ocaml_solo.Printf.Reading.{converted-lt}
use ocaml_solo.Printf.Converting.{conversion-Ensures, once}
use ocaml_solo.Printf.Rounds.{Spelled, Spelled-append, Ordinary, Behind, Literal, literal_text}
use ocaml_solo.Printf.Plain.{
  Letter, d, i, o, u, x, big_x, c, s, code, type_of, plain, read_directive_first,
  read_directive_second,
}
use ocaml_solo.Printf.Shown.{Shown, Suits, conversion-Shown}
use ocaml_solo.Printf.Turn.{moved, at_directive, to_directive, to_end}
use ocaml_solo.Printf.Core.{
  Printer, print_directive, act, directive, finish_pass, printf_core, put_out, is_float, pass_start,
  second_pass, vfprintf,
}

-- Ordinary text and a number of `%%`, in front of a directive, or with one more `%%` in front of other
-- text.
pub data Chunk : Type 0 where
  in_front : List ℕ → ℕ → Letter → Chunk
  escaped : List ℕ → ℕ → Chunk

-- A format as bytes, with the text behind the last of them and the NUL.
abbrev pub spell : List Chunk → List ℕ → ℕ → List ℕ
spell [] words k = words ++ (repeat (2 * k) b'%' ++ 0 ∷ [])
spell (in_front ws n l ∷ fs) words k =
    ws ++ (repeat (2 * n) b'%' ++ b'%' ∷ code l ∷ spell fs words k)
spell (escaped ws n ∷ fs) words k = ws ++ (repeat (2 * suc n) b'%' ++ spell fs words k)

abbrev pub Opens : List ℕ → Type 0
Opens [] = ⊥
Opens (b ∷ t) = b ≢ b'%'

-- The text is ordinary, and no other `%` stands behind the `%%` of a chunk.
abbrev pub IsPlain : List Chunk → List ℕ → ℕ → Type 0
IsPlain [] words k = Ordinary words
IsPlain (in_front ws n l ∷ fs) words k = Ordinary ws × IsPlain fs words k
IsPlain (escaped ws n ∷ fs) words k = Ordinary ws × Opens (spell fs words k) × IsPlain fs words k

-- There is an argument for each directive, which suits it.
abbrev pub AllSuit : Memory → List Chunk → List ℕ → Type 0
AllSuit m [] ap = Unit {0}
AllSuit m (in_front ws n l ∷ fs) [] = ⊥
AllSuit m (in_front ws n l ∷ fs) (v ∷ ap) = Suits m l v × AllSuit m fs ap
AllSuit m (escaped ws n ∷ fs) ap = AllSuit m fs ap

-- The text is that of the format, with what the directives print of the arguments.
abbrev pub Rendered : Memory → List Chunk → List ℕ → ℕ → List ℕ → List ℕ → Type 0
Rendered m [] words k ap t = t ≡ literal_text words k
Rendered m (in_front ws n l ∷ fs) words k [] t = ⊥
Rendered m (in_front ws n l ∷ fs) words k (v ∷ ap) t =
    (shown : List ℕ) × (rest : List ℕ) × (t ≡ literal_text ws n ++ (shown ++ rest))
    × Shown m l v shown
    × Rendered m fs words k ap rest
Rendered m (escaped ws n ∷ fs) words k ap t =
    (rest : List ℕ) × (t ≡ literal_text ws (suc n) ++ rest) × Rendered m fs words k ap rest

pub code_ne : (l : Letter) → (code l ≢ b'%') × (code l ≢ 0)
code_ne d = (λ e. omega arith, λ e. omega arith)
code_ne _ = (λ e. omega arith, λ e. omega arith)

letter-code : (l : Letter) → letter bare (code l) ≡ code l
unfolding letter
letter-code d = refl
letter-code _ = refl

prints : (l : Letter) → ((code l == b'n') ≡ false) × (is_float (code l) ≡ false)
prints d = (refl, refl)
prints _ = (refl, refl)

Opens-byte : (fmt : Memory) (a : ℕ) (t : List ℕ) → Spelled fmt a t → Opens t → fmt a ≢ b'%'
Opens-byte fmt a [] h opens = absurd opens
Opens-byte fmt a (b ∷ t) h opens = λ e. opens (sym h.0 ∙ e)

-- The text in front of other text.
pub escaped-Literal :
    (fmt : Memory) (a : ℕ) (words : List ℕ) (k : ℕ) (tail : List ℕ)
    → Ordinary words
    → 0 < k
    → Opens tail
    → Spelled fmt a (words ++ (repeat (2 * k) b'%' ++ tail))
    → Literal fmt a words k × Spelled fmt (a + length words + 2 * k) tail
escaped-Literal fmt a words k tail ordinary some_ opens h =
    let (s1, r1) = Spelled-append fmt a words (repeat (2 * k) b'%' ++ tail) h in
    let (s2, r2) = Spelled-append fmt (a + length words) (repeat (2 * k) b'%') tail r1 in
    let r3 : Spelled fmt (a + length words + 2 * k) tail = rw length-repeat at r2 in
    (
      record {
        spelled = s1;
        ordinary = ordinary;
        doubled = s2;
        behind = inr (some_, Opens-byte fmt (a + length words + 2 * k) tail r3 opens);
      },
      r3,
    )

-- The text in front of a directive.
pub segment-Literal :
    (fmt : Memory) (a : ℕ) (words : List ℕ) (k b : ℕ) (tail : List ℕ)
    → Ordinary words
    → b ≢ b'%'
    → Spelled fmt a (words ++ (repeat (2 * k) b'%' ++ b'%' ∷ b ∷ tail))
    → Literal fmt a words k
      × (fmt (a + length words + 2 * k) ≡ b'%')
      × (fmt (a + length words + 2 * k + 1) ≡ b)
      × Spelled fmt (a + length words + 2 * k + 1 + 1) tail
segment-Literal fmt a words k b tail ordinary ne h =
    let (s1, r1) = Spelled-append fmt a words (repeat (2 * k) b'%' ++ b'%' ∷ b ∷ tail) h in
    let (s2, r2) =
      Spelled-append fmt (a + length words) (repeat (2 * k) b'%') (b'%' ∷ b ∷ tail) r1 in
    let r3 : Spelled fmt (a + length words + 2 * k) (b'%' ∷ b ∷ tail) = rw length-repeat at r2 in
    (
      record {
        spelled = s1;
        ordinary = ordinary;
        doubled = s2;
        behind = inl (inr (r3.0, λ e. ne (sym r3.1.0 ∙ e)));
      },
      r3.0,
      r3.1.0,
      r3.1.1,
    )

pub last-Literal :
    (fmt : Memory) (a : ℕ) (words : List ℕ) (k : ℕ)
    → Ordinary words
    → Spelled fmt a (words ++ (repeat (2 * k) b'%' ++ 0 ∷ []))
    → Literal fmt a words k × (fmt (a + length words + 2 * k) ≡ 0)
last-Literal fmt a words k ordinary h =
    let (s1, r1) = Spelled-append fmt a words (repeat (2 * k) b'%' ++ 0 ∷ []) h in
    let (s2, r2) = Spelled-append fmt (a + length words) (repeat (2 * k) b'%') (0 ∷ []) r1 in
    let r3 : Spelled fmt (a + length words + 2 * k) (0 ∷ []) = rw length-repeat at r2 in
    (record { spelled = s1; ordinary = ordinary; doubled = s2; behind = inl (inl r3.0) }, r3.0)

not_lt : (a b : ℕ) → b ≤ a → ltb a b ≡ false
not_lt a b h = ground arith

field_fits :
    (field : Field) (n : ℕ)
    → n ≡ field_wide field
    → n ≤ int_max
    → ltb int_max (length field.lead + digits_wide field) ≡ false
field_fits field n e h = not_lt int_max (length field.lead + digits_wide field) (omega arith)

module _ {F : Type 0} (out : List ℕ → F → F) (stream : Stream out) where
  -- A directive in the second pass.
  pub print_plain :
      (l : Letter) (v : ℕ) (m : Memory)
      → IsBytes m
      → Suits m l v
      → (t : List ℕ) × Shown m l v t
        × ((cnt : Option ℕ) (f : F)
            → length t ≤ int_max
            → print_directive out cnt (plain l (converted (type_of l) v)) m f
              ≡ done (length t, m, out t f))
  unfolding print_directive
  print_plain l v m bytes suits =
      let (field, e, shown) = conversion-Shown m l v bytes suits in
      let good =
        Ensures-done
          (conversion-Ensures m (plain l (converted (type_of l) v)) bytes
            (converted-lt (type_of l) v))
          e in
      let (not_n, not_float) = prints l in
      (
        layout field,
        shown,
        λ cnt f small.
            let wide = layout-length field in
            rw
              (
                letter-code l,
                not_n,
                not_float,
                e,
                field_fits field (length (layout field)) wide small,
                print_field_lem out stream field f (once field.fl good),
                sym wide,
              )
              refl,
      )
