-- ===== src/Printf/Field.antt =====
-- The lines that put a field out.
use mathlib.Core.List.{append_assoc}
use ocaml_solo.Prelude.{
  ℕ, zero, suc, ◌+◌, ◌-◌, ◌≡◌, refl, ap, sym, ◌∙◌, Bool-cases, true, false, ◌&&◌, inl, inr, List,
  [], ◌∷◌, ◌++◌, max, ◌==◌, if◌then◌else◌, Option, some, ◌>>=◌, bit_and, bit_xor, arith,
}
use ocaml_solo.Prelude.Int.{pos_part}
use ocaml_solo.Prelude.Lists.{length, length-append}
use ocaml_solo.Format.Pad.{left_adj, zero_pad, pad, pad_lem, repeat, Stream}
use ocaml_solo.Printf.Convert.{Field, has}
use ocaml_solo.Printf.Flags.{
  plain_lem, has-left, has-zero, flip_zero, flip_left, left_bit, zero_bit,
}

-- `if (p < z-a) p = z-a`
abbrev pub digits_wide : Field → ℕ
digits_wide d = max (pos_part d.p) (length d.body)

-- `if (w < pl+p) w = pl+p`
abbrev pub field_wide : Field → ℕ
field_wide d = max d.w (length d.lead + digits_wide d)

unfoldable pub print_field : {F : Type 0} → (List ℕ → F → F) → Field → F → Option F
print_field write d f = do
  let p = digits_wide d
  let w = field_wide d
  let l = length d.lead + p
  f ← pad (w + 1) write b' ' w l d.fl f
  let f = write d.lead f
  f ← pad (w + 1) write b'0' w l (bit_xor d.fl zero_pad) f
  f ← pad (w + 1) write b'0' p (length d.body) 0 f
  let f = write d.body f
  pad (w + 1) write b' ' w l (bit_xor d.fl left_adj) f

-- The field as text: the number has the digits that the precision asks for, by zeros in front, and the
-- field the width, by blanks in front, zeros behind the prefix or blanks behind, by the flags.
abbrev pub layout : Field → List ℕ
layout d =
    let number = repeat (pos_part d.p - length d.body) b'0' ++ d.body in
    let gap = d.w - (length d.lead + length number) in
    if has d.fl left_adj
    then (d.lead ++ number) ++ repeat gap b' '
    else if has d.fl zero_pad
    then d.lead ++ (repeat gap b'0' ++ number)
    else repeat gap b' ' ++ (d.lead ++ number)

-- The same by the two numbers that the code computes.
abbrev pub laid : Field → List ℕ
laid d =
    let p = digits_wide d in
    let gap = d.w - (length d.lead + p) in
    let text = d.lead ++ (repeat (p - length d.body) b'0' ++ d.body) in
    if has d.fl left_adj
    then text ++ repeat gap b' '
    else if has d.fl zero_pad
    then d.lead ++ (repeat gap b'0' ++ (repeat (p - length d.body) b'0' ++ d.body))
    else repeat gap b' ' ++ text

append_nil : (s : List ℕ) → s ++ [] ≡ s
append_nil [] = refl
append_nil (b ∷ s) = ap (λ s. b ∷ s) (append_nil s)

pub length-repeat : (n c : ℕ) → length (repeat n c) ≡ n
unfolding repeat
length-repeat zero c = refl
length-repeat (suc n) c = ap suc (length-repeat n c)

-- Characters that a field has by the flags, joined.
parts : List ℕ → List ℕ → List ℕ → List ℕ → List ℕ → List ℕ → List ℕ
parts a b c d e g = a ++ (b ++ (c ++ (d ++ (e ++ g))))

pub layout-laid : (d : Field) → layout d ≡ laid d
layout-laid d =
    let zeros = repeat (pos_part d.p - length d.body) b'0' in
    let wide : pos_part d.p - length d.body ≡ max (pos_part d.p) (length d.body) - length d.body =
      omega arith in
    let all : length (zeros ++ d.body) ≡ max (pos_part d.p) (length d.body) =
      length-append zeros d.body
      ∙ omega (arith, length-repeat (pos_part d.p - length d.body) b'0') in
    rw (all, wide) refl

laid-length : (d : Field) → length (laid d) ≡ field_wide d
laid-length d =
    let p = digits_wide d in
    let gap = d.w - (length d.lead + p) in
    let zeros = repeat (p - length d.body) b'0' in
    let body : length (d.lead ++ (zeros ++ d.body)) ≡ length d.lead + p =
      length-append d.lead (zeros ++ d.body)
      ∙ omega (arith, length-append zeros d.body, length-repeat (p - length d.body) b'0') in
    let blanks = length-repeat gap b' ' in
    let gap_zeros = length-repeat gap b'0' in
    let padded : length (d.lead ++ (repeat gap b'0' ++ (zeros ++ d.body)))
        ≡ length d.lead + (gap + p) =
      length-append d.lead (repeat gap b'0' ++ (zeros ++ d.body))
      ∙ omega (
        arith,
        length-append (repeat gap b'0') (zeros ++ d.body),
        length-append zeros d.body,
        length-repeat (p - length d.body) b'0',
      ) in
    elim (Bool-cases (has d.fl left_adj)) [
      | inl left ↦
          rw left (length-append (d.lead ++ (zeros ++ d.body)) (repeat gap b' ') ∙ omega arith)
      | inr right ↦ elim (Bool-cases (has d.fl zero_pad)) [
        | inl zeros_ ↦ rw (right, zeros_) (padded ∙ omega arith)
        | inr blank ↦
            rw (right, blank)
              (length-append (repeat gap b' ') (d.lead ++ (zeros ++ d.body)) ∙ omega arith)
      ]
    ]

pub layout-length : (d : Field) → length (layout d) ≡ field_wide d
layout-length d = ap length (layout-laid d) ∙ laid-length d

-- The padding that the three calls of `pad` put out.
abbrev filler : ℕ → ℕ → ℕ → List ℕ
filler fl gap c = if bit_and fl (left_adj + zero_pad) == 0 then repeat gap c else []

-- Just one of the three calls pads.
fillers :
    (d : Field)
    → (has d.fl left_adj && has d.fl zero_pad) ≡ false
    → let p = digits_wide d in
      let gap = d.w - (length d.lead + p) in
      parts
        (filler d.fl gap b' ')
        d.lead
        (filler (bit_xor d.fl zero_pad) gap b'0')
        (repeat (p - length d.body) b'0')
        d.body
        (filler (bit_xor d.fl left_adj) gap b' ')
      ≡ laid d
unfolding parts
fillers d once =
    let p = digits_wide d in
    let gap = d.w - (length d.lead + p) in
    let zeros = repeat (p - length d.body) b'0' in
    let h = has-left d.fl in
    let h' = has-zero d.fl in
    let flip = flip_zero d.fl in
    let flip' = flip_left d.fl in
    let p1 = plain_lem d.fl in
    let p2 = plain_lem (bit_xor d.fl zero_pad) in
    let p3 = plain_lem (bit_xor d.fl left_adj) in
    elim (Bool-cases (left_bit d.fl == 0)) [
      | inr left ↦
          let zero_off : (zero_bit d.fl == 0) ≡ true = ground arith in
          let e1 : (bit_and d.fl (left_adj + zero_pad) == 0) ≡ false = ground arith in
          let e2 : (bit_and (bit_xor d.fl zero_pad) (left_adj + zero_pad) == 0) ≡ false =
            ground arith in
          let e3 : (bit_and (bit_xor d.fl left_adj) (left_adj + zero_pad) == 0) ≡ true =
            ground arith in
          let on : has d.fl left_adj ≡ true = ground arith in
          rw (e1, e2, e3, on)
            (sym (
              append_assoc d.lead (zeros ++ d.body) (repeat gap b' ')
              ∙ ap (λ s. d.lead ++ s) (append_assoc zeros d.body (repeat gap b' '))))
      | inl right ↦
          let e3 : (bit_and (bit_xor d.fl left_adj) (left_adj + zero_pad) == 0) ≡ false =
            ground arith in
          let off : has d.fl left_adj ≡ false = ground arith in
          elim (Bool-cases (zero_bit d.fl == 0)) [
            | inl blank ↦
                let e1 : (bit_and d.fl (left_adj + zero_pad) == 0) ≡ true = ground arith in
                let e2 : (bit_and (bit_xor d.fl zero_pad) (left_adj + zero_pad) == 0) ≡ false =
                  ground arith in
                let off' : has d.fl zero_pad ≡ false = ground arith in
                rw (e1, e2, e3, off, off')
                  (ap (λ s. repeat gap b' ' ++ (d.lead ++ (zeros ++ s))) (append_nil d.body))
            | inr zero_ ↦
                let e1 : (bit_and d.fl (left_adj + zero_pad) == 0) ≡ false = ground arith in
                let e2 : (bit_and (bit_xor d.fl zero_pad) (left_adj + zero_pad) == 0) ≡ true =
                  ground arith in
                let on' : has d.fl zero_pad ≡ true = ground arith in
                rw (e1, e2, e3, off, on')
                  (ap (λ s. d.lead ++ (repeat gap b'0' ++ (zeros ++ s))) (append_nil d.body))
          ]
    ]

module _ {F : Type 0} (write : List ℕ → F → F) (stream : Stream write) where
  six_writes :
      (a b c d e g : List ℕ) (f : F)
      → write g (write e (write d (write c (write b (write a f))))) ≡ write (parts a b c d e g) f
  unfolding parts
  six_writes a b c d e g f =
      stream.join e g (write d (write c (write b (write a f))))
      ∙ stream.join d (e ++ g) (write c (write b (write a f)))
      ∙ stream.join c (d ++ (e ++ g)) (write b (write a f))
      ∙ stream.join b (c ++ (d ++ (e ++ g))) (write a f)
      ∙ stream.join a (b ++ (c ++ (d ++ (e ++ g)))) f

  -- `print_field` puts out the field as text, where not both flags are set: zeros in front up to the
  -- precision, and up to the width blanks in front, zeros behind the prefix or blanks behind.
  pub print_field_lem :
      (d : Field) (f : F)
      → (has d.fl left_adj && has d.fl zero_pad) ≡ false
      → print_field write d f ≡ some (write (layout d) f)
  unfolding print_field
  print_field_lem d f once =
      let p = digits_wide d in
      let w = field_wide d in
      let l = length d.lead + p in
      let gap = d.w - l in
      let zeros = repeat (p - length d.body) b'0' in
      let same : w - l ≡ gap = omega arith in
      let one = λ (c fl : ℕ) (f : F).
        pad_lem write stream (w + 1) c w l fl f (omega arith)
        ∙ ap (λ n. some (write (filler fl n c) f)) same in
      let f1 = write d.lead (write (filler d.fl gap b' ') f) in
      let f2 = write (filler (bit_xor d.fl zero_pad) gap b'0') f1 in
      rw
        (
          one b' ' d.fl f,
          one b'0' (bit_xor d.fl zero_pad) f1,
          pad_lem write stream (w + 1) b'0' p (length d.body) 0 f2 (omega arith),
          one b' ' (bit_xor d.fl left_adj) (write d.body (write zeros f2)),
        )
        (ap some (
          six_writes (filler d.fl gap b' ') d.lead (filler (bit_xor d.fl zero_pad) gap b'0') zeros
            d.body (filler (bit_xor d.fl left_adj) gap b' ') f
          ∙ ap (λ s. write s f) (fillers d once ∙ sym (layout-laid d))))
