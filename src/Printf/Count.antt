-- ===== src/Printf/Count.antt =====
-- The second pass: it ends, and it returns the number of characters that it has put out.
use native.Mathlib.Nat.{le_refl}
use ocaml_solo.Prelude.{
  ℕ, zero, suc, ◌+◌, ◌-◌, ◌^◌, ◌≤◌, ◌<◌, ◌≡◌, ◌≢◌, ◌⊎◌, refl, ap, sym, ◌∙◌, Bool, Bool-cases, true,
  false, inl, inr, not, ◌||◌, ◌==◌, ltb, if◌then◌else◌, Option, none, some, List, [], ◌++◌, arith,
}
use ocaml_solo.Prelude.Lists.{length, length-append}
use ocaml_solo.Memory.{Memory, IsBytes, store-IsBytes}
use ocaml_solo.Format.Pad.{Stream}
use ocaml_solo.Printf.Outcome.{
  Outcome, done, Ensures, holds, fails, leaves, open_, floats, aborts, Ensures-if, Ensures-bind,
  Ensures-weaken,
}
use ocaml_solo.Printf.Directive.{Reader, Directive, int_max}
use ocaml_solo.Printf.Convert.{store_count, letter, count_bits}
use ocaml_solo.Printf.Field.{print_field_lem, layout, layout-length, digits_wide}
use ocaml_solo.Printf.Reading.{read_directive-Ensures}
use ocaml_solo.Printf.Converting.{conversion-Ensures, once}
use ocaml_solo.Printf.Literal.{literal-Ensures}
use ocaml_solo.Printf.Core.{
  Printer, update_count, print_directive, directive, act, finish_pass, printf_core, put_out,
  is_float, after_directive,
}

if-IsBytes : (b : Bool) {m m' : Memory} → IsBytes m → IsBytes m' → IsBytes (if b then m else m')
if-IsBytes true h h' = h
if-IsBytes false h h' = h'

store_count-IsBytes :
    (m : Memory) (cnt : Option ℕ) (ps p : ℕ) → IsBytes m → IsBytes (store_count m cnt ps p)
unfolding store_count
store_count-IsBytes m cnt ps p h =
    let stored = λ (n : ℕ). store-IsBytes n m p (count_bits cnt) h in
    if-IsBytes (ps == 0) (stored 4) (
      if-IsBytes (ps == 1 || ps == 2 || ps == 6 || ps == 7) (stored 8)
        (if-IsBytes (ps == 3) (stored 2) (if-IsBytes (ps == 4) (stored 1) h)))

after_directive-Ensures :
    {A B : Type 0} {P : A → Type 0} {Q : B → Type 0} {r : Outcome A} (minus zero_ : Outcome B)
    {next : A → Outcome B}
    → Ensures true P r
    → Ensures true Q minus
    → ((a : A) → P a → Ensures true Q (next a))
    → Ensures true Q (after_directive r minus zero_ next)
after_directive-Ensures minus zero_ (holds {a} h) m k = k a h
after_directive-Ensures minus zero_ fails m k = m
after_directive-Ensures minus zero_ (leaves e) m k = cc
after_directive-Ensures minus zero_ open_ m k = open_
after_directive-Ensures minus zero_ aborts m k = aborts
after_directive-Ensures minus zero_ floats m k = floats

abbrev InRange : Option ℕ → Type 0
InRange cnt = (c : ℕ) → cnt ≡ some c → c ≤ int_max

-- A count that is left is the sum, within `int`.
update_count-some :
    (cnt : Option ℕ) (l errno c' : ℕ)
    → InRange cnt
    → (update_count cnt l errno).0 ≡ some c'
    → (c : ℕ) × (cnt ≡ some c) × (c' ≡ c + l) × (c + l ≤ int_max)
unfolding update_count
update_count-some none l errno c' small h = cc
update_count-some (some c) l errno c' small h = elim (Bool-cases (ltb (int_max - c) l)) [
  | inl over ↦ let h' : none ≡ some c' = rw over at h in cc
  | inr fits ↦
      let h' : some (c + l) ≡ some c' = rw fits at h in
      let le = small c refl in let e : c + l ≡ c' = cc in (c, refl, sym e, ground arith)
]

abbrev Sum : Option ℕ → ℕ → ℕ → Option ℕ → Type 0
Sum cnt l n ret =
    (ret ≡ none) ⊎ ((c : ℕ) × (cnt ≡ some c) × (ret ≡ some (c + l + n)) × (c + l + n ≤ int_max))

both :
    (cnt : Option ℕ) (l errno l' : ℕ) (t u : List ℕ) (ret : Option ℕ)
    → InRange cnt
    → length t ≡ l'
    → Sum (update_count cnt l errno).0 l' (length u) ret
    → Sum cnt l (length (t ++ u)) ret
both cnt l errno l' t u ret small len (inl e) = inl e
both cnt l errno l' t u ret small len (inr (c', e, r, lt)) =
    let (c, e0, s, fits) = update_count-some cnt l errno c' small e in
    let total : c' + l' + length u ≡ c + l + length (t ++ u) = omega (arith, length-append t u) in
    inr (c, e0, r ∙ ap some total, omega arith)

at_end : (cnt : Option ℕ) (l errno : ℕ) → InRange cnt → Sum cnt l 0 (update_count cnt l errno).0
unfolding update_count
at_end none l errno small = inl refl
at_end (some c) l errno small = elim (Bool-cases (ltb (int_max - c) l)) [
  | inl over ↦ rw over (inl refl)
  | inr fits ↦ let le = small c refl in rw fits (inr (c, refl, ap some (omega arith), ground arith))
]

range_kept : (cnt : Option ℕ) (l errno : ℕ) → InRange cnt → InRange (update_count cnt l errno).0
range_kept cnt l errno small c' e =
    let (c, e0, s, fits) = update_count-some cnt l errno c' small e in omega arith

finish_some :
    {F : Type 0} (cnt : Option ℕ) (st : Printer F) (file : Option F) (f : F)
    → file ≡ some f
    → finish_pass cnt st file ≡ done (cnt, st)
unfolding finish_pass
finish_some cnt st none f e = cc
finish_some cnt st (some g) f e = refl

module _ {F : Type 0} (out : List ℕ → F → F) (stream : Stream out) (fmt : Memory) (last : ℕ)
    (ends : fmt last ≡ 0) where
  -- What is left of the format, and the file with the text so far.
  record At (s : ℕ) (l : ℕ) (f : F) (st : Printer F) : Type 0 where
    s_lo : s ≤ st.r.s
    s_hi : st.r.s ≤ last
    valid : IsBytes st.m
    text : List ℕ
    has_text : st.file ≡ some (out text f)
    is_length : length text ≡ l

  print_directive-Ensures :
      (cnt : Option ℕ) (d : Directive) (m : Memory) (f : F)
      → IsBytes m
      → d.arg < 2 ^ 64
      → Ensures true
          (λ (a : ℕ × Memory × F).
            IsBytes a.1 × (text : List ℕ) × (a.2 ≡ out text f) × (length text ≡ a.0))
          (print_directive out cnt d m f)
  unfolding print_directive
  print_directive-Ensures cnt d m f h lt =
      let t = letter d.ps d.t in
      Ensures-if (t == b'n')
        (λ e. holds (store_count-IsBytes m cnt d.ps d.arg h, [], sym (stream.empty f), refl))
        λ e.
          Ensures-if (is_float t) (λ e. floats)
            λ e. Ensures-bind (conversion-Ensures m d h lt) λ field good.
              Ensures-if (ltb int_max (length field.lead + digits_wide field)) (λ e. open_)
                λ e.
                  rw (print_field_lem out stream field f (once field.fl good))
                    (holds (h, layout field, refl, layout-length field))

  act-Ensures :
      (cnt : Option ℕ) (d : Directive) (r : Reader) (st : Printer F) (f : F)
      → IsBytes st.m
      → d.arg < 2 ^ 64
      → r.s ≤ last
      → Ensures true (λ (a : ℕ × Printer F). At r.s a.0 f a.1) (act out cnt d r st (some f))
  unfolding act
  act-Ensures cnt d r st f h lt le = Ensures-bind (print_directive-Ensures cnt d st.m f h lt) λ a p.
      holds (record {
        s_lo = le_refl r.s;
        s_hi = le;
        valid = p.0;
        text = p.1;
        has_text = ap some p.2;
        is_length = p.3;
      })

  directive-Ensures :
      (fuel : ℕ) (cnt : Option ℕ) (st : Printer F) (f : F)
      → st.file ≡ some f
      → IsBytes st.m
      → st.r.s ≤ last
      → last < st.r.s + fuel
      → fmt st.r.s ≢ 0
      → Ensures true
          (λ (a : ℕ × Printer F). At (st.r.s + 1) a.0 f a.1)
          (directive out fuel fmt cnt st)
  unfolding directive
  directive-Ensures fuel cnt st f file valid le enough more = rw file (
      Ensures-bind (read_directive-Ensures fmt last ends fuel true st.r le more enough) λ a p.
        Ensures-weaken (act-Ensures cnt a.0 a.1 st f valid p.2 p.1) λ b q. holds (record {
          s_lo = let le_ = q.s_lo in omega arith;
          s_hi = q.s_hi;
          valid = q.valid;
          text = q.text;
          has_text = q.has_text;
          is_length = q.is_length;
        }))

  -- The result of a run that began with the count `cnt`, `l` more characters and the file `f`: the
  -- characters put out, and that the result is -1 or counts them with those before.
  pub record Counted (cnt : Option ℕ) (l : ℕ) (f : F) (a : Option ℕ × Printer F) : Type 0 where
    pub text : List ℕ
    pub has_text : a.1.file ≡ some (out text f)
    pub count : Sum cnt l (length text) a.0

  -- A round and the rounds behind it.
  both-Counted :
      (cnt : Option ℕ) (l errno l' : ℕ) (f : F) (t : List ℕ) (a : Option ℕ × Printer F)
      → InRange cnt
      → length t ≡ l'
      → Counted (update_count cnt l errno).0 l' (out t f) a
      → Counted cnt l f a
  both-Counted cnt l errno l' f t a small len c = record {
    text = t ++ c.text;
    has_text = c.has_text ∙ ap some (stream.join t c.text f);
    count = both cnt l errno l' t c.text a.0 small len c.count;
  }

  -- The end of the format.
  finish-Counted :
      (cnt : Option ℕ) (l errno : ℕ) (st : Printer F) (f : F)
      → InRange cnt
      → st.file ≡ some f
      → Counted cnt l f ((update_count cnt l errno).0, st)
  finish-Counted cnt l errno st f small file = record {
    text = [];
    has_text = file ∙ ap some (sym (stream.empty f));
    count = at_end cnt l errno small;
  }

  pub printf_core-Ensures :
      (fuel : ℕ) (cnt : Option ℕ) (l : ℕ) (st : Printer F) (f : F)
      → InRange cnt
      → st.file ≡ some f
      → IsBytes st.m
      → st.r.s ≤ last
      → last < st.r.s + fuel
      → Ensures true (Counted cnt l f) (printf_core out fuel fmt cnt l st)
  unfolding printf_core
  printf_core-Ensures zero cnt l st f small file valid le enough = absurd (omega arith)
  printf_core-Ensures (suc fuel) cnt l st f small file valid le enough =
      let (cnt', errno) = update_count cnt l st.errno in
      let st0 : Printer F = record st { errno = errno } in
      let small' = range_kept cnt l st.errno small in
      Ensures-if (fmt st.r.s == 0)
        (λ nul.
          rw (finish_some cnt' st0 st.file f file)
            (holds (finish-Counted cnt l st.errno st0 f small file)))
        (λ more.
          Ensures-bind
            (literal-Ensures out fmt last ends true (suc fuel) st0 le enough (λ z. ground arith))
            λ a p.
              let f1 = out p.0.text f in
              let file1 : a.1.file ≡ some f1 = p.0.has_text ∙ ap (put_out out p.0.text) file in
              let valid1 : IsBytes a.1.m = rw (p.0.same_m) valid in
              Ensures-if (not (a.0 == 0))
                (λ some_.
                  Ensures-weaken
                    (printf_core-Ensures fuel cnt' a.0 a.1 f1 small' file1 valid1 p.0.s_hi
                      (let lo = p.0.s_lo in ground arith))
                    λ b c.
                      holds (both-Counted cnt l st.errno a.0 f p.0.text b small p.0.is_length c))
                (λ none_.
                  let lo = p.0.s_lo in
                  let l0 : a.0 ≡ 0 = ground arith in
                  let lo' : st.r.s ≤ a.1.r.s = ground arith in
                  after_directive-Ensures (done (none, a.1)) (done (some 0, a.1))
                    (directive-Ensures (suc fuel) cnt' a.1 f1 file1 valid1 p.0.s_hi (omega arith)
                      (p.1 l0))
                    (holds (record { text = p.0.text; has_text = file1; count = inl refl }))
                    λ b q.
                      let t = p.0.text ++ q.text in
                      let len : length t ≡ b.0 =
                        let e = p.0.is_length in
                        let e' = q.is_length in omega (arith, length-append p.0.text q.text) in
                      Ensures-weaken
                        (printf_core-Ensures fuel cnt' b.0 b.1 (out t f) small'
                          (q.has_text ∙ ap some (stream.join p.0.text q.text f)) q.valid q.s_hi
                          (let lo2 = q.s_lo in omega arith))
                        λ c d. holds (both-Counted cnt l st.errno b.0 f t c small len d)))
