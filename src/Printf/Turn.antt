-- ===== src/Printf/Turn.antt =====
-- `printf_core` from a place in the format to the directive or the end behind the next text.
use ocaml_solo.Prelude.{
  ℕ, zero, suc, ◌+◌, ◌-◌, ◌*◌, ◌≤◌, ◌<◌, ◌≡◌, ◌≢◌, refl, ap, ap₂, sym, ◌∙◌, inl, inr, not, false,
  true, ltb, ◌==◌, if◌then◌else◌, Option, none, some, List, [], arith,
}
use ocaml_solo.Prelude.Lists.{length}
use ocaml_solo.Memory.{Memory}
use ocaml_solo.Format.Pad.{Stream, repeat}
use ocaml_solo.Printf.Outcome.{Outcome, done}
use ocaml_solo.Printf.Directive.{int_max}
use ocaml_solo.Printf.Rounds.{Behind, Literal, literal_text, literal_lem, text_start}
use ocaml_solo.Printf.Core.{
  Printer, update_count, directive, finish_pass, put_out, printf_core, after_directive,
}

update_count_lem :
    (c l errno : ℕ) → c + l ≤ int_max → update_count (some c) l errno ≡ (some (c + l), errno)
unfolding update_count
update_count_lem c l errno h = let fits : ltb (int_max - c) l ≡ false = ground arith in rw fits refl

module _ {F : Type 0} (out : List ℕ → F → F) (stream : Stream out) (fmt : Memory) where
  -- Behind the text.
  abbrev pub moved : Printer F → List ℕ → ℕ → Printer F
  moved st words k = record st {
    r = record (st.r) { s = st.r.s + length words + 2 * k };
    file = put_out out (literal_text words k) st.file;
  }

  -- The directive there, and the rounds behind it.
  abbrev pub at_directive : ℕ → ℕ → Printer F → Outcome (Option ℕ × Printer F)
  at_directive fuel c st =
      after_directive (directive out (suc fuel) fmt (some c) st) (done (none, st))
        (done (some 0, st)) (λ b. printf_core out fuel fmt (some c) b.0 b.1)

  put_nothing : (file : Option F) → put_out out [] file ≡ file
  put_nothing none = refl
  put_nothing (some f) = ap some (stream.empty f)

  stay : (st : Printer F) → moved st [] 0 ≡ st
  unfolding repeat
  stay st =
      ap₂ (λ (s : ℕ) (file : Option F). record st { r = record (st.r) { s = s }; file = file })
        (let e : st.r.s + 0 + 2 * 0 ≡ st.r.s = omega arith in e) (put_nothing st.file)

  one_round :
      (words : List ℕ) (k fuel c l : ℕ) (st : Printer F)
      → Literal fmt st.r.s words k
      → fmt st.r.s ≢ 0
      → c + l ≤ int_max
      → length words + k ≤ int_max
      → length words + k < suc fuel
      → printf_core out (suc fuel) fmt (some c) l st ≡ (
          if not (length words + k == 0)
          then printf_core out fuel fmt (some (c + l)) (length words + k) (moved st words k)
          else at_directive fuel (c + l) (moved st words k))
  unfolding printf_core
  one_round words k fuel c l st lit more fits small enough =
      let nul : (fmt st.r.s == 0) ≡ false = ground arith in
      rw
        (
          nul,
          update_count_lem c l st.errno fits,
          literal_lem out fmt words k (suc fuel) st lit small (omega arith) (omega arith),
        )
        refl

  at_nul :
      (fuel c l : ℕ) (st : Printer F)
      → fmt st.r.s ≡ 0
      → c + l ≤ int_max
      → printf_core out (suc fuel) fmt (some c) l st ≡ finish_pass (some (c + l)) st st.file
  unfolding printf_core
  at_nul fuel c l st nul fits =
      let z : (fmt st.r.s == 0) ≡ true = ground arith in
      rw (z, update_count_lem c l st.errno fits) refl

  nothing : (a : ℕ) → Behind fmt a → Literal fmt a [] 0
  unfolding repeat
  nothing a behind = record {
    spelled = tt;
    ordinary = tt;
    doubled = tt;
    behind = let e : a + 0 + 2 * 0 ≡ a = omega arith in rw e (inl behind);
  }

  module _ (words : List ℕ) (k c l : ℕ) (st : Printer F) (lit : Literal fmt st.r.s words k)
      (fits : c + l + (length words + k) ≤ int_max) where
    abbrev place : ℕ
    place = st.r.s + length words + 2 * k

    abbrev total : ℕ
    total = c + l + (length words + k)

    -- A round with no text, behind one that had some.
    empty_round :
        (fuel : ℕ)
        → fmt place ≢ 0
        → Behind fmt place
        → printf_core out (suc fuel) fmt (some (c + l)) (length words + k) (moved st words k)
          ≡ at_directive fuel total (moved st words k)
    empty_round fuel more behind =
        one_round [] 0 fuel (c + l) (length words + k) (moved st words k) (nothing place behind)
          more fits (omega arith) (omega arith)
        ∙ ap (at_directive fuel total) (stay (moved st words k))

    -- The rounds up to a directive; at least `rest` more are left.
    pub to_directive :
        (fuel rest : ℕ)
        → fmt place ≢ 0
        → Behind fmt place
        → length words + 2 * k + 1 + rest ≤ fuel
        → (fuel' : ℕ) × (printf_core out fuel fmt (some c) l st
            ≡ at_directive fuel' total (moved st words k))
          × (rest ≤ fuel')
    to_directive zero rest more behind enough = absurd (omega arith)
    to_directive (suc fuel) rest more behind enough =
        let first = λ (here : fmt st.r.s ≢ 0).
          one_round words k fuel c l st lit here (omega arith) (omega arith) (omega arith) in
        elim (text_start fmt st.r.s words k lit) [
          | inl (no_words, none_) ↦
              let z : length words ≡ 0 = ap length no_words in
              let empty : (length words + k == 0) ≡ true = ground arith in
              let e' : total ≡ c + l = omega arith in
              let same : place ≡ st.r.s = omega arith in
              (fuel, rw e' (first (λ n. more (ap fmt same ∙ n)) ∙ rw empty refl), omega arith)
          | inr (text, here) ↦
              let e : fuel ≡ suc (fuel - 1) = ground arith in
              (
                fuel - 1,
                first here
                    ∙ rw text (
                        ap
                          (λ n.
                            printf_core out n fmt (some (c + l)) (length words + k)
                              (moved st words k))
                          e
                        ∙ empty_round (fuel - 1) more behind),
                ground arith,
              )
        ]

    -- The round of a text with `%%`, in front of other text.
    pub to_text :
        (fuel rest : ℕ)
        → 0 < k
        → length words + 2 * k + rest ≤ fuel
        → (fuel' : ℕ) × (printf_core out fuel fmt (some c) l st
            ≡ printf_core out fuel' fmt (some (c + l)) (length words + k) (moved st words k))
          × (rest ≤ fuel')
    to_text zero rest some_ enough = absurd (omega arith)
    to_text (suc fuel) rest some_ enough = elim (text_start fmt st.r.s words k lit) [
      | inl (no_words, none_) ↦ absurd (omega arith)
      | inr (text, here) ↦ (
        fuel,
        one_round words k fuel c l st lit here (omega arith) (omega arith) (omega arith)
            ∙ rw text refl,
        omega arith,
      )
    ]

    -- The rounds up to the end of the format.
    pub to_end :
        (fuel : ℕ)
        → fmt place ≡ 0
        → length words + 2 * k + 1 ≤ fuel
        → printf_core out fuel fmt (some c) l st
          ≡ finish_pass (some total) (moved st words k) (put_out out (literal_text words k) st.file)
    to_end zero nul enough = absurd (omega arith)
    to_end (suc fuel) nul enough = elim (text_start fmt st.r.s words k lit) [
      | inl (no_words, none_) ↦
          let z : length words ≡ 0 = ap length no_words in
          let none_more : c + l + (0 + 0) ≡ c + l = omega arith in
          let same : st.r.s ≡ place = omega arith in
          at_nul fuel c l st (ap fmt same ∙ nul) (omega arith)
          ∙ ap (λ (st : Printer F). finish_pass (some (c + l)) st st.file) (sym (stay st))
          ∙ rw (no_words, none_, none_more) refl
      | inr (text, here) ↦
          let e : fuel ≡ suc (fuel - 1) = ground arith in
          one_round words k fuel c l st lit here (omega arith) (omega arith) (omega arith)
          ∙ rw text (
              ap (λ n. printf_core out n fmt (some (c + l)) (length words + k) (moved st words k)) e
              ∙ at_nul (fuel - 1) (c + l) (length words + k) (moved st words k) nul fits)
    ]
