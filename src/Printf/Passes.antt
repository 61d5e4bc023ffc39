-- ===== src/Printf/Passes.antt =====
-- The first pass, which only reads, and both passes: `vfprintf`.
use ocaml_solo.Prelude.{
  ℕ, zero, suc, ◌+◌, ◌≤◌, ◌<◌, ◌≡◌, ◌≢◌, ◌⊎◌, refl, ap, sym, ◌∙◌, true, false, inl, inr, not, ◌==◌,
  Option, none, some, List, [], arith,
}
use ocaml_solo.Prelude.Lists.{length}
use ocaml_solo.Memory.{Memory, IsBytes}
use ocaml_solo.Format.Pad.{Stream}
use ocaml_solo.Printf.Outcome.{
  Outcome, done, Ensures, holds, fails, leaves, open_, aborts, floats, Ensures-if, Ensures-bind,
  Ensures-weaken,
}
use ocaml_solo.Printf.Directive.{Reader, int_max}
use ocaml_solo.Printf.Reading.{pop_arg-Ensures, read_directive-Ensures}
use ocaml_solo.Printf.Literal.{literal-Ensures}
use ocaml_solo.Printf.Count.{printf_core-Ensures}
use ocaml_solo.Printf.Core.{
  Printer, update_count, directive, act, finish_pass, pop_all, printf_core, put_out,
  after_directive, pass_start, file_or, second_pass, vfprintf,
}

pop_all-Ensures :
    (n i : ℕ) (r : Reader) → Ensures true (λ (a : ℕ × Reader). Unit {0}) (pop_all n i r)
unfolding pop_all
pop_all-Ensures zero i r = holds tt
pop_all-Ensures (suc n) i r =
    Ensures-if (r.nl_type i == 0) (λ h. holds tt)
      λ h.
        Ensures-bind (pop_arg-Ensures true (r.nl_arg i) (r.nl_type i) r.ap)
          λ a p. pop_all-Ensures n (i + 1) _

-- A part of the first pass may also leave, with `return 0`.
first_pass_next :
    {A B : Type 0} {P : A → Type 0} {Q : B → Type 0} {r : Outcome A} (minus zero_ : Outcome B)
    {next : A → Outcome B}
    → Ensures false P r
    → Ensures true Q minus
    → Ensures true Q zero_
    → ((a : A) → P a → Ensures true Q (next a))
    → Ensures true Q (after_directive r minus zero_ next)
first_pass_next minus zero_ (holds {a} h) m z k = k a h
first_pass_next minus zero_ fails m z k = m
first_pass_next minus zero_ (leaves e) m z k = z
first_pass_next minus zero_ open_ m z k = open_
first_pass_next minus zero_ aborts m z k = aborts
first_pass_next minus zero_ floats m z k = floats

module _ {F : Type 0} (out : List ℕ → F → F) (fmt : Memory) (last : ℕ) (ends : fmt last ≡ 0) where
  abbrev Same : Memory → Option ℕ × Printer F → Type 0
  Same m a = a.1.m ≡ m

  finish_none :
      (cnt : Option ℕ) (st : Printer F) (file : Option F)
      → file ≡ none
      → Ensures true (Same st.m) (finish_pass cnt st file)
  unfolding finish_pass
  finish_none cnt st (some f) e = cc
  finish_none cnt st none e =
      Ensures-if (not st.r.l10n) (λ h. holds refl)
        λ h. Ensures-bind (pop_all-Ensures 9 1 st.r) λ a p. holds refl

  directive-none :
      (fuel : ℕ) (cnt : Option ℕ) (st : Printer F)
      → st.file ≡ none
      → st.r.s ≤ last
      → last < st.r.s + fuel
      → fmt st.r.s ≢ 0
      → Ensures false
          (λ (a : ℕ × Printer F).
            (st.r.s + 1 ≤ a.1.r.s) × (a.1.r.s ≤ last) × (a.1.file ≡ none) × (a.1.m ≡ st.m))
          (directive out fuel fmt cnt st)
  unfolding directive act
  directive-none fuel cnt st file le enough more = rw file (
      Ensures-bind (read_directive-Ensures fmt last ends fuel false st.r le more enough)
        λ a p. holds (p.0, p.1, refl, refl))

  -- The first pass ends, and stores nothing.
  first_pass-Ensures :
      (fuel : ℕ) (cnt : Option ℕ) (l : ℕ) (st : Printer F)
      → st.file ≡ none
      → st.r.s ≤ last
      → last < st.r.s + fuel
      → Ensures true (Same st.m) (printf_core out fuel fmt cnt l st)
  unfolding printf_core
  first_pass-Ensures zero cnt l st file le enough = absurd (omega arith)
  first_pass-Ensures (suc fuel) cnt l st file le enough =
      let (cnt', errno) = update_count cnt l st.errno in
      let st0 : Printer F = record st { errno = errno } in
      Ensures-if (fmt st.r.s == 0) (λ nul. finish_none cnt' st0 st.file file)
        (λ more.
          Ensures-bind
            (literal-Ensures out fmt last ends true (suc fuel) st0 le enough (λ z. ground arith))
            λ a p.
              let file1 : a.1.file ≡ none = p.0.has_text ∙ ap (put_out out p.0.text) file in
              Ensures-if (not (a.0 == 0))
                (λ some_.
                  Ensures-weaken
                    (first_pass-Ensures fuel cnt' a.0 a.1 file1 p.0.s_hi
                      (let lo = p.0.s_lo in ground arith))
                    λ b c. holds (c ∙ p.0.same_m))
                (λ none_.
                  let lo = p.0.s_lo in
                  let l0 : a.0 ≡ 0 = ground arith in
                  let lo' : st.r.s ≤ a.1.r.s = ground arith in
                  first_pass_next (done (none, a.1)) (done (some 0, a.1))
                    (directive-none (suc fuel) cnt' a.1 file1 p.0.s_hi (omega arith) (p.1 l0))
                    (holds (p.0.same_m)) (holds (p.0.same_m))
                    λ b q.
                      Ensures-weaken
                        (first_pass-Ensures fuel cnt' b.0 b.1 q.2 q.1
                          (let lo2 = q.0 in omega arith))
                        λ c d. holds (d ∙ q.3 ∙ p.0.same_m)))

-- What `vfprintf` has done: the characters that went to the file, and the result, which is -1 or
-- their number.
pub record Printed {F : Type 0} (out : List ℕ → F → F) (f : F) (a : Option ℕ × F × Memory × ℕ)
    : Type 0 where
  pub text : List ℕ
  pub has_text : a.1 ≡ out text f
  pub count : (a.0 ≡ none) ⊎ ((a.0 ≡ some (length text)) × (length text ≤ int_max))

second_pass-Printed :
    {F : Type 0} (out : List ℕ → F → F) (stream : Stream out) (fuel : ℕ) (fmt : Memory) (s len : ℕ)
    (f : F) (first : Option ℕ) (st : Printer F)
    → fmt (s + len) ≡ 0
    → len < fuel
    → IsBytes st.m
    → Ensures true (Printed out f) (second_pass out fuel fmt s f first st)
unfolding second_pass
second_pass-Printed out stream fuel fmt s len f none st nul enough valid =
    holds (record { text = []; has_text = sym (stream.empty f); count = inl refl })
second_pass-Printed {F} out stream fuel fmt s len f (some n) st nul enough valid =
    let r = pass_start s st.r.ap st.r.nl_arg st.r.nl_type in
    Ensures-bind
      (printf_core-Ensures out stream fmt (s + len) nul fuel (some 0) 0
        (record st { r = r; file = some f }) f (λ c e. let z : 0 ≡ c = cc in omega arith) refl valid
        (omega arith) (omega arith))
      λ a c. holds (record {
        text = c.text;
        has_text = ap (file_or f) c.has_text;
        count = elim (c.count) [
          | inl e ↦ inl e
          | inr (c0, zero_, e, le) ↦
              let z : 0 ≡ c0 = cc in inr (e ∙ ap some (omega arith), omega arith)
        ];
      })

-- `vfprintf` ends, with more fuel than the format has characters, and returns -1 or the number of
-- characters that it has put out, which is at most INT_MAX; or it ends in what C does not define, in
-- abort, or at the conversion of a floating-point number, where the model ends. This holds for every
-- format and every list of arguments.
pub vfprintf-Printed :
    {F : Type 0} (out : List ℕ → F → F) (stream : Stream out) (fuel : ℕ) (fmt : Memory) (s len : ℕ)
    (ap_ : List ℕ) (nl_arg : ℕ → ℕ) (m : Memory) (errno : ℕ) (f : F)
    → fmt (s + len) ≡ 0
    → len < fuel
    → IsBytes m
    → Ensures true (Printed out f) (vfprintf out fuel fmt s ap_ nl_arg m errno f)
unfolding vfprintf
vfprintf-Printed {F} out stream fuel fmt s len ap_ nl_arg m errno f nul enough valid =
    let first : Printer F = record {
      r = pass_start s ap_ nl_arg (λ i. 0);
      file = none;
      m = m;
      errno = errno;
    } in
    Ensures-bind
      (first_pass-Ensures out fmt (s + len) nul fuel (some 0) 0 first refl (omega arith)
        (omega arith))
      λ a same. second_pass-Printed out stream fuel fmt s len f a.0 a.1 nul enough (rw same valid)
