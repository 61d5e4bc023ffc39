-- ===== src/Printf/Literal.antt =====
-- The text up to a directive.
use ocaml_solo.Prelude.{
  ℕ, zero, suc, ◌+◌, ◌-◌, ◌*◌, ◌≤◌, ◌<◌, ◌≡◌, ◌≢◌, refl, ap, ◌∙◌, Bool, not, ◌&&◌, ◌==◌, ltb,
  if◌then◌else◌, List, while_total, scan_total, arith,
}
use ocaml_solo.Prelude.Lists.{length}
use ocaml_solo.Memory.{Memory}
use ocaml_solo.Printf.Outcome.{Ensures, holds, open_, Ensures-if}
use ocaml_solo.Printf.Directive.{int_max}
use ocaml_solo.Printf.Convert.{text_at}
use ocaml_solo.Printf.Reading.{within}
use ocaml_solo.Printf.Core.{Printer, literal, put_out}

pub length-text_at : (m : Memory) (a n : ℕ) → length (text_at m a n) ≡ n
unfolding text_at
length-text_at m a zero = refl
length-text_at m a (suc n) = ap suc (length-text_at m (a + 1) n)

module _ {F : Type 0} (out : List ℕ → F → F) (fmt : Memory) (last : ℕ) (ends : fmt last ≡ 0) where
  -- The place is not before `s`, and `l` characters went to the file, if there is one.
  pub record Moved (s l : ℕ) (st st' : Printer F) : Type 0 where
    pub s_lo : s ≤ st'.r.s
    pub s_hi : st'.r.s ≤ last
    pub same_m : st'.m ≡ st.m
    pub text : List ℕ
    pub has_text : st'.file ≡ put_out out text st.file
    pub is_length : length text ≡ l

  -- The text ends, moves on unless it is empty, and an empty one ends at a directive.
  pub literal-Ensures :
      (f : Bool) (fuel : ℕ) (st : Printer F)
      → st.r.s ≤ last
      → last < st.r.s + fuel
      → fmt st.r.s ≢ 0
      → Ensures f
          (λ (a : ℕ × Printer F).
            Moved (if a.0 == 0 then st.r.s else st.r.s + 1) a.0 st a.1
            × (a.0 ≡ 0 → fmt a.1.r.s ≢ 0))
          (literal out fuel fmt st)
  unfolding literal
  literal-Ensures f fuel st le enough more =
      let a = st.r.s in
      let (s, e, lo, hi, stop) =
        scan_total (λ s. not (fmt s == 0) && not (fmt s == b'%')) 1 a last (omega arith)
          (λ s p q t. within fmt last ends s q (λ z. ground arith)) fuel enough le in
      let (e2, run, inv, stop2) =
        while_total (λ (e : ℕ × ℕ). fmt e.1 == b'%' && fmt (e.1 + 1) == b'%')
          (λ (e : ℕ × ℕ). (e.0 + 1, e.1 + 2))
          (λ (e : ℕ × ℕ). (s ≤ e.0) × (e.1 ≡ s + 2 * (e.0 - s)) × (e.1 ≤ last))
          (λ (e : ℕ × ℕ). last - e.1)
          (λ e t inv.
            let one = within fmt last ends e.1 inv.2 (λ z. ground arith) in
            let two = within fmt last ends (e.1 + 1) one (λ z. ground arith) in
            (omega arith, (omega arith, omega arith, omega arith)))
          fuel (s, s) (omega arith, omega arith, hi) (omega arith) in
      rw (e, run)
        (Ensures-if (ltb int_max (e2.0 - a)) (λ h. open_)
          λ h. holds (
            record {
              s_lo = ground arith;
              s_hi = inv.2;
              same_m = refl;
              text = text_at fmt a (e2.0 - a);
              has_text = refl;
              is_length = length-text_at fmt a (e2.0 - a);
            },
            λ none_ z. more (ap fmt (omega arith) ∙ z),
          ))
