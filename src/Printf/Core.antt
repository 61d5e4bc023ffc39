-- ===== src/Printf/Core.antt =====
-- The loop of `printf_core`, and `vfprintf`. The format is const and restrict, so no call writes to it:
-- it is a memory of its own, `fmt`. `fmt_fp` is not modelled: the run
-- ends as `floating` where it is called.
use ocaml_solo.Prelude.{
  ℕ, zero, suc, ◌+◌, ◌-◌, Bool, true, false, not, ◌&&◌, ◌||◌, List, ltb, ◌==◌, if◌then◌else◌,
  Option, none, some, while,
}
use ocaml_solo.Prelude.Lists.{length}
use ocaml_solo.Memory.{Memory, write}
use ocaml_solo.Printf.Outcome.{
  Outcome, done, failed, leave, undefined, aborted, floating, spinning, or_spinning, ◌>>=◌,
}
use ocaml_solo.Printf.Argument.{pop_arg}
use ocaml_solo.Printf.Directive.{Reader, Directive, int_max, read_directive}
use ocaml_solo.Printf.Convert.{text_at, letter, exclusive, store_count, conversion}
use ocaml_solo.Printf.Field.{print_field, digits_wide, field_wide}

-- The variables that the loop changes; without a file this is the first pass.
pub record Printer (F : Type 0) : Type 0 where
  pub r : Reader
  pub file : Option F
  pub m : Memory
  pub errno : ℕ

abbrev pub eoverflow : ℕ
eoverflow = 13

-- The update of the count, -1 for `none`, and of errno.
unfoldable pub update_count : Option ℕ → ℕ → ℕ → Option ℕ × ℕ
update_count none l errno = (none, errno)
update_count (some cnt) l errno =
    if ltb (int_max - cnt) l then (none, eoverflow) else (some (cnt + l), errno)

abbrev pub is_pair : Memory → ℕ → Bool
is_pair fmt s = fmt s == b'%' && fmt (s + 1) == b'%'

abbrev pub put_out : {F : Type 0} → (List ℕ → F → F) → List ℕ → Option F → Option F
put_out out text none = none
put_out out text (some f) = some (out text f)

-- Text up to a directive, with one `%` for two.
unfoldable pub literal :
    {F : Type 0} → (List ℕ → F → F) → ℕ → Memory → Printer F → Outcome (ℕ × Printer F)
unfolding while text_at
literal out fuel fmt st =
    let a = st.r.s in
    or_spinning (while fuel (λ s. not (fmt s == 0) && not (fmt s == b'%')) (λ s. s + 1) a) >>= λ s.
    or_spinning
      (while fuel (λ (e : ℕ × ℕ). is_pair fmt e.1) (λ (e : ℕ × ℕ). (e.0 + 1, e.1 + 2)) (s, s))
    >>= λ e.
        if ltb int_max (e.0 - a)
        then undefined
        else done (
          e.0 - a,
          record st {
            r = record (st.r) { s = e.1 };
            file = put_out out (text_at fmt a (e.0 - a)) st.file;
          },
        )

abbrev pub is_float : ℕ → Bool
is_float t =
    t == b'e'
    || t == b'f'
    || t == b'g'
    || t == b'a'
    || t == b'E'
    || t == b'F'
    || t == b'G'
    || t == b'A'

-- A directive in the second pass: `l`, the memory and the file.
unfoldable pub print_directive :
    {F : Type 0} → (List ℕ → F → F) → Option ℕ → Directive → Memory → F → Outcome (ℕ × Memory × F)
unfolding letter exclusive store_count conversion print_field
print_directive out cnt d m f =
    let t = letter d.ps d.t in
    let printed = conversion m d >>= λ field.
    if ltb int_max (length field.lead + digits_wide field)
    then undefined
    else or_spinning (print_field out field f) >>= λ f'. done (field_wide field, m, f') in
    if t == b'n'
    then done (0, store_count m cnt d.ps d.arg, f)
    else if is_float t
    then floating
    else printed

-- A directive in either pass.
unfoldable pub act :
    {F : Type 0}
    → (List ℕ → F → F)
    → Option ℕ
    → Directive
    → Reader
    → Printer F
    → Option F
    → Outcome (ℕ × Printer F)
unfolding print_directive
act out cnt d r st none = done (0, record st { r = r })
act out cnt d r st (some f) = print_directive out cnt d st.m f >>= λ a.
    done (a.0, record st { r = r; file = some a.2; m = a.1 })

unfoldable pub directive :
    {F : Type 0} → (List ℕ → F → F) → ℕ → Memory → Option ℕ → Printer F → Outcome (ℕ × Printer F)
unfolding read_directive act
directive out fuel fmt cnt st =
    let second : Bool = elim st.file [ none ↦ false | some f ↦ true ] in
    read_directive fuel second fmt st.r >>= λ a. act out cnt a.0 a.1 st st.file

-- The loop over the positions whose type is known.
unfoldable pub pop_all : ℕ → ℕ → Reader → Outcome (ℕ × Reader)
unfolding pop_arg
pop_all zero i r = done (i, r)
pop_all (suc n) i r =
    let next = pop_arg (r.nl_arg i) (r.nl_type i) r.ap >>= λ a.
    pop_all n (i + 1) (record r { ap = a.1; nl_arg = write r.nl_arg i a.0 }) in
    if r.nl_type i == 0 then done (i, r) else next

-- Is there a type behind the positions?
unfoldable pub has_gap : ℕ → ℕ → Reader → Bool
has_gap zero i r = false
has_gap (suc n) i r = if r.nl_type i == 0 then has_gap n (i + 1) r else true

-- Behind the loop; NL_ARGMAX is 9.
unfoldable pub finish_pass :
    {F : Type 0} → Option ℕ → Printer F → Option F → Outcome (Option ℕ × Printer F)
unfolding pop_all has_gap
finish_pass cnt st (some f) = done (cnt, st)
finish_pass cnt st none =
    if not st.r.l10n
    then done (some 0, st)
    else pop_all 9 1 st.r >>= λ a.
        done (if has_gap (10 - a.0) a.0 a.1 then none else some 1, record st { r = a.1 })

-- `return -1` and `return 0` out of the loop.
abbrev pub after_directive :
    {A B : Type 0} → Outcome A → Outcome B → Outcome B → (A → Outcome B) → Outcome B
after_directive (done a) minus zero_ next = next a
after_directive failed minus zero_ next = minus
after_directive leave minus zero_ next = zero_
after_directive undefined minus zero_ next = undefined
after_directive aborted minus zero_ next = aborted
after_directive floating minus zero_ next = floating
after_directive spinning minus zero_ next = spinning

-- `l` is the length of what the round before has put out.
unfoldable pub printf_core :
    {F : Type 0}
    → (List ℕ → F → F)
    → ℕ
    → Memory
    → Option ℕ
    → ℕ
    → Printer F
    → Outcome (Option ℕ × Printer F)
unfolding update_count literal directive finish_pass
printf_core out zero fmt cnt l st = spinning
printf_core out (suc fuel) fmt cnt l st =
    let (cnt, errno) = update_count cnt l st.errno in
    let st0 = record st { errno = errno } in
    let rest = literal out (suc fuel) fmt st0 >>= λ a.
    let next = printf_core out fuel fmt cnt a.0 a.1 in
    if not (a.0 == 0)
    then next
    else after_directive (directive out (suc fuel) fmt cnt a.1) (done (none, a.1))
        (done (some 0, a.1)) (λ b. printf_core out fuel fmt cnt b.0 b.1) in
    if fmt st.r.s == 0 then finish_pass cnt st0 st0.file else rest

-- The start of a pass.
abbrev pub pass_start : ℕ → List ℕ → (ℕ → ℕ) → (ℕ → ℕ) → Reader
pass_start s ap nl_arg nl_type = record {
  s = s;
  ap = ap;
  nl_arg = nl_arg;
  nl_type = nl_type;
  l10n = false;
}

abbrev pub file_or : {F : Type 0} → F → Option F → F
file_or f none = f
file_or f (some f') = f'

-- The second pass, after one that did not fail.
unfoldable pub second_pass :
    {F : Type 0}
    → (List ℕ → F → F)
    → ℕ
    → Memory
    → ℕ
    → F
    → Option ℕ
    → Printer F
    → Outcome (Option ℕ × F × Memory × ℕ)
unfolding printf_core
second_pass out fuel fmt s f none st = done (none, f, st.m, st.errno)
second_pass out fuel fmt s f (some n) st =
    let r = pass_start s st.r.ap st.r.nl_arg st.r.nl_type in
    printf_core out fuel fmt (some 0) 0 (record st { r = r; file = some f }) >>= λ b.
    done (b.0, file_or f b.1.file, b.1.m, b.1.errno)

unfoldable pub vfprintf :
    {F : Type 0}
    → (List ℕ → F → F)
    → ℕ
    → Memory
    → ℕ
    → List ℕ
    → (ℕ → ℕ)
    → Memory
    → ℕ
    → F
    → Outcome (Option ℕ × F × Memory × ℕ)
unfolding printf_core second_pass
vfprintf {F} out fuel fmt s ap nl_arg m errno f =
    let first : Printer F = record {
      r = pass_start s ap nl_arg (λ i. 0);
      file = none;
      m = m;
      errno = errno;
    } in
    printf_core out fuel fmt (some 0) 0 first >>= λ a. second_pass out fuel fmt s f a.0 a.1
