-- ===== src/Printf/Plain.antt =====
-- A directive of a `%` and a letter, with no flag, width, precision or modifier.
use ocaml_solo.Prelude.{
  ℕ, suc, ◌+◌, ◌-◌, ◌≡◌, refl, ◌∙◌, Bool, true, false, ◌==◌, ltb, none, List, ◌∷◌, while, arith,
}
use ocaml_solo.Prelude.Int.{negsuc}
use ocaml_solo.Ctype.{isdigit}
use ocaml_solo.Memory.{Memory}
use ocaml_solo.Printf.Outcome.{done, leave, ◌>>=◌}
use ocaml_solo.Printf.Table.{
  bare, int, uint, char, ptr, noarg, maxstate, oob, in_table, is_prefix, states, specifier,
}
use ocaml_solo.Printf.Argument.{is_popped, pop_arg, converted}
use ocaml_solo.Printf.Directive.{
  Reader, Directive, is_flag, read_flags, getint, read_width, read_precision, read_arg,
  read_directive,
}

pub data Letter : Type 0 where
  d i o u x big_x c s : Letter

abbrev pub code : Letter → ℕ
code d = b'd'
code i = b'i'
code o = b'o'
code u = b'u'
code x = b'x'
code big_x = b'X'
code c = b'c'
code s = b's'

-- The type of its argument.
abbrev pub type_of : Letter → ℕ
type_of d = int
type_of i = int
type_of c = char
type_of s = ptr
type_of other = uint

-- What the reader tests of the letter.
record Simple (ch type : ℕ) : Type 0 where
  digit : isdigit ch ≡ false
  flag : is_flag ch ≡ false
  star : (ch == b'*') ≡ false
  dot : (ch == b'.') ≡ false
  inside : oob ch ≡ false
  entry : states bare ch ≡ type
  final : is_prefix type ≡ false
  some_ : (type == 0) ≡ false
  takes : (type == noarg) ≡ false

simple : (l : Letter) → Simple (code l) (type_of l)
unfolding isdigit states
simple d = record {
  digit = refl;
  flag = refl;
  star = refl;
  dot = refl;
  inside = refl;
  entry = refl;
  final = refl;
  some_ = refl;
  takes = refl;
}
simple _ = record {
  digit = refl;
  flag = refl;
  star = refl;
  dot = refl;
  inside = refl;
  entry = refl;
  final = refl;
  some_ = refl;
  takes = refl;
}

popped : (l : Letter) → is_popped (type_of l) ≡ true
unfolding is_popped
popped d = refl
popped _ = refl

small : (l : Letter) → ltb maxstate (type_of l) ≡ false
small d = refl
small _ = refl

abbrev pub plain : Letter → ℕ → Directive
plain l arg = record { fl = 0; w = 0; p = negsuc 0; t = code l; ps = bare; arg = arg }

module _ (fmt : Memory) where
  flags_none : (fuel a : ℕ) → is_flag (fmt a) ≡ false → read_flags (suc fuel) fmt a ≡ done (0, a)
  unfolding read_flags
  flags_none fuel a e = rw (e, while) refl

  getint_none : (fuel a : ℕ) → isdigit (fmt a) ≡ false → getint (suc fuel) fmt a ≡ done (0, a)
  unfolding getint
  getint_none fuel a e = rw (e, while) refl

  module _ (l : Letter) (a : ℕ) (here : fmt a ≡ code l) where
    specifier_lem : specifier 3 fmt bare a ≡ done (type_of l, bare, a + 1)
    unfolding specifier
    specifier_lem =
        let t = simple l in
        let c : in_table (code l) ≡ true = ground (arith, t.inside) in
        rw (here, t.inside, c, t.entry, t.final, t.some_) refl

    digit_at : isdigit (fmt a) ≡ false
    digit_at = let t = simple l in rw here (t.digit)

    read_width_lem :
        (fuel : ℕ) (f : Bool) (r : Reader)
        → r.s ≡ a
        → read_width (suc fuel) f fmt 0 r ≡ done (0, 0, record r { s = a })
    unfolding read_width
    read_width_lem fuel f r at =
        let t = simple l in
        let star : (fmt r.s == b'*') ≡ false = rw (at, here) (t.star) in
        rw (star, at, getint_none fuel a digit_at) refl

    read_precision_lem :
        (fuel : ℕ) (f : Bool) (r : Reader)
        → r.s ≡ a
        → read_precision (suc fuel) f fmt r ≡ done (negsuc 0, r)
    unfolding read_precision
    read_precision_lem fuel f r at =
        let t = simple l in
        let dot : (fmt r.s == b'.') ≡ false = rw (at, here) (t.dot) in rw (dot) refl

  module _ (l : Letter) (fuel : ℕ) (r : Reader) (here : fmt (r.s + 1) ≡ code l) where
    abbrev behind : Reader
    behind = record r { s = r.s + 1 + 1 }

    up_to_argument :
        (f : Bool)
        → read_directive (suc fuel) f fmt r
          ≡ (read_arg f none (type_of l) behind >>= λ arg. done (plain l arg.0, arg.1))
    unfolding read_directive
    up_to_argument f =
        let t = simple l in
        let flag : is_flag (fmt (r.s + 1)) ≡ false = rw here (t.flag) in
        let back : r.s + 1 + 1 - 1 ≡ r.s + 1 = omega arith in
        rw
          (
            digit_at l (r.s + 1) here,
            flags_none fuel (r.s + 1) flag,
            read_width_lem l (r.s + 1) here fuel f (record r { s = r.s + 1 }) refl,
            read_precision_lem l (r.s + 1) here fuel f (record r { s = r.s + 1 }) refl,
            specifier_lem l (r.s + 1) here,
            back,
            here,
          )
          refl

    pub read_directive_first : read_directive (suc fuel) false fmt r ≡ leave
    unfolding read_arg
    read_directive_first = let t = simple l in up_to_argument false ∙ rw (t.takes) refl

    pub read_directive_second :
        (v : ℕ) (rest : List ℕ)
        → r.ap ≡ v ∷ rest
        → read_directive (suc fuel) true fmt r
          ≡ done (plain l (converted (type_of l) v), record behind { ap = rest })
    unfolding read_arg pop_arg
    read_directive_second v rest e =
        let t = simple l in up_to_argument true ∙ rw (t.takes, e, small l, popped l) refl
