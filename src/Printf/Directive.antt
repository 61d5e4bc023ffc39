-- ===== src/Printf/Directive.antt =====
-- A directive of the format, up to its argument.
use ocaml_solo.Prelude.{
  ℕ, ◌+◌, ◌-◌, ◌*◌, ◌%◌, ◌^◌, Bool, true, false, not, ◌&&◌, List, ltb, leb, ◌==◌, if◌then◌else◌,
  Option, none, some, bit_and, bit_or, while,
}
use ocaml_solo.Prelude.Int.{ℤ, pos, negsuc}
use ocaml_solo.Ctype.{isdigit}
use ocaml_solo.Memory.{write}
use ocaml_solo.Format.Pad.{left_adj, zero_pad}
use ocaml_solo.Printf.Outcome.{Outcome, done, failed, leave, undefined, or_spinning, ◌>>=◌}
use ocaml_solo.Printf.Table.{bare, int, noarg, specifier}
use ocaml_solo.Printf.Argument.{pop_arg, pop_int, to_int}

abbrev pub int_max : ℕ
int_max = 2 ^ 31 - 1

abbrev pub alt_form : ℕ
alt_form = 2 ^ 3

abbrev pub pad_pos : ℕ
pad_pos = 2 ^ 0

abbrev pub mark_pos : ℕ
mark_pos = 2 ^ 11

abbrev pub grouped : ℕ
grouped = 2 ^ 7

abbrev pub flagmask : ℕ
flagmask = alt_form + zero_pad + left_adj + pad_pos + mark_pos + grouped

-- The local variables that reading changes, with the place `s` in the format.
pub record Reader : Type 0 where
  pub s : ℕ
  pub ap : List ℕ
  pub nl_arg : ℕ → ℕ
  pub nl_type : ℕ → ℕ
  pub l10n : Bool

-- What is read of a directive; `t` is its last character and `ps` the state before it.
pub record Directive : Type 0 where
  pub fl : ℕ
  pub w : ℕ
  pub p : ℤ
  pub t : ℕ
  pub ps : ℕ
  pub arg : ℕ

abbrev pub is_flag : ℕ → Bool
is_flag c = leb b' ' c && ltb (c - b' ') 32 && not (bit_and flagmask (2 ^ (c - b' ')) == 0)

-- The loop over the flags, on `fl` and `s`.
unfoldable pub read_flags : ℕ → (ℕ → ℕ) → ℕ → Outcome (ℕ × ℕ)
unfolding while
read_flags fuel fmt s = or_spinning (
    while fuel (λ (r : ℕ × ℕ). is_flag (fmt r.1))
      (λ (r : ℕ × ℕ). (bit_or r.0 (2 ^ (fmt r.1 - b' ')), r.1 + 1)) (0, s))

-- `getint`. A number above INT_MAX is a signed overflow.
unfoldable pub getint : ℕ → (ℕ → ℕ) → ℕ → Outcome (ℕ × ℕ)
unfolding while isdigit
getint fuel fmt s = do
  r ← or_spinning (
      while fuel (λ (r : ℕ × ℕ). isdigit (fmt r.1))
        (λ (r : ℕ × ℕ). (10 * r.0 + (fmt r.1 - b'0'), r.1 + 1)) (0, s))
  if ltb int_max r.0 then undefined else done r

-- Is there a position, as in `1$`, at `s`?
abbrev pub positional : (ℕ → ℕ) → ℕ → Bool
positional fmt s = isdigit (fmt s) && fmt (s + 1) == b'$'

-- `*` or `*1$` at `s`; a position sets `l10n` where `sets` holds. `f` is whether this is the second
-- pass.
unfoldable pub starred : Bool → (ℕ → ℕ) → Bool → Reader → Outcome (ℤ × Reader)
unfolding to_int pop_int
starred f fmt sets r =
    let i = fmt (r.s + 1) - b'0' in
    let at = record r {
      s = r.s + 3;
      nl_type = write r.nl_type i int;
      l10n = if sets then true else r.l10n;
    } in
    if positional fmt (r.s + 1)
    then done (to_int (r.nl_arg i), at)
    else if not r.l10n
    then if f
      then pop_int r.ap >>= (λ a. done (a.0, record r { s = r.s + 1; ap = a.1 }))
      else done (pos 0, record r { s = r.s + 1 })
    else failed

-- A negative width is the flag '-' and the width without its sign; there is none for INT_MIN.
unfoldable pub signed_width : ℕ → ℤ → Outcome (ℕ × ℕ)
signed_width fl (pos w) = done (fl, w)
signed_width fl (negsuc w) = if w == int_max then undefined else done (bit_or fl left_adj, w + 1)

-- The flags and the width.
unfoldable pub read_width : ℕ → Bool → (ℕ → ℕ) → ℕ → Reader → Outcome (ℕ × ℕ × Reader)
unfolding getint starred signed_width
read_width fuel f fmt fl r =
    if fmt r.s == b'*'
    then starred f fmt true r >>= (λ a. signed_width fl a.0 >>= λ v. done (v.0, v.1, a.1))
    else getint fuel fmt r.s >>= λ a. done (fl, a.0, record r { s = a.1 })

-- The precision, -1 where there is none.
unfoldable pub read_precision : ℕ → Bool → (ℕ → ℕ) → Reader → Outcome (ℤ × Reader)
unfolding getint starred
read_precision fuel f fmt r =
    if fmt r.s == b'.' && fmt (r.s + 1) == b'*'
    then starred f fmt false (record r { s = r.s + 1 })
    else if fmt r.s == b'.'
    then getint fuel fmt (r.s + 1) >>= (λ a. done (pos a.0, record r { s = a.1 }))
    else done (negsuc 0, r)

-- The argument: the 64 bits at `argpos`, or the next one; the first pass ends at one without a position.
unfoldable pub read_arg : Bool → Option ℕ → ℕ → Reader → Outcome (ℕ × Reader)
unfolding pop_arg
read_arg f none st r =
    if st == noarg
    then done (0, r)
    else if f
    then pop_arg 0 st r.ap >>= (λ a. done (a.0, record r { ap = a.1 }))
    else leave
read_arg f (some argpos) st r =
    if st == noarg
    then failed
    else done (r.nl_arg argpos % 2 ^ 64, record r { nl_type = write r.nl_type argpos st })

-- From the `%` at `s` to behind the specifier.
unfoldable pub read_directive : ℕ → Bool → (ℕ → ℕ) → Reader → Outcome (Directive × Reader)
unfolding read_flags read_width read_precision specifier read_arg
read_directive fuel f fmt r = do
  let at = positional fmt (r.s + 1)
  let argpos : Option ℕ = if at then some (fmt (r.s + 1) - b'0') else none
  let r0 = record r { s = if at then r.s + 3 else r.s + 1; l10n = if at then true else r.l10n }
  flags ← read_flags fuel fmt r0.s
  width ← read_width fuel f fmt flags.0 (record r0 { s = flags.1 })
  precision ← read_precision fuel f fmt width.2
  spec ← specifier 3 fmt bare precision.1.s
  arg ← read_arg f argpos spec.0 (record precision.1 { s = spec.2 })
  done (
    record {
      fl = width.0;
      w = width.1;
      p = precision.0;
      t = fmt (spec.2 - 1);
      ps = spec.1;
      arg = arg.0;
    },
    arg.1,
  )
