-- ===== src/Printf/Specifiers.antt =====
-- What a length modifier and a letter ask for, as the C standard lists them, against the state machine.
use ocaml_solo.Prelude.{
  ℕ, suc, ◌+◌, ◌<◌, ◌≡◌, refl, Bool, true, false, not, ◌&&◌, ◌||◌, List, [], Option, none, some,
  ◌==◌, if◌then◌else◌, below_all, below_all_at, Bool-cases, inl, inr, ap, ◌∙◌, arith,
}
use ocaml_solo.Prelude.Lists.{length}
use ocaml_solo.Prelude.Text.{bytes}
use ocaml_solo.Memory.{Memory}
use ocaml_solo.Printf.Outcome.{Outcome, done, failed}
use ocaml_solo.Printf.Rounds.{Spelled}
use ocaml_solo.Printf.Table.{
  bare, lpre, llpre, hpre, hhpre, biglpre, ztpre, jpre, ptr, int, uint, long, ulong, llong, ullong,
  short, ushort, char, uchar, sizet, imax, umax, pdiff, uiptr, dbl, ldbl, noarg, oob, in_table,
  is_prefix, states, specifier,
}

pub data Modifier : Type 0 where
  plain h hh l ll big_l z t j : Modifier

abbrev pub spelling : Modifier → List ℕ
spelling plain = []
spelling h = bytes "h"
spelling hh = bytes "hh"
spelling l = bytes "l"
spelling ll = bytes "ll"
spelling big_l = bytes "L"
spelling z = bytes "z"
spelling t = bytes "t"
spelling j = bytes "j"

-- The state behind the modifier.
abbrev pub behind : Modifier → ℕ
behind plain = bare
behind h = hpre
behind hh = hhpre
behind l = lpre
behind ll = llpre
behind big_l = biglpre
behind z = ztpre
behind t = ztpre
behind j = jpre

-- Is the letter one that makes a longer modifier of this one?
abbrev pub extends : Modifier → ℕ → Bool
extends plain c = c == b'h' || c == b'l' || c == b'L' || c == b'z' || c == b't' || c == b'j'
extends h c = c == b'h'
extends l c = c == b'l'
extends _ c = false

-- `d` and `i`.
abbrev pub signed : Modifier → Option ℕ
signed plain = some int
signed h = some short
signed hh = some char
signed l = some long
signed ll = some llong
signed big_l = none
signed z = some pdiff
signed t = some pdiff
signed j = some imax

-- `o`, `u`, `x` and `X`.
abbrev pub unsigned : Modifier → Option ℕ
unsigned plain = some uint
unsigned h = some ushort
unsigned hh = some uchar
unsigned l = some ulong
unsigned ll = some ullong
unsigned big_l = none
unsigned z = some sizet
unsigned t = some sizet
unsigned j = some umax

abbrev pub floating_point : Modifier → Option ℕ
floating_point plain = some dbl
floating_point l = some dbl
floating_point big_l = some ldbl
floating_point _ = none

abbrev pub character : Modifier → Option ℕ
character plain = some char
character l = some int
character _ = none

abbrev pub string : Modifier → Option ℕ
string plain = some ptr
string l = some ptr
string _ = none

abbrev pub only_plain : ℕ → Modifier → Option ℕ
only_plain type plain = some type
only_plain type _ = none

-- The type of the argument; POSIX has `C`, `S`, and glibc `m`.
abbrev pub argument : Modifier → ℕ → Option ℕ
argument md c =
    if c == b'd' || c == b'i'
    then signed md
    else if c == b'o' || c == b'u' || c == b'x' || c == b'X'
    then unsigned md
    else if c == b'a' || c == b'e' || c == b'f' || c == b'g'
    then floating_point md
    else if c == b'A' || c == b'E' || c == b'F' || c == b'G'
    then floating_point md
    else if c == b'c'
    then character md
    else if c == b's'
    then string md
    else if c == b'n'
    then some ptr
    else if c == b'p'
    then only_plain uiptr md
    else if c == b'C'
    then only_plain int md
    else if c == b'S'
    then only_plain ptr md
    else if c == b'm'
    then only_plain noarg md
    else none

abbrev pub accepted : ℕ → ℕ → Option ℕ → Outcome (ℕ × ℕ × ℕ)
accepted st s none = failed
accepted st s (some type) = done (type, st, s)

-- What the machine makes of a letter that does not go on.
verdict : ℕ → ℕ → Option ℕ
verdict st c = if oob c || states st c == 0 then none else some (states st c)

final : ℕ → ℕ → Bool
final st c = oob c || in_table c && not (is_prefix (states st c))

final_round :
    (fuel : ℕ) (fmt : Memory) (st s : ℕ)
    → final st (fmt s) ≡ true
    → specifier (suc fuel) fmt st s ≡ accepted st (s + 1) (verdict st (fmt s))
unfolding specifier final verdict
final_round fuel fmt st s f = elim (Bool-cases (oob (fmt s))) [
  | inl outside ↦ rw outside refl
  | inr inside ↦
      let within : in_table (fmt s) ≡ true = ground arith in
      let last : is_prefix (states st (fmt s)) ≡ false = ground arith in
      elim (Bool-cases (states st (fmt s) == 0)) [
        | inl none_ ↦ rw (inside, within, last, none_) refl
        | inr some_ ↦ rw (inside, within, last, some_) refl
      ]
]

abbrev same : Option ℕ → Option ℕ → Bool
same none none = true
same (some a) (some b) = a == b
same _ _ = false

same_eq : (a b : Option ℕ) → same a b ≡ true → a ≡ b
same_eq none none e = refl
same_eq none (some b) e = cc
same_eq (some a) none e = cc
same_eq (some a) (some b) e = ap some (ground arith)

agrees : Modifier → ℕ → Bool
agrees md c = extends md c || final (behind md) c && same (verdict (behind md) c) (argument md c)

table_of : (md : Modifier) → below_all (agrees md) 256 ≡ true
unfolding below_all agrees final verdict states
table_of plain = refl
table_of h = refl
table_of hh = refl
table_of l = refl
table_of ll = refl
table_of big_l = refl
table_of z = refl
table_of t = refl
table_of j = refl

module _ (fmt : Memory) where
  ends :
      (md : Modifier) (fuel s : ℕ)
      → fmt s < 256
      → extends md (fmt s) ≡ false
      → specifier (suc fuel) fmt (behind md) s ≡ accepted (behind md) (s + 1) (argument md (fmt s))
  unfolding agrees
  ends md fuel s byte new =
      let table = below_all_at (agrees md) 256 (fmt s) (table_of md) byte in
      let goes : final (behind md) (fmt s) ≡ true = ground arith in
      let eq : same (verdict (behind md) (fmt s)) (argument md (fmt s)) ≡ true = ground arith in
      final_round fuel fmt (behind md) s goes ∙ ap (accepted (behind md) (s + 1)) (same_eq _ _ eq)

  -- One letter of a modifier.
  goes_on :
      (fuel st target c s : ℕ)
      → fmt s ≡ c
      → oob c ≡ false
      → in_table c ≡ true
      → states st c ≡ target
      → is_prefix target ≡ true
      → specifier (suc fuel) fmt st s ≡ specifier fuel fmt target (s + 1)
  unfolding specifier
  goes_on fuel st target c s here inside within entry more =
      rw (here, inside, within, entry, more) refl

  -- Behind a length modifier, a letter that does not make it a longer one is accepted with the type
  -- that the two ask for, and rejected where they ask for none: the machine ends behind the letter,
  -- in the state of the modifier.
  pub specifier_lem :
      (md : Modifier) (s : ℕ)
      → let end = s + length (spelling md) in
        Spelled fmt s (spelling md)
        → fmt end < 256
        → extends md (fmt end) ≡ false
        → specifier 3 fmt bare s ≡ accepted (behind md) (end + 1) (argument md (fmt end))
  unfolding states
  specifier_lem plain s text byte new =
      let e : s + 0 ≡ s = omega arith in rw e (ends plain 2 s (rw e at byte) (rw e at new))
  specifier_lem h s text byte new =
      goes_on 2 bare hpre b'h' s text.0 refl refl refl refl ∙ ends h 1 (s + 1) byte new
  specifier_lem l s text byte new =
      goes_on 2 bare lpre b'l' s text.0 refl refl refl refl ∙ ends l 1 (s + 1) byte new
  specifier_lem big_l s text byte new =
      goes_on 2 bare biglpre b'L' s text.0 refl refl refl refl ∙ ends big_l 1 (s + 1) byte new
  specifier_lem z s text byte new =
      goes_on 2 bare ztpre b'z' s text.0 refl refl refl refl ∙ ends z 1 (s + 1) byte new
  specifier_lem t s text byte new =
      goes_on 2 bare ztpre b't' s text.0 refl refl refl refl ∙ ends t 1 (s + 1) byte new
  specifier_lem j s text byte new =
      goes_on 2 bare jpre b'j' s text.0 refl refl refl refl ∙ ends j 1 (s + 1) byte new
  specifier_lem hh s text byte new =
      let e : s + 2 ≡ s + 1 + 1 = omega arith in
      rw e (
        goes_on 2 bare hpre b'h' s text.0 refl refl refl refl
        ∙ goes_on 1 hpre hhpre b'h' (s + 1) text.1.0 refl refl refl refl
        ∙ ends hh 0 (s + 1 + 1) (rw e at byte) refl)
  specifier_lem ll s text byte new =
      let e : s + 2 ≡ s + 1 + 1 = omega arith in
      rw e (
        goes_on 2 bare lpre b'l' s text.0 refl refl refl refl
        ∙ goes_on 1 lpre llpre b'l' (s + 1) text.1.0 refl refl refl refl
        ∙ ends ll 0 (s + 1 + 1) (rw e at byte) refl)
