-- ===== src/Printf/Table.antt =====
-- The state machine for length modifiers and conversion specifiers.
use ocaml_solo.Prelude.{
  ℕ, zero, suc, ◌+◌, ◌≤◌, ◌<◌, ◌≡◌, refl, Bool, true, not, ◌&&◌, ◌||◌, List, [], ◌∷◌, ltb, leb,
  ◌==◌, if◌then◌else◌, below_all, below_all_at, ap, ◌∙◌, Bool-cases, inl, inr, arith,
}
use ocaml_solo.Printf.Outcome.{
  Outcome, done, failed, undefined, spinning, Ensures, holds, fails, Ensures-if, Ensures-weaken,
}

-- The states and the types, by their numbers. limits.h defines no ULLONG_MAX, so ODD_TYPES is defined,
-- and LONG_IS_INT is not.
abbrev pub bare : ℕ
bare = 0

abbrev pub lpre : ℕ
lpre = 1

abbrev pub llpre : ℕ
llpre = 2

abbrev pub hpre : ℕ
hpre = 3

abbrev pub hhpre : ℕ
hhpre = 4

abbrev pub biglpre : ℕ
biglpre = 5

abbrev pub ztpre : ℕ
ztpre = 6

abbrev pub jpre : ℕ
jpre = 7

abbrev pub stop : ℕ
stop = 8

abbrev pub ptr : ℕ
ptr = 9

abbrev pub int : ℕ
int = 10

abbrev pub uint : ℕ
uint = 11

abbrev pub ullong : ℕ
ullong = 12

abbrev pub long : ℕ
long = 13

abbrev pub ulong : ℕ
ulong = 14

abbrev pub short : ℕ
short = 15

abbrev pub ushort : ℕ
ushort = 16

abbrev pub char : ℕ
char = 17

abbrev pub uchar : ℕ
uchar = 18

abbrev pub llong : ℕ
llong = 19

abbrev pub sizet : ℕ
sizet = 20

abbrev pub imax : ℕ
imax = 21

abbrev pub umax : ℕ
umax = 22

abbrev pub pdiff : ℕ
pdiff = 23

abbrev pub uiptr : ℕ
uiptr = 24

abbrev pub dbl : ℕ
dbl = 25

abbrev pub ldbl : ℕ
ldbl = 26

abbrev pub noarg : ℕ
noarg = 27

abbrev pub maxstate : ℕ
maxstate = 28

abbrev Row : Type 0
Row = List (ℕ × ℕ)

-- `d` and `i`, and `o`, `u`, `x` and `X`.
abbrev integers : ℕ → ℕ → Row → Row
integers signed unsigned row =
    (b'd', signed)
    ∷ (b'i', signed)
    ∷ (b'o', unsigned)
    ∷ (b'u', unsigned)
    ∷ (b'x', unsigned)
    ∷ (b'X', unsigned)
    ∷ row

abbrev floats : ℕ → Row → Row
floats f row =
    (b'e', f)
    ∷ (b'f', f)
    ∷ (b'g', f)
    ∷ (b'a', f)
    ∷ (b'E', f)
    ∷ (b'F', f)
    ∷ (b'G', f)
    ∷ (b'A', f)
    ∷ row

-- The rows, each with the entries that its initialiser names.
unfoldable rows : ℕ → Row
rows st =
    if st == bare
    then integers int uint (
        floats dbl (
          (b'c', char)
          ∷ (b'C', int)
          ∷ (b's', ptr)
          ∷ (b'S', ptr)
          ∷ (b'p', uiptr)
          ∷ (b'n', ptr)
          ∷ (b'm', noarg)
          ∷ (b'l', lpre)
          ∷ (b'h', hpre)
          ∷ (b'L', biglpre)
          ∷ (b'z', ztpre)
          ∷ (b'j', jpre)
          ∷ (b't', ztpre)
          ∷ []))
    else if st == lpre
    then integers long ulong
        (floats dbl ((b'c', int) ∷ (b's', ptr) ∷ (b'n', ptr) ∷ (b'l', llpre) ∷ []))
    else if st == llpre
    then integers llong ullong ((b'n', ptr) ∷ [])
    else if st == hpre
    then integers short ushort ((b'n', ptr) ∷ (b'h', hhpre) ∷ [])
    else if st == hhpre
    then integers char uchar ((b'n', ptr) ∷ [])
    else if st == biglpre
    then floats ldbl ((b'n', ptr) ∷ [])
    else if st == ztpre
    then integers pdiff sizet ((b'n', ptr) ∷ [])
    else integers imax umax ((b'n', ptr) ∷ [])

-- An entry that no initialiser names is 0.
unfoldable entry : ℕ → Row → ℕ
entry c [] = 0
entry c ((d, target) ∷ row) = if c == d then target else entry c row

unfoldable pub states : ℕ → ℕ → ℕ
unfolding rows entry
states st c = entry c (rows st)

abbrev pub oob : ℕ → Bool
oob c = ltb c b'A' || ltb b'z' c

-- The places that the rows of the table have.
abbrev pub in_table : ℕ → Bool
in_table c = leb b'A' c && leb c b'z'

-- `st - 1 < STOP` in unsigned arithmetic.
abbrev pub is_prefix : ℕ → Bool
is_prefix st = ltb 0 st && leb st stop

-- The do-while loop, from the state `st`; to read outside the table is undefined. The result is the type, the state before it and the place
-- behind the specifier.
unfoldable pub specifier : ℕ → (ℕ → ℕ) → ℕ → ℕ → Outcome (ℕ × ℕ × ℕ)
specifier zero fmt st s = spinning
specifier (suc fuel) fmt st s =
    let st' = states st (fmt s) in
    let rest = specifier fuel fmt st' (s + 1) in
    if oob (fmt s)
    then failed
    else if not (in_table (fmt s))
    then undefined
    else if is_prefix st'
    then rest
    else if st' == 0
    then failed
    else done (st', st, s + 1)

-- How many length modifiers may still follow.
abbrev rank : ℕ → ℕ
rank st = if st == bare then 2 else if st == llpre || st == hhpre then 0 else 1

-- A modifier is followed by fewer of them.
abbrev falls : ℕ → ℕ → Bool
falls st target = not (is_prefix target) || (ltb target stop && ltb (rank target) (rank st))

abbrev all_entries : (ℕ → Bool) → Row → Bool
all_entries test [] = test 0
all_entries test ((d, target) ∷ row) = test target && all_entries test row

entry_all :
    (test : ℕ → Bool) (c : ℕ) (row : Row) → all_entries test row ≡ true → test (entry c row) ≡ true
unfolding entry
entry_all test c [] h = h
entry_all test c ((d, target) ∷ row) h = elim (Bool-cases (c == d)) [
  | inl here ↦ rw here (ground arith)
  | inr later ↦ rw later (entry_all test c row (ground arith))
]

rows_table : below_all (λ st. all_entries (falls st) (rows st)) stop ≡ true
unfolding below_all rows
rows_table = refl

states_fall : (st c : ℕ) → st < stop → falls st (states st c) ≡ true
unfolding states
states_fall st c lt =
    entry_all (falls st) c (rows st)
      (below_all_at (λ st. all_entries (falls st) (rows st)) stop st rows_table lt)

module _ (fmt : ℕ → ℕ) (last : ℕ) (ends : fmt last ≡ 0) where
  specifier_within :
      (f : Bool) (fuel st s : ℕ)
      → st < stop
      → rank st < fuel
      → s ≤ last
      → Ensures f
          (λ (r : ℕ × ℕ × ℕ). (s + 1 ≤ r.2) × (r.2 ≤ last) × (stop < r.0))
          (specifier fuel fmt st s)
  unfolding specifier
  specifier_within f zero st s lt enough le = absurd (omega arith)
  specifier_within f (suc fuel) st s lt enough le =
      Ensures-if (oob (fmt s)) (λ h. fails)
        λ h.
          let room : s < last = elim (Bool-cases (s == last)) [
            | inl at ↦ let z : fmt s ≡ 0 = ap fmt (ground arith) ∙ ends in absurd (ground arith)
            | inr before ↦ ground arith
          ] in
          let inside : in_table (fmt s) ≡ true = ground arith in
          rw inside (
            Ensures-if (is_prefix (states st (fmt s)))
              (λ more.
                let lower = states_fall st (fmt s) lt in
                Ensures-weaken
                  (specifier_within f fuel (states st (fmt s)) (s + 1) (ground arith) (ground arith)
                    (omega arith))
                  λ a p. holds (omega arith, p.1, p.2))
              (λ final.
                Ensures-if (states st (fmt s) == 0) (λ none_. fails)
                  (λ some_. holds (omega arith, omega arith, ground arith))))

  -- The machine does not pass the NUL of the format.
  pub specifier-Ensures :
      (f : Bool) (s : ℕ)
      → s ≤ last
      → Ensures f
          (λ (r : ℕ × ℕ × ℕ). (s + 1 ≤ r.2) × (r.2 ≤ last) × (stop < r.0))
          (specifier 3 fmt bare s)
  specifier-Ensures f s le = specifier_within f 3 bare s (omega arith) (omega arith) le
