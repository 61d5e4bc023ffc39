-- ===== src/Printf/Argument.antt =====
-- `union arg` as 64 bits, and `pop_arg`. A va_list is the list of the arguments that are left, each as
-- the 64 bits that hold it; to take one where none is left is undefined.
use ocaml_solo.Prelude.{Bool, ℕ, ◌+◌, ◌-◌, ◌%◌, ◌^◌, List, [], ◌∷◌, ltb, ◌==◌, ◌||◌, if◌then◌else◌}
use ocaml_solo.Prelude.Int.{ℤ, pos, negsuc}
use ocaml_solo.Printf.Outcome.{Outcome, done, undefined}
use ocaml_solo.Printf.Table.{
  ptr, int, uint, ullong, long, ulong, short, ushort, char, uchar, llong, sizet, imax, umax, pdiff,
  uiptr, dbl, ldbl, maxstate,
}

-- The conversion of a signed number of `w` bits to uintmax_t.
abbrev pub sign_extend : ℕ → ℕ → ℕ
sign_extend w v = if ltb (v % 2 ^ w) (2 ^ (w - 1)) then v % 2 ^ w else v % 2 ^ w + 2 ^ 64 - 2 ^ w

-- The cases of the switch; the other types leave `arg` as it is and take nothing.
unfoldable pub is_popped : ℕ → Bool
is_popped type =
    type == ptr
    || type == int
    || type == uint
    || type == long
    || type == ulong
    || type == ullong
    || type == short
    || type == ushort
    || type == char
    || type == uchar
    || type == llong
    || type == sizet
    || type == imax
    || type == umax
    || type == pdiff
    || type == uiptr
    || type == dbl
    || type == ldbl

-- What a case makes of the 64 bits that hold its argument.
unfoldable pub converted : ℕ → ℕ → ℕ
converted type v =
    if type == int
    then sign_extend 32 v
    else if type == uint
    then v % 2 ^ 32
    else if type == short
    then sign_extend 16 v
    else if type == ushort
    then v % 2 ^ 16
    else if type == char
    then sign_extend 8 v
    else if type == uchar
    then v % 2 ^ 8
    else v % 2 ^ 64

unfoldable pub pop_arg : ℕ → ℕ → List ℕ → Outcome (ℕ × List ℕ)
unfolding is_popped converted
pop_arg arg type [] =
    if ltb maxstate type
    then done (arg, [])
    else if is_popped type
    then undefined
    else done (arg, [])
pop_arg arg type (v ∷ ap) =
    if ltb maxstate type
    then done (arg, v ∷ ap)
    else if is_popped type
    then done (converted type v, ap)
    else done (arg, v ∷ ap)

-- The conversion of 64 bits to `int`.
unfoldable pub to_int : ℕ → ℤ
to_int v = if ltb (v % 2 ^ 32) (2 ^ 31) then pos (v % 2 ^ 32) else negsuc (2 ^ 32 - v % 2 ^ 32 - 1)

-- `va_arg(*ap, int)`
unfoldable pub pop_int : List ℕ → Outcome (ℤ × List ℕ)
unfolding to_int
pop_int [] = undefined
pop_int (v ∷ ap) = done (to_int v, ap)
