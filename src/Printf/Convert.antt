-- ===== src/Printf/Convert.antt =====
-- The switch over the conversion: what is to be put out, and the stores of `%n`.
use ocaml_solo.Prelude.{
  ℕ, zero, suc, ◌+◌, ◌-◌, ◌*◌, ◌/◌, ◌%◌, ◌^◌, Bool, true, false, not, ◌&&◌, ◌||◌, List, [], ◌∷◌,
  ltb, max, ◌==◌, if◌then◌else◌, Option, none, some, bit_and, bit_or,
}
use ocaml_solo.Prelude.Int.{ℤ, pos, negsuc}
use ocaml_solo.Prelude.Lists.{length}
use ocaml_solo.Memory.{Memory, store}
use ocaml_solo.Search.{memchr}
use ocaml_solo.Format.{fmt_x, fmt_o, fmt_u}
use ocaml_solo.Format.Pad.{left_adj, prefix}
use ocaml_solo.Printf.Outcome.{Outcome, done, undefined, aborted, or_spinning, ◌>>=◌}
use ocaml_solo.Printf.Table.{bare, lpre, llpre, hpre, hhpre, ztpre, jpre}
use ocaml_solo.Printf.Directive.{Directive, int_max, alt_form, mark_pos, pad_pos}

-- A field: the prefix of `pl` characters, and the characters from `a` to `z`.
pub record Field : Type 0 where
  pub fl : ℕ
  pub w : ℕ
  pub p : ℤ
  pub lead : List ℕ
  pub body : List ℕ

-- `n` bytes at `a`.
unfoldable pub text_at : Memory → ℕ → ℕ → List ℕ
text_at m a zero = []
text_at m a (suc n) = m a ∷ text_at m (a + 1) n

-- `fl &= ~(1U << k)`
unfoldable pub clear_bit : ℕ → ℕ → ℕ
clear_bit k fl = if fl / 2 ^ k % 2 == 0 then fl else fl - 2 ^ k

abbrev pub has : ℕ → ℕ → Bool
has fl flag = not (bit_and fl flag == 0)

-- `sizeof buf`, with the 64 bits that the significand of a long double has on x86_64.
abbrev pub buf_size : ℕ
buf_size = 8 * 3 + 3 + 64 / 4

-- The digits that a conversion has left in the buffer, from its first to the end.
abbrev pub digits_of : Option (ℕ × Memory) → Outcome (List ℕ)
digits_of r = or_spinning r >>= λ a. done (text_at a.1 a.0 (buf_size - a.0))

-- The lines behind the integer conversions. A precision that is given switches the flag '0' off.
unfoldable pub integer : ℕ → ℤ → ℕ → ℕ → List ℕ → List ℕ → Field
unfolding clear_bit
integer w (pos p) fl arg lead digits = record {
  fl = clear_bit 16 fl;
  w = w;
  p = pos (if arg == 0 && p == 0 then p else max p (length digits + (if arg == 0 then 1 else 0)));
  lead = lead;
  body = if arg == 0 && p == 0 then [] else digits;
}
integer w (negsuc p) fl arg lead digits = record {
  fl = fl;
  w = w;
  p = pos (length digits + (if arg == 0 then 1 else 0));
  lead = lead;
  body = digits;
}

-- `p < z - a + 1`, for the leading 0 that '#' asks of `%o`.
unfoldable pub octal_precision : ℕ → ℤ → ℕ → ℤ
octal_precision fl (pos p) n = if has fl alt_form && ltb p (n + 1) then pos (n + 1) else pos p
octal_precision fl (negsuc p) n = if has fl alt_form then pos (n + 1) else negsuc p

-- The sign, or what stands for it.
unfoldable pub sign : ℕ → ℕ → List ℕ
sign fl arg =
    if ltb (2 ^ 63 - 1) arg
    then b'-' ∷ []
    else if has fl mark_pos
    then b'+' ∷ []
    else if has fl pad_pos
    then b' ' ∷ []
    else []

-- `MAX(p, 2*sizeof(void*))`, which compares as size_t: a negative `p` is the larger one.
unfoldable pub pointer_precision : ℤ → ℤ
pointer_precision (pos p) = pos (max p 16)
pointer_precision (negsuc p) = negsuc p

-- `%x` and `%X`; `t` is the letter.
unfoldable pub hexadecimal : ℕ → ℤ → ℕ → ℕ → ℕ → Outcome Field
unfolding integer fmt_x text_at
hexadecimal w p fl t arg = do
  digits ← digits_of (fmt_x 17 arg buf_size (bit_and t 32) (λ a. 0))
  done (integer w p fl arg (if not (arg == 0) && has fl alt_form then b'0' ∷ t ∷ [] else []) digits)

unfoldable pub octal : ℕ → ℤ → ℕ → ℕ → Outcome Field
unfolding integer octal_precision fmt_o text_at
octal w p fl arg = do
  digits ← digits_of (fmt_o 23 arg buf_size (λ a. 0))
  done (integer w (octal_precision fl p (length digits)) fl arg [] digits)

-- `%d` and `%i`, with the two's complement of a negative number, and `%u`.
unfoldable pub decimal : Bool → ℕ → ℤ → ℕ → ℕ → Outcome Field
unfolding integer sign fmt_u text_at
decimal signed w p fl arg = do
  let arg' = if signed && ltb (2 ^ 63 - 1) arg then (2 ^ 64 - arg) % 2 ^ 64 else arg
  digits ← digits_of (fmt_u 21 arg' buf_size (λ a. 0))
  done (integer w p fl arg' (if signed then sign fl arg else []) digits)

-- `"(null)"`
abbrev pub null_text : List ℕ
null_text = b'(' ∷ b'n' ∷ b'u' ∷ b'l' ∷ b'l' ∷ b')' ∷ []

-- The argument of `memchr` that the conversion of `p` to size_t gives.
abbrev pub to_size : ℤ → ℕ
to_size (pos p) = p
to_size (negsuc p) = 2 ^ 64 - 1 - p

-- How many characters of `a` a string conversion takes.
unfoldable pub taken : ℕ → ℕ → Option ℕ → ℕ
taken a n none = n
taken a n (some z) = z - a

-- `%s`. A string of more than INT_MAX characters leaves the range of `p`.
unfoldable pub string : Memory → ℕ → ℤ → ℕ → ℕ → Outcome Field
unfolding memchr taken clear_bit text_at prefix
string m w p fl arg = do
  let size = to_size p
  n ←
      if arg == 0
      then done (if ltb 6 size then 6 else size)
      else or_spinning (memchr (size + 1) m arg 0 size) >>= λ z. done (taken arg size z)
  if ltb int_max n
      then undefined
      else done (record {
        fl = clear_bit 16 fl;
        w = w;
        p = pos n;
        lead = [];
        body = if arg == 0 then prefix n null_text else text_at m arg n;
      })

-- `%c`
unfoldable pub character : ℕ → ℕ → ℕ → Field
unfolding clear_bit
character w fl arg = record {
  fl = clear_bit 16 fl;
  w = w;
  p = pos 1;
  lead = [];
  body = arg % 256 ∷ [];
}

-- The count as `int`, -1 for `none`, in 64 bits.
abbrev pub count_bits : Option ℕ → ℕ
count_bits none = 2 ^ 64 - 1
count_bits (some n) = n

-- `%n`: the store of the count, in the size that the prefix names.
unfoldable pub store_count : Memory → Option ℕ → ℕ → ℕ → Memory
unfolding store
store_count m cnt ps p =
    if ps == bare
    then store m p 4 (count_bits cnt)
    else if ps == lpre || ps == llpre || ps == ztpre || ps == jpre
    then store m p 8 (count_bits cnt)
    else if ps == hpre
    then store m p 2 (count_bits cnt)
    else if ps == hhpre
    then store m p 1 (count_bits cnt)
    else m

-- `%ls` and `%lc` are taken for `%S` and `%C`.
unfoldable pub letter : ℕ → ℕ → ℕ
letter ps t = if not (ps == bare) && bit_and t 15 == 3 && has t 32 then t - 32 else t

-- '-' switches '0' off.
unfoldable pub exclusive : ℕ → ℕ
unfolding clear_bit
exclusive fl = if has fl left_adj then clear_bit 16 fl else fl

-- The conversions that have a field. `%m` calls strerror, a stub that aborts. `%C` and `%S` have no
-- case: `a` and `z` then point into the format and behind the buffer.
unfoldable pub conversion : Memory → Directive → Outcome Field
unfolding hexadecimal octal decimal string character pointer_precision letter exclusive
conversion m d =
    let t = letter d.ps d.t in
    let fl = exclusive d.fl in
    if t == b'p'
    then hexadecimal d.w (pointer_precision d.p) (bit_or fl alt_form) b'x' d.arg
    else if t == b'x' || t == b'X'
    then hexadecimal d.w d.p fl t d.arg
    else if t == b'o'
    then octal d.w d.p fl d.arg
    else if t == b'd' || t == b'i'
    then decimal true d.w d.p fl d.arg
    else if t == b'u'
    then decimal false d.w d.p fl d.arg
    else if t == b'c'
    then done (character d.w fl d.arg)
    else if t == b'm'
    then aborted
    else if t == b's'
    then string m d.w d.p fl d.arg
    else undefined
