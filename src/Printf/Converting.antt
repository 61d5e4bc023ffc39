-- ===== src/Printf/Converting.antt =====
-- The conversions end, and their fields have at most one of the flags '-' and '0'.
use ocaml_solo.Prelude.{
  ℕ, ◌+◌, ◌-◌, ◌*◌, ◌/◌, ◌%◌, ◌^◌, ◌<◌, ◌≡◌, ◌⊎◌, ap, ◌∙◌, Bool, Bool-cases, true, false, inl, inr,
  ◌&&◌, ◌||◌, ◌==◌, ltb, if◌then◌else◌, bit_and, bit_or, bit_or_fields, bit_or-zero, bit_or-lt,
  high_bits, List, arith,
}
use ocaml_solo.Prelude.Int.{ℤ, pos, negsuc}
use ocaml_solo.Memory.{Memory, IsBytes}
use ocaml_solo.Search.{memchr_lem}
use ocaml_solo.Format.Radix.{fmt_x-Written, fmt_o-Written, fmt_u-Written}
use ocaml_solo.Format.Pad.{left_adj, zero_pad}
use ocaml_solo.Printf.Outcome.{Ensures, holds, open_, aborts, Ensures-if, Ensures-bind}
use ocaml_solo.Printf.Directive.{Directive, int_max, alt_form}
use ocaml_solo.Printf.Convert.{
  Field, has, clear_bit, exclusive, integer, buf_size, hexadecimal, octal, decimal, string, letter,
  conversion, pointer_precision, to_size,
}
use ocaml_solo.Printf.Flags.{left_bit, zero_bit, has-left, has-zero}

abbrev pub OneFlag : ℕ → Type 0
OneFlag fl = (left_bit fl ≡ 0) ⊎ (zero_bit fl ≡ 0)

pub once : (fl : ℕ) → OneFlag fl → (has fl left_adj && has fl zero_pad) ≡ false
once fl h = let a = has-left fl in let b = has-zero fl in ground arith

clear_bit-OneFlag : (fl : ℕ) → OneFlag (clear_bit 16 fl)
unfolding clear_bit
clear_bit-OneFlag fl = inr (ground arith)

exclusive-OneFlag : (fl : ℕ) → OneFlag (exclusive fl)
unfolding exclusive
exclusive-OneFlag fl = elim (Bool-cases (has fl left_adj)) [
  | inl left ↦ rw left (clear_bit-OneFlag fl)
  | inr right ↦ rw right (let h = has-left fl in inl (ground arith))
]

-- The flag '#' is another bit.
alternative-OneFlag : (fl : ℕ) → OneFlag fl → OneFlag (bit_or fl alt_form)
alternative-OneFlag fl h =
    let e : fl ≡ fl / 2 ^ 13 * 2 ^ 13 + fl % 2 ^ 13 = omega arith in
    let f = bit_or_fields 13 (fl / 2 ^ 13) (fl % 2 ^ 13) 0 8 (omega arith) (omega arith) in
    let low = bit_or-lt 13 (fl % 2 ^ 13) 8 (omega arith) (omega arith) in
    let whole : bit_or fl alt_form ≡ bit_or (fl / 2 ^ 13) 0 * 2 ^ 13 + bit_or (fl % 2 ^ 13) 8 =
      ap (λ t. bit_or t 8) e ∙ f in
    let same = bit_or-zero (fl / 2 ^ 13) in ground arith

integer-OneFlag :
    (w : ℕ) (p : ℤ) (fl arg : ℕ) (lead digits : List ℕ)
    → OneFlag fl
    → OneFlag (integer w p fl arg lead digits).fl
unfolding integer
integer-OneFlag w (pos p) fl arg lead digits h = clear_bit-OneFlag fl
integer-OneFlag w (negsuc p) fl arg lead digits h = h

abbrev pub Good : Field → Type 0
Good d = OneFlag d.fl

hexadecimal-Ensures :
    (w : ℕ) (p : ℤ) (fl t arg : ℕ)
    → OneFlag fl
    → arg < 2 ^ 64
    → Ensures true Good (hexadecimal w p fl t arg)
unfolding hexadecimal
hexadecimal-Ensures w p fl t arg h lt =
    let b = high_bits 1 5 t in
    let case_ : (bit_and t 32 ≡ 0) ⊎ (bit_and t 32 ≡ 32) = ground arith in
    let (q, count, m', e, few, w_) =
      fmt_x-Written arg buf_size (bit_and t 32) (λ a. 0) lt (omega arith) case_ in
    rw e (holds (integer-OneFlag w p fl arg _ _ h))

octal-Ensures :
    (w : ℕ) (p : ℤ) (fl arg : ℕ) → OneFlag fl → arg < 2 ^ 64 → Ensures true Good (octal w p fl arg)
unfolding octal
octal-Ensures w p fl arg h lt =
    let (q, count, m', e, few, w_) = fmt_o-Written arg buf_size (λ a. 0) lt (omega arith) in
    rw e (holds (integer-OneFlag w _ fl arg _ _ h))

decimal-Ensures :
    (signed : Bool) (w : ℕ) (p : ℤ) (fl arg : ℕ)
    → OneFlag fl
    → arg < 2 ^ 64
    → Ensures true Good (decimal signed w p fl arg)
unfolding decimal
decimal-Ensures signed w p fl arg h lt =
    let arg' = if signed && ltb (2 ^ 63 - 1) arg then (2 ^ 64 - arg) % 2 ^ 64 else arg in
    let lt' : arg' < 2 ^ 64 = ground arith in
    let (q, count, m', e, few, w_) = fmt_u-Written arg' buf_size (λ a. 0) lt' (omega arith) in
    rw e (holds (integer-OneFlag w p fl arg' _ _ h))

string-Ensures :
    (m : Memory) (w : ℕ) (p : ℤ) (fl arg : ℕ) → IsBytes m → Ensures true Good (string m w p fl arg)
unfolding string
string-Ensures m w p fl arg h =
    Ensures-bind {f = true} {P = λ (n : ℕ). Unit {0}}
      (Ensures-if (arg == 0) (λ e. holds tt)
        (λ e. rw (memchr_lem m arg (to_size p) 0 (to_size p + 1) h (omega arith)) (holds tt)))
      λ n t. Ensures-if (ltb int_max n) (λ e. open_) (λ e. holds (clear_bit-OneFlag fl))

-- Every conversion ends, and does not set both flags.
pub conversion-Ensures :
    (m : Memory) (d : Directive) → IsBytes m → d.arg < 2 ^ 64 → Ensures true Good (conversion m d)
unfolding conversion
conversion-Ensures m d h lt =
    let t = letter d.ps d.t in
    let fl = exclusive d.fl in
    let one = exclusive-OneFlag d.fl in
    Ensures-if (t == b'p')
      (λ e.
        hexadecimal-Ensures d.w (pointer_precision d.p) (bit_or fl alt_form) b'x' d.arg
          (alternative-OneFlag fl one) lt)
      λ e.
        Ensures-if (t == b'x' || t == b'X') (λ e. hexadecimal-Ensures d.w d.p fl t d.arg one lt)
          λ e.
            Ensures-if (t == b'o') (λ e. octal-Ensures d.w d.p fl d.arg one lt)
              λ e.
                Ensures-if (t == b'd' || t == b'i')
                  (λ e. decimal-Ensures true d.w d.p fl d.arg one lt)
                  λ e.
                    Ensures-if (t == b'u') (λ e. decimal-Ensures false d.w d.p fl d.arg one lt)
                      λ e.
                        Ensures-if (t == b'c') (λ e. holds (clear_bit-OneFlag fl))
                          λ e.
                            Ensures-if (t == b'm') (λ e. aborts)
                              λ e.
                                Ensures-if (t == b's') (λ e. string-Ensures m d.w d.p fl d.arg h)
                                  (λ e. open_)
