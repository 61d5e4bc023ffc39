-- ===== src/Printf/Shown.antt =====
-- What a plain directive prints of its argument.
use ocaml_solo.Prelude.{
  ℕ, zero, suc, ◌+◌, ◌-◌, ◌%◌, ◌^◌, ◌≤◌, ◌<◌, ◌≡◌, ◌≢◌, ◌⊎◌, refl, ap, ◌∙◌, inl, inr, Bool-cases,
  true, false, not, Option, some, ◌&&◌, List, [], ◌∷◌, ◌++◌, ltb, ◌==◌, max, bit_and, arith,
}
use ocaml_solo.Prelude.Int.{ℤ, pos, negsuc}
use ocaml_solo.Prelude.Lists.{length}
use ocaml_solo.Memory.{Memory, IsBytes, span_of, span_of-advance, span_of_stopped}
use ocaml_solo.Length.{IsString}
use ocaml_solo.Search.{memchr_lem}
use ocaml_solo.Format.{fmt_x, fmt_o, fmt_u, fmt_u_wide, fmt_u_long}
use ocaml_solo.Format.Digits.{Written}
use ocaml_solo.Printf.Table.{int, char, ptr}
use ocaml_solo.Format.Pad.{repeat}
use ocaml_solo.Format.Radix.{
  hex_value, first_letter, dec_value, fmt_x-Written, fmt_o-Written, fmt_u-Written,
}
use ocaml_solo.Printf.Outcome.{Outcome, done}
use ocaml_solo.Printf.Argument.{converted, to_int}
use ocaml_solo.Printf.Directive.{int_max}
use ocaml_solo.Printf.Convert.{
  Field, text_at, digits_of, buf_size, integer, hexadecimal, octal, decimal, string, character,
  conversion, null_text,
}
use ocaml_solo.Printf.Field.{layout, layout-laid}
use ocaml_solo.Printf.Literal.{length-text_at}
use ocaml_solo.Printf.Plain.{Letter, d, i, o, u, x, big_x, c, s, type_of, plain}
use ocaml_solo.Printf.Numeral.{Numeral, value, digits-Numeral, layout-integer, layout_zero}

abbrev pub Signed : ℤ → List ℕ → Type 0
Signed (pos n) t = Numeral 10 dec_value n t
Signed (negsuc n) t = (r : List ℕ) × (t ≡ b'-' ∷ r) × Numeral 10 dec_value (suc n) r

-- The string at the address, or the text for NULL.
abbrev pub StringText : Memory → ℕ → List ℕ → Type 0
StringText m a t =
    (a ≡ 0) × (t ≡ null_text) ⊎ (a ≢ 0) × ((n : ℕ) × IsString m a n × (t ≡ text_at m a n))

-- The text for the 64 bits `v` that hold an argument.
abbrev pub Shown : Memory → Letter → ℕ → List ℕ → Type 0
Shown m d v t = Signed (to_int v) t
Shown m i v t = Signed (to_int v) t
Shown m o v t = Numeral 8 dec_value (v % 2 ^ 32) t
Shown m u v t = Numeral 10 dec_value (v % 2 ^ 32) t
Shown m x v t = Numeral 16 (hex_value b'a') (v % 2 ^ 32) t
Shown m big_x v t = Numeral 16 (hex_value b'A') (v % 2 ^ 32) t
Shown m c v t = t ≡ v % 256 ∷ []
Shown m s v t = StringText m (v % 2 ^ 64) t

-- A string needs a NUL, and fits an `int`.
abbrev pub Suits : Memory → Letter → ℕ → Type 0
Suits m s v =
    (v % 2 ^ 64 ≡ 0) ⊎ (v % 2 ^ 64 ≢ 0) × ((n : ℕ) × IsString m (v % 2 ^ 64) n × (n ≤ int_max))
Suits m other v = Unit {0}

-- A field of which the text has the property.
abbrev Fielded : Outcome Field → (List ℕ → Type 0) → Type 0
Fielded r P = (field : Field) × (r ≡ done field) × P (layout field)

-- A loop over the digits of `n` has ended, and the field of its digits shows them behind `lead`.
record Digits (b : ℕ) (worth : ℕ → ℕ) (n : ℕ) (r : Option (ℕ × Memory)) : Type 0 where
  digits : List ℕ
  ends : digits_of r ≡ done digits
  text : List ℕ
  shown : (lead : List ℕ) → layout (integer 0 (negsuc 0) 0 n lead digits) ≡ lead ++ text
  numeral : Numeral b worth n text

zero-Digits :
    (b : ℕ) (worth : ℕ → ℕ) (m : Memory)
    → 0 < b
    → worth b'0' ≡ 0
    → Digits b worth 0 (some (buf_size, m))
unfolding text_at value
zero-Digits b worth m base z = record {
  digits = [];
  ends = refl;
  text = b'0' ∷ [];
  shown = layout_zero;
  numeral = record {
    stands = omega (arith, z);
    digits = (omega arith, tt);
    first = inl (refl, refl);
  };
}

positive-Digits :
    (b : ℕ) (worth : ℕ → ℕ) (n : ℕ) {r : Option (ℕ × Memory)} {m m' : Memory} {p count : ℕ}
    → 0 < n
    → r ≡ some (p, m')
    → Written b worth n buf_size m m' p count
    → Digits b worth n r
positive-Digits b worth n h e w =
    let (digits, ends, some_, numeral) = digits-Numeral b worth n h w in
    record {
      digits = digits;
      ends = ap digits_of e ∙ ends;
      text = digits;
      shown = λ lead. layout-integer n lead digits h;
      numeral = numeral;
    }

fmt_u-Digits : (n : ℕ) → n < 2 ^ 64 → Digits 10 dec_value n (fmt_u 21 n buf_size (λ a. 0))
unfolding fmt_u fmt_u_wide fmt_u_long dec_value
fmt_u-Digits zero lt = zero-Digits 10 dec_value (λ a. 0) (omega arith) refl
fmt_u-Digits (suc n) lt =
    let (q, count, m', e, few, w) = fmt_u-Written (suc n) buf_size (λ a. 0) lt (omega arith) in
    positive-Digits 10 dec_value (suc n) (omega arith) e w

fmt_o-Digits : (n : ℕ) → n < 2 ^ 64 → Digits 8 dec_value n (fmt_o 23 n buf_size (λ a. 0))
unfolding fmt_o dec_value
fmt_o-Digits zero lt = zero-Digits 8 dec_value (λ a. 0) (omega arith) refl
fmt_o-Digits (suc n) lt =
    let (q, count, m', e, few, w) = fmt_o-Written (suc n) buf_size (λ a. 0) lt (omega arith) in
    positive-Digits 8 dec_value (suc n) (omega arith) e w

fmt_x-Digits :
    (n lower : ℕ)
    → (lower ≡ 0) ⊎ (lower ≡ 32)
    → n < 2 ^ 64
    → Digits 16 (hex_value (first_letter lower)) n (fmt_x 17 n buf_size lower (λ a. 0))
unfolding fmt_x hex_value
fmt_x-Digits zero lower case_ lt =
    zero-Digits 16 (hex_value (first_letter lower)) (λ a. 0) (omega arith) refl
fmt_x-Digits (suc n) lower case_ lt =
    let (q, count, m', e, few, w) =
      fmt_x-Written (suc n) buf_size lower (λ a. 0) lt (omega arith) case_ in
    positive-Digits 16 (hex_value (first_letter lower)) (suc n) (omega arith) e w

hexadecimal-Numeral :
    (l n : ℕ)
    → (bit_and l 32 ≡ 0) ⊎ (bit_and l 32 ≡ 32)
    → n < 2 ^ 64
    → Fielded
        (hexadecimal 0 (negsuc 0) 0 l n)
        (Numeral 16 (hex_value (first_letter (bit_and l 32))) n)
unfolding hexadecimal
hexadecimal-Numeral l n case_ lt =
    let t = fmt_x-Digits n (bit_and l 32) case_ lt in
    let off : (not (n == 0) && false) ≡ false = ground arith in
    (integer 0 (negsuc 0) 0 n [] t.digits, rw (t.ends, off) refl, rw (t.shown []) (t.numeral))

octal-Numeral : (n : ℕ) → n < 2 ^ 64 → Fielded (octal 0 (negsuc 0) 0 n) (Numeral 8 dec_value n)
unfolding octal
octal-Numeral n lt =
    let t = fmt_o-Digits n lt in
    (integer 0 (negsuc 0) 0 n [] t.digits, rw (t.ends) refl, rw (t.shown []) (t.numeral))

unsigned-Numeral :
    (n : ℕ) → n < 2 ^ 64 → Fielded (decimal false 0 (negsuc 0) 0 n) (Numeral 10 dec_value n)
unfolding decimal
unsigned-Numeral n lt =
    let t = fmt_u-Digits n lt in
    (integer 0 (negsuc 0) 0 n [] t.digits, rw (t.ends) refl, rw (t.shown []) (t.numeral))

to_int-Signed :
    (v : ℕ) → Fielded (decimal true 0 (negsuc 0) 0 (converted int v)) (Signed (to_int v))
unfolding decimal converted to_int
to_int-Signed v = elim (Bool-cases (ltb (v % 2 ^ 32) (2 ^ 31))) [
  | inl less ↦
      let t = fmt_u-Digits (v % 2 ^ 32) (omega arith) in
      let plus : ltb (2 ^ 63 - 1) (v % 2 ^ 32) ≡ false = ground arith in
      rw (less, plus)
        (
          integer 0 (negsuc 0) 0 (v % 2 ^ 32) [] t.digits,
          rw (t.ends) refl,
          rw (t.shown []) (t.numeral),
        )
  | inr minus ↦
      let n = 2 ^ 32 - v % 2 ^ 32 in
      let t = fmt_u-Digits n (omega arith) in
      let big : ltb (2 ^ 63 - 1) (v % 2 ^ 32 + 2 ^ 64 - 2 ^ 32) ≡ true = ground arith in
      let e : (2 ^ 64 - (v % 2 ^ 32 + 2 ^ 64 - 2 ^ 32)) % 2 ^ 64 ≡ n = ground arith in
      let e' : suc (2 ^ 32 - v % 2 ^ 32 - 1) ≡ n = ground arith in
      rw (minus, big, e, e')
        (
          integer 0 (negsuc 0) 0 n (b'-' ∷ []) t.digits,
          rw (t.ends) refl,
          (t.text, t.shown (b'-' ∷ []), t.numeral),
        )
]

body_layout :
    (n : ℕ) (body : List ℕ)
    → length body ≡ n
    → layout (record { fl = 0; w = 0; p = pos n; lead = []; body = body }) ≡ body
unfolding repeat
body_layout n body e =
    let same : max n n ≡ n = omega arith in
    let none_ : n - n ≡ 0 = omega arith in
    let gap : 0 - (0 + n) ≡ 0 = omega arith in
    layout-laid (record { fl = 0; w = 0; p = pos n; lead = []; body = body })
    ∙ rw (e, same, none_, gap) refl

character-Shown : (m : Memory) (v : ℕ) → Shown m c v (layout (character 0 0 (converted char v)))
unfolding character converted repeat
character-Shown m v = ap (λ b. b ∷ []) (ground arith)

string_length :
    (m : Memory) (a n : ℕ)
    → IsString m a n
    → n < 2 ^ 64 - 1
    → span_of (λ b. b == 0 % 256) m a (2 ^ 64 - 1) ≡ n
string_length m a n str lt =
    span_of-advance (λ b. b == 0) m n a (2 ^ 64 - 1) (omega arith)
      (λ j less. let z = str.1 j less in ground arith)
    ∙ ap (λ k. n + k)
        (span_of_stopped (λ b. b == 0) m (a + n) (2 ^ 64 - 1 - n) (let z = str.0 in ground arith))
    ∙ omega arith

string-Shown :
    (m : Memory) (v : ℕ)
    → IsBytes m
    → Suits m s v
    → Fielded (string m 0 (negsuc 0) 0 (converted ptr v)) (Shown m s v)
unfolding string converted
string-Shown m v h (inl nul) = (
  record { fl = 0; w = 0; p = pos 6; lead = []; body = null_text },
  rw nul refl,
  inl (nul, body_layout 6 null_text refl),
)
string-Shown m v h (inr (ne, (n, str, le))) =
    let a = v % 2 ^ 64 in
    let some_ : (a == 0) ≡ false = ground arith in
    let within : ltb n (2 ^ 64 - 1) ≡ true = ground arith in
    let count : a + n - a ≡ n = omega arith in
    let fits : ltb int_max n ≡ false = ground arith in
    (
      record { fl = 0; w = 0; p = pos n; lead = []; body = text_at m a n },
      rw
          (
            some_,
            memchr_lem m a (2 ^ 64 - 1) 0 (2 ^ 64) h (omega arith),
            string_length m a n str (omega arith),
            within,
            count,
            fits,
          )
          refl,
      inr (ne, (n, str, body_layout n (text_at m a n) (length-text_at m a n))),
    )

-- Every plain directive prints what its letter says.
pub conversion-Shown :
    (m : Memory) (l : Letter) (v : ℕ)
    → IsBytes m
    → Suits m l v
    → Fielded (conversion m (plain l (converted (type_of l) v))) (Shown m l v)
unfolding conversion
conversion-Shown m d v h suits = to_int-Signed v
conversion-Shown m i v h suits = to_int-Signed v
conversion-Shown m o v h suits = unfold converted in octal-Numeral (v % 2 ^ 32) (omega arith)
conversion-Shown m u v h suits = unfold converted in unsigned-Numeral (v % 2 ^ 32) (omega arith)
conversion-Shown m x v h suits =
    unfold converted in hexadecimal-Numeral b'x' (v % 2 ^ 32) (inr refl) (omega arith)
conversion-Shown m big_x v h suits =
    unfold converted in hexadecimal-Numeral b'X' (v % 2 ^ 32) (inl refl) (omega arith)
conversion-Shown m c v h suits = (character 0 0 (converted char v), refl, character-Shown m v)
conversion-Shown m s v h suits = string-Shown m v h suits
