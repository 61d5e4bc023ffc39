-- ===== src/Bigint/Tests.antt =====
-- Runs of the arithmetic, on numbers of one and of two words.
use ocaml_solo.Prelude.{
  ltb, ℕ, ◌==◌, if◌then◌else◌, ◌%◌, ◌+◌, ◌*◌, ◌/◌, ◌^◌, ◌<◌, ◌≡◌, refl, List, [], ◌∷◌, arith, some,
}
use ocaml_solo.Prelude.Int.{negsuc}
use ocaml_solo.Bigint.{Bigint, balloc, IsValid}
use ocaml_solo.Bigint.Words.{length, value, zeros, trim}
use ocaml_solo.Bigint.Multadd.{multadd, multadd_loop, push}
use ocaml_solo.Bigint.Mult.{mult, InBlock, product, mult_row, mult_rows, mult-IsValid}
use ocaml_solo.Bigint.Compare.{cmp, Orders, cmp-Orders}
use ocaml_solo.Bigint.Diff.{diff, Distance, diff-Distance}
use ocaml_solo.Bigint.Shift.{lshift, lshift-IsValid}
use ocaml_solo.Bigint.Quorem.{quorem}
use ocaml_solo.Bigint.Quorem.Digit.{quorem_lem}
use ocaml_solo.Bigint.Pow5.{pow5mult, IsCache, pow5mult_lem}
use ocaml_solo.Bigint.Right.{rshift, rshift-value}
use ocaml_solo.Bigint.Right.Increment.{increment, increment-IsValid}
use ocaml_solo.Bigint.Double.{d2b}
use ocaml_solo.Bigint.Double.Bits.{IsParts, d2b-IsParts}
use ocaml_solo.Bigint.Fraction.{b2d}
use ocaml_solo.Bigint.Fraction.Value.{IsFraction, b2d-IsFraction}
use ocaml_solo.Bigint.Decimal.{s2b, number, digit_at, s2b-IsValid}
use ocaml_solo.Bigint.Sticky.{any_on, flag, any_on-flag}
use ocaml_solo.Bigint.Leading.{hi0bits, hi_step}
use ocaml_solo.Bigint.Trailing.{lo0bits, lo_step, low_scan}

abbrev big : Bigint
big = record { k = 1; maxwds = 2; sign = 0; x = 0xffffffff ∷ 0xffffffff ∷ [] }

abbrev small : Bigint
small = record { k = 0; maxwds = 1; sign = 0; x = 1000 ∷ [] }

big-IsValid : IsValid big
big-IsValid = record {
  space = refl;
  fits = omega arith;
  below = (omega arith, (omega arith, tt));
  trimmed = omega arith;
}

small-IsValid : IsValid small
small-IsValid = record { space = refl; fits = omega arith; below = (omega arith, tt); trimmed = tt }

multadd_run : (multadd big 10 7).x ≡ 0xfffffffd ∷ 0xffffffff ∷ 9 ∷ []
unfolding multadd multadd_loop push balloc
multadd_run = refl

mult_run : (mult small big).x ≡ 0xfffffc18 ∷ 0xffffffff ∷ 999 ∷ []
unfolding mult product mult_rows mult_row zeros trim balloc
mult_run = refl

cmp_run : cmp small big ≡ negsuc 0
unfolding cmp
cmp_run = refl

mult_example :
    IsValid (mult small big)
    × (value (mult small big).x ≡ value small.x * value big.x)
    × InBlock
        (if ltb (length small.x) (length big.x) then big else small)
        (length small.x + length big.x)
        (mult small big)
unfolding value
mult_example = mult-IsValid small big small-IsValid big-IsValid (omega arith) (omega arith)

cmp_example : Orders (cmp small big) (value small.x) (value big.x)
cmp_example = cmp-Orders small big small-IsValid big-IsValid

diff_example : Distance small big (diff small big)
diff_example = diff-Distance small big small-IsValid big-IsValid

lshift_example :
    (d : Bigint) × (lshift 10 small 70 ≡ some d) × IsValid d × (value d.x ≡ value small.x * 2 ^ 70)
unfolding value
lshift_example = lshift-IsValid 10 small 70 small-IsValid (omega arith) (omega arith)

rshift_example : value (rshift big 33).x ≡ value big.x / 2 ^ 33
rshift_example = rshift-value big 33 (omega arith, (omega arith, tt))

increment_example : IsValid (increment big) × (value (increment big).x ≡ value big.x + 1)
increment_example = increment-IsValid big big-IsValid

seven : Bigint
seven = record { k = 0; maxwds = 1; sign = 0; x = 7123 ∷ [] }

seven-IsValid : IsValid seven
unfolding seven
seven-IsValid = record { space = refl; fits = omega arith; below = (omega arith, tt); trimmed = tt }

quorem_example :
    let (q, d) = quorem seven small in
    (value seven.x ≡ q * value small.x + value d.x) × (value d.x < value small.x) × (q < 10)
unfolding value seven
quorem_example =
    quorem_lem seven small seven-IsValid small-IsValid (omega arith) (omega arith) (omega arith)
      (omega arith)

pow5mult_example :
    (d : Bigint) × (ps : List Bigint) × (pow5mult 6 small 23 [] ≡ some (d, ps))
    × IsValid d
    × (value d.x ≡ value small.x * 5 ^ 23)
    × IsCache ps
unfolding value
pow5mult_example = pow5mult_lem 6 small 23 [] small-IsValid (omega arith) tt (omega arith)

hi0bits_run : hi0bits 0x12345 ≡ 15
unfolding hi0bits hi_step
hi0bits_run = refl

lo0bits_run : lo0bits 0x12340000 ≡ (18, 0x48d)
unfolding lo0bits low_scan lo_step
lo0bits_run = refl

-- The double nearest to 3.14.
d2b_example : IsParts 0x40091eb8 0x51eb851f (d2b 0x40091eb8 0x51eb851f)
d2b_example = d2b-IsParts 0x40091eb8 0x51eb851f (omega arith) (omega arith) (omega arith)

b2d_example : IsFraction big (b2d big)
unfolding value
b2d_example = b2d-IsFraction big big-IsValid (omega arith)

-- The text 77.777777777.
abbrev sevens : ℕ → ℕ
sevens i = if i == 2 then b'.' else b'7'

s2b_example :
    (b : Bigint) × (s2b 31 sevens 2 11 777777777 1 ≡ some b)
    × IsValid b
    × (value b.x ≡ number (digit_at sevens 2 1) 11)
unfolding number
s2b_example =
    s2b-IsValid 31 sevens 2 11 777777777 1 (λ i lt. ground arith) refl (omega arith) (omega arith)
      (omega arith) (omega arith)

any_on_example : any_on big 33 ≡ flag (value big.x % 2 ^ 33)
any_on_example = any_on-flag big 33 (omega arith, (omega arith, tt))
