-- ===== src/Printf/Flags.antt =====
-- The two flags of a field that choose the padding, as bits of the word of flags.
use ocaml_solo.Prelude.{
  ℕ, ◌+◌, ◌-◌, ◌*◌, ◌/◌, ◌%◌, ◌^◌, ◌<◌, ◌≡◌, refl, ap, ap₂, ◌∙◌, true, not, ◌&&◌, ◌==◌, bit_and,
  bit_xor, bit_and_fields, bit_xor_fields, bit_xor-lt, bit_and-zero, high_bits, below_all,
  below_all_at, ==_iff, arith,
}
use ocaml_solo.Format.Pad.{left_adj, zero_pad}
use ocaml_solo.Printf.Convert.{has}

-- The low four bits of an operation with a constant below 16.
low_and : (y c : ℕ) → c < 16 → bit_and y c ≡ bit_and (y % 16) c
low_and y c h =
    let e : y ≡ y / 16 * 2 ^ 4 + y % 16 = omega arith in
    let e' : c ≡ 0 * 2 ^ 4 + c = omega arith in
    ap₂ bit_and e e'
    ∙ bit_and_fields 4 (y / 16) (y % 16) 0 c (omega arith) (omega arith)
    ∙ omega (arith, bit_and-zero (y / 16))

low_xor : (y c : ℕ) → c < 16 → bit_xor y c % 16 ≡ bit_xor (y % 16) c
low_xor y c h =
    let e : y ≡ y / 16 * 2 ^ 4 + y % 16 = omega arith in
    let e' : c ≡ 0 * 2 ^ 4 + c = omega arith in
    let small = bit_xor-lt 4 (y % 16) c (omega arith) (omega arith) in
    let whole : bit_xor y c ≡ bit_xor (y / 16) 0 * 2 ^ 4 + bit_xor (y % 16) c =
      ap₂ bit_xor e e' ∙ bit_xor_fields 4 (y / 16) (y % 16) 0 c (omega arith) (omega arith) in
    omega arith

nine_table : below_all (λ i. bit_and i 9 == i % 2 + i / 8 * 8) 16 ≡ true
unfolding below_all
nine_table = refl

flip_table :
    below_all
      (λ i. (bit_xor i 1 == i - i % 2 + (1 - i % 2)) && (bit_xor i 8 == i % 8 + (1 - i / 8) * 8))
      16
    ≡ true
unfolding below_all
flip_table = refl

-- Bit 0 and bit 3.
nine : (y : ℕ) → bit_and y 9 ≡ y % 2 + y / 8 % 2 * 8
nine y =
    let t =
      (==_iff _ _).0 (
        below_all_at (λ i. bit_and i 9 == i % 2 + i / 8 * 8) 16 (y % 16) nine_table
          (omega arith)) in
    low_and y 9 (omega arith) ∙ t ∙ omega arith

flips :
    (y : ℕ)
    → (bit_xor y 1 % 16 ≡ y % 16 - y % 2 + (1 - y % 2))
      × (bit_xor y 8 % 16 ≡ y % 8 + (1 - y / 8 % 2) * 8)
flips y =
    let t =
      below_all_at
        (λ i. (bit_xor i 1 == i - i % 2 + (1 - i % 2)) && (bit_xor i 8 == i % 8 + (1 - i / 8) * 8))
        16 (y % 16) flip_table (omega arith) in
    let a = low_xor y 1 (omega arith) in
    let b = low_xor y 8 (omega arith) in (ground arith, ground arith)

-- The bits 13 and up of the results.
above_13 : (x c : ℕ) → bit_xor x (c * 2 ^ 13) / 2 ^ 13 ≡ bit_xor (x / 2 ^ 13) c
above_13 x c =
    let e : x ≡ x / 2 ^ 13 * 2 ^ 13 + x % 2 ^ 13 = omega arith in
    let e' : c * 2 ^ 13 ≡ c * 2 ^ 13 + 0 = omega arith in
    let small = bit_xor-lt 13 (x % 2 ^ 13) 0 (omega arith) (omega arith) in
    let f = bit_xor_fields 13 (x / 2 ^ 13) (x % 2 ^ 13) c 0 (omega arith) (omega arith) in
    let whole : bit_xor x (c * 2 ^ 13) ≡ bit_xor (x / 2 ^ 13) c * 2 ^ 13 + bit_xor (x % 2 ^ 13) 0 =
      ap (λ t. bit_xor x t) e' ∙ ap (λ t. bit_xor t (c * 2 ^ 13 + 0)) e ∙ f in
    omega arith

abbrev pub left_bit : ℕ → ℕ
left_bit fl = fl / 2 ^ 13 % 2

abbrev pub zero_bit : ℕ → ℕ
zero_bit fl = fl / 2 ^ 16 % 2

-- Neither flag is set.
pub plain_lem :
    (fl : ℕ) → (bit_and fl (left_adj + zero_pad) == 0) ≡ (left_bit fl == 0 && zero_bit fl == 0)
plain_lem fl =
    let e : fl ≡ fl / 2 ^ 13 * 2 ^ 13 + fl % 2 ^ 13 = omega arith in
    let f : bit_and fl (9 * 2 ^ 13 + 0)
        ≡ bit_and (fl / 2 ^ 13) 9 * 2 ^ 13 + bit_and (fl % 2 ^ 13) 0 =
      ap (λ t. bit_and t (9 * 2 ^ 13 + 0)) e
      ∙ bit_and_fields 13 (fl / 2 ^ 13) (fl % 2 ^ 13) 9 0 (omega arith) (omega arith) in
    let n = nine (fl / 2 ^ 13) in let z = bit_and-zero (fl % 2 ^ 13) in ground arith

pub has-left : (fl : ℕ) → has fl left_adj ≡ not (left_bit fl == 0)
has-left fl = let h = high_bits 1 13 fl in ground arith

pub has-zero : (fl : ℕ) → has fl zero_pad ≡ not (zero_bit fl == 0)
has-zero fl = let h = high_bits 1 16 fl in ground arith

-- The xor with a flag turns it, and leaves the other.
pub flip_zero :
    (fl : ℕ)
    → (left_bit (bit_xor fl zero_pad) ≡ left_bit fl)
      × (zero_bit (bit_xor fl zero_pad) ≡ 1 - zero_bit fl)
flip_zero fl =
    let a = above_13 fl 8 in let b = (flips (fl / 2 ^ 13)).1 in (omega arith, omega arith)

pub flip_left :
    (fl : ℕ)
    → (left_bit (bit_xor fl left_adj) ≡ 1 - left_bit fl)
      × (zero_bit (bit_xor fl left_adj) ≡ zero_bit fl)
flip_left fl =
    let a = above_13 fl 1 in let b = (flips (fl / 2 ^ 13)).0 in (omega arith, omega arith)
