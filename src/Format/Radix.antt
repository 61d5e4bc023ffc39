-- ===== src/Format/Radix.antt =====
-- `fmt_x`, `fmt_o` and `fmt_u` against the digits that they write.
use ocaml_solo.Prelude.{
  ℕ, ◌+◌, ◌-◌, ◌^◌, ◌≤◌, ◌<◌, ◌≡◌, ◌⊎◌, inl, inr, refl, some, leb, ltb, ◌&&◌, ◌==◌, if◌then◌else◌,
  arith, bit_or, bit_and_mask, below_all, below_all_at, ==_iff,
}
use ocaml_solo.Memory.{Memory}
use ocaml_solo.Format.{xdigits, fmt_x, fmt_o, fmt_u_wide, fmt_u_long, fmt_u}
use ocaml_solo.Format.Digits.{Written, loop-Written}

-- What a hexadecimal digit is worth, with the letters from `a` on; a byte that is none is worth 16.
unfoldable pub hex_value : ℕ → ℕ → ℕ
hex_value a c =
    if leb b'0' c && leb c b'9'
    then c - b'0'
    else if leb a c && ltb c (a + 6)
    then c - a + 10
    else 16

-- What a decimal digit is worth; a byte that is none is worth 10.
unfoldable pub dec_value : ℕ → ℕ
dec_value c = if leb b'0' c && leb c b'9' then c - b'0' else 10

-- The first letter of a case.
abbrev pub first_letter : ℕ → ℕ
first_letter lower = if lower == 0 then b'A' else b'a'

dec_digit : (d : ℕ) → d < 10 → dec_value (b'0' + d) ≡ d
unfolding dec_value
dec_digit d lt = ground arith

hex_digit :
    (lower d : ℕ)
    → (lower ≡ 0) ⊎ (lower ≡ 32)
    → d < 16
    → hex_value (first_letter lower) (bit_or (xdigits d) lower) ≡ d
unfolding below_all hex_value xdigits
hex_digit lower d (inl upper_) lt =
    rw upper_
      ((==_iff _ d).0 (below_all_at (λ i. hex_value b'A' (bit_or (xdigits i) 0) == i) 16 d refl lt))
hex_digit lower d (inr lower_) lt =
    rw lower_ (
      (==_iff _ d).0 (below_all_at (λ i. hex_value b'a' (bit_or (xdigits i) 32) == i) 16 d refl lt))

-- `fmt_x` of a 64-bit `x` writes at most 16 digits before `s`, upper-case for `lower` 0 and
-- lower-case for 32, that read back as `x` in base 16, the first of them not zero, and leaves every
-- other byte alone; 17 rounds are enough.
pub fmt_x-Written :
    (x s lower : ℕ) (m : Memory)
    → x < 2 ^ 64
    → 16 ≤ s
    → (lower ≡ 0) ⊎ (lower ≡ 32)
    → (p : ℕ) × (count : ℕ) × (m' : Memory) × (fmt_x 17 x s lower m ≡ some (p, m'))
      × (count ≤ 16)
      × Written 16 (hex_value (first_letter lower)) x s m m' p count
unfolding fmt_x
fmt_x-Written x s lower m lt room case_ =
    loop-Written 16 (λ d. bit_or (xdigits d) lower) (hex_value (first_letter lower)) (omega arith)
      (λ d small. hex_digit lower d case_ small) (λ fuel x s m. fmt_x fuel x s lower m)
      (λ fuel s m. refl) (λ fuel x s m some_. rw (bit_and_mask 4 x) (ground arith)) 16 x s m lt room

-- `fmt_o` of a 64-bit `x` writes at most 22 digits before `s` that read back as `x` in base 8, the
-- first of them not zero, and leaves every other byte alone; 23 rounds are enough.
pub fmt_o-Written :
    (x s : ℕ) (m : Memory)
    → x < 2 ^ 64
    → 22 ≤ s
    → (p : ℕ) × (count : ℕ) × (m' : Memory) × (fmt_o 23 x s m ≡ some (p, m'))
      × (count ≤ 22)
      × Written 8 dec_value x s m m' p count
unfolding fmt_o
fmt_o-Written x s m lt room =
    loop-Written 8 (λ d. b'0' + d) dec_value (omega arith) (λ d small. dec_digit d (omega arith))
      fmt_o (λ fuel s m. refl) (λ fuel x s m some_. rw (bit_and_mask 3 x) (ground arith)) 22 x s m
      (omega arith) room

-- `fmt_u` of a 64-bit `x` writes at most 20 digits before `s` that read back as `x` in base 10, the
-- first of them not zero, and leaves every other byte alone; 21 rounds are enough.
pub fmt_u-Written :
    (x s : ℕ) (m : Memory)
    → x < 2 ^ 64
    → 20 ≤ s
    → (p : ℕ) × (count : ℕ) × (m' : Memory) × (fmt_u 21 x s m ≡ some (p, m'))
      × (count ≤ 20)
      × Written 10 dec_value x s m m' p count
unfolding fmt_u fmt_u_wide fmt_u_long
fmt_u-Written x s m lt room =
    let narrow : fmt_u_wide 21 x s m ≡ some (x, s, m) = ground arith in
    rw narrow (
      loop-Written 10 (λ d. b'0' + d) dec_value (omega arith) (λ d small. dec_digit d small)
        fmt_u_long (λ fuel s m. refl) (λ fuel x s m some_. ground arith) 20 x s m (omega arith)
        room)
