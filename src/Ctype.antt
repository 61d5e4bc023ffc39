-- ===== src/Ctype.antt =====
-- nolibc/ctype.c. The argument is the bit pattern of the `int`, which the code converts to unsigned.
pub mod Tests
use ocaml_solo.Prelude.{
  ℕ, ◌+◌, ◌-◌, ◌*◌, ◌/◌, ◌%◌, ◌^◌, ◌≤◌, ◌<◌, ◌≡◌, ◌⊎◌, ◌↔◌, inl, inr, refl, sym, ap, ◌∙◌, Bool,
  true, ◌||◌, arith, ltb, ◌==◌, bit_or, bit_or_fields, bit_or-zero, below_all, below_all_at, ==_iff,
}

unfoldable pub isalpha : ℕ → Bool
isalpha c = ltb ((bit_or c 32 + 2 ^ 32 - b'a') % 2 ^ 32) 26

unfoldable pub isdigit : ℕ → Bool
isdigit c = ltb ((c + 2 ^ 32 - b'0') % 2 ^ 32) 10

unfoldable pub isprint : ℕ → Bool
isprint c = ltb ((c + 2 ^ 32 - 0x20) % 2 ^ 32) 0x5f

unfoldable pub isspace : ℕ → Bool
isspace c = c == 32 || ltb ((c + 2 ^ 32 - 9) % 2 ^ 32) 5

unfoldable pub isupper : ℕ → Bool
isupper c = ltb ((c + 2 ^ 32 - b'A') % 2 ^ 32) 26

-- Setting bit 5.
low_table : below_all (λ r. bit_or r 32 == 32 + r % 32) 64 ≡ true
unfolding below_all
low_table = refl

pub bit_or_32 : (c : ℕ) → bit_or c 32 ≡ c / 64 * 64 + 32 + c % 32
bit_or_32 c =
    let e : c ≡ c / 64 * 2 ^ 6 + c % 64 = omega arith in
    let f : bit_or (c / 64 * 2 ^ 6 + c % 64) (0 * 2 ^ 6 + 32)
        ≡ bit_or (c / 64) 0 * 2 ^ 6 + bit_or (c % 64) 32 =
      bit_or_fields 6 (c / 64) (c % 64) 0 32 (omega arith) (omega arith) in
    let low = (==_iff _ _).0 (below_all_at _ 64 (c % 64) low_table (omega arith)) in
    ap (λ (t : ℕ). bit_or t 32) e ∙ f ∙ omega (arith, low, bit_or-zero (c / 64))

-- Each test holds exactly for the ASCII characters of its class, at every value of an `int`: the
-- unsigned difference wraps above the class for smaller characters and for negative values.
pub classes_iff :
    (c : ℕ)
    → c < 2 ^ 32
    → ((isdigit c ≡ true) ↔ ((b'0' ≤ c) × (c ≤ b'9')))
      × ((isupper c ≡ true) ↔ ((b'A' ≤ c) × (c ≤ b'Z')))
      × ((isalpha c ≡ true) ↔ ((b'A' ≤ c) × (c ≤ b'Z') ⊎ (b'a' ≤ c) × (c ≤ b'z')))
      × ((isprint c ≡ true) ↔ ((32 ≤ c) × (c ≤ 126)))
      × ((isspace c ≡ true) ↔ ((c ≡ 32) ⊎ (9 ≤ c) × (c ≤ 13)))
unfolding isdigit isupper isalpha isprint isspace
classes_iff c h =
    (ground arith, ground arith, ground (arith, bit_or_32 c), ground arith, ground arith)
