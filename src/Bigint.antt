-- ===== src/Bigint.antt =====
-- nolibc/dtoa.c: the numbers of arbitrary size that `strtod` computes with, in the branch for
-- machines with `ULLong` and 32-bit words. A Bigint is a value: its words in use, the lowest first.
pub mod Words
pub mod Multadd
pub mod Mult
pub mod Compare
pub mod Diff
pub mod Shift
pub mod Quorem
pub mod Pow5
pub mod Right
pub mod Leading
pub mod Trailing
pub mod Double
pub mod Decimal
pub mod Sticky
pub mod Fraction
pub mod Tests
use ocaml_solo.Prelude.{ℕ, ◌^◌, ◌≤◌, ◌≡◌, List, [], ◌∷◌}
use ocaml_solo.Bigint.Words.{length, Below, Trimmed}

-- `struct Bigint`; `wds` is the length of `x`, and what stands behind it up to `maxwds` is not used.
pub record Bigint : Type 0 where
  pub k : ℕ
  pub maxwds : ℕ
  pub sign : ℕ
  pub x : List ℕ

-- `Balloc`, as far as the fields go, and the words that the caller then stores.
unfoldable pub balloc : ℕ → List ℕ → Bigint
balloc k x = record { k = k; maxwds = 2 ^ k; sign = 0; x = x }

-- The words fit the space, each fits 32 bits, and there is no zero in front.
pub record IsValid (b : Bigint) : Type 0 where
  pub space : b.maxwds ≡ 2 ^ b.k
  pub fits : length b.x ≤ b.maxwds
  pub below : Below b.x
  pub trimmed : Trimmed b.x
