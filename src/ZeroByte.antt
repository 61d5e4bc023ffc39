-- ===== src/ZeroByte.antt =====
-- The HASZERO macro that memchr.c, stpncpy.c, strchrnul.c, strlen.c and strnlen.c share:
-- `((x) - ONES & ~(x) & HIGHS)` on a 64-bit word.
pub mod Tests
use native.Mathlib.Nat.{
  one-le-pow, pow-suc, div-add-mod', mod-lt, mod-eq_of_lt, add-mul-mod_self_right,
}
use ocaml_solo.Prelude.{
  ℕ, zero, suc, ◌+◌, ◌-◌, ◌*◌, ◌/◌, ◌%◌, ◌^◌, ◌≤◌, ◌<◌, ◌≡◌, ◌≢◌, ◌⊎◌, ◌↔◌, inl, inr, Nat-cases,
  refl, ap, ◌∙◌, Bool, true, false, not, arith, bit_and, bit_xor, ◌==◌, bit_and_fields,
  bit_xor_fields, bit_xor-lt, bit_xor_self, bit_xor_eq, bit_and-le, ◌||◌, below_all, below_all_at,
}
use ocaml_solo.Memory.{Memory, IsBytes, load, load-lt}

-- (size_t)-1 / UCHAR_MAX
unfoldable pub ones : ℕ
ones = (2 ^ 64 - 1) / 255

-- ONES * (UCHAR_MAX / 2 + 1)
unfoldable pub highs : ℕ
unfolding ones
highs = ones * (255 / 2 + 1) % 2 ^ 64

unfoldable pub has_zero : ℕ → Bool
unfolding ones highs
has_zero x = not (bit_and (bit_and ((x + 2 ^ 64 - ones) % 2 ^ 64) (2 ^ 64 - 1 - x)) highs == 0)

-- The same test on a word of `n` bytes, for the induction.
unfoldable pub ones_of : ℕ → ℕ
ones_of zero = 0
ones_of (suc n) = ones_of n * 256 + 1

abbrev span : ℕ → ℕ
span n = 256 ^ n

flags : ℕ → ℕ → ℕ
unfolding ones_of
flags n x = bit_and (bit_and ((x + span n - ones_of n) % span n) (span n - 1 - x)) (ones_of n * 128)

flags_eight : (x : ℕ) → has_zero x ≡ not (flags 8 x == 0)
unfolding has_zero flags
flags_eight x = refl

span-ones : (n : ℕ) → span n ≡ ones_of n * 255 + 1
unfolding ones_of
span-ones zero = refl
span-ones (suc n) = omega (arith, pow-suc 256 n, span-ones n)

-- A remainder by a multiple of 256 leaves the low byte alone.
mod_bytes : (t r k : ℕ) → 0 < k → r < 256 → (t * 256 + r) % (k * 256) ≡ t % k * 256 + r
mod_bytes t r k pos h =
    let d = div-add-mod' t k in
    let small = mod-lt t {m = k} pos in
    let e : t * 256 + r ≡ t % k * 256 + r + t / k * (k * 256) =
      omega (arith, ap (λ (u : ℕ). u * 256) d) in
    ap (λ (u : ℕ). u % (k * 256)) e
    ∙ add-mul-mod_self_right (t % k * 256 + r) (t / k) (k * 256)
    ∙ mod-eq_of_lt (omega arith)

-- One byte of the test: `t` is the difference above the low byte and `c` its low byte.
bit_and_bytes :
    (q r q' r' : ℕ)
    → r < 256
    → r' < 256
    → bit_and (q * 256 + r) (q' * 256 + r') ≡ bit_and q q' * 256 + bit_and r r'
bit_and_bytes q r q' r' = bit_and_fields 8 q r q' r'

bit_xor_bytes :
    (q r q' r' : ℕ)
    → r < 256
    → r' < 256
    → bit_xor (q * 256 + r) (q' * 256 + r') ≡ bit_xor q q' * 256 + bit_xor r r'
bit_xor_bytes q r q' r' = bit_xor_fields 8 q r q' r'

flags-suc :
    (n y b t c : ℕ)
    → y < span n
    → b < 256
    → c < 256
    → y * 256 + b + span (suc n) ≡ t * 256 + c + ones_of (suc n)
    → flags (suc n) (y * 256 + b)
      ≡ bit_and (bit_and (t % span n) (span n - 1 - y)) (ones_of n * 128) * 256
        + bit_and (bit_and c (255 - b)) 128
unfolding flags ones_of
flags-suc n y b t c hy hb hc e =
    let p = pow-suc 256 n in
    let diff : y * 256 + b + span (suc n) - (ones_of n * 256 + 1) ≡ t * 256 + c = omega arith in
    let comp : span (suc n) - 1 - (y * 256 + b) ≡ (span n - 1 - y) * 256 + (255 - b) =
      omega arith in
    let mask : (ones_of n * 256 + 1) * 128 ≡ ones_of n * 128 * 256 + 128 = omega arith in
    let low : bit_and c (255 - b) < 256 = omega (arith, bit_and-le c (255 - b)) in
    rw (
      diff,
      comp,
      mask,
      p,
      mod_bytes t c (span n) (one-le-pow n 256 (omega arith)) hc,
      bit_and_bytes (t % span n) c (span n - 1 - y) (255 - b) hc (omega arith),
      bit_and_bytes (bit_and (t % span n) (span n - 1 - y)) (bit_and c (255 - b)) (ones_of n * 128)
          128 low (omega arith),
    )

-- A word of `n` bytes is flagged exactly where one of the bytes is 0.
low_table : below_all (λ b. b == 0 || bit_and (bit_and (b - 1) (255 - b)) 128 == 0) 256 ≡ true
unfolding below_all
low_table = refl

module _ (n y : ℕ) (hy : y < span n) where
  flags-suc_pos : (b : ℕ) → 0 < b → b < 256 → flags (suc n) (y * 256 + b) ≡ flags n y * 256
  flags-suc_pos b pos h =
      let table = below_all_at _ 256 b low_table h in
      let clear : bit_and (bit_and (b - 1) (255 - b)) 128 ≡ 0 = ground arith in
      let o = span-ones n in
      let o' = span-ones (suc n) in
      let eq =
        flags-suc n y b (y + span n - ones_of n) (b - 1) hy h (omega arith)
          (unfold ones_of in omega (arith, pow-suc 256 n)) in
      rw (eq, clear) (unfold flags in omega arith)

  flags-suc_zero : flags (suc n) (y * 256 + 0) ≢ 0
  flags-suc_zero e =
      let o = span-ones n in
      let eq =
        flags-suc n y 0 (y + span n - ones_of n - 1) 255 hy (omega arith) (omega arith)
          (unfold ones_of in omega (arith, pow-suc 256 n)) in
      omega arith

flags-load_pos :
    (n : ℕ) (m : Memory) (a : ℕ)
    → IsBytes m
    → flags n (load m a n) ≡ 0
    → (i : ℕ) → i < n
    → m (a + i) ≡ 0
    → ⊥
unfolding load
flags-load_pos zero m a h e i lt z = absurd (omega arith)
flags-load_pos (suc n) m a h e i lt z = elim (Nat-cases (m a)) [
  | inl low ↦ flags-suc_zero n (load m (a + 1) n) (load-lt n m (a + 1) h) (rw low at e)
  | inr pos ↦
      rest i lt z
        (flags-load_pos n m (a + 1) h (
          omega
            (arith, flags-suc_pos n (load m (a + 1) n) (load-lt n m (a + 1) h) (m a) pos (h a))))
        pos
]
  where
    rest :
        (j : ℕ)
        → j < suc n
        → m (a + j) ≡ 0
        → ((k : ℕ) → k < n → m (a + 1 + k) ≡ 0 → ⊥)
        → 0 < m a
        → ⊥
    rest zero p q ih pos = let e : a + 0 ≡ a = omega arith in absurd (omega (arith, rw e at q))
    rest (suc j) p q ih pos =
        let e : a + suc j ≡ a + 1 + j = omega arith in ih j (omega arith) (rw e at q)

flags-load_zero :
    (n : ℕ) (m : Memory) (a : ℕ)
    → IsBytes m
    → ((i : ℕ) → i < n → m (a + i) ≢ 0)
    → flags n (load m a n) ≡ 0
unfolding load
flags-load_zero zero m a h e = unfold flags in refl
flags-load_zero (suc n) m a h e =
    let pos : 0 < m a = let z : a + 0 ≡ a = omega arith in omega (arith, rw z at (e 0)) in
    let ih =
      flags-load_zero n m (a + 1) h
        (λ i p. let z : a + suc i ≡ a + 1 + i = omega arith in rw z at (e (suc i) (omega arith))) in
    omega (arith, ih, flags-suc_pos n (load m (a + 1) n) (load-lt n m (a + 1) h) (m a) pos (h a))

-- The macro's flag is exact: the word loaded from `a` is flagged exactly when one of its eight
-- bytes is 0.
pub has_zero_iff :
    (m : Memory) (a : ℕ)
    → IsBytes m
    → (has_zero (load m a 8) ≡ false) ↔ ((i : ℕ) → i < 8 → m (a + i) ≢ 0)
has_zero_iff m a h = (
  λ e. flags-load_pos 8 m a h (ground (arith, flags_eight (load m a 8))),
  λ e. ground (arith, flags_eight (load m a 8), flags-load_zero 8 m a h e),
)

-- `*w ^ ONES * c` holds `c` xored into each byte.
ones-eight : ones ≡ ones_of 8
unfolding ones ones_of
ones-eight = refl

load-xor :
    (n : ℕ) (m : Memory) (a c : ℕ)
    → IsBytes m
    → c < 256
    → bit_xor (load m a n) (ones_of n * c) ≡ load (λ b. bit_xor (m b) c) a n
unfolding load ones_of
load-xor zero m a c h hc = let e : 0 * c ≡ 0 = omega arith in rw e
load-xor (suc n) m a c h hc =
    let e : (ones_of n * 256 + 1) * c ≡ ones_of n * c * 256 + c = omega arith in
    rw (
      e,
      bit_xor_bytes (load m (a + 1) n) (m a) (ones_of n * c) c (h a) hc,
      load-xor n m (a + 1) c h hc,
    )

-- The word xored with `ONES * c` is flagged exactly when one of its eight bytes is `c`.
pub has_zero-xor_iff :
    (m : Memory) (a c : ℕ)
    → IsBytes m
    → c < 256
    → (has_zero (bit_xor (load m a 8) (ones * c % 2 ^ 64)) ≡ false)
      ↔ ((i : ℕ) → i < 8 → m (a + i) ≢ c)
has_zero-xor_iff m a c h hc =
    let small : ones * c % 2 ^ 64 ≡ ones_of 8 * c = unfold ones ones_of in omega arith in
    let iff = has_zero_iff (λ b. bit_xor (m b) c) a (λ b. bit_xor-lt 8 (m b) c (h b) hc) in
    rw (small, load-xor 8 m a c h hc)
      (
        λ e i lt z. iff.0 e i lt (rw z (bit_xor_self c)),
        λ e. iff.1 (λ i lt z. e i lt (bit_xor_eq (m (a + i)) c z)),
      )
