-- ===== src/Memset.antt =====
-- nolibc/memset.c, with __GNUC__ defined: bytes at both ends, then words of 4 and of 8 bytes.
pub mod Tests
mod Filled
pub mod Words
pub mod Total
use ocaml_solo.Prelude.{
  ℕ, zero, suc, ◌+◌, ◌-◌, ◌*◌, ◌/◌, ◌%◌, ◌^◌, Bool, true, false, List, [], ◌∷◌, leb, ◌==◌,
  if◌then◌else◌, bit_and, bit_or,
}
use ocaml_solo.Memory.{Memory, write, store}

-- Assignments of one byte `c`, in order.
pub fill_bytes : ℕ → List ℕ → Memory → Memory
fill_bytes c [] m = m
fill_bytes c (a ∷ as_) m = fill_bytes c as_ (write m a c)

-- Assignments of one word `v` of `w` bytes, in order.
pub fill_words : ℕ → ℕ → List ℕ → Memory → Memory
fill_words w v [] m = m
fill_words w v (a ∷ as_) m = fill_words w v as_ (store m a w v)

-- `for (; n >= 32; n -= 32, s += 32)`
pub memset_loop : ℕ → ℕ → ℕ → ℕ → Memory → Memory
unfolding fill_words
memset_loop zero c64 s n m = m
memset_loop (suc fuel) c64 s n m = elim (leb 32 n) [
  | true ↦
      memset_loop fuel c64 (s + 32) (n - 32)
        (fill_words 8 c64 (s ∷ (s + 8) ∷ (s + 16) ∷ (s + 24) ∷ []) m)
  | false ↦ m
]

-- The words, from an address that is a multiple of 4; `n` counts the bytes left, a multiple of 4.
pub memset_words : ℕ → ℕ → ℕ → Memory → Memory
unfolding memset_loop
memset_words c s n m =
    let c32 = (2 ^ 32 - 1) / 255 * c in
    let m = fill_words 4 c32 (s ∷ (s + n - 4) ∷ []) m in
    let m' = fill_words 4 c32 ((s + 4) ∷ (s + 8) ∷ (s + n - 12) ∷ (s + n - 8) ∷ []) m in
    let m'' =
      fill_words 4 c32
        ((s + 12)
          ∷ (s + 16)
          ∷ (s + 20)
          ∷ (s + 24)
          ∷ (s + n - 28)
          ∷ (s + n - 24)
          ∷ (s + n - 20)
          ∷ (s + n - 16)
          ∷ [])
        m' in
    let k = 24 + bit_and s 4 in
    let c64 = bit_or c32 (c32 * 2 ^ 32 % 2 ^ 64) in
    if leb n 8 then m else if leb n 24 then m' else memset_loop n c64 (s + k) (n - k) m''

-- `c` is converted to unsigned char by each byte store and in `c32`.
unfoldable pub memset : Memory → ℕ → ℕ → ℕ → Memory
unfolding memset_words fill_bytes write store
memset m dest c n =
    let c = c % 256 in
    let m1 = fill_bytes c ((dest + n - 1) ∷ dest ∷ []) m in
    let m2 = fill_bytes c ((dest + n - 2) ∷ (dest + 1) ∷ (dest + n - 3) ∷ (dest + 2) ∷ []) m1 in
    let m3 = fill_bytes c ((dest + n - 4) ∷ (dest + 3) ∷ []) m2 in
    let k = bit_and ((2 ^ 64 - dest) % 2 ^ 64) 3 in
    if n == 0
    then m
    else if leb n 2
    then m1
    else if leb n 6
    then m2
    else if leb n 8
    then m3
    else memset_words c (dest + k) (bit_and (n - k) (2 ^ 64 - 4)) m3
