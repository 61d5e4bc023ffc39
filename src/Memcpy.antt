-- ===== src/Memcpy.antt =====
-- nolibc/memcpy.c, with __GNUC__ defined on a little-endian machine: `LS` is `>>`, `RS` is `<<`.
pub mod Tests
pub mod Copied
pub mod Loops
pub mod Shift
pub mod Total
use ocaml_solo.Prelude.{
  ℕ, zero, suc, ◌+◌, ◌-◌, ◌*◌, ◌/◌, ◌%◌, ◌^◌, Bool, true, false, not, ◌&&◌, leb, ◌==◌,
  if◌then◌else◌, bit_and, bit_or,
}
use ocaml_solo.Memory.{Memory, write, load, store}

-- The memory and the local variables `d`, `s` and `n`.
pub record Copy : Type 0 where
  pub mem : Memory
  pub d : ℕ
  pub s : ℕ
  pub n : ℕ

-- `*d++ = *s++`, `k` times
unfoldable pub copy_bytes : ℕ → Copy → Copy
copy_bytes zero st = st
copy_bytes (suc k) st =
    copy_bytes k (record st { mem = write st.mem st.d (st.mem st.s); d = st.d + 1; s = st.s + 1 })

-- `*(u32 *)d = *(u32 *)s; d += 4; s += 4;`, `k` times
unfoldable pub copy_words : ℕ → Copy → Copy
copy_words zero st = st
copy_words (suc k) st =
    copy_words k
      (record st { mem = store st.mem st.d 4 (load st.mem st.s 4); d = st.d + 4; s = st.s + 4 })

-- `for (; (uintptr_t)s % 4 && n; n--) *d++ = *s++;` with at most `n` rounds
pub copy_head : ℕ → Copy → Copy
unfolding copy_bytes
copy_head zero st = st
copy_head (suc fuel) st = elim (not (st.s % 4 == 0) && not (st.n == 0)) [
  | true ↦ let st' = copy_bytes 1 st in copy_head fuel (record st' { n = st.n - 1 })
  | false ↦ st
]

-- `for (; n >= 16; s += 16, d += 16, n -= 16)`
pub copy_blocks : ℕ → Copy → Copy
unfolding copy_words
copy_blocks zero st = st
copy_blocks (suc fuel) st = elim (leb 16 st.n) [
  | true ↦ let st' = copy_words 4 st in copy_blocks fuel (record st' { n = st.n - 16 })
  | false ↦ st
]

-- The rest of the aligned copy, `n & 8` down to `n & 1`.
pub copy_rest : Copy → Copy
unfolding copy_bytes copy_words
copy_rest st =
    let n = st.n in
    let st = if bit_and n 8 == 0 then st else copy_words 2 st in
    let st = if bit_and n 4 == 0 then st else copy_words 1 st in
    let st = if bit_and n 2 == 0 then st else copy_bytes 2 st in
    if bit_and n 1 == 0 then st else copy_bytes 1 st

-- `(w LS (32 - 8 * o)) | (x RS (8 * o))` on uint32_t
pub join : ℕ → ℕ → ℕ → ℕ
join o w x = bit_or (w / 2 ^ (32 - 8 * o)) (x * 2 ^ (8 * o) % 2 ^ 32)

-- One round of the loop of `case o`: four words, each put together from two aligned loads.
pub shift_round : ℕ → ℕ → Copy → Copy × ℕ
unfolding join
shift_round o w st =
    let x = load st.mem (st.s + o) 4 in
    let m = store st.mem st.d 4 (join o w x) in
    let w' = load m (st.s + o + 4) 4 in
    let m' = store m (st.d + 4) 4 (join o x w') in
    let x' = load m' (st.s + o + 8) 4 in
    let m'' = store m' (st.d + 8) 4 (join o w' x') in
    let w'' = load m'' (st.s + o + 12) 4 in
    let m''' = store m'' (st.d + 12) 4 (join o x' w'') in
    (record { mem = m'''; d = st.d + 16; s = st.s + 16; n = st.n - 16 }, w'')

-- `for (; n >= 16 + o; s += 16, d += 16, n -= 16)` of `case o`
pub shift_loop : ℕ → ℕ → ℕ → Copy → Copy
unfolding shift_round
shift_loop zero o w st = st
shift_loop (suc fuel) o w st = elim (leb (16 + o) st.n) [
  | true ↦ let (st', w') = shift_round o w st in shift_loop fuel o w' st'
  | false ↦ st
]

-- `case o` of the switch: the bytes up to an aligned `d`, then the loop.
pub shift_case : ℕ → Copy → Copy
unfolding shift_loop copy_bytes
shift_case o st =
    let w = load st.mem st.s 4 in
    let st' = copy_bytes (4 - o) st in shift_loop st.n o w (record st' { n = st.n - (4 - o) })

-- The rest of the unaligned copy, `n & 16` down to `n & 1`.
pub byte_rest : Copy → Copy
unfolding copy_bytes
byte_rest st =
    let n = st.n in
    let st = if bit_and n 16 == 0 then st else copy_bytes 16 st in
    let st = if bit_and n 8 == 0 then st else copy_bytes 8 st in
    let st = if bit_and n 4 == 0 then st else copy_bytes 4 st in
    let st = if bit_and n 2 == 0 then st else copy_bytes 2 st in
    if bit_and n 1 == 0 then st else copy_bytes 1 st

unfoldable pub memcpy : Memory → ℕ → ℕ → ℕ → Memory
unfolding copy_head copy_blocks copy_rest shift_case byte_rest write store load
memcpy m dest src n =
    let st = copy_head n (record { mem = m; d = dest; s = src; n = n }) in
    let shifted = if leb 32 st.n then shift_case (st.d % 4) st else st in
    if st.d % 4 == 0 then (copy_rest (copy_blocks st.n st)).mem else (byte_rest shifted).mem
