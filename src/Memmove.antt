-- ===== src/Memmove.antt =====
-- nolibc/memmove.c; `WT` is `size_t`, of `WS` 8 bytes.
pub mod Tests
pub mod Forward
pub mod Backward
pub mod Total
use ocaml_solo.Prelude.{
  ℕ, zero, suc, ◌+◌, ◌-◌, ◌*◌, ◌/◌, ◌%◌, ◌^◌, Bool, true, false, ◌||◌, leb, ltb, ◌==◌,
  if◌then◌else◌,
}
use ocaml_solo.Memory.{Memory, write, load, store}
use ocaml_solo.Memcpy.{Copy, copy_bytes, memcpy}

-- A loop with `return dest` inside.
pub data Outcome : Type 0 where
  returned : Memory → Outcome
  goes_on : Copy → Outcome

-- `while ((uintptr_t)d % WS) { if (!n--) return dest; *d++ = *s++; }`
pub forward_head : ℕ → Copy → Outcome
unfolding copy_bytes
forward_head zero st = if st.d % 8 == 0 then goes_on st else returned st.mem
forward_head (suc fuel) st = elim (st.d % 8 == 0) [
  | true ↦ goes_on st
  | false ↦ elim (st.n == 0) [
    | true ↦ returned st.mem
    | false ↦ let st' = copy_bytes 1 st in forward_head fuel (record st' { n = st.n - 1 })
  ]
]

-- `for (; n >= WS; n -= WS, d += WS, s += WS) *(WT *)d = *(WT *)s;`
pub forward_words : ℕ → Copy → Copy
forward_words zero st = st
forward_words (suc fuel) st = elim (leb 8 st.n) [
  | true ↦ forward_words fuel (record {
    mem = store st.mem st.d 8 (load st.mem st.s 8);
    d = st.d + 8;
    s = st.s + 8;
    n = st.n - 8;
  })
  | false ↦ st
]

-- `for (; n; n--) *d++ = *s++;`
pub forward_bytes : Copy → Memory
unfolding copy_bytes
forward_bytes st = (copy_bytes st.n st).mem

pub forward : Copy → Memory
unfolding forward_head forward_words forward_bytes
forward st =
    if st.s % 8 == st.d % 8
    then elim (forward_head st.n st) [
      | returned m ↦ m
      | goes_on st' ↦ forward_bytes (forward_words st'.n st')
    ]
    else forward_bytes st

-- `while ((uintptr_t)(d + n) % WS) { if (!n--) return dest; d[n] = s[n]; }`
pub backward_head : ℕ → Copy → Outcome
backward_head zero st = if (st.d + st.n) % 8 == 0 then goes_on st else returned st.mem
backward_head (suc fuel) st = elim ((st.d + st.n) % 8 == 0) [
  | true ↦ goes_on st
  | false ↦ elim (st.n == 0) [
    | true ↦ returned st.mem
    | false ↦
        let n = st.n - 1 in
        backward_head fuel (record st { mem = write st.mem (st.d + n) (st.mem (st.s + n)); n = n })
  ]
]

-- `while (n >= WS) n -= WS, *(WT *)(d + n) = *(WT *)(s + n);`
pub backward_words : ℕ → Copy → Copy
backward_words zero st = st
backward_words (suc fuel) st = elim (leb 8 st.n) [
  | true ↦
      let n = st.n - 8 in
      backward_words fuel
        (record st { mem = store st.mem (st.d + n) 8 (load st.mem (st.s + n) 8); n = n })
  | false ↦ st
]

-- `while (n) n--, d[n] = s[n];`
pub backward_bytes : ℕ → ℕ → ℕ → Memory → Memory
backward_bytes d s zero m = m
backward_bytes d s (suc n) m = backward_bytes d s n (write m (d + n) (m (s + n)))

pub backward : Copy → Memory
unfolding backward_head backward_words backward_bytes
backward st =
    if st.s % 8 == st.d % 8
    then elim (backward_head st.n st) [
      | returned m ↦ m
      | goes_on st' ↦
          let st'' = backward_words st'.n st' in backward_bytes st''.d st''.s st''.n st''.mem
    ]
    else backward_bytes st.d st.s st.n st.mem

unfoldable pub memmove : Memory → ℕ → ℕ → ℕ → Memory
unfolding memcpy forward backward write store load
memmove m d s n =
    let st : Copy = record { mem = m; d = d; s = s; n = n } in
    if d == s
    then m
    else if leb (s + n) d || leb (d + n) s
    then memcpy m d s n
    else if ltb d s
    then forward st
    else backward st
