-- ===== src/Memmove/Backward.antt =====
-- The backward copy of memmove.c, for a destination above the source.
use ocaml_solo.Prelude.{
  ℕ, zero, suc, ◌+◌, ◌-◌, ◌%◌, ◌≤◌, ◌<◌, ◌≡◌, ◌⊎◌, inl, inr, ap, ◌∙◌, arith, ltb, leb, ◌==◌,
  Bool-cases,
}
use ocaml_solo.Memory.{
  Memory, IsBytes, load, write, store, write_self, write_ne, store_below, store_above, store-load,
}
use ocaml_solo.Memcpy.{Copy}
use ocaml_solo.Memcpy.Copied.{load_same}
use ocaml_solo.Memmove.{
  Outcome, returned, goes_on, backward_head, backward_words, backward_bytes, backward,
}

-- All but the first `left` of the `n` bytes at `dest` are those at `src`, and nothing else has
-- changed.
pub record IsTail (m : Memory) (dest src n left : ℕ) (m' : Memory) : Type 0 where
  pub moved : (b : ℕ) → dest + left ≤ b → b < dest + n → m' b ≡ m (src + (b - dest))
  pub kept : (b : ℕ) → (b < dest + left) ⊎ (dest + n ≤ b) → m' b ≡ m b

abbrev HeadReached : Memory → ℕ → ℕ → ℕ → Outcome → Type 0
HeadReached m dest src n (returned m') = IsTail m dest src n 0 m'
HeadReached m dest src n (goes_on st) =
    (st.d ≡ dest) × (st.s ≡ src) × (st.n ≤ n) × IsTail m dest src n st.n st.mem

module _ {m : Memory} {dest src n : ℕ} (h : IsBytes m) (above : src ≤ dest) where
  byte_back :
      (left : ℕ) (m' : Memory)
      → left + 1 ≤ n
      → IsTail m dest src n (left + 1) m'
      → IsTail m dest src n left (write m' (dest + left) (m' (src + left)))
  byte_back left m' le c = record {
    moved = λ b lo hi. elim (Bool-cases (b == dest + left)) [
      | inl e ↦
          let e' : b ≡ dest + left = ground arith in
          let e'' : src + (dest + left - dest) ≡ src + left = omega arith in
          rw (e', e'', write_self) (c.kept (src + left) (omega arith))
      | inr e ↦
          write_ne m' (dest + left) (m' (src + left)) b (ground arith) ∙ c.moved b (ground arith) hi
    ];
    kept = λ b out.
        write_ne m' (dest + left) (m' (src + left)) b (λ e. omega arith) ∙ c.kept b (omega arith);
  }

  word_back :
      (left : ℕ) (m' : Memory)
      → left + 8 ≤ n
      → IsTail m dest src n (left + 8) m'
      → IsTail m dest src n left (store m' (dest + left) 8 (load m' (src + left) 8))
  word_back left m' le c =
      let same : load m' (src + left) 8 ≡ load m (src + left) 8 =
        load_same 8 m m' (src + left) (λ b lo hi. c.kept b (omega arith)) in
      rw same record {
        moved = λ b lo hi. elim (Bool-cases (ltb b (dest + left + 8))) [
          | inl low ↦
              let i = b - (dest + left) in
              let at : b ≡ dest + left + i = omega arith in
              let at' : src + left + i ≡ src + (b - dest) = omega arith in
              ap (store m' (dest + left) 8 (load m (src + left) 8)) at
              ∙ store-load 8 m' m (dest + left) (src + left) i h (ground arith)
              ∙ ap m at'
          | inr high ↦
              store_above 8 m' (dest + left) (load m (src + left) 8) b (ground arith)
              ∙ c.moved b (ground arith) hi
        ];
        kept = λ b out. elim out [
          | inl low ↦
              store_below 8 m' (dest + left) (load m (src + left) 8) b low
              ∙ c.kept b (inl (omega arith))
          | inr high ↦
              store_above 8 m' (dest + left) (load m (src + left) 8) b (omega arith)
              ∙ c.kept b (inr high)
        ];
      }

  head_back :
      (fuel : ℕ) (st : Copy)
      → st.d ≡ dest
      → st.s ≡ src
      → st.n ≤ n
      → IsTail m dest src n st.n st.mem
      → st.n ≤ fuel
      → HeadReached m dest src n (backward_head fuel st)
  unfolding backward_head
  head_back zero st ed es le c enough = elim (Bool-cases ((st.d + st.n) % 8 == 0)) [
    | inl aligned ↦ rw aligned (ed, es, le, c)
    | inr odd ↦ let none_ : st.n ≡ 0 = omega arith in rw odd (rw none_ at c)
  ]
  head_back (suc fuel) st ed es le c enough = elim (Bool-cases ((st.d + st.n) % 8 == 0)) [
    | inl aligned ↦ rw (aligned, backward_head) (ed, es, le, c)
    | inr odd ↦
        rw (odd, backward_head)
          (elim (Bool-cases (st.n == 0)) [
            | inl none_ ↦ let z : st.n ≡ 0 = ground arith in rw (none_, backward_head) (rw z at c)
            | inr some_ ↦
                let back : st.n ≡ st.n - 1 + 1 = ground arith in
                rw (some_, backward_head)
                  (head_back fuel _ ed es (omega arith)
                    (rw (ed, es) (byte_back (st.n - 1) st.mem (omega arith) (rw back at c)))
                    (omega arith))
          ])
  ]

  words_back :
      (fuel : ℕ) (st : Copy)
      → st.d ≡ dest
      → st.s ≡ src
      → st.n ≤ n
      → IsTail m dest src n st.n st.mem
      → HeadReached m dest src n (goes_on (backward_words fuel st))
  unfolding backward_words
  words_back zero st ed es le c = (ed, es, le, c)
  words_back (suc fuel) st ed es le c = elim (Bool-cases (leb 8 st.n)) [
    | inl more ↦
        let back : st.n ≡ st.n - 8 + 8 = ground arith in
        rw (more, backward_words)
          (words_back fuel _ ed es (omega arith)
            (rw (ed, es) (word_back (st.n - 8) st.mem (omega arith) (rw back at c))))
    | inr done ↦ rw (done, backward_words) (ed, es, le, c)
  ]

  bytes_back :
      (d s left : ℕ) (m' : Memory)
      → d ≡ dest
      → s ≡ src
      → left ≤ n
      → IsTail m dest src n left m'
      → IsTail m dest src n 0 (backward_bytes d s left m')
  unfolding backward_bytes
  bytes_back d s zero m' ed es le c = c
  bytes_back d s (suc left) m' ed es le c =
      let back : suc left ≡ left + 1 = omega arith in
      bytes_back d s left _ ed es (omega arith)
        (rw (ed, es) (byte_back left m' (omega arith) (rw back at c)))

  pub backward-IsTail :
      (st : Copy)
      → st.d ≡ dest
      → st.s ≡ src
      → st.n ≡ n
      → IsTail m dest src n n st.mem
      → IsTail m dest src n 0 (backward st)
  unfolding backward
  backward-IsTail st ed es e c = elim (Bool-cases (st.s % 8 == st.d % 8)) [
    | inl same ↦
        rw (same, backward)
          (go (backward_head st.n st)
            (head_back st.n st ed es (omega arith) (rw e c) (omega arith)))
    | inr other ↦ rw other (bytes_back st.d st.s st.n st.mem ed es (omega arith) (rw e c))
  ]
    where
      go :
          (o : Outcome)
          → HeadReached m dest src n o
          → IsTail m dest src n 0 (elim o [
            | returned m' ↦ m'
            | goes_on st' ↦
                let st'' = backward_words st'.n st' in backward_bytes st''.d st''.s st''.n st''.mem
          ])
      go (returned m') c = c
      go (goes_on st') r =
          let w = words_back st'.n st' r.0 r.1 r.2 r.3 in bytes_back _ _ _ _ w.0 w.1 w.2 w.3
