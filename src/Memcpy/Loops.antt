-- ===== src/Memcpy/Loops.antt =====
-- The loops of memcpy.c that copy without shifting.
use ocaml_solo.Prelude.{
  ℕ, zero, suc, ◌+◌, ◌*◌, ◌%◌, ◌≤◌, ◌<◌, ◌≡◌, ◌⊎◌, inl, inr, refl, true, not, arith, leb, ◌==◌,
  ◌&&◌, ◌||◌, Bool-cases, bit_and, below_all, below_all_at, if◌then◌else◌,
}
use ocaml_solo.Memory.{Memory, IsBytes}
use ocaml_solo.Memcpy.{Copy, copy_bytes, copy_words, copy_head, copy_blocks, copy_rest, byte_rest}
use ocaml_solo.Memcpy.Copied.{IsCopied, copy_byte, copy_word, load_source}

-- `j` bytes have been copied and the pointers stand behind them.
pub record IsAt (m : Memory) (dest src j : ℕ) (st : Copy) : Type 0 where
  pub d : st.d ≡ dest + j
  pub s : st.s ≡ src + j
  pub mem : IsCopied m dest src j st.mem

pub record IsWithin (m : Memory) (dest src n : ℕ) : Type 0 where
  pub bytes : IsBytes m
  pub apart : (src + n ≤ dest) ⊎ (dest + n ≤ src)

pub clear_of :
    {m : Memory} {dest src n : ℕ} → IsWithin m dest src n → (src + n ≤ dest) ⊎ (dest ≤ src)
clear_of within = let apart = within.apart in omega arith

module _ {m : Memory} {dest src n : ℕ} (clear : (src + n ≤ dest) ⊎ (dest ≤ src)) where
  pub bytes-IsAt :
      (k j i : ℕ) (st : Copy)
      → IsAt m dest src j st
      → j + k ≡ i
      → i ≤ n
      → IsAt m dest src i (copy_bytes k st)
  unfolding copy_bytes
  bytes-IsAt zero j i st at e le = let e' : j ≡ i = omega arith in rw (← e') at
  bytes-IsAt (suc k) j i st at e le =
      bytes-IsAt k (j + 1) i _
        (record {
          d = omega (arith, at.d);
          s = omega (arith, at.s);
          mem = rw (at.d, at.s) (copy_byte n clear at.mem (omega arith));
        })
        (omega arith) le

module _ {m : Memory} {dest src n : ℕ} (within : IsWithin m dest src n) where
  pub words-IsAt :
      (k j i : ℕ) (st : Copy)
      → IsAt m dest src j st
      → j + 4 * k ≡ i
      → i ≤ n
      → IsAt m dest src i (copy_words k st)
  unfolding copy_words
  words-IsAt zero j i st at e le = let e' : j ≡ i = omega arith in rw (← e') at
  words-IsAt (suc k) j i st at e le =
      words-IsAt k (j + 4) i _
        (record {
          d = omega (arith, at.d);
          s = omega (arith, at.s);
          mem =
              rw (at.d, at.s)
                (copy_word n (clear_of within) at.mem 4 _ within.bytes (omega arith) (
                  load_source n within.apart at.mem (src + j) 4 (omega arith) (omega arith)
                    (omega arith)));
        })
        (omega arith) le

copy_bytes-n : (k : ℕ) (st : Copy) → (copy_bytes k st).n ≡ st.n
unfolding copy_bytes
copy_bytes-n zero st = refl
copy_bytes-n (suc k) st = copy_bytes-n k _

copy_words-n : (k : ℕ) (st : Copy) → (copy_words k st).n ≡ st.n
unfolding copy_words
copy_words-n zero st = refl
copy_words-n (suc k) st = copy_words-n k _

-- The bits of a count below 32 add up to it.
bits_table :
    below_all
      (λ n.
        (bit_and n 16 == 0 || bit_and n 16 == 16)
        && (bit_and n 8 == 0 || bit_and n 8 == 8)
        && (bit_and n 4 == 0 || bit_and n 4 == 4)
        && (bit_and n 2 == 0 || bit_and n 2 == 2)
        && (bit_and n 1 == 0 || bit_and n 1 == 1)
        && bit_and n 16 + bit_and n 8 + bit_and n 4 + bit_and n 2 + bit_and n 1 == n
        && (leb 16 n || bit_and n 16 == 0))
      32
    ≡ true
unfolding below_all
bits_table = refl

bits_sum :
    (n : ℕ)
    → n < 32
    → ((bit_and n 16 ≡ 0) ⊎ (bit_and n 16 ≡ 16))
      × ((bit_and n 8 ≡ 0) ⊎ (bit_and n 8 ≡ 8))
      × ((bit_and n 4 ≡ 0) ⊎ (bit_and n 4 ≡ 4))
      × ((bit_and n 2 ≡ 0) ⊎ (bit_and n 2 ≡ 2))
      × ((bit_and n 1 ≡ 0) ⊎ (bit_and n 1 ≡ 1))
      × (bit_and n 16 + bit_and n 8 + bit_and n 4 + bit_and n 2 + bit_and n 1 ≡ n)
      × ((16 ≤ n) ⊎ (bit_and n 16 ≡ 0))
bits_sum n h = let t = below_all_at _ 32 n bits_table h in ground arith

-- Where a loop leaves the pointers, with the bytes left in `n`.
abbrev pub Reached : (m : Memory) (dest src n : ℕ) (st : Copy) → Type 0
Reached m dest src n st = (j : ℕ) × IsAt m dest src j st × (j + st.n ≡ n)

module _ {m : Memory} {dest src n : ℕ} (within : IsWithin m dest src n) where
  pub head-Reached :
      (fuel j : ℕ) (st : Copy)
      → IsAt m dest src j st
      → j + st.n ≡ n
      → st.n ≤ fuel
      → Reached m dest src n (copy_head fuel st)
        × (((copy_head fuel st).s % 4 ≡ 0) ⊎ ((copy_head fuel st).n ≡ 0))
  unfolding copy_head
  head-Reached zero j st at e enough = ((j, at, e), inr (omega arith))
  head-Reached (suc fuel) j st at e enough =
      elim (Bool-cases (not (st.s % 4 == 0) && not (st.n == 0))) [
        | inl more ↦
            let next = bytes-IsAt (clear_of within) 1 j (j + 1) st at refl (ground arith) in
            rw (more, copy_head)
              (head-Reached fuel (j + 1) _ (record { d = next.d; s = next.s; mem = next.mem })
                (ground arith) (ground arith))
        | inr done ↦ rw (done, copy_head) ((j, at, e), ground arith)
      ]

  pub blocks-Reached :
      (fuel j : ℕ) (st : Copy)
      → IsAt m dest src j st
      → j + st.n ≡ n
      → st.n ≤ fuel
      → Reached m dest src n (copy_blocks fuel st) × ((copy_blocks fuel st).n < 16)
  unfolding copy_blocks
  blocks-Reached zero j st at e enough = ((j, at, e), omega arith)
  blocks-Reached (suc fuel) j st at e enough = elim (Bool-cases (leb 16 st.n)) [
    | inl more ↦
        let next = words-IsAt within 4 j (j + 16) st at refl (ground arith) in
        rw (more, copy_blocks)
          (blocks-Reached fuel (j + 16) _ (record { d = next.d; s = next.s; mem = next.mem })
            (ground arith) (ground arith))
    | inr done ↦ rw (done, copy_blocks) ((j, at, e), ground arith)
  ]

  -- One conditional copy of `w` bytes, for a bit of the count.
  bytes_if :
      (k v j : ℕ) (st : Copy)
      → IsAt m dest src j st
      → (v ≡ 0) ⊎ (v ≡ k)
      → j + v ≤ n
      → IsAt m dest src (j + v) (if v == 0 then st else copy_bytes k st)
  bytes_if k v j st at h le = elim (Bool-cases (v == 0)) [
    | inl z ↦ let e : j + v ≡ j = ground arith in rw (z, e) at
    | inr nz ↦ rw nz (bytes-IsAt (clear_of within) k j (j + v) st at (ground arith) le)
  ]

  words_if :
      (k w v j : ℕ) (st : Copy)
      → IsAt m dest src j st
      → (v ≡ 0) ⊎ (v ≡ w)
      → 4 * k ≡ w
      → 0 < w
      → j + v ≤ n
      → IsAt m dest src (j + v) (if v == 0 then st else copy_words k st)
  words_if k w v j st at h e pos le = elim (Bool-cases (v == 0)) [
    | inl z ↦ let e' : j + v ≡ j = ground arith in rw (z, e') at
    | inr nz ↦ rw nz (words-IsAt within k j (j + v) st at (ground arith) le)
  ]

  -- The aligned rest copies the bytes that are left, fewer than 16.
  pub rest-IsAt :
      (j : ℕ) (st : Copy)
      → IsAt m dest src j st
      → j + st.n ≡ n
      → st.n < 16
      → IsAt m dest src n (copy_rest st)
  unfolding copy_rest
  rest-IsAt j st at e small =
      let b = bits_sum st.n (omega arith) in
      let end = words_if 2 8 (bit_and st.n 8) j st at b.1 refl (omega arith) (omega arith) in
      let end = words_if 1 4 (bit_and st.n 4) _ _ end b.2 refl (omega arith) (omega arith) in
      let end = bytes_if 2 (bit_and st.n 2) _ _ end b.3 (omega arith) in
      let end = bytes_if 1 (bit_and st.n 1) _ _ end b.4 (omega arith) in
      let all : j + bit_and st.n 8 + bit_and st.n 4 + bit_and st.n 2 + bit_and st.n 1 ≡ n =
        omega arith in
      rw all at end

  -- The unaligned rest copies the bytes that are left, fewer than 32.
  pub byte_rest-IsAt :
      (j : ℕ) (st : Copy)
      → IsAt m dest src j st
      → j + st.n ≡ n
      → st.n < 32
      → IsAt m dest src n (byte_rest st)
  unfolding byte_rest
  byte_rest-IsAt j st at e small =
      let b = bits_sum st.n small in
      let end = bytes_if 16 (bit_and st.n 16) j st at b.0 (omega arith) in
      let end = bytes_if 8 (bit_and st.n 8) _ _ end b.1 (omega arith) in
      let end = bytes_if 4 (bit_and st.n 4) _ _ end b.2 (omega arith) in
      let end = bytes_if 2 (bit_and st.n 2) _ _ end b.3 (omega arith) in
      let end = bytes_if 1 (bit_and st.n 1) _ _ end b.4 (omega arith) in
      let all : j
            + bit_and st.n 16
            + bit_and st.n 8
            + bit_and st.n 4
            + bit_and st.n 2
            + bit_and st.n 1
          ≡ n =
        omega arith in
      rw all at end
