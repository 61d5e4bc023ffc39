-- ===== src/Memmove/Forward.antt =====
-- The forward copy of memmove.c, for a destination below the source.
use ocaml_solo.Prelude.{
  ℕ, zero, suc, ◌+◌, ◌%◌, ◌≤◌, ◌≡◌, ◌⊎◌, inl, inr, refl, arith, leb, ◌==◌, Bool-cases,
}
use ocaml_solo.Memory.{Memory, IsBytes}
use ocaml_solo.Memcpy.{Copy}
use ocaml_solo.Memcpy.Copied.{IsCopied, copy_word, load_ahead}
use ocaml_solo.Memcpy.Loops.{IsAt, Reached, bytes-IsAt}
use ocaml_solo.Memmove.{
  Outcome, returned, goes_on, forward_head, forward_words, forward_bytes, forward,
}

-- A loop that goes on has reached some point, and one that has returned has copied everything.
abbrev pub HeadReached : Memory → ℕ → ℕ → ℕ → Outcome → Type 0
HeadReached m dest src n (returned m') = IsCopied m dest src n m'
HeadReached m dest src n (goes_on st) = Reached m dest src n st

module _ {m : Memory} {dest src n : ℕ} (h : IsBytes m)
    (clear : (src + n ≤ dest) ⊎ (dest ≤ src)) where
  head_reached :
      (fuel j : ℕ) (st : Copy)
      → IsAt m dest src j st
      → j + st.n ≡ n
      → st.n ≤ fuel
      → HeadReached m dest src n (forward_head fuel st)
  unfolding forward_head
  head_reached zero j st at e enough = elim (Bool-cases (st.d % 8 == 0)) [
    | inl aligned ↦ rw aligned (j, at, e)
    | inr odd ↦ let all : j ≡ n = omega arith in rw odd (rw all at at.mem)
  ]
  head_reached (suc fuel) j st at e enough = elim (Bool-cases (st.d % 8 == 0)) [
    | inl aligned ↦ rw (aligned, forward_head) (j, at, e)
    | inr odd ↦
        rw (odd, forward_head)
          (elim (Bool-cases (st.n == 0)) [
            | inl none_ ↦
                let all : j ≡ n = ground arith in rw (none_, forward_head) (rw all at at.mem)
            | inr some_ ↦
                let next = bytes-IsAt clear 1 j (j + 1) st at refl (ground arith) in
                rw (some_, forward_head)
                  (head_reached fuel (j + 1) _ (record { d = next.d; s = next.s; mem = next.mem })
                    (ground arith) (ground arith))
          ])
  ]

  words-Reached :
      (fuel j : ℕ) (st : Copy)
      → IsAt m dest src j st
      → j + st.n ≡ n
      → Reached m dest src n (forward_words fuel st)
  unfolding forward_words
  words-Reached zero j st at e = (j, at, e)
  words-Reached (suc fuel) j st at e = elim (Bool-cases (leb 8 st.n)) [
    | inl more ↦
        let fits : j + 8 ≤ n = ground arith in
        let ahead =
          load_ahead n clear at.mem (src + j) 8 (omega arith) (omega arith) (omega arith) in
        rw (more, forward_words)
          (words-Reached fuel (j + 8) _
            (record {
              d = omega (arith, at.d);
              s = omega (arith, at.s);
              mem = rw (at.d, at.s) (copy_word n clear at.mem 8 _ h fits ahead);
            })
            (ground arith))
    | inr done ↦ rw (done, forward_words) (j, at, e)
  ]

  bytes-IsCopied : (st : Copy) → Reached m dest src n st → IsCopied m dest src n (forward_bytes st)
  unfolding forward_bytes
  bytes-IsCopied st (j, at, e) = (bytes-IsAt clear st.n j n st at e (omega arith)).mem

  pub forward-IsCopied :
      (st : Copy) → IsAt m dest src 0 st → st.n ≡ n → IsCopied m dest src n (forward st)
  unfolding forward
  forward-IsCopied st at e = elim (Bool-cases (st.s % 8 == st.d % 8)) [
    | inl same ↦
        rw (same, forward)
          (go (forward_head st.n st) (head_reached st.n 0 st at (omega arith) (omega arith)))
    | inr other ↦ rw other (bytes-IsCopied st (0, at, omega arith))
  ]
    where
      go :
          (o : Outcome)
          → HeadReached m dest src n o
          → IsCopied m dest src n
              (elim o [ returned m' ↦ m' | goes_on st' ↦ forward_bytes (forward_words st'.n st') ])
      go (returned m') c = c
      go (goes_on st') r =
          bytes-IsCopied (forward_words st'.n st') (words-Reached st'.n r.0 st' r.1 r.2)
