-- ===== src/Memcpy/Shift.antt =====
-- The loops of memcpy.c whose source and destination are aligned differently.
use ocaml_solo.Prelude.{
  ℕ, zero, suc, ◌+◌, ◌-◌, ◌*◌, ◌/◌, ◌%◌, ◌^◌, ◌≤◌, ◌<◌, ◌≡◌, inl, inr, refl, ap, ap₂, ◌∙◌, sym,
  arith, leb, Bool-cases, bit_or, bit_or_fields, bit_or-zero, zero-bit_or,
}
use ocaml_solo.Memory.{Memory, IsBytes, load, store}
use ocaml_solo.Memcpy.{Copy, join, shift_round, shift_loop, shift_case}
use ocaml_solo.Memcpy.Copied.{IsCopied, copy_word, load_source}
use ocaml_solo.Memcpy.Loops.{IsAt, IsWithin, Reached, bytes-IsAt, clear_of}

load_four :
    (m : Memory) (p : ℕ)
    → load m p 4 ≡ m p + 2 ^ 8 * m (p + 1) + 2 ^ 16 * m (p + 2) + 2 ^ 24 * m (p + 3)
unfolding load
load_four m p =
    let e2 : m (p + 1 + 1) ≡ m (p + 2) = ap m (omega arith) in
    let e3 : m (p + 1 + 1 + 1) ≡ m (p + 3) = ap m (omega arith) in omega arith

bit_or_low : (k q r : ℕ) → r < 2 ^ k → 0 < 2 ^ k → bit_or r (q * 2 ^ k) ≡ q * 2 ^ k + r
bit_or_low k q r h h' =
    let e : 0 * 2 ^ k + r ≡ r = omega arith in
    let e' : q * 2 ^ k + 0 ≡ q * 2 ^ k = omega arith in
    let f = bit_or_fields k 0 r q 0 h h' in
    ap₂ bit_or (sym e) (sym e')
    ∙ f
    ∙ ap₂ ◌+◌ (ap (λ (t : ℕ). t * 2 ^ k) (zero-bit_or q)) (bit_or-zero r)

-- Two words in a row, shifted and put together, are the word in between.
join_lem :
    (m : Memory) (p o : ℕ)
    → IsBytes m
    → 0 < o
    → o < 4
    → join o (load m p 4) (load m (p + 4) 4) ≡ load m (p + (4 - o)) 4
unfolding join
join_lem m p zero h pos lt = absurd (omega arith)
join_lem m p (suc zero) h pos lt =
    let w : load m p 4 / 2 ^ 24 ≡ m (p + 3) =
      omega (arith, load_four m p, h (p + 0), h (p + 1), h (p + 2), h (p + 3)) in
    let x : load m (p + 4) 4 * 2 ^ 8 % 2 ^ 32
        ≡ (m (p + 4) + 2 ^ 8 * m (p + 4 + 1) + 2 ^ 16 * m (p + 4 + 2)) * 2 ^ 8 =
      omega (arith, load_four m (p + 4), h (p + 4), h (p + 4 + 1), h (p + 4 + 2), h (p + 4 + 3)) in
    let small : m (p + 3) < 2 ^ 8 = omega (arith, h (p + 0), h (p + 1), h (p + 2), h (p + 3)) in
    let e1 : m (p + 3 + 1) ≡ m (p + 4) = ap m (omega arith) in
    let e2 : m (p + 3 + 2) ≡ m (p + 4 + 1) = ap m (omega arith) in
    let e3 : m (p + 3 + 3) ≡ m (p + 4 + 2) = ap m (omega arith) in
    let sum =
      bit_or_low 8 (m (p + 4) + 2 ^ 8 * m (p + 4 + 1) + 2 ^ 16 * m (p + 4 + 2)) (m (p + 3)) small
        (omega arith) in
    ap₂ bit_or w x ∙ sum ∙ omega (arith, load_four m (p + 3))
join_lem m p (suc (suc zero)) h pos lt =
    let w : load m p 4 / 2 ^ 16 ≡ m (p + 2) + 2 ^ 8 * m (p + 3) =
      omega (arith, load_four m p, h (p + 0), h (p + 1), h (p + 2), h (p + 3)) in
    let x : load m (p + 4) 4 * 2 ^ 16 % 2 ^ 32 ≡ (m (p + 4) + 2 ^ 8 * m (p + 4 + 1)) * 2 ^ 16 =
      omega (arith, load_four m (p + 4), h (p + 4), h (p + 4 + 1), h (p + 4 + 2), h (p + 4 + 3)) in
    let small : m (p + 2) + 2 ^ 8 * m (p + 3) < 2 ^ 16 =
      omega (arith, h (p + 0), h (p + 1), h (p + 2), h (p + 3)) in
    let e1 : m (p + 2 + 1) ≡ m (p + 3) = ap m (omega arith) in
    let e2 : m (p + 2 + 2) ≡ m (p + 4) = ap m (omega arith) in
    let e3 : m (p + 2 + 3) ≡ m (p + 4 + 1) = ap m (omega arith) in
    let sum =
      bit_or_low 16 (m (p + 4) + 2 ^ 8 * m (p + 4 + 1)) (m (p + 2) + 2 ^ 8 * m (p + 3)) small
        (omega arith) in
    ap₂ bit_or w x ∙ sum ∙ omega (arith, load_four m (p + 2))
join_lem m p (suc (suc (suc zero))) h pos lt =
    let w : load m p 4 / 2 ^ 8 ≡ m (p + 1) + 2 ^ 8 * m (p + 2) + 2 ^ 16 * m (p + 3) =
      omega (arith, load_four m p, h (p + 0), h (p + 1), h (p + 2), h (p + 3)) in
    let x : load m (p + 4) 4 * 2 ^ 24 % 2 ^ 32 ≡ (m (p + 4)) * 2 ^ 24 =
      omega (arith, load_four m (p + 4), h (p + 4), h (p + 4 + 1), h (p + 4 + 2), h (p + 4 + 3)) in
    let small : m (p + 1) + 2 ^ 8 * m (p + 2) + 2 ^ 16 * m (p + 3) < 2 ^ 24 =
      omega (arith, h (p + 0), h (p + 1), h (p + 2), h (p + 3)) in
    let e1 : m (p + 1 + 1) ≡ m (p + 2) = ap m (omega arith) in
    let e2 : m (p + 1 + 2) ≡ m (p + 3) = ap m (omega arith) in
    let e3 : m (p + 1 + 3) ≡ m (p + 4) = ap m (omega arith) in
    let sum =
      bit_or_low 24 (m (p + 4)) (m (p + 1) + 2 ^ 8 * m (p + 2) + 2 ^ 16 * m (p + 3)) small
        (omega arith) in
    ap₂ bit_or w x ∙ sum ∙ omega (arith, load_four m (p + 1))
join_lem m p (suc (suc (suc (suc o)))) h pos lt = absurd (omega arith)

module _ {m : Memory} {dest src n : ℕ} (within : IsWithin m dest src n) (o : ℕ) (pos : 0 < o)
    (lt : o < 4) where
  -- The word that the loop has in hand: the four bytes that end at `src + j + o`.
  abbrev InHand : ℕ → ℕ → Type 0
  InHand j w = w ≡ load m (src + j + o - 4) 4

  -- One load and one store of a round.
  word_at :
      (j i : ℕ) (m' : Memory) (w a q : ℕ)
      → IsCopied m dest src j m'
      → InHand j w
      → 4 ≤ j + o
      → j + 4 + o ≤ n
      → a ≡ dest + j
      → q ≡ src + j + o
      → i ≡ j + 4
      → IsCopied m dest src i (store m' a 4 (join o w (load m' q 4))) × InHand i (load m' q 4)
  word_at j i m' w a q c hand back fits ea eq ei =
      let p = src + j + o - 4 in
      let x : load m' q 4 ≡ load m (p + 4) 4 =
        load_source n within.apart c q 4 (omega arith) (omega arith) (omega arith)
        ∙ ap (λ (t : ℕ). load m t 4) (omega arith) in
      let value : join o w (load m' q 4) ≡ load m (src + j) 4 =
        ap₂ (join o) hand x
        ∙ join_lem m p o within.bytes pos lt
        ∙ ap (λ (t : ℕ). load m t 4) (omega arith) in
      let next : p + 4 ≡ src + (j + 4) + o - 4 = omega arith in
      rw (ea, ei)
        (
          copy_word n (clear_of within) c 4 _ within.bytes (omega arith) value,
          x ∙ ap (λ (t : ℕ). load m t 4) next,
        )

  round-IsAt :
      (w j : ℕ) (st : Copy)
      → IsAt m dest src j st
      → InHand j w
      → 4 ≤ j + o
      → j + 16 + o ≤ n
      → IsAt m dest src (j + 16) (shift_round o w st).0
        × InHand (j + 16) (shift_round o w st).1
        × ((shift_round o w st).0.n ≡ st.n - 16)
  unfolding shift_round
  round-IsAt w j st at hand back fits =
      let ed = at.d in
      let es = at.s in
      let (c1, h1) =
        word_at j (j + 4) _ _ st.d (st.s + o) at.mem hand back (omega arith) ed (omega arith)
          refl in
      let (c2, h2) =
        word_at (j + 4) (j + 8) _ _ (st.d + 4) (st.s + o + 4) c1 h1 (omega arith) (omega arith)
          (omega arith) (omega arith) (omega arith) in
      let (c3, h3) =
        word_at (j + 8) (j + 12) _ _ (st.d + 8) (st.s + o + 8) c2 h2 (omega arith) (omega arith)
          (omega arith) (omega arith) (omega arith) in
      let (c4, h4) =
        word_at (j + 12) (j + 16) _ _ (st.d + 12) (st.s + o + 12) c3 h3 (omega arith) (omega arith)
          (omega arith) (omega arith) (omega arith) in
      (record { d = omega arith; s = omega arith; mem = c4 }, h4, refl)

  loop-Reached :
      (fuel w j : ℕ) (st : Copy)
      → IsAt m dest src j st
      → InHand j w
      → 4 ≤ j + o
      → j + st.n ≡ n
      → st.n ≤ fuel
      → Reached m dest src n (shift_loop fuel o w st) × ((shift_loop fuel o w st).n < 16 + o)
  unfolding shift_loop
  loop-Reached zero w j st at hand back e enough = ((j, at, e), omega arith)
  loop-Reached (suc fuel) w j st at hand back e enough = elim (Bool-cases (leb (16 + o) st.n)) [
    | inl more ↦
        let r = round-IsAt w j st at hand back (ground arith) in
        rw (more, shift_loop)
          (loop-Reached fuel (shift_round o w st).1 (j + 16) (shift_round o w st).0 r.0 r.1
            (omega arith) (ground (arith, r.2)) (ground (arith, r.2)))
    | inr done ↦ rw (done, shift_loop) ((j, at, e), ground arith)
  ]

  pub case-Reached :
      (j : ℕ) (st : Copy)
      → IsAt m dest src j st
      → j + st.n ≡ n
      → 32 ≤ st.n
      → Reached m dest src n (shift_case o st) × ((shift_case o st).n < 16 + o)
  unfolding shift_case
  case-Reached j st at e big =
      let b = bytes-IsAt (clear_of within) (4 - o) j (j + (4 - o)) st at refl (omega arith) in
      let hand : load st.mem st.s 4 ≡ load m (src + (j + (4 - o)) + o - 4) 4 =
        load_source n within.apart at.mem st.s 4 (omega arith) (omega (arith, at.s))
          (omega (arith, at.s))
        ∙ ap (λ (t : ℕ). load m t 4) (omega (arith, at.s)) in
      loop-Reached st.n (load st.mem st.s 4) (j + (4 - o)) _
        (record { d = b.d; s = b.s; mem = b.mem }) hand (omega arith) (omega arith) (omega arith)
