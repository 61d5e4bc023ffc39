-- ===== src/Memset/Words.antt =====
-- The word stores of memset.c fill what they reach.
use ocaml_solo.Memset.Filled.{
  IsFilled, full, head_store, tail_store, Fills_tail, Fills-join, pair-Fills,
}
use ocaml_solo.Memset.{fill_words, memset_loop, memset_words}
use ocaml_solo.Prelude.{
  ℕ, zero, suc, ◌+◌, ◌-◌, ◌*◌, ◌/◌, ◌%◌, ◌^◌, ◌≤◌, ◌<◌, ◌≡◌, inl, inr, refl, ap, ◌∙◌, [], ◌∷◌,
  arith, leb, Bool-cases, bit_and, bit_or, bit_and_mask, bit_and_fields, bit_or_fields, bit_or-zero,
  zero-bit_or, bit_and-zero,
}
use ocaml_solo.ZeroByte.{ones_of}
use ocaml_solo.Memory.{Memory}

c32_splat : (c : ℕ) → (2 ^ 32 - 1) / 255 * c ≡ ones_of 4 * c
unfolding ones_of
c32_splat c = refl

c64_splat :
    (c : ℕ)
    → c < 256
    → bit_or ((2 ^ 32 - 1) / 255 * c) ((2 ^ 32 - 1) / 255 * c * 2 ^ 32 % 2 ^ 64) ≡ ones_of 8 * c
unfolding ones_of
c64_splat c hc =
    let w = (2 ^ 32 - 1) / 255 * c in
    let e : w * 2 ^ 32 % 2 ^ 64 ≡ w * 2 ^ 32 + 0 = omega arith in
    let f = bit_or_fields 32 0 w w 0 (omega arith) (omega arith) in
    let f' : bit_or w (w * 2 ^ 32 + 0) ≡ bit_or 0 w * 2 ^ 32 + bit_or w 0 =
      let z : w ≡ 0 * 2 ^ 32 + w = omega arith in ap (λ (t : ℕ). bit_or t (w * 2 ^ 32 + 0)) z ∙ f in
    ap (bit_or w) e ∙ f' ∙ omega (arith, zero-bit_or w, bit_or-zero w)

pub and_minus_four : (n : ℕ) → n < 2 ^ 64 → bit_and n (2 ^ 64 - 4) ≡ n / 4 * 4
and_minus_four n h =
    let e : n ≡ n / 4 * 2 ^ 2 + n % 4 = omega arith in
    let f = bit_and_fields 2 (n / 4) (n % 4) (2 ^ 62 - 1) 0 (omega arith) (omega arith) in
    let g : bit_and (n / 4) (2 ^ 62 - 1) ≡ n / 4 = bit_and_mask 62 (n / 4) ∙ omega arith in
    ap (λ (t : ℕ). bit_and t (2 ^ 64 - 4)) e ∙ f ∙ omega (arith, g, bit_and-zero (n % 4))

and_four : (s : ℕ) → s % 4 ≡ 0 → bit_and s 4 ≡ s / 4 % 2 * 4
and_four s h =
    let e : s ≡ s / 4 * 2 ^ 2 + 0 = omega arith in
    let f : bit_and (s / 4 * 2 ^ 2 + 0) (1 * 2 ^ 2 + 0) ≡ bit_and (s / 4) 1 * 2 ^ 2 + 0 =
      bit_and_fields 2 (s / 4) 0 1 0 (omega arith) (omega arith) in
    let g : bit_and (s / 4) 1 ≡ s / 4 % 2 = bit_and_mask 1 (s / 4) in
    ap (λ (t : ℕ). bit_and t 4) e ∙ f ∙ omega (arith, g)

-- What a region looks like once `memset` is done with it.
module _ {m : Memory} {d n c : ℕ} (hc : c < 256) where
  loop_filled :
      (fuel s left j k : ℕ) {m' : Memory}
      → left ≤ fuel
      → left % 4 ≡ 0
      → d ≤ s
      → s ≤ d + j
      → s + left ≤ d + n
      → d + n ≤ s + left + (k - 28)
      → 28 ≤ k
      → IsFilled m d n c j k m'
      → IsFilled m d n c n n (memset_loop fuel (ones_of 8 * c) s left m')
  unfolding memset_loop fill_words
  loop_filled zero s left j k en al lo hi fits reach big f = full f (omega arith)
  loop_filled (suc fuel) s left j k en al lo hi fits reach big f = elim (Bool-cases (leb 32 left)) [
    | inl more ↦
        let v = ones_of 8 * c in
        let fits' : s + 32 ≤ d + n = ground arith in
        let f1 = head_store f 8 s v refl hc (s + 8 - d) lo hi (omega arith) (omega arith) in
        let f2 =
          head_store f1 8 (s + 8) v refl hc (s + 16 - d) (omega arith) (omega arith) (omega arith)
            (omega arith) in
        let f3 =
          head_store f2 8 (s + 16) v refl hc (s + 24 - d) (omega arith) (omega arith) (omega arith)
            (omega arith) in
        let f4 =
          head_store f3 8 (s + 24) v refl hc (s + 32 - d) (omega arith) (omega arith) (omega arith)
            (omega arith) in
        rw (more, memset_loop)
          (loop_filled fuel (s + 32) (left - 32) (s + 32 - d) k (omega arith) (ground arith)
            (omega arith) (omega arith) (omega arith) (ground arith) big f4)
    | inr done ↦ rw (done, memset_loop) (full f (ground arith))
  ]

  -- From 28 bytes on: the next 16 bytes at both ends, then the loop.
  last_words :
      (s left j k : ℕ) {m' : Memory}
      → 28 ≤ left
      → left % 4 ≡ 0
      → s % 4 ≡ 0
      → d ≤ s
      → s + 12 ≤ d + j
      → s + left ≤ d + n
      → d + n ≤ s + left - 12 + k
      → IsFilled m d n c j k m'
      → let w = (2 ^ 32 - 1) / 255 * c in
        IsFilled m d n c n n (
          memset_loop left
            (bit_or w (w * 2 ^ 32 % 2 ^ 64))
            (s + (24 + bit_and s 4))
            (left - (24 + bit_and s 4))
            (fill_words 4 w
              ((s + 12)
                ∷ (s + 16)
                ∷ (s + 20)
                ∷ (s + 24)
                ∷ (s + left - 28)
                ∷ (s + left - 24)
                ∷ (s + left - 20)
                ∷ (s + left - 16)
                ∷ [])
              m'))
  unfolding fill_words
  last_words s left j k big al al' lo hi fits reach f =
      let v = (2 ^ 32 - 1) / 255 * c in
      let ev = c32_splat c in
      let a = and_four s al' in
      let f1 =
        head_store f 4 (s + 12) v ev hc (s + 16 - d) (omega arith) (omega arith) (omega arith)
          (omega arith) in
      let f2 =
        head_store f1 4 (s + 16) v ev hc (s + 20 - d) (omega arith) (omega arith) (omega arith)
          (omega arith) in
      let f3 =
        head_store f2 4 (s + 20) v ev hc (s + 24 - d) (omega arith) (omega arith) (omega arith)
          (omega arith) in
      let f4 =
        head_store f3 4 (s + 24) v ev hc (s + 28 - d) (omega arith) (omega arith) (omega arith)
          (omega arith) in
      let q =
        Fills-join (pair-Fills _ (s + left - 28) (s + left - 24) v c ev hc (omega arith))
          (pair-Fills _ (s + left - 20) (s + left - 16) v c ev hc (omega arith)) (omega arith) in
      let f5 =
        Fills_tail f4 (s + left - 28) 16 (d + n - (s + left - 28)) q (omega arith) (omega arith)
          (omega arith) (omega arith) in
      rw (c64_splat c hc) (
        loop_filled left (s + (24 + bit_and s 4)) (left - (24 + bit_and s 4)) (s + 28 - d)
          (d + n - (s + left - 28)) (omega arith) (omega arith) (omega arith) (omega arith)
          (omega arith) (omega arith) (omega arith) f5)

  pub words_filled :
      (s left j k : ℕ) {m' : Memory}
      → 4 ≤ left
      → left % 4 ≡ 0
      → s % 4 ≡ 0
      → d ≤ s
      → s ≤ d + j
      → s + left ≤ d + n
      → d + n ≤ s + left + k
      → IsFilled m d n c j k m'
      → IsFilled m d n c n n (memset_words c s left m')
  unfolding memset_words fill_words
  words_filled s left j k {m'} big al al' lo hi fits reach f =
      let v = (2 ^ 32 - 1) / 255 * c in
      let ev = c32_splat c in
      let f1 = head_store f 4 s v ev hc (s + 4 - d) lo hi (omega arith) (omega arith) in
      let f2 =
        tail_store f1 4 (s + left - 4) v ev hc (d + n - (s + left - 4)) (omega arith) (omega arith)
          (omega arith) (omega arith) in
      elim (Bool-cases (leb left 8)) [
        | inl small ↦ rw small (full f2 (ground arith))
        | inr large ↦
            let large' : 12 ≤ left = ground arith in
            let f3 =
              head_store f2 4 (s + 4) v ev hc (s + 8 - d) (omega arith) (omega arith) (omega arith)
                (omega arith) in
            let f4 =
              head_store f3 4 (s + 8) v ev hc (s + 12 - d) (omega arith) (omega arith) (omega arith)
                (omega arith) in
            let f5 =
              Fills_tail f4 (s + left - 12) 8 (d + n - (s + left - 12))
                (pair-Fills _ (s + left - 12) (s + left - 8) v c ev hc (omega arith)) (omega arith)
                (omega arith) (omega arith) (omega arith) in
            rw large (elim (Bool-cases (leb left 24)) [
              | inl middle ↦ rw middle (full f5 (ground arith))
              | inr huge ↦ rw huge (
                  last_words s left (s + 12 - d) (d + n - (s + left - 12)) (ground arith) al al' lo
                    (omega arith) fits (omega arith) f5)
            ])
      ]
