-- ===== src/Strncpy/Copying.antt =====
-- The loops of `stpncpy`: they end at the NUL of the string or behind the `n` bytes.
use ocaml_solo.Prelude.{
  ℕ, zero, suc, ◌+◌, ◌-◌, ◌%◌, ◌≤◌, ◌<◌, ◌≡◌, ◌≢◌, ◌>>=◌, ◌⊎◌, inl, inr, refl, ap, ◌∙◌, Bool, true,
  false, not, ◌||◌, some, ◌==◌, Bool-cases, while, while_total, arith,
}
use ocaml_solo.Memory.{
  Memory, load, write, write_ne, span_of, span_of-advance, span_of_stopped, span_of_empty,
  byte_clear,
}
use ocaml_solo.ZeroByte.{has_zero, has_zero_iff}
use ocaml_solo.Memcpy.{Copy}
use ocaml_solo.Memcpy.Copied.{begin, copy_byte, copy_word, load_source}
use ocaml_solo.Memcpy.Loops.{IsAt, IsWithin, clear_of}
use ocaml_solo.Strncpy.{copy_until, word_more, word_step, copy_string}

abbrev pub is_nul : ℕ → Bool
is_nul b = b == 0

module _ {m : Memory} {dest src n : ℕ} (within : IsWithin m dest src n) where
  -- The bytes of the string, `n` at most.
  abbrev pub bytes_of : ℕ
  bytes_of = span_of is_nul m src n

  -- `j` bytes have been copied, none of them a NUL.
  record Going (j : ℕ) (st : Copy) : Type 0 where
    at : IsAt m dest src j st
    left : st.n + j ≡ n
    count : span_of is_nul m src n ≡ j + span_of is_nul m (src + j) (n - j)

  -- The string has been copied; the bytes behind it may have changed.
  pub record Halted (st : Copy) : Type 0 where
    pub d : st.d ≡ dest + bytes_of
    pub s : st.s ≡ src + bytes_of
    pub left : st.n + bytes_of ≡ n
    pub moved : (b : ℕ) → dest ≤ b → b < dest + bytes_of → st.mem b ≡ m (src + (b - dest))
    pub kept : (b : ℕ) → (b < dest) ⊎ (dest + n ≤ b) → st.mem b ≡ m b
    pub stops : (st.n ≡ 0) ⊎ (st.mem st.s ≡ 0)

  -- The byte that is looked at.
  source_byte : (j : ℕ) (st : Copy) → Going j st → 0 < st.n → st.mem st.s ≡ m (src + j)
  source_byte j st g more =
      let apart = within.apart in
      let left = g.left in ap st.mem (g.at.s) ∙ g.at.mem.kept (src + j) (omega arith)

  end-Halted : (j : ℕ) (st : Copy) → Going j st → st.n ≡ 0 → Halted st
  end-Halted j st g none_ =
      let left = g.left in
      let empty = span_of_empty is_nul m (src + j) (n - j) (omega arith) in
      let count = g.count in
      let k : bytes_of ≡ j = omega arith in
      record {
        d = rw k (g.at.d);
        s = rw k (g.at.s);
        left = rw k (g.left);
        moved = λ b lo hi. g.at.mem.moved b lo (omega arith);
        kept = λ b out. g.at.mem.kept b (omega arith);
        stops = inl none_;
      }

  stopped : (j : ℕ) (st : Copy) → Going j st → m (src + j) ≡ 0 → bytes_of ≡ j
  stopped j st g nul =
      let empty = span_of_stopped is_nul m (src + j) (n - j) (ground (arith, nul)) in
      let count = g.count in omega arith

  nul-Halted : (j : ℕ) (st : Copy) → Going j st → 0 < st.n → m (src + j) ≡ 0 → Halted st
  nul-Halted j st g more nul =
      let left = g.left in
      let k = stopped j st g nul in
      record {
        d = rw k (g.at.d);
        s = rw k (g.at.s);
        left = rw k (g.left);
        moved = λ b lo hi. g.at.mem.moved b lo (omega arith);
        kept = λ b out. g.at.mem.kept b (omega arith);
        stops = inr (source_byte j st g more ∙ nul);
      }

  stored-Halted :
      (j : ℕ) (st : Copy)
      → Going j st
      → 0 < st.n
      → m (src + j) ≡ 0
      → Halted (record st { mem = write st.mem st.d (st.mem st.s) })
  stored-Halted j st g more nul =
      let h = nul-Halted j st g more nul in
      let apart = within.apart in
      let left = g.left in
      let k = stopped j st g nul in
      let at = g.at.d in
      let from = g.at.s in
      let other : (b : ℕ) → b ≢ st.d → write st.mem st.d (st.mem st.s) b ≡ st.mem b =
        write_ne st.mem st.d (st.mem st.s) in
      record {
        d = h.d;
        s = h.s;
        left = h.left;
        moved = λ b lo hi. other b (λ e. omega arith) ∙ h.moved b lo hi;
        kept = λ b out. other b (λ e. omega arith) ∙ h.kept b out;
        stops = inr (other st.s (λ e. omega arith) ∙ (source_byte j st g more ∙ nul));
      }

  -- The count behind `i` more bytes, none of them a NUL.
  count_on :
      (i j : ℕ) (st : Copy)
      → Going j st
      → j + i ≤ n
      → ((b : ℕ) → b < i → is_nul (m (src + j + b)) ≡ false)
      → bytes_of ≡ j + i + span_of is_nul m (src + (j + i)) (n - (j + i))
  count_on i j st g fits clear =
      let e : src + j + i ≡ src + (j + i) = omega arith in
      let e' : n - j - i ≡ n - (j + i) = omega arith in
      let on = rw (e, e') at (span_of-advance is_nul m i (src + j) (n - j) (omega arith) clear) in
      omega (arith, g.count, on)

  byte_Going :
      (j : ℕ) (st : Copy)
      → Going j st
      → 0 < st.n
      → (st.mem st.s == 0) ≡ false
      → Going (j + 1) (record {
        mem = write st.mem st.d (st.mem st.s);
        d = st.d + 1;
        s = st.s + 1;
        n = st.n - 1;
      })
  byte_Going j st g more ne =
      let left = g.left in
      let same = source_byte j st g more in
      let clear = byte_clear is_nul m (src + j) (rw same at ne) in
      record {
        at = record {
          d = omega (arith, g.at.d);
          s = omega (arith, g.at.s);
          mem = rw (g.at.d, g.at.s) (copy_byte n (clear_of within) g.at.mem (omega arith));
        };
        left = omega arith;
        count = count_on 1 j st g (omega arith) clear;
      }

  word_Going : (j : ℕ) (st : Copy) → Going j st → word_more st ≡ true → Going (j + 8) (word_step st)
  word_Going j st g more =
      let left = g.left in
      let fits : 8 ≤ st.n = ground arith in
      let same =
        load_source n within.apart g.at.mem (src + j) 8 (omega arith) (omega arith) (omega arith) in
      let whole : has_zero (load m (src + j) 8) ≡ false =
        rw (← same) (rw (← g.at.s) (ground (arith, more))) in
      let clear = (has_zero_iff m (src + j) within.bytes).0 whole in
      record {
        at = record {
          d = omega (arith, g.at.d);
          s = omega (arith, g.at.s);
          mem =
              rw (g.at.d, g.at.s)
                (copy_word n (clear_of within) g.at.mem 8 _ within.bytes (omega arith) same);
        };
        left = omega arith;
        count = count_on 8 j st g (omega arith) (λ b lt. let ne = clear b lt in ground arith);
      }

  -- Where a loop over bytes ends.
  abbrev Paused : (ℕ → Bool) → Copy → Type 0
  Paused go st = Halted st ⊎ ((j : ℕ) × Going j st × (0 < st.n) × (go st.s ≡ false))

  until_lem :
      (fuel : ℕ) (go : ℕ → Bool) (j : ℕ) (st : Copy)
      → Going j st
      → st.n < fuel
      → (st' : Copy) × (copy_until fuel go st ≡ some st') × Paused go st'
  unfolding copy_until
  until_lem zero go j st g enough = absurd (omega arith)
  until_lem (suc fuel) go j st g enough = elim (Bool-cases (st.n == 0)) [
    | inl none_ ↦
        let stop : (not (go st.s) || st.n == 0) ≡ true = ground arith in
        rw stop (st, refl, inl (end-Halted j st g (ground arith)))
    | inr some_ ↦
        let more : 0 < st.n = ground arith in
        elim (Bool-cases (go st.s)) [
          | inr aligned ↦ rw aligned (st, refl, inr (j, g, more, aligned))
          | inl going ↦
              rw (going, some_)
                (elim (Bool-cases (st.mem st.s == 0)) [
                  | inl nul ↦
                      let same = source_byte j st g more in
                      let z : m (src + j) ≡ 0 = ground arith in
                      rw nul (_, refl, inl (stored-Halted j st g more z))
                  | inr ne ↦
                      rw ne (until_lem fuel go (j + 1) _ (byte_Going j st g more ne) (omega arith))
                ])
        ]
  ]

  -- To the end of the string or of the `n` bytes, byte by byte.
  end_lem :
      (fuel j : ℕ) (st : Copy)
      → Going j st
      → st.n < fuel
      → (st' : Copy) × (copy_until fuel (λ s. true) st ≡ some st') × Halted st'
  end_lem fuel j st g enough =
      let (st', e, p) = until_lem fuel (λ s. true) j st g enough in
      elim p [ inl halted ↦ (st', e, halted) | inr (j, g, more, stop) ↦ ground arith ]

  -- The loop over words and the bytes behind it.
  words_lem :
      (fuel j : ℕ) (st : Copy)
      → Going j st
      → n < fuel
      → (st' : Copy) × ((while fuel word_more word_step st >>= copy_until fuel (λ s. true))
          ≡ some st')
        × Halted st'
  words_lem fuel j st g enough =
      let left = g.left in
      let (st1, e1, (i, g1), stop) =
        while_total word_more word_step (λ (st : Copy). (i : ℕ) × Going i st) (λ st. st.n)
          (λ st more inv. (ground (arith, more), (inv.0 + 8, word_Going inv.0 st inv.1 more))) fuel
          st (j, g) (omega arith) in
      let left = g1.left in
      let (st2, e2, h) = end_lem fuel i st1 g1 (omega arith) in (st2, rw e1 e2, h)

  pub copy_string_lem :
      (fuel : ℕ)
      → n < fuel
      → (st' : Copy) × (copy_string fuel (record { mem = m; d = dest; s = src; n = n }) ≡ some st')
        × Halted st'
  unfolding copy_string
  copy_string_lem fuel enough =
      let g : Going 0 (record { mem = m; d = dest; s = src; n = n }) = record {
        at = record { d = omega arith; s = omega arith; mem = begin m dest src };
        left = omega arith;
        count =
            let z : src + 0 ≡ src = omega arith in
            let z' : n - 0 ≡ n = omega arith in rw (z, z') (omega arith);
      } in
      elim (Bool-cases (src % 8 == dest % 8)) [
        | inr apart ↦ rw apart (end_lem fuel 0 _ g enough)
        | inl together ↦
            let (st, e, p) = until_lem fuel (λ s. not (s % 8 == 0)) 0 _ g enough in
            rw (together, e)
              (elim p [
                | inl h ↦
                    let stops = h.stops in
                    let last : (st.n == 0 || st.mem st.s == 0) ≡ true = ground arith in
                    rw last (st, refl, h)
                | inr (j, g, more, aligned) ↦
                    let some_ : (st.n == 0) ≡ false = ground arith in
                    elim (Bool-cases (st.mem st.s == 0)) [
                      | inl nul ↦
                          let same = source_byte j st g more in
                          let z : m (src + j) ≡ 0 = ground arith in
                          rw (some_, nul) (st, refl, nul-Halted j st g more z)
                      | inr ne ↦ rw (some_, ne) (words_lem fuel j st g enough)
                    ]
              ])
      ]
