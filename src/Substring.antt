-- ===== src/Substring.antt =====
-- nolibc/strstr.c: the searches for needles of two, three and four bytes; Twoway is the one for longer
-- needles.
pub mod First
pub mod Short
pub mod Dispatch
pub mod Strstr
pub mod Twoway
pub mod Tests
use ocaml_solo.Prelude.{
  ℕ, zero, suc, ◌+◌, ◌-◌, ◌*◌, ◌%◌, ◌^◌, ◌≤◌, ◌<◌, ◌≡◌, ◌≢◌, ◌⊎◌, refl, ap, sym, ◌∙◌, Bool-cases,
  true, false, inl, inr, arith, Option, some, none, ◌>>=◌, ◌==◌, not, ◌&&◌, if◌then◌else◌, bit_or,
  bit_or_sum,
}
use ocaml_solo.Memory.{Memory, IsBytes}

-- The loop of the three: `h` is at the last byte of the window `hw`, and `next` takes in one more.
unfoldable pub slide : ℕ → Memory → (ℕ → ℕ → ℕ) → ℕ → ℕ → ℕ → Option ℕ
slide zero m next nw h hw = none
slide (suc fuel) m next nw h hw =
    let rest = slide fuel m next nw (h + 1) (next hw (m (h + 1))) in
    if not (m h == 0) && not (hw == nw) then rest else some h

-- The windows, as their first words are computed.
unfoldable pub two : Memory → ℕ → ℕ
two m a = bit_or (m a * 2 ^ 8) (m (a + 1))

unfoldable pub three : Memory → ℕ → ℕ
three m a = bit_or (bit_or (m a * 2 ^ 24) (m (a + 1) * 2 ^ 16)) (m (a + 2) * 2 ^ 8)

unfoldable pub four : Memory → ℕ → ℕ
four m a =
    bit_or (bit_or (bit_or (m a * 2 ^ 24) (m (a + 1) * 2 ^ 16)) (m (a + 2) * 2 ^ 8)) (m (a + 3))

-- The null pointer is `none`.
unfoldable pub twobyte_strstr : ℕ → Memory → ℕ → ℕ → Option (Option ℕ)
unfolding two
twobyte_strstr fuel m h n = do
  h ← slide fuel m (λ hw c. bit_or (hw * 2 ^ 8 % 2 ^ 16) c) (two m n) (h + 1) (two m h)
  some (if m h == 0 then none else some (h - 1))

unfoldable pub threebyte_strstr : ℕ → Memory → ℕ → ℕ → Option (Option ℕ)
unfolding three
threebyte_strstr fuel m h n = do
  h ← slide fuel m (λ hw c. bit_or hw c * 2 ^ 8 % 2 ^ 32) (three m n) (h + 2) (three m h)
  some (if m h == 0 then none else some (h - 2))

unfoldable pub fourbyte_strstr : ℕ → Memory → ℕ → ℕ → Option (Option ℕ)
unfolding four
fourbyte_strstr fuel m h n = do
  h ← slide fuel m (λ hw c. bit_or (hw * 2 ^ 8 % 2 ^ 32) c) (four m n) (h + 3) (four m h)
  some (if m h == 0 then none else some (h - 3))

-- The loop ends at the first NUL or window `nw`, where `window p` is the window that ends at `p`.
module _ (m : Memory) (next : ℕ → ℕ → ℕ) (window : ℕ → ℕ) (nw last : ℕ)
    (moves : (p : ℕ) → next (window p) (m (p + 1)) ≡ window (p + 1)) (ends : m last ≡ 0) where
  pub slide_lem :
      (fuel h : ℕ)
      → h ≤ last
      → last < h + fuel
      → (e : ℕ) × (slide fuel m next nw h (window h) ≡ some e)
        × (h ≤ e)
        × (e ≤ last)
        × ((m e ≡ 0) ⊎ ((m e ≢ 0) × (window e ≡ nw)))
        × ((i : ℕ) → h ≤ i → i < e → (m i ≢ 0) × (window i ≢ nw))
  unfolding slide
  slide_lem zero h le enough = absurd (omega arith)
  slide_lem (suc fuel) h le enough = elim (Bool-cases (m h == 0)) [
    | inl nul ↦
        (h, rw nul refl, omega arith, le, inl (ground arith), λ i lo hi. absurd (omega arith))
    | inr more ↦ elim (Bool-cases (window h == nw)) [
      | inl found ↦ (
        h,
        rw (more, found) refl,
        omega arith,
        le,
        inr (λ z. absurd (ground arith), ground arith),
        λ i lo hi. absurd (omega arith),
      )
      | inr other ↦
          let below : h < last = elim (Bool-cases (h == last)) [
            | inl at ↦
                let at' = ap m (let e : h ≡ last = ground arith in e) in absurd (ground arith)
            | inr before ↦ ground arith
          ] in
          let (e, run, lo, hi, stop, passed) = slide_lem fuel (h + 1) (omega arith) (omega arith) in
          (
            e,
            rw (more, other, moves h) run,
            omega arith,
            hi,
            stop,
            λ i lo' hi'. elim (Bool-cases (i == h)) [
              | inl at ↦
                  let e' : i ≡ h = ground arith in
                  rw e' (λ z. absurd (ground arith), λ w. absurd (ground arith))
              | inr after ↦ passed i (ground arith) hi'
            ],
          )
    ]
  ]
