-- ===== src/Length.antt =====
-- nolibc/strlen.c and nolibc/strnlen.c.
pub mod Tests
use ocaml_solo.Prelude.{
  ℕ, zero, suc, ◌+◌, ◌-◌, ◌%◌, ◌≤◌, ◌<◌, ◌≡◌, ◌≢◌, inl, inr, refl, ap, Bool, true, false, not, ◌&&◌,
  ◌||◌, Option, none, some, arith, ltb, ◌==◌, if◌then◌else◌, ◌>>=◌, Bool-cases, while, scan_bind,
}
use ocaml_solo.Memory.{
  Memory, IsBytes, load, Cursor, cursor, advance, span_of, span_of_stopped, span_of_empty,
  byte_clear, cursor_bind,
}
use ocaml_solo.ZeroByte.{has_zero, has_zero_iff}

-- The string at `a` has `n` bytes before its NUL.
abbrev pub IsString : Memory → ℕ → ℕ → Type 0
IsString m a n = (m (a + n) ≡ 0) × ((i : ℕ) → i < n → m (a + i) ≢ 0)

-- The word loop and the last byte loop; `ALIGN` is `sizeof(size_t)`.
strlen_words : ℕ → Memory → ℕ → ℕ → Option ℕ
strlen_words fuel m a s = do
  w ← while fuel (λ w. not (has_zero (load m w 8))) (λ w. w + 8) s
  e ← while fuel (λ e. not (m e == 0)) (λ e. e + 1) w
  some (e - a)

-- The loop to the first aligned address returns at a NUL that it meets.
unfoldable pub strlen : ℕ → Memory → ℕ → Option ℕ
unfolding strlen_words while has_zero load
strlen fuel m a = do
  s ← while fuel (λ s. not (s % 8 == 0) && not (m s == 0)) (λ s. s + 1) a
  if s % 8 == 0 then strlen_words fuel m a s else some (s - a)

module _ (m : Memory) (a n : ℕ) (str : IsString m a n) where
  pub before_end : (s : ℕ) → a ≤ s → s ≤ a + n → m s ≢ 0 → s + 1 ≤ a + n
  before_end s p q ne = elim (Bool-cases (s == a + n)) [
    | inl e ↦ let e' : s ≡ a + n = ground arith in absurd (ne (rw e' str.0))
    | inr e ↦ ground arith
  ]

  pub at_end : (s : ℕ) → a ≤ s → s ≤ a + n → m s ≡ 0 → s ≡ a + n
  at_end s p q z = elim (Bool-cases (ltb s (a + n))) [
    | inl e ↦
        let at : m (a + (s - a)) ≡ 0 = let e' : a + (s - a) ≡ s = omega arith in rw e' z in
        absurd (str.1 (s - a) (ground arith) at)
    | inr e ↦ ground arith
  ]

  -- No word that holds the NUL is passed over.
  pub word_step :
      (w : ℕ) → IsBytes m → a ≤ w → w ≤ a + n → has_zero (load m w 8) ≡ false → w + 8 ≤ a + n
  word_step w h p q e = elim (Bool-cases (ltb (a + n) (w + 8))) [
    | inl inside ↦
        let at : m (w + (a + n - w)) ≡ 0 =
          let e' : w + (a + n - w) ≡ a + n = omega arith in rw e' str.0 in
        absurd ((has_zero_iff m w h).0 e (a + n - w) (ground arith) at)
    | inr beyond ↦ ground arith
  ]

  strlen_words_lem :
      (fuel s : ℕ) → IsBytes m → n < fuel → a ≤ s → s ≤ a + n → strlen_words fuel m a s ≡ some n
  unfolding strlen_words
  strlen_words_lem fuel s h enough p q =
      scan_bind _ _ _ 8 s (a + n) (omega arith)
        (λ w lo hi t. word_step w h (omega arith) hi (ground arith)) fuel (omega arith) q
        λ w lo hi _.
          scan_bind _ _ _ 1 w (a + n) (omega arith)
            (λ z lo' hi' t. before_end z (omega arith) hi' (ground arith)) fuel (omega arith) hi
            λ z lo' hi' t.
              let e = at_end z (omega arith) hi' (ground arith) in ap some (omega arith)

  -- With more fuel than bytes, `strlen` finds the NUL of the string at any address, aligned or
  -- not, and returns the number of bytes before it.
  pub strlen_lem : (fuel : ℕ) → IsBytes m → n < fuel → strlen fuel m a ≡ some n
  unfolding strlen
  strlen_lem fuel h enough =
      scan_bind _ _ _ 1 a (a + n) (omega arith) (λ z lo hi t. before_end z lo hi (ground arith))
        fuel (omega arith) (omega arith)
        λ s lo hi t. elim (Bool-cases (s % 8 == 0)) [
          | inl aligned ↦ rw aligned (strlen_words_lem fuel s h enough lo hi)
          | inr odd ↦ let e = at_end s lo hi (ground arith) in rw odd (ap some (omega arith))
        ]

-- The two loops below the aligned address, and the choice of the result.
strnlen_words : ℕ → Memory → ℕ → ℕ → Cursor → Option ℕ
strnlen_words fuel m a maxlen s = do
  w ← while fuel (λ w. ltb 8 w.left && not (has_zero (load m w.ptr 8))) (advance 8) s
  e ← while fuel (λ e. not (m e.ptr == 0) && not (e.left == 0)) (advance 1) w
  some (if not (e.left == 0) then e.ptr - a else maxlen)

unfoldable pub strnlen : ℕ → Memory → ℕ → ℕ → Option ℕ
unfolding strnlen_words while has_zero load
strnlen fuel m a maxlen = do
  s ←
      while fuel (λ s. not (s.ptr % 8 == 0) && not (s.left == 0) && not (m s.ptr == 0)) (advance 1)
        (cursor a maxlen)
  if not (s.ptr % 8 == 0) && not (s.left == 0)
      then some (s.ptr - a)
      else strnlen_words fuel m a maxlen s

module _ (m : Memory) (a maxlen : ℕ) (h : IsBytes m) where
  word_clear : (w : ℕ) → has_zero (load m w 8) ≡ false → (i : ℕ) → i < 8 → (m (w + i) == 0) ≡ false
  word_clear w e i lt = let ne = (has_zero_iff m w h).0 e i lt in ground arith

  strnlen_words_lem :
      (fuel : ℕ) (s : Cursor)
      → s.left < fuel
      → s.ptr + s.left ≡ a + maxlen
      → a ≤ s.ptr
      → span_of (λ c. c == 0) m a maxlen ≡ s.ptr - a + span_of (λ c. c == 0) m s.ptr s.left
      → strnlen_words fuel m a maxlen s ≡ some (span_of (λ c. c == 0) m a maxlen)
  unfolding strnlen_words
  strnlen_words_lem fuel s enough ends lo sum =
      cursor_bind _ _ _ (λ c. c == 0) m 8 a maxlen (omega arith)
        (λ w t. (ground arith, word_clear w.ptr (ground arith))) fuel s enough ends lo sum
        λ w ends le lo sum _.
          cursor_bind _ _ _ (λ c. c == 0) m 1 a maxlen (omega arith)
            (λ e t. (ground arith, byte_clear (λ c. c == 0) m e.ptr (ground arith))) fuel w
            (omega arith) ends lo sum
            λ e ends le lo sum stopped. ap some (
              ground (
                arith,
                span_of_stopped (λ c. c == 0) m e.ptr e.left,
                span_of_empty (λ c. c == 0) m e.ptr e.left,
              ))

  -- With more fuel than `maxlen`, `strnlen` returns the number of bytes before the first NUL, or
  -- `maxlen` if the first `maxlen` bytes hold none.
  pub strnlen_lem :
      (fuel : ℕ) → maxlen < fuel → strnlen fuel m a maxlen ≡ some (span_of (λ c. c == 0) m a maxlen)
  unfolding strnlen span_of
  strnlen_lem fuel enough =
      cursor_bind _ _ _ (λ c. c == 0) m 1 a maxlen (omega arith)
        (λ s t. (ground arith, byte_clear (λ c. c == 0) m s.ptr (ground arith))) fuel
        (cursor a maxlen) enough refl (omega arith) (omega arith)
        λ s ends le lo sum stopped. elim (Bool-cases (not (s.ptr % 8 == 0) && not (s.left == 0))) [
          | inl early ↦
              rw early (ap some (ground (arith, span_of_stopped (λ c. c == 0) m s.ptr s.left)))
          | inr late ↦ rw late (strnlen_words_lem fuel s (omega arith) ends lo sum)
        ]
