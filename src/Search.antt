-- ===== src/Search.antt =====
-- nolibc/memchr.c, nolibc/strchrnul.c and nolibc/strchr.c.
pub mod Tests
use ocaml_solo.Prelude.{
  ℕ, zero, suc, ◌+◌, ◌-◌, ◌*◌, ◌%◌, ◌^◌, ◌≤◌, ◌<◌, ◌≡◌, ◌≢◌, ◌⊎◌, inl, inr, refl, ap, Bool, true,
  false, not, ◌&&◌, ◌||◌, Option, none, some, arith, ltb, leb, ◌==◌, if◌then◌else◌, ◌>>=◌,
  Bool-cases, while, scan_bind, scan_total, bit_xor,
}
use ocaml_solo.Memory.{
  Memory, IsBytes, load, Cursor, cursor, advance, span_of, span_of_stopped, span_of_empty,
  span_of-le, span_of_at, span_of_before, byte_clear, cursor_bind,
}
use ocaml_solo.ZeroByte.{ones, has_zero, has_zero_iff, has_zero-xor_iff}
use ocaml_solo.Length.{IsString, before_end, at_end, word_step, strlen, strlen_lem}

-- `ONES * c`
unfoldable pub splat : ℕ → ℕ
unfolding ones
splat c = ones * c % 2 ^ 64

-- `return n ? (void *)s : 0`, with NULL as `none`.
abbrev here_or_null : Cursor → Option ℕ
here_or_null s = if not (s.left == 0) then some s.ptr else none

-- The word loop and the byte loop after it, entered at a byte that is not the one sought.
memchr_words : ℕ → Memory → ℕ → Cursor → Option (Option ℕ)
memchr_words fuel m c s = do
  w ←
      while fuel (λ w. leb 8 w.left && not (has_zero (bit_xor (load m w.ptr 8) (splat c))))
        (advance 8) s
  e ← while fuel (λ e. not (e.left == 0) && not (m e.ptr == c)) (advance 1) w
  some (here_or_null e)

-- The outer `none` is a loop that ran out of fuel.
unfoldable pub memchr : ℕ → Memory → ℕ → ℕ → ℕ → Option (Option ℕ)
unfolding memchr_words splat while has_zero load
memchr fuel m src c n = do
  let c = c % 256
  s ←
      while fuel (λ s. not (s.ptr % 8 == 0) && not (s.left == 0) && not (m s.ptr == c)) (advance 1)
        (cursor src n)
  if not (s.left == 0) && not (m s.ptr == c) then memchr_words fuel m c s else some (here_or_null s)

module _ (m : Memory) (a n c : ℕ) (h : IsBytes m) (hc : c < 256) where
  word_clear :
      (w : ℕ)
      → has_zero (bit_xor (load m w 8) (splat c)) ≡ false
      → (i : ℕ) → i < 8
      → (m (w + i) == c) ≡ false
  unfolding splat
  word_clear w e i lt = let ne = (has_zero-xor_iff m w c h hc).0 e i lt in ground arith

  -- The first of the `n` bytes that is `c`, if there is one.
  abbrev first : Option ℕ
  first =
      if ltb (span_of (λ b. b == c) m a n) n then some (a + span_of (λ b. b == c) m a n) else none

  at_rest :
      (e : Cursor)
      → e.ptr + e.left ≡ a + n
      → a ≤ e.ptr
      → span_of (λ b. b == c) m a n ≡ e.ptr - a + span_of (λ b. b == c) m e.ptr e.left
      → (not (e.left == 0) && not (m e.ptr == c)) ≡ false
      → here_or_null e ≡ first
  at_rest e ends lo sum stopped = ground (
    arith,
    span_of_stopped (λ b. b == c) m e.ptr e.left,
    span_of_empty (λ b. b == c) m e.ptr e.left,
  )

  memchr_words_lem :
      (fuel : ℕ) (s : Cursor)
      → s.left < fuel
      → s.ptr + s.left ≡ a + n
      → a ≤ s.ptr
      → span_of (λ b. b == c) m a n ≡ s.ptr - a + span_of (λ b. b == c) m s.ptr s.left
      → memchr_words fuel m c s ≡ some first
  unfolding memchr_words
  memchr_words_lem fuel s enough ends lo sum =
      cursor_bind _ _ _ (λ b. b == c) m 8 a n (omega arith)
        (λ w t. (ground arith, word_clear w.ptr (ground arith))) fuel s enough ends lo sum
        λ w ends le lo sum _.
          cursor_bind _ _ _ (λ b. b == c) m 1 a n (omega arith)
            (λ e t. (ground arith, byte_clear (λ b. b == c) m e.ptr (ground arith))) fuel w
            (omega arith) ends lo sum
            λ e ends le lo sum stopped. ap some (at_rest e ends lo sum stopped)

-- With more fuel than `n`, `memchr` returns a pointer to the first of the `n` bytes at `src` that
-- equals `c` taken as an unsigned char, and NULL if there is none.
pub memchr_lem :
    (m : Memory) (src n c : ℕ) (fuel : ℕ)
    → IsBytes m
    → n < fuel
    → memchr fuel m src c n
      ≡ some
          (let k = span_of (λ b. b == c % 256) m src n in if ltb k n then some (src + k) else none)
unfolding memchr span_of
memchr_lem m src n c fuel h enough =
    cursor_bind _ _ _ (λ b. b == c % 256) m 1 src n (omega arith)
      (λ s t. (ground arith, byte_clear (λ b. b == c % 256) m s.ptr (ground arith))) fuel
      (cursor src n) enough refl (omega arith) (omega arith)
      λ s ends le lo sum stopped.
        elim (Bool-cases (not (s.left == 0) && not (m s.ptr == c % 256))) [
          | inl more ↦
              rw more (
                memchr_words_lem m src n (c % 256) h (omega arith) fuel s (omega arith) ends lo sum)
          | inr done ↦
              rw done (ap some (at_rest m src n (c % 256) h (omega arith) s ends lo sum done))
        ]

-- The word loop of `__strchrnul` and the byte loop after it.
strchrnul_words : ℕ → Memory → ℕ → ℕ → Option ℕ
strchrnul_words fuel m c s = do
  w ←
      while fuel
        (λ w. not (has_zero (load m w 8)) && not (has_zero (bit_xor (load m w 8) (splat c))))
        (λ w. w + 8) s
  while fuel (λ e. not (m e == 0) && not (m e == c)) (λ e. e + 1) w

unfoldable pub strchrnul : ℕ → Memory → ℕ → ℕ → Option ℕ
unfolding strchrnul_words splat while has_zero load
strchrnul fuel m a c =
    let c = c % 256 in
    if c == 0 then (strlen fuel m a >>= λ n. some (a + n)) else (do
      s ← while fuel (λ s. not (s % 8 == 0) && not (m s == 0 || m s == c)) (λ s. s + 1) a
      if s % 8 == 0 then strchrnul_words fuel m c s else some s)

-- NULL is the inner `none`.
unfoldable pub strchr : ℕ → Memory → ℕ → ℕ → Option (Option ℕ)
unfolding strchrnul
strchr fuel m a c = do r ← strchrnul fuel m a c; some (if m r == c % 256 then some r else none)

nul_reach : (m : Memory) (a n c : ℕ) → IsString m a n → c ≡ 0 → span_of (λ b. b == c) m a n ≡ n
nul_reach m a n c str z = elim (Bool-cases (ltb (span_of (λ b. b == c) m a n) n)) [
  | inl inside ↦
      let ne = str.1 (span_of (λ b. b == c) m a n) (ground arith) in
      ground (arith, span_of_at (λ b. b == c) m a n)
  | inr whole ↦ ground (arith, span_of-le (λ b. b == c) m a n)
]

module _ (m : Memory) (a n c : ℕ) (h : IsBytes m) (hc : c < 256) (str : IsString m a n) where
  -- The distance to the first `c`, or to the NUL.
  abbrev reach : ℕ
  reach = span_of (λ b. b == c) m a n

  ends_at : (m (a + reach) ≡ 0) ⊎ (m (a + reach) ≡ c)
  ends_at = elim (Bool-cases (ltb reach n)) [
    | inl inside ↦ inr (ground (arith, span_of_at (λ b. b == c) m a n))
    | inr whole ↦
        let e : a + reach ≡ a + n = ground (arith, span_of-le (λ b. b == c) m a n) in
        inl (rw e str.0)
  ]

  goes_on : (s : ℕ) → a ≤ s → s ≤ a + reach → m s ≢ 0 → m s ≢ c → s + 1 ≤ a + reach
  goes_on s lo hi nz nc = elim (Bool-cases (s == a + reach)) [
    | inl e ↦
        let e' : s ≡ a + reach = ground arith in
        absurd (elim ends_at [ inl z ↦ nz (rw e' z) | inr z ↦ nc (rw e' z) ])
    | inr e ↦ ground arith
  ]

  stops_at : (s : ℕ) → a ≤ s → s ≤ a + reach → (m s ≡ 0) ⊎ (m s ≡ c) → s ≡ a + reach
  stops_at s lo hi z = elim (Bool-cases (ltb s (a + reach))) [
    | inl early ↦
        let e : a + (s - a) ≡ s = omega arith in
        let le = span_of-le (λ b. b == c) m a n in
        let ne = str.1 (s - a) (ground arith) in
        let other = span_of_before (λ b. b == c) m a n (s - a) (ground arith) in
        absurd (elim z [
          | inl nul ↦ ne (rw e nul)
          | inr same ↦ let same' : m (a + (s - a)) ≡ c = rw e same in ground arith
        ])
    | inr late ↦ ground arith
  ]

  words_go_on :
      (w : ℕ)
      → a ≤ w
      → w ≤ a + reach
      → has_zero (load m w 8) ≡ false
      → has_zero (bit_xor (load m w 8) (splat c)) ≡ false
      → w + 8 ≤ a + reach
  words_go_on w lo hi nz nc = elim (Bool-cases (ltb (a + reach) (w + 8))) [
    | inl inside ↦
        let i = a + reach - w in
        let e : w + i ≡ a + reach = omega arith in
        absurd (elim ends_at [
          | inl z ↦ (has_zero_iff m w h).0 nz i (ground arith) (rw e z)
          | inr z ↦
              let other = word_clear m a n c h hc w nc i (ground arith) in
              let same : m (w + i) ≡ c = rw e z in ground arith
        ])
    | inr beyond ↦ ground arith
  ]

  strchrnul_words_lem :
      (fuel s : ℕ)
      → n < fuel
      → a ≤ s
      → s ≤ a + reach
      → strchrnul_words fuel m c s ≡ some (a + reach)
  unfolding strchrnul_words
  strchrnul_words_lem fuel s enough lo hi =
      let le = span_of-le (λ b. b == c) m a n in
      scan_bind _ _ _ 8 s (a + reach) (omega arith)
        (λ w lo' hi' t. words_go_on w (omega arith) hi' (ground arith) (ground arith)) fuel
        (omega arith) hi
        λ w lo' hi' _.
          let (e, eq, lo'', hi'', stop) =
            scan_total (λ e. not (m e == 0) && not (m e == c)) 1 w (a + reach) (omega arith)
              (λ e lo'' hi'' t. goes_on e (omega arith) hi'' (ground arith) (ground arith)) fuel
              (omega arith) hi' in
          rw eq (ap some (stops_at e (omega arith) hi'' (ground arith)))

-- In a string, `__strchrnul` returns a pointer to the first `c`, or to the NUL if there is none;
-- it needs more fuel than the string has bytes.
pub strchrnul_lem :
    (m : Memory) (a n c : ℕ) (fuel : ℕ)
    → IsBytes m
    → IsString m a n
    → n < fuel
    → strchrnul fuel m a c ≡ some (a + span_of (λ b. b == c % 256) m a n)
unfolding strchrnul
strchrnul_lem m a n c fuel h str enough = elim (Bool-cases (c % 256 == 0)) [
  | inl z ↦
      let e = nul_reach m a n (c % 256) str (ground arith) in
      rw (z, strlen_lem m a n str fuel h enough) (ap some (omega arith))
  | inr nz ↦
      let hc : c % 256 < 256 = omega arith in
      let le = span_of-le (λ b. b == c % 256) m a n in
      rw nz (
        scan_bind _ _ _ 1 a (a + span_of (λ b. b == c % 256) m a n) (omega arith)
          (λ s lo hi t. goes_on m a n (c % 256) h hc str s lo hi (ground arith) (ground arith)) fuel
          (omega arith) (omega arith)
          λ s lo hi t. elim (Bool-cases (s % 8 == 0)) [
            | inl aligned ↦
                rw aligned (strchrnul_words_lem m a n (c % 256) h hc str fuel s enough lo hi)
            | inr odd ↦ rw odd (ap some (stops_at m a n (c % 256) h hc str s lo hi (ground arith)))
          ])
]

-- In a string, `strchr` returns a pointer to the first `c`; the NUL counts as a byte of the string,
-- and NULL is returned if no byte is `c`.
pub strchr_lem :
    (m : Memory) (a n c : ℕ) (fuel : ℕ)
    → IsBytes m
    → IsString m a n
    → n < fuel
    → strchr fuel m a c
      ≡ some (
          let k = span_of (λ b. b == c % 256) m a n in
          if ltb k n || c % 256 == 0 then some (a + k) else none)
unfolding strchr
strchr_lem m a n c fuel h str enough =
    let k = span_of (λ b. b == c % 256) m a n in
    let le = span_of-le (λ b. b == c % 256) m a n in
    rw (strchrnul_lem m a n c fuel h str enough) (
      ap some (elim (Bool-cases (ltb k n)) [
        | inl inside ↦ ground (arith, span_of_at (λ b. b == c % 256) m a n)
        | inr whole ↦
            let e : k ≡ n = ground arith in let z : m (a + k) ≡ 0 = rw e str.0 in ground arith
      ]))
