-- ===== src/Substring/Short.antt =====
-- Needles of two, three and four bytes.
use ocaml_solo.Prelude.{
  ℕ, suc, ◌+◌, ◌-◌, ◌*◌, ◌%◌, ◌^◌, ◌≤◌, ◌<◌, ◌≡◌, ◌↔◌, refl, ap, ◌∙◌, Bool-cases, inl, inr, arith,
  Option, some, none, ◌==◌, if◌then◌else◌, bit_or, bit_or_sum,
}
use ocaml_solo.Memory.{Memory, IsBytes}
use ocaml_solo.Length.{IsString}
use ocaml_solo.Substring.{
  slide_lem, two, three, four, twobyte_strstr, threebyte_strstr, fourbyte_strstr,
}
use ocaml_solo.Substring.First.{Matches, IsFirst, slide-IsFirst}

-- The windows that end at `p`, as sums.
two_at : Memory → ℕ → ℕ
two_at m p = m (p - 1) * 2 ^ 8 + m p

three_at : Memory → ℕ → ℕ
three_at m p = m (p - 2) * 2 ^ 24 + m (p - 1) * 2 ^ 16 + m p * 2 ^ 8

four_at : Memory → ℕ → ℕ
four_at m p = m (p - 3) * 2 ^ 24 + m (p - 2) * 2 ^ 16 + m (p - 1) * 2 ^ 8 + m p

two-at : (m : Memory) (a : ℕ) → IsBytes m → two m a ≡ two_at m (a + 1)
unfolding two two_at
two-at m a h =
    let e : m (a + 1 - 1) ≡ m a = ap m (omega arith) in
    rw e (bit_or_sum 8 (m a) (m (a + 1)) (let p = h (a + 1) in omega arith))

high_two : (a b : ℕ) → b < 256 → bit_or (a * 2 ^ 24) (b * 2 ^ 16) ≡ (a * 2 ^ 8 + b) * 2 ^ 16
high_two a b h = bit_or_sum 24 a (b * 2 ^ 16) (omega arith) ∙ omega arith

high_three :
    (a b c : ℕ)
    → b < 256
    → c < 256
    → bit_or (bit_or (a * 2 ^ 24) (b * 2 ^ 16)) (c * 2 ^ 8) ≡ (a * 2 ^ 16 + b * 2 ^ 8 + c) * 2 ^ 8
high_three a b c hb hc =
    rw (high_two a b hb) (bit_or_sum 16 (a * 2 ^ 8 + b) (c * 2 ^ 8) (omega arith) ∙ omega arith)

three-at : (m : Memory) (a : ℕ) → IsBytes m → three m a ≡ three_at m (a + 2)
unfolding three three_at
three-at m a h =
    let e : m (a + 2 - 2) ≡ m a = ap m (omega arith) in
    let e' : m (a + 2 - 1) ≡ m (a + 1) = ap m (omega arith) in
    rw (e, e') (high_three (m a) (m (a + 1)) (m (a + 2)) (h (a + 1)) (h (a + 2)) ∙ omega arith)

four-at : (m : Memory) (a : ℕ) → IsBytes m → four m a ≡ four_at m (a + 3)
unfolding four four_at
four-at m a h =
    let e : m (a + 3 - 3) ≡ m a = ap m (omega arith) in
    let e' : m (a + 3 - 2) ≡ m (a + 1) = ap m (omega arith) in
    let e'' : m (a + 3 - 1) ≡ m (a + 2) = ap m (omega arith) in
    let small : m (a + 3) < 2 ^ 8 = let p = h (a + 3) in omega arith in
    rw (e, e', e'', high_three (m a) (m (a + 1)) (m (a + 2)) (h (a + 1)) (h (a + 2)))
      (bit_or_sum 8 (m a * 2 ^ 16 + m (a + 1) * 2 ^ 8 + m (a + 2)) (m (a + 3)) small ∙ omega arith)

two_moves :
    (m : Memory) (p : ℕ)
    → IsBytes m
    → bit_or (two_at m p * 2 ^ 8 % 2 ^ 16) (m (p + 1)) ≡ two_at m (p + 1)
unfolding two_at
two_moves m p h =
    let e : m (p + 1 - 1) ≡ m p = ap m (omega arith) in
    let small : m (p + 1) < 2 ^ 8 = let q = h (p + 1) in omega arith in
    let b = h p in
    let kept : (m (p - 1) * 2 ^ 8 + m p) * 2 ^ 8 % 2 ^ 16 ≡ m p * 2 ^ 8 = omega arith in
    rw (e, kept) (bit_or_sum 8 (m p) (m (p + 1)) small)

three_moves :
    (m : Memory) (p : ℕ)
    → IsBytes m
    → bit_or (three_at m p) (m (p + 1)) * 2 ^ 8 % 2 ^ 32 ≡ three_at m (p + 1)
unfolding three_at
three_moves m p h =
    let e : m (p + 1 - 1) ≡ m p = ap m (omega arith) in
    let e' : m (p + 1 - 2) ≡ m (p - 1) = ap m (omega arith) in
    let small : m (p + 1) < 2 ^ 8 = let q = h (p + 1) in omega arith in
    let b = h p in
    let b' = h (p - 1) in
    let high : m (p - 2) * 2 ^ 24 + m (p - 1) * 2 ^ 16 + m p * 2 ^ 8
        ≡ (m (p - 2) * 2 ^ 16 + m (p - 1) * 2 ^ 8 + m p) * 2 ^ 8 =
      omega arith in
    rw (e, e', high, bit_or_sum 8 (m (p - 2) * 2 ^ 16 + m (p - 1) * 2 ^ 8 + m p) (m (p + 1)) small)
      (omega arith)

four_moves :
    (m : Memory) (p : ℕ)
    → IsBytes m
    → bit_or (four_at m p * 2 ^ 8 % 2 ^ 32) (m (p + 1)) ≡ four_at m (p + 1)
unfolding four_at
four_moves m p h =
    let e : m (p + 1 - 1) ≡ m p = ap m (omega arith) in
    let e' : m (p + 1 - 2) ≡ m (p - 1) = ap m (omega arith) in
    let e'' : m (p + 1 - 3) ≡ m (p - 2) = ap m (omega arith) in
    let small : m (p + 1) < 2 ^ 8 = let q = h (p + 1) in omega arith in
    let b = h p in
    let b' = h (p - 1) in
    let b'' = h (p - 2) in
    let x = m (p - 2) * 2 ^ 16 + m (p - 1) * 2 ^ 8 + m p in
    let kept : (m (p - 3) * 2 ^ 24 + m (p - 2) * 2 ^ 16 + m (p - 1) * 2 ^ 8 + m p) * 2 ^ 8 % 2 ^ 32
        ≡ x * 2 ^ 8 =
      omega arith in
    rw (e, e', e'', kept) (bit_or_sum 8 x (m (p + 1)) small ∙ omega arith)

Matches-next :
    (k : ℕ) (m : Memory) (a n : ℕ) → Matches k m a n → m (a + k) ≡ m (n + k) → Matches (suc k) m a n
Matches-next k m a n h e i lt = elim (Bool-cases (i == k)) [
  | inl at ↦ let p : i ≡ k = ground arith in rw p e
  | inr before ↦ h i (ground arith)
]

none-Matches : (m : Memory) (a n : ℕ) → Matches 0 m a n
none-Matches m a n i lt = absurd (omega arith)

at_start : (m : Memory) (a : ℕ) → m (a + 0) ≡ m a
at_start m a = ap m (omega arith)

two-Matches : (m : Memory) (a n : ℕ) → IsBytes m → (two_at m (a + 1) ≡ two m n) ↔ Matches 2 m a n
unfolding two_at
two-Matches m a n h =
    let e : m (a + 1 - 1) ≡ m a = ap m (omega arith) in
    let e' : m (n + 1 - 1) ≡ m n = ap m (omega arith) in
    let b = h a in
    let b' = h n in
    let c = h (a + 1) in
    let c' = h (n + 1) in
    let z = at_start m a in
    let z' = at_start m n in
    rw (two-at m n h, e, e')
      (
        λ s.
            Matches-next 1 m a n (Matches-next 0 m a n (none-Matches m a n) (omega arith))
              (omega arith),
        λ f. let p = f 0 (omega arith) in let q = f 1 (omega arith) in omega arith,
      )

three-Matches :
    (m : Memory) (a n : ℕ) → IsBytes m → (three_at m (a + 2) ≡ three m n) ↔ Matches 3 m a n
unfolding three_at
three-Matches m a n h =
    let e : m (a + 2 - 2) ≡ m a = ap m (omega arith) in
    let f : m (a + 2 - 1) ≡ m (a + 1) = ap m (omega arith) in
    let e' : m (n + 2 - 2) ≡ m n = ap m (omega arith) in
    let f' : m (n + 2 - 1) ≡ m (n + 1) = ap m (omega arith) in
    let b = h a in
    let c = h (a + 1) in
    let d = h (a + 2) in
    let b' = h n in
    let c' = h (n + 1) in
    let d' = h (n + 2) in
    let z = at_start m a in
    let z' = at_start m n in
    rw (three-at m n h, e, e', f, f')
      (
        λ s.
            Matches-next 2 m a n
              (Matches-next 1 m a n (Matches-next 0 m a n (none-Matches m a n) (omega arith))
                (omega arith))
              (omega arith),
        λ g.
            let p = g 0 (omega arith) in
            let q = g 1 (omega arith) in let r = g 2 (omega arith) in omega arith,
      )

four-Matches : (m : Memory) (a n : ℕ) → IsBytes m → (four_at m (a + 3) ≡ four m n) ↔ Matches 4 m a n
unfolding four_at
four-Matches m a n h =
    let e : m (a + 3 - 3) ≡ m a = ap m (omega arith) in
    let f : m (a + 3 - 2) ≡ m (a + 1) = ap m (omega arith) in
    let g : m (a + 3 - 1) ≡ m (a + 2) = ap m (omega arith) in
    let e' : m (n + 3 - 3) ≡ m n = ap m (omega arith) in
    let f' : m (n + 3 - 2) ≡ m (n + 1) = ap m (omega arith) in
    let g' : m (n + 3 - 1) ≡ m (n + 2) = ap m (omega arith) in
    let b = h a in
    let c = h (a + 1) in
    let d = h (a + 2) in
    let d3 = h (a + 3) in
    let b' = h n in
    let c' = h (n + 1) in
    let d' = h (n + 2) in
    let d3' = h (n + 3) in
    let z = at_start m a in
    let z' = at_start m n in
    rw (four-at m n h, e, e', f, f', g, g')
      (
        λ s.
            Matches-next 3 m a n
              (Matches-next 2 m a n
                (Matches-next 1 m a n (Matches-next 0 m a n (none-Matches m a n) (omega arith))
                  (omega arith))
                (omega arith))
              (omega arith),
        λ t.
            let p = t 0 (omega arith) in
            let q = t 1 (omega arith) in
            let r = t 2 (omega arith) in let s = t 3 (omega arith) in omega arith,
      )

pub twobyte_strstr-IsFirst :
    (fuel : ℕ) (m : Memory) (h len n : ℕ)
    → IsBytes m
    → IsString m h len
    → 1 ≤ len
    → len < fuel
    → (r : Option ℕ) × (twobyte_strstr fuel m h n ≡ some r) × IsFirst 2 m h len n r
unfolding twobyte_strstr
twobyte_strstr-IsFirst fuel m h len n bytes str long enough =
    let next = λ (hw c : ℕ). bit_or (hw * 2 ^ 8 % 2 ^ 16) c in
    let (e, run, lo, hi, stop, passed) =
      slide_lem m next (two_at m) (two m n) (h + len) (λ p. two_moves m p bytes) str.0 fuel (h + 1)
        (omega arith) (omega arith) in
    rw (two-at m h bytes, run)
      (
        if m e == 0 then none else some (e - 1),
        refl,
        slide-IsFirst 1 m h len n (two m n) e (two_at m) str (λ a. two-Matches m a n bytes) lo hi
            stop passed,
      )

pub threebyte_strstr-IsFirst :
    (fuel : ℕ) (m : Memory) (h len n : ℕ)
    → IsBytes m
    → IsString m h len
    → 2 ≤ len
    → len < fuel
    → (r : Option ℕ) × (threebyte_strstr fuel m h n ≡ some r) × IsFirst 3 m h len n r
unfolding threebyte_strstr
threebyte_strstr-IsFirst fuel m h len n bytes str long enough =
    let next = λ (hw c : ℕ). bit_or hw c * 2 ^ 8 % 2 ^ 32 in
    let (e, run, lo, hi, stop, passed) =
      slide_lem m next (three_at m) (three m n) (h + len) (λ p. three_moves m p bytes) str.0 fuel
        (h + 2) (omega arith) (omega arith) in
    rw (three-at m h bytes, run)
      (
        if m e == 0 then none else some (e - 2),
        refl,
        slide-IsFirst 2 m h len n (three m n) e (three_at m) str (λ a. three-Matches m a n bytes) lo
            hi stop passed,
      )

pub fourbyte_strstr-IsFirst :
    (fuel : ℕ) (m : Memory) (h len n : ℕ)
    → IsBytes m
    → IsString m h len
    → 3 ≤ len
    → len < fuel
    → (r : Option ℕ) × (fourbyte_strstr fuel m h n ≡ some r) × IsFirst 4 m h len n r
unfolding fourbyte_strstr
fourbyte_strstr-IsFirst fuel m h len n bytes str long enough =
    let next = λ (hw c : ℕ). bit_or (hw * 2 ^ 8 % 2 ^ 32) c in
    let (e, run, lo, hi, stop, passed) =
      slide_lem m next (four_at m) (four m n) (h + len) (λ p. four_moves m p bytes) str.0 fuel
        (h + 3) (omega arith) (omega arith) in
    rw (four-at m h bytes, run)
      (
        if m e == 0 then none else some (e - 3),
        refl,
        slide-IsFirst 3 m h len n (four m n) e (four_at m) str (λ a. four-Matches m a n bytes) lo hi
            stop passed,
      )
