-- ===== src/Bigint/Diff.antt =====
-- `diff`.
use ocaml_solo.Prelude.{
  ℕ, zero, suc, ◌+◌, ◌-◌, ◌*◌, ◌/◌, ◌%◌, ◌^◌, ◌≤◌, ◌<◌, ◌≡◌, ◌⊎◌, refl, ap, Bool-cases, Nat-cases,
  inl, inr, List, [], ◌∷◌, arith, ltb, bit_and, bit_and_mask,
}
use ocaml_solo.Prelude.Int.{ℤ, pos, negsuc}
use ocaml_solo.Bigint.{Bigint, balloc, IsValid}
use ocaml_solo.Bigint.Compare.{cmp, Orders, shorter-Trimmed, cmp-Orders}
use ocaml_solo.Bigint.Words.{
  length, Below, value, span, value-lt-span, trim, trim-value, trim-Below, trim-length, trim-Clean,
  Clean-Top, Top-Trimmed,
}

-- The two loops of `diff`: the words of the difference, and the borrow out of the last.
unfoldable pub diff_loop : List ℕ → List ℕ → ℕ → List ℕ × ℕ
diff_loop [] ws borrow = ([], borrow)
diff_loop (x ∷ xs) [] borrow =
    let y = (x + 2 ^ 64 - borrow) % 2 ^ 64 in
    let (rest, out) = diff_loop xs [] (bit_and (y / 2 ^ 32) 1) in (y % 2 ^ 32 ∷ rest, out)
diff_loop (x ∷ xs) (w ∷ ws) borrow =
    let y = (x + 2 ^ 64 - w - borrow) % 2 ^ 64 in
    let (rest, out) = diff_loop xs ws (bit_and (y / 2 ^ 32) 1) in (y % 2 ^ 32 ∷ rest, out)

-- The rest of `diff`, where `a` is the larger number; the sign says whether they were exchanged.
unfoldable pub subtract : Bigint → Bigint → ℕ → Bigint
unfolding balloc
subtract a b i = record (balloc a.k (trim (diff_loop a.x b.x 0).0)) { sign = i }

unfoldable pub diff_by : ℤ → Bigint → Bigint → Bigint
unfolding balloc subtract
diff_by (pos zero) a b = balloc 0 (0 ∷ [])
diff_by (pos (suc n)) a b = subtract a b 0
diff_by (negsuc n) a b = subtract b a 1

unfoldable pub diff : Bigint → Bigint → Bigint
diff a b = diff_by (cmp a b) a b

borrow_bit : (n : ℕ) → bit_and n 1 ≡ n % 2
borrow_bit n = bit_and_mask 1 n

diff_loop-value :
    (xs ws : List ℕ) (borrow : ℕ)
    → Below xs
    → Below ws
    → borrow ≤ 1
    → length ws ≤ length xs
    → let (ds, out) = diff_loop xs ws borrow in
      (value ds + value ws + borrow ≡ value xs + out * span (length xs))
      × Below ds
      × (out ≤ 1)
      × (length ds ≡ length xs)
unfolding diff_loop value span
diff_loop-value [] [] borrow bx bw h l = (omega arith, tt, h, refl)
diff_loop-value [] (w ∷ ws) borrow bx bw h l = absurd (omega arith)
diff_loop-value (x ∷ xs) [] borrow (hx, bx) bw h l =
    let y = (x + 2 ^ 64 - borrow) % 2 ^ 64 in
    let e = borrow_bit (y / 2 ^ 32) in
    let (v, b, o, n) =
      diff_loop-value xs [] (bit_and (y / 2 ^ 32) 1) bx tt (omega arith) (omega arith) in
    (omega arith, (omega arith, b), o, ap suc n)
diff_loop-value (x ∷ xs) (w ∷ ws) borrow (hx, bx) (hw, bw) h l =
    let y = (x + 2 ^ 64 - w - borrow) % 2 ^ 64 in
    let e = borrow_bit (y / 2 ^ 32) in
    let (v, b, o, n) =
      diff_loop-value xs ws (bit_and (y / 2 ^ 32) 1) bx bw (omega arith) (omega arith) in
    (omega arith, (omega arith, b), o, ap suc n)

-- The borrow out is 0 where the first number is not less.
diff_loop_exact :
    (xs ws : List ℕ)
    → Below xs
    → Below ws
    → length ws ≤ length xs
    → value ws ≤ value xs
    → let ds = (diff_loop xs ws 0).0 in
      (value ds + value ws ≡ value xs) × Below ds × (length ds ≡ length xs)
diff_loop_exact xs ws bx bw l le =
    let (v, b, o, n) = diff_loop-value xs ws 0 bx bw (omega arith) l in
    let (ds, out) = diff_loop xs ws 0 in
    let small = value-lt-span ds b in
    elim (Nat-cases out) [
      | inl none_ ↦ (omega (arith, v, ap (λ (t : ℕ). t * span (length xs)) none_), b, n)
      | inr some_ ↦
          let one : out ≡ 1 = omega arith in
          absurd (omega (arith, v, ap span n, ap (λ (t : ℕ). t * span (length xs)) one))
    ]

-- What `diff` promises: a well-formed number, which is the distance of the two, and the sign.
pub record Distance (a b d : Bigint) : Type 0 where
  pub valid : IsValid d
  pub exact :
      (d.sign ≡ 0) × (value d.x + value b.x ≡ value a.x)
      ⊎ (d.sign ≡ 1) × (value a.x < value b.x) × (value d.x + value a.x ≡ value b.x)

subtract-IsValid :
    (a b : Bigint) (i : ℕ)
    → IsValid a
    → IsValid b
    → value b.x < value a.x
    → IsValid (subtract a b i)
      × (value (subtract a b i).x + value b.x ≡ value a.x)
      × ((subtract a b i).sign ≡ i)
unfolding subtract balloc
subtract-IsValid a b i va vb lt =
    let longer : length b.x ≤ length a.x = elim (Bool-cases (ltb (length a.x) (length b.x))) [
      | inl shorter ↦
          let less = shorter-Trimmed a.x b.x va.below va.trimmed vb.trimmed (ground arith) in
          absurd (omega arith)
      | inr fine ↦ ground arith
    ] in
    let (v, bs, l) = diff_loop_exact a.x b.x va.below vb.below longer (omega arith) in
    let ds = (diff_loop a.x b.x 0).0 in
    let same = trim-value ds in
    let most = trim-length ds in
    (
      record {
        space = refl;
        fits = let s = va.space in let f = va.fits in omega arith;
        below = trim-Below ds bs;
        trimmed = Top-Trimmed (trim ds) (Clean-Top (trim ds) (trim-Clean ds) (omega arith));
      },
      omega arith,
      refl,
    )

diff_by-Distance :
    (r : ℤ) (a b : Bigint)
    → IsValid a
    → IsValid b
    → Orders r (value a.x) (value b.x)
    → Distance a b (diff_by r a b)
unfolding diff_by balloc value
diff_by-Distance (pos zero) a b va vb o = record {
  valid = record { space = refl; fits = omega arith; below = (omega arith, tt); trimmed = tt };
  exact = inl (refl, omega arith);
}
diff_by-Distance (pos (suc n)) a b va vb o =
    let (v, e, s) = subtract-IsValid a b 0 va vb o in record { valid = v; exact = inl (s, e) }
diff_by-Distance (negsuc n) a b va vb o =
    let (v, e, s) = subtract-IsValid b a 1 vb va o in record { valid = v; exact = inr (s, o, e) }

-- `diff` of two well-formed numbers is well formed; its value is their distance, with no zero in
-- front, and the sign is 1 where the second is greater, else 0.
pub diff-Distance : (a b : Bigint) → IsValid a → IsValid b → Distance a b (diff a b)
unfolding diff
diff-Distance a b va vb = diff_by-Distance (cmp a b) a b va vb (cmp-Orders a b va vb)
