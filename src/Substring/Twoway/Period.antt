-- ===== src/Substring/Twoway/Period.antt =====
-- The period of the maximal suffix, and the end of the search for it.
use native.Mathlib.Nat.{suc-mul}
use ocaml_solo.Prelude.{
  zero, suc, ◌∙◌, sym, ap, ℕ, ◌+◌, ◌-◌, ◌*◌, ◌%◌, ◌^◌, ◌<◌, ◌≡◌, refl, Bool, true, false, inl, inr,
  some, ltb, ◌==◌, Bool-cases, while, while_total, arith,
}
use ocaml_solo.Memory.{Memory}
use ocaml_solo.Substring.Twoway.{Suffix, suffix_start, suffix_more, suffix_step}
use ocaml_solo.Substring.Twoway.Suffixes.{start, IsInside, bounds-IsInside, rank, step-IsInside}

-- The part from the suffix to the bytes that are compared repeats itself after `p` bytes.
pub record IsPeriodic (m : Memory) (n : ℕ) (s : Suffix) : Type 0 where
  times : ℕ
  multiple : start s + times * s.p ≡ s.jp + 1
  pub period :
      (t : ℕ) → start s + s.p + t < s.jp + s.k → m (n + (start s + t)) ≡ m (n + (start s + s.p + t))

module _ (after : ℕ → ℕ → Bool) (m : Memory) (n l : ℕ) (small : l < 2 ^ 64) where
  -- A byte of the scanned part is the one any number of periods later.
  hops :
      (s : Suffix)
      → IsPeriodic m n s
      → (c t : ℕ) → start s + c * s.p + t < s.jp + s.k
      → m (n + (start s + t)) ≡ m (n + (start s + c * s.p + t))
  hops s per zero t lt = let e : start s + 0 * s.p + t ≡ start s + t = omega arith in rw e refl
  hops s per (suc c) t lt =
      let e : suc c * s.p ≡ c * s.p + s.p = suc-mul c s.p in
      let e' : start s + suc c * s.p + t ≡ start s + s.p + (c * s.p + t) = omega arith in
      let e'' : start s + (c * s.p + t) ≡ start s + c * s.p + t = omega arith in
      let one = rw (e'', ← e') at (per.period (c * s.p + t) (omega arith)) in
      hops s per c t (omega arith) ∙ one

  last_byte :
      (s : Suffix)
      → IsInside l s
      → IsPeriodic m n s
      → m (n + (s.ip + s.k) % 2 ^ 64) ≡ m (n + (s.jp + s.k))
      → (c t : ℕ) → start s + c * s.p ≡ s.jp + 1
      → start s + s.p + t ≡ s.jp + s.k
      → m (n + (start s + t)) ≡ m (n + (start s + s.p + t))
  last_byte s inside per same zero t e at = let before = inside.before in absurd (omega arith)
  last_byte s inside per same (suc c) t e at =
      let ip = inside.ip in
      let before = inside.before in
      let k = inside.k in
      let period = inside.period in
      let ends = inside.ends in
      let more : suc c * s.p ≡ c * s.p + s.p = suc-mul c s.p in
      let place : start s + c * s.p + (s.k - 1) ≡ start s + t = omega arith in
      let low : (s.ip + s.k) % 2 ^ 64 ≡ start s + (s.k - 1) = omega arith in
      let hop = hops s per c (s.k - 1) (omega arith) in
      rw at (sym (rw place at hop) ∙ (ap (λ i. m (n + i)) (sym low) ∙ same))

  -- The byte that is compared is the one a period before it.
  next_byte :
      (s : Suffix)
      → IsInside l s
      → IsPeriodic m n s
      → m (n + (s.ip + s.k) % 2 ^ 64) ≡ m (n + (s.jp + s.k))
      → (t : ℕ) → start s + s.p + t < s.jp + s.k + 1
      → m (n + (start s + t)) ≡ m (n + (start s + s.p + t))
  next_byte s inside per same t lt = elim (Bool-cases (ltb (start s + s.p + t) (s.jp + s.k))) [
    | inl old ↦ per.period t (ground arith)
    | inr new ↦ last_byte s inside per same per.times t per.multiple (ground arith)
  ]

  step-IsPeriodic :
      (s : Suffix)
      → suffix_more l s ≡ true
      → IsInside l s
      → IsPeriodic m n s
      → IsPeriodic m n (suffix_step after m n s)
  unfolding suffix_step
  step-IsPeriodic s more inside per =
      let ip = inside.ip in
      let before = inside.before in
      let k = inside.k in
      let room = inside.room in
      let times = per.times in
      let lt : s.jp + s.k < l = ground arith in
      elim (Bool-cases (m (n + (s.ip + s.k) % 2 ^ 64) == m (n + (s.jp + s.k)))) [
        | inl same ↦
            let eq : m (n + (s.ip + s.k) % 2 ^ 64) ≡ m (n + (s.jp + s.k)) = ground arith in
            elim (Bool-cases (s.k == s.p)) [
              | inl whole ↦
                  let e : s.k ≡ s.p = ground arith in
                  rw (same, whole)
                    (record {
                      times = times + 1;
                      multiple = omega (arith, suc-mul times s.p, per.multiple);
                      period = λ t lt. next_byte s inside per eq t (omega arith);
                    })
              | inr part ↦
                  rw (same, part)
                    (record {
                      times = times;
                      multiple = per.multiple;
                      period = λ t lt. next_byte s inside per eq t (omega arith);
                    })
            ]
        | inr other ↦
            elim (Bool-cases (after (m (n + (s.ip + s.k) % 2 ^ 64)) (m (n + (s.jp + s.k))))) [
              | inl longer ↦
                  rw (other, longer)
                    (record {
                      times = 1;
                      multiple = omega arith;
                      period = λ t below. absurd (omega arith);
                    })
              | inr later ↦
                  rw (other, later)
                    (record {
                      times = 1;
                      multiple = omega arith;
                      period = λ t below. absurd (omega arith);
                    })
            ]
      ]

  pub suffix_total :
      (fuel : ℕ)
      → 0 < l
      → 3 * l < fuel
      → (s : Suffix) × (while fuel (suffix_more l) (suffix_step after m n) suffix_start ≡ some s)
        × (IsInside l s × IsPeriodic m n s)
        × (suffix_more l s ≡ false)
  suffix_total fuel pos enough =
      while_total (suffix_more l) (suffix_step after m n) (λ s. IsInside l s × IsPeriodic m n s)
        (rank after m n l small)
        (λ s more inv.
          let step = step-IsInside after m n l small s more inv.0 in
          (step.0, (step.1, step-IsPeriodic s more inv.0 inv.1)))
        fuel suffix_start
        (
          (bounds-IsInside (omega arith) (omega arith) (omega arith) (omega arith) (omega arith)
              (omega arith) (omega arith)),
          record { times = 1; multiple = omega arith; period = λ t below. absurd (omega arith) },
        )
        (omega arith)
