-- ===== src/Substring/Twoway/Shifts.antt =====
-- What the search loop knows of a needle: its tables and its factorization.
use ocaml_solo.Prelude.{
  ℕ, suc, ◌+◌, ◌-◌, ◌*◌, ◌%◌, ◌^◌, ◌≤◌, ◌<◌, ◌≡◌, ◌≢◌, ◌⊎◌, refl, ap, ◌∙◌, true, false, inl, inr,
  some, leb, ltb, ◌==◌, Bool-cases, while, while_total, arith,
}
use ocaml_solo.Prelude.Int.{sub_ℕ}
use ocaml_solo.Memory.{Memory}
use ocaml_solo.Length.{IsString}
use ocaml_solo.Compare.{memcmp, memcmp_lem, Agree}
use ocaml_solo.Substring.Twoway.{
  Tables, table_more, table_step, Needle, factorize, prepare, aperiodic, with_period,
}
use ocaml_solo.Substring.Twoway.Suffixes.{start}
use ocaml_solo.Substring.Twoway.Period.{suffix_total}

-- A byte of the set has a last place in the needle.
pub record IsTable (len : ℕ) (t : Tables) : Type 0 where
  pub l : t.l ≤ len
  pub shift : (b : ℕ) → t.byteset b ≡ true → (0 < t.shift b) × (t.shift b ≤ t.l)

step-IsTable :
    (m : Memory) (n len : ℕ) (t : Tables)
    → t.l < len
    → IsTable len t
    → IsTable len (table_step m n t)
step-IsTable m n len t lt ok = record {
  l = omega arith;
  shift = λ b e. elim (Bool-cases (b == m (n + t.l))) [
    | inl here ↦ rw here (omega arith, omega arith)
    | inr other ↦ let old = ok.shift b (ground arith) in rw other (omega arith, omega arith)
  ];
}

-- The tables end at the NUL of the needle, or of the haystack.
pub tables_total :
    (m : Memory) (h n len : ℕ) (t : Tables) (fuel : ℕ)
    → IsString m n len
    → t.l ≡ 0
    → ((b : ℕ) → t.byteset b ≡ false)
    → len < fuel
    → (t' : Tables) × (while fuel (table_more m h n) (table_step m n) t ≡ some t')
      × IsTable len t'
      × ((t'.l ≡ len) ⊎ ((m (n + t'.l) == 0) ≡ false))
tables_total m h n len t fuel needle e empty enough =
    let (t', run, ok, stop) =
      while_total (table_more m h n) (table_step m n) (IsTable len) (λ t. len - t.l)
        (λ t more ok.
          let l = ok.l in
          let lt : t.l < len = elim (Bool-cases (t.l == len)) [
            | inl end ↦
                let at : t.l ≡ len = ground arith in
                let z : m (n + t.l) ≡ 0 = ap (λ i. m (n + i)) at ∙ needle.0 in absurd (ground arith)
            | inr before ↦ ground arith
          ] in
          (omega arith, step-IsTable m n len t lt ok))
        fuel t (record { l = omega arith; shift = λ b set. absurd (ground (arith, empty b)) })
        (omega arith) in
    let l = ok.l in
    (
      t',
      run,
      ok,
      elim (Bool-cases (t'.l == len)) [
        | inl end ↦ inl (ground arith)
        | inr before ↦ inr (elim (Bool-cases (m (n + t'.l) == 0)) [
          | inl nul ↦ absurd (needle.1 t'.l (ground arith) (ground arith))
          | inr more ↦ more
        ])
      ],
    )

-- The bytes are those `p` places later.
abbrev pub Repeats : Memory → ℕ → ℕ → ℕ → Type 0
Repeats m n len p = (j : ℕ) → j + p < len → m (n + j) ≡ m (n + (p + j))

-- The jumps of the search loop stay between 1 and the length.
pub record IsNeedle (m : Memory) (n len : ℕ) (nd : Needle) : Type 0 where
  pub l : nd.tables.l ≡ len
  pub table : IsTable len nd.tables
  pub wide : nd.ms < 2 ^ 64
  pub ms : (nd.ms + 1) % 2 ^ 64 < len
  pub positive : 0 < nd.p
  pub p : nd.p ≤ len
  pub mem0 : (nd.mem0 ≡ 0) ⊎ (nd.mem0 ≡ len - nd.p) × Repeats m n len nd.p

-- A suffix that is the whole needle has a period.
with_period_cases :
    (m : Memory) (n ms p : ℕ) (t : Tables)
    → (with_period m n t ms p ≡ record { tables = t; ms = ms; p = p; mem0 = t.l - p })
        × Agree m n (n + p) ((ms + 1) % 2 ^ 64)
      ⊎ (0 < (ms + 1) % 2 ^ 64) × (with_period m n t ms p ≡ aperiodic t ms)
unfolding with_period
with_period_cases m n ms p t =
    let (k, agree, result) = memcmp_lem m n (n + p) ((ms + 1) % 2 ^ 64) in
    elim result [
      | inl (e, eq) ↦ rw (with_period, eq) (inl (refl, rw e at agree))
      | inr (lt, ne, eq) ↦ inr (omega arith, nonzero (m (n + k)) (m (n + p + k)) ne eq)
    ]
  where
    nonzero :
        (a b : ℕ)
        → a ≢ b
        → memcmp m n (n + p) ((ms + 1) % 2 ^ 64) ≡ sub_ℕ a b
        → with_period m n t ms p ≡ aperiodic t ms
    nonzero a b ne eq = elim (Bool-cases (leb b a)) [
      | inl above ↦
          let d : a - b ≡ suc (a - b - 1) = ground arith in rw (with_period, eq, above, d) refl
      | inr below ↦ rw (with_period, eq, below) refl
    ]

with_period-IsNeedle :
    (m : Memory) (n len ms p : ℕ) (t : Tables)
    → len < 2 ^ 64
    → t.l ≡ len
    → IsTable len t
    → ms < 2 ^ 64
    → (ms + 1) % 2 ^ 64 < len
    → 0 < p
    → p ≤ len
    → ((j : ℕ)
        → (ms + 1) % 2 ^ 64 + p + j < len
        → m (n + ((ms + 1) % 2 ^ 64 + j)) ≡ m (n + ((ms + 1) % 2 ^ 64 + p + j)))
    → IsNeedle m n len (with_period m n t ms p)
with_period-IsNeedle m n len ms p t small l ok wide inside some_ le repeats =
    elim (with_period_cases m n ms p t) [
      | inl (e, agree) ↦
          let whole : Repeats m n len p = λ j lt. elim (Bool-cases (ltb j ((ms + 1) % 2 ^ 64))) [
            | inl before ↦
                let z : n + p + j ≡ n + (p + j) = omega arith in rw z at (agree j (ground arith))
            | inr behind ↦
                let i = (ms + 1) % 2 ^ 64 in
                let le' : i ≤ j = ground arith in
                let z : i + (j - i) ≡ j = omega arith in
                let z' : i + p + (j - i) ≡ p + j = omega arith in
                rw (z, z') at (repeats (j - i) (omega arith))
          ] in
          rw e (record {
            l = l;
            table = ok;
            wide = wide;
            ms = inside;
            positive = some_;
            p = le;
            mem0 = inr (omega (arith, l), whole);
          })
      | inr (first, e) ↦ rw e (record {
        l = unfold aperiodic in l;
        table = unfold aperiodic in ok;
        wide = unfold aperiodic in wide;
        ms = unfold aperiodic in inside;
        positive = unfold aperiodic in omega arith;
        p = unfold aperiodic in omega arith;
        mem0 = unfold aperiodic in inl refl;
      })
    ]

pub prepare_total :
    (m : Memory) (n : ℕ) (t : Tables) (fuel : ℕ)
    → t.l < 2 ^ 64
    → 0 < t.l
    → 3 * t.l < fuel
    → IsTable t.l t
    → (nd : Needle) × (prepare fuel m n t ≡ some nd) × IsNeedle m n t.l nd
unfolding prepare factorize
prepare_total m n t fuel small some_ enough ok =
    let (s, run, (inside, per), stop) =
      suffix_total (λ a b. ltb b a) m n t.l small fuel some_ enough in
    let (s', run', (inside', per'), stop') = suffix_total ltb m n t.l small fuel some_ enough in
    rw (run, run')
      (elim (Bool-cases (ltb (start s) (start s'))) [
        | inl second ↦ rw second (
          _,
          refl,
          with_period-IsNeedle m n t.l s'.ip s'.p t small refl ok inside'.ip
              (omega (arith, inside'.before, inside'.jp)) (omega (arith, inside'.k, inside'.period))
              (omega (arith, inside'.room, inside'.jp))
              (λ j lt. per'.period j (ground (arith, stop'))),
        )
        | inr first ↦ rw first (
          _,
          refl,
          with_period-IsNeedle m n t.l s.ip s.p t small refl ok inside.ip
              (omega (arith, inside.before, inside.jp)) (omega (arith, inside.k, inside.period))
              (omega (arith, inside.room, inside.jp)) (λ j lt. per.period j (ground (arith, stop))),
        )
      ])
