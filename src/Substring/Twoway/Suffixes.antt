-- ===== src/Substring/Twoway/Suffixes.antt =====
-- The search for a maximal suffix stays inside the needle, and every step brings it forward.
use ocaml_solo.Prelude.{
  ℕ, ◌+◌, ◌-◌, ◌*◌, ◌%◌, ◌^◌, ◌≤◌, ◌<◌, ◌≡◌, Bool, true, inl, inr, ◌==◌, Bool-cases, arith,
}
use ocaml_solo.Memory.{Memory}
use ocaml_solo.Substring.Twoway.{Suffix, suffix_more, suffix_step}

-- The start of the suffix, `ip + 1`.
abbrev pub start : Suffix → ℕ
start s = (s.ip + 1) % 2 ^ 64

-- The suffix stands before `jp`, and its period behind it.
pub record IsInside (l : ℕ) (s : Suffix) : Type 0 where
  pub ip : s.ip < 2 ^ 64
  pub before : start s ≤ s.jp
  pub jp : s.jp < l
  pub ends : s.jp + s.k ≤ l
  pub k : 1 ≤ s.k
  pub period : s.k ≤ s.p
  pub room : start s + s.p ≤ s.jp + 1

pub bounds-IsInside :
    {l : ℕ} {s : Suffix}
    → s.ip < 2 ^ 64
    → start s ≤ s.jp
    → s.jp < l
    → s.jp + s.k ≤ l
    → 1 ≤ s.k
    → s.k ≤ s.p
    → start s + s.p ≤ s.jp + 1
    → IsInside l s
bounds-IsInside ip before jp ends k period room = record {
  ip = ip;
  before = before;
  jp = jp;
  ends = ends;
  k = k;
  period = period;
  room = room;
}

module _ (after : ℕ → ℕ → Bool) (m : Memory) (n l : ℕ) (small : l < 2 ^ 64) where
  abbrev pub rank : Suffix → ℕ
  rank s = 3 * l - (start s + s.jp + s.k)

  pub step-IsInside :
      (s : Suffix)
      → suffix_more l s ≡ true
      → IsInside l s
      → (rank (suffix_step after m n s) < rank s) × IsInside l (suffix_step after m n s)
  unfolding suffix_step
  step-IsInside s more inside =
      let lt : s.jp + s.k < l = ground arith in
      let ip = inside.ip in
      let before = inside.before in
      let k = inside.k in
      let period = inside.period in
      let room = inside.room in
      elim (Bool-cases (m (n + (s.ip + s.k) % 2 ^ 64) == m (n + (s.jp + s.k)))) [
        | inl same ↦ elim (Bool-cases (s.k == s.p)) [
          | inl whole ↦
              let e : s.k ≡ s.p = ground arith in
              rw (same, whole)
                (
                  omega arith,
                  (bounds-IsInside ip (omega arith) (omega arith) (omega arith) (omega arith)
                      (omega arith) (omega arith)),
                )
          | inr part ↦
              let e : s.k < s.p = ground arith in
              rw (same, part)
                (
                  omega arith,
                  (bounds-IsInside ip (omega arith) (omega arith) (omega arith) (omega arith)
                      (omega arith) (omega arith)),
                )
        ]
        | inr other ↦
            elim (Bool-cases (after (m (n + (s.ip + s.k) % 2 ^ 64)) (m (n + (s.jp + s.k))))) [
              | inl longer ↦
                  rw (other, longer)
                    (
                      omega arith,
                      (bounds-IsInside ip (omega arith) (omega arith) (omega arith) (omega arith)
                          (omega arith) (omega arith)),
                    )
              | inr later ↦
                  rw (other, later)
                    (
                      omega arith,
                      (bounds-IsInside (omega arith) (omega arith) (omega arith) (omega arith)
                          (omega arith) (omega arith) (omega arith)),
                    )
            ]
      ]
