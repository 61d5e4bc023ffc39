-- ===== src/Substring/First.antt =====
-- What the searches find: the first match.
use ocaml_solo.Prelude.{
  ℕ, suc, ◌+◌, ◌-◌, ◌≤◌, ◌<◌, ◌≡◌, ◌≢◌, ◌⊎◌, ◌↔◌, refl, ap, sym, ◌∙◌, Bool-cases, true, false, inl,
  inr, arith, Option, some, none, ◌==◌, if◌then◌else◌,
}
use ocaml_solo.Memory.{Memory}
use ocaml_solo.Length.{IsString}

-- The `k` bytes at `a` are those at `n`.
abbrev pub Matches : ℕ → Memory → ℕ → ℕ → Type 0
Matches k m a n = (i : ℕ) → i < k → m (a + i) ≡ m (n + i)

-- No place, and the `k` bytes at `n` nowhere in the string, or the first place in it where they stand.
abbrev pub IsFirst : ℕ → Memory → ℕ → ℕ → ℕ → Option ℕ → Type 0
IsFirst k m h len n r =
    ((r ≡ none) × ((i : ℕ) → i + k ≤ len → Matches k m (h + i) n → ⊥))
    ⊎ ((j : ℕ) × (r ≡ some (h + j))
        × (j + k ≤ len)
        × Matches k m (h + j) n
        × ((i : ℕ) → i < j → Matches k m (h + i) n → ⊥))

pub slide-IsFirst :
    (k : ℕ) (m : Memory) (h len n nw e : ℕ) (window : ℕ → ℕ)
    → IsString m h len
    → ((a : ℕ) → (window (a + k) ≡ nw) ↔ Matches (suc k) m a n)
    → h + k ≤ e
    → e ≤ h + len
    → (m e ≡ 0) ⊎ ((m e ≢ 0) × (window e ≡ nw))
    → ((i : ℕ) → h + k ≤ i → i < e → (m i ≢ 0) × (window i ≢ nw))
    → IsFirst (suc k) m h len n (if m e == 0 then none else some (e - k))
slide-IsFirst k m h len n nw e window str same lo hi (inl nul) passed =
    let b : (m e == 0) ≡ true = ground arith in
    let at : e ≡ h + len = elim (Bool-cases (e == h + len)) [
      | inl end ↦ ground arith
      | inr before ↦
          let p : h + (e - h) ≡ e = omega arith in
          absurd (str.1 (e - h) (ground arith) (ap m p ∙ nul))
    ] in
    rw b (
      inl (
        refl,
        λ i room match_.
            (passed (h + i + k) (omega arith) (omega arith)).1 ((same (h + i)).1 match_),
      ))
slide-IsFirst k m h len n nw e window str same lo hi (inr (more, found)) passed =
    let b : (m e == 0) ≡ false = elim (Bool-cases (m e == 0)) [
      | inl z ↦ absurd (more (ground arith))
      | inr z ↦ z
    ] in
    let before : e < h + len = elim (Bool-cases (e == h + len)) [
      | inl end ↦ let p : e ≡ h + len = ground arith in absurd (more (ap m p ∙ str.0))
      | inr end ↦ ground arith
    ] in
    let j = e - k - h in
    let place : e ≡ h + j + k = omega arith in
    rw b (
      inr (
        j,
        ap some (omega arith),
        omega arith,
        (same (h + j)).0 (ap window (sym place) ∙ found),
        λ i lt match_. (passed (h + i + k) (omega arith) (omega arith)).1 ((same (h + i)).1 match_),
      ))
