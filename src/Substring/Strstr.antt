-- ===== src/Substring/Strstr.antt =====
-- `strstr`. `shift` is what the array of twoway_strstr holds before it is written.
use ocaml_solo.Prelude.{
  ℕ, zero, suc, ◌+◌, ◌-◌, ◌%◌, ◌≤◌, ◌<◌, ◌≡◌, refl, ap, sym, ◌∙◌, Bool, Bool-cases, false, inl, inr,
  arith, Option, some, none, ◌>>=◌, ◌==◌, ltb, if◌then◌else◌,
}
use ocaml_solo.Memory.{Memory, IsBytes, span_of, span_of-le, span_of_at}
use ocaml_solo.Length.{IsString}
use ocaml_solo.Search.{strchr, strchr_lem}
use ocaml_solo.Substring.First.{Matches, IsFirst}
use ocaml_solo.Substring.Dispatch.{by_length, by_length-IsFirst, is_nul, not_nul}

unfoldable pub continue_at : (ℕ → ℕ) → ℕ → Memory → ℕ → Option ℕ → Option (Option ℕ)
continue_at shift fuel m n none = some none
continue_at shift fuel m n (some h) = by_length shift fuel m h n

unfoldable pub strstr : (ℕ → ℕ) → ℕ → Memory → ℕ → ℕ → Option (Option ℕ)
unfolding continue_at
strstr shift fuel m h n =
    let found = strchr fuel m h (m n) >>= λ r. continue_at shift fuel m n r in
    if m n == 0 then some (some h) else found

-- No byte before the first stop is one.
span_of_before :
    (stop : ℕ → Bool) (m : Memory) (a n i : ℕ) → i < span_of stop m a n → stop (m (a + i)) ≡ false
unfolding span_of
span_of_before stop m a zero i lt = absurd (omega arith)
span_of_before stop m a (suc n) zero lt =
    let z : a + 0 ≡ a = omega arith in
    elim (Bool-cases (stop (m a))) [ inl e ↦ absurd (ground arith) | inr e ↦ rw (z, e) refl ]
span_of_before stop m a (suc n) (suc i) lt =
    let p : a + suc i ≡ a + 1 + i = omega arith in
    let rest = span_of_before stop m (a + 1) n i (ground arith) in rw p rest

-- The string from one of its bytes on.
IsString-suffix :
    (m : Memory) (h len j : ℕ) → IsString m h len → j ≤ len → IsString m (h + j) (len - j)
IsString-suffix m h len j str le =
    let e : h + j + (len - j) ≡ h + len = omega arith in
    (ap m e ∙ str.0, λ i lt z. str.1 (j + i) (omega arith) (ap m (omega arith) ∙ z))

-- A first match of a part is one of the whole if no place before the part matches.
IsFirst-prefix :
    (k : ℕ) (m : Memory) (h len n j : ℕ) (r : Option ℕ)
    → ((i : ℕ) → i < j → Matches k m (h + i) n → ⊥)
    → j ≤ len
    → IsFirst k m (h + j) (len - j) n r
    → IsFirst k m h len n r
IsFirst-prefix k m h len n j r none_before le (inl (e, never)) = inl (
  e,
  λ i room match_. elim (Bool-cases (ltb i j)) [
    | inl before ↦ none_before i (ground arith) match_
    | inr after ↦
        let p : h + j + (i - j) ≡ h + i = ground arith in never (i - j) (ground arith) (rw p match_)
  ],
)
IsFirst-prefix k m h len n j r none_before le (inr (i, e, room, match_, never)) =
    let p : h + j + i ≡ h + (j + i) = omega arith in
    inr (
      j + i,
      e ∙ ap some p,
      omega arith,
      rw (sym p) match_,
      λ t lt found. elim (Bool-cases (ltb t j)) [
        | inl before ↦ none_before t (ground arith) found
        | inr after ↦
            let q : h + j + (t - j) ≡ h + t = ground arith in
            never (t - j) (ground arith) (rw q found)
      ],
    )

-- For a needle of at most four bytes, `strstr` returns a pointer to its first match, or NULL if there
-- is none; the empty needle matches at once. This holds with more fuel than bytes.
pub strstr-IsFirst :
    (shift : ℕ → ℕ) (k fuel : ℕ) (m : Memory) (h len n : ℕ)
    → IsBytes m
    → IsString m h len
    → IsString m n k
    → k ≤ 4
    → len < fuel
    → (r : Option ℕ) × (strstr shift fuel m h n ≡ some r) × IsFirst k m h len n r
unfolding strstr continue_at
strstr-IsFirst shift zero fuel m h len n bytes str needle high enough =
    let z : n + 0 ≡ n = omega arith in
    let b = is_nul (m n) (ap m (sym z) ∙ needle.0) in
    rw b (
      some h,
      refl,
      inr (
        0,
        ap some (omega arith),
        omega arith,
        λ i lt. absurd (omega arith),
        λ i lt. absurd (omega arith),
      ),
    )
strstr-IsFirst shift (suc k) fuel m h len n bytes str needle high enough =
    let z : n + 0 ≡ n = omega arith in
    let b = not_nul (m n) (λ e. needle.1 0 (omega arith) (ap m z ∙ e)) in
    let byte : m n % 256 ≡ m n = let p = bytes n in omega arith in
    let stop = λ (b : ℕ). b == m n % 256 in
    let j = span_of stop m h len in
    let before = span_of_before stop m h len in
    let le = span_of-le stop m h len in
    let none_before : (i : ℕ) → i < j → Matches (suc k) m (h + i) n → ⊥ = λ i lt found.
      let p = before i lt in
      let q = found 0 (omega arith) in
      let e : m (h + i + 0) ≡ m (h + i) = ap m (omega arith) in
      let e' : m (n + 0) ≡ m n = ap m z in absurd (ground arith) in
    elim (Bool-cases (ltb j len)) [
      | inl inside ↦
          let at = span_of_at stop m h len (ground arith) in
          let first : m (h + j) ≡ m n = ground arith in
          let (r, run, found) =
            by_length-IsFirst shift (suc k) fuel m (h + j) (len - j) n bytes
              (IsString-suffix m h len j str le) needle (ground arith) (omega arith) high
              (omega arith) first in
          rw (b, strchr_lem m h len (m n) fuel bytes str enough, inside)
            (r, run, IsFirst-prefix (suc k) m h len n j r none_before le found)
      | inr whole ↦
          let b' : (m n % 256 == 0) ≡ false = rw byte b in
          rw (b, strchr_lem m h len (m n) fuel bytes str enough, whole, b')
            (none, refl, inl (refl, λ i room found. none_before i (ground arith) found))
    ]
