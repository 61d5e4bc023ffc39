-- ===== src/Substring/Dispatch.antt =====
-- What `strstr` does from the first match of the first byte on.
use ocaml_solo.Prelude.{
  ℕ, zero, suc, ◌+◌, ◌≤◌, ◌<◌, ◌≡◌, ◌≢◌, refl, ap, ◌∙◌, Bool-cases, true, false, inl, inr, arith,
  Option, some, none, ◌==◌, ltb, if◌then◌else◌,
}
use ocaml_solo.Memory.{Memory, IsBytes}
use ocaml_solo.Length.{IsString}
use ocaml_solo.Substring.{twobyte_strstr, threebyte_strstr, fourbyte_strstr}
use ocaml_solo.Substring.Twoway.{twoway_strstr}
use ocaml_solo.Substring.First.{IsFirst}
use ocaml_solo.Substring.Short.{
  twobyte_strstr-IsFirst, threebyte_strstr-IsFirst, fourbyte_strstr-IsFirst,
}

-- The tests on the needle, from the first match `h` of its first byte on.
unfoldable pub by_length : (ℕ → ℕ) → ℕ → Memory → ℕ → ℕ → Option (Option ℕ)
by_length shift fuel m h n =
    if m (n + 1) == 0
    then some (some h)
    else if m (h + 1) == 0
    then some none
    else if m (n + 2) == 0
    then twobyte_strstr fuel m h n
    else if m (h + 2) == 0
    then some none
    else if m (n + 3) == 0
    then threebyte_strstr fuel m h n
    else if m (h + 3) == 0
    then some none
    else if m (n + 4) == 0
    then fourbyte_strstr fuel m h n
    else twoway_strstr shift fuel m h n

-- A string that ends within the match of a longer needle holds no match.
too_short : (k : ℕ) (m : Memory) (h len n : ℕ) → len < k → IsFirst k m h len n none
too_short k m h len n lt = inl (refl, λ i room match_. absurd (omega arith))

-- The string has its NUL at the first place that is zero.
length_at : (m : Memory) (h len i : ℕ) → IsString m h len → m (h + i) ≡ 0 → i ≤ len → len ≡ i
length_at m h len i str z le = elim (Bool-cases (ltb i len)) [
  | inl inside ↦ absurd (str.1 i (ground arith) z)
  | inr end ↦ ground arith
]

longer :
    (m : Memory) (h len i : ℕ) → IsString m h len → i ≤ len → (m (h + i) == 0) ≡ false → suc i ≤ len
longer m h len i str le more = elim (Bool-cases (i == len)) [
  | inl end ↦
      let p : i ≡ len = ground arith in
      let z : m (h + i) ≡ 0 = ap (λ t. m (h + t)) p ∙ str.0 in absurd (ground arith)
  | inr before ↦ ground arith
]

pub is_nul : (b : ℕ) → b ≡ 0 → (b == 0) ≡ true
is_nul b h = ground arith

pub not_nul : (b : ℕ) → b ≢ 0 → (b == 0) ≡ false
not_nul b h = elim (Bool-cases (b == 0)) [ inl z ↦ absurd (h (ground arith)) | inr z ↦ z ]

is_zero : (b : ℕ) → (b == 0) ≡ true → b ≡ 0
is_zero b h = ground arith

-- From the first match of the first byte on.
pub by_length-IsFirst :
    (shift : ℕ → ℕ) (k fuel : ℕ) (m : Memory) (h len n : ℕ)
    → IsBytes m
    → IsString m h len
    → IsString m n k
    → 1 ≤ len
    → 1 ≤ k
    → k ≤ 4
    → len < fuel
    → m h ≡ m n
    → (r : Option ℕ) × (by_length shift fuel m h n ≡ some r) × IsFirst k m h len n r
unfolding by_length
by_length-IsFirst shift zero fuel m h len n bytes str needle some_ low high enough first =
    absurd (omega arith)
by_length-IsFirst shift (suc zero) fuel m h len n bytes str needle some_ low high enough first =
    let end : (m (n + 1) == 0) ≡ true = let e = needle.0 in ground arith in
    rw end (
      some h,
      refl,
      inr (
        0,
        ap some (omega arith),
        some_,
        λ i lt.
            let z : i ≡ 0 = omega arith in
            let p : h + 0 + i ≡ h = omega arith in
            let q : n + i ≡ n = omega arith in rw (p, q) first,
        λ i lt. absurd (omega arith),
      ),
    )
by_length-IsFirst shift (suc (suc zero)) fuel m h len n bytes str needle some_ low high enough
      first =
    let a = not_nul (m (n + 1)) (needle.1 1 (omega arith)) in
    let end = is_nul (m (n + 2)) needle.0 in
    elim (Bool-cases (m (h + 1) == 0)) [
      | inl stop ↦
          let e = length_at m h len 1 str (is_zero (m (h + 1)) stop) some_ in
          rw (a, stop) (none, refl, too_short 2 m h len n (omega arith))
      | inr more ↦ rw (a, more, end) (twobyte_strstr-IsFirst fuel m h len n bytes str some_ enough)
    ]
by_length-IsFirst shift (suc (suc (suc zero))) fuel m h len n bytes str needle some_ low high enough
      first =
    let a = not_nul (m (n + 1)) (needle.1 1 (omega arith)) in
    let b = not_nul (m (n + 2)) (needle.1 2 (omega arith)) in
    let end = is_nul (m (n + 3)) needle.0 in
    elim (Bool-cases (m (h + 1) == 0)) [
      | inl stop ↦
          let e = length_at m h len 1 str (is_zero (m (h + 1)) stop) some_ in
          rw (a, stop) (none, refl, too_short 3 m h len n (omega arith))
      | inr more ↦
          let l = longer m h len 1 str some_ more in
          elim (Bool-cases (m (h + 2) == 0)) [
            | inl stop ↦
                let e = length_at m h len 2 str (is_zero (m (h + 2)) stop) l in
                rw (a, more, b, stop) (none, refl, too_short 3 m h len n (omega arith))
            | inr more2 ↦
                rw (a, more, b, more2, end)
                  (threebyte_strstr-IsFirst fuel m h len n bytes str l enough)
          ]
    ]
by_length-IsFirst shift (suc (suc (suc (suc zero)))) fuel m h len n bytes str needle some_ low high
      enough first =
    let a = not_nul (m (n + 1)) (needle.1 1 (omega arith)) in
    let b = not_nul (m (n + 2)) (needle.1 2 (omega arith)) in
    let c = not_nul (m (n + 3)) (needle.1 3 (omega arith)) in
    let end = is_nul (m (n + 4)) needle.0 in
    elim (Bool-cases (m (h + 1) == 0)) [
      | inl stop ↦
          let e = length_at m h len 1 str (is_zero (m (h + 1)) stop) some_ in
          rw (a, stop) (none, refl, too_short 4 m h len n (omega arith))
      | inr more ↦
          let l = longer m h len 1 str some_ more in
          elim (Bool-cases (m (h + 2) == 0)) [
            | inl stop ↦
                let e = length_at m h len 2 str (is_zero (m (h + 2)) stop) l in
                rw (a, more, b, stop) (none, refl, too_short 4 m h len n (omega arith))
            | inr more2 ↦
                let l2 = longer m h len 2 str l more2 in
                elim (Bool-cases (m (h + 3) == 0)) [
                  | inl stop ↦
                      let e = length_at m h len 3 str (is_zero (m (h + 3)) stop) l2 in
                      rw (a, more, b, more2, c, stop)
                        (none, refl, too_short 4 m h len n (omega arith))
                  | inr more3 ↦
                      rw (a, more, b, more2, c, more3, end)
                        (fourbyte_strstr-IsFirst fuel m h len n bytes str l2 enough)
                ]
          ]
    ]
by_length-IsFirst shift (suc (suc (suc (suc (suc k))))) fuel m h len n bytes str needle some_ low
      high enough first =
    absurd (omega arith)
