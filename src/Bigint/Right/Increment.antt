-- ===== src/Bigint/Right/Increment.antt =====
-- `increment`.
use ocaml_solo.Prelude.{
  ℕ, suc, ◌+◌, ◌≡◌, refl, ap, sym, ◌∙◌, Bool, Bool-cases, true, false, inl, inr, List, [], ◌∷◌,
  ◌++◌, arith, ltb, if◌then◌else◌,
}
use ocaml_solo.Bigint.{Bigint, IsValid}
use ocaml_solo.Bigint.Words.{
  length, Below, value, Top, Trimmed, Top-cons, Top-Trimmed, append_zero-value,
}
use ocaml_solo.Bigint.Multadd.{push, push-IsValid}

-- The loop, and whether it ran past the last word.
unfoldable pub increment_words : List ℕ → List ℕ × Bool
increment_words [] = ([], true)
increment_words (x ∷ xs) =
    let (rest, over) = increment_words xs in
    if ltb x 0xffffffff then ((x + 1) ∷ xs, false) else (0 ∷ rest, over)

unfoldable pub increment : Bigint → Bigint
unfolding push
increment b =
    let (ws, over) = increment_words b.x in if over then push b ws 1 else record b { x = ws }

abbrev bit : Bool → ℕ
bit true = 1
bit false = 0

words-value :
    (xs : List ℕ)
    → Below xs
    → let (ws, over) = increment_words xs in
      (value (ws ++ (bit over ∷ [])) ≡ value xs + 1) × Below ws × (length ws ≡ length xs)
unfolding increment_words value
words-value [] b = (omega arith, tt, refl)
words-value (x ∷ xs) (h, b) =
    let (v, below, l) = words-value xs b in
    elim (Bool-cases (ltb x 0xffffffff)) [
      | inl more ↦ rw more (omega (arith, append_zero-value xs), (ground arith, b), refl)
      | inr full ↦
          rw full
            (let e : x ≡ 0xffffffff = ground arith in omega arith, (omega arith, below), ap suc l)
    ]

words-Top : (xs : List ℕ) → Top xs → (increment_words xs).1 ≡ false → Top (increment_words xs).0
unfolding increment_words
words-Top [] t e = absurd t
words-Top (x ∷ []) t e = elim (Bool-cases (ltb x 0xffffffff)) [
  | inl more ↦ rw more (omega arith)
  | inr full ↦ let over = rw full at e in cc
]
words-Top (x ∷ (v ∷ vs)) t e = elim (Bool-cases (ltb x 0xffffffff)) [
  | inl more ↦ rw more t
  | inr full ↦
      let over = rw full at e in
      rw full (Top-cons 0 (increment_words (v ∷ vs)).0 (words-Top (v ∷ vs) t over))
]

words-Trimmed :
    (xs : List ℕ) → Trimmed xs → (increment_words xs).1 ≡ false → Trimmed (increment_words xs).0
unfolding increment_words
words-Trimmed [] t e = absurd t
words-Trimmed (x ∷ []) t e = elim (Bool-cases (ltb x 0xffffffff)) [
  | inl more ↦ rw more tt
  | inr full ↦ rw full tt
]
words-Trimmed (x ∷ (v ∷ vs)) t e = elim (Bool-cases (ltb x 0xffffffff)) [
  | inl more ↦ rw more t
  | inr full ↦
      let over = rw full at e in
      rw full (
        Top-Trimmed (0 ∷ (increment_words (v ∷ vs)).0)
          (Top-cons 0 (increment_words (v ∷ vs)).0 (words-Top (v ∷ vs) t over)))
]

-- `increment` adds 1, in a larger block where the carry needs a word that does not fit.
pub increment-IsValid :
    (b : Bigint) → IsValid b → IsValid (increment b) × (value (increment b).x ≡ value b.x + 1)
unfolding increment
increment-IsValid b v =
    let (val, below, len) = words-value b.x v.below in
    let (ws, over) = increment_words b.x in
    elim (Bool-cases over) [
      | inl carry ↦
          let (valid, words, sign) =
            push-IsValid b ws 1 v.space (let f = v.fits in omega arith) below (omega arith)
              (omega arith) in
          rw carry (valid, ap value words ∙ ap (λ o. value (ws ++ (bit o ∷ []))) (sym carry) ∙ val)
      | inr stays ↦ rw stays (
        record {
          space = v.space;
          fits = let f = v.fits in omega arith;
          below = below;
          trimmed = words-Trimmed b.x v.trimmed stays;
        },
        sym (append_zero-value ws) ∙ ap (λ o. value (ws ++ (bit o ∷ []))) (sym stays) ∙ val,
      )
    ]
