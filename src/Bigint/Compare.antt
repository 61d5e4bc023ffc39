-- ===== src/Bigint/Compare.antt =====
-- `cmp`.
use ocaml_solo.Prelude.{
  ℕ, zero, suc, ◌+◌, ◌-◌, ◌*◌, ◌^◌, ◌<◌, ◌≡◌, refl, Bool-cases, false, inl, inr, List, [], ◌∷◌,
  arith, ltb, leb, ◌==◌, if◌then◌else◌,
}
use ocaml_solo.Prelude.Int.{ℤ, pos, negsuc, sub_ℕ}
use ocaml_solo.Bigint.{Bigint, IsValid}
use ocaml_solo.Bigint.Words.{length, Below, value, Top, Trimmed, Top-value}

-- One word below the words that `higher` compares.
unfoldable pub cmp_word : ℕ → ℕ → ℤ → ℤ
cmp_word x y (pos zero) = if x == y then pos 0 else if ltb x y then negsuc 0 else pos 1
cmp_word x y (pos (suc n)) = pos (suc n)
cmp_word x y (negsuc n) = negsuc n

-- The loop from the highest word down, over as many words of each.
unfoldable pub cmp_words : List ℕ → List ℕ → ℤ
cmp_words [] ys = pos 0
cmp_words (x ∷ xs) [] = pos 0
cmp_words (x ∷ xs) (y ∷ ys) = cmp_word x y (cmp_words xs ys)

unfoldable pub cmp : Bigint → Bigint → ℤ
cmp a b = if length a.x == length b.x then cmp_words a.x b.x else sub_ℕ (length a.x) (length b.x)

-- What the sign of the result says.
abbrev pub Orders : ℤ → ℕ → ℕ → Type 0
Orders (pos zero) m n = m ≡ n
Orders (pos (suc k)) m n = n < m
Orders (negsuc k) m n = m < n

word-Orders :
    (x y m n : ℕ) (higher : ℤ)
    → x < 2 ^ 32
    → y < 2 ^ 32
    → Orders higher m n
    → Orders (cmp_word x y higher) (x + 2 ^ 32 * m) (y + 2 ^ 32 * n)
unfolding cmp_word
word-Orders x y m n (pos zero) hx hy e = ground (arith)
word-Orders x y m n (pos (suc k)) hx hy e = omega arith
word-Orders x y m n (negsuc k) hx hy e = omega arith

pub words-Orders :
    (xs ys : List ℕ)
    → Below xs
    → Below ys
    → length xs ≡ length ys
    → Orders (cmp_words xs ys) (value xs) (value ys)
unfolding cmp_words value
words-Orders [] [] bx by e = refl
words-Orders [] (y ∷ ys) bx by e = absurd (omega arith)
words-Orders (x ∷ xs) [] bx by e = absurd (omega arith)
words-Orders (x ∷ xs) (y ∷ ys) (hx, bx) (hy, by) e =
    word-Orders x y (value xs) (value ys) (cmp_words xs ys) hx hy
      (words-Orders xs ys bx by (omega arith))

pub shorter-value :
    (xs ys : List ℕ) → Below xs → Top ys → length xs < length ys → value xs < value ys
unfolding value
shorter-value [] ys b t h = Top-value ys t
shorter-value (x ∷ xs) [] b t h = absurd (omega arith)
shorter-value (x ∷ xs) (y ∷ []) b t h = absurd (omega arith)
shorter-value (x ∷ xs) (y ∷ (v ∷ vs)) (hx, b) t h =
    omega (arith, shorter-value xs (v ∷ vs) b t (omega arith))

pub shorter-Trimmed :
    (xs ys : List ℕ)
    → Below xs
    → Trimmed xs
    → Trimmed ys
    → length xs < length ys
    → value xs < value ys
shorter-Trimmed [] ys b tx t h = absurd tx
shorter-Trimmed (x ∷ xs) [] b tx t h = absurd (omega arith)
shorter-Trimmed (x ∷ xs) (y ∷ []) b tx t h = absurd (omega arith)
shorter-Trimmed (x ∷ xs) (y ∷ (v ∷ vs)) b tx t h = shorter-value (x ∷ xs) (y ∷ (v ∷ vs)) b t h

sub-Orders :
    (i j m n : ℕ) → (i == j) ≡ false → (i < j → m < n) → (j < i → n < m) → Orders (sub_ℕ i j) m n
sub-Orders i j m n ne less more = elim (Bool-cases (leb j i)) [
  | inl above ↦
      let lt : j < i = ground arith in
      let positive : i - j ≡ suc (i - j - 1) = omega arith in rw (above, positive) (more lt)
  | inr below ↦ rw below (less (ground arith))
]

-- The sign of `cmp` is the order of the values.
pub cmp-Orders : (a b : Bigint) → IsValid a → IsValid b → Orders (cmp a b) (value a.x) (value b.x)
unfolding cmp
cmp-Orders a b va vb = elim (Bool-cases (length a.x == length b.x)) [
  | inl same ↦ rw same (words-Orders a.x b.x va.below vb.below (ground arith))
  | inr other ↦ rw other (
      sub-Orders (length a.x) (length b.x) (value a.x) (value b.x) other
        (shorter-Trimmed a.x b.x va.below va.trimmed vb.trimmed)
        (shorter-Trimmed b.x a.x vb.below vb.trimmed va.trimmed))
]
