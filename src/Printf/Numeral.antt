-- ===== src/Printf/Numeral.antt =====
-- The fields of integers, and the numbers that their digits stand for.
use ocaml_solo.Prelude.{
  ℕ, zero, suc, ◌+◌, ◌-◌, ◌*◌, ◌<◌, ◌≡◌, ◌⊎◌, refl, false, ap, ◌∙◌, inl, inr, Nat-cases, some, List,
  [], ◌∷◌, ◌++◌, ◌==◌, max, arith,
}
use ocaml_solo.Prelude.Int.{negsuc}
use ocaml_solo.Prelude.Lists.{length}
use ocaml_solo.Memory.{Memory}
use ocaml_solo.Format.Digits.{Written, number}
use ocaml_solo.Format.Pad.{repeat}
use ocaml_solo.Printf.Outcome.{done}
use ocaml_solo.Printf.Convert.{text_at, digits_of, buf_size, integer}
use ocaml_solo.Printf.Field.{layout, layout-laid}
use ocaml_solo.Printf.Literal.{length-text_at}

-- The number of a row of digits in base `b`, behind those of `acc`.
unfoldable pub value : ℕ → (ℕ → ℕ) → ℕ → List ℕ → ℕ
value b worth acc [] = acc
value b worth acc (c ∷ t) = value b worth (acc * b + worth c) t

abbrev pub AreDigits : ℕ → (ℕ → ℕ) → List ℕ → Type 0
AreDigits b worth [] = Unit {0}
AreDigits b worth (c ∷ t) = (worth c < b) × AreDigits b worth t

-- The digits of `x` in base `b`, each worth less than `b`, without a 0 in front but for the number 0.
pub record Numeral (b : ℕ) (worth : ℕ → ℕ) (x : ℕ) (t : List ℕ) : Type 0 where
  pub stands : value b worth 0 t ≡ x
  pub digits : AreDigits b worth t
  pub first : ((x ≡ 0) × (t ≡ b'0' ∷ [])) ⊎ ((c : ℕ) × (s : List ℕ) × (t ≡ c ∷ s) × (0 < worth c))

value-text_at :
    (b : ℕ) (worth : ℕ → ℕ) (m : Memory) (p n j : ℕ)
    → value b worth (number b worth m p j) (text_at m (p + j) n) ≡ number b worth m p (j + n)
unfolding value text_at number
value-text_at b worth m p zero j = ap (number b worth m p) (omega arith)
value-text_at b worth m p (suc n) j =
    ap (λ a. value b worth (number b worth m p (suc j)) (text_at m a n)) (omega arith)
    ∙ value-text_at b worth m p n (suc j)
    ∙ ap (number b worth m p) (omega arith)

text_at-AreDigits :
    (b : ℕ) (worth : ℕ → ℕ) (m : Memory) (p n : ℕ)
    → ((i : ℕ) → i < n → worth (m (p + i)) < b)
    → AreDigits b worth (text_at m p n)
unfolding text_at
text_at-AreDigits b worth m p zero all = tt
text_at-AreDigits b worth m p (suc n) all =
    let z : p + 0 ≡ p = omega arith in
    (
      rw z at (all 0 (omega arith)),
      text_at-AreDigits b worth m (p + 1) n (λ i lt.
          let z' : p + 1 + i ≡ p + suc i = omega arith in rw z' (all (suc i) (omega arith))),
    )

module _ (b : ℕ) (worth : ℕ → ℕ) (x : ℕ) (pos_ : 0 < x) {p : ℕ} {count : ℕ} {m m' : Memory}
    (w : Written b worth x buf_size m m' p count) where
  -- The digits of a number that is not 0.
  pub digits-Numeral :
      (digits : List ℕ) × (digits_of (some (p, m')) ≡ done digits)
      × (0 < length digits)
      × Numeral b worth x digits
  unfolding number text_at
  digits-Numeral =
      let size : buf_size - p ≡ count = let e = w.place in omega arith in
      let all : value b worth 0 (text_at m' p count) ≡ x =
        ap (λ a. value b worth 0 (text_at m' a count)) (omega arith)
        ∙ value-text_at b worth m' p count 0
        ∙ ap (number b worth m' p) (omega arith)
        ∙ w.stands in
      let some_ : 0 < count = elim (Nat-cases count) [
        | inl none_ ↦
            let z : number b worth m' p count ≡ 0 = ap (number b worth m' p) none_ in
            let e = w.stands in absurd (omega arith)
        | inr more ↦ more
      ] in
      let e : count ≡ suc (count - 1) = omega arith in
      rw size (
        text_at m' p count,
        refl,
        rw (length-text_at m' p count) some_,
        record {
          stands = all;
          digits = text_at-AreDigits b worth m' p count w.digits;
          first = inr (m' p, text_at m' (p + 1) (count - 1), ap (text_at m' p) e, w.first some_);
        },
      )

-- Their field shows them.
pub layout-integer :
    (arg : ℕ) (lead digits : List ℕ)
    → 0 < arg
    → layout (integer 0 (negsuc 0) 0 arg lead digits) ≡ lead ++ digits
unfolding integer repeat
layout-integer arg lead digits h =
    let e : (arg == 0) ≡ false = ground arith in
    let n = length digits in
    let wide : n + 0 ≡ n = omega arith in
    let same : max n n ≡ n = omega arith in
    let none_ : n - n ≡ 0 = omega arith in
    let gap : 0 - (length lead + n) ≡ 0 = omega arith in
    layout-laid (integer 0 (negsuc 0) 0 arg lead digits) ∙ rw (e, wide, same, none_, gap) refl

pub layout_zero : (lead : List ℕ) → layout (integer 0 (negsuc 0) 0 0 lead []) ≡ lead ++ b'0' ∷ []
unfolding integer repeat
layout_zero lead =
    let gap : 0 - (length lead + 1) ≡ 0 = omega arith in
    layout-laid (integer 0 (negsuc 0) 0 0 lead []) ∙ rw gap refl
