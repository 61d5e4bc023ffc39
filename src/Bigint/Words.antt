-- ===== src/Bigint/Words.antt =====
-- Words and the number that they stand for.
use native.Mathlib.Nat.{mul-le-mul, pow-suc, pow-zero, two-pow-succ}
use native.Mathlib.Numerals.{add-one}
pub use ocaml_solo.Prelude.Lists.{length, length-append}
use ocaml_solo.Prelude.{
  ap, ◌∙◌, ◌==◌, if◌then◌else◌, ℕ, zero, suc, ◌+◌, ◌-◌, ◌*◌, ◌^◌, ◌≤◌, ◌<◌, ◌≡◌, refl, List, [],
  ◌∷◌, ◌++◌, arith,
}

abbrev pub Below : List ℕ → Type 0
Below [] = Unit {0}
Below (w ∷ ws) = (w < 2 ^ 32) × Below ws

unfoldable pub value : List ℕ → ℕ
value [] = 0
value (w ∷ ws) = w + 2 ^ 32 * value ws

-- A product of two words and two more words fit 64 bits.
pub product_fits :
    (x y c d : ℕ) → x < 2 ^ 32 → y < 2 ^ 32 → c < 2 ^ 32 → d < 2 ^ 32 → x * y + c + d < 2 ^ 64
product_fits x y c d hx hy hc hd =
    let p : x * y ≤ (2 ^ 32 - 1) * (2 ^ 32 - 1) =
      mul-le-mul {n₂ = 2 ^ 32 - 1} {m₂ = 2 ^ 32 - 1} (omega arith) (omega arith) in
    omega arith

-- The highest word is not zero.
abbrev pub Top : List ℕ → Type 0
Top [] = ⊥
Top (w ∷ []) = 0 < w
Top (w ∷ (v ∷ vs)) = Top (v ∷ vs)

-- At least one word, and no zero in front, but for the number 0 itself.
abbrev pub Trimmed : List ℕ → Type 0
Trimmed [] = ⊥
Trimmed (w ∷ []) = Unit {0}
Trimmed (w ∷ (v ∷ vs)) = Top (v ∷ vs)

pub append-Below : (us vs : List ℕ) → Below us → Below vs → Below (us ++ vs)
append-Below [] vs bu bv = bv
append-Below (u ∷ us) vs (h, bu) bv = (h, append-Below us vs bu bv)

pub append-Top : (us : List ℕ) (c : ℕ) → 0 < c → Top (us ++ (c ∷ []))
append-Top [] c h = h
append-Top (u ∷ []) c h = h
append-Top (u ∷ (v ∷ us)) c h = append-Top (v ∷ us) c h

pub Top-Trimmed : (us : List ℕ) → Top us → Trimmed us
Top-Trimmed [] h = h
Top-Trimmed (u ∷ []) h = tt
Top-Trimmed (u ∷ (v ∷ us)) h = h

-- A zero in front is worth nothing.
pub append_zero-value : (us : List ℕ) → value (us ++ (0 ∷ [])) ≡ value us
unfolding value
append_zero-value [] = refl
append_zero-value (u ∷ us) = omega (arith, append_zero-value us)

pub Top-value : (us : List ℕ) → Top us → 0 < value us
unfolding value
Top-value [] h = absurd h
Top-value (u ∷ []) h = omega arith
Top-value (u ∷ (v ∷ us)) h = omega (arith, Top-value (v ∷ us) h)

pub pow_next : (k : ℕ) → 2 ^ (k + 1) ≡ 2 ^ k + 2 ^ k
pow_next k = rw (add-one, two-pow-succ k) refl

pub pow_pos : (k : ℕ) → 0 < 2 ^ k
pow_pos zero = omega arith
pow_pos (suc k) = omega (arith, pow_pos k)

-- `n` words set to 0.
unfoldable pub zeros : ℕ → List ℕ
zeros zero = []
zeros (suc n) = 0 ∷ zeros n

pub zeros-length : (n : ℕ) → length (zeros n) ≡ n
unfolding zeros
zeros-length zero = refl
zeros-length (suc n) = ap suc (zeros-length n)

pub zeros-Below : (n : ℕ) → Below (zeros n)
unfolding zeros
zeros-Below zero = tt
zeros-Below (suc n) = (omega arith, zeros-Below n)

pub zeros-value : (n : ℕ) → value (zeros n) ≡ 0
unfolding zeros value
zeros-value zero = refl
zeros-value (suc n) = omega (arith, zeros-value n)

abbrev pub put : ℕ → List ℕ → List ℕ
put w [] = if w == 0 then [] else w ∷ []
put w (v ∷ vs) = w ∷ (v ∷ vs)

-- The words without the zeros in front, which a loop from the highest word down leaves out.
unfoldable pub trim : List ℕ → List ℕ
trim [] = []
trim (w ∷ ws) = put w (trim ws)

put-value : (w : ℕ) (ws : List ℕ) → value (put w ws) ≡ w + 2 ^ 32 * value ws
unfolding value
put-value w [] = ground arith
put-value w (v ∷ vs) = refl

pub trim-value : (ws : List ℕ) → value (trim ws) ≡ value ws
unfolding trim value
trim-value [] = refl
trim-value (w ∷ ws) = put-value w (trim ws) ∙ ap (λ n. w + 2 ^ 32 * n) (trim-value ws)

put-Below : (w : ℕ) (ws : List ℕ) → w < 2 ^ 32 → Below ws → Below (put w ws)
put-Below w [] h b = ground arith
put-Below w (v ∷ vs) h b = (h, b)

pub trim-Below : (ws : List ℕ) → Below ws → Below (trim ws)
unfolding trim
trim-Below [] b = b
trim-Below (w ∷ ws) (h, b) = put-Below w (trim ws) h (trim-Below ws b)

put-length : (w : ℕ) (ws : List ℕ) → length (put w ws) ≤ suc (length ws)
put-length w [] = ground arith
put-length w (v ∷ vs) = omega arith

pub trim-length : (ws : List ℕ) → length (trim ws) ≤ length ws
unfolding trim
trim-length [] = omega arith
trim-length (w ∷ ws) = omega (arith, put-length w (trim ws), trim-length ws)

-- No word, or a highest one that is not zero.
abbrev pub Clean : List ℕ → Type 0
Clean [] = Unit {0}
Clean (w ∷ ws) = Top (w ∷ ws)

put-Clean : (w : ℕ) (ws : List ℕ) → Clean ws → Clean (put w ws)
put-Clean w [] c = ground arith
put-Clean w (v ∷ vs) c = c

pub trim-Clean : (ws : List ℕ) → Clean (trim ws)
unfolding trim
trim-Clean [] = tt
trim-Clean (w ∷ ws) = put-Clean w (trim ws) (trim-Clean ws)

pub Clean-Top : (ws : List ℕ) → Clean ws → 0 < value ws → Top ws
unfolding value
Clean-Top [] c h = omega arith
Clean-Top (w ∷ ws) c h = c

-- One more than the greatest value of `n` words.
unfoldable pub span : ℕ → ℕ
span zero = 1
span (suc n) = 2 ^ 32 * span n

pub value-lt-span : (ws : List ℕ) → Below ws → value ws < span (length ws)
unfolding value span
value-lt-span [] b = omega arith
value-lt-span (w ∷ ws) (h, b) = omega (arith, value-lt-span ws b)

pub Trimmed-Top : (ws : List ℕ) → Trimmed ws → 0 < value ws → Top ws
unfolding value
Trimmed-Top [] t h = absurd t
Trimmed-Top (w ∷ []) t h = omega arith
Trimmed-Top (w ∷ (v ∷ vs)) t h = t

pub pow_add : (b m n : ℕ) → b ^ (m + n) ≡ b ^ m * b ^ n
pow_add b zero n =
    let e : 0 + n ≡ n = omega arith in let one : b ^ 0 ≡ 1 = pow-zero b in rw (e, one) (omega arith)
pow_add b (suc m) n =
    let e : suc m + n ≡ suc (m + n) = omega arith in
    rw (e, pow-suc b (m + n), pow-suc b m, pow_add b m n) (omega arith)

pub Top-cons : (w : ℕ) (us : List ℕ) → Top us → Top (w ∷ us)
Top-cons w [] t = absurd t
Top-cons w (u ∷ us) t = t
