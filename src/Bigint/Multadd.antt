-- ===== src/Bigint/Multadd.antt =====
-- `multadd`.
use native.Mathlib.Nat.{mul-le-mul_left}
use ocaml_solo.Prelude.{
  ℕ, suc, ◌+◌, ◌*◌, ◌/◌, ◌%◌, ◌^◌, ◌≤◌, ◌<◌, ◌≡◌, refl, ap, sym, ◌∙◌, Bool-cases, Nat-cases, true,
  false, inl, inr, List, [], ◌∷◌, ◌++◌, arith, leb, ◌==◌, if◌then◌else◌,
}
use ocaml_solo.Bigint.Words.{
  length, Below, value, product_fits, Top, Trimmed, length-append, append-Below, append-Top,
  Top-Trimmed, append_zero-value, pow_next, pow_pos,
}
use ocaml_solo.Bigint.{Bigint, balloc, IsValid}

-- The loop: the words that it leaves, and the carry out of the last.
unfoldable pub multadd_loop : List ℕ → ℕ → ℕ → List ℕ × ℕ
multadd_loop [] m carry = ([], carry)
multadd_loop (x ∷ xs) m carry =
    let y = (x * m + carry) % 2 ^ 64 in
    let (rest, out) = multadd_loop xs m (y / 2 ^ 32) in (y % 2 ^ 32 ∷ rest, out)

loop-value :
    (xs : List ℕ) (m carry : ℕ)
    → Below xs
    → m < 2 ^ 32
    → carry < 2 ^ 32
    → let (ws, out) = multadd_loop xs m carry in
      (value (ws ++ (out ∷ [])) ≡ value xs * m + carry)
      × Below ws
      × (out < 2 ^ 32)
      × (length ws ≡ length xs)
unfolding multadd_loop value
loop-value [] m carry b hm hc = (omega arith, tt, hc, refl)
loop-value (x ∷ xs) m carry (bx, b) hm hc =
    let fits = product_fits x m carry 0 bx hm hc (omega arith) in
    let (v, bs, o, l) = loop-value xs m ((x * m + carry) % 2 ^ 64 / 2 ^ 32) b hm (omega arith) in
    (omega arith, (omega arith, bs), o, ap suc l)

-- Without a carry out, the highest word stays above zero.
loop-Top :
    (xs : List ℕ) (m carry : ℕ)
    → Below xs
    → 0 < m
    → m < 2 ^ 32
    → carry < 2 ^ 32
    → (multadd_loop xs m carry).1 ≡ 0
    → Top xs
    → Top (multadd_loop xs m carry).0
unfolding multadd_loop
loop-Top [] m carry b h hm hc e t = t
loop-Top (x ∷ []) m carry (bx, b) h hm hc e t =
    let fits = product_fits x m carry 0 bx hm hc (omega arith) in
    let grows = mul-le-mul_left {m = 1} {n = m} x h in omega arith
loop-Top (x ∷ (v ∷ xs)) m carry (bx, b) h hm hc e t =
    let fits = product_fits x m carry 0 bx hm hc (omega arith) in
    loop-Top (v ∷ xs) m ((x * m + carry) % 2 ^ 64 / 2 ^ 32) b h hm (omega arith) e t

loop-Trimmed :
    (xs : List ℕ) (m carry : ℕ)
    → Below xs
    → 0 < m
    → m < 2 ^ 32
    → carry < 2 ^ 32
    → (multadd_loop xs m carry).1 ≡ 0
    → Trimmed xs
    → Trimmed (multadd_loop xs m carry).0
unfolding multadd_loop
loop-Trimmed [] m carry b h hm hc e t = t
loop-Trimmed (x ∷ []) m carry b h hm hc e t = tt
loop-Trimmed (x ∷ (v ∷ xs)) m carry (bx, b) h hm hc e t =
    let fits = product_fits x m carry 0 bx hm hc (omega arith) in
    loop-Top (v ∷ xs) m ((x * m + carry) % 2 ^ 64 / 2 ^ 32) b h hm (omega arith) e t

-- One more word, in a larger block if this one is full; `Bcopy` copies the sign and the words.
unfoldable pub push : Bigint → List ℕ → ℕ → Bigint
unfolding balloc
push b ws carry =
    if leb b.maxwds (length ws)
    then record (balloc (b.k + 1) (ws ++ (carry ∷ []))) { sign = b.sign }
    else record b { x = ws ++ (carry ∷ []) }

unfoldable pub multadd : Bigint → ℕ → ℕ → Bigint
unfolding push
multadd b m a =
    let (ws, carry) = multadd_loop b.x m a in
    if carry == 0 then record b { x = ws } else push b ws carry

pub push-IsValid :
    (b : Bigint) (ws : List ℕ) (carry : ℕ)
    → b.maxwds ≡ 2 ^ b.k
    → length ws ≤ b.maxwds
    → Below ws
    → 0 < carry
    → carry < 2 ^ 32
    → IsValid (push b ws carry)
      × ((push b ws carry).x ≡ ws ++ (carry ∷ []))
      × ((push b ws carry).sign ≡ b.sign)
unfolding push balloc
push-IsValid b ws carry space fits below h hc =
    let l = length-append ws (carry ∷ []) in
    let p = pow_next b.k in
    let q = pow_pos b.k in
    let bs = append-Below ws (carry ∷ []) below (hc, tt) in
    let top = Top-Trimmed (ws ++ (carry ∷ [])) (append-Top ws carry h) in
    elim (Bool-cases (leb b.maxwds (length ws))) [
      | inl full ↦
          let full_fits : length (ws ++ (carry ∷ [])) ≤ 2 ^ (b.k + 1) = ground (arith, l) in
          rw full (record { space = refl; fits = full_fits; below = bs; trimmed = top }, refl, refl)
      | inr room ↦
          let room_fits : length (ws ++ (carry ∷ [])) ≤ b.maxwds = ground (arith, l) in
          rw room
            (record { space = space; fits = room_fits; below = bs; trimmed = top }, refl, refl)
    ]

-- `multadd` multiplies by `m` and adds `a`, for `m` above 0 and both below 2 ^ 32, whatever the
-- size: the result is well formed, in a larger block where it needs one more word than fits, and the
-- sign stays.
pub multadd-IsValid :
    (b : Bigint) (m a : ℕ)
    → IsValid b
    → 0 < m
    → m < 2 ^ 32
    → a < 2 ^ 32
    → IsValid (multadd b m a)
      × (value (multadd b m a).x ≡ value b.x * m + a)
      × ((multadd b m a).sign ≡ b.sign)
unfolding multadd
multadd-IsValid b m a v pm hm ha =
    let (val, below, small, len) = loop-value b.x m a v.below hm ha in
    let (ws, carry) = multadd_loop b.x m a in
    elim (Nat-cases carry) [
      | inl none_ ↦
          let e : (carry == 0) ≡ true = ground arith in
          rw e (
            record {
              space = v.space;
              fits = let f = v.fits in omega arith;
              below = below;
              trimmed = loop-Trimmed b.x m a v.below pm hm ha none_ v.trimmed;
            },
            sym (append_zero-value ws) ∙ ap (λ c. value (ws ++ (c ∷ []))) (sym none_) ∙ val,
            refl,
          )
      | inr some_ ↦
          let e : (carry == 0) ≡ false = ground arith in
          let (valid, words, sign) =
            push-IsValid b ws carry v.space (let f = v.fits in omega arith) below some_ small in
          rw e (valid, ap value words ∙ val, sign)
    ]
