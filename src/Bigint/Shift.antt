-- ===== src/Bigint/Shift.antt =====
-- `lshift`.
use native.Mathlib.Nat.{div-lt_iff_lt-mul, mod-lt, mul_comm, mul-le-mul_right}
use native.Mathlib.Omega.{div_any}
use ocaml_solo.Prelude.{
  ℕ, zero, suc, ◌+◌, ◌-◌, ◌*◌, ◌/◌, ◌%◌, ◌^◌, ◌≤◌, ◌<◌, ◌≡◌, refl, ap, sym, ◌∙◌, Bool-cases,
  Nat-cases, true, false, inl, inr, List, [], ◌∷◌, ◌++◌, arith, ltb, ◌==◌, if◌then◌else◌, bit_and,
  bit_and_mask, bit_or, bit_or_sum, below_all, below_all_at, ==_iff, Option, some, none, ◌>>=◌,
}
use ocaml_solo.Bigint.{Bigint, balloc, IsValid}
use ocaml_solo.Bigint.Words.{
  length, Below, value, Top, span, zeros, zeros-length, zeros-Below, length-append, append-Below,
  Top-Trimmed, Trimmed-Top, Top-cons, pow_add, pow_pos, pow_next,
}

-- The loop that doubles the size of the block until `n1` words fit.
unfoldable pub size_for : ℕ → ℕ → ℕ → ℕ → Option ℕ
size_for zero n1 i k1 = none
size_for (suc fuel) n1 i k1 =
    let rest = size_for fuel n1 (i * 2) (k1 + 1) in if ltb i n1 then rest else some k1

-- The loop over the words for a shift by `s` bits, from 1 to 31; `z` holds the bits that the word
-- before moves up.
unfoldable pub lshift_words : List ℕ → ℕ → ℕ → List ℕ
lshift_words [] s z = if z == 0 then [] else z ∷ []
lshift_words (x ∷ xs) s z = bit_or (x * 2 ^ s % 2 ^ 32) z ∷ lshift_words xs s (x / 2 ^ (32 - s))

unfoldable pub lshift : ℕ → Bigint → ℕ → Option Bigint
unfolding balloc
lshift fuel b k =
    let n = k / 32 in
    let s = bit_and k 0x1f in
    size_for fuel (n + length b.x + 1) b.maxwds b.k >>= λ k1.
    some (balloc k1 (zeros n ++ (if s == 0 then b.x else lshift_words b.x s 0)))

size_for_enough :
    (fuel n1 i k : ℕ)
    → i ≡ 2 ^ k
    → n1 < i + fuel
    → 0 < fuel
    → (k' : ℕ) × (size_for fuel n1 i k ≡ some k') × (n1 ≤ 2 ^ k')
unfolding size_for
size_for_enough zero n1 i k e h f = absurd (omega arith)
size_for_enough (suc fuel) n1 i k e h f =
    let p = pow_pos k in
    elim (Bool-cases (ltb i n1)) [
      | inl more ↦ rw more (
          size_for_enough fuel n1 (i * 2) (k + 1) (omega (arith, pow_next k)) (omega arith)
            (ground arith))
      | inr done ↦ (k, rw done refl, ground arith)
    ]

-- The two parts of a word.
pub pow_split : (s : ℕ) → s < 33 → 2 ^ (32 - s) * 2 ^ s ≡ 2 ^ 32
unfolding below_all
pow_split s lt =
    (==_iff (2 ^ (32 - s) * 2 ^ s) (2 ^ 32)).0
      (below_all_at (λ s. 2 ^ (32 - s) * 2 ^ s == 2 ^ 32) 33 s refl lt)

-- A shifted word: the low part moves up, and the bits from below fill the gap.
pub shifted :
    (p q x z : ℕ)
    → q * p ≡ 2 ^ 32
    → 0 < q
    → 0 < p
    → x < 2 ^ 32
    → z < p
    → (x * p % 2 ^ 32 ≡ x % q * p) × (x % q * p + z < 2 ^ 32) × (x / q < p)
shifted p q x z e hq hp hx hz =
    let parts = div_any x q in
    let low = mod-lt x {m = q} hq in
    let room : suc (x % q) * p ≤ q * p = mul-le-mul_right p low in
    let high : x / q < p =
      (div-lt_iff_lt-mul {k = q} {x = x} {y = p} hq).1 (rw (mul_comm p q, e) hx) in
    let whole : x * p ≡ 2 ^ 32 * (x / q) + x % q * p =
      omega (arith, ap (λ (t : ℕ). t * p) parts, ap (λ (t : ℕ). t * (x / q)) e) in
    (omega arith, omega arith, high)

shifted_word :
    (s x z : ℕ)
    → 0 < s
    → s < 32
    → x < 2 ^ 32
    → z < 2 ^ s
    → (bit_or (x * 2 ^ s % 2 ^ 32) z ≡ x % 2 ^ (32 - s) * 2 ^ s + z)
      × (x % 2 ^ (32 - s) * 2 ^ s + z < 2 ^ 32)
      × (x / 2 ^ (32 - s) < 2 ^ s)
shifted_word s x z hs lt hx hz =
    let (w, fits, high) =
      shifted (2 ^ s) (2 ^ (32 - s)) x z (pow_split s (omega arith)) (pow_pos (32 - s)) (pow_pos s)
        hx hz in
    (rw w (bit_or_sum s (x % 2 ^ (32 - s)) z hz), fits, high)

shift_sum :
    (p q h l x z v rest : ℕ)
    → q * p ≡ 2 ^ 32
    → q * h + l ≡ x
    → rest ≡ v * p + h
    → l * p + z + 2 ^ 32 * rest ≡ (x + 2 ^ 32 * v) * p + z
shift_sum p q h l x z v rest e parts r =
    omega (arith, ap (λ (t : ℕ). t * p) parts, ap (λ (t : ℕ). t * h) e)

pow_below : (s : ℕ) → s < 32 → 2 ^ s ≤ 2 ^ 32
pow_below s lt =
    let grows : 1 * 2 ^ s ≤ 2 ^ (32 - s) * 2 ^ s = mul-le-mul_right (2 ^ s) (pow_pos (32 - s)) in
    omega (arith, pow_split s (omega arith))

words-value :
    (xs : List ℕ) (s z : ℕ)
    → 0 < s
    → s < 32
    → Below xs
    → z < 2 ^ s
    → (value (lshift_words xs s z) ≡ value xs * 2 ^ s + z)
      × Below (lshift_words xs s z)
      × (length (lshift_words xs s z) ≤ length xs + 1)
unfolding lshift_words value
words-value [] s z hs lt b hz = let p = pow_below s lt in ground arith
words-value (x ∷ xs) s z hs lt (hx, b) hz =
    let (w, fits, high) = shifted_word s x z hs lt hx hz in
    let (v, bs, l) = words-value xs s (x / 2 ^ (32 - s)) hs lt b high in
    let parts = div_any x (2 ^ (32 - s)) in
    rw w (
      shift_sum (2 ^ s) (2 ^ (32 - s)) (x / 2 ^ (32 - s)) (x % 2 ^ (32 - s)) x z (value xs)
          (value (lshift_words xs s (x / 2 ^ (32 - s)))) (pow_split s (omega arith)) parts v,
      (fits, bs),
      omega arith,
    )

-- The highest word of a shifted number is not 0: the bits moved out, or what is left of the word.
words-Top :
    (xs : List ℕ) (s z : ℕ)
    → 0 < s
    → s < 32
    → Below xs
    → z < 2 ^ s
    → Top xs
    → Top (lshift_words xs s z)
unfolding lshift_words
words-Top [] s z hs lt b hz t = absurd t
words-Top (x ∷ []) s z hs lt (hx, b) hz t =
    let (w, fits, high) = shifted_word s x z hs lt hx hz in
    elim (Nat-cases (x / 2 ^ (32 - s))) [
      | inl none_ ↦
          let last : (x / 2 ^ (32 - s) == 0) ≡ true = ground arith in
          let all : x % 2 ^ (32 - s) ≡ x =
            omega (arith, div_any x (2 ^ (32 - s)), ap (λ (t : ℕ). 2 ^ (32 - s) * t) none_) in
          let moved : 1 * 2 ^ s ≤ x % 2 ^ (32 - s) * 2 ^ s =
            mul-le-mul_right (2 ^ s) (omega arith) in
          rw (w, last) (let p = pow_pos s in omega arith)
      | inr some_ ↦ let more : (x / 2 ^ (32 - s) == 0) ≡ false = ground arith in rw more some_
    ]
words-Top (x ∷ (v ∷ vs)) s z hs lt (hx, b) hz t =
    let (w, fits, high) = shifted_word s x z hs lt hx hz in
    words-Top (v ∷ vs) s (x / 2 ^ (32 - s)) hs lt b high t

pub span-pow : (n : ℕ) → span n ≡ 2 ^ (32 * n)
unfolding span
span-pow zero = refl
span-pow (suc n) =
    let e : 32 * suc n ≡ 32 + 32 * n = omega arith in
    rw (e, pow_add 2 32 (32 * n)) (omega (arith, span-pow n))

-- Whole words and the bits that are left.
pub shift_pow : (k : ℕ) → span (k / 32) * 2 ^ (k % 32) ≡ 2 ^ k
shift_pow k =
    let e : k ≡ 32 * (k / 32) + k % 32 = omega arith in
    rw (span-pow (k / 32)) (sym (pow_add 2 (32 * (k / 32)) (k % 32)) ∙ ap (λ n. 2 ^ n) (sym e))

zeros_append-value : (n : ℕ) (ws : List ℕ) → value (zeros n ++ ws) ≡ span n * value ws
unfolding zeros value span
zeros_append-value zero ws = omega arith
zeros_append-value (suc n) ws = omega (arith, zeros_append-value n ws)

zeros_append-Top : (n : ℕ) (ws : List ℕ) → Top ws → Top (zeros n ++ ws)
unfolding zeros
zeros_append-Top zero ws t = t
zeros_append-Top (suc n) ws t = Top-cons 0 (zeros n ++ ws) (zeros_append-Top n ws t)

mask_5 : (k : ℕ) → bit_and k 0x1f ≡ k % 32
mask_5 k = bit_and_mask 5 k

-- What is stored behind the zeros.
abbrev moved : List ℕ → ℕ → List ℕ
moved xs s = if s == 0 then xs else lshift_words xs s 0

moved-Top :
    (xs : List ℕ) (s : ℕ)
    → s < 32
    → Below xs
    → Top xs
    → (value (moved xs s) ≡ value xs * 2 ^ s)
      × Below (moved xs s)
      × (length (moved xs s) ≤ length xs + 1)
      × Top (moved xs s)
moved-Top xs s lt b t = elim (Nat-cases s) [
  | inl none_ ↦
      let e : (s == 0) ≡ true = ground arith in
      rw e (omega (arith, ap (λ (t : ℕ). value xs * 2 ^ t) none_), b, omega arith, t)
  | inr some_ ↦
      let e : (s == 0) ≡ false = ground arith in
      let (v, bs, l) = words-value xs s 0 some_ lt b (pow_pos s) in
      rw e (omega arith, bs, l, words-Top xs s 0 some_ lt b (pow_pos s) t)
]

-- `lshift` of a number that is not 0 multiplies it by 2 ^ k, for every `k`: with fuel for the words
-- that it needs the block is found, the number is well formed and fits it.
pub lshift-IsValid :
    (fuel : ℕ) (b : Bigint) (k : ℕ)
    → IsValid b
    → 0 < value b.x
    → k / 32 + length b.x + 1 < fuel
    → (d : Bigint) × (lshift fuel b k ≡ some d) × IsValid d × (value d.x ≡ value b.x * 2 ^ k)
unfolding lshift balloc
lshift-IsValid fuel b k v positive enough =
    let n = k / 32 in
    let (k1, found, room) =
      size_for_enough fuel (n + length b.x + 1) b.maxwds b.k v.space (omega arith) (omega arith) in
    let (val, bs, l, t) =
      moved-Top b.x (k % 32) (omega arith) v.below (Trimmed-Top b.x v.trimmed positive) in
    rw (mask_5 k, found)
      (
        balloc k1 (zeros n ++ moved b.x (k % 32)),
        refl,
        record {
          space = refl;
          fits = omega (arith, length-append (zeros n) (moved b.x (k % 32)), zeros-length n);
          below = append-Below (zeros n) (moved b.x (k % 32)) (zeros-Below n) bs;
          trimmed =
              Top-Trimmed (zeros n ++ moved b.x (k % 32))
                (zeros_append-Top n (moved b.x (k % 32)) t);
        },
        omega (
          arith,
          zeros_append-value n (moved b.x (k % 32)),
          ap (λ (t : ℕ). span n * t) val,
          ap (λ (t : ℕ). value b.x * t) (shift_pow k),
        ),
      )
