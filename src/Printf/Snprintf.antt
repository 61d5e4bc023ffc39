-- ===== src/Printf/Snprintf.antt =====
-- What nolibc/vsnprintf.c leaves in the destination.
use mathlib.Core.Path.{fun_ext}
use ocaml_solo.Prelude.{
  ℕ, zero, suc, ◌+◌, ◌-◌, ◌≤◌, ◌<◌, ◌≡◌, ◌⊎◌, refl, ap, ◌∙◌, Bool-cases, false, inl, inr, ◌==◌, ltb,
  if◌then◌else◌, Option, none, some, List, [], ◌∷◌, ◌++◌, arith,
}
use ocaml_solo.Prelude.Lists.{length}
use ocaml_solo.Memory.{Memory, write}
use ocaml_solo.Format.Pad.{prefix}
use ocaml_solo.Printf.Directive.{int_max}
use ocaml_solo.Printf.Buffer.{put_bytes, put_bytes-append, prefix-all, sn_write, terminate}

write_twice : (m : Memory) (a b c : ℕ) → write (write m a b) a c ≡ write m a c
unfolding write
write_twice m a b c = fun_ext λ q. ground arith

-- The NUL over the last of the characters that fit.
last_lem :
    (m : Memory) (a n : ℕ) (t : List ℕ)
    → n < length t
    → write (put_bytes m a (prefix (suc n) t)) (a + n) 0 ≡ put_bytes m a (prefix n t ++ 0 ∷ [])
unfolding put_bytes prefix
last_lem m a n [] h = absurd (omega arith)
last_lem m a zero (b ∷ t) h = let e : a + 0 ≡ a = omega arith in rw e (write_twice m a b 0)
last_lem m a (suc n) (b ∷ t) h =
    ap (λ x. write (put_bytes (write m a b) (a + 1) (prefix (suc n) t)) x 0) (omega arith)
    ∙ last_lem (write m a b) (a + 1) n t (omega arith)

prefix-short : (n : ℕ) (t : List ℕ) → length t ≤ n → prefix n t ≡ t
unfolding prefix
prefix-short zero [] h = refl
prefix-short zero (b ∷ t) h = absurd (omega arith)
prefix-short (suc n) [] h = refl
prefix-short (suc n) (b ∷ t) h = ap (λ s. b ∷ s) (prefix-short n t (omega arith))

-- The NUL behind the characters, when they all fit.
whole_lem :
    (m : Memory) (a n : ℕ) (t : List ℕ)
    → length t ≤ n
    → write (put_bytes m a (prefix (length t) t)) (a + length t) 0
      ≡ put_bytes m a (prefix n t ++ 0 ∷ [])
unfolding put_bytes
whole_lem m a n t h = rw (prefix-all t, prefix-short n t h) (put_bytes-append m a t (0 ∷ []))

-- The destination of `n` bytes at `s` behind `text`: as many of its characters as fit, and a NUL.
pub terminate-sn_write :
    (s n : ℕ) (d : Memory) (text : List ℕ)
    → terminate (suc n) (sn_write text (record { wpos = s; wend = s + suc n; dest = d }))
      ≡ put_bytes d s (prefix n text ++ 0 ∷ [])
unfolding terminate sn_write
terminate-sn_write s n d text =
    let e : s + suc n - s ≡ suc n = omega arith in
    let some_ : (suc n == 0) ≡ false = ground arith in
    elim (Bool-cases (ltb (length text) (suc n))) [
      | inl fits ↦
          let e1 : s + length text - (if s + length text == s + suc n then 1 else 0)
              ≡ s + length text =
            ground arith in
          rw (some_, e, fits, e1) (whole_lem d s n text (ground arith))
      | inr full ↦
          let e1 : s + suc n - (if s + suc n == s + suc n then 1 else 0) ≡ s + n = ground arith in
          rw (some_, e, full, e1) (last_lem d s n text (ground arith))
    ]

-- What a call of `vsnprintf` has left: the characters of the result, of which as many stand in the `n`
-- bytes at `s` as fit before a NUL, and nothing else of the destination changed.
pub record Terminated (s n : ℕ) (d : Memory) (a : Option ℕ × Memory × Memory × ℕ) : Type 0 where
  pub text : List ℕ
  pub fits : length (prefix (n - 1) text ++ 0 ∷ []) ≤ n
  pub string : a.2 ≡ put_bytes d s (prefix (n - 1) text ++ 0 ∷ [])
  pub count : (a.0 ≡ none) ⊎ ((a.0 ≡ some (length text)) × (length text ≤ int_max))
