-- ===== src/Printf/Buffer.antt =====
-- nolibc/vsnprintf.c. The destination is restrict, so it is a memory of its own.
use ocaml_solo.Prelude.{
  ℕ, zero, suc, ◌+◌, ◌-◌, ◌%◌, ◌^◌, ◌≤◌, ◌≡◌, refl, ap, ap₂, sym, ◌∙◌, Bool-cases, inl, inr, not,
  ◌==◌, ltb, if◌then◌else◌, Option, none, List, [], ◌∷◌, ◌++◌, arith,
}
use ocaml_solo.Prelude.Lists.{length, length-append}
use ocaml_solo.Memory.{Memory, write}
use ocaml_solo.Format.Pad.{prefix, Stream}
use ocaml_solo.Printf.Outcome.{Outcome, done, ◌>>=◌}
use ocaml_solo.Printf.Directive.{int_max}
use ocaml_solo.Printf.Core.{eoverflow, vfprintf}

-- The characters of `s` at `a`.
unfoldable pub put_bytes : Memory → ℕ → List ℕ → Memory
put_bytes m a [] = m
put_bytes m a (b ∷ s) = put_bytes (write m a b) (a + 1) s

-- The FILE of `vsnprintf`, with the destination that it points into.
pub record Buffer : Type 0 where
  pub wpos : ℕ
  pub wend : ℕ
  pub dest : Memory

-- The copy of `memcpy` into the destination, of as many characters as fit; the return value, always
-- `l`, is not used by the callers.
unfoldable pub sn_write : List ℕ → Buffer → Buffer
unfolding put_bytes prefix
sn_write s f =
    let k = f.wend - f.wpos in
    let n = if ltb (length s) k then length s else k in
    record f { wpos = f.wpos + n; dest = put_bytes f.dest f.wpos (prefix n s) }

-- Behind `vfprintf`: the NUL, over the last character if the destination is full.
unfoldable pub terminate : ℕ → Buffer → Memory
terminate n f =
    if n == 0 then f.dest else write f.dest (f.wpos - (if f.wpos == f.wend then 1 else 0)) 0

-- `n` after the test that keeps `s + n` below 2 ^ 64.
abbrev pub clamped : ℕ → ℕ → ℕ
clamped s n = let room = (2 ^ 64 - 1 + 2 ^ 64 - s - 1) % 2 ^ 64 in if ltb room n then room else n

-- `vsnprintf` from `s` and `n` on as they are after the first test: the result, the memory of the
-- arguments and the destination, and errno.
unfoldable pub print_into :
    ℕ
    → Memory
    → ℕ
    → List ℕ
    → (ℕ → ℕ)
    → Memory
    → ℕ
    → ℕ
    → ℕ
    → Memory
    → Outcome (Option ℕ × Memory × Memory × ℕ)
unfolding sn_write terminate vfprintf
print_into fuel fmt at ap nl_arg m errno s n dest =
    let n = clamped s n in
    let f : Buffer = record { wpos = s; wend = s + n; dest = dest } in
    vfprintf sn_write fuel fmt at ap nl_arg m errno f >>= λ r. done (r.0, r.2, terminate n r.1, r.3)

-- `b` is the address of the local variable that stands in for a destination of no bytes.
unfoldable pub vsnprintf :
    ℕ
    → ℕ
    → Memory
    → ℕ
    → List ℕ
    → (ℕ → ℕ)
    → Memory
    → ℕ
    → ℕ
    → ℕ
    → Memory
    → Outcome (Option ℕ × Memory × Memory × ℕ)
unfolding print_into
vsnprintf b fuel fmt at ap nl_arg m errno s n dest =
    if ltb (int_max - 1) ((n + 2 ^ 64 - 1) % 2 ^ 64)
    then if not (n == 0)
      then done (none, m, dest, eoverflow)
      else print_into fuel fmt at ap nl_arg m errno b 1 dest
    else print_into fuel fmt at ap nl_arg m errno s n dest

pub put_bytes-append :
    (m : Memory) (a : ℕ) (s t : List ℕ)
    → put_bytes (put_bytes m a s) (a + length s) t ≡ put_bytes m a (s ++ t)
unfolding put_bytes
put_bytes-append m a [] t = ap (λ x. put_bytes m x t) (omega arith)
put_bytes-append m a (b ∷ s) t =
    ap (λ x. put_bytes (put_bytes (write m a b) (a + 1) s) x t) (omega arith)
    ∙ put_bytes-append (write m a b) (a + 1) s t

prefix-whole : (s t : List ℕ) (n : ℕ) → prefix (length s + n) (s ++ t) ≡ s ++ prefix n t
unfolding prefix
prefix-whole [] t n = ap (λ k. prefix k t) (omega arith)
prefix-whole (b ∷ s) t n =
    let e : suc (length s) + n ≡ suc (length s + n) = omega arith in
    rw e (ap (λ s. b ∷ s) (prefix-whole s t n))

pub prefix-all : (s : List ℕ) → prefix (length s) s ≡ s
unfolding prefix
prefix-all [] = refl
prefix-all (b ∷ s) = ap (λ s. b ∷ s) (prefix-all s)

prefix-part : (s t : List ℕ) (n : ℕ) → n ≤ length s → prefix n (s ++ t) ≡ prefix n s
unfolding prefix
prefix-part s t zero h = refl
prefix-part [] t (suc n) h = absurd (omega arith)
prefix-part (b ∷ s) t (suc n) h = ap (λ s. b ∷ s) (prefix-part s t n (omega arith))

prefix-nil : (n : ℕ) → prefix n [] ≡ []
unfolding prefix
prefix-nil zero = refl
prefix-nil (suc n) = refl

-- The state after a copy of `n` characters.
copied : ℕ → List ℕ → Buffer → Buffer
copied n s f = record f { wpos = f.wpos + n; dest = put_bytes f.dest f.wpos (prefix n s) }

room : List ℕ → Buffer → ℕ
room s f = if ltb (length s) (f.wend - f.wpos) then length s else f.wend - f.wpos

copied_eq :
    (f : Buffer) (p p' : ℕ) (d d' : Memory)
    → p ≡ p'
    → d ≡ d'
    → ◌≡◌ {A = Buffer}
        (record { wpos = p; wend = f.wend; dest = d })
        (record { wpos = p'; wend = f.wend; dest = d' })
copied_eq f p p' d d' e e' =
    ap₂ (λ (p : ℕ) (d : Memory). record { wpos = p; wend = f.wend; dest = d }) e e'

copied-copied :
    (s t : List ℕ) (f : Buffer) (n : ℕ)
    → copied n t (copied (length s) s f) ≡ copied (length s + n) (s ++ t) f
unfolding copied
copied-copied s t f n =
    copied_eq f (f.wpos + length s + n) (f.wpos + (length s + n))
      (put_bytes (put_bytes f.dest f.wpos (prefix (length s) s)) (f.wpos + length s) (prefix n t))
      (put_bytes f.dest f.wpos (prefix (length s + n) (s ++ t))) (omega arith)
      (ap (λ x. put_bytes (put_bytes f.dest f.wpos x) (f.wpos + length s) (prefix n t))
          (prefix-all s)
        ∙ put_bytes-append f.dest f.wpos s (prefix n t)
        ∙ ap (put_bytes f.dest f.wpos) (sym (prefix-whole s t n)))

copied_full :
    (s t : List ℕ) (f : Buffer) (n : ℕ)
    → n ≤ length s
    → copied 0 t (copied n s f) ≡ copied n (s ++ t) f
unfolding copied prefix put_bytes
copied_full s t f n h =
    copied_eq f (f.wpos + n + 0) (f.wpos + n) (put_bytes f.dest f.wpos (prefix n s))
      (put_bytes f.dest f.wpos (prefix n (s ++ t))) (omega arith)
      (ap (put_bytes f.dest f.wpos) (sym (prefix-part s t n h)))

join_lem : (s t : List ℕ) (f : Buffer) → sn_write t (sn_write s f) ≡ sn_write (s ++ t) f
unfolding sn_write
join_lem s t f =
    let k = f.wend - f.wpos in
    let l = length-append s t in
    elim (Bool-cases (ltb (length s) k)) [
      | inl fits ↦
          let k' = f.wend - (f.wpos + length s) in
          let n = if ltb (length t) k' then length t else k' in
          let all : (if ltb (length (s ++ t)) k then length (s ++ t) else k) ≡ length s + n =
            ground arith in
          unfold copied in rw (fits, all) (copied-copied s t f n)
      | inr full ↦
          let k' = f.wend - (f.wpos + k) in
          let none_ : (if ltb (length t) k' then length t else k') ≡ 0 = ground arith in
          let all : (if ltb (length (s ++ t)) k then length (s ++ t) else k) ≡ k = ground arith in
          unfold copied in rw (full, none_, all) (copied_full s t f k (ground arith))
    ]

empty_lem : (f : Buffer) → sn_write [] f ≡ f
unfolding sn_write put_bytes
empty_lem f =
    let none_ : (if ltb 0 (f.wend - f.wpos) then 0 else f.wend - f.wpos) ≡ 0 = ground arith in
    rw none_ (
      copied_eq f (f.wpos + 0) f.wpos (put_bytes f.dest f.wpos (prefix 0 [])) f.dest (omega arith)
        (ap (put_bytes f.dest f.wpos) (prefix-nil 0)))

-- The destination takes the same characters, however they are split.
pub sn_write-Stream : Stream sn_write
sn_write-Stream = record { empty = empty_lem; join = join_lem }
