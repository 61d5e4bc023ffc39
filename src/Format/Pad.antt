-- ===== src/Format/Pad.antt =====
-- `pad` of nolibc/vfprintf.c. A FILE is its `write` function, over a state of the file's own.
use mathlib.Core.List.{append_assoc}
use ocaml_solo.Prelude.{
  ℕ, zero, suc, ◌+◌, ◌-◌, ◌*◌, ◌^◌, ◌≤◌, ◌<◌, ◌≡◌, inl, inr, Bool-cases, refl, ap, sym, ◌∙◌, not,
  ◌||◌, Option, none, some, List, [], ◌∷◌, ◌++◌, leb, ltb, ◌==◌, if◌then◌else◌, bit_and, arith,
}

-- The flags '-' and '0'.
abbrev pub left_adj : ℕ
left_adj = 2 ^ 13

abbrev pub zero_pad : ℕ
zero_pad = 2 ^ 16

-- What `memset` puts into the buffer.
unfoldable pub repeat : ℕ → ℕ → List ℕ
repeat zero c = []
repeat (suc n) c = c ∷ repeat n c

unfoldable pub prefix : ℕ → List ℕ → List ℕ
prefix zero s = []
prefix (suc n) [] = []
prefix (suc n) (b ∷ s) = b ∷ prefix n s

-- The loop over whole buffers, with what is left and the file.
unfoldable pub pad_blocks : {F : Type 0} → ℕ → (List ℕ → F → F) → List ℕ → ℕ → F → Option (ℕ × F)
pad_blocks zero write buffer l f = none
pad_blocks (suc fuel) write buffer l f =
    let rest = pad_blocks fuel write buffer (l - 256) (write (prefix 256 buffer) f) in
    if leb 256 l then rest else some (l, f)

unfoldable pub pad : {F : Type 0} → ℕ → (List ℕ → F → F) → ℕ → ℕ → ℕ → ℕ → F → Option F
pad fuel write c w l fl f =
    let buffer = repeat (if ltb 256 (w - l) then 256 else w - l) c in
    if not (bit_and fl (left_adj + zero_pad) == 0) || leb w l
    then some f
    else elim (pad_blocks fuel write buffer (w - l) f) [
      | none ↦ none
      | some (left, f') ↦ some (write (prefix left buffer) f')
    ]

-- A file that keeps what it is given.
abbrev pub append : List ℕ → List ℕ → List ℕ
append s f = f ++ s

prefix-repeat : (k n c : ℕ) → k ≤ n → prefix k (repeat n c) ≡ repeat k c
unfolding prefix repeat
prefix-repeat zero n c h = refl
prefix-repeat (suc k) zero c h = absurd (omega arith)
prefix-repeat (suc k) (suc n) c h = ap (λ s. c ∷ s) (prefix-repeat k n c (omega arith))

repeat_add : (a b c : ℕ) → repeat a c ++ repeat b c ≡ repeat (a + b) c
unfolding repeat
repeat_add zero b c = ap (λ n. repeat n c) (omega arith)
repeat_add (suc a) b c =
    ap (λ s. c ∷ s) (repeat_add a b c) ∙ ap (λ n. repeat n c) {x = suc (a + b)} (omega arith)

-- A file for which only the characters count, not how they are split into calls of `write`.
pub record Stream {F : Type 0} (write : List ℕ → F → F) : Type 0 where
  pub empty : (f : F) → write [] f ≡ f
  pub join : (s t : List ℕ) (f : F) → write t (write s f) ≡ write (s ++ t) f

append_empty : (f : List ℕ) → f ++ [] ≡ f
append_empty [] = refl
append_empty (b ∷ f) = ap (λ s. b ∷ s) (append_empty f)

pub append-Stream : Stream append
append-Stream = record { empty = append_empty; join = λ s t f. append_assoc f s t }

module _ {F : Type 0} (write : List ℕ → F → F) (stream : Stream write) where
  one_block :
      (c l : ℕ) (f : F)
      → 256 ≤ l
      → write (repeat (l - 256) c) (write (prefix 256 (repeat 256 c)) f) ≡ write (repeat l c) f
  one_block c l f h =
      stream.join (prefix 256 (repeat 256 c)) (repeat (l - 256) c) f
      ∙ ap (λ s. write (s ++ repeat (l - 256) c) f) (prefix-repeat 256 256 c (omega arith))
      ∙ ap (λ s. write s f) (repeat_add 256 (l - 256) c)
      ∙ ap (λ n. write (repeat n c) f) (omega arith)

  -- From a full buffer, the loop and the write behind it put out all `l` characters.
  blocks_all :
      (fuel c l : ℕ) (f : F)
      → l < 256 * fuel
      → (left : ℕ) × (f' : F) × (pad_blocks fuel write (repeat 256 c) l f ≡ some (left, f'))
        × (write (prefix left (repeat 256 c)) f' ≡ write (repeat l c) f)
  unfolding pad_blocks
  blocks_all zero c l f enough = absurd (omega arith)
  blocks_all (suc fuel) c l f enough = elim (Bool-cases (leb 256 l)) [
    | inl more ↦
        let small : 256 ≤ l = ground arith in
        let (left, f', ends, all) =
          blocks_all fuel c (l - 256) (write (prefix 256 (repeat 256 c)) f) (omega arith) in
        (left, f', rw more ends, all ∙ one_block c l f small)
    | inr done ↦
        let small : l < 256 = ground arith in
        (l, f, rw done refl, ap (λ s. write s f) (prefix-repeat l 256 c (omega arith)))
  ]

  -- The buffer holds what the loop takes from it, also where the field lacks less than a buffer.
  blocks_any :
      (fuel c l : ℕ) (f : F)
      → l < 256 * fuel
      → let buffer = repeat (if ltb 256 l then 256 else l) c in
        (left : ℕ) × (f' : F) × (pad_blocks fuel write buffer l f ≡ some (left, f'))
        × (write (prefix left buffer) f' ≡ write (repeat l c) f)
  unfolding pad_blocks
  blocks_any zero c l f enough = absurd (omega arith)
  blocks_any (suc fuel) c l f enough = elim (Bool-cases (leb 256 l)) [
    | inl more ↦
        let full : (if ltb 256 l then 256 else l) ≡ 256 = ground arith in
        rw full (blocks_all (suc fuel) c l f enough)
    | inr done ↦
        let short : (if ltb 256 l then 256 else l) ≡ l = ground arith in
        rw short (l, f, rw done refl, ap (λ s. write s f) (prefix-repeat l l c (omega arith)))
  ]

  -- With fuel above the whole buffers in `w - l`, `pad` puts out nothing if a flag asks for other
  -- padding, and else exactly as many characters `c` as the field lacks.
  pub pad_lem :
      (fuel c w l fl : ℕ) (f : F)
      → w - l < 256 * fuel
      → pad fuel write c w l fl f
        ≡ some (write (if bit_and fl (left_adj + zero_pad) == 0 then repeat (w - l) c else []) f)
  unfolding pad repeat
  pad_lem fuel c w l fl f enough = elim (Bool-cases (bit_and fl (left_adj + zero_pad) == 0)) [
    | inr other ↦ rw other (ap some (sym (stream.empty f)))
    | inl plain ↦ elim (Bool-cases (leb w l)) [
      | inl full ↦
          let none_ : w - l ≡ 0 = ground arith in
          rw (plain, full, none_) (ap some (sym (stream.empty f)))
      | inr short ↦
          let (left, f', ends, all) = blocks_any fuel c (w - l) f enough in
          rw (plain, short, ends) (ap some all)
    ]
  ]
