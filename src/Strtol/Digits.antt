-- ===== src/Strtol/Digits.antt =====
-- The loop of `strtol` over a numeral: its value, or the extreme `long` with ERANGE.
use native.Mathlib.Nat.{mul-le-mul_left}
use ocaml_solo.Prelude.{
  ℕ, zero, suc, ◌+◌, ◌*◌, ◌≤◌, ◌<◌, ◌≡◌, inl, inr, refl, ap, sym, ◌∙◌, Bool, true, false, Option,
  none, some, leb, if◌then◌else◌, arith,
}
use ocaml_solo.Prelude.Int.{ℤ, pos, negsuc}
use ocaml_solo.Memory.{Memory}
use ocaml_solo.Strtol.{less, accepted, cutoffs, digit, Read, accumulate, read_digits}
use ocaml_solo.System.{erange}
use ocaml_solo.Strtol.Cutoff.{signed, limit, accumulate_lem}

abbrev pub worth : Option ℕ → ℕ
worth none = 0
worth (some d) = d

-- `v` with `count` more digits, from the address `a` on.
unfoldable pub value : Memory → ℕ → ℕ → ℕ → ℕ → ℕ
value m base a zero v = v
value m base a (suc count) v = value m base (a + 1) count (v * base + worth (digit (m a)))

abbrev pub EndsAt : ℕ → Option ℕ → Type 0
EndsAt base none = Unit {0}
EndsAt base (some d) = base ≤ d

-- `count` digits of the base from `a` on, and then a character that is none.
abbrev pub IsNumeral : Memory → ℕ → ℕ → ℕ → Type 0
IsNumeral m base a zero = EndsAt base (digit (m a))
IsNumeral m base a (suc count) =
    (d : ℕ) × (digit (m a) ≡ some d) × (d < base) × IsNumeral m base (a + 1) count

-- The variables after a numeral of magnitude `n`.
unfoldable pub clamped : Bool → ℕ → ℤ → ℕ → Read
clamped neg n any errno =
    if leb n (limit neg)
    then record { acc = signed neg n; any = any; errno = errno }
    else record { acc = signed neg (limit neg); any = negsuc 0; errno = erange }

value-le : (m : Memory) (base a count v : ℕ) → 0 < base → v ≤ value m base a count v
unfolding value
value-le m base a zero v h = omega arith
value-le m base a (suc count) v h =
    let rest = value-le m base (a + 1) count (v * base + worth (digit (m a))) h in
    let grows = mul-le-mul_left {m = 1} {n = base} v h in omega arith

accepted-EndsAt : (base : ℕ) (o : Option ℕ) → EndsAt base o → accepted base o ≡ none
unfolding accepted
accepted-EndsAt base none ends = refl
accepted-EndsAt base (some d) ends = ground arith

accepted_digit : (base d : ℕ) → d < base → accepted base (some d) ≡ some d
unfolding accepted
accepted_digit base d small = ground arith

read_digits-EndsAt :
    (fuel : ℕ) (m : Memory) (neg : Bool) (base c s : ℕ) (r : Read)
    → EndsAt base (digit c)
    → read_digits (suc fuel) m neg base c s r ≡ some (s, r)
unfolding read_digits
read_digits-EndsAt fuel m neg base c s r ends =
    rw (accepted-EndsAt base (digit c) ends, read_digits) refl

read_digits_next :
    (fuel : ℕ) (m : Memory) (neg : Bool) (base c s d : ℕ) (r : Read)
    → digit c ≡ some d
    → d < base
    → read_digits (suc fuel) m neg base c s r
      ≡ read_digits fuel m neg base (m s) (s + 1) (accumulate neg (cutoffs neg base) base d r)
unfolding read_digits
read_digits_next fuel m neg base c s d r e small =
    rw (e, accepted_digit base d small, read_digits) refl

abbrev reached : ℕ → Read → Option (ℕ × Read)
reached a r = some (a, r)

end_at : {a b : ℕ} (r : Read) → a ≡ b → reached a r ≡ reached b r
end_at r e = ap (λ a. reached a r) e

-- After an overflow the digits that are left are passed over.
accumulate_over :
    (neg : Bool) (base d : ℕ) (cut : ℤ × ℤ) (acc : ℤ) (errno : ℕ)
    → accumulate neg cut base d (record { acc = acc; any = negsuc 0; errno = errno })
      ≡ record { acc = acc; any = negsuc 0; errno = errno }
unfolding accumulate less
accumulate_over neg base d cut acc errno = refl

over-IsNumeral :
    (count fuel : ℕ) (m : Memory) (neg : Bool) (base a errno : ℕ) (acc : ℤ)
    → count < fuel
    → IsNumeral m base a count
    → read_digits fuel m neg base
        (m a)
        (a + 1)
        (record { acc = acc; any = negsuc 0; errno = errno })
      ≡ some (a + count + 1, record { acc = acc; any = negsuc 0; errno = errno })
over-IsNumeral count zero m neg base a errno acc enough num = absurd (omega arith)
over-IsNumeral zero (suc fuel) m neg base a errno acc enough num =
    let r : Read = record { acc = acc; any = negsuc 0; errno = errno } in
    read_digits-EndsAt fuel m neg base (m a) (a + 1) r num ∙ end_at r (omega arith)
over-IsNumeral (suc count) (suc fuel) m neg base a errno acc enough (d, e, small, rest) =
    let r : Read = record { acc = acc; any = negsuc 0; errno = errno } in
    read_digits_next fuel m neg base (m a) (a + 1) d r e small
    ∙ ap (read_digits fuel m neg base (m (a + 1)) (a + 1 + 1))
        (accumulate_over neg base d (cutoffs neg base) acc errno)
    ∙ over-IsNumeral count fuel m neg base (a + 1) errno acc (omega arith) rest
    ∙ end_at r (omega arith)

-- What `any` is behind `count` digits that fit.
abbrev pub seen : ℕ → ℕ → ℤ
seen any zero = pos any
seen any (suc count) = pos 1

seen_again : (count : ℕ) → seen 1 count ≡ pos 1
seen_again zero = refl
seen_again (suc count) = refl

clamped_fits :
    (neg : Bool) (n errno : ℕ) (any : ℤ)
    → n ≤ limit neg
    → clamped neg n any errno ≡ record { acc = signed neg n; any = any; errno = errno }
unfolding clamped
clamped_fits neg n errno any fits =
    let yes_ : leb n (limit neg) ≡ true = ground arith in rw yes_ refl

clamped_over :
    (neg : Bool) (n errno : ℕ) (any : ℤ)
    → limit neg < n
    → clamped neg n any errno
      ≡ record { acc = signed neg (limit neg); any = negsuc 0; errno = erange }
unfolding clamped
clamped_over neg n errno any over =
    let no_ : leb n (limit neg) ≡ false = ground arith in rw no_ refl

-- From a magnitude `v` that fits, the loop reads the whole numeral with fuel above its digits, and
-- ends one behind the character that ends it, with the value of all digits, or, where that does not
-- fit a `long` of this sign, with the extreme one, `any` -1 and ERANGE.
pub read_digits-IsNumeral :
    (count fuel : ℕ) (m : Memory) (neg : Bool) (base a v any errno : ℕ)
    → count < fuel
    → IsNumeral m base a count
    → v ≤ limit neg
    → read_digits fuel m neg base
        (m a)
        (a + 1)
        (record { acc = signed neg v; any = pos any; errno = errno })
      ≡ some (a + count + 1, clamped neg (value m base a count v) (seen any count) errno)
unfolding value
read_digits-IsNumeral count zero m neg base a v any errno enough num fits = absurd (omega arith)
read_digits-IsNumeral zero (suc fuel) m neg base a v any errno enough num fits =
    let r : Read = record { acc = signed neg v; any = pos any; errno = errno } in
    read_digits-EndsAt fuel m neg base (m a) (a + 1) r num
    ∙ end_at r (omega arith)
    ∙ ap (reached (a + 0 + 1)) (sym (clamped_fits neg v errno (pos any) fits))
read_digits-IsNumeral (suc count) (suc fuel) m neg base a v any errno enough (d, e, small, rest)
      fits =
    let r : Read = record { acc = signed neg v; any = pos any; errno = errno } in
    let go = read_digits fuel m neg base (m (a + 1)) (a + 1 + 1) in
    read_digits_next fuel m neg base (m a) (a + 1) d r e small
    ∙ elim (accumulate_lem neg base v d errno any small) [
      | inl (fits', new) ↦
          rw (new, e)
            (read_digits-IsNumeral count fuel m neg base (a + 1) (v * base + d) 1 errno
                (omega arith) rest fits'
              ∙ end_at _ (omega arith)
              ∙ ap
                  (λ z.
                    reached (a + suc count + 1)
                      (clamped neg (value m base (a + 1) count (v * base + d)) z errno))
                  (seen_again count))
      | inr (over, new) ↦
          let more = value-le m base (a + 1) count (v * base + d) (omega arith) in
          rw (new, e)
            (over-IsNumeral count fuel m neg base (a + 1) erange (signed neg (limit neg))
                (omega arith) rest
              ∙ end_at _ (omega arith)
              ∙ ap (reached (a + suc count + 1)) (
                  sym (
                    clamped_over neg (value m base (a + 1) count (v * base + d)) errno (pos 1)
                      (omega arith))))
    ]
