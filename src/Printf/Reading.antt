-- ===== src/Printf/Reading.antt =====
-- Reading a directive does not pass the end of the format, and ends.
use ocaml_solo.Prelude.{
  ℕ, ◌+◌, ◌-◌, ◌*◌, ◌^◌, ◌≤◌, ◌<◌, ◌≡◌, ◌≢◌, refl, ap, ◌∙◌, Bool, Bool-cases, true, false, inl, inr,
  not, ◌&&◌, ◌==◌, ltb, if◌then◌else◌, Option, none, some, bit_or, List, [], ◌∷◌, while,
  while_total, arith,
}
use ocaml_solo.Prelude.Int.{ℤ, pos, negsuc}
use ocaml_solo.Ctype.{isdigit}
use ocaml_solo.Printf.Outcome.{
  Ensures, holds, fails, leaves, open_, Ensures-if, Ensures-bind, Ensures-weaken,
}
use ocaml_solo.Printf.Table.{maxstate, noarg, specifier-Ensures}
use ocaml_solo.Printf.Argument.{pop_arg, pop_int, converted, is_popped}
use ocaml_solo.Printf.Directive.{
  Reader, Directive, is_flag, read_flags, getint, positional, starred, signed_width, read_width,
  read_precision, read_arg, read_directive, int_max,
}

digit_nonzero : (c : ℕ) → isdigit c ≡ true → c ≢ 0
unfolding isdigit
digit_nonzero c h z = ground arith

flag_nonzero : (c : ℕ) → is_flag c ≡ true → c ≢ 0
flag_nonzero c h z = ground arith

pub converted-lt : (type v : ℕ) → converted type v < 2 ^ 64
unfolding converted
converted-lt type v = ground arith

pub pop_arg-Ensures :
    (f : Bool) (arg st : ℕ) (ap_ : List ℕ)
    → Ensures f (λ (a : ℕ × List ℕ). (arg < 2 ^ 64 → a.0 < 2 ^ 64)) (pop_arg arg st ap_)
unfolding pop_arg
pop_arg-Ensures f arg st [] =
    Ensures-if (ltb maxstate st) (λ h. holds (λ lt. lt))
      λ h. Ensures-if (is_popped st) (λ h. open_) (λ h. holds (λ lt. lt))
pop_arg-Ensures f arg st (v ∷ ap_) =
    Ensures-if (ltb maxstate st) (λ h. holds (λ lt. lt))
      λ h. Ensures-if (is_popped st) (λ h. holds (λ lt. converted-lt st v)) (λ h. holds (λ lt. lt))

module _ (fmt : ℕ → ℕ) (last : ℕ) (ends : fmt last ≡ 0) where
  pub within : (s : ℕ) → s ≤ last → fmt s ≢ 0 → s + 1 ≤ last
  within s le more = elim (Bool-cases (s == last)) [
    | inl at ↦ let e : s ≡ last = ground arith in absurd (more (ap fmt e ∙ ends))
    | inr before ↦ ground arith
  ]

  -- A loop over characters that are not the NUL.
  pub scan_pairs :
      (test : ℕ → Bool) (body : ℕ × ℕ → ℕ) (s fuel : ℕ)
      → ((c : ℕ) → test c ≡ true → c ≢ 0)
      → s ≤ last
      → last < s + fuel
      → (r : ℕ × ℕ) × (while fuel
            (λ (r : ℕ × ℕ). test (fmt r.1))
            (λ (r : ℕ × ℕ). (body r, r.1 + 1))
            (0, s)
          ≡ some r)
        × (s ≤ r.1)
        × (r.1 ≤ last)
  scan_pairs test body s fuel stops le enough =
      let (r, e, inv, done_) =
        while_total (λ (r : ℕ × ℕ). test (fmt r.1)) (λ (r : ℕ × ℕ). (body r, r.1 + 1))
          (λ (r : ℕ × ℕ). (s ≤ r.1) × (r.1 ≤ last)) (λ (r : ℕ × ℕ). last - r.1)
          (λ r more inv.
            let next = within r.1 inv.1 (stops (fmt r.1) more) in
            (omega arith, (omega arith, omega arith)))
          fuel (0, s) (omega arith, le) (omega arith) in
      (r, e, inv.0, inv.1)

  abbrev Between : ℕ → ℕ × ℕ → Type 0
  Between s r = (s ≤ r.1) × (r.1 ≤ last)

  read_flags-Ensures :
      (f : Bool) (fuel s : ℕ)
      → s ≤ last
      → last < s + fuel
      → Ensures f (Between s) (read_flags fuel fmt s)
  unfolding read_flags
  read_flags-Ensures f fuel s le enough =
      let (r, e, lo, hi) =
        scan_pairs is_flag (λ (r : ℕ × ℕ). bit_or r.0 (2 ^ (fmt r.1 - b' '))) s fuel flag_nonzero le
          enough in
      rw e (holds (lo, hi))

  getint-Ensures :
      (f : Bool) (fuel s : ℕ)
      → s ≤ last
      → last < s + fuel
      → Ensures f (Between s) (getint fuel fmt s)
  unfolding getint
  getint-Ensures f fuel s le enough =
      let (r, e, lo, hi) =
        scan_pairs isdigit (λ (r : ℕ × ℕ). 10 * r.0 + (fmt r.1 - b'0')) s fuel digit_nonzero le
          enough in
      rw e (Ensures-if (ltb int_max r.0) (λ h. open_) (λ h. holds (lo, hi)))

  -- A position takes three characters.
  positional-le : (s : ℕ) → s ≤ last → positional fmt s ≡ true → s + 2 ≤ last
  positional-le s le h =
      let digit : isdigit (fmt s) ≡ true = ground arith in
      let next = within s le (digit_nonzero (fmt s) digit) in
      let dollar : fmt (s + 1) ≡ b'$' = ground arith in
      let after = within (s + 1) next (λ z. omega arith) in omega arith

  pop_int-Ensures :
      (f : Bool) (ap_ : List ℕ) → Ensures f (λ (a : ℤ × List ℕ). Unit {0}) (pop_int ap_)
  unfolding pop_int
  pop_int-Ensures f [] = open_
  pop_int-Ensures f (v ∷ ap_) = holds tt

  starred-Ensures :
      (f sets : Bool) (r : Reader)
      → r.s + 1 ≤ last
      → Ensures f (λ (a : ℤ × Reader). (r.s ≤ a.1.s) × (a.1.s ≤ last)) (starred f fmt sets r)
  unfolding starred
  starred-Ensures f sets r le =
      Ensures-if (positional fmt (r.s + 1))
        (λ h. let more = positional-le (r.s + 1) le h in holds (omega arith, omega arith))
        (λ h.
          Ensures-if (not r.l10n)
            (λ h.
              Ensures-if f
                (λ h. Ensures-bind (pop_int-Ensures f r.ap) λ a t. holds (omega arith, le))
                (λ h. holds (omega arith, le)))
            (λ h. fails))

  signed_width-Ensures :
      (f : Bool) (fl : ℕ) (w : ℤ) → Ensures f (λ (a : ℕ × ℕ). Unit {0}) (signed_width fl w)
  unfolding signed_width
  signed_width-Ensures f fl (pos w) = holds tt
  signed_width-Ensures f fl (negsuc w) = Ensures-if (w == int_max) (λ h. open_) (λ h. holds tt)

  read_width-Ensures :
      (fuel : ℕ) (f : Bool) (fl : ℕ) (r : Reader)
      → r.s ≤ last
      → last < r.s + fuel
      → Ensures f
          (λ (a : ℕ × ℕ × Reader). (r.s ≤ a.2.s) × (a.2.s ≤ last))
          (read_width fuel f fmt fl r)
  unfolding read_width
  read_width-Ensures fuel f fl r le enough =
      Ensures-if (fmt r.s == b'*')
        (λ h.
          Ensures-bind (starred-Ensures f true r (within r.s le (λ z. ground arith)))
            λ a p. Ensures-bind (signed_width-Ensures f fl a.0) λ v t. holds p)
        (λ h. Ensures-bind (getint-Ensures f fuel r.s le enough) λ a p. holds p)

  read_precision-Ensures :
      (fuel : ℕ) (f : Bool) (r : Reader)
      → r.s ≤ last
      → last < r.s + fuel
      → Ensures f (λ (a : ℤ × Reader). (r.s ≤ a.1.s) × (a.1.s ≤ last)) (read_precision fuel f fmt r)
  unfolding read_precision
  read_precision-Ensures fuel f r le enough =
      Ensures-if (fmt r.s == b'.' && fmt (r.s + 1) == b'*')
        (λ h.
          let next = within r.s le (λ z. ground arith) in
          let after = within (r.s + 1) next (λ z. ground arith) in
          Ensures-weaken (starred-Ensures f false (record r { s = r.s + 1 }) after)
            λ a p. holds (omega arith, p.1))
        (λ h.
          Ensures-if (fmt r.s == b'.')
            (λ h.
              let next = within r.s le (λ z. ground arith) in
              Ensures-bind (getint-Ensures f fuel (r.s + 1) next (omega arith))
                λ a p. holds (omega arith, p.1))
            (λ h. holds (omega arith, le)))

  read_arg-Ensures :
      (f : Bool) (argpos : Option ℕ) (st : ℕ) (r : Reader)
      → Ensures f (λ (a : ℕ × Reader). (a.0 < 2 ^ 64) × (a.1.s ≡ r.s)) (read_arg f argpos st r)
  unfolding read_arg
  read_arg-Ensures f none st r =
      Ensures-if (st == noarg) (λ h. holds (omega arith, refl))
        λ h.
          Ensures-if f
            (λ h. Ensures-bind (pop_arg-Ensures f 0 st r.ap) λ a p. holds (p (omega arith), refl))
            (λ h. leaves h)
  read_arg-Ensures f (some argpos) st r =
      Ensures-if (st == noarg) (λ h. fails) (λ h. holds (omega arith, refl))

  -- From a `%`, a directive is read to behind its specifier.
  pub read_directive-Ensures :
      (fuel : ℕ) (f : Bool) (r : Reader)
      → r.s ≤ last
      → fmt r.s ≢ 0
      → last < r.s + fuel
      → Ensures f
          (λ (a : Directive × Reader). (r.s + 1 ≤ a.1.s) × (a.1.s ≤ last) × (a.0.arg < 2 ^ 64))
          (read_directive fuel f fmt r)
  unfolding read_directive
  read_directive-Ensures fuel f r le more enough =
      let next = within r.s le more in
      let at = positional fmt (r.s + 1) in
      let argpos : Option ℕ = if at then some (fmt (r.s + 1) - b'0') else none in
      let r0 : Reader = record r {
        s = if at then r.s + 3 else r.s + 1;
        l10n = if at then true else r.l10n;
      } in
      let pass_start : (r.s + 1 ≤ r0.s) × (r0.s ≤ last) = elim (Bool-cases at) [
        | inl yes_ ↦
            let three = positional-le (r.s + 1) next yes_ in rw yes_ (omega arith, omega arith)
        | inr no_ ↦ rw no_ (omega arith, next)
      ] in
      Ensures-bind (read_flags-Ensures f fuel r0.s pass_start.1 (omega arith)) λ flags p.
        Ensures-bind
          (read_width-Ensures fuel f flags.0 (record r0 { s = flags.1 }) p.1 (omega arith))
          λ width q.
            Ensures-bind (read_precision-Ensures fuel f width.2 q.1 (omega arith)) λ precision t.
              Ensures-bind (specifier-Ensures fmt last ends f precision.1.s t.1) λ spec u.
                Ensures-bind
                  (read_arg-Ensures f argpos spec.0 (record (precision.1) { s = spec.2 }))
                  λ arg v. holds (omega arith, omega arith, v.0)
