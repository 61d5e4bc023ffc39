-- ===== src/Printf/Rounds.antt =====
-- One round of `printf_core`: the text up to a directive, a directive, and the end of the format.
use ocaml_solo.Prelude.{
  ℕ, zero, suc, ◌+◌, ◌-◌, ◌*◌, ◌≤◌, ◌<◌, ◌≡◌, ◌≢◌, ◌⊎◌, refl, ap, sym, ◌∙◌, Bool, true, false, not,
  ◌&&◌, ◌==◌, ltb, some, List, [], ◌∷◌, ◌++◌, while, arith, inl, inr, Nat-cases,
}
use ocaml_solo.Prelude.Lists.{length}
use ocaml_solo.Memory.{Memory}
use ocaml_solo.Format.Pad.{repeat}
use ocaml_solo.Printf.Outcome.{done}
use ocaml_solo.Printf.Directive.{int_max}
use ocaml_solo.Printf.Convert.{text_at}
use ocaml_solo.Printf.Field.{length-repeat}
use ocaml_solo.Printf.Core.{Printer, literal, put_out, is_pair}

-- The bytes stand at `a`.
abbrev pub Spelled : Memory → ℕ → List ℕ → Type 0
Spelled m a [] = Unit {0}
Spelled m a (b ∷ s) = (m a ≡ b) × Spelled m (a + 1) s

pub Spelled-append :
    (m : Memory) (a : ℕ) (s t : List ℕ)
    → Spelled m a (s ++ t)
    → Spelled m a s × Spelled m (a + length s) t
Spelled-append m a [] t h = (tt, let e : a + 0 ≡ a = omega arith in rw e h)
Spelled-append m a (b ∷ s) t h =
    let (l, r) = Spelled-append m (a + 1) s t h.1 in
    let e : a + suc (length s) ≡ a + 1 + length s = omega arith in ((h.0, l), rw e r)

pub text_at-Spelled : (m : Memory) (a : ℕ) (s : List ℕ) → Spelled m a s → text_at m a (length s) ≡ s
unfolding text_at
text_at-Spelled m a [] h = refl
text_at-Spelled m a (b ∷ s) h = rw h.0 (ap (λ t. b ∷ t) (text_at-Spelled m (a + 1) s h.1))

-- Characters that `printf_core` copies.
abbrev pub Ordinary : List ℕ → Type 0
Ordinary [] = Unit {0}
Ordinary (b ∷ s) = (b ≢ 0) × (b ≢ b'%') × Ordinary s

-- A loop of `n` rounds, by the states that it goes through.
while_steps {ℓ} :
    {S : Type ℓ} (test : S → Bool) (body : S → S) (state : ℕ → S) (n fuel : ℕ)
    → ((i : ℕ) → i < n → (test (state i) ≡ true) × (body (state i) ≡ state (suc i)))
    → test (state n) ≡ false
    → n < fuel
    → while fuel test body (state 0) ≡ some (state n)
unfolding while
while_steps test body state n zero go stop enough = absurd (omega arith)
while_steps test body state zero (suc fuel) go stop enough = rw (stop, while) refl
while_steps test body state (suc n) (suc fuel) go stop enough =
    let first = go 0 (omega arith) in
    rw (first.0, while, first.1)
      (while_steps test body (λ i. state (suc i)) n fuel (λ i lt. go (suc i) (omega arith)) stop
        (omega arith))

Ordinary-byte :
    (m : Memory) (a : ℕ) (s : List ℕ) (i : ℕ)
    → Spelled m a s
    → Ordinary s
    → i < length s
    → (not (m (a + i) == 0) && not (m (a + i) == b'%')) ≡ true
Ordinary-byte m a [] i h o lt = absurd (omega arith)
Ordinary-byte m a (b ∷ s) zero h o lt =
    let e : m (a + 0) ≡ b = ap m (omega arith) ∙ h.0 in let p = o.0 in let q = o.1 in ground arith
Ordinary-byte m a (b ∷ s) (suc i) h o lt =
    let e : a + suc i ≡ a + 1 + i = omega arith in
    rw e (Ordinary-byte m (a + 1) s i h.1 o.2 (omega arith))

pub repeated_at : (m : Memory) (a n c i : ℕ) → Spelled m a (repeat n c) → i < n → m (a + i) ≡ c
unfolding repeat
repeated_at m a zero c i h lt = absurd (omega arith)
repeated_at m a (suc n) c zero h lt = ap m (omega arith) ∙ h.0
repeated_at m a (suc n) c (suc i) h lt =
    ap m (omega arith) ∙ repeated_at m (a + 1) n c i h.1 (omega arith)

Spelled-repeat :
    (m : Memory) (a n c : ℕ) → ((i : ℕ) → i < n → m (a + i) ≡ c) → Spelled m a (repeat n c)
unfolding repeat
Spelled-repeat m a zero c h = tt
Spelled-repeat m a (suc n) c h = (
  ap m (omega arith) ∙ h 0 (omega arith),
  Spelled-repeat m (a + 1) n c (λ i lt. ap m (omega arith) ∙ h (suc i) (omega arith)),
)

-- What stands behind a text: the end of the format, or a directive.
abbrev pub Behind : Memory → ℕ → Type 0
Behind m a = (m a ≡ 0) ⊎ ((m a ≡ b'%') × (m (a + 1) ≢ b'%'))

-- The ordinary characters `words` and `k` times `%%` in front of such a place, or in front of other
-- text where there is a `%%`.
pub record Literal (fmt : Memory) (s : ℕ) (words : List ℕ) (k : ℕ) : Type 0 where
  pub spelled : Spelled fmt s words
  pub ordinary : Ordinary words
  pub doubled : Spelled fmt (s + length words) (repeat (2 * k) b'%')
  pub behind :
      Behind fmt (s + length words + 2 * k) ⊎ (0 < k) × (fmt (s + length words + 2 * k) ≢ b'%')

-- What it prints.
abbrev pub literal_text : List ℕ → ℕ → List ℕ
literal_text words k = words ++ repeat k b'%'

literal_bytes :
    (fmt : Memory) (s : ℕ) (words : List ℕ) (k : ℕ)
    → Spelled fmt s words
    → Spelled fmt (s + length words) (repeat k b'%')
    → text_at fmt s (length words + k) ≡ literal_text words k
unfolding text_at
literal_bytes fmt s [] k h d =
    let z : s + 0 ≡ s = omega arith in
    let h' : Spelled fmt s (repeat k b'%') = rw z at d in
    ap (text_at fmt s) (omega arith)
    ∙ ap (text_at fmt s) (sym (length-repeat k b'%'))
    ∙ text_at-Spelled fmt s (repeat k b'%') h'
literal_bytes fmt s (b ∷ words) k h d =
    let e : suc (length words) + k ≡ suc (length words + k) = omega arith in
    let e' : s + suc (length words) ≡ s + 1 + length words = omega arith in
    rw (e, h.0) (ap (λ t. b ∷ t) (literal_bytes fmt (s + 1) words k h.1 (rw e' at d)))

module _ (fmt : Memory) (s : ℕ) (words : List ℕ) (k : ℕ) (lit : Literal fmt s words k) where
  words_end : (not (fmt (s + length words) == 0) && not (fmt (s + length words) == b'%')) ≡ false
  words_end = elim (Nat-cases k) [
    | inl none_ ↦
        let e : fmt (s + length words + 2 * k) ≡ fmt (s + length words) = ap fmt (omega arith) in
        elim (lit.behind) [
          | inl (inl z) ↦ ground arith
          | inl (inr p) ↦ let z = p.0 in ground arith
          | inr p ↦ let z = p.0 in absurd (omega arith)
        ]
    | inr some_ ↦
        let e : fmt (s + length words) ≡ b'%' =
          ap fmt (omega arith)
          ∙ repeated_at fmt (s + length words) (2 * k) b'%' 0 (lit.doubled) (omega arith) in
        ground arith
  ]

  pairs_end : is_pair fmt (s + length words + 2 * k) ≡ false
  pairs_end = elim (lit.behind) [
    | inl (inl z) ↦ ground arith
    | inl (inr p) ↦ let z = p.0 in let z' = p.1 in ground arith
    | inr p ↦ let z = p.1 in ground arith
  ]

  scan_words :
      (fuel : ℕ)
      → length words < fuel
      → while fuel (λ s. not (fmt s == 0) && not (fmt s == b'%')) (λ s. s + 1) s
        ≡ some (s + length words)
  scan_words fuel enough =
      ap (while fuel (λ s. not (fmt s == 0) && not (fmt s == b'%')) (λ s. s + 1)) (omega arith)
      ∙ while_steps (λ s. not (fmt s == 0) && not (fmt s == b'%')) (λ s. s + 1) (λ i. s + i)
          (length words) fuel
          (λ i lt. (Ordinary-byte fmt s words i lit.spelled lit.ordinary lt, omega arith)) words_end
          enough

  scan_pairs :
      (fuel : ℕ)
      → k < fuel
      → while fuel
          (λ (e : ℕ × ℕ). is_pair fmt e.1)
          (λ (e : ℕ × ℕ). (e.0 + 1, e.1 + 2))
          (s + length words, s + length words)
        ≡ some (s + length words + k, s + length words + 2 * k)
  scan_pairs fuel enough =
      let q = s + length words in
      let state = λ (i : ℕ). let p : ℕ × ℕ = (q + i, q + 2 * i) in p in
      let start : ◌≡◌ {A = ℕ × ℕ} (q, q) (q + 0, q + 2 * 0) = ground arith in
      ap (while fuel (λ (e : ℕ × ℕ). is_pair fmt e.1) (λ (e : ℕ × ℕ). (e.0 + 1, e.1 + 2))) start
      ∙ while_steps (λ (e : ℕ × ℕ). is_pair fmt e.1) (λ (e : ℕ × ℕ). (e.0 + 1, e.1 + 2)) state k
          fuel
          (λ i lt.
            let a = repeated_at fmt q (2 * k) b'%' (2 * i) lit.doubled (omega arith) in
            let b : fmt (q + 2 * i + 1) ≡ b'%' =
              ap fmt (omega arith)
              ∙ repeated_at fmt q (2 * k) b'%' (2 * i + 1) lit.doubled (omega arith) in
            (ground arith, ground arith))
          pairs_end enough

-- There is no text, or it begins with a character.
pub text_start :
    (fmt : Memory) (s : ℕ) (words : List ℕ) (k : ℕ)
    → Literal fmt s words k
    → ((words ≡ []) × (k ≡ 0)) ⊎ ((length words + k == 0) ≡ false) × (fmt s ≢ 0)
unfolding repeat
text_start fmt s [] zero lit = inl (refl, refl)
text_start fmt s [] (suc k) lit =
    let e : fmt s ≡ b'%' =
      ap fmt (omega arith)
      ∙ repeated_at fmt (s + 0) (2 * suc k) b'%' 0 (lit.doubled) (omega arith) in
    inr (ground arith, λ z. omega arith)
text_start fmt s (b ∷ words) k lit =
    let h = lit.spelled.0 in let o = lit.ordinary.0 in inr (ground arith, λ z. o (sym h ∙ z))

module _ {F : Type 0} (out : List ℕ → F → F) (fmt : Memory) where
  pub literal_lem :
      (words : List ℕ) (k fuel : ℕ) (st : Printer F)
      → Literal fmt st.r.s words k
      → length words + k ≤ int_max
      → length words < fuel
      → k < fuel
      → literal out fuel fmt st
        ≡ done (
          length words + k,
          record st {
            r = record (st.r) { s = st.r.s + length words + 2 * k };
            file = put_out out (literal_text words k) st.file;
          },
        )
  unfolding literal
  literal_lem words k fuel st lit small enough enough' =
      let s = st.r.s in
      let n = length words in
      let count : s + n + k - s ≡ n + k = omega arith in
      let fits : ltb int_max (n + k) ≡ false = ground arith in
      let half =
        Spelled-repeat fmt (s + n) k b'%'
          (λ i lt. repeated_at fmt (s + n) (2 * k) b'%' i lit.doubled (omega arith)) in
      rw
        (
          scan_words fmt s words k lit fuel enough,
          scan_pairs fmt s words k lit fuel enough',
          count,
          fits,
          literal_bytes fmt s words k lit.spelled half,
        )
        refl
