-- ===== src/Prelude/Loop.antt =====
-- Loops on fuel: `none` when the fuel runs out.
use Prim.Native.Nat.{ℕ, zero, suc, ◌+◌, ◌-◌, ◌<◌, ◌≤◌}
use mathlib.Core.Path.{◌≡◌, refl}
use mathlib.Core.Bool.{Bool, true, false}
use mathlib.Core.Option.{Option, none, some}
use mathlib.Core.Logic.{inl, inr}
use native.Mathlib.Omega.{arith}
use ocaml_solo.Prelude.Tests.{Bool-cases, ◌>>=◌}

-- `while (more(state)) state = step(state);`
unfoldable pub while {ℓ} :
    {State : Type ℓ} → ℕ → (State → Bool) → (State → State) → State → Option State
while zero more step state = none
while (suc rounds) more step state = elim (more state) [
  | false ↦ some state
  | true ↦ while rounds more step (step state)
]

-- A loop whose rounds lower a rank ends by its test with its invariant, in fewer rounds than fuel.
module _ {ℓ κ} {S : Type ℓ} (test : S → Bool) (body : S → S) (Inv : S → Type κ) (rank : S → ℕ)
    (round : (s : S) → test s ≡ true → Inv s → (rank (body s) < rank s) × Inv (body s)) where
  abbrev Ended : ℕ → S → Type (ℓ ⊔ κ)
  Ended fuel s = (end : S) × (while fuel test body s ≡ some end) × Inv end × (test end ≡ false)

  pub while_total : (fuel : ℕ) (s : S) → Inv s → rank s < fuel → Ended fuel s
  unfolding while
  while_total zero s inv enough = absurd (omega arith)
  while_total (suc fuel) s inv enough = elim (Bool-cases (test s)) [
    | inr stop ↦ rw (stop, while) (s, refl, inv, stop)
    | inl more ↦
        let (lower, inv') = round s more inv in
        rw (more, while) (while_total fuel (body s) inv' (omega arith))
  ]

  -- The loop in front of the rest of a function.
  pub while_bind {μ} :
      {B : Type μ} (k : S → Option B) (r : Option B) (fuel : ℕ) (s : S)
      → Inv s
      → rank s < fuel
      → ((end : S) → Inv end → test end ≡ false → k end ≡ r)
      → (while fuel test body s >>= k) ≡ r
  while_bind k r fuel s inv enough next =
      let (end, e, inv', stop) = while_total fuel s inv enough in rw e (next end inv' stop)

-- A pointer that steps by `d` and does not pass `end` comes to rest between its start and `end`.
pub scan_total :
    (test : ℕ → Bool) (d a end : ℕ)
    → 0 < d
    → ((s : ℕ) → a ≤ s → s ≤ end → test s ≡ true → s + d ≤ end)
    → (fuel : ℕ) → end < a + fuel
    → a ≤ end
    → (s' : ℕ) × (while fuel test (λ s. s + d) a ≡ some s')
      × (a ≤ s')
      × (s' ≤ end)
      × (test s' ≡ false)
scan_total test d a end pos keep fuel enough le =
    let (s', e, p, stop) =
      while_total test (λ s. s + d) (λ s. (a ≤ s) × (s ≤ end)) (λ s. end - s)
        (λ s more p. let r = keep s p.0 p.1 more in (omega arith, (omega arith, r))) fuel a
        (omega arith, le) (omega arith) in
    (s', e, p.0, p.1, stop)

pub scan_bind {κ} :
    {B : Type κ} (k : ℕ → Option B) (r : Option B) (test : ℕ → Bool) (d a end : ℕ)
    → 0 < d
    → ((s : ℕ) → a ≤ s → s ≤ end → test s ≡ true → s + d ≤ end)
    → (fuel : ℕ) → end < a + fuel
    → a ≤ end
    → ((s : ℕ) → a ≤ s → s ≤ end → test s ≡ false → k s ≡ r)
    → (while fuel test (λ s. s + d) a >>= k) ≡ r
scan_bind k r test d a end pos keep fuel enough le next =
    let (s', e, lo, hi, stop) = scan_total test d a end pos keep fuel enough le in
    rw e (next s' lo hi stop)
