-- ===== src/Printf/Outcome.antt =====
-- How a part of `printf_core` ends, and postconditions on it.
use mathlib.Core.Path.{subst}
use ocaml_solo.Prelude.{◌≡◌, refl, Bool, true, false, Option, none, some, if◌then◌else◌}

-- `failed` is `return -1` and `leave` is `return 0`; `undefined` is arithmetic that leaves the range of
-- `int` and what else C does not define, `aborted` a call of abort, `floating` a
-- call of fmt_fp, where the model ends, and `spinning` a loop without fuel.
pub data Outcome {ℓ} (A : Type ℓ) : Type ℓ where
  done : A → Outcome A
  failed leave undefined aborted floating spinning : Outcome A

infixl 5 ◌>>=◌
abbrev pub ◌>>=◌ {ℓ κ} : {A : Type ℓ} {B : Type κ} → Outcome A → (A → Outcome B) → Outcome B
done a >>= f = f a
failed >>= f = failed
leave >>= f = leave
undefined >>= f = undefined
aborted >>= f = aborted
floating >>= f = floating
spinning >>= f = spinning

abbrev pub or_spinning {ℓ} : {A : Type ℓ} → Option A → Outcome A
or_spinning none = spinning
or_spinning (some a) = done a

-- The run kept within its fuel, it leaves only in the first pass, which `f` false stands for, and `P`
-- holds of its value if it has one.
pub data Ensures {ℓ κ} {A : Type ℓ} (f : Bool) (P : A → Type κ) : Outcome A → Type (ℓ ⊔ κ) where
  holds : {a : A} → P a → Ensures f P (done a)
  fails : Ensures f P failed
  leaves : f ≡ false → Ensures f P leave
  open_ : Ensures f P undefined
  aborts : Ensures f P aborted
  floats : Ensures f P floating

module _ {ℓ κ} {A : Type ℓ} {f : Bool} {P : A → Type κ} where
  pub Ensures-if :
      (b : Bool) {x y : Outcome A}
      → (b ≡ true → Ensures f P x)
      → (b ≡ false → Ensures f P y)
      → Ensures f P (if b then x else y)
  Ensures-if true hx hy = hx refl
  Ensures-if false hx hy = hy refl

  pub Ensures-bind {ℓ' κ'} :
      {B : Type ℓ'} {Q : B → Type κ'} {r : Outcome A} {next : A → Outcome B}
      → Ensures f P r
      → ((a : A) → P a → Ensures f Q (next a))
      → Ensures f Q (r >>= next)
  Ensures-bind (holds {a} h) k = k a h
  Ensures-bind fails k = fails
  Ensures-bind (leaves e) k = leaves e
  Ensures-bind open_ k = open_
  Ensures-bind aborts k = aborts
  Ensures-bind floats k = floats

  pub Ensures-weaken {κ'} :
      {Q : A → Type κ'} {r : Outcome A}
      → Ensures f P r
      → ((a : A) → P a → Ensures f Q (done a))
      → Ensures f Q r
  Ensures-weaken (holds {a} h) k = k a h
  Ensures-weaken fails k = fails
  Ensures-weaken (leaves e) k = leaves e
  Ensures-weaken open_ k = open_
  Ensures-weaken aborts k = aborts
  Ensures-weaken floats k = floats

  pub Ensures-done : {r : Outcome A} {a : A} → Ensures f P r → r ≡ done a → P a
  Ensures-done (holds h) e = subst P (cc) h
  Ensures-done fails e = cc
  Ensures-done (leaves l) e = cc
  Ensures-done open_ e = cc
  Ensures-done aborts e = cc
  Ensures-done floats e = cc
