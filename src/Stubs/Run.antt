-- ===== src/Stubs/Run.antt =====
-- Calls of stubs one after another, over the static variables of all of them.
use ocaml_solo.Prelude.{
  ap, ℕ, zero, suc, ◌≡◌, refl, Bool, true, List, [], ◌∷◌, ◌++◌, Option, none, some, if◌then◌else◌,
  ◌==◌, arith,
}
use mathlib.Core.List.{append_assoc}
use ocaml_solo.Prelude.Int.{ℤ}
use ocaml_solo.Prelude.Text.{bytes}
use ocaml_solo.System.{World, Outcome, returned, stopped, exited, enosys}
use ocaml_solo.Stubs.{Stub, aborts, warns, ignores, call}
use ocaml_solo.Stubs.Table.{table}

abbrev nth : List (List ℕ × Stub) → ℕ → Option (List ℕ × Stub)
nth [] i = none
nth (entry ∷ entries) zero = some entry
nth (entry ∷ entries) (suc i) = nth entries i

-- The static variable of the stub in each place of the table, 1 at the start.
abbrev pub Statics : Type 0
Statics = ℕ → Bool

abbrev set : Statics → ℕ → Bool → Statics
set statics i called j = if j == i then called else statics j

unfoldable pub step : Option (List ℕ × Stub) → ℕ → Statics → World → Outcome (List ℤ) × Statics
step none i statics w = (returned [] w, statics)
step (some (function, stub)) i statics w =
    let (outcome, called) = call function stub (statics i) w in
    (
      elim outcome [
        | returned v w' ↦ returned (v ∷ []) w'
        | stopped w' ↦ stopped w'
        | exited status w' ↦ exited status w'
      ],
      set statics i called,
    )

-- What follows a call, if it returns.
unfoldable pub followed :
    Outcome (List ℤ) → Statics → (World → Outcome (List ℤ) × Statics) → Outcome (List ℤ) × Statics
followed (returned vs w) statics next =
    let (outcome, statics') = next w in
    (
      elim outcome [
        | returned vs' w' ↦ returned (vs ++ vs') w'
        | stopped w' ↦ stopped w'
        | exited status w' ↦ exited status w'
      ],
      statics',
    )
followed (stopped w) statics next = (stopped w, statics)
followed (exited status w) statics next = (exited status w, statics)

-- The calls of the stubs in these places of the table, until one does not return: the values that they
-- returned.
unfoldable pub run : List ℕ → Statics → World → Outcome (List ℤ) × Statics
run [] statics w = (returned [] w, statics)
run (i ∷ rest) statics w =
    let (outcome, statics') = step (nth table i) i statics w in
    followed outcome statics' (run rest statics')

-- The values that the table lists for these places, up to one that aborts, whose name is given.
abbrev entries : List ℕ → List (Option (List ℕ × Stub))
entries [] = []
entries (i ∷ rest) = nth table i ∷ entries rest

abbrev values : List (Option (List ℕ × Stub)) → List ℤ
values [] = []
values (none ∷ rest) = values rest
values (some (function, aborts) ∷ rest) = []
values (some (function, warns ret) ∷ rest) = ret ∷ values rest
values (some (function, ignores ret) ∷ rest) = ret ∷ values rest

abbrev first_abort : List (Option (List ℕ × Stub)) → Option (List ℕ)
first_abort [] = none
first_abort (none ∷ rest) = first_abort rest
first_abort (some (function, aborts) ∷ rest) = some function
first_abort (some (function, warns ret) ∷ rest) = first_abort rest
first_abort (some (function, ignores ret) ∷ rest) = first_abort rest

-- errno is ENOSYS from the first stub on that returns.
abbrev errno_after : List ℤ → ℕ → ℕ
errno_after [] errno = errno
errno_after (v ∷ vs) errno = enosys

abbrev line : List ℕ → List ℕ
line function = bytes "STUB: abort: " ++ (function ++ bytes "() called\nAborted\n")

-- The values come back and the console is as it was, or the run stops with the line of the function.
abbrev pub silent : List ℤ → Option (List ℕ) → World → Outcome (List ℤ)
silent vs none w = returned vs (record w { errno = errno_after vs w.errno })
silent vs (some function) w =
    stopped (record { console = w.console ++ line function; errno = errno_after vs w.errno })

abbrev pub expected : List ℕ → World → Outcome (List ℤ)
expected calls w = silent (values (entries calls)) (first_abort (entries calls)) w

abbrev Warned : Statics → Type 0
Warned statics = (j : ℕ) → statics j ≡ true

-- One more value in front.
prepend :
    (v : ℤ) (vs : List ℤ) (name : Option (List ℕ)) (w : World) (s : Statics)
    (next : World → Outcome (List ℤ) × Statics)
    → let w' = record w { errno = enosys } in
      let result = followed (returned (v ∷ []) w') s next in
      (next w').0 ≡ silent vs name w'
      → Warned (next w').1
      → (result.0 ≡ silent (v ∷ vs) name w) × Warned result.1
unfolding followed
prepend v [] none w s next e warned = rw e (refl, warned)
prepend v (u ∷ vs) none w s next e warned = rw e (refl, warned)
prepend v [] (some function) w s next e warned = rw e (refl, warned)
prepend v (u ∷ vs) (some function) w s next e warned = rw e (refl, warned)

-- A place behind the table adds nothing.
prepend_none :
    (vs : List ℤ) (name : Option (List ℕ)) (w : World) (s : Statics)
    (next : World → Outcome (List ℤ) × Statics)
    → (next w).0 ≡ silent vs name w
    → Warned (next w).1
    → ((followed (returned [] w) s next).0 ≡ silent vs name w)
      × Warned (followed (returned [] w) s next).1
unfolding followed
prepend_none vs none w s next e warned = rw e (refl, warned)
prepend_none vs (some function) w s next e warned = rw e (refl, warned)

entry_lem :
    (entry : Option (List ℕ × Stub)) (i : ℕ) (rest : List ℕ) (statics : Statics) (w : World)
    → Warned statics
    → ((statics' : Statics) (w' : World)
        → Warned statics'
        → ((run rest statics' w').0 ≡ expected rest w') × Warned (run rest statics' w').1)
    → let (outcome, statics') = step entry i statics w in
      let result = followed outcome statics' (run rest statics') in
      (result.0 ≡ silent (values (entry ∷ entries rest)) (first_abort (entry ∷ entries rest)) w)
      × Warned result.1
unfolding step call
entry_lem none i rest statics w warned later =
    let (e, warned') = later statics w warned in
    prepend_none (values (entries rest)) (first_abort (entries rest)) w statics (run rest statics) e
      warned'
entry_lem (some (function, aborts)) i rest statics w warned later = (
  unfold followed in ap (λ c. stopped (record w { console = c })) (simp append_assoc),
  unfold followed in λ j. ground (arith, warned i, warned j),
)
entry_lem (some (function, warns ret)) i rest statics w warned later =
    let s = set statics i true in
    let still : Warned s = λ j. ground (arith, warned j) in
    let (e, warned') = later s (record w { errno = enosys }) still in
    rw (warned i)
      (prepend ret (values (entries rest)) (first_abort (entries rest)) w s (run rest s) e warned')
entry_lem (some (function, ignores ret)) i rest statics w warned later =
    let s = set statics i (statics i) in
    let still : Warned s = λ j. ground (arith, warned i, warned j) in
    let (e, warned') = later s (record w { errno = enosys }) still in
    prepend ret (values (entries rest)) (first_abort (entries rest)) w s (run rest s) e warned'

-- With every warning given, a run of stubs, in any order and with repetitions, prints no other: it
-- returns the values that the table lists, with errno ENOSYS behind the first, or it stops at the
-- first stub that aborts, with the line that names it and "Aborted". The warnings stay given.
pub run_lem :
    (calls : List ℕ) (statics : Statics) (w : World)
    → ((j : ℕ) → statics j ≡ true)
    → ((run calls statics w).0 ≡ expected calls w) × ((j : ℕ) → (run calls statics w).1 j ≡ true)
unfolding run
run_lem [] statics w warned = (refl, warned)
run_lem (i ∷ rest) statics w warned =
    entry_lem (nth table i) i rest statics w warned (λ s w' still. run_lem rest s w' still)
