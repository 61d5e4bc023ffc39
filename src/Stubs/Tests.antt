-- ===== src/Stubs/Tests.antt =====
-- Runs of stubs.
use ocaml_solo.Prelude.{ℕ, ◌≡◌, refl, true, [], ◌∷◌}
use ocaml_solo.Prelude.Int.{pos}
use ocaml_solo.Prelude.Text.{bytes}
use ocaml_solo.System.{World, stopped, returned}
use ocaml_solo.Stubs.{call}
use ocaml_solo.Stubs.Table.{table}
use ocaml_solo.Stubs.Run.{Statics, step, followed, run, expected, run_lem}

abbrev quiet : World
quiet = record { console = []; errno = 0 }

abbrev ones : Statics
ones i = true

-- fflush, getpid, then rename.
run_stops :
    (run (0 ∷ 20 ∷ 1 ∷ []) ones quiet).0
    ≡ stopped (record { console = bytes "STUB: abort: rename() called\nAborted\n"; errno = 12 })
unfolding run step followed table call
run_stops = refl

-- fflush, getpid, then isatty.
run_returns :
    (run (0 ∷ 20 ∷ 22 ∷ []) ones quiet).0
    ≡ returned (pos 0 ∷ pos 2 ∷ pos 0 ∷ []) (record { console = []; errno = 12 })
unfolding run step followed table call
run_returns = refl

run_example :
    ((run (0 ∷ 20 ∷ 1 ∷ []) ones quiet).0 ≡ expected (0 ∷ 20 ∷ 1 ∷ []) quiet)
    × ((j : ℕ) → (run (0 ∷ 20 ∷ 1 ∷ []) ones quiet).1 j ≡ true)
run_example = run_lem (0 ∷ 20 ∷ 1 ∷ []) ones quiet (λ j. refl)
