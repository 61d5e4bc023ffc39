-- ===== src/Stubs.antt =====
-- nolibc/stubs.c: the functions of libc that only abort, or fail with ENOSYS.
pub mod Table
pub mod Run
pub mod Tests
use ocaml_solo.Prelude.{ℕ, Bool, true, List, ◌++◌, if◌then◌else◌}
use ocaml_solo.Prelude.Int.{ℤ}
use ocaml_solo.Prelude.Text.{bytes}
use ocaml_solo.System.{World, Outcome, returned, stopped, emit, abort, enosys}

-- STUB_ABORT, STUB_WARN_ONCE and STUB_IGNORE, the last two with what they return.
pub data Stub : Type 0 where
  aborts : Stub
  warns : ℤ → Stub
  ignores : ℤ → Stub

-- The body of the stub of `function`; `called` is its static variable, which the result has anew.
unfoldable pub call : List ℕ → Stub → Bool → World → Outcome ℤ × Bool
unfolding emit abort
call function aborts called w =
    (abort (emit (bytes "STUB: abort: " ++ (function ++ bytes "() called\n")) w), called)
call function (warns ret) called w =
    let w' = if called then w else emit (bytes "STUB: " ++ (function ++ bytes "() called\n")) w in
    (returned ret (record w' { errno = enosys }), true)
call function (ignores ret) called w = (returned ret (record w { errno = enosys }), called)
