-- ===== src/System/Tests.antt =====
-- Runs of the calls on the console.
use ocaml_solo.Prelude.{◌≡◌, refl, []}
use ocaml_solo.Prelude.Int.{pos, negsuc}
use ocaml_solo.Prelude.Text.{bytes}
use ocaml_solo.System.{World, returned, stopped, write, assert_fail, enosys}

abbrev quiet : World
quiet = record { console = []; errno = 0 }

write_run :
    write (pos 0) (bytes "x") 1 quiet ≡ returned (negsuc 0) (record quiet { errno = enosys })
unfolding write
write_run = refl

assert_fail_run :
    assert_fail (bytes "a.c") (bytes "7") (bytes "x > 0") quiet
    ≡ stopped (record quiet { console = bytes "a.c:7: Assertion `x > 0' failed\nAborted\n" })
unfolding assert_fail
assert_fail_run = refl
