-- ===== src/Memory/Sample.antt =====
-- A memory for the tests: the string "hello" at address 103 and "help" at 203, zeros elsewhere.
use ocaml_solo.Prelude.{refl, arith, ◌==◌, if◌then◌else◌}
use ocaml_solo.Memory.{Memory, IsBytes}
use ocaml_solo.Length.{IsString}

abbrev pub sample : Memory
sample a =
    if a == 103
    then b'h'
    else if a == 104
    then b'e'
    else if a == 105
    then b'l'
    else if a == 106
    then b'l'
    else if a == 107
    then b'o'
    else if a == 203
    then b'h'
    else if a == 204
    then b'e'
    else if a == 205
    then b'l'
    else if a == 206
    then b'p'
    else 0

pub sample-IsBytes : IsBytes sample
sample-IsBytes a = ground arith

pub hello-IsString : IsString sample 103 5
hello-IsString = (refl, λ i lt z. ground arith)
