-- ===== src/Substring/Tests.antt =====
-- A search in a short text.
use ocaml_solo.Prelude.{ℕ, ◌≡◌, arith, Option, some, ◌==◌, if◌then◌else◌, refl}
use ocaml_solo.Memory.{Memory, IsBytes}
use ocaml_solo.Length.{IsString}
use ocaml_solo.Substring.First.{IsFirst}
use ocaml_solo.Substring.Strstr.{strstr, strstr-IsFirst}

-- "banana" at address 100 and "nan" at address 200.
abbrev banana : Memory
banana a =
    if a == 100
    then b'b'
    else if a == 101
    then b'a'
    else if a == 102
    then b'n'
    else if a == 103
    then b'a'
    else if a == 104
    then b'n'
    else if a == 105
    then b'a'
    else if a == 200
    then b'n'
    else if a == 201
    then b'a'
    else if a == 202
    then b'n'
    else 0

banana-IsBytes : IsBytes banana
banana-IsBytes a = ground arith

banana-IsString : IsString banana 100 6
banana-IsString = (refl, λ i lt z. ground arith)

nan-IsString : IsString banana 200 3
nan-IsString = (refl, λ i lt z. ground arith)

strstr_example :
    (r : Option ℕ) × (strstr (λ b. 0) 7 banana 100 200 ≡ some r) × IsFirst 3 banana 100 6 200 r
strstr_example =
    strstr-IsFirst (λ b. 0) 3 7 banana 100 6 200 banana-IsBytes banana-IsString nan-IsString
      (omega arith) (omega arith)
