-- ===== src/Substring/Twoway/Tests.antt =====
-- Runs of the two-way search.
use ocaml_solo.Prelude.{ℕ, ◌+◌, ◌-◌, ◌<◌, ◌≡◌, refl, none, some, Option, ◌==◌, if◌then◌else◌, arith}
use ocaml_solo.Memory.{Memory}
use ocaml_solo.Memory.Sample.{sample, sample-IsBytes, hello-IsString}
use ocaml_solo.Length.{IsString}
use ocaml_solo.Substring.Twoway.{twoway_strstr}
use ocaml_solo.Substring.Twoway.Shifts.{Repeats}
use ocaml_solo.Substring.Twoway.Total.{IsHit, twoway_strstr_lem}

-- "aabaabaab" at 300 and "abaab" at 400.
abbrev letters : Memory
letters a =
    if a == 302
    then b'b'
    else if a == 305
    then b'b'
    else if a == 308
    then b'b'
    else if a == 300
    then b'a'
    else if a == 301
    then b'a'
    else if a == 303
    then b'a'
    else if a == 304
    then b'a'
    else if a == 306
    then b'a'
    else if a == 307
    then b'a'
    else if a == 400
    then b'a'
    else if a == 401
    then b'b'
    else if a == 402
    then b'a'
    else if a == 403
    then b'a'
    else if a == 404
    then b'b'
    else 0

twoway_periodic : twoway_strstr (λ b. 7) 90 letters 300 400 ≡ some (some 301)
unfolding twoway_strstr
twoway_periodic = refl

twoway_again : twoway_strstr (λ b. 7) 90 letters 302 400 ≡ some (some 304)
unfolding twoway_strstr
twoway_again = refl

twoway_missing : twoway_strstr (λ b. 7) 90 letters 305 400 ≡ some none
unfolding twoway_strstr
twoway_missing = refl

lo-IsString : IsString sample 106 2
lo-IsString = (refl, λ i lt z. ground arith)

twoway_strstr_example :
    (r : Option ℕ) × (d : ℕ) × (twoway_strstr (λ b. 7) 90 sample 103 106 ≡ some r)
    × (d < 2)
    × Repeats sample 106 2 (2 - d)
    × IsHit d sample 103 (103 + 5) 106 2 r
twoway_strstr_example =
    twoway_strstr_lem (λ b. 7) 90 sample 103 5 106 2 sample-IsBytes hello-IsString lo-IsString
      (omega arith) (omega arith) (omega arith) (omega arith)
