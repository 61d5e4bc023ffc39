-- ===== src/Compare/Tests.antt =====
-- Runs of the comparisons.
use ocaml_solo.Prelude.{ℕ, ◌+◌, ◌<◌, ◌≤◌, ◌≡◌, ◌≢◌, ◌⊎◌, refl, some, arith}
use ocaml_solo.Prelude.Int.{pos, negsuc, sub_ℕ}
use ocaml_solo.Memory.Sample.{sample, hello-IsString}
use ocaml_solo.Compare.{memcmp, strcmp, strncmp, Agree, NoNul, memcmp_lem, strcmp_lem, strncmp_lem}

strcmp_run : strcmp 20 sample 103 203 ≡ some (negsuc 3)
unfolding strcmp
strcmp_run = refl

strncmp_run : strncmp sample 103 203 3 ≡ pos 0
unfolding strncmp
strncmp_run = refl

memcmp_example :
    (k : ℕ) × Agree sample 103 203 k
    × ((k ≡ 5) × (memcmp sample 103 203 5 ≡ pos 0)
        ⊎ (k < 5)
          × (sample (103 + k) ≢ sample (203 + k))
          × (memcmp sample 103 203 5 ≡ sub_ℕ (sample (103 + k)) (sample (203 + k))))
memcmp_example = memcmp_lem sample 103 203 5

strcmp_example :
    (k : ℕ) × Agree sample 103 203 k
    × NoNul sample 103 k
    × (k ≤ 5)
    × ((sample (103 + k) ≢ sample (203 + k)) ⊎ (sample (103 + k) ≡ 0) × (sample (203 + k) ≡ 0))
    × (strcmp 20 sample 103 203 ≡ some (sub_ℕ (sample (103 + k)) (sample (203 + k))))
strcmp_example = strcmp_lem 20 sample 103 203 5 hello-IsString (omega arith)

strncmp_example :
    (k : ℕ) × Agree sample 103 203 k
    × NoNul sample 103 k
    × (k < 4)
    × ((k + 1 ≡ 4)
        ⊎ (sample (103 + k) ≢ sample (203 + k))
        ⊎ (sample (103 + k) ≡ 0) × (sample (203 + k) ≡ 0))
    × (strncmp sample 103 203 4 ≡ sub_ℕ (sample (103 + k)) (sample (203 + k)))
strncmp_example = strncmp_lem sample 103 203 4 (omega arith)
