-- ===== src/Ctype/Tests.antt =====
-- Runs of the character tests.
use ocaml_solo.Prelude.{ℕ, ◌≡◌, ◌≤◌, ◌⊎◌, ◌↔◌, refl, true, false, arith}
use ocaml_solo.Ctype.{isalpha, isdigit, isprint, isspace, isupper, classes_iff}

at_sign : isalpha b'@' ≡ false
unfolding isalpha
at_sign = refl

classes_example :
    ((isdigit b'[' ≡ true) ↔ ((b'0' ≤ b'[') × (b'[' ≤ b'9')))
    × ((isupper b'[' ≡ true) ↔ ((b'A' ≤ b'[') × (b'[' ≤ b'Z')))
    × ((isalpha b'[' ≡ true) ↔ ((b'A' ≤ b'[') × (b'[' ≤ b'Z') ⊎ (b'a' ≤ b'[') × (b'[' ≤ b'z')))
    × ((isprint b'[' ≡ true) ↔ ((32 ≤ b'[') × (b'[' ≤ 126)))
    × ((isspace b'[' ≡ true) ↔ ((◌≡◌ {A = ℕ} b'[' 32) ⊎ (9 ≤ b'[') × (b'[' ≤ 13)))
classes_example = classes_iff b'[' (omega arith)
