-- ===== src/Prelude/Lists.antt =====
-- Lists over the native numbers.
use ocaml_solo.Prelude.{ℕ, suc, ◌+◌, ◌≡◌, List, [], ◌∷◌, ◌++◌, arith}

abbrev pub length : List ℕ → ℕ
length [] = 0
length (w ∷ ws) = suc (length ws)

pub length-append : (us vs : List ℕ) → length (us ++ vs) ≡ length us + length vs
length-append [] vs = omega arith
length-append (u ∷ us) vs = omega (arith, length-append us vs)
