-- ===== src/Printf/Tests.antt =====
-- Runs of the formatted output.
use ocaml_solo.Prelude.{ℕ, ◌+◌, ◌-◌, ◌^◌, ◌≡◌, refl, true, Option, some, List, [], ◌∷◌, arith}
use ocaml_solo.Prelude.Int.{pos}
use ocaml_solo.Prelude.Text.{bytes}
use ocaml_solo.Memory.{Memory, IsBytes, write}
use ocaml_solo.Format.{fmt_u_wide, fmt_u_long}
use ocaml_solo.Format.Pad.{append, append-Stream, pad, pad_blocks, repeat}
use ocaml_solo.Printf.Outcome.{Outcome, done, Ensures, ◌>>=◌}
use ocaml_solo.Printf.Table.{bare, states, specifier}
use ocaml_solo.Printf.Specifiers.{ll, behind, argument, accepted, specifier_lem}
use ocaml_solo.Printf.Convert.{Field}
use ocaml_solo.Printf.Field.{print_field, layout, print_field_lem}
use ocaml_solo.Printf.Core.{vfprintf}
use ocaml_solo.Printf.Passes.{Printed, vfprintf-Printed}
use ocaml_solo.Printf.Buffer.{put_bytes, vsnprintf}

abbrev zeros : Memory
zeros a = 0

zeros-IsBytes : IsBytes zeros
zeros-IsBytes a = omega arith

-- The format "%5d|%-4x%%%03o" at 100.
abbrev format : Memory
format = put_bytes zeros 100 (bytes "%5d|%-4x%%%03o")

abbrev arguments : List ℕ
arguments = (2 ^ 64 - 12) ∷ 255 ∷ 8 ∷ []

abbrev text_of : Outcome (Option ℕ × List ℕ × Memory × ℕ) → Outcome (Option ℕ × List ℕ)
text_of r = r >>= λ a. done (a.0, a.1)

printf_run :
    text_of (vfprintf append 20 format 100 arguments (λ i. 0) zeros 0 [])
    ≡ done (some 14, bytes "  -12|ff  %010")
unfolding vfprintf put_bytes write states fmt_u_wide fmt_u_long pad pad_blocks repeat
printf_run = refl

abbrev string_of : Outcome (Option ℕ × Memory × Memory × ℕ) → Outcome (Option ℕ × ℕ × ℕ × ℕ)
string_of r = r >>= λ a. done (a.0, a.2 500, a.2 505, a.2 506)

snprintf_run :
    string_of (vsnprintf 900 20 format 100 arguments (λ i. 0) zeros 0 500 6 (λ a. 7))
    ≡ done (some 14, b' ', 0, 7)
unfolding vsnprintf put_bytes write states fmt_u_wide fmt_u_long pad pad_blocks repeat
snprintf_run = refl

vfprintf_example :
    Ensures true (Printed append []) (vfprintf append 15 format 100 arguments (λ i. 0) zeros 0 [])
unfolding put_bytes write
vfprintf_example =
    vfprintf-Printed append append-Stream 15 format 100 14 arguments (λ i. 0) zeros 0 [] refl
      (omega arith) zeros-IsBytes

-- "lld" at 100.
abbrev modified : Memory
modified = put_bytes zeros 100 (bytes "lld")

specifier_example :
    specifier 3 modified bare 100 ≡ accepted (behind ll) (102 + 1) (argument ll (modified 102))
unfolding put_bytes write
specifier_example = specifier_lem modified ll 100 (refl, (refl, tt)) (omega arith) refl

-- The field of `%+5d` for 12.
abbrev field : Field
field = record { fl = 2 ^ 11; w = 5; p = pos 2; lead = b'+' ∷ []; body = b'1' ∷ b'2' ∷ [] }

layout_run : layout field ≡ bytes "  +12"
unfolding repeat
layout_run = refl

print_field_example : print_field append field [] ≡ some (append (layout field) [])
print_field_example = print_field_lem append append-Stream field [] refl
