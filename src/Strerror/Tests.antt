-- ===== src/Strerror/Tests.antt =====
-- A call of strerror_r, with the texts laid out one behind the other.
use ocaml_solo.Prelude.{
  ℕ, zero, suc, ◌+◌, ◌-◌, ◌*◌, ◌/◌, ◌%◌, ◌<◌, ◌≡◌, ◌≢◌, refl, ap, ap₂, sym, ◌∙◌, List, [], ◌∷◌,
  arith,
}
use ocaml_solo.Prelude.Int.{pos}
use ocaml_solo.Prelude.Lists.{length}
use ocaml_solo.Prelude.Text.{bytes}
use ocaml_solo.Memory.{Memory, IsBytes, write}
use ocaml_solo.Printf.Buffer.{put_bytes}
use ocaml_solo.Printf.Rounds.{Spelled}
use ocaml_solo.Strerror.{errlist, strerror_r}
use ocaml_solo.Strerror.Message.{message, text_of, Placed, described, known, strerror_r_lem}

abbrev char_at : List ℕ → ℕ → ℕ
char_at [] j = 0
char_at (b ∷ t) zero = b
char_at (b ∷ t) (suc j) = char_at t j

laid_out : Memory
laid_out a = char_at (message ((a - 1024) / 64)) (a % 64)

-- Each text has 64 bytes.
abbrev table : ℕ → ℕ
table n = 1024 + 64 * n

abbrev Characters : List ℕ → Type 0
Characters [] = Unit {0}
Characters (b ∷ t) = (b ≢ 0) × (b < 256) × Characters t

abbrev AllCharacters : List (List ℕ) → Type 0
AllCharacters [] = Unit {0}
AllCharacters (t ∷ ts) = Characters t × (length t < 64) × AllCharacters ts

text_of-Characters :
    (ts : List (List ℕ)) (n : ℕ)
    → AllCharacters ts
    → Characters (text_of ts n) × (length (text_of ts n) < 64)
text_of-Characters [] n h = (tt, omega arith)
text_of-Characters (t ∷ ts) zero h = (h.0, h.1)
text_of-Characters (t ∷ ts) (suc n) h = text_of-Characters ts n h.2

errlist-AllCharacters : AllCharacters errlist
unfolding errlist
errlist-AllCharacters = omega arith

char_at-lt : (t : List ℕ) (j : ℕ) → Characters t → char_at t j < 256
char_at-lt [] j h = omega arith
char_at-lt (b ∷ t) zero h = h.1
char_at-lt (b ∷ t) (suc j) h = char_at-lt t j h.2

char_at-ne : (t : List ℕ) (j : ℕ) → Characters t → j < length t → char_at t j ≢ 0
char_at-ne [] j h lt = absurd (omega arith)
char_at-ne (b ∷ t) zero h lt = h.0
char_at-ne (b ∷ t) (suc j) h lt = char_at-ne t j h.2 (omega arith)

char_at-end : (t : List ℕ) → char_at t (length t) ≡ 0
char_at-end [] = refl
char_at-end (b ∷ t) = char_at-end t

Spelled-from :
    (m : Memory) (a : ℕ) (t : List ℕ)
    → ((j : ℕ) → j < length t → m (a + j) ≡ char_at t j)
    → Spelled m a t
Spelled-from m a [] h = tt
Spelled-from m a (b ∷ t) h = (
  ap m (omega arith) ∙ h 0 (omega arith),
  Spelled-from m (a + 1) t (λ j lt. ap m (omega arith) ∙ h (suc j) (omega arith)),
)

characters : (n : ℕ) → Characters (message n) × (length (message n) < 64)
unfolding message
characters n = text_of-Characters errlist n errlist-AllCharacters

laid_at : (n j : ℕ) → j < 64 → laid_out (table n + j) ≡ char_at (message n) j
unfolding laid_out
laid_at n j lt = ap₂ (λ i k. char_at (message i) k) (omega arith) (omega arith)

laid_out-IsBytes : IsBytes laid_out
unfolding laid_out
laid_out-IsBytes a =
    char_at-lt (message ((a - 1024) / 64)) (a % 64) (characters ((a - 1024) / 64)).0

laid_out-Placed : Placed laid_out table
laid_out-Placed n lt =
    let (ch, short) = characters n in
    (
      λ z. omega arith,
      omega arith,
      Spelled-from laid_out (table n) (message n) (λ j less. laid_at n j (omega arith)),
      (
        laid_at n (length (message n)) short ∙ char_at-end (message n),
        λ j less z. char_at-ne (message n) j ch less (sym (laid_at n j (omega arith)) ∙ z),
      ),
    )

-- "%s" at 8.
abbrev format : Memory
format = put_bytes (λ a. 0) 8 (bytes "%s")

strerror_r_example :
    strerror_r 900 5 format 8 table (λ i. 0) laid_out (pos 6) 500 8 (λ a. 7) 0
    ≡ described (known (pos 6)) 500 8 (λ a. 7) 0
unfolding put_bytes write
strerror_r_example =
    strerror_r_lem 900 5 format 8 table (λ i. 0) laid_out (pos 6) 500 8 (λ a. 7) 0 (omega arith)
      laid_out-Placed laid_out-IsBytes (omega arith) (omega arith) (omega arith) (omega arith)
