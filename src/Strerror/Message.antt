-- ===== src/Strerror/Message.antt =====
-- What `strerror_r` returns and writes.
use mathlib.Core.List.{append-nil}
use ocaml_solo.Prelude.{
  ℕ, zero, suc, ◌+◌, ◌-◌, ◌%◌, ◌^◌, ◌≤◌, ◌<◌, ◌≡◌, ◌≢◌, refl, ap, ◌∙◌, inl, inr, true, false,
  Bool-cases, leb, ltb, ◌==◌, if◌then◌else◌, Option, none, some, List, [], ◌∷◌, ◌++◌, arith,
}
use ocaml_solo.Prelude.Int.{ℤ, pos, negsuc}
use ocaml_solo.Prelude.Lists.{length}
use ocaml_solo.Memory.{Memory, IsBytes}
use ocaml_solo.Length.{IsString}
use ocaml_solo.System.{einval, erange}
use ocaml_solo.Format.Pad.{prefix, repeat}
use ocaml_solo.Printf.Outcome.{Outcome, done}
use ocaml_solo.Printf.Argument.{to_int}
use ocaml_solo.Printf.Directive.{int_max}
use ocaml_solo.Printf.Convert.{text_at}
use ocaml_solo.Printf.Rounds.{Spelled, text_at-Spelled}
use ocaml_solo.Printf.Plain.{s}
use ocaml_solo.Printf.Shown.{StringText, Suits}
use ocaml_solo.Printf.Buffer.{put_bytes}
use ocaml_solo.Printf.Callers.{snprintf}
use ocaml_solo.Printf.Render.{Chunk, in_front, Rendered}
use ocaml_solo.Printf.Render.Buffers.{vsnprintf-Rendered}
use ocaml_solo.Strerror.{nb_errors, errlist, strerror_r}

abbrev pub text_of : List (List ℕ) → ℕ → List ℕ
text_of [] n = []
text_of (t ∷ ts) zero = t
text_of (t ∷ ts) (suc n) = text_of ts n

unfoldable pub message : ℕ → List ℕ
unfolding errlist
message n = text_of errlist n

abbrev AllShort : List (List ℕ) → Type 0
AllShort [] = Unit {0}
AllShort (t ∷ ts) = (length t ≤ 64) × AllShort ts

text_of-short : (ts : List (List ℕ)) (n : ℕ) → AllShort ts → length (text_of ts n) ≤ 64
text_of-short [] n h = omega arith
text_of-short (t ∷ ts) zero h = h.0
text_of-short (t ∷ ts) (suc n) h = text_of-short ts n h.1

errlist-AllShort : AllShort errlist
unfolding errlist
errlist-AllShort = omega arith

message-short : (n : ℕ) → length (message n) ≤ 64
unfolding message
message-short n = text_of-short errlist n errlist-AllShort

-- The linker has placed the texts, each with its NUL.
abbrev pub Placed : Memory → (ℕ → ℕ) → Type 0
Placed m table =
    (n : ℕ)
    → n < nb_errors
    → (table n ≢ 0)
      × (table n < 2 ^ 64)
      × Spelled m (table n) (message n)
      × IsString m (table n) (length (message n))

-- A string has one length.
string_unique : (m : Memory) (a i j : ℕ) → IsString m a i → IsString m a j → i ≡ j
string_unique m a i j h k = elim (Bool-cases (i == j)) [
  | inl same ↦ ground arith
  | inr other ↦ elim (Bool-cases (ltb i j)) [
    | inl less ↦ absurd (k.1 i (ground arith) h.0)
    | inr more ↦ absurd (h.1 j (ground arith) k.0)
  ]
]

-- The error number is known.
abbrev pub known : ℤ → Option ℕ
known (pos n) = if leb nb_errors n then none else some n
known (negsuc n) = none

-- What the caller gets: the text, cut down to the buffer, or an error number.
abbrev pub described : Option ℕ → ℕ → ℕ → Memory → ℕ → Outcome (ℕ × Memory × ℕ)
described none buf buflen dest errno = done (einval, dest, einval)
described (some n) buf buflen dest errno =
    let fits = ltb (length (message n)) buflen in
    done (
      if fits then 0 else erange,
      put_bytes dest buf (prefix (buflen - 1) (message n) ++ 0 ∷ []),
      if fits then errno else erange,
    )

-- The format "%s".
abbrev segments : List Chunk
segments = in_front [] 0 s ∷ []

string_text :
    (m : Memory) (a : ℕ) (shown text : List ℕ)
    → StringText m a shown
    → a ≢ 0
    → Spelled m a text
    → IsString m a (length text)
    → shown ≡ text
string_text m a shown text (inl (nul, e)) ne spelled str = absurd (ne nul)
string_text m a shown text (inr (ne', (k, is, e))) ne spelled str =
    e
    ∙ ap (text_at m a) (string_unique m a k (length text) is str)
    ∙ text_at-Spelled m a text spelled

-- The text that the format makes of a message.
message-Rendered :
    (m : Memory) (table : ℕ → ℕ) (n : ℕ) (t : List ℕ)
    → Placed m table
    → n < nb_errors
    → Rendered m segments [] 0 (table n ∷ []) t
    → t ≡ message n
unfolding repeat
message-Rendered m table n t placed lt (shown, rest, e, is_string, nothing) =
    let (ne, room, spelled, str) = placed n lt in
    let same : table n % 2 ^ 64 ≡ table n = omega arith in
    let is_string' : StringText m (table n) shown = rw same at is_string in
    e
    ∙ ap (λ r. shown ++ r) nothing
    ∙ append-nil shown
    ∙ string_text m (table n) shown (message n) is_string' ne spelled str

to_int_small : (n : ℕ) → n ≤ int_max → to_int n ≡ pos n
unfolding to_int
to_int_small n h =
    let e : n % 2 ^ 32 ≡ n = omega arith in
    let less : ltb n (2 ^ 31) ≡ true = ground arith in rw (e, less) refl

branches :
    (len buflen errno : ℕ) (d : Memory)
    → ◌≡◌ {A = Outcome (ℕ × Memory × ℕ)}
        (if leb buflen len then done (erange, d, erange) else done (0, d, errno))
        (done (if ltb len buflen then 0 else erange, d, if ltb len buflen then errno else erange))
branches len buflen errno d = elim (Bool-cases (ltb len buflen)) [
  | inl fits ↦ let e : leb buflen len ≡ false = ground arith in rw (fits, e) refl
  | inr cut ↦ let e : leb buflen len ≡ true = ground arith in rw (cut, e) refl
]

-- For a known number `strerror_r` writes as much of its text as fits into the `buflen` bytes at `buf`
-- before a NUL, and returns 0 with errno left alone if the whole text fits, and else ERANGE, which
-- errno then holds as well. Any other number is refused with EINVAL, and nothing is written. The size
-- is from 1 to INT_MAX.
pub strerror_r_lem :
    (b fuel : ℕ) (fmt : Memory) (at : ℕ) (table nl_arg : ℕ → ℕ) (m : Memory) (num : ℤ)
    (buf buflen : ℕ) (dest : Memory) (errno : ℕ)
    → Spelled fmt at (b'%' ∷ b's' ∷ 0 ∷ [])
    → Placed m table
    → IsBytes m
    → 3 ≤ fuel
    → 0 < buflen
    → buflen ≤ int_max
    → buf + buflen < 2 ^ 64 - 1
    → strerror_r b fuel fmt at table nl_arg m num buf buflen dest errno
      ≡ described (known num) buf buflen dest errno
unfolding strerror_r repeat
strerror_r_lem b fuel fmt at table nl_arg m (negsuc n) buf buflen dest errno h placed valid enough
      pos_ top room =
    refl
strerror_r_lem b fuel fmt at table nl_arg m (pos n) buf buflen dest errno h placed valid enough pos_
      top room =
    elim (Bool-cases (leb nb_errors n)) [
      | inl over ↦ rw over refl
      | inr lt ↦
          let (ne, room', spelled, str) = placed n (ground arith) in
          let same : table n % 2 ^ 64 ≡ table n = omega arith in
          let short = message-short n in
          let suits : Suits m s (table n) =
            rw same (inr (ne, (length (message n), str, omega arith))) in
          let (t, rendered, run) =
            vsnprintf-Rendered fmt segments [] 0 (table n ∷ []) b fuel at nl_arg m errno buf buflen
              dest (tt, tt) h valid (suits, tt) enough (omega arith) pos_ top room in
          let e = message-Rendered m table n t placed (ground arith) rendered in
          let printed : snprintf b fuel fmt at (table n ∷ []) nl_arg m errno buf buflen dest
              ≡ done (
                some (length (message n)),
                m,
                put_bytes dest buf (prefix (buflen - 1) (message n) ++ 0 ∷ []),
                errno,
              ) =
            unfold snprintf in rw e at (run (rw e (omega arith))) in
          rw (lt, printed, to_int_small buflen top)
            (branches (length (message n)) buflen errno
              (put_bytes dest buf (prefix (buflen - 1) (message n) ++ 0 ∷ [])))
    ]
