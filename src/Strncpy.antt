-- ===== src/Strncpy.antt =====
-- nolibc/stpncpy.c and nolibc/strncpy.c.
mod Copying
pub mod Padded
pub mod Tests
use ocaml_solo.Prelude.{
  ℕ, zero, suc, ◌+◌, ◌-◌, ◌%◌, Bool, true, not, ◌&&◌, ◌||◌, Option, none, some, leb, ◌==◌,
  if◌then◌else◌, ◌>>=◌, while,
}
use ocaml_solo.Memory.{Memory, load, write, store}
use ocaml_solo.ZeroByte.{has_zero}
use ocaml_solo.Memcpy.{Copy}
use ocaml_solo.Memset.{memset}

-- `for (; go && n && (*d=*s); n--, s++, d++);`: a NUL is stored, and ends the loop before the steps.
unfoldable pub copy_until : ℕ → (ℕ → Bool) → Copy → Option Copy
copy_until zero go st = none
copy_until (suc fuel) go st =
    let mem = write st.mem st.d (st.mem st.s) in
    let rest =
      copy_until fuel go (record { mem = mem; d = st.d + 1; s = st.s + 1; n = st.n - 1 }) in
    if not (go st.s) || st.n == 0
    then some st
    else if st.mem st.s == 0
    then some (record st { mem = mem })
    else rest

-- The loop over words.
abbrev pub word_more : Copy → Bool
word_more st = leb 8 st.n && not (has_zero (load st.mem st.s 8))

abbrev pub word_step : Copy → Copy
word_step st = record {
  mem = store st.mem st.d 8 (load st.mem st.s 8);
  d = st.d + 8;
  s = st.s + 8;
  n = st.n - 8;
}

-- Up to the label `tail`.
unfoldable pub copy_string : ℕ → Copy → Option Copy
unfolding copy_until while
copy_string fuel st =
    let aligned = copy_until fuel (λ s. not (s % 8 == 0)) st >>= λ st.
    if st.n == 0 || st.mem st.s == 0
    then some st
    else while fuel word_more word_step st >>= copy_until fuel (λ s. true) in
    if st.s % 8 == st.d % 8 then aligned else copy_until fuel (λ s. true) st

-- `__stpncpy`
unfoldable pub stpncpy : ℕ → Memory → ℕ → ℕ → ℕ → Option (ℕ × Memory)
unfolding copy_string memset
stpncpy fuel m d s n = do
  st ← copy_string fuel (record { mem = m; d = d; s = s; n = n })
  some (st.d, memset st.mem st.d 0 st.n)

unfoldable pub strncpy : ℕ → Memory → ℕ → ℕ → ℕ → Option (ℕ × Memory)
unfolding stpncpy
strncpy fuel m d s n = do r ← stpncpy fuel m d s n; some (d, r.1)
