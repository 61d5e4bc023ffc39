-- ===== src/Strncpy/Padded.antt =====
-- What `stpncpy` and `strncpy` leave in memory.
use ocaml_solo.Prelude.{
  ℕ, ◌+◌, ◌-◌, ◌^◌, ◌≤◌, ◌<◌, ◌≡◌, ◌⊎◌, inl, inr, refl, some, leb, ltb, ◌&&◌, if◌then◌else◌,
  Bool-cases, arith,
}
use ocaml_solo.Memory.{Memory, span_of, span_of-le}
use ocaml_solo.Memset.{memset}
use ocaml_solo.Memset.Total.{memset_lem}
use ocaml_solo.Memcpy.{Copy}
use ocaml_solo.Memcpy.Loops.{IsWithin}
use ocaml_solo.Strncpy.{stpncpy, strncpy}
use ocaml_solo.Strncpy.Copying.{is_nul, Halted, copy_string_lem}

-- The `k` bytes of the string at `src`, and NULs up to `n` bytes.
unfoldable pub padded : Memory → ℕ → ℕ → ℕ → ℕ → Memory
padded m dest src k n b =
    if leb dest b && ltb b (dest + k)
    then m (src + (b - dest))
    else if leb dest b && ltb b (dest + n)
    then 0
    else m b

Halted-padded :
    {m : Memory} {dest src n : ℕ} (within : IsWithin m dest src n)
    → dest + n < 2 ^ 64
    → (st : Copy) → Halted within st
    → (b : ℕ) → memset st.mem st.d 0 st.n b ≡ padded m dest src (span_of is_nul m src n) n b
unfolding padded
Halted-padded {m} {dest} {src} {n} within hd st h b =
    let le = span_of-le is_nul m src n in
    let left = h.left in
    let d = h.d in
    let set = memset_lem st.mem st.d 0 st.n (omega arith) (omega arith) b in
    let moved = h.moved b in
    let kept = h.kept b in
    elim (Bool-cases (leb dest b && ltb b (dest + n))) [
      | inr out ↦
          let outside : (b < dest) ⊎ (dest + n ≤ b) = ground arith in
          let same = kept outside in ground arith
      | inl at ↦ elim (Bool-cases (ltb b (dest + span_of is_nul m src n))) [
        | inl copied ↦ let same = moved (ground arith) (ground arith) in ground arith
        | inr behind ↦ ground arith
      ]
    ]

-- With more fuel than `n` and a destination below the end of the address space that is apart from
-- the source, `stpncpy` copies the bytes of the string at `src` before its NUL, `n` at most, sets the rest of the `n` bytes at `dest` to 0, leaves every other byte alone and returns the
-- address behind the bytes that it has copied.
pub stpncpy_lem :
    (m : Memory) (dest src n fuel : ℕ)
    → IsWithin m dest src n
    → n < fuel
    → dest + n < 2 ^ 64
    → let k = span_of is_nul m src n in
      (m' : Memory) × (stpncpy fuel m dest src n ≡ some (dest + k, m'))
      × ((b : ℕ) → m' b ≡ padded m dest src k n b)
unfolding stpncpy
stpncpy_lem m dest src n fuel within enough hd =
    let (st, e, h) = copy_string_lem within fuel enough in
    let at = h.d in rw (e, at) (_, refl, λ b. rw at at (Halted-padded within hd st h b))

-- With more fuel than `n` and a destination below the end of the address space that is apart from
-- the source, `strncpy` copies the bytes of the string at `src` before its NUL, `n` at most, sets
-- the rest of the `n` bytes at `dest` to 0, leaves every other byte alone and returns `dest`.
pub strncpy_lem :
    (m : Memory) (dest src n fuel : ℕ)
    → IsWithin m dest src n
    → n < fuel
    → dest + n < 2 ^ 64
    → (m' : Memory) × (strncpy fuel m dest src n ≡ some (dest, m'))
      × ((b : ℕ) → m' b ≡ padded m dest src (span_of is_nul m src n) n b)
unfolding strncpy
strncpy_lem m dest src n fuel within enough hd =
    let (m', e, same) = stpncpy_lem m dest src n fuel within enough hd in rw e (m', refl, same)
