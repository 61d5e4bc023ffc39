-- ===== src/Memcpy/Total.antt =====
-- What `memcpy` leaves in memory.
use ocaml_solo.Prelude.{
  ℕ, ◌+◌, ◌-◌, ◌%◌, ◌≤◌, ◌≡◌, ◌⊎◌, inl, inr, arith, ltb, leb, ◌==◌, ◌&&◌, Bool-cases, if◌then◌else◌,
}
use ocaml_solo.Memory.{Memory, IsBytes}
use ocaml_solo.Memcpy.{Copy, copy_head, copy_blocks, copy_rest, shift_case, byte_rest, memcpy}
use ocaml_solo.Memcpy.Copied.{IsCopied, begin}
use ocaml_solo.Memcpy.Loops.{
  IsAt, IsWithin, Reached, head-Reached, blocks-Reached, rest-IsAt, byte_rest-IsAt,
}
use ocaml_solo.Memcpy.Shift.{case-Reached}

module _ {m : Memory} {dest src n : ℕ} (within : IsWithin m dest src n) where
  -- The part behind the first loop.
  body-IsCopied :
      (st : Copy)
      → Reached m dest src n st
      → IsCopied m dest src n (
          let shifted = if leb 32 st.n then shift_case (st.d % 4) st else st in
          if st.d % 4 == 0 then (copy_rest (copy_blocks st.n st)).mem else (byte_rest shifted).mem)
  body-IsCopied st (j, at, e) = elim (Bool-cases (st.d % 4 == 0)) [
    | inl aligned ↦
        let ((i, at', e'), small) = blocks-Reached within st.n j st at e (omega arith) in
        let end = rest-IsAt within i (copy_blocks st.n st) at' e' small in rw aligned end.mem
    | inr shifted ↦ rw shifted (elim (Bool-cases (leb 32 st.n)) [
      | inl big ↦
          let ((i, at', e'), small) =
            case-Reached within (st.d % 4) (ground arith) (omega arith) j st at e (ground arith) in
          let end = byte_rest-IsAt within i (shift_case (st.d % 4) st) at' e' (omega arith) in
          rw big end.mem
      | inr little ↦ let end = byte_rest-IsAt within j st at e (ground arith) in rw little end.mem
    ])
  ]

  pub memcpy-IsCopied : IsCopied m dest src n (memcpy m dest src n)
  unfolding memcpy
  memcpy-IsCopied =
      let st : Copy = record { mem = m; d = dest; s = src; n = n } in
      let at : IsAt m dest src 0 st = record {
        d = omega arith;
        s = omega arith;
        mem = begin m dest src;
      } in
      body-IsCopied (copy_head n st) (head-Reached within n 0 st at (omega arith) (omega arith)).0

-- Between two regions that do not overlap, `memcpy` copies the `n` bytes at `src` to `dest`,
-- whatever the alignment of the two, and leaves every other byte alone.
pub memcpy_lem :
    (m : Memory) (dest src n : ℕ)
    → IsBytes m
    → (src + n ≤ dest) ⊎ (dest + n ≤ src)
    → (b : ℕ)
    → memcpy m dest src n b ≡ (if leb dest b && ltb b (dest + n) then m (src + (b - dest)) else m b)
memcpy_lem m dest src n h apart b =
    let within : IsWithin m dest src n = record { bytes = h; apart = apart } in
    let c = memcpy-IsCopied within in ground (arith, c.moved b, c.kept b)
