-- ===== src/Memmove/Total.antt =====
-- What `memmove` leaves in memory.
use ocaml_solo.Prelude.{
  ℕ, ◌+◌, ◌-◌, ◌≤◌, ◌≡◌, inl, inr, refl, ap, arith, ltb, leb, ◌==◌, ◌&&◌, ◌||◌, Bool-cases,
  if◌then◌else◌,
}
use ocaml_solo.Memory.{Memory, IsBytes}
use ocaml_solo.Memcpy.{Copy}
use ocaml_solo.Memcpy.Copied.{IsCopied, begin}
use ocaml_solo.Memcpy.Total.{memcpy_lem}
use ocaml_solo.Memmove.{memmove, forward, backward}
use ocaml_solo.Memmove.Forward.{forward-IsCopied}
use ocaml_solo.Memmove.Backward.{IsTail, backward-IsTail}

module _ (m : Memory) (dest src n : ℕ) (h : IsBytes m) where
  abbrev start : Copy
  start = record { mem = m; d = dest; s = src; n = n }

  forward_lem : dest ≤ src → IsCopied m dest src n (forward start)
  forward_lem below =
      forward-IsCopied {n = n} h (inr below) start
        (record { d = omega arith; s = omega arith; mem = begin m dest src }) refl

  backward_lem : src ≤ dest → IsTail m dest src n 0 (backward start)
  backward_lem above =
      backward-IsTail h above start refl refl refl
        (record { moved = λ b lo hi. absurd (omega arith); kept = λ b out. refl })

  -- `memmove` moves the `n` bytes at `src` to `dest` also where the two regions overlap: each byte
  -- at `dest` is what stood at `src` before the call, and every other byte is left alone.
  pub memmove_lem :
      (b : ℕ)
      → memmove m dest src n b
        ≡ (if leb dest b && ltb b (dest + n) then m (src + (b - dest)) else m b)
  unfolding memmove
  memmove_lem b = elim (Bool-cases (dest == src)) [
    | inl same ↦
        let place : dest ≤ b → m (src + (b - dest)) ≡ m b = λ le. ap m (ground arith) in
        rw same (ground (arith, place))
    | inr other ↦ rw other (elim (Bool-cases (leb (src + n) dest || leb (dest + n) src)) [
      | inl apart ↦ rw apart (memcpy_lem m dest src n h (ground arith) b)
      | inr overlap ↦ rw overlap (elim (Bool-cases (ltb dest src)) [
        | inl below ↦
            let c = forward_lem (ground arith) in rw below (ground (arith, c.moved b, c.kept b))
        | inr above ↦
            let c = backward_lem (ground arith) in rw above (ground (arith, c.moved b, c.kept b))
      ])
    ])
  ]
