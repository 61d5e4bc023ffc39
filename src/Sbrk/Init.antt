-- ===== src/Sbrk/Init.antt =====
-- `_nolibc_init`. The allocator and the solo5 calls are parameters.
use ocaml_solo.Prelude.{
  ℕ, ◌+◌, ◌-◌, ◌/◌, ◌%◌, ◌^◌, ◌≤◌, ◌<◌, ◌≡◌, ◌⊎◌, inl, inr, refl, ap, sym, ◌∙◌, Bool, true, List,
  [], ◌∷◌, ◌++◌, ◌||◌, arith, leb, ltb, ◌==◌, if◌then◌else◌, Bool-cases,
}
use mathlib.Core.Path.{subst}
use ocaml_solo.Prelude.Text.{bytes}
use ocaml_solo.Sbrk.{
  Heap, init_heap, sbrk, IsValid, init_heap-IsValid, sbrk-IsValid, granted, Ascending, AllGrow,
  granted-Ascending,
}

-- calloc, which is dlmalloc's, and the thread-local storage of solo5; a Bool says SOLO5_R_OK.
pub record Services : Type 0 where
  pub calloc : ℕ → ℕ → Heap → ℕ × Heap
  pub tls_size : ℕ
  pub tls_init : ℕ → Bool
  pub tls_tp_offset : ℕ → ℕ
  pub set_tls_base : ℕ → Bool

-- `ready` holds the heap and tls_main; `aborted` holds what was written to the console.
pub data Started : Type 0 where
  ready : Heap → ℕ → Started
  aborted : List ℕ → Started

-- A message, then `abort()`.
unfoldable pub fail : List ℕ → Started
fail message = aborted (message ++ bytes "Aborted\n")

unfoldable pub nolibc_init : Services → ℕ → ℕ → Started
unfolding fail init_heap
nolibc_init s heap_start heap_size =
    let (tls_main, h) = s.calloc s.tls_size 1 (init_heap heap_start heap_size) in
    if tls_main == 0
    then fail (bytes "TLS alloc failed\n")
    else if s.tls_init tls_main
    then (if s.set_tls_base (s.tls_tp_offset tls_main)
        then ready h tls_main
        else fail (bytes "TLS set failed\n"))
    else fail (bytes "TLS init failed\n")

-- The heap after a run of requests to `sbrk`.
abbrev pub after : List (ℕ × ℕ) → Heap → Heap
after [] h = h
after ((sp, increment) ∷ rest) h = after rest (sbrk sp increment h).1

-- dlmalloc moves the break through `sbrk` alone (its HAVE_MMAP is 0).
abbrev pub UsesBreak : Services → Type 0
UsesBreak s =
    (n size : ℕ) (h : Heap) → (requests : List (ℕ × ℕ)) × ((s.calloc n size h).1 ≡ after requests h)

sbrk-bounds :
    (sp increment : ℕ) (h : Heap)
    → let h' = (sbrk sp increment h).1 in
      (h'.start ≡ h.start) × (h'.end ≡ h.end) × (h'.guard_size ≡ h.guard_size)
unfolding sbrk
sbrk-bounds sp increment h =
    elim (Bool-cases (
      let brk = (h.cur + increment) % 2 ^ 64 in
      leb ((sp + 2 ^ 64 - h.guard_size) % 2 ^ 64) brk || leb h.end brk || ltb brk h.start)) [
        | inl refused ↦ rw refused (refl, refl, refl)
        | inr fine ↦ rw fine (refl, refl, refl)
      ]

-- Requests move the break and nothing else, and it stays in the heap.
after-IsValid :
    (requests : List (ℕ × ℕ)) (h : Heap)
    → IsValid h
    → let h' = after requests h in
      IsValid h' × (h'.start ≡ h.start) × (h'.end ≡ h.end) × (h'.guard_size ≡ h.guard_size)
after-IsValid [] h v = (v, refl, refl, refl)
after-IsValid ((sp, increment) ∷ rest) h v =
    let (v', start, end, guard) =
      after-IsValid rest (sbrk sp increment h).1 (sbrk-IsValid sp increment h v) in
    let (start', end', guard') = sbrk-bounds sp increment h in
    (v', start ∙ start', end ∙ end', guard ∙ guard')

Ascending-lower :
    (low low' end : ℕ) (blocks : List (ℕ × ℕ))
    → low ≤ low'
    → Ascending low' end blocks
    → Ascending low end blocks
Ascending-lower low low' end [] le asc = omega arith
Ascending-lower low low' end ((p, size) ∷ rest) le asc = (omega (arith, asc.0), asc.1)

-- The guard is 1 MB, or half of a smaller heap.
abbrev pub IsGuard : ℕ → ℕ → Type 0
IsGuard heap_size guard =
    (0x100000 ≤ heap_size) × (guard ≡ 0x100000) ⊎ (heap_size < 0x100000) × (guard ≡ heap_size / 2)

-- The three things that solo5 and the allocator granted.
ready_inverse :
    (s : Services) (heap_start heap_size : ℕ) (h : Heap) (tls : ℕ)
    → nolibc_init s heap_start heap_size ≡ ready h tls
    → (s.calloc s.tls_size 1 (init_heap heap_start heap_size) ≡ (tls, h))
      × (0 < tls)
      × (s.tls_init tls ≡ true)
      × (s.set_tls_base (s.tls_tp_offset tls) ≡ true)
unfolding nolibc_init
ready_inverse s heap_start heap_size h tls e = ground arith

-- When `_nolibc_init` ends ready, with a heap that is not empty and ends by 2 ^ 63, and an allocator
-- that moves the break through `sbrk` alone, solo5 has accepted the storage of the main thread and
-- its offset, the guard below the stack is 1 MB or half of a smaller heap, and the blocks that `sbrk`
-- grants to later requests that grow the heap ascend between `heap_start` and `heap_start` +
-- `heap_size`.
pub nolibc_init-Ascending :
    (s : Services) (break : UsesBreak s) (heap_start heap_size : ℕ) (h : Heap) (tls : ℕ)
    (requests : List (ℕ × ℕ))
    → 0 < heap_size
    → heap_start + heap_size ≤ 2 ^ 63
    → AllGrow requests
    → nolibc_init s heap_start heap_size ≡ ready h tls
    → (0 < tls)
      × (s.tls_init tls ≡ true)
      × (s.set_tls_base (s.tls_tp_offset tls) ≡ true)
      × IsGuard heap_size h.guard_size
      × Ascending heap_start (heap_start + heap_size) (granted requests h)
unfolding init_heap
nolibc_init-Ascending s break heap_start heap_size h tls requests some_ half grow e =
    let (got, block, accepted, based) = ready_inverse s heap_start heap_size h tls e in
    let start = init_heap heap_start heap_size in
    let (calls, moved) = break s.tls_size 1 start in
    let same : h ≡ after calls start = sym (ap (λ r. r.1) got) ∙ moved in
    let (v, first, last, guard) =
      after-IsValid calls start (init_heap-IsValid heap_start heap_size some_ (omega arith)) in
    let valid : IsValid h = subst IsValid (sym same) v in
    let first' : h.start ≡ heap_start = ap (λ h. h.start) same ∙ first in
    let last' : h.end ≡ heap_start + heap_size = ap (λ h. h.end) same ∙ last ∙ omega arith in
    let guard' : h.guard_size ≡ (if leb 0x100000 heap_size then 0x100000 else heap_size / 2) =
      ap (λ h. h.guard_size) same ∙ guard in
    (
      block,
      accepted,
      based,
      ground arith,
      subst (λ end. Ascending heap_start end (granted requests h)) last'
          (Ascending-lower heap_start h.cur h.end (granted requests h)
            (omega (arith, valid.above, first'))
            (granted-Ascending requests h valid (omega arith) grow)),
    )
