-- ===== src/Sbrk.antt =====
-- nolibc/sysdeps_solo5.c: the heap that `_nolibc_init` sets up and `sbrk` grows.
pub mod Tests
pub mod Init
use ocaml_solo.Prelude.{
  ℕ, zero, suc, ◌+◌, ◌-◌, ◌*◌, ◌/◌, ◌%◌, ◌^◌, ◌≤◌, ◌<◌, ◌≡◌, ◌⊎◌, inl, inr, refl, sym, Bool, true,
  false, ◌||◌, Option, none, some, List, [], ◌∷◌, arith, leb, ltb, if◌then◌else◌, Bool-cases,
}
use mathlib.Core.Path.{subst}

-- The static variables sbrk_start, sbrk_end, sbrk_cur and sbrk_guard_size.
pub record Heap : Type 0 where
  pub start : ℕ
  pub end : ℕ
  pub cur : ℕ
  pub guard_size : ℕ

-- The assignments at the start of `_nolibc_init`.
unfoldable pub init_heap : ℕ → ℕ → Heap
init_heap heap_start heap_size = record {
  start = heap_start;
  end = (heap_start + heap_size) % 2 ^ 64;
  cur = heap_start;
  guard_size = if leb 0x100000 heap_size then 0x100000 else heap_size / 2;
}

-- `sp` is the address of the local `prev`, and `increment` the bit pattern of the intptr_t;
-- `none` is `(void *)-1`.
unfoldable pub sbrk : ℕ → ℕ → Heap → Option ℕ × Heap
sbrk sp increment h =
    let max = (sp + 2 ^ 64 - h.guard_size) % 2 ^ 64 in
    let brk = (h.cur + increment) % 2 ^ 64 in
    if leb max brk || leb h.end brk || ltb brk h.start
    then (none, h)
    else (some h.cur, record h { cur = brk })

-- The break lies in the heap.
pub record IsValid (h : Heap) : Type 0 where
  pub above : h.start ≤ h.cur
  pub below : h.cur < h.end
  pub fits : h.end < 2 ^ 64

-- A heap that is not empty and does not wrap starts out with its break in it.
pub init_heap-IsValid :
    (heap_start heap_size : ℕ)
    → 0 < heap_size
    → heap_start + heap_size < 2 ^ 64
    → IsValid (init_heap heap_start heap_size)
unfolding init_heap
init_heap-IsValid heap_start heap_size some_ fits = ground arith

-- `sbrk` never moves the break out of the heap, also for an increment that is negative or that
-- wraps.
pub sbrk-IsValid : (sp increment : ℕ) (h : Heap) → IsValid h → IsValid (sbrk sp increment h).1
unfolding sbrk
sbrk-IsValid sp increment h v = ground arith

-- In a valid heap that ends by 2 ^ 63, a request that grows it and is granted, with the stack
-- pointer at or above the guard size, returns the old break; the new break is behind the block, in
-- the heap, and more than the guard below the stack.
pub sbrk_grows :
    (sp increment : ℕ) (h : Heap) {p : ℕ}
    → IsValid h
    → increment < 2 ^ 63
    → h.guard_size ≤ sp
    → sp < 2 ^ 64
    → h.end ≤ 2 ^ 63
    → (sbrk sp increment h).0 ≡ some p
    → (p ≡ h.cur)
      × ((sbrk sp increment h).1.cur ≡ p + increment)
      × (p + increment < h.end)
      × (p + increment + h.guard_size < sp)
unfolding sbrk
sbrk_grows sp increment h v small guard stack half e = ground arith

unfoldable pub keep : Option ℕ → ℕ → List (ℕ × ℕ) → List (ℕ × ℕ)
keep none increment blocks = blocks
keep (some p) increment blocks = (p, increment) ∷ blocks

-- A run of requests, each with the stack pointer at its call: the blocks that were granted.
unfoldable pub granted : List (ℕ × ℕ) → Heap → List (ℕ × ℕ)
granted [] h = []
granted ((sp, increment) ∷ rest) h =
    let (result, h') = sbrk sp increment h in keep result increment (granted rest h')

-- Each block begins at or behind the end of the one before, and the last ends before `end`.
abbrev pub Ascending : ℕ → ℕ → List (ℕ × ℕ) → Type 0
Ascending low end [] = low < end
Ascending low end ((p, size) ∷ rest) = (low ≤ p) × Ascending (p + size) end rest

abbrev pub AllGrow : List (ℕ × ℕ) → Type 0
AllGrow [] = Unit {0}
AllGrow ((sp, increment) ∷ rest) = (increment < 2 ^ 63) × AllGrow rest

-- A request that grows the heap is refused, or moves the break by what it asks for.
sbrk_cases :
    (sp increment : ℕ) (h : Heap)
    → IsValid h
    → h.end ≤ 2 ^ 63
    → increment < 2 ^ 63
    → (sbrk sp increment h ≡ (none, h))
      ⊎ (sbrk sp increment h ≡ (some h.cur, record h { cur = h.cur + increment }))
        × (h.cur + increment < h.end)
unfolding sbrk
sbrk_cases sp increment h v half small =
    let brk : (h.cur + increment) % 2 ^ 64 ≡ h.cur + increment = let b = v.below in omega arith in
    rw brk
      (elim (Bool-cases (
        leb ((sp + 2 ^ 64 - h.guard_size) % 2 ^ 64) (h.cur + increment)
        || leb h.end (h.cur + increment)
        || ltb (h.cur + increment) h.start)) [
          | inl refused ↦ inl (rw refused)
          | inr fine ↦ inr (rw fine, ground arith)
        ])

-- Whatever the stack does between the requests, the blocks that `sbrk` grants to a run of
-- requests that grow a heap below 2 ^ 63 do not overlap, ascend from the break, and end before the
-- end of the heap.
pub granted-Ascending :
    (requests : List (ℕ × ℕ)) (h : Heap)
    → IsValid h
    → h.end ≤ 2 ^ 63
    → AllGrow requests
    → Ascending h.cur h.end (granted requests h)
unfolding granted keep
granted-Ascending [] h v half grow = v.below
granted-Ascending ((sp, increment) ∷ rest) h v half grow =
    elim (sbrk_cases sp increment h v half grow.0) [
      | inl refused ↦
          subst (λ r. Ascending h.cur h.end (keep r.0 increment (granted rest r.1))) (sym refused)
            (granted-Ascending rest h v half grow.1)
      | inr (taken, fits) ↦
          let v' : IsValid (record h { cur = h.cur + increment }) =
            let a = v.above in
            let f = v.fits in record { above = omega arith; below = fits; fits = f } in
          subst (λ r. Ascending h.cur h.end (keep r.0 increment (granted rest r.1))) (sym taken)
            (
              omega arith,
              granted-Ascending rest (record h { cur = h.cur + increment }) v' half grow.1,
            )
    ]
