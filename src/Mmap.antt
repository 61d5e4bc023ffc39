-- ===== src/Mmap.antt =====
-- nolibc/mmap.c over the allocator (dlmalloc), which is a parameter; the protection and the length
-- that `munmap` gets are not used there.
pub mod Tests
use ocaml_solo.Prelude.{
  ℕ, ◌-◌, ◌%◌, ◌^◌, ◌≢◌, ◌<◌, ◌≡◌, ◌⊎◌, ◌↔◌, inl, inr, refl, ap, Bool, true, false, not, ◌||◌,
  Option, none, some, List, arith, ◌==◌, if◌then◌else◌, bit_and, bit_and_mask,
}
use ocaml_solo.Prelude.Int.{ℤ, pos, negsuc}
use ocaml_solo.Prelude.Text.{bytes}
use ocaml_solo.System.{World, Outcome, returned, stopped, emit, abort, einval}

-- posix_memalign with its alignment and its size, and free, on the allocator's own state; `none`
-- is an error, which leaves the caller's pointer alone.
pub record Allocator (H : Type 0) : Type 0 where
  pub posix_memalign : ℕ → ℕ → H → Option ℕ × H
  pub free : ℕ → H → H

-- What posix_memalign documents: the block is aligned and is not at NULL.
pub record IsAligning {H : Type 0} (a : Allocator H) : Type 0 where
  pub aligned :
      (alignment size : ℕ) (h : H) {p : ℕ}
      → (a.posix_memalign alignment size h).0 ≡ some p
      → (p % alignment ≡ 0) × (0 < p)

-- `MAP_FAILED`, that is `(void *)-1`.
abbrev pub map_failed : ℕ
map_failed = 2 ^ 64 - 1

-- The pointer after posix_memalign, which was NULL before.
unfoldable pub pointer : Option ℕ → ℕ
pointer none = 0
pointer (some p) = p

-- The last test of `mmap`.
unfoldable pub or_failed : ℕ → ℕ
or_failed ptr = if ptr == 0 then map_failed else ptr

unfoldable pub is_minus_one : ℤ → Bool
is_minus_one (pos n) = false
is_minus_one (negsuc n) = n == 0

unfoldable pub mmap : {H : Type 0} → Allocator H → ℕ → ℕ → ℕ → ℤ → ℕ → World → H → Outcome ℕ × H
unfolding emit abort pointer or_failed is_minus_one
mmap alloc addr len flags fildes off w h =
    if not (is_minus_one fildes)
    then (abort (emit (bytes "mmap: file descriptor is unsupported.\n") w), h)
    else if bit_and flags 0x20 == 0 || not (off == 0)
    then (abort (emit (bytes "mmap: only MAP_ANONYMOUS (and offset is 0) is supported.\n") w), h)
    else if addr == 0
    then (let (ptr, h') = alloc.posix_memalign 4096 len h in
        (returned (or_failed (pointer ptr)) w, h'))
    else if not (bit_and flags 0x10 == 0)
    then (returned addr w, h)
    else (returned map_failed (record w { errno = einval }), h)

-- `==` binds tighter than `&` in C, so the test of `munmap` is `addr & (4096 != 0)`.
unfoldable pub munmap : {H : Type 0} → Allocator H → ℕ → World → H → ℤ × World × H
munmap alloc addr w h =
    if not (bit_and addr (if 4096 == 0 then 0 else 1) == 0)
    then (negsuc 0, record w { errno = einval }, h)
    else (pos 0, w, alloc.free addr h)

-- A mapping without an address, when it is granted, is page-aligned and not NULL, and `munmap`
-- gives exactly that block back to the allocator and reports success; the console and errno are
-- left alone by both.
pub mmap-munmap :
    {H : Type 0} (alloc : Allocator H) (law : IsAligning alloc) (len flags : ℕ) (w : World) (h : H)
    {p : ℕ}
    → (bit_and flags 0x20 == 0) ≡ false
    → (alloc.posix_memalign 4096 len h).0 ≡ some p
    → let h' = (alloc.posix_memalign 4096 len h).1 in
      (mmap alloc 0 len flags (negsuc 0) 0 w h ≡ (returned p w, h'))
      × (p % 4096 ≡ 0)
      × (0 < p)
      × (munmap alloc p w h' ≡ (pos 0, w, alloc.free p h'))
unfolding mmap munmap or_failed pointer
mmap-munmap alloc law len flags w h {p} anonymous granted =
    let (page, some_) = law.aligned 4096 len h granted in
    let even : bit_and p 1 ≡ 0 = rw (bit_and_mask 1 p) (omega arith) in
    (
      rw (anonymous, granted)
          (ap (λ q. (returned q w, (alloc.posix_memalign 4096 len h).1)) (ground arith)),
      page,
      some_,
      rw even refl,
    )

-- `munmap` rejects an odd address with EINVAL and frees nothing; any other address it gives to free,
-- page-aligned or not, and reports success with errno left alone.
pub munmap_lem :
    {H : Type 0} (alloc : Allocator H) (addr : ℕ) (w : World) (h : H)
    → (addr % 2 ≡ 1) × (munmap alloc addr w h ≡ (negsuc 0, record w { errno = einval }, h))
      ⊎ (addr % 2 ≡ 0) × (munmap alloc addr w h ≡ (pos 0, w, alloc.free addr h))
unfolding munmap
munmap_lem alloc addr w h = rw (bit_and_mask 1 addr) (ground arith)
