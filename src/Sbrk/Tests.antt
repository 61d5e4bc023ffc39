-- ===== src/Sbrk/Tests.antt =====
-- Runs of `sbrk` and of `_nolibc_init`.
use ocaml_solo.Prelude.{◌≡◌, ◌+◌, ◌*◌, ◌-◌, ◌^◌, ◌<◌, refl, true, none, [], ◌∷◌, arith}
use ocaml_solo.Sbrk.{Heap, sbrk, IsValid, sbrk-IsValid, granted, Ascending, granted-Ascending}
use ocaml_solo.Sbrk.Init.{Services, ready, nolibc_init, IsGuard, nolibc_init-Ascending}

abbrev heap : Heap
heap = record { start = 0x200000; end = 0x400000; cur = 0x200000; guard_size = 0x100000 }

heap-IsValid : IsValid heap
heap-IsValid = record { above = omega arith; below = omega arith; fits = omega arith }

-- A shrink below the start of the heap is refused.
sbrk_below : (sbrk 0x800000 (2 ^ 64 - 16) heap).0 ≡ none
unfolding sbrk
sbrk_below = refl

sbrk-IsValid_example : IsValid (sbrk 0x800000 (2 ^ 64 - 16) heap).1
sbrk-IsValid_example = sbrk-IsValid 0x800000 (2 ^ 64 - 16) heap heap-IsValid

granted_example :
    Ascending heap.cur heap.end
      (granted ((0x800000, 4096) ∷ (0x100000, 16) ∷ (0x800000, 32) ∷ []) heap)
granted_example =
    granted-Ascending ((0x800000, 4096) ∷ (0x100000, 16) ∷ (0x800000, 32) ∷ []) heap heap-IsValid
      (omega arith) (omega arith, (omega arith, (omega arith, tt)))

-- An allocator that takes what is asked for from the break.
abbrev services : Services
services = record {
  calloc = λ n size h. (h.cur, (sbrk 0x800000 (n * size) h).1);
  tls_size = 64;
  tls_init = λ a. true;
  tls_tp_offset = λ a. a + 64;
  set_tls_base = λ a. true;
}

nolibc_init_run :
    nolibc_init services 0x200000 0x200000 ≡ ready (record heap { cur = 0x200040 }) 0x200000
unfolding nolibc_init sbrk
nolibc_init_run = refl

nolibc_init_example :
    (0 < 0x200000)
    × (services.tls_init 0x200000 ≡ true)
    × (services.set_tls_base (services.tls_tp_offset 0x200000) ≡ true)
    × IsGuard 0x200000 0x100000
    × Ascending 0x200000
        (0x200000 + 0x200000)
        (granted ((0x800000, 4096) ∷ (0x100000, 16) ∷ []) (record heap { cur = 0x200040 }))
nolibc_init_example =
    nolibc_init-Ascending services (λ n size h. ((0x800000, n * size) ∷ [], refl)) 0x200000 0x200000
      (record heap { cur = 0x200040 }) 0x200000 ((0x800000, 4096) ∷ (0x100000, 16) ∷ [])
      (omega arith) (omega arith) (omega arith, (omega arith, tt)) nolibc_init_run
