-- ===== src/Mmap/Tests.antt =====
-- Runs of `mmap` and `munmap` over an allocator that hands out pages one after another.
use ocaml_solo.Prelude.{
  ℕ, ◌+◌, ◌*◌, ◌%◌, ◌<◌, ◌≡◌, ◌⊎◌, refl, none, some, [], ◌==◌, if◌then◌else◌, arith,
}
use ocaml_solo.Prelude.Int.{pos, negsuc}
use ocaml_solo.System.{World, returned, einval}
use ocaml_solo.Mmap.{Allocator, IsAligning, mmap, munmap, mmap-munmap, munmap_lem}

-- The state counts the pages handed out; only pages are served.
abbrev pages : Allocator ℕ
pages = record {
  posix_memalign =
      λ alignment size h. (if alignment == 4096 then some (4096 * (h + 1)) else none, h + 1);
  free = λ p h. h;
}

page_of :
    (alignment h : ℕ) {p : ℕ}
    → (if alignment == 4096 then some (4096 * (h + 1)) else none) ≡ some p
    → (p % alignment ≡ 0) × (0 < p)
page_of alignment h e = ground arith

pages-IsAligning : IsAligning pages
pages-IsAligning = record { aligned = λ alignment size h {p} e. page_of alignment h e }

abbrev quiet : World
quiet = record { console = []; errno = 0 }

mmap-munmap_example :
    (mmap pages 0 100 0x22 (negsuc 0) 0 quiet 4 ≡ (returned 20480 quiet, 5))
    × (20480 % 4096 ≡ 0)
    × (0 < 20480)
    × (munmap pages 20480 quiet 5 ≡ (pos 0, quiet, 5))
mmap-munmap_example = mmap-munmap pages pages-IsAligning 100 0x22 quiet 4 refl refl

munmap_example :
    (20482 % 2 ≡ 1) × (munmap pages 20482 quiet 5 ≡ (negsuc 0, record quiet { errno = einval }, 5))
    ⊎ (20482 % 2 ≡ 0) × (munmap pages 20482 quiet 5 ≡ (pos 0, quiet, 5))
munmap_example = munmap_lem pages 20482 quiet 5
