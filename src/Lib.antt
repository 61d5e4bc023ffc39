-- ===== src/Lib.antt =====
-- nolibc, the C library that the OCaml runtime stands on in a Solo5 unikernel.
--
-- The program. The directory nolibc holds a small libc: the memory and string functions, formatted
-- output, number parsing, the heap below dlmalloc, mmap over the allocator, the console and the
-- clock over the calls of solo5, and stubs for what a unikernel cannot do. The OCaml runtime calls
-- these functions. They call one another as follows: strnlen, memchr, strchrnul and strlen share
-- the test for a zero byte in a word; strchr is strchrnul and one test; memmove goes to memcpy where
-- the two regions do not overlap; _assert_fail, mmap and the stubs end in abort, which writes to the
-- console; _nolibc_init sets up the heap that sbrk grows for dlmalloc, and mmap and munmap are calls
-- of posix_memalign and free.
--
-- The files.
--   Prelude        numbers, Boolean tests, the laws of the bit operations (Prelude/Bits), `while` on
--                  fuel with its rule of total correctness (Prelude/Loop)
--   Memory         the flat byte memory: an address is a number below 2 ^ 64; loads and stores of
--                  words are little-endian, as on the two machines that the headers admit
--   ZeroByte       ONES, HIGHS and HASZERO of nolibc/strlen.c and the files that repeat them
--   Length         nolibc/strlen.c and nolibc/strnlen.c
--   Search         nolibc/memchr.c, nolibc/strchrnul.c and nolibc/strchr.c
--   Substring      nolibc/strstr.c: the searches for needles of up to four bytes, and
--                  Substring/Twoway the two-way search, with Suffixes and Period (its maximal
--                  suffixes), Shifts (what is known of the needle), Rounds (one round) and Total
--   Compare        nolibc/memcmp.c, nolibc/strcmp.c and nolibc/strncmp.c
--   Memset         nolibc/memset.c, with its overlapping stores
--   Memcpy         nolibc/memcpy.c, with the three shifted copies of the switch as one definition
--   Memmove        nolibc/memmove.c, in both directions
--   Strncpy        nolibc/stpncpy.c and nolibc/strncpy.c
--   Ctype          nolibc/ctype.c
--   Strtol         nolibc/strtol.c: Strtol holds the loop, Strtol/Parse what is around it
--   Bigint         the arithmetic on big numbers of nolibc/dtoa.c: Multadd, Mult, Compare (cmp), Diff,
--                  Shift (lshift), Right (rshift, increment), Quorem, Pow5, Decimal (s2b) and Sticky
--                  (any_on); Leading and Trailing (hi0bits, lo0bits), Double (d2b) and Fraction (b2d)
--                  on the words of a double; Words is the number that a list of words stands for
--   Sbrk           the heap of nolibc/sysdeps_solo5.c; Sbrk/Init is _nolibc_init
--   System         the console, exit, abort and gettimeofday of nolibc/sysdeps_solo5.c, and
--                  nolibc/puts.c, nolibc/assert.c and nolibc/sysconf.c; System/Clock is `times`
--   Mmap           nolibc/mmap.c
--   Stubs          the macros of nolibc/stubs.c; Stubs/Table lists their uses, Stubs/Run the calls
--   Format         fmt_x, fmt_o, fmt_u and pad of nolibc/vfprintf.c
--   Printf         the rest of nolibc/vfprintf.c: Table (the state machine of the specifiers),
--                  Argument (pop_arg), Directive (flags, width, precision), Convert and Flags (the
--                  conversions), Field (a field with its padding), Core (printf_core in both passes);
--                  Specifiers is the machine against what each modifier and letter ask for;
--                  Buffer is nolibc/vsnprintf.c, and Callers the three functions that take `...`.
--                  Printf/Render compares the output with the text that a format and its arguments
--                  describe
--   Strerror       nolibc/strerror_r.c over the table of nolibc/errlist.c
--
-- The correspondence. A Bigint is the list of its words in use, the lowest first, and its other
-- fields; where the source changes one in place, the definition returns the new one. A double is its
-- two words. A C function has a definition of its name. Pointers are addresses, and a loop over
-- pointers keeps a record of the local variables that it changes. Memory, console, errno and static
-- variables are passed along and returned. A FILE is a type of its own with the function that takes
-- the bytes written to it. The arguments of a variable list are 64-bit numbers, and an array that is
-- not initialised is an argument. size_t and uintptr_t arithmetic that may wrap is written with
-- `% 2 ^ 64`. A call that does not return is an outcome of its own.
--
-- Fuel. The loops of C take a number of rounds, and running out of it is `none`. Each theorem says
-- how much is enough: one more than the bytes that the loop may pass, or than the digits that a
-- 64-bit number may have.
--
-- Parameters. dlmalloc (calloc, posix_memalign and free), the clocks and the thread-local storage of
-- solo5 are arguments; the only laws that theorems take of them are that a block of posix_memalign is
-- aligned and not NULL, and that calloc moves the break through sbrk alone.
--
-- Not modelled. openlibm and nolibc/dlmalloc.i are copies of other projects' code. strtod of
-- nolibc/dtoa.c and fmt_fp of nolibc/vfprintf.c work on the floating-point numbers of the machine: a
-- run of vfprintf that comes to such a conversion ends there, as an outcome of its own; of strtod, the
-- big numbers are modelled, without the lists of free blocks. That the two-way search
-- finds the first match, and in a periodic needle the whole of it, is not proved. Build files and
-- examples hold no logic of the library.
pub mod Bigint
pub mod Compare
pub mod Ctype
pub mod Format
pub mod Length
pub mod Memcpy
pub mod Memmove
pub mod Memory
pub mod Memset
pub mod Mmap
pub mod Prelude
pub mod Sbrk
pub mod Printf
pub mod Search
pub mod Strncpy
pub mod Strtol
pub mod Strerror
pub mod Stubs
pub mod Substring
pub mod System
pub mod ZeroByte
