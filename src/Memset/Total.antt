-- ===== src/Memset/Total.antt =====
-- What `memset` leaves in memory.
use ocaml_solo.Memset.Filled.{IsFilled, full, start, head_write, tail_write}
use ocaml_solo.Memset.Words.{and_minus_four, words_filled}
use ocaml_solo.Memset.{fill_bytes, memset_words, memset}
use ocaml_solo.Prelude.{
  ℕ, ◌+◌, ◌-◌, ◌/◌, ◌%◌, ◌*◌, ◌^◌, ◌≤◌, ◌<◌, ◌≡◌, inl, inr, arith, leb, ltb, ◌==◌, ◌&&◌, Bool-cases,
  if◌then◌else◌, bit_and, bit_and_mask,
}
use ocaml_solo.Memory.{Memory}

-- From 9 bytes on, with 4 bytes written at both ends.
aligned :
    (m : Memory) (d c n : ℕ) (m' : Memory)
    → n < 2 ^ 64
    → d < 2 ^ 64
    → 9 ≤ n
    → IsFilled m d n (c % 256) 4 4 m'
    → let k = bit_and ((2 ^ 64 - d) % 2 ^ 64) 3 in
      IsFilled m d n
        (c % 256)
        n
        n
        (memset_words (c % 256) (d + k) (bit_and (n - k) (2 ^ 64 - 4)) m')
aligned m d c n m' hn hd big f =
    let mask : bit_and ((2 ^ 64 - d) % 2 ^ 64) 3 ≡ (2 ^ 64 - d) % 2 ^ 64 % 4 =
      bit_and_mask 2 ((2 ^ 64 - d) % 2 ^ 64) in
    let k = (2 ^ 64 - d) % 2 ^ 64 % 4 in
    let cut = and_minus_four (n - k) (omega arith) in
    rw (mask, cut)
      (words_filled (omega arith) (d + k) ((n - k) / 4 * 4) 4 4 (omega arith) (omega arith)
        (omega arith) (omega arith) (omega arith) (omega arith) (omega arith) f)

memset-IsFilled :
    (m : Memory) (d c n : ℕ)
    → n < 2 ^ 64
    → d < 2 ^ 64
    → IsFilled m d n (c % 256) n n (memset m d c n)
unfolding memset fill_bytes
memset-IsFilled m d c n hn hd = elim (Bool-cases (n == 0)) [
  | inl none_ ↦ rw none_ (full (start m d n (c % 256)) (ground arith))
  | inr some_ ↦
      let f1 = tail_write (start m d n (c % 256)) (d + n - 1) (ground arith) (ground arith) in
      let f2 = head_write f1 d (omega arith) (ground arith) in
      rw some_ (elim (Bool-cases (leb n 2)) [
        | inl e2 ↦ rw e2 (full f2 (ground arith))
        | inr e2 ↦
            let big2 : 3 ≤ n = ground arith in
            let f3 = tail_write f2 (d + n - 2) (omega arith) (omega arith) in
            let f4 = head_write f3 (d + 1) (omega arith) (omega arith) in
            let f5 = tail_write f4 (d + n - 3) (omega arith) (omega arith) in
            let f6 = head_write f5 (d + 2) (omega arith) (omega arith) in
            rw e2 (elim (Bool-cases (leb n 6)) [
              | inl e6 ↦ rw e6 (full f6 (ground arith))
              | inr e6 ↦
                  let big6 : 7 ≤ n = ground arith in
                  let f7 = tail_write f6 (d + n - 4) (omega arith) (omega arith) in
                  let f8 = head_write f7 (d + 3) (omega arith) (omega arith) in
                  rw e6 (elim (Bool-cases (leb n 8)) [
                    | inl e8 ↦ rw e8 (full f8 (ground arith))
                    | inr e8 ↦ rw e8 (aligned m d c n _ hn hd (ground arith) f8)
                  ])
            ])
      ])
]

-- `memset` sets the `n` bytes at `dest` to `c` converted to unsigned char and leaves every other
-- byte alone, whatever the alignment and the size.
pub memset_lem :
    (m : Memory) (dest c n : ℕ)
    → n < 2 ^ 64
    → dest < 2 ^ 64
    → (b : ℕ) → memset m dest c n b ≡ (if leb dest b && ltb b (dest + n) then c % 256 else m b)
memset_lem m dest c n hn hd b =
    let f = memset-IsFilled m dest c n hn hd in ground (arith, f.head b, f.outside b)
