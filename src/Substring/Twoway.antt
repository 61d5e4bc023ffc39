-- ===== src/Substring/Twoway.antt =====
-- twoway_strstr of nolibc/strstr.c.
pub mod Suffixes
pub mod Period
pub mod Shifts
pub mod Rounds
pub mod Total
pub mod Tests
use ocaml_solo.Prelude.{
  ℕ, zero, suc, ◌+◌, ◌-◌, ◌*◌, ◌%◌, ◌^◌, Bool, true, false, not, ◌&&◌, ◌||◌, Option, none, some,
  leb, ltb, ◌==◌, if◌then◌else◌, ◌>>=◌, while, bit_or, max,
}
use ocaml_solo.Prelude.Int.{ℤ, pos, negsuc}
use ocaml_solo.Memory.{Memory}
use ocaml_solo.Search.{memchr}
use ocaml_solo.Compare.{memcmp}

-- The length of the needle, and the tables: the bits that BITOP sets in `byteset` are a test on bytes.
pub record Tables : Type 0 where
  pub l : ℕ
  pub byteset : ℕ → Bool
  pub shift : ℕ → ℕ

abbrev pub table_more : Memory → ℕ → ℕ → Tables → Bool
table_more m h n t = not (m (n + t.l) == 0) && not (m (h + t.l) == 0)

abbrev pub table_step : Memory → ℕ → Tables → Tables
table_step m n t = record {
  l = t.l + 1;
  byteset = λ b. b == m (n + t.l) || t.byteset b;
  shift = λ b. if b == m (n + t.l) then t.l + 1 else t.shift b;
}

-- The variables of the search for a maximal suffix; -1 is 2 ^ 64 - 1.
pub record Suffix : Type 0 where
  pub ip : ℕ
  pub jp : ℕ
  pub k : ℕ
  pub p : ℕ

abbrev pub suffix_start : Suffix
suffix_start = record { ip = 2 ^ 64 - 1; jp = 0; k = 1; p = 1 }

abbrev pub suffix_more : ℕ → Suffix → Bool
suffix_more l s = ltb (s.jp + s.k) l

-- `after` is `>` in the first search and `<` in the second.
unfoldable pub suffix_step : (ℕ → ℕ → Bool) → Memory → ℕ → Suffix → Suffix
suffix_step after m n s =
    let a = m (n + (s.ip + s.k) % 2 ^ 64) in
    let b = m (n + (s.jp + s.k)) in
    if a == b
    then if s.k == s.p then record s { jp = s.jp + s.p; k = 1 } else record s { k = s.k + 1 }
    else if after a b
    then record s { jp = s.jp + s.k; k = 1; p = (s.jp + s.k + 2 ^ 64 - s.ip) % 2 ^ 64 }
    else record { ip = s.jp; jp = s.jp + 1; k = 1; p = 1 }

-- What the search loop knows of the needle.
pub record Needle : Type 0 where
  pub tables : Tables
  pub ms : ℕ
  pub p : ℕ
  pub mem0 : ℕ

unfoldable pub aperiodic : Tables → ℕ → Needle
aperiodic t ms = record {
  tables = t;
  ms = ms;
  p = (max ms ((t.l + 2 ^ 64 - ms - 1) % 2 ^ 64) + 1) % 2 ^ 64;
  mem0 = 0;
}

-- If the needle is periodic.
unfoldable pub with_period : Memory → ℕ → Tables → ℕ → ℕ → Needle
unfolding memcmp aperiodic
with_period m n t ms p = elim (memcmp m n (n + p) ((ms + 1) % 2 ^ 64)) [
  | pos zero ↦ record { tables = t; ms = ms; p = p; mem0 = t.l - p }
  | pos (suc d) ↦ aperiodic t ms
  | negsuc d ↦ aperiodic t ms
]

-- The later one of the two suffixes.
unfoldable pub factorize : Memory → ℕ → Tables → Suffix → Suffix → Needle
unfolding with_period
factorize m n t s s' =
    if ltb ((s.ip + 1) % 2 ^ 64) ((s'.ip + 1) % 2 ^ 64)
    then with_period m n t s'.ip s'.p
    else with_period m n t s.ip s.p

-- The end-of-haystack pointer; NULL is returned where the inner result is `none`.
unfoldable pub update_end : ℕ → Memory → ℕ → ℕ → ℕ → Option (Option ℕ)
unfolding memchr
update_end fuel m l h z =
    if ltb ((z + 2 ^ 64 - h) % 2 ^ 64) l
    then (memchr fuel m z 0 (bit_or l 63) >>= λ z2. some (moved z2))
    else some (some z)
  where
    moved : Option ℕ → Option ℕ
    moved (some z2) = if ltb ((z2 + 2 ^ 64 - h) % 2 ^ 64) l then none else some z2
    moved none = some (z + bit_or l 63)

-- One round of the search loop ends with a result, or with the next `h` and `mem`.
pub data Turn : Type 0 where
  found : Turn
  again : ℕ → ℕ → Turn

abbrev pub right_more : Memory → ℕ → ℕ → ℕ → Bool
right_more m n h k = not (m (n + k) == 0) && m (n + k) == m (h + k)

abbrev pub left_more : Memory → ℕ → ℕ → ℕ → ℕ → Bool
left_more m n h mem k = ltb mem k && m (n + (k - 1)) == m (h + (k - 1))

unfoldable pub compare : ℕ → Memory → ℕ → Needle → ℕ → ℕ → Option Turn
unfolding while
compare fuel m n nd h mem = do
  k ← while fuel (right_more m n h) (λ k. k + 1) (max ((nd.ms + 1) % 2 ^ 64) mem)
  k' ← while fuel (left_more m n h mem) (λ k. k - 1) ((nd.ms + 1) % 2 ^ 64)
  some (
      if not (m (n + k) == 0)
      then again (h + (k + 2 ^ 64 - nd.ms) % 2 ^ 64) 0
      else if leb k' mem
      then found
      else again (h + nd.p) nd.mem0)

unfoldable pub turn : ℕ → Memory → ℕ → Needle → ℕ → ℕ → Option Turn
unfolding compare
turn fuel m n nd h mem =
    let l = nd.tables.l in
    let c = m (h + (l - 1)) in
    let k = l - nd.tables.shift c in
    let compared = compare fuel m n nd h mem in
    let k' = if not (nd.mem0 == 0) && not (mem == 0) && ltb k nd.p then l - nd.p else k in
    if nd.tables.byteset c
    then if k == 0 then compared else some (again (h + k') 0)
    else some (again (h + l) 0)

-- The search loop.
unfoldable pub search : ℕ → ℕ → Memory → ℕ → Needle → ℕ → ℕ → ℕ → Option (Option ℕ)
unfolding update_end turn
search zero fuel m n nd h z mem = none
search (suc rounds) fuel m n nd h z mem = do
  end ← update_end fuel m nd.tables.l h z
  elim end [
    | none ↦ some none
    | some z ↦ turn fuel m n nd h mem >>= λ t. elim t [
      | found ↦ some (some h)
      | again h mem ↦ search rounds fuel m n nd h z mem
    ]
  ]

-- From the tables to the search loop.
unfoldable pub prepare : ℕ → Memory → ℕ → Tables → Option Needle
unfolding while suffix_step factorize
prepare fuel m n t = do
  s ← while fuel (suffix_more t.l) (suffix_step (λ a b. ltb b a) m n) suffix_start
  s' ← while fuel (suffix_more t.l) (suffix_step ltb m n) suffix_start
  some (factorize m n t s s')

-- `shift` is what the array on the stack holds before it is written.
unfoldable pub twoway_strstr : (ℕ → ℕ) → ℕ → Memory → ℕ → ℕ → Option (Option ℕ)
unfolding while prepare search
twoway_strstr shift fuel m h n =
    while fuel (table_more m h n) (table_step m n)
      (record { l = 0; byteset = λ b. false; shift = shift })
    >>= λ t.
        if m (n + t.l) == 0
        then (prepare fuel m n t >>= λ nd. search fuel fuel m n nd h h 0)
        else some none
