-- ===== src/Compare.antt =====
-- nolibc/memcmp.c, nolibc/strcmp.c and nolibc/strncmp.c. An `int` result is an integer: the
-- difference of two unsigned bytes always fits.
pub mod Tests
use ocaml_solo.Prelude.{
  ℕ, zero, suc, ◌+◌, ◌-◌, ◌≤◌, ◌<◌, ◌≡◌, ◌≢◌, ◌⊎◌, ◌↔◌, inl, inr, refl, ap, Bool, true, false, not,
  ◌&&◌, Option, none, some, arith, ◌==◌, if◌then◌else◌, ◌>>=◌, Bool-cases, Nat-cases,
}
use ocaml_solo.Prelude.Int.{ℤ, pos, negsuc, sub_ℕ}
use ocaml_solo.Memory.{Memory}
use ocaml_solo.Length.{IsString}

-- `for (; n && *l == *r; n--, l++, r++);`
unfoldable pub memcmp : Memory → ℕ → ℕ → ℕ → ℤ
memcmp m l r zero = pos 0
memcmp m l r (suc n) = elim (m l == m r) [
  | true ↦ memcmp m (l + 1) (r + 1) n
  | false ↦ sub_ℕ (m l) (m r)
]

-- `for (; *l == *r && *l; l++, r++);`
unfoldable pub strcmp : ℕ → Memory → ℕ → ℕ → Option ℤ
strcmp zero m l r = none
strcmp (suc fuel) m l r = elim (m l == m r && not (m l == 0)) [
  | true ↦ strcmp fuel m (l + 1) (r + 1)
  | false ↦ some (sub_ℕ (m l) (m r))
]

-- `for (; *l && *r && n && *l == *r; l++, r++, n--);`
strncmp_loop : Memory → ℕ → ℕ → ℕ → ℤ
strncmp_loop m l r zero = sub_ℕ (m l) (m r)
strncmp_loop m l r (suc n) = elim (not (m l == 0) && not (m r == 0) && m l == m r) [
  | true ↦ strncmp_loop m (l + 1) (r + 1) n
  | false ↦ sub_ℕ (m l) (m r)
]

-- `if (!n--) return 0;`
unfoldable pub strncmp : Memory → ℕ → ℕ → ℕ → ℤ
unfolding strncmp_loop
strncmp m l r zero = pos 0
strncmp m l r (suc n) = strncmp_loop m l r n

-- The two regions hold the same `k` bytes.
abbrev pub Agree : Memory → ℕ → ℕ → ℕ → Type 0
Agree m l r k = (i : ℕ) → i < k → m (l + i) ≡ m (r + i)

abbrev pub NoNul : Memory → ℕ → ℕ → Type 0
NoNul m a k = (i : ℕ) → i < k → m (a + i) ≢ 0

Agree-suc : (m : Memory) (l r k : ℕ) → m l ≡ m r → Agree m (l + 1) (r + 1) k → Agree m l r (suc k)
Agree-suc m l r k e h zero lt =
    let z : l + 0 ≡ l = omega arith in let z' : r + 0 ≡ r = omega arith in rw (z, z') e
Agree-suc m l r k e h (suc i) lt =
    let z : l + suc i ≡ l + 1 + i = omega arith in
    let z' : r + suc i ≡ r + 1 + i = omega arith in rw (z, z') (h i (omega arith))

NoNul-suc : (m : Memory) (a k : ℕ) → m a ≢ 0 → NoNul m (a + 1) k → NoNul m a (suc k)
NoNul-suc m a k e h zero lt = let z : a + 0 ≡ a = omega arith in rw z e
NoNul-suc m a k e h (suc i) lt =
    let z : a + suc i ≡ a + 1 + i = omega arith in rw z (h i (omega arith))

-- `memcmp` compares up to the first difference among the `n` bytes: 0 if there is none, else the
-- difference of the two bytes there, taken as unsigned.
pub memcmp_lem :
    (m : Memory) (l r n : ℕ)
    → (k : ℕ) × Agree m l r k
      × ((k ≡ n) × (memcmp m l r n ≡ pos 0)
          ⊎ (k < n) × (m (l + k) ≢ m (r + k)) × (memcmp m l r n ≡ sub_ℕ (m (l + k)) (m (r + k))))
unfolding memcmp
memcmp_lem m l r zero = (0, λ i lt. absurd (omega arith), inl (refl, refl))
memcmp_lem m l r (suc n) = elim (Bool-cases (m l == m r)) [
  | inl same ↦
      let (k, agree, result) = memcmp_lem m (l + 1) (r + 1) n in
      let z : l + suc k ≡ l + 1 + k = omega arith in
      let z' : r + suc k ≡ r + 1 + k = omega arith in
      (
        suc k,
        Agree-suc m l r k (ground arith) agree,
        rw (same, memcmp, z, z')
            (elim result [
              | inl (e, eq) ↦ inl (ap suc e, eq)
              | inr (lt, ne, eq) ↦ inr (omega arith, ne, eq)
            ]),
      )
  | inr other ↦
      let z : l + 0 ≡ l = omega arith in
      let z' : r + 0 ≡ r = omega arith in
      (
        0,
        λ i lt. absurd (omega arith),
        inr (omega arith, rw (z, z') (ground arith), rw (other, memcmp, z, z')),
      )
]

-- For two strings, `strcmp` stops at the first difference or at the common NUL, and returns the
-- difference of the two unsigned bytes there; more fuel than the first has bytes is enough.
pub strcmp_lem :
    (fuel : ℕ) (m : Memory) (l r n : ℕ)
    → IsString m l n
    → n < fuel
    → (k : ℕ) × Agree m l r k
      × NoNul m l k
      × (k ≤ n)
      × ((m (l + k) ≢ m (r + k)) ⊎ (m (l + k) ≡ 0) × (m (r + k) ≡ 0))
      × (strcmp fuel m l r ≡ some (sub_ℕ (m (l + k)) (m (r + k))))
unfolding strcmp
strcmp_lem zero m l r n str enough = absurd (omega arith)
strcmp_lem (suc fuel) m l r n str enough = elim (Bool-cases (m l == m r && not (m l == 0))) [
  | inl more ↦
      let some_left : 0 < n = elim (Nat-cases n) [
        | inl e ↦
            let e' : l + n ≡ l = omega arith in let nul : m l ≡ 0 = rw e' at str.0 in ground arith
        | inr lt ↦ lt
      ] in
      let shifted : l + 1 + (n - 1) ≡ l + n = omega arith in
      let (k, agree, full, le, stop, eq) =
        strcmp_lem fuel m (l + 1) (r + 1) (n - 1)
          (
            rw shifted str.0,
            λ i lt.
                let z : l + 1 + i ≡ l + suc i = omega arith in rw z (str.1 (suc i) (omega arith)),
          )
          (omega arith) in
      let z : l + suc k ≡ l + 1 + k = omega arith in
      let z' : r + suc k ≡ r + 1 + k = omega arith in
      (
        suc k,
        Agree-suc m l r k (ground arith) agree,
        NoNul-suc m l k (ground arith) full,
        omega arith,
        rw (z, z') stop,
        rw (more, strcmp, z, z') eq,
      )
  | inr done ↦
      let z : l + 0 ≡ l = omega arith in
      let z' : r + 0 ≡ r = omega arith in
      (
        0,
        λ i lt. absurd (omega arith),
        λ i lt. absurd (omega arith),
        omega arith,
        rw (z, z') (ground arith),
        rw (done, strcmp, z, z'),
      )
]

-- The comparison of `strncmp` after its first test: it looks at `n + 1` bytes at most.
strncmp_loop_lem :
    (m : Memory) (l r n : ℕ)
    → (k : ℕ) × Agree m l r k
      × NoNul m l k
      × (k ≤ n)
      × ((k ≡ n) ⊎ (m (l + k) ≢ m (r + k)) ⊎ (m (l + k) ≡ 0) × (m (r + k) ≡ 0))
      × (strncmp_loop m l r n ≡ sub_ℕ (m (l + k)) (m (r + k)))
unfolding strncmp_loop
strncmp_loop_lem m l r zero =
    let z : l + 0 ≡ l = omega arith in
    let z' : r + 0 ≡ r = omega arith in
    (
      0,
      λ i lt. absurd (omega arith),
      λ i lt. absurd (omega arith),
      omega arith,
      inl refl,
      rw (z, z'),
    )
strncmp_loop_lem m l r (suc n) =
    let z : l + 0 ≡ l = omega arith in
    let z' : r + 0 ≡ r = omega arith in
    elim (Bool-cases (not (m l == 0) && not (m r == 0) && m l == m r)) [
      | inl more ↦
          let (k, agree, full, le, stop, eq) = strncmp_loop_lem m (l + 1) (r + 1) n in
          let y : l + suc k ≡ l + 1 + k = omega arith in
          let y' : r + suc k ≡ r + 1 + k = omega arith in
          (
            suc k,
            Agree-suc m l r k (ground arith) agree,
            NoNul-suc m l k (ground arith) full,
            omega arith,
            rw (y, y') (elim stop [ inl e ↦ inl (ap suc e) | inr other ↦ inr other ]),
            rw (more, strncmp_loop, y, y') eq,
          )
      | inr done ↦ (
        0,
        λ i lt. absurd (omega arith),
        λ i lt. absurd (omega arith),
        omega arith,
        rw (z, z') (inr (ground arith)),
        rw (done, strncmp_loop, z, z'),
      )
    ]

-- `strncmp` with `n` above 0 stops at the first difference, at the common NUL, or at byte `n - 1`,
-- and returns the difference of the two unsigned bytes there.
pub strncmp_lem :
    (m : Memory) (l r n : ℕ)
    → 0 < n
    → (k : ℕ) × Agree m l r k
      × NoNul m l k
      × (k < n)
      × ((k + 1 ≡ n) ⊎ (m (l + k) ≢ m (r + k)) ⊎ (m (l + k) ≡ 0) × (m (r + k) ≡ 0))
      × (strncmp m l r n ≡ sub_ℕ (m (l + k)) (m (r + k)))
unfolding strncmp
strncmp_lem m l r zero h = absurd (omega arith)
strncmp_lem m l r (suc n) h =
    let (k, agree, full, le, stop, eq) = strncmp_loop_lem m l r n in
    (
      k,
      agree,
      full,
      omega arith,
      elim stop [ inl e ↦ inl (omega arith) | inr other ↦ inr other ],
      eq,
    )
