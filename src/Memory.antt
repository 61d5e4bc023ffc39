-- ===== src/Memory.antt =====
-- The flat byte memory that the string functions read and write: an address is a number below
-- 2 ^ 64, and a word access is little-endian (limits.h admits only x86_64 and aarch64).
pub mod Sample
use native.Mathlib.Nat.{pow-suc}
use ocaml_solo.Prelude.{
  ℕ, zero, suc, ◌+◌, ◌*◌, ◌/◌, ◌%◌, ◌≤◌, ◌<◌, ◌^◌, ◌≡◌, ◌≢◌, refl, Bool, true, false, Option, arith,
  ◌-◌, ◌==◌, if◌then◌else◌, ◌>>=◌, while, while_bind, Bool-cases, inl, inr,
}

abbrev pub Memory : Type 0
Memory = ℕ → ℕ

abbrev pub IsBytes : Memory → Type 0
IsBytes m = (a : ℕ) → m a < 256

-- The `n` bytes at `a`, the lowest first.
unfoldable pub load : Memory → ℕ → ℕ → ℕ
load m a zero = 0
load m a (suc n) = load m (a + 1) n * 256 + m a

-- `*(unsigned char *)a = v`
unfoldable pub write : Memory → ℕ → ℕ → Memory
write m a v b = if b == a then v else m b

-- A store of `n` bytes at `a`.
unfoldable pub store : Memory → ℕ → ℕ → ℕ → Memory
store m a zero v = m
store m a (suc n) v = store (write m a (v % 256)) (a + 1) n (v / 256)

pub write_self : (m : Memory) (a v : ℕ) → write m a v a ≡ v
unfolding write
write_self m a v = ground arith

pub write_ne : (m : Memory) (a v b : ℕ) → b ≢ a → write m a v b ≡ m b
unfolding write
write_ne m a v b h = ground arith

pub write-IsBytes : (m : Memory) (a v : ℕ) → IsBytes m → v < 256 → IsBytes (write m a v)
unfolding write
write-IsBytes m a v h hv b = ground (arith, h b)

pub store_below : (n : ℕ) (m : Memory) (a v b : ℕ) → b < a → store m a n v b ≡ m b
unfolding store
store_below zero m a v b h = refl
store_below (suc n) m a v b h =
    ground
      (arith, store_below n (write m a (v % 256)) (a + 1) (v / 256) b, write_ne m a (v % 256) b)

pub store_above : (n : ℕ) (m : Memory) (a v b : ℕ) → a + n ≤ b → store m a n v b ≡ m b
unfolding store
store_above zero m a v b h = refl
store_above (suc n) m a v b h =
    ground
      (arith, store_above n (write m a (v % 256)) (a + 1) (v / 256) b, write_ne m a (v % 256) b)

pub store-IsBytes : (n : ℕ) (m : Memory) (a v : ℕ) → IsBytes m → IsBytes (store m a n v)
unfolding store
store-IsBytes zero m a v h = h
store-IsBytes (suc n) m a v h =
    store-IsBytes n (write m a (v % 256)) (a + 1) (v / 256)
      (write-IsBytes m a (v % 256) h (omega arith))

-- What is stored is what was loaded: byte `i` of the word goes to `a + i`.
pub store-load :
    (n : ℕ) (m k : Memory) (a b i : ℕ)
    → IsBytes k
    → i < n
    → store m a n (load k b n) (a + i) ≡ k (b + i)
unfolding store load
store-load zero m k a b i h lt = absurd (omega arith)
store-load (suc n) m k a b zero h lt =
    let v = load k (b + 1) n * 256 + k b in
    let low : v % 256 ≡ k b = omega (arith, h b) in
    let e : a + 0 ≡ a = omega arith in
    let e' : b + 0 ≡ b = omega arith in
    rw (e, e', store_below n (write m a (v % 256)) (a + 1) (v / 256) a (omega arith), write_self)
      low
store-load (suc n) m k a b (suc i) h lt =
    let v = load k (b + 1) n * 256 + k b in
    let rest : v / 256 ≡ load k (b + 1) n = omega (arith, h b) in
    let e : a + suc i ≡ a + 1 + i = omega arith in
    let e' : b + suc i ≡ b + 1 + i = omega arith in
    rw (e, e', rest) (store-load n (write m a (v % 256)) k (a + 1) (b + 1) i h (omega arith))

pub load-lt : (n : ℕ) (m : Memory) (a : ℕ) → IsBytes m → load m a n < 256 ^ n
unfolding load
load-lt zero m a h = omega arith
load-lt (suc n) m a h = omega (arith, h a, load-lt n m (a + 1) h, pow-suc 256 n)

-- A pointer and the count of bytes that are left.
pub record Cursor : Type 0 where
  pub ptr : ℕ
  pub left : ℕ

abbrev pub cursor : ℕ → ℕ → Cursor
cursor p n = record { ptr = p; left = n }

-- `s++, n--` and `w++, n -= 8`
abbrev pub advance : ℕ → Cursor → Cursor
advance d r = cursor (r.ptr + d) (r.left - d)

-- The bytes before the first one that passes the test, `n` at most.
unfoldable pub span_of : (ℕ → Bool) → Memory → ℕ → ℕ → ℕ
span_of stop m a zero = 0
span_of stop m a (suc n) = if stop (m a) then 0 else suc (span_of stop m (a + 1) n)

pub span_of-advance :
    (stop : ℕ → Bool) (m : Memory) (d a n : ℕ)
    → d ≤ n
    → ((i : ℕ) → i < d → stop (m (a + i)) ≡ false)
    → span_of stop m a n ≡ d + span_of stop m (a + d) (n - d)
unfolding span_of
span_of-advance stop m zero a n le h =
    let e : a + 0 ≡ a = omega arith in let e' : n - 0 ≡ n = omega arith in rw (e, e') (omega arith)
span_of-advance stop m (suc d) a zero le h = absurd (omega arith)
span_of-advance stop m (suc d) a (suc n) le h =
    let z : a + 0 ≡ a = omega arith in
    let here : stop (m a) ≡ false = rw z at (h 0 (omega arith)) in
    let ih =
      span_of-advance stop m d (a + 1) n (omega arith)
        (λ i p. let e : a + suc i ≡ a + 1 + i = omega arith in rw e at (h (suc i) (omega arith))) in
    let e : a + suc d ≡ a + 1 + d = omega arith in
    let e' : suc n - suc d ≡ n - d = omega arith in rw (here, e, e') (omega (arith, ih))

pub span_of_stopped :
    (stop : ℕ → Bool) (m : Memory) (a n : ℕ) → stop (m a) ≡ true → span_of stop m a n ≡ 0
unfolding span_of
span_of_stopped stop m a zero e = refl
span_of_stopped stop m a (suc n) e = rw e

pub span_of_empty : (stop : ℕ → Bool) (m : Memory) (a n : ℕ) → n ≡ 0 → span_of stop m a n ≡ 0
unfolding span_of
span_of_empty stop m a n e = rw e

-- The condition that the cursor loops need of one byte.
pub byte_clear :
    (stop : ℕ → Bool) (m : Memory) (p : ℕ)
    → stop (m p) ≡ false
    → (i : ℕ) → i < 1
    → stop (m (p + i)) ≡ false
byte_clear stop m p e i lt = let z : p + i ≡ p = omega arith in rw z e

pub span_of-le : (stop : ℕ → Bool) (m : Memory) (a n : ℕ) → span_of stop m a n ≤ n
unfolding span_of
span_of-le stop m a zero = omega arith
span_of-le stop m a (suc n) = ground (arith, span_of-le stop m (a + 1) n)

-- A loop over a cursor that passes over `d` bytes at a time, none of them a stop.
pub cursor_bind {κ} :
    {B : Type κ} (k : Cursor → Option B) (r : Option B) (test : Cursor → Bool) (stop : ℕ → Bool)
    (m : Memory) (d a n : ℕ)
    → 0 < d
    → ((s : Cursor)
        → test s ≡ true
        → (d ≤ s.left) × ((i : ℕ) → i < d → stop (m (s.ptr + i)) ≡ false))
    → (fuel : ℕ) (s : Cursor) → s.left < fuel
    → s.ptr + s.left ≡ a + n
    → a ≤ s.ptr
    → span_of stop m a n ≡ s.ptr - a + span_of stop m s.ptr s.left
    → ((s' : Cursor)
        → s'.ptr + s'.left ≡ a + n
        → s'.left ≤ s.left
        → a ≤ s'.ptr
        → span_of stop m a n ≡ s'.ptr - a + span_of stop m s'.ptr s'.left
        → test s' ≡ false
        → k s' ≡ r)
    → (while fuel test (advance d) s >>= k) ≡ r
cursor_bind k r test stop m d a n pos clear fuel s enough ends lo sum next =
    while_bind test (advance d)
      (λ (c : Cursor).
        (c.ptr + c.left ≡ a + n)
        × (c.left ≤ s.left)
        × (a ≤ c.ptr)
        × (span_of stop m a n ≡ c.ptr - a + span_of stop m c.ptr c.left))
      (λ c. c.left)
      (λ c more inv.
        let ok = clear c more in
        let eq = span_of-advance stop m d c.ptr c.left ok.0 ok.1 in
        (omega arith, (omega arith, omega arith, omega arith, omega arith)))
      k r fuel s (ends, omega arith, lo, sum) enough
      (λ c inv stopped. next c inv.0 inv.1 inv.2 inv.3 stopped)

pub span_of_before :
    (stop : ℕ → Bool) (m : Memory) (a n i : ℕ) → i < span_of stop m a n → stop (m (a + i)) ≡ false
unfolding span_of
span_of_before stop m a zero i lt = absurd (omega arith)
span_of_before stop m a (suc n) zero lt = let e : a + 0 ≡ a = omega arith in rw e (ground arith)
span_of_before stop m a (suc n) (suc i) lt =
    let e : a + suc i ≡ a + 1 + i = omega arith in
    rw e (span_of_before stop m (a + 1) n i (ground arith))

pub span_of_at :
    (stop : ℕ → Bool) (m : Memory) (a n : ℕ)
    → span_of stop m a n < n
    → stop (m (a + span_of stop m a n)) ≡ true
unfolding span_of
span_of_at stop m a zero lt = absurd (omega arith)
span_of_at stop m a (suc n) lt = elim (Bool-cases (stop (m a))) [
  | inl e ↦ let z : a + 0 ≡ a = omega arith in rw (e, z) e
  | inr e ↦
      let z : a + suc (span_of stop m (a + 1) n) ≡ a + 1 + span_of stop m (a + 1) n = omega arith in
      let small : span_of stop m (a + 1) n < n = ground arith in
      rw (e, z) (span_of_at stop m (a + 1) n small)
]
