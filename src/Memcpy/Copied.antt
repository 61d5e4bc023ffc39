-- ===== src/Memcpy/Copied.antt =====
-- How far a copy between two disjoint regions has come.
use ocaml_solo.Prelude.{
  ℕ, zero, suc, ◌+◌, ◌-◌, ◌≤◌, ◌<◌, ◌≡◌, ◌⊎◌, inl, inr, refl, ap, ◌∙◌, arith, ltb, ◌==◌, Bool-cases,
}
use ocaml_solo.Memory.{
  Memory, IsBytes, load, write, store, write_self, write_ne, store_below, store_above, store-load,
}

-- The first `j` of the bytes at `dest` are those at `src`, and nothing else has changed.
pub record IsCopied (m : Memory) (dest src j : ℕ) (m' : Memory) : Type 0 where
  pub moved : (b : ℕ) → dest ≤ b → b < dest + j → m' b ≡ m (src + (b - dest))
  pub kept : (b : ℕ) → (b < dest) ⊎ (dest + j ≤ b) → m' b ≡ m b

pub load_same :
    (w : ℕ) (m m' : Memory) (p : ℕ)
    → ((b : ℕ) → p ≤ b → b < p + w → m' b ≡ m b)
    → load m' p w ≡ load m p w
unfolding load
load_same zero m m' p h = refl
load_same (suc w) m m' p h = rw (
  h p (omega arith) (omega arith),
  load_same w m m' (p + 1) (λ b lo hi. h b (omega arith) (omega arith)),
)

-- The source is intact where it does not overlap the destination.
pub load_source :
    {m m' : Memory} {dest src j : ℕ} (n : ℕ)
    → (src + n ≤ dest) ⊎ (dest + n ≤ src)
    → IsCopied m dest src j m'
    → (p w : ℕ) → j ≤ n
    → src ≤ p
    → p + w ≤ src + n
    → load m' p w ≡ load m p w
load_source {m} {m'} n apart c p w le lo hi =
    load_same w m m' p (λ b lo' hi'. c.kept b (omega arith))

module _ {m m' : Memory} {dest src j : ℕ} (n : ℕ) (clear : (src + n ≤ dest) ⊎ (dest ≤ src))
    (c : IsCopied m dest src j m') where
  -- Ahead of the copy the source is intact also where the destination stands below it.
  pub load_ahead : (p w : ℕ) → j ≤ n → src + j ≤ p → p + w ≤ src + n → load m' p w ≡ load m p w
  load_ahead p w le lo hi = load_same w m m' p (λ b lo' hi'. c.kept b (omega arith))

  pub copy_byte : j < n → IsCopied m dest src (j + 1) (write m' (dest + j) (m' (src + j)))
  copy_byte lt = record {
    moved = λ b lo hi. elim (Bool-cases (b == dest + j)) [
      | inl e ↦
          let e' : b ≡ dest + j = ground arith in
          let e'' : src + (dest + j - dest) ≡ src + j = omega arith in
          rw (e', e'', write_self) (c.kept (src + j) (omega arith))
      | inr e ↦ write_ne m' (dest + j) (m' (src + j)) b (ground arith) ∙ c.moved b lo (ground arith)
    ];
    kept = λ b out.
        write_ne m' (dest + j) (m' (src + j)) b (λ e. omega arith) ∙ c.kept b (omega arith);
  }

  pub copy_word :
      (w v : ℕ)
      → IsBytes m
      → j + w ≤ n
      → v ≡ load m (src + j) w
      → IsCopied m dest src (j + w) (store m' (dest + j) w v)
  copy_word w v h fits e = record {
    moved = λ b lo hi. elim (Bool-cases (ltb b (dest + j))) [
      | inl low ↦ store_below w m' (dest + j) v b (ground arith) ∙ c.moved b lo (ground arith)
      | inr high ↦
          let i = b - (dest + j) in
          let at : b ≡ dest + j + i = ground arith in
          let at' : src + j + i ≡ src + (b - dest) = ground arith in
          let moved = store-load w m' m (dest + j) (src + j) i h (omega arith) in
          rw e (ap (store m' (dest + j) w (load m (src + j) w)) at ∙ moved ∙ ap m at')
    ];
    kept = λ b out. elim out [
      | inl low ↦ store_below w m' (dest + j) v b (omega arith) ∙ c.kept b (inl low)
      | inr high ↦ store_above w m' (dest + j) v b (omega arith) ∙ c.kept b (inr (omega arith))
    ];
  }

pub begin : (m : Memory) (dest src : ℕ) → IsCopied m dest src 0 m
begin m dest src = record { moved = λ b lo hi. absurd (omega arith); kept = λ b out. refl }
