-- ===== src/Memset/Filled.antt =====
-- How far a region has been filled from both of its ends.
use ocaml_solo.Prelude.{
  ℕ, zero, suc, ◌+◌, ◌-◌, ◌*◌, ◌/◌, ◌%◌, ◌≤◌, ◌<◌, ◌≡◌, ◌⊎◌, inl, inr, refl, arith, ltb, leb, max,
  ◌&&◌, ◌∙◌, ◌==◌, Bool-cases,
}
use ocaml_solo.Memory.{Memory, write, store, write_self, write_ne, store_below, store_above}
use ocaml_solo.ZeroByte.{ones_of}

-- `m'` is `m` but for the region of `n` bytes at `d`, of which the first `j` and the last `k` are `c`.
pub record IsFilled (m : Memory) (d n c j k : ℕ) (m' : Memory) : Type 0 where
  pub outside : (b : ℕ) → (b < d) ⊎ (d + n ≤ b) → m' b ≡ m b
  pub head : (b : ℕ) → d ≤ b → b < d + j → m' b ≡ c
  pub tail : (b : ℕ) → d + n ≤ b + k → b < d + n → m' b ≡ c

-- `m''` is `m'` with `w` bytes at `p` set to `c`.
pub record Fills (p w c : ℕ) (m' m'' : Memory) : Type 0 where
  pub set : (b : ℕ) → p ≤ b → b < p + w → m'' b ≡ c
  pub kept : (b : ℕ) → (b < p) ⊎ (p + w ≤ b) → m'' b ≡ m' b

write-Fills : (m : Memory) (p c : ℕ) → Fills p 1 c m (write m p c)
write-Fills m p c = record {
  set = λ b lo hi. let e : b ≡ p = omega arith in rw e (write_self m p c);
  kept = λ b out. write_ne m p c b (λ e. omega arith);
}

-- A word with the byte `c` in each place.
store_splat :
    (w : ℕ) (m : Memory) (p c b : ℕ)
    → c < 256
    → p ≤ b
    → b < p + w
    → store m p w (ones_of w * c) b ≡ c
unfolding store ones_of
store_splat zero m p c b hc lo hi = absurd (omega arith)
store_splat (suc w) m p c b hc lo hi =
    let low : (ones_of w * 256 + 1) * c % 256 ≡ c = omega arith in
    let high : (ones_of w * 256 + 1) * c / 256 ≡ ones_of w * c = omega arith in
    rw (low, high)
      (elim (Bool-cases (b == p)) [
        | inl e ↦
            let e' : b ≡ p = ground arith in
            rw (e', store_below w (write m p c) (p + 1) (ones_of w * c) p (omega arith))
              (write_self m p c)
        | inr e ↦ store_splat w (write m p c) (p + 1) c b hc (ground arith) (ground arith)
      ])

store-Fills : (w : ℕ) (m : Memory) (p c : ℕ) → c < 256 → Fills p w c m (store m p w (ones_of w * c))
store-Fills w m p c hc = record {
  set = λ b lo hi. store_splat w m p c b hc lo hi;
  kept = λ b out. elim out [
    | inl h ↦ store_below w m p (ones_of w * c) b h
    | inr h ↦ store_above w m p (ones_of w * c) b h
  ];
}

-- Two fills side by side.
pub Fills-join :
    {p w p' w' c : ℕ} {m m' m'' : Memory}
    → Fills p w c m m'
    → Fills p' w' c m' m''
    → p' ≡ p + w
    → Fills p (w + w') c m m''
Fills-join {p} {w} {p'} s t e = record {
  set = λ b lo hi. elim (Bool-cases (ltb b p')) [
    | inl low ↦ t.kept b (ground arith) ∙ s.set b lo (ground arith)
    | inr high ↦ t.set b (ground arith) (omega arith)
  ];
  kept = λ b out. t.kept b (omega arith) ∙ s.kept b (omega arith);
}

-- Two words of 4 bytes in a row.
pub pair-Fills :
    (m : Memory) (p p' v c : ℕ)
    → v ≡ ones_of 4 * c
    → c < 256
    → p' ≡ p + 4
    → Fills p 8 c m (store (store m p 4 v) p' 4 v)
pair-Fills m p p' v c e hc next =
    rw e (
      Fills-join (store-Fills 4 m p c hc) (store-Fills 4 (store m p 4 (ones_of 4 * c)) p' c hc)
        next)

module _ {m m' : Memory} {d n c j k : ℕ} (f : IsFilled m d n c j k m') where
  -- A fill inside the region that starts at or before the end of the filled head.
  Fills_head :
      (p w i : ℕ) {m'' : Memory}
      → Fills p w c m' m''
      → d ≤ p
      → p ≤ d + j
      → p + w ≤ d + n
      → d + i ≤ max (d + j) (p + w)
      → IsFilled m d n c i k m''
  Fills_head p w i s lo hi fits e = record {
    outside = λ b out. s.kept b (omega arith) ∙ f.outside b out;
    head = λ b x y. elim (Bool-cases (leb p b && ltb b (p + w))) [
      | inl inside ↦ s.set b (ground arith) (ground arith)
      | inr apart ↦ s.kept b (ground arith) ∙ f.head b x (ground arith)
    ];
    tail = λ b x y. elim (Bool-cases (leb p b && ltb b (p + w))) [
      | inl inside ↦ s.set b (ground arith) (ground arith)
      | inr apart ↦ s.kept b (ground arith) ∙ f.tail b x y
    ];
  }

  -- A fill inside the region that ends at or behind the start of the filled tail.
  pub Fills_tail :
      (p w i : ℕ) {m'' : Memory}
      → Fills p w c m' m''
      → d ≤ p
      → p + w ≤ d + n
      → d + n ≤ p + w + k
      → i ≤ max k (d + n - p)
      → IsFilled m d n c j i m''
  Fills_tail p w i s lo fits reach e = record {
    outside = λ b out. s.kept b (omega arith) ∙ f.outside b out;
    head = λ b x y. elim (Bool-cases (leb p b && ltb b (p + w))) [
      | inl inside ↦ s.set b (ground arith) (ground arith)
      | inr apart ↦ s.kept b (ground arith) ∙ f.head b x y
    ];
    tail = λ b x y. elim (Bool-cases (leb p b && ltb b (p + w))) [
      | inl inside ↦ s.set b (ground arith) (ground arith)
      | inr apart ↦ s.kept b (ground arith) ∙ f.tail b (ground arith) y
    ];
  }

  pub head_write : (p : ℕ) → p ≡ d + j → j + 1 ≤ n → IsFilled m d n c (j + 1) k (write m' p c)
  head_write p e fits =
      Fills_head p 1 (j + 1) (write-Fills m' p c) (omega arith) (omega arith) (omega arith)
        (omega arith)

  pub tail_write : (p : ℕ) → p + 1 + k ≡ d + n → d ≤ p → IsFilled m d n c j (k + 1) (write m' p c)
  tail_write p e lo =
      Fills_tail p 1 (k + 1) (write-Fills m' p c) lo (omega arith) (omega arith) (omega arith)

  pub head_store :
      (w p v : ℕ)
      → v ≡ ones_of w * c
      → c < 256
      → (i : ℕ) → d ≤ p
      → p ≤ d + j
      → p + w ≤ d + n
      → d + i ≤ max (d + j) (p + w)
      → IsFilled m d n c i k (store m' p w v)
  head_store w p v ev hc i lo hi fits e =
      rw ev (Fills_head p w i (store-Fills w m' p c hc) lo hi fits e)

  pub tail_store :
      (w p v : ℕ)
      → v ≡ ones_of w * c
      → c < 256
      → (i : ℕ) → d ≤ p
      → p + w ≤ d + n
      → d + n ≤ p + w + k
      → i ≤ max k (d + n - p)
      → IsFilled m d n c j i (store m' p w v)
  tail_store w p v ev hc i lo fits reach e =
      rw ev (Fills_tail p w i (store-Fills w m' p c hc) lo fits reach e)

-- The two ends have met.
pub full :
    {m m' : Memory} {d n c j k : ℕ} → IsFilled m d n c j k m' → n ≤ j + k → IsFilled m d n c n n m'
full {d = d} {j = j} f met = record {
  outside = f.outside;
  head = λ b x y. elim (Bool-cases (ltb b (d + j))) [
    | inl e ↦ f.head b x (ground arith)
    | inr e ↦ f.tail b (ground arith) y
  ];
  tail = λ b x y. elim (Bool-cases (ltb b (d + j))) [
    | inl e ↦ f.head b (omega arith) (ground arith)
    | inr e ↦ f.tail b (ground arith) y
  ];
}

pub start : (m : Memory) (d n c : ℕ) → IsFilled m d n c 0 0 m
start m d n c = record {
  outside = λ b out. refl;
  head = λ b x y. absurd (omega arith);
  tail = λ b x y. absurd (omega arith);
}
