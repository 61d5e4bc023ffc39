-- ===== src/Substring/Twoway/Rounds.antt =====
-- One round of the search loop: it finds a match, or moves on by at most the needle's length.
use ocaml_solo.Prelude.{
  ℕ, ◌+◌, ◌-◌, ◌*◌, ◌/◌, ◌%◌, ◌^◌, ◌≤◌, ◌<◌, ◌≡◌, ◌≢◌, ◌⊎◌, refl, ap, ◌∙◌, true, false, inl, inr,
  none, some, leb, ltb, ◌==◌, ◌&&◌, not, Bool-cases, while, while_total, arith, max, bit_or,
  below_all, below_all_at, bit_or_fields, bit_or-zero,
}
use ocaml_solo.Memory.{Memory, IsBytes, span_of, span_of-le, span_of_before}
use ocaml_solo.Length.{IsString}
use ocaml_solo.Search.{memchr_lem}
use ocaml_solo.Substring.Twoway.{
  Needle, Turn, found, again, right_more, left_more, compare, turn, update_end,
}
use ocaml_solo.Substring.Twoway.Shifts.{IsNeedle}

-- The bytes of the needle from `d` on stand at `h`.
abbrev pub MatchesFrom : ℕ → Memory → ℕ → ℕ → ℕ → Type 0
MatchesFrom d m h n len = (j : ℕ) → d ≤ j → j < len → m (n + j) ≡ m (h + j)

abbrev pub Progress : Memory → ℕ → ℕ → ℕ → Needle → ℕ → Turn → Type 0
Progress m n len h nd mem found = MatchesFrom mem m h n len
Progress m n len h nd mem (again h' mem') = (h < h') × (h' ≤ h + len) × (mem' ≤ nd.mem0)

abbrev first : Needle → ℕ
first nd = (nd.ms + 1) % 2 ^ 64

module _ (m : Memory) (n len : ℕ) (needle : IsString m n len) (nd : Needle)
    (ok : IsNeedle m n len nd) (small : len < 2 ^ 63) where
  right_total :
      (fuel h k : ℕ)
      → k ≤ len
      → len < fuel
      → (e : ℕ) × (while fuel (right_more m n h) (λ k. k + 1) k ≡ some e)
        × ((k ≤ e) × (e ≤ len) × ((j : ℕ) → k ≤ j → j < e → m (n + j) ≡ m (h + j)))
        × (right_more m n h e ≡ false)
  right_total fuel h k le enough =
      while_total (right_more m n h) (λ k. k + 1)
        (λ e. (k ≤ e) × (e ≤ len) × ((j : ℕ) → k ≤ j → j < e → m (n + j) ≡ m (h + j)))
        (λ e. len - e)
        (λ e more inv.
          let hi = inv.1 in
          let lt : e < len = elim (Bool-cases (e == len)) [
            | inl end ↦
                let at : e ≡ len = ground arith in
                let z : m (n + e) ≡ 0 = ap (λ i. m (n + i)) at ∙ needle.0 in absurd (ground arith)
            | inr before ↦ ground arith
          ] in
          (
            omega arith,
            (
              omega (arith, inv.0),
              omega arith,
              λ j lo hi'. elim (Bool-cases (j == e)) [
                | inl here ↦ let at : j ≡ e = ground arith in rw at (ground (arith, more))
                | inr before ↦ inv.2 j lo (ground arith)
              ],
            ),
          ))
        fuel k (omega arith, le, λ j lo hi. absurd (omega arith)) (omega arith)

  left_total :
      (fuel h mem k : ℕ)
      → k < fuel
      → (e : ℕ) × (while fuel (left_more m n h mem) (λ k. k - 1) k ≡ some e)
        × ((e ≤ k) × ((j : ℕ) → e ≤ j → j < k → m (n + j) ≡ m (h + j)))
        × (left_more m n h mem e ≡ false)
  left_total fuel h mem k enough =
      while_total (left_more m n h mem) (λ k. k - 1)
        (λ e. (e ≤ k) × ((j : ℕ) → e ≤ j → j < k → m (n + j) ≡ m (h + j))) (λ e. e)
        (λ e more inv. (
          ground (arith, more),
          (
            omega (arith, inv.0),
            λ j lo hi. elim (Bool-cases (j == e - 1)) [
              | inl here ↦ let at : j ≡ e - 1 = ground arith in rw at (ground (arith, more))
              | inr before ↦ inv.1 j (ground arith) hi
            ],
          ),
        ))
        fuel k (omega arith, λ j lo hi. absurd (omega arith)) enough

  compare_total :
      (fuel h mem : ℕ)
      → len < fuel
      → mem ≤ nd.mem0
      → (t : Turn) × (compare fuel m n nd h mem ≡ some t) × Progress m n len h nd mem t
  unfolding compare
  compare_total fuel h mem enough le =
      let ms = ok.ms in
      let wide = ok.wide in
      let p = ok.p in
      let positive = ok.positive in
      let kept = ok.mem0 in
      let (k, run, (lo, hi, same), stop) =
        right_total fuel h (max (first nd) mem) (omega arith) enough in
      let (k', run', (hi', same'), stop') = left_total fuel h mem (first nd) (omega arith) in
      rw (run, run')
        (elim (Bool-cases (m (n + k) == 0)) [
          | inr other ↦
              let lt : k < len = elim (Bool-cases (k == len)) [
                | inl end ↦
                    let at : k ≡ len = ground arith in
                    let z : m (n + k) ≡ 0 = ap (λ i. m (n + i)) at ∙ needle.0 in
                    absurd (ground arith)
                | inr before ↦ ground arith
              ] in
              rw other (_, refl, (omega arith, omega arith, omega arith))
          | inl whole ↦
              let end : k ≡ len = elim (Bool-cases (ltb k len)) [
                | inl inside ↦ absurd (needle.1 k (ground arith) (ground arith))
                | inr end ↦ ground arith
              ] in
              elim (Bool-cases (leb k' mem)) [
                | inr apart ↦ rw (whole, apart) (_, refl, (omega arith, omega arith, omega arith))
                | inl all ↦
                    rw (whole, all)
                      (
                        _,
                        refl,
                        λ j from to. elim (Bool-cases (ltb j (first nd))) [
                          | inl left ↦ same' j (ground arith) (ground arith)
                          | inr right ↦ same j (ground arith) (omega arith)
                        ],
                      )
              ]
        ])

  pub turn_total :
      (fuel h mem : ℕ)
      → 0 < len
      → len < fuel
      → mem ≤ nd.mem0
      → (t : Turn) × (turn fuel m n nd h mem ≡ some t) × Progress m n len h nd mem t
  unfolding turn
  turn_total fuel h mem some_ enough le =
      let l = ok.l in
      let p = ok.p in
      let positive = ok.positive in
      let kept = ok.mem0 in
      let c = m (h + (nd.tables.l - 1)) in
      elim (Bool-cases (nd.tables.byteset c)) [
        | inr absent ↦ rw absent (_, refl, (omega arith, omega arith, omega arith))
        | inl present ↦
            let place = ok.table.shift c present in
            let lo = place.0 in
            let hi = place.1 in
            elim (Bool-cases (nd.tables.l - nd.tables.shift c == 0)) [
              | inl last ↦ rw (present, last) (compare_total fuel h mem enough le)
              | inr jump ↦
                  let k : 0 < nd.tables.l - nd.tables.shift c = ground arith in
                  rw (present, jump)
                    (elim (Bool-cases (
                      not (nd.mem0 == 0)
                      && not (mem == 0)
                      && ltb (nd.tables.l - nd.tables.shift c) nd.p)) [
                        | inr plain ↦ rw plain (_, refl, (omega arith, omega arith, omega arith))
                        | inl periodic ↦
                            let more : 0 < nd.mem0 = ground arith in
                            rw periodic (_, refl, (omega arith, omega arith, omega arith))
                      ])
            ]
      ]

-- `l | 63` is from `l` to `l + 63`.
or_table : below_all (λ r. bit_or r 63 == 63) 64 ≡ true
unfolding below_all
or_table = refl

bit_or_bounds : (l : ℕ) → (l ≤ bit_or l 63) × (bit_or l 63 ≤ l + 63)
bit_or_bounds l =
    let parts : l ≡ l / 64 * 2 ^ 6 + l % 64 = omega arith in
    let low : bit_or (l % 64) 63 ≡ 63 =
      ground (arith, below_all_at _ 64 (l % 64) or_table (omega arith)) in
    let fields = bit_or_fields 6 (l / 64) (l % 64) 0 63 (omega arith) (omega arith) in
    let sum : bit_or l 63 ≡ l / 64 * 64 + 63 =
      ap (λ x. bit_or x 63) parts ∙ omega (arith, fields, low, bit_or-zero (l / 64)) in
    (omega arith, omega arith)

-- The pointer stays in front of the NUL at `end`, and behind `l` bytes unless the string is too short.
pub update_end_total :
    (fuel : ℕ) (m : Memory) (l h z end : ℕ)
    → IsBytes m
    → m end ≡ 0
    → ((b : ℕ) → h ≤ b → b < end → m b ≢ 0)
    → end < 2 ^ 64
    → h ≤ z
    → z ≤ end
    → l + 63 < fuel
    → l < 2 ^ 63
    → (update_end fuel m l h z ≡ some none)
      ⊎ ((z' : ℕ) × (update_end fuel m l h z ≡ some (some z')) × (h + l ≤ z') × (z' ≤ end))
unfolding update_end
update_end_total fuel m l h z end bytes nul clear top low high enough small =
    let apart : (z + 2 ^ 64 - h) % 2 ^ 64 ≡ z - h = omega arith in
    let grow = bit_or_bounds l in
    let lo = grow.0 in
    let hi = grow.1 in
    let k = span_of (λ b. b == 0) m z (bit_or l 63) in
    let short : z + k ≤ end = elim (Bool-cases (leb (z + k) end)) [
      | inl within ↦ ground arith
      | inr beyond ↦
          let at : z + (end - z) ≡ end = omega arith in
          let before = span_of_before (λ b. b == 0) m z (bit_or l 63) (end - z) (ground arith) in
          let here : (m end == 0) ≡ false = rw at at before in absurd (ground arith)
    ] in
    let search = memchr_lem m z (bit_or l 63) 0 fuel bytes (omega arith) in
    elim (Bool-cases (ltb (z - h) l)) [
      | inr far ↦ rw (apart, far) (inr (z, refl, ground arith, high))
      | inl near ↦ elim (Bool-cases (ltb k (bit_or l 63))) [
        | inl inside ↦
            let apart' : (z + k + 2 ^ 64 - h) % 2 ^ 64 ≡ z + k - h = omega arith in
            elim (Bool-cases (ltb (z + k - h) l)) [
              | inl too_short ↦ rw (apart, near, search, inside, apart', too_short) (inl refl)
              | inr fits ↦
                  rw (apart, near, search, inside, apart', fits)
                    (inr (z + k, refl, ground arith, short))
            ]
        | inr whole ↦
            let le = span_of-le (λ b. b == 0) m z (bit_or l 63) in
            let all : k ≡ bit_or l 63 = ground arith in
            rw (apart, near, search, whole) (inr (z + bit_or l 63, refl, omega arith, omega arith))
      ]
    ]
