-- ===== src/Substring/Twoway/Total.antt =====
-- The two-way search ends, and what it finds stands in the string.
use ocaml_solo.Prelude.{
  ℕ, zero, suc, ◌+◌, ◌-◌, ◌*◌, ◌^◌, ◌≤◌, ◌<◌, ◌≡◌, ◌≢◌, refl, ap, ◌∙◌, true, false, inl, inr, none,
  some, Option, ◌==◌, arith,
}
use ocaml_solo.Memory.{Memory, IsBytes}
use ocaml_solo.Length.{IsString}
use ocaml_solo.Substring.Twoway.{Needle, Turn, found, again, search, twoway_strstr}
use ocaml_solo.Substring.Twoway.Shifts.{IsNeedle, Repeats, tables_total, prepare_total}
use ocaml_solo.Substring.Twoway.Rounds.{MatchesFrom, Progress, turn_total, update_end_total}

-- Nothing, or a place in the string where the needle stands from its byte `d` on.
pub data IsHit (d : ℕ) (m : Memory) (h end n len : ℕ) : Option ℕ → Type 0 where
  missed : IsHit d m h end n len none
  hit : (p : ℕ) → h ≤ p → p + len ≤ end → MatchesFrom d m p n len → IsHit d m h end n len (some p)

module _ (m : Memory) (n len : ℕ) (needle : IsString m n len) (nd : Needle)
    (ok : IsNeedle m n len nd) (small : len < 2 ^ 63) (some_ : 0 < len) (fuel end : ℕ)
    (bytes : IsBytes m) (nul : m end ≡ 0) (top : end < 2 ^ 64) (enough : len + 63 < fuel) where
  abbrev Result : (rounds h z mem : ℕ) → Type 0
  Result rounds h z mem =
      (r : Option ℕ) × (search rounds fuel m n nd h z mem ≡ some r) × IsHit nd.mem0 m h end n len r

  later :
      (h h' : ℕ) (r : Option ℕ)
      → h ≤ h'
      → IsHit nd.mem0 m h' end n len r
      → IsHit nd.mem0 m h end n len r
  later h h' r le missed = missed
  later h h' r le (hit p lo hi match_) = hit p (omega arith) hi match_

  -- The rest of the search, by what one round does.
  round_total :
      (rounds h z mem : ℕ)
      → h + len ≤ z
      → z ≤ end
      → mem ≤ nd.mem0
      → ((h' mem' : ℕ) → h < h' → h' ≤ z → mem' ≤ nd.mem0 → Result rounds h' z mem')
      → (t : Turn) → Progress m n len h nd mem t
      → (r : Option ℕ) × ((elim t [
        | found ↦ some (some h)
        | again h mem ↦ search rounds fuel m n nd h z mem
      ])
          ≡ some r)
        × IsHit nd.mem0 m h end n len r
  round_total rounds h z mem room high le next found match_ =
      (some h, refl, hit h (omega arith) (omega arith) (λ j from to. match_ j (omega arith) to))
  round_total rounds h z mem room high le next (again h' mem') (more, most, le') =
      let (r, run, p) = next h' mem' more (omega arith) le' in
      (r, run, later h h' r (omega arith) p)

  search_total :
      (rounds h z mem : ℕ)
      → ((b : ℕ) → h ≤ b → b < end → m b ≢ 0)
      → h ≤ z
      → z ≤ end
      → end < h + rounds
      → mem ≤ nd.mem0
      → Result rounds h z mem
  unfolding search
  search_total zero h z mem clear low high more le = absurd (omega arith)
  search_total (suc rounds) h z mem clear low high more le =
      let l = ok.l in
      elim (update_end_total fuel m nd.tables.l h z end bytes nul clear top low high (omega arith)
        (omega arith)) [
          | inl e ↦ rw e (none, refl, missed)
          | inr (z', e, room, high') ↦
              let (t, run, progress) =
                turn_total m n len needle nd ok small fuel h mem some_ (omega arith) le in
              rw (e, run)
                (round_total rounds h z' mem (omega arith) high' le
                  (λ h' mem' gt within le'.
                    search_total rounds h' z' mem' (λ b lo hi. clear b (omega arith) hi) within
                      high' (omega arith) le')
                  t progress)
        ]

resize :
    {d : ℕ} {m : Memory} {h end n : ℕ} (a b : ℕ) (r : Option ℕ)
    → a ≡ b
    → IsHit d m h end n a r
    → IsHit d m h end n b r
resize a b r e missed = missed
resize a b r e (hit p lo hi match_) =
    hit p lo (omega arith) (λ j from to. match_ j from (omega arith))

IsNeedle-Repeats :
    (m : Memory) (n len : ℕ) (nd : Needle)
    → IsNeedle m n len nd
    → (nd.mem0 < len) × Repeats m n len (len - nd.mem0)
IsNeedle-Repeats m n len nd ok =
    let p = ok.p in
    let positive = ok.positive in
    let ms = ok.ms in
    elim (ok.mem0) [
      | inl none_ ↦ (omega arith, λ j lt. absurd (omega arith))
      | inr (e, repeats) ↦ (
        omega arith,
        λ j lt.
            let z : nd.p + j ≡ len - nd.mem0 + j = omega arith in
            repeats j (omega arith) ∙ ap (λ i. m (n + i)) z,
      )
    ]

-- `twoway_strstr` ends for every string at `h` and every needle at `n` that is not empty, and
-- returns NULL or a place where the needle fits into the string and stands there from its byte `d`
-- on; `d` is 0 unless the needle repeats itself after `len - d` bytes. What the array `shift` holds
-- at the start does not matter, and more fuel than the string and three times the needle have bytes,
-- and 63 more, is enough.
pub twoway_strstr_lem :
    (shift : ℕ → ℕ) (fuel : ℕ) (m : Memory) (h size n len : ℕ)
    → IsBytes m
    → IsString m h size
    → IsString m n len
    → 0 < len
    → len < 2 ^ 63
    → h + size < 2 ^ 64
    → size + 3 * len + 63 < fuel
    → (r : Option ℕ) × (d : ℕ) × (twoway_strstr shift fuel m h n ≡ some r)
      × (d < len)
      × Repeats m n len (len - d)
      × IsHit d m h (h + size) n len r
unfolding twoway_strstr
twoway_strstr_lem shift fuel m h size n len bytes str needle some_ small top enough =
    let (t, run, ok, stop) =
      tables_total m h n len (record { l = 0; byteset = λ b. false; shift = shift }) fuel needle
        refl (λ b. refl) (omega arith) in
    rw run (elim stop [
      | inr cut ↦ rw cut (none, 0, refl, some_, (λ j lt. absurd (omega arith)), missed)
      | inl whole ↦
          let ends : m (n + t.l) ≡ 0 = ap (λ i. m (n + i)) whole ∙ needle.0 in
          let nul : (m (n + t.l) == 0) ≡ true = ground arith in
          let (nd, run', ok') =
            prepare_total m n t fuel (omega arith) (omega arith) (omega arith)
              (record { l = omega arith; shift = ok.shift }) in
          let (r, result, at) =
            search_total m n t.l (ends, λ i lt. needle.1 i (omega arith)) nd ok' (omega arith)
              (omega arith) fuel (h + size) bytes str.0 top (omega arith) fuel h h 0
              (λ b lo hi.
                let z : h + (b - h) ≡ b = omega arith in rw z at (str.1 (b - h) (omega arith)))
              (omega arith) (omega arith) (omega arith) (omega arith) in
          let (lt, repeats) = IsNeedle-Repeats m n t.l nd ok' in
          rw (nul, run')
            (
              r,
              nd.mem0,
              result,
              omega arith,
              (λ j below.
                  let z : t.l - nd.mem0 + j ≡ len - nd.mem0 + j = omega arith in
                  repeats j (omega arith) ∙ ap (λ i. m (n + i)) z),
              resize t.l len r whole at,
            )
    ])
