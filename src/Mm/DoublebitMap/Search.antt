-- ===== src/Mm/DoublebitMap/Search.antt =====
-- Which slots `get_free_slots` finds.
use mathlib.Core.Path.{subst}
use shmily.Base.{
  ℕ, zero, suc, ◌+◌, ◌-◌, ◌*◌, ◌^◌, ◌≤◌, ◌<◌, ◌≡◌, refl, sym, ◌∙◌, ◌≢◌, ◌⊎◌, true, false, arith,
  ◌==◌, if◌then◌else◌, add32, sub32, mul32, minus_one, ==_iff, ==_ne, ℕ_discrete, inl, inr, dec_lt,
  dec_le, add32-sub32_one,
}
use shmily.Mm.DoublebitMap.{DoublebitMap, get_slot_status, sync, search, get_free_slots}
use shmily.Mm.DoublebitMap.Alloc.{HasSlots, marked, within, sync-HasSlots}

-- The `cnt` slots from `t` on are free.
abbrev pub Free : (ℕ → ℕ) → ℕ → ℕ → Type 0
Free s t cnt = (j : ℕ) → t ≤ j → j < t + cnt → s j ≡ 0

-- The statuses once `cnt` slots from `r` on are in use.
abbrev pub allocated : (ℕ → ℕ) → ℕ → ℕ → ℕ → ℕ
allocated s r cnt j = if within r cnt j then marked r cnt j else s j

-- The lowest run of `cnt` free slots below `total` is in use, or there is none and the map is as it
-- was.
abbrev pub Allocated : ℕ → ℕ → DoublebitMap → (ℕ → ℕ) → ℕ × DoublebitMap → Type 0
Allocated total cnt m s (r, m') =
    ((r ≡ minus_one) × (m' ≡ m) × ((t : ℕ) → t + cnt ≤ total → ¬ Free s t cnt))
    ⊎ ((r + cnt ≤ total)
        × Free s r cnt
        × ((t : ℕ) → t < r → ¬ Free s t cnt)
        × HasSlots m' (allocated s r cnt))

-- The loop before slot `idx`, with `found` free slots behind it.
record Looking (s : ℕ → ℕ) (cnt idx found : ℕ) : Type 0 where
  short : found < cnt
  behind : found ≤ idx
  free : (j : ℕ) → idx ≤ j + found → j < idx → s j ≡ 0
  edge : found < idx → s (idx - found - 1) ≢ 0
  none_yet : (t : ℕ) → t + cnt ≤ idx → ¬ Free s t cnt

module _ (s : ℕ → ℕ) (cnt : ℕ) where
  broken : (t p : ℕ) → s p ≢ 0 → t ≤ p → p < t + cnt → ¬ Free s t cnt
  broken t p used lo hi run = used (run p lo hi)

  no_longer :
      (idx found t : ℕ)
      → Looking s cnt idx found
      → t + cnt ≤ idx + 1
      → t + found < idx
      → ¬ Free s t cnt
  no_longer idx found t h le far = elim (dec_le (t + cnt) idx) [
    | yes before ↦ h.none_yet t before
    | no over ↦
        broken t (idx - found - 1) (h.edge (omega arith)) (omega arith) (omega (arith, h.short))
  ]

  over_used : (idx found : ℕ) → Looking s cnt idx found → s idx ≢ 0 → Looking s cnt (idx + 1) 0
  over_used idx found h used = record {
    short = omega (arith, h.short);
    behind = omega arith;
    free = λ j lo hi. absurd (omega arith);
    edge = λ lt. let e : idx + 1 - 0 - 1 ≡ idx = omega arith in rw e used;
    none_yet = λ t le. elim (dec_le (t + cnt) idx) [
      | yes before ↦ h.none_yet t before
      | no over ↦ broken t idx used (omega (arith, h.short)) (omega arith)
    ];
  }

  all_free :
      (idx found : ℕ)
      → Looking s cnt idx found
      → s idx ≡ 0
      → (j : ℕ) → idx ≤ j + found
      → j < idx + 1
      → s j ≡ 0
  all_free idx found h here j lo hi = elim (dec_lt j idx) [
    | yes before ↦ h.free j lo before
    | no at ↦ let e : j ≡ idx = omega arith in rw e here
  ]

  over_free :
      (idx found : ℕ)
      → Looking s cnt idx found
      → s idx ≡ 0
      → cnt ≢ found + 1
      → Looking s cnt (idx + 1) (found + 1)
  over_free idx found h here ne = record {
    short = omega (arith, h.short);
    behind = omega (arith, h.behind);
    free = λ j lo hi. all_free idx found h here j (omega arith) hi;
    edge = λ lt.
        let e : idx + 1 - (found + 1) - 1 ≡ idx - found - 1 = omega arith in
        rw e (h.edge (omega arith));
    none_yet = λ t le. elim (dec_lt (t + found) idx) [
      | yes far ↦ no_longer idx found t h le far
      | no near ↦ absurd (omega (arith, h.short, h.behind))
    ];
  }

  found_here :
      (n idx found : ℕ) (m : DoublebitMap)
      → HasSlots m s
      → Looking s cnt idx found
      → s idx ≡ 0
      → cnt ≡ found + 1
      → 1 ≤ n
      → idx + n < 2 ^ 31
      → Allocated (idx + n) cnt m s (idx + 1 - cnt, sync (idx + 1 - cnt) cnt m)
  found_here n idx found m v h here hit pos lt = inr (
    omega (arith, h.behind),
    λ j lo hi. all_free idx found h here j (omega (arith, h.behind)) (omega (arith, h.behind)),
    λ t below. no_longer idx found t h (omega (arith, h.behind)) (omega (arith, h.behind)),
    sync-HasSlots (idx + 1 - cnt) cnt m s v (omega arith) (omega (arith, h.behind)),
  )

  search-Allocated :
      (n idx found : ℕ) (m : DoublebitMap)
      → HasSlots m s
      → Looking s cnt idx found
      → idx + n < 2 ^ 31
      → cnt < 2 ^ 31
      → Allocated (idx + n) cnt m s (search n cnt idx found m)
  unfolding search
  search-Allocated zero idx found m v h lt hc = inl (refl, refl, λ t le. h.none_yet t (omega arith))
  search-Allocated (suc n) idx found m v h lt hc = elim (ℕ_discrete (s idx) 0) [
    | no used ↦
        let e : (get_slot_status idx m == 0) ≡ false =
          ==_ne _ 0 (λ w. used (sym (v.status idx (omega arith)) ∙ w)) in
        let total : idx + suc n ≡ (idx + 1) + n = omega arith in
        rw (e, total)
          (search-Allocated n (idx + 1) 0 m v (over_used idx found h used) (omega arith) hc)
    | yes here ↦
        let e : (get_slot_status idx m == 0) ≡ true =
          (==_iff _ 0).1 (v.status idx (omega arith) ∙ here) in
        let w : add32 found 1 ≡ found + 1 = omega (arith, h.short) in
        elim (ℕ_discrete cnt (found + 1)) [
          | no miss ↦
              let one : (cnt == 1) ≡ false = ==_ne cnt 1 (λ x. miss (omega (arith, h.short))) in
              let total : idx + suc n ≡ (idx + 1) + n = omega arith in
              rw (e, one, w, ==_ne (found + 1) cnt (λ x. miss (sym x)), total)
                (search-Allocated n (idx + 1) (found + 1) m v (over_free idx found h here miss)
                  (omega arith) hc)
          | yes hit ↦
              let r : add32 (sub32 idx cnt) 1 ≡ idx + 1 - cnt =
                add32-sub32_one idx cnt (omega arith) (omega arith) (omega arith)
                  (omega (arith, h.behind)) in
              let take = found_here (suc n) idx found m v h here hit (omega arith) lt in
              elim (ℕ_discrete cnt 1) [
                | yes one ↦
                    let start : idx + 1 - cnt ≡ idx = omega arith in
                    let t =
                      subst (λ x. Allocated (idx + suc n) cnt m s (x, sync x cnt m)) start take in
                    rw (e, (==_iff cnt 1).1 one) t
                | no more ↦
                    let size : (found + 1 == cnt) ≡ true = (==_iff _ _).1 (sym hit) in
                    rw (e, ==_ne cnt 1 more, w, size, r) take
              ]
        ]
  ]

-- On a map of fewer than 2 ^ 28 bytes, `get_free_slots` takes the lowest run of `cnt` free slots
-- among the first eight per byte of `bytes_len` (though a byte holds four), marks it as in use and
-- leaves the other slots; it gives -1 and changes nothing exactly if there is no such run.
pub get_free_slots-Allocated :
    (cnt : ℕ) (m : DoublebitMap) (s : ℕ → ℕ)
    → HasSlots m s
    → m.bytes_len < 2 ^ 28
    → 1 ≤ cnt
    → cnt < 2 ^ 31
    → Allocated (8 * m.bytes_len) cnt m s (get_free_slots cnt m)
unfolding get_free_slots
get_free_slots-Allocated cnt m s v small pos hc =
    let total : mul32 m.bytes_len 8 ≡ 8 * m.bytes_len = omega arith in
    let start : Looking s cnt 0 0 = record {
      short = pos;
      behind = omega arith;
      free = λ j lo hi. absurd (omega arith);
      edge = λ lt. absurd (omega arith);
      none_yet = λ t le. absurd (omega arith);
    } in
    let e : 0 + 8 * m.bytes_len ≡ 8 * m.bytes_len = omega arith in
    rw total (
      subst (λ n. Allocated n cnt m s (search (8 * m.bytes_len) cnt 0 0 m)) e
        (search-Allocated s cnt (8 * m.bytes_len) 0 0 m v start (omega arith) hc))
