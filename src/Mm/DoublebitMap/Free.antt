-- ===== src/Mm/DoublebitMap/Free.antt =====
-- Freeing slots, and that it undoes an allocation.
use shmily.Base.{
  ℕ, zero, suc, ◌+◌, ◌-◌, ◌^◌, ◌≤◌, ◌<◌, ◌≡◌, refl, sym, ap, ◌∙◌, ◌≢◌, true, false, arith, ◌==◌,
  if◌then◌else◌, add32, minus_one, ==_iff, ==_ne, ℕ_discrete, inl, inr, some,
}
use shmily.Mm.DoublebitMap.{
  DoublebitMap, get_slot_status, set_slot_value, get_free_slots, clear_slots, free_slots,
}
use shmily.Mm.DoublebitMap.Alloc.{HasSlots, HasSlots-same, set_slot-HasSlots, within}
use shmily.Mm.DoublebitMap.Search.{Free, allocated, get_free_slots-Allocated}

-- The statuses once `cnt` slots from `r` on are free.
abbrev pub freed : (ℕ → ℕ) → ℕ → ℕ → ℕ → ℕ
freed s r cnt j = if within r cnt j then 0 else s j

clear_slots_step :
    (k idx cnt : ℕ) (m : DoublebitMap)
    → get_slot_status idx m ≢ 3
    → idx + 1 < 2 ^ 32
    → cnt + 1 < 2 ^ 32
    → clear_slots (suc k) idx cnt m ≡ clear_slots k (idx + 1) (cnt + 1) (set_slot_value idx 0 m)
unfolding clear_slots
clear_slots_step k idx cnt m here hi hc =
    let e : (3 == get_slot_status idx m) ≡ false = ==_ne 3 _ (λ w. here (sym w)) in
    let a : add32 idx 1 ≡ idx + 1 = omega arith in
    let b : add32 cnt 1 ≡ cnt + 1 = omega arith in rw (e, a, b) refl

clear_slots-freed :
    (d fuel idx cnt : ℕ) (m : DoublebitMap) (s : ℕ → ℕ)
    → HasSlots m s
    → s (idx + d) ≡ 3
    → ((e : ℕ) → e < d → s (idx + e) ≢ 3)
    → idx + d < 2 ^ 31
    → cnt + d < 2 ^ 31
    → d < fuel
    → (m' : DoublebitMap) × (clear_slots fuel idx cnt m ≡ some (cnt + d + 1, m'))
      × HasSlots m' (freed s idx (d + 1))
unfolding clear_slots
clear_slots-freed d zero idx cnt m s v last others lt room f = absurd (omega arith)
clear_slots-freed zero (suc k) idx cnt m s v last others lt room f =
    let here : s idx ≡ 3 = ap s (omega arith) ∙ last in
    let e : (3 == get_slot_status idx m) ≡ true =
      (==_iff 3 _).1 (sym (v.status idx (omega arith) ∙ here)) in
    let n : add32 cnt 1 ≡ cnt + 0 + 1 = omega arith in
    (
      set_slot_value idx 0 m,
      rw (e, n) refl,
      HasSlots-same _ _ _ (set_slot-HasSlots idx 0 m s v (omega arith) (omega arith))
          (λ j hj. ground arith),
    )
clear_slots-freed (suc d) (suc k) idx cnt m s v last others lt room f =
    let here : s idx ≢ 3 = λ w. others 0 (omega arith) (ap s (omega arith) ∙ w) in
    let step =
      clear_slots_step k idx cnt m (λ w. here (sym (v.status idx (omega arith)) ∙ w)) (omega arith)
        (omega arith) in
    let n : cnt + 1 + d + 1 ≡ cnt + suc d + 1 = omega arith in
    let (m', done, w) =
      clear_slots-freed d k (idx + 1) (cnt + 1) (set_slot_value idx 0 m)
        (λ j. if idx == j then 0 else s j)
        (set_slot-HasSlots idx 0 m s v (omega arith) (omega arith))
        (let ne : (idx == idx + 1 + d) ≡ false = ==_ne idx _ (λ w. omega arith) in
          rw ne (ap s (omega arith) ∙ last))
        (λ x h q.
          let ne : (idx == idx + 1 + x) ≡ false = ==_ne idx _ (λ w. omega arith) in
          others (suc x) (omega arith) (ap s (omega arith) ∙ (rw ne at q)))
        (omega arith) (omega arith) (omega arith) in
    (m', step ∙ done ∙ ap (λ t. some (t, m')) n, HasSlots-same _ _ _ w (λ j hj. ground arith))

-- What `get_free_slots` took, `free_slots` gives back: with more rounds than slots it returns, it
-- returns their number, and every slot has the status that it had before.
pub free_slots-get_free_slots :
    (fuel cnt : ℕ) (m : DoublebitMap) (s : ℕ → ℕ)
    → HasSlots m s
    → m.bytes_len < 2 ^ 28
    → 1 ≤ cnt
    → cnt < 2 ^ 31
    → cnt < fuel
    → (get_free_slots cnt m).0 ≢ minus_one
    → let (start, m1) = get_free_slots cnt m in
      (m2 : DoublebitMap) × (free_slots fuel start m1 ≡ some (cnt, m2)) × HasSlots m2 s
unfolding free_slots
free_slots-get_free_slots fuel cnt m s v small pos hc f found =
    elim (get_free_slots-Allocated cnt m s v small pos hc) [
      | inl failed ↦ absurd (found failed.0)
      | inr (fits, run, lowest, w) ↦
          give_back (get_free_slots cnt m).0 (get_free_slots cnt m).1 (omega arith) run w
    ]
  where
    whole :
        (r : ℕ) (m1 : DoublebitMap)
        → get_slot_status r m1 ≡ 2
        → r + cnt < 2 ^ 31
        → Free s r cnt
        → (m2 : DoublebitMap) × (clear_slots fuel r 0 m1 ≡ some (0 + (cnt - 1) + 1, m2))
          × HasSlots m2 (freed (allocated s r cnt) r (cnt - 1 + 1))
        → (m2 : DoublebitMap) × (free_slots fuel r m1 ≡ some (cnt, m2)) × HasSlots m2 s
    whole r m1 two lt run (m2, done, u) =
        let n : 0 + (cnt - 1) + 1 ≡ cnt = omega arith in
        (
          m2,
          rw two (done ∙ ap (λ t. some (t, m2)) n),
          HasSlots-same _ _ _ u (λ j hj. ground (arith, run j)),
        )

    give_back :
        (r : ℕ) (m1 : DoublebitMap)
        → r + cnt < 2 ^ 31
        → Free s r cnt
        → HasSlots m1 (allocated s r cnt)
        → (m2 : DoublebitMap) × (free_slots fuel r m1 ≡ some (cnt, m2)) × HasSlots m2 s
    give_back r m1 lt run w = elim (ℕ_discrete cnt 1) [
      | yes one ↦
          let e : (1 == get_slot_status r m1) ≡ true =
            (==_iff 1 _).1 (sym (w.status r (omega arith) ∙ ground arith)) in
          (
            set_slot_value r 0 m1,
            rw (e, one) refl,
            HasSlots-same _ _ _ (set_slot-HasSlots r 0 m1 _ w (omega arith) (omega arith))
                (λ j hj. ground (arith, run j)),
          )
      | no more ↦
          let two : get_slot_status r m1 ≡ 2 = w.status r (omega arith) ∙ ground arith in
          whole r m1 two lt run (
            clear_slots-freed (cnt - 1) fuel r 0 m1 (allocated s r cnt) w (ground arith)
              (λ e h q. ground arith) (omega arith) (omega arith) (omega arith))
    ]
