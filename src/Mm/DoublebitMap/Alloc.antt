-- ===== src/Mm/DoublebitMap/Alloc.antt =====
-- What `sync` and `get_free_slots` do to the statuses of the slots.
use shmily.Base.{
  ℕ, zero, suc, ◌+◌, ◌-◌, ◌^◌, ◌≤◌, ◌<◌, ◌≡◌, ap, ◌∙◌, Bool, ◌&&◌, arith, ◌==◌, ltb, leb,
  if◌then◌else◌, add32, sub32, ==_ne, ℕ_discrete,
}
use shmily.Mm.DoublebitMap.{DoublebitMap, get_slot_status, set_slot_value, sync_middle, sync}
use shmily.Mm.DoublebitMap.Slots.{IsValid, set_slot-IsValid, slot_status-set}

-- The statuses of the slots below 2 ^ 31 are those given.
pub record HasSlots (m : DoublebitMap) (s : ℕ → ℕ) : Type 0 where
  pub valid : IsValid m
  pub status : (j : ℕ) → j < 2 ^ 31 → get_slot_status j m ≡ s j

pub set_slot-HasSlots :
    (idx val : ℕ) (m : DoublebitMap) (s : ℕ → ℕ)
    → HasSlots m s
    → idx < 2 ^ 31
    → val < 4
    → HasSlots (set_slot_value idx val m) (λ j. if idx == j then val else s j)
set_slot-HasSlots idx val m s h lt hv = record {
  valid = set_slot-IsValid idx val m h.valid lt hv;
  status = λ j hj.
      slot_status-set idx val j m h.valid lt hv hj
      ∙ ap (λ x. if idx == j then val else x) (h.status j hj);
}

pub HasSlots-same :
    (m : DoublebitMap) (s t : ℕ → ℕ)
    → HasSlots m s
    → ((j : ℕ) → j < 2 ^ 31 → s j ≡ t j)
    → HasSlots m t
HasSlots-same m s t h e = record { valid = h.valid; status = λ j hj. h.status j hj ∙ e j hj }

sync_middle-HasSlots :
    (n start i : ℕ) (m : DoublebitMap) (s : ℕ → ℕ)
    → HasSlots m s
    → start + i + n < 2 ^ 31
    → HasSlots
        (sync_middle n start i m)
        (λ j. if leb (start + i) j && ltb j (start + i + n) then 1 else s j)
unfolding sync_middle
sync_middle-HasSlots zero start i m s h lt = HasSlots-same m s _ h (λ j hj. ground arith)
sync_middle-HasSlots (suc n) start i m s h lt =
    let a : add32 start i ≡ start + i = omega arith in
    rw a (
      HasSlots-same _ _ _
        (sync_middle-HasSlots n start (i + 1) (set_slot_value (start + i) 1 m) _
          (set_slot-HasSlots (start + i) 1 m s h (omega arith) (omega arith)) (omega arith))
        (λ j hj. ground arith))

-- The statuses of `cnt` slots in use from `start` on: one alone is 01, and a sequence is 10 at its
-- start, 11 at its end and 01 between.
abbrev pub marked : ℕ → ℕ → ℕ → ℕ
marked start cnt j =
    if cnt == 1 then 1 else if j == start then 2 else if j + 1 == start + cnt then 3 else 1

abbrev pub within : ℕ → ℕ → ℕ → Bool
within start cnt j = leb start j && ltb j (start + cnt)

pub sync-HasSlots :
    (start cnt : ℕ) (m : DoublebitMap) (s : ℕ → ℕ)
    → HasSlots m s
    → 1 ≤ cnt
    → start + cnt < 2 ^ 31
    → HasSlots (sync start cnt m) (λ j. if within start cnt j then marked start cnt j else s j)
unfolding sync
sync-HasSlots start cnt m s h pos lt = elim (ℕ_discrete cnt 1) [
  | yes one ↦ rw one (
      HasSlots-same _ _ _ (set_slot-HasSlots start 1 m s h (omega arith) (omega arith))
        (λ j hj. ground arith))
  | no more ↦
      let a : sub32 cnt 1 - 1 ≡ cnt - 2 = omega arith in
      let b : sub32 (add32 start cnt) 1 ≡ start + cnt - 1 = omega arith in
      rw (==_ne cnt 1 more, a, b)
        (HasSlots-same _ _ _
          (set_slot-HasSlots (start + cnt - 1) 3 _ _
            (sync_middle-HasSlots (cnt - 2) start 1 _ _
              (set_slot-HasSlots start 2 m s h (omega arith) (omega arith)) (omega arith))
            (omega arith) (omega arith))
          (λ j hj. ground arith))
]
