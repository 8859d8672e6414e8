-- ===== src/Kernel/Process/Pick.antt =====
-- Which priority `schedule` settles on.
use mathlib.Core.Path.{subst}
use shmily.Base.{
  ℕ, zero, suc, ◌+◌, ◌≤◌, ◌<◌, ◌≡◌, refl, ap, ◌∙◌, ◌≢◌, ◌⊎◌, inl, inr, List, [], true, false, ◌&&◌,
  arith, ◌==◌, ltb, update, Bool-cases, ℕ_discrete,
}
use shmily.Support.CycleList.{is_empty}
use shmily.Support.CycleList.Refine.{is_empty_iff}
use shmily.Kernel.State.{Kernel, queue}
use shmily.Kernel.Process.{pick}
use shmily.Kernel.Process.Queues.{Queues}

-- A priority is passed over if its queue is empty, or if it is below 3 and has no rounds left.
abbrev pub PassedOver : Kernel → (ℕ → List ℕ) → ℕ → Type 0
PassedOver k q i = (q i ≡ []) ⊎ ((k.max_rounds i ≡ 0) × (i < 3))

abbrev pub UsedUp : Kernel → ℕ → Type 0
UsedUp k i = (k.max_rounds i ≡ 0) × (i < 3)

-- From `prio` on, `p` is the first priority that is not passed over, or 5 if there is none. Those
-- passed over for want of rounds have 10 again, and nothing else has changed.
pub record Picked (k : Kernel) (q : ℕ → List ℕ) (prio p : ℕ) (k' : Kernel) : Type 0 where
  pub from : prio ≤ p
  pub upto : p ≤ 5
  pub ready : p < 5 → (q p ≢ []) × ¬ UsedUp k p
  pub passed : (i : ℕ) → prio ≤ i → i < p → PassedOver k q i
  pub same : k' ≡ record k { max_rounds = k'.max_rounds }
  pub refilled : (i : ℕ) → prio ≤ i → i < p → UsedUp k i → k'.max_rounds i ≡ 10
  pub kept : (i : ℕ) → (i < prio) ⊎ ((p ≤ i) ⊎ ¬ UsedUp k i) → k'.max_rounds i ≡ k.max_rounds i

refill : Kernel → ℕ → Kernel
refill k prio = record k { max_rounds = update k.max_rounds prio 10 }

Picked-refill :
    (k : Kernel) (q : ℕ → List ℕ) (prio p : ℕ) (k' : Kernel)
    → UsedUp k prio
    → Picked (refill k prio) q (prio + 1) p k'
    → Picked k q prio p k'
unfolding refill
Picked-refill k q prio p k' used h = record {
  from = omega (arith, h.from);
  upto = h.upto;
  ready = λ lt. ground (arith, h.ready lt, h.from);
  passed = λ i lo hi. ground (arith, h.passed i, used);
  same = h.same;
  refilled = λ i lo hi u. ground (arith, h.refilled i, h.kept i);
  kept = λ i c. ground (arith, h.kept i, h.from);
}

Picked-further :
    (k : Kernel) (q : ℕ → List ℕ) (prio p : ℕ) (k' : Kernel)
    → q prio ≡ []
    → ¬ UsedUp k prio
    → Picked k q (prio + 1) p k'
    → Picked k q prio p k'
Picked-further k q prio p k' e fresh h = record {
  from = omega (arith, h.from);
  upto = h.upto;
  ready = h.ready;
  passed = λ i lo hi. elim (ℕ_discrete i prio) [
    | yes same ↦ inl (ap q same ∙ e)
    | no other ↦ h.passed i (omega arith) hi
  ];
  same = h.same;
  refilled = λ i lo hi u. elim (ℕ_discrete i prio) [
    | yes same ↦ absurd (fresh (subst (UsedUp k) same u))
    | no other ↦ h.refilled i (omega arith) hi u
  ];
  kept = λ i c. elim (ℕ_discrete i prio) [
    | yes same ↦ h.kept i (inl (omega arith))
    | no other ↦ h.kept i (ground arith)
  ];
}

Picked-here :
    (k : Kernel) (q : ℕ → List ℕ) (prio : ℕ)
    → prio ≤ 5
    → (prio < 5 → (q prio ≢ []) × ¬ UsedUp k prio)
    → Picked k q prio prio k
Picked-here k q prio h good = record {
  from = omega arith;
  upto = h;
  ready = good;
  passed = λ i lo hi. absurd (omega arith);
  same = refl;
  refilled = λ i lo hi u. absurd (omega arith);
  kept = λ i c. refl;
}

UsedUp-test :
    (k : Kernel) (i : ℕ)
    → (((k.max_rounds i == 0) && ltb i 3) ≡ true → UsedUp k i)
      × (((k.max_rounds i == 0) && ltb i 3) ≡ false → ¬ UsedUp k i)
UsedUp-test k i = (λ e. ground arith, λ e u. ground arith)

Queues-refill : (k : Kernel) (q : ℕ → List ℕ) (prio : ℕ) → Queues k q → Queues (refill k prio) q
unfolding refill
Queues-refill k q prio v = record {
  lists = v.lists;
  disjoint = v.disjoint;
  own = v.own;
  real = v.real;
  above = v.above;
}

-- From priority `prio` on, and with a round for each priority up to 5, `pick` settles on the first
-- one whose queue has a process and that has not used up its rounds, or on 5; those below 3 that
-- have used up theirs have 10 rounds again, and nothing else changes.
pub pick-Picked :
    (n prio : ℕ) (k : Kernel) (q : ℕ → List ℕ)
    → Queues k q
    → prio + n ≡ 5
    → let (p, k') = pick n prio k in Picked k q prio p k'
unfolding pick refill
pick-Picked zero prio k q v e = Picked-here k q prio (omega arith) (λ lt. absurd (omega arith))
pick-Picked (suc n) prio k q v e = elim (Bool-cases ((k.max_rounds prio == 0) && ltb prio 3)) [
  | inl used ↦ rw used (
      Picked-refill k q prio _ _ ((UsedUp-test k prio).0 used)
        (pick-Picked n (prio + 1) (refill k prio) q (Queues-refill k q prio v) (omega arith)))
  | inr fresh ↦
      let list = v.lists prio (omega arith) in
      let iff = is_empty_iff k.links (queue k prio) (q prio) list in
      elim (Bool-cases (is_empty (queue k prio) k.links)) [
        | inl none_here ↦
            rw (fresh, none_here)
              (Picked-further k q prio _ _ (iff.0 none_here) ((UsedUp-test k prio).1 fresh)
                (pick-Picked n (prio + 1) k q v (omega arith)))
        | inr some_here ↦
            rw (fresh, some_here)
              (Picked-here k q prio (omega arith)
                (λ lt. (λ nil. let t = iff.1 nil in cc, (UsedUp-test k prio).1 fresh)))
      ]
]
