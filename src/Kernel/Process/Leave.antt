-- ===== src/Kernel/Process/Leave.antt =====
-- The ready queues once the process that blocks has been taken off its own.
use mathlib.Core.List.{append_assoc}
use mathlib.Core.Path.{subst}
use shmily.Base.{
  ℕ, ◌<◌, ◌≡◌, refl, sym, ap, ◌∙◌, ◌≢◌, inl, inr, List, [], ◌∷◌, ◌++◌, ◌==◌, ℕ_discrete, ==_iff,
  All, All-append, All-append_left, All-append_right, All-imp, Bool-cases, Distinct,
  Distinct-delete,
}
use shmily.Support.CycleList.{tail, next_elem, remove}
use shmily.Support.CycleList.Refine.{IsList, nodes, remove-IsList}
use shmily.Support.CycleList.Walk.{first}
use shmily.Support.CycleList.Frame.{Disjoint, remove-IsList_other, next_elem-remove}
use shmily.Kernel.State.{Kernel, Status, queue, set_status}
use shmily.Kernel.Process.Queues.{
  Queues, with_queue, with_queue_self, with_queue_other, set_status_priority, All-nodes,
  All-without,
}
use shmily.Kernel.Process.Choose.{Ring, turn}
use shmily.Kernel.Process.Schedule.{first-All}

-- The state from which the next process is chosen once the current one has blocked.
abbrev pub blocked_with : Status → Kernel → Kernel
blocked_with s k = record (set_status k.cur_proc s k) {
  links = remove k.cur_proc k.links;
  next_proc = 0;
}

swap_nil : (us vs : List ℕ) → vs ++ us ≡ [] → us ++ vs ≡ []
swap_nil [] [] w = refl
swap_nil us (v ∷ vs) w = absurd (cc)
swap_nil (u ∷ us) [] w = absurd (cc)

module _ (k : Kernel) (q : ℕ → List ℕ) (s : Status) (mine : ℕ) (xs ys : List ℕ) where
  lists_left :
      Queues k q
      → mine < 5
      → q mine ≡ xs ++ k.cur_proc ∷ ys
      → (i : ℕ) → i < 5
      → IsList (remove k.cur_proc k.links) (queue k i) (with_queue q mine (xs ++ ys) i)
  lists_left v lt e i h =
      let here = subst (IsList k.links (queue k mine)) e (v.lists mine lt) in
      elim (ℕ_discrete i mine) [
        | yes same ↦
            subst
              (λ j. IsList (remove k.cur_proc k.links) (queue k j) (with_queue q mine (xs ++ ys) j))
              (sym same)
              (rw (with_queue_self q mine (xs ++ ys))
                (remove-IsList k.links (queue k mine) k.cur_proc xs ys here))
        | no other ↦ rw (with_queue_other q mine (xs ++ ys) i other) (
            remove-IsList_other k.links (queue k mine) k.cur_proc (queue k i) xs ys (q i) here
              (v.lists i h)
              (subst (λ z. Disjoint (nodes (queue k i) (q i)) (nodes (queue k mine) z)) e
                (v.disjoint i mine h lt other)))
      ]

  -- The queues without the process that blocks.
  pub Queues-left :
      Queues k q
      → mine < 5
      → q mine ≡ xs ++ k.cur_proc ∷ ys
      → Queues (blocked_with s k) (with_queue q mine (xs ++ ys))
  Queues-left v lt e = record {
    lists = lists_left v lt e;
    disjoint = λ i j hi hj ne.
        All-nodes (λ p. All (λ y. p ≢ y) (nodes (queue k j) (with_queue q mine (xs ++ ys) j)))
          (queue k i) (q i) (with_queue q mine (xs ++ ys) i)
          (All-without (λ p. All (λ y. p ≢ y) (nodes (queue k j) (with_queue q mine (xs ++ ys) j)))
            q mine k.cur_proc xs ys i e)
          (All-imp (λ p. All (λ y. p ≢ y) (nodes (queue k j) (q j)))
            (λ p. All (λ y. p ≢ y) (nodes (queue k j) (with_queue q mine (xs ++ ys) j)))
            (nodes (queue k i) (q i))
            (λ p.
              All-nodes (λ y. p ≢ y) (queue k j) (q j) (with_queue q mine (xs ++ ys) j)
                (All-without (λ y. p ≢ y) q mine k.cur_proc xs ys j e))
            (v.disjoint i j hi hj ne));
    own = λ i h.
        All-without (λ p. ((blocked_with s k).pcb p).priority ≡ i) q mine k.cur_proc xs ys i e
          (All-imp (λ p. (k.pcb p).priority ≡ i) (λ p. ((blocked_with s k).pcb p).priority ≡ i)
            (q i) (λ p w. set_status_priority k k.cur_proc s p ∙ w) (v.own i h));
    real = λ i h. All-without (λ p. p ≢ 0) q mine k.cur_proc xs ys i e (v.real i h);
    above = λ i h low. elim (ℕ_discrete i mine) [
      | yes same ↦ absurd (filled xs ys (sym (ap q same ∙ e) ∙ v.above i h low))
      | no other ↦ with_queue_other q mine (xs ++ ys) i other ∙ v.above i h low
    ];
  }
    where
      filled : (us vs : List ℕ) → us ++ k.cur_proc ∷ vs ≡ [] → ⊥
      filled [] vs w = cc
      filled (u ∷ us) vs w = cc

  others_left :
      Queues k q
      → mine < 5
      → q mine ≡ xs ++ k.cur_proc ∷ ys
      → (i : ℕ) → i < 5
      → All (λ p. p ≢ k.cur_proc) (with_queue q mine (xs ++ ys) i)
  others_left v lt e i h = elim (ℕ_discrete i mine) [
    | yes same ↦
        let whole : Distinct (nodes (queue k mine) (xs ++ k.cur_proc ∷ ys)) =
          subst (λ z. Distinct (nodes (queue k mine) z)) e (v.lists mine lt).distinct in
        let split : Distinct
            ((queue k mine ∷ xs) ++ k.cur_proc ∷ (ys ++ tail (queue k mine) ∷ [])) =
          rw append_assoc at whole in
        let apart =
          (Distinct-delete k.cur_proc (queue k mine ∷ xs) (ys ++ tail (queue k mine) ∷ [])
            split).1 in
        subst (λ j. All (λ p. p ≢ k.cur_proc) (with_queue q mine (xs ++ ys) j)) (sym same)
          (rw (with_queue_self q mine (xs ++ ys)) (
            All-append (λ p. p ≢ k.cur_proc) xs ys
              (All-append_left (λ p. p ≢ k.cur_proc) xs (ys ++ tail (queue k mine) ∷ []) apart.1)
              (All-append_left (λ p. p ≢ k.cur_proc) ys (tail (queue k mine) ∷ [])
                (All-append_right (λ p. p ≢ k.cur_proc) xs (ys ++ tail (queue k mine) ∷ [])
                  apart.1))))
    | no other ↦
        let far =
          subst (λ z. Disjoint (nodes (queue k i) (q i)) (nodes (queue k mine) z)) e
            (v.disjoint i mine h lt other) in
        rw (with_queue_other q mine (xs ++ ys) i other) (
          All-imp (λ p. All (λ y. p ≢ y) (nodes (queue k mine) (xs ++ k.cur_proc ∷ ys)))
            (λ p. p ≢ k.cur_proc) (q i)
            (λ p w.
              (All-append_right (λ y. p ≢ y) xs (k.cur_proc ∷ ys)
                (All-append_left (λ y. p ≢ y) (xs ++ k.cur_proc ∷ ys) (tail (queue k mine) ∷ [])
                  w.1)).0)
            (All-append_left (λ p. All (λ y. p ≢ y) (nodes (queue k mine) (xs ++ k.cur_proc ∷ ys)))
              (q i) (tail (queue k i) ∷ []) far.1))
  ]

  pub Ring-left :
      Queues k q
      → mine ≡ (k.pcb k.cur_proc).priority
      → q mine ≡ xs ++ k.cur_proc ∷ ys
      → Ring (blocked_with s k) (with_queue q mine (xs ++ ys)) (first (ys ++ xs))
  Ring-left v own e prio lt same some_here =
      let at : prio ≡ mine = sym same ∙ set_status_priority k k.cur_proc s k.cur_proc ∙ sym own in
      let here = subst (λ i. with_queue q mine (xs ++ ys) i ≢ []) at some_here in
      let ne : ys ++ xs ≢ [] = λ w. here (with_queue_self q mine (xs ++ ys) ∙ swap_nil xs ys w) in
      let lt' = subst (λ i. i < 5) at lt in
      let list = subst (IsList k.links (queue k mine)) e (v.lists mine lt') in
      let real = subst (All (λ p. p ≢ 0)) e (v.real mine lt') in
      (
        subst (λ i. next_elem (queue k i) k.cur_proc (remove k.cur_proc k.links) ≡ first (ys ++ xs))
            (sym at) (next_elem-remove k.links (queue k mine) k.cur_proc xs ys list ne),
        first-All (λ p. p ≢ 0) (ys ++ xs) ne
            (All-append (λ p. p ≢ 0) ys xs
              (All-append_right (λ p. p ≢ 0) xs (k.cur_proc ∷ ys) real).1
              (All-append_left (λ p. p ≢ 0) xs (k.cur_proc ∷ ys) real)),
      )

  pub turn_left :
      Queues k q
      → mine ≡ (k.pcb k.cur_proc).priority
      → mine < 5
      → q mine ≡ xs ++ k.cur_proc ∷ ys
      → (prio : ℕ) → prio < 5
      → with_queue q mine (xs ++ ys) prio ≢ []
      → turn (blocked_with s k) (with_queue q mine (xs ++ ys)) (first (ys ++ xs)) prio ≢ k.cur_proc
  turn_left v own lt e prio h ne =
      elim (Bool-cases (((blocked_with s k).pcb k.cur_proc).priority == prio)) [
        | inr other ↦ rw other (
            first-All (λ p. p ≢ k.cur_proc) (with_queue q mine (xs ++ ys) prio) ne
              (others_left v lt e prio h))
        | inl same ↦
            let at : prio ≡ mine =
              sym ((==_iff _ _).0 same) ∙ set_status_priority k k.cur_proc s k.cur_proc ∙ sym own in
            let here = subst (λ i. with_queue q mine (xs ++ ys) i ≢ []) at ne in
            let apart : All (λ p. p ≢ k.cur_proc) (xs ++ ys) =
              rw with_queue_self at (others_left v lt e mine lt) in
            rw same (
              first-All (λ p. p ≢ k.cur_proc) (ys ++ xs)
                (λ w. here (with_queue_self q mine (xs ++ ys) ∙ swap_nil xs ys w))
                (All-append (λ p. p ≢ k.cur_proc) ys xs
                  (All-append_right (λ p. p ≢ k.cur_proc) xs ys apart)
                  (All-append_left (λ p. p ≢ k.cur_proc) xs ys apart)))
      ]
