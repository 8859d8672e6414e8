-- ===== src/Kernel/Process/Wake.antt =====
-- What `unblock_proc` and the start of a process do: one more process in a ready queue.
use mathlib.Core.Path.{subst}
use shmily.Base.{
  ℕ, ◌≤◌, ◌<◌, ◌≡◌, refl, sym, ap, ◌∙◌, ◌≢◌, inl, inr, List, [], ◌∷◌, ◌++◌, arith, ltb,
  if◌then◌else◌, update_ne, update_self, ℕ_discrete, All, All-append, All-imp, All-imp₂, Bool-cases,
  ltb→lt,
}
use shmily.Support.CycleList.{append}
use shmily.Support.CycleList.Linked.{Apart}
use shmily.Support.CycleList.Refine.{IsList, nodes, append-IsList}
use shmily.Support.CycleList.Frame.{Disjoint, append-IsList_other}
use shmily.Kernel.State.{Kernel, Status, ready, waiting_mid, queue, set_status}
use shmily.Kernel.Process.{unblock_proc, make_ready}
use shmily.Kernel.Process.Queues.{
  Queues, Outside, with_queue, with_queue_self, with_queue_other, set_status_priority,
  Queues-status, All-nodes,
}

-- The queues with the process `e` behind those of priority `mine`.
abbrev pub added : (ℕ → List ℕ) → ℕ → ℕ → ℕ → List ℕ
added q mine e = with_queue q mine (q mine ++ e ∷ [])

All-added :
    (P : ℕ → Type 0) (q : ℕ → List ℕ) (mine e i : ℕ) → P e → All P (q i) → All P (added q mine e i)
All-added P q mine e i new h = elim (ℕ_discrete i mine) [
  | yes same ↦
      subst (λ j. All P (added q mine e j)) (sym same)
        (rw (with_queue_self q mine (q mine ++ e ∷ []))
          (All-append P (q mine) (e ∷ []) (subst (λ j. All P (q j)) same h) (new, tt)))
  | no other ↦ rw (with_queue_other q mine (q mine ++ e ∷ []) i other) h
]

below : (i top prio : ℕ) → i < (if ltb prio top then prio else top) → (i ≢ prio) × (i < top)
below i top prio h = elim (Bool-cases (ltb prio top)) [
  | inl lower ↦
      let c : i < prio = rw lower at h in
      (λ e. absurd (omega arith), omega (arith, ltb→lt prio top lower))
  | inr no_lower ↦ let c : i < top = rw no_lower at h in ground arith
]

module _ (k : Kernel) (q : ℕ → List ℕ) (mine e : ℕ) (v : Queues k q) (lt : mine < 5)
    (out : Outside k q e) where
  lists_added :
      (i : ℕ) → i < 5 → IsList (append (queue k mine) e k.links) (queue k i) (added q mine e i)
  lists_added i h = elim (ℕ_discrete i mine) [
    | yes same ↦
        subst (λ j. IsList (append (queue k mine) e k.links) (queue k j) (added q mine e j))
          (sym same)
          (rw (with_queue_self q mine (q mine ++ e ∷ []))
            (append-IsList k.links (queue k mine) e (q mine) (v.lists mine lt) (out mine lt)))
    | no other ↦ rw (with_queue_other q mine (q mine ++ e ∷ []) i other) (
        append-IsList_other k.links (queue k mine) e (queue k i) (q mine) (q i) (v.lists mine lt)
          (out mine lt) (v.lists i h) (out i h) (v.disjoint i mine h lt other))
  ]

  Disjoint-added :
      (i j : ℕ)
      → i < 5
      → j < 5
      → i ≢ j
      → Disjoint (nodes (queue k i) (added q mine e i)) (nodes (queue k j) (added q mine e j))
  Disjoint-added i j hi hj ne = elim (ℕ_discrete i mine) [
    | no other ↦ rw (with_queue_other q mine (q mine ++ e ∷ []) i other) (
        All-imp₂ (λ p. All (λ y. p ≢ y) (nodes (queue k j) (q j))) (Apart e)
          (λ p. All (λ y. p ≢ y) (nodes (queue k j) (added q mine e j))) (nodes (queue k i) (q i))
          (λ p far apart.
            All-nodes (λ y. p ≢ y) (queue k j) (q j) (added q mine e j)
              (All-added (λ y. p ≢ y) q mine e j apart) far)
          (v.disjoint i j hi hj ne) (out i hi))
    | yes same ↦
        let there : j ≢ mine = λ w. ne (same ∙ sym w) in
        subst
          (λ z.
            All (λ p. All (λ y. p ≢ y) (nodes (queue k j) z))
              (nodes (queue k i) (added q mine e i)))
          (sym (with_queue_other q mine (q mine ++ e ∷ []) j there))
          (All-nodes (λ p. All (λ y. p ≢ y) (nodes (queue k j) (q j))) (queue k i) (q i)
            (added q mine e i)
            (All-added (λ p. All (λ y. p ≢ y) (nodes (queue k j) (q j))) q mine e i
              (All-imp (Apart e) (λ y. e ≢ y) (nodes (queue k j) (q j)) (λ y w u. w (sym u))
                (out j hj)))
            (v.disjoint i j hi hj ne))
  ]

  pub make_ready-Queues :
      (k.pcb e).priority ≡ mine → e ≢ 0 → Queues (make_ready e mine k) (added q mine e)
  unfolding make_ready
  make_ready-Queues own real = record {
    lists = lists_added;
    disjoint = Disjoint-added;
    own = λ i h. elim (ℕ_discrete i mine) [
      | yes same ↦ All-added (λ p. (k.pcb p).priority ≡ i) q mine e i (own ∙ sym same) (v.own i h)
      | no other ↦ rw (with_queue_other q mine (q mine ++ e ∷ []) i other) (v.own i h)
    ];
    real = λ i h. All-added (λ p. p ≢ 0) q mine e i real (v.real i h);
    above = λ i h low.
        let c : (i ≢ mine) × (i < k.max_priority) = below i k.max_priority mine low in
        with_queue_other q mine (q mine ++ e ∷ []) i c.0 ∙ v.above i h c.1;
  }

pub woken_status : (k : Kernel) (p : ℕ) (s : Status) → ((set_status p s k).pcb p).status ≡ s
woken_status k p s = ap (λ c. c.status) (update_self k.pcb p (record (k.pcb p) { status = s }))

wake_by : Status → ℕ → Kernel → Kernel
unfolding make_ready
wake_by s p k = elim s [ waiting_mid ↦ k | _ ↦ make_ready p (k.pcb p).priority k ]

unblock-make_ready :
    (p : ℕ) (k : Kernel)
    → unblock_proc p k ≡ make_ready p ((set_status p ready k).pcb p).priority (set_status p ready k)
unfolding unblock_proc make_ready wake_by
unblock-make_ready p k = ap (λ s. wake_by s p (set_status p ready k)) (woken_status k p ready)

pub unblock_at :
    (p : ℕ) (k : Kernel) → unblock_proc p k ≡ make_ready p (k.pcb p).priority (set_status p ready k)
unblock_at p k =
    unblock-make_ready p k
    ∙ ap (λ i. make_ready p i (set_status p ready k)) (set_status_priority k p ready p)

pub unblock_proc_pcb : (p : ℕ) (k : Kernel) → (unblock_proc p k).pcb ≡ (set_status p ready k).pcb
unfolding make_ready
unblock_proc_pcb p k = ap (λ w. w.pcb) (unblock_at p k)

pub unblock_proc_messages : (p : ℕ) (k : Kernel) → (unblock_proc p k).messages ≡ k.messages
unfolding make_ready
unblock_proc_messages p k = ap (λ w. w.messages) (unblock_at p k)

-- What waking `p` leaves.
pub record Woken (p : ℕ) (k : Kernel) (q : ℕ → List ℕ) (k' : Kernel) : Type 0 where
  pub queues : Queues k' (added q (k.pcb p).priority p)
  pub is_ready : (k'.pcb p).status ≡ ready
  pub others : (x : ℕ) → x ≢ p → k'.pcb x ≡ k.pcb x
  pub highest : (k'.max_priority ≤ k.max_priority) × (k'.max_priority ≤ (k.pcb p).priority)
  pub current : k'.cur_proc ≡ k.cur_proc
  pub messages : k'.messages ≡ k.messages

pub unblock_proc-Woken :
    (p : ℕ) (k : Kernel) (q : ℕ → List ℕ)
    → Queues k q
    → (k.pcb p).priority < 5
    → Outside k q p
    → p ≢ 0
    → Woken p k q (unblock_proc p k)
unfolding make_ready
unblock_proc-Woken p k q v lt out real = rw (unblock_at p k) (record {
  queues =
      make_ready-Queues (set_status p ready k) q (k.pcb p).priority p
        (Queues-status k q p ready k.next_proc v) lt out (set_status_priority k p ready p) real;
  is_ready = woken_status k p ready;
  others = λ x ne. update_ne k.pcb p x _ ne;
  highest = ground arith;
  current = refl;
  messages = refl;
})
