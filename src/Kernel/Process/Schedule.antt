-- ===== src/Kernel/Process/Schedule.antt =====
-- What `schedule` does to the ready queues and to the process that runs.
use mathlib.Core.Path.{subst}
use shmily.Base.{
  ℕ, ◌<◌, ◌≡◌, refl, sym, ap, ◌∙◌, ◌≢◌, List, [], ◌∷◌, ◌++◌, All, All-append, All-append_left,
  All-append_right, length, some,
}
use shmily.Support.CycleList.Refine.{IsList}
use shmily.Support.CycleList.Walk.{first, next_elem_round}
use shmily.Kernel.State.{Kernel, running, ready, queue, set_status}
use shmily.Kernel.Process.{schedule, settle}
use shmily.Kernel.Process.Queues.{Queues, set_status_priority, Queues-status}
use shmily.Kernel.Process.Choose.{Switched, Ring, go_on, go_on-Switched}

pub first-All : (P : ℕ → Type 0) (xs : List ℕ) → xs ≢ [] → All P xs → P (first xs)
first-All P [] ne h = absurd (ne refl)
first-All P (x ∷ xs) ne h = h.0

rotate_ne : (x : ℕ) (xs ys : List ℕ) → ys ++ (xs ++ x ∷ []) ≢ []
rotate_ne x [] [] e = cc
rotate_ne x (a ∷ xs) [] e = cc
rotate_ne x xs (y ∷ ys) e = cc

rotate-All :
    (P : ℕ → Type 0) (x : ℕ) (xs ys : List ℕ) → All P (xs ++ x ∷ ys) → All P (ys ++ (xs ++ x ∷ []))
rotate-All P x xs ys h =
    let r = All-append_right P xs (x ∷ ys) h in
    All-append P ys (xs ++ x ∷ []) r.1
      (All-append P xs (x ∷ []) (All-append_left P xs (x ∷ ys) h) (r.0, tt))

settled : (k : Kernel) → Kernel
settled k = set_status k.cur_proc ready (record k { next_proc = 0 })

settle_running : (k : Kernel) → (k.pcb k.cur_proc).status ≡ running → settle k ≡ settled k
unfolding settle settled
settle_running k e = rw (e, settle) refl

pub schedule-go_on : (fuel : ℕ) (k : Kernel) → schedule fuel k ≡ go_on fuel (settle k)
unfolding schedule
schedule-go_on fuel k = refl

Ring-running :
    (k : Kernel) (q : ℕ → List ℕ) (xs ys : List ℕ)
    → Queues k q
    → q (k.pcb k.cur_proc).priority ≡ xs ++ k.cur_proc ∷ ys
    → Ring (settled k) q (first (ys ++ (xs ++ k.cur_proc ∷ [])))
unfolding settled
Ring-running k q xs ys v mine prio lt e some_here =
    let own : (k.pcb k.cur_proc).priority ≡ prio =
      sym (set_status_priority k k.cur_proc ready k.cur_proc) ∙ e in
    let here : q prio ≡ xs ++ k.cur_proc ∷ ys = subst (λ i. q i ≡ xs ++ k.cur_proc ∷ ys) own mine in
    let list = subst (IsList k.links (queue k prio)) here (v.lists prio lt) in
    let real = subst (All (λ p. p ≢ 0)) here (v.real prio lt) in
    (
      next_elem_round k.links (queue k prio) k.cur_proc xs ys list,
      first-All (λ p. p ≢ 0) (ys ++ (xs ++ k.cur_proc ∷ [])) (rotate_ne k.cur_proc xs ys)
          (rotate-All (λ p. p ≢ 0) k.cur_proc xs ys real),
    )

-- With well-formed ready queues, the process that runs in the one of its priority, some process in
-- that of priority 4, and more rounds than any queue has processes, `schedule` returns: the first
-- priority that is not passed over is taken, within the own priority the next process in the ring,
-- elsewhere the first of the queue; the process that ran is READY unless it was chosen again, and
-- the others are as they were.
pub schedule-Switched :
    (fuel : ℕ) (k : Kernel) (q : ℕ → List ℕ) (xs ys : List ℕ)
    → Queues k q
    → (k.pcb k.cur_proc).status ≡ running
    → q (k.pcb k.cur_proc).priority ≡ xs ++ k.cur_proc ∷ ys
    → q 4 ≢ []
    → ((i : ℕ) → i < 5 → length (q i) < fuel)
    → (prio : ℕ) × (k' : Kernel) × (schedule fuel k ≡ some k')
      × Switched
          (set_status k.cur_proc ready (record k { next_proc = 0 }))
          q
          (first (ys ++ (xs ++ k.cur_proc ∷ [])))
          prio
          k'
unfolding settled
schedule-Switched fuel k q xs ys v runs mine low f =
    let (prio, k', e, h) =
      go_on-Switched fuel (settled k) q (first (ys ++ (xs ++ k.cur_proc ∷ [])))
        (Queues-status k q k.cur_proc ready 0 v) low f (Ring-running k q xs ys v mine) in
    (prio, k', schedule-go_on fuel k ∙ ap (go_on fuel) (settle_running k runs) ∙ e, h)
