-- ===== src/Kernel/Process/Queues.antt =====
-- The ready queues as lists of processes, one for each priority.
use mathlib.Core.Path.{subst}
use shmily.Support.CycleList.{tail}
use shmily.Base.{
  ℕ, ◌<◌, ◌≡◌, refl, sym, ap, ◌∙◌, ◌≢◌, List, [], ◌∷◌, ◌++◌, All, All-append, All-append_left,
  All-append_right, ◌==◌, if◌then◌else◌, ℕ_discrete, All-imp, update_self, update_ne, ==_ne,
  ==_refl,
}
use shmily.Support.CycleList.Linked.{Apart}
use shmily.Support.CycleList.Refine.{IsList, nodes}
use shmily.Support.CycleList.Frame.{Disjoint}
use shmily.Kernel.State.{Kernel, Pcb, Message, Status, queue, set_status}

-- `q i` are the processes in the ready queue of priority `i`. No node is in two queues, and no
-- queue above `max_priority` has a process.
pub record Queues (k : Kernel) (q : ℕ → List ℕ) : Type 0 where
  pub lists : (i : ℕ) → i < 5 → IsList k.links (queue k i) (q i)
  pub disjoint :
      (i j : ℕ)
      → i < 5
      → j < 5
      → i ≢ j
      → Disjoint (nodes (queue k i) (q i)) (nodes (queue k j) (q j))
  pub own : (i : ℕ) → i < 5 → All (λ p. (k.pcb p).priority ≡ i) (q i)
  pub real : (i : ℕ) → i < 5 → All (λ p. p ≢ 0) (q i)
  pub above : (i : ℕ) → i < 5 → i < k.max_priority → q i ≡ []

-- The process is on no queue, and is no list object itself.
abbrev pub Outside : Kernel → (ℕ → List ℕ) → ℕ → Type 0
Outside k q p = (i : ℕ) → i < 5 → All (Apart p) (nodes (queue k i) (q i))

-- The queues after one of them has changed.
abbrev pub with_queue : (ℕ → List ℕ) → ℕ → List ℕ → ℕ → List ℕ
with_queue q i xs j = if j == i then xs else q j

pub with_queue_self : (q : ℕ → List ℕ) (i : ℕ) (zs : List ℕ) → with_queue q i zs i ≡ zs
with_queue_self q i zs = rw (==_refl i) refl

pub with_queue_other :
    (q : ℕ → List ℕ) (i : ℕ) (zs : List ℕ) (j : ℕ) → j ≢ i → with_queue q i zs j ≡ q j
with_queue_other q i zs j ne = rw (==_ne j i ne) refl

pub All-nodes :
    (P : ℕ → Type 0) (l : ℕ) (xs ys : List ℕ)
    → (All P xs → All P ys)
    → All P (nodes l xs)
    → All P (nodes l ys)
All-nodes P l xs ys f h = (
  h.0,
  All-append P ys (tail l ∷ []) (f (All-append_left P xs (tail l ∷ []) h.1))
      (All-append_right P xs (tail l ∷ []) h.1),
)

-- A predicate that holds of every process of a queue holds when one has been taken out.
module _ (P : ℕ → Type 0) (q : ℕ → List ℕ) (mine e : ℕ) (xs ys : List ℕ) where
  All-shrink : All P (xs ++ e ∷ ys) → All P (xs ++ ys)
  All-shrink h =
      All-append P xs ys (All-append_left P xs (e ∷ ys) h) (All-append_right P xs (e ∷ ys) h).1

  pub All-without :
      (i : ℕ) → q mine ≡ xs ++ e ∷ ys → All P (q i) → All P (with_queue q mine (xs ++ ys) i)
  All-without i split h = elim (ℕ_discrete i mine) [
    | yes same ↦
        let here : All P (xs ++ e ∷ ys) = subst (All P) (ap q same ∙ split) h in
        subst (λ j. All P (with_queue q mine (xs ++ ys) j)) (sym same)
          (rw (with_queue_self q mine (xs ++ ys)) (All-shrink here))
    | no other ↦ rw (with_queue_other q mine (xs ++ ys) i other) h
  ]

-- Setting a status keeps the priorities.
pub set_status_priority :
    (k : Kernel) (p : ℕ) (s : Status) (x : ℕ)
    → ((set_status p s k).pcb x).priority ≡ (k.pcb x).priority
set_status_priority k p s x = elim (ℕ_discrete x p) [
  | yes e ↦ rw (e, update_self k.pcb p)
  | no ne ↦ rw (update_ne k.pcb p x _ ne)
]

pub set_status_fields :
    (k : Kernel) (p : ℕ) (s : Status) (x : ℕ)
    → (set_status p s k).pcb x ≡ record (k.pcb x) { status = ((set_status p s k).pcb x).status }
set_status_fields k p s x = elim (ℕ_discrete x p) [
  | yes e ↦ rw (e, update_self k.pcb p) refl
  | no ne ↦ rw (update_ne k.pcb p x _ ne) refl
]

-- Neither a status nor the fields that name processes and rounds matter to the queues.
pub Queues-switch :
    (k : Kernel) (q : ℕ → List ℕ) (p : ℕ) (s : Status) (r : ℕ → ℕ) (next prev cur : ℕ)
    → Queues k q
    → Queues
        (set_status p s
          (record k { max_rounds = r; next_proc = next; prev_proc = prev; cur_proc = cur }))
        q
Queues-switch k q p s r next prev cur v = record {
  lists = v.lists;
  disjoint = v.disjoint;
  own = λ i lt.
      All-imp (λ x. (k.pcb x).priority ≡ i) (λ x. ((set_status p s k).pcb x).priority ≡ i) (q i)
        (λ x e. set_status_priority k p s x ∙ e) (v.own i lt);
  real = v.real;
  above = v.above;
}

pub Queues-status :
    (k : Kernel) (q : ℕ → List ℕ) (p : ℕ) (s : Status) (n : ℕ)
    → Queues k q
    → Queues (set_status p s (record k { next_proc = n })) q
Queues-status k q p s n v = Queues-switch k q p s k.max_rounds n k.prev_proc k.cur_proc v

-- The queues depend on the `pcb`s only by the priorities.
pub Queues-pcb :
    (k : Kernel) (q : ℕ → List ℕ) (f : ℕ → Pcb)
    → ((x : ℕ) → (f x).priority ≡ (k.pcb x).priority)
    → Queues k q
    → Queues (record k { pcb = f }) q
Queues-pcb k q f same v = record {
  lists = v.lists;
  disjoint = v.disjoint;
  own = λ i lt.
      All-imp (λ x. (k.pcb x).priority ≡ i) (λ x. (f x).priority ≡ i) (q i) (λ x e. same x ∙ e)
        (v.own i lt);
  real = v.real;
  above = v.above;
}

pub Queues-messages :
    (k : Kernel) (q : ℕ → List ℕ) (f : ℕ → Message)
    → Queues k q
    → Queues (record k { messages = f }) q
Queues-messages k q f v = record {
  lists = v.lists;
  disjoint = v.disjoint;
  own = v.own;
  real = v.real;
  above = v.above;
}
