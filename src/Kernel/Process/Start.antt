-- ===== src/Kernel/Process/Start.antt =====
-- The ready queues at boot, and when a process starts.
use mathlib.Core.Path.{subst}
use shmily.Base.{
  ℕ, zero, suc, ◌+◌, ◌*◌, ◌<◌, ◌≡◌, refl, sym, ap, ◌∙◌, ◌≢◌, inl, inr, List, [], ◌∷◌, arith, update,
  update_ne, ltb, All, All-append_left, All-imp₂, Option, none, some, ℕ_discrete, Bool-cases, ◌^◌,
  minus_one,
}
use shmily.Support.CycleList.{Links, tail, initialize}
use shmily.Support.CycleList.Linked.{Apart}
use shmily.Support.CycleList.Refine.{IsList, nodes, initialize-IsList}
use shmily.Support.CycleList.Frame.{Disjoint}
use shmily.Kernel.State.{Kernel, ready, queue}
use shmily.Kernel.Process.{
  free_slot, init_queues, init_pm, append_all_array, init_process_info, create_process, make_ready,
  start_process,
}
use shmily.Kernel.Process.Queues.{Queues, Outside}
use shmily.Kernel.Process.Wake.{added, make_ready-Queues}

-- An empty list stays one while another list object is initialised.
initialize-IsList_other :
    (m : Links) (l l' : ℕ)
    → l ≢ l'
    → l ≢ l' + 8
    → l + 8 ≢ l'
    → IsList m l' []
    → IsList (initialize l m) l' []
unfolding initialize
initialize-IsList_other m l l' a b c h = record {
  linked = (ground (arith, h.linked.0), ground (arith, h.linked.1), tt);
  distinct = h.distinct;
}

init_queues-IsList :
    (n i j : ℕ) (k : Kernel)
    → j < i + n
    → ((x : ℕ) → x < i → IsList k.links (queue k x) [])
    → IsList (init_queues n i k).links (queue k j) []
unfolding init_queues
init_queues-IsList zero i j k lt done = done j (omega arith)
init_queues-IsList (suc n) i j k lt done =
    init_queues-IsList n (i + 1) j
      (record k { links = initialize (queue k i) k.links; max_rounds = update k.max_rounds i 10 })
      (omega arith)
      (λ x h. elim (ℕ_discrete x i) [
        | yes e ↦ rw e (initialize-IsList (queue k i) k.links)
        | no ne ↦
            initialize-IsList_other k.links (queue k i) (queue k x) (omega arith) (omega arith)
              (omega arith) (done x (omega arith))
      ])

init_queues_base : (n i : ℕ) (k : Kernel) → (init_queues n i k).ready_processes ≡ k.ready_processes
unfolding init_queues
init_queues_base zero i k = refl
init_queues_base (suc n) i k = init_queues_base n (i + 1) _

-- `init_pm` leaves five empty ready queues that have no node in common.
pub init_pm-Queues : (k : Kernel) → Queues (init_pm k) (λ i. [])
unfolding init_pm
init_pm-Queues k = record {
  lists = λ i lt.
      rw (init_queues_base 5 0 k) (init_queues-IsList 5 0 i k lt (λ x h. absurd (omega arith)));
  disjoint = λ i j hi hj ne. (
    (λ e. absurd (omega arith), (λ e. absurd (omega arith), tt)),
    ((λ e. absurd (omega arith), (λ e. absurd (omega arith), tt)), tt),
  );
  own = λ i lt. tt;
  real = λ i lt. tt;
  above = λ i lt h. refl;
}

-- A new `pcb` for a process that is on no queue.
Queues-new :
    (k k' : Kernel) (q : ℕ → List ℕ) (p : ℕ)
    → Queues k q
    → Outside k q p
    → k'.links ≡ k.links
    → k'.ready_processes ≡ k.ready_processes
    → k'.max_priority ≡ k.max_priority
    → ((x : ℕ) → x ≢ p → k'.pcb x ≡ k.pcb x)
    → Queues k' q
Queues-new k k' q p v out a b c same = record {
  lists = λ i lt. rw (a, b) (v.lists i lt);
  disjoint = λ i j hi hj ne.
      subst (λ r. Disjoint (nodes (r + 16 * i) (q i)) (nodes (r + 16 * j) (q j))) (sym b)
        (v.disjoint i j hi hj ne);
  own = λ i lt.
      All-imp₂ (λ x. (k.pcb x).priority ≡ i) (Apart p) (λ x. (k'.pcb x).priority ≡ i) (q i)
        (λ x e ne. ap (λ d. d.priority) (same x ne) ∙ e) (v.own i lt)
        (All-append_left (Apart p) (q i) (tail (queue k i) ∷ []) (out i lt).1);
  real = v.real;
  above = λ i lt h. v.above i lt (omega (arith, c));
}

-- The table of processes alone changes.
record SameButTable (k k' : Kernel) : Type 0 where
  links : k'.links ≡ k.links
  base : k'.ready_processes ≡ k.ready_processes
  highest : k'.max_priority ≡ k.max_priority
  pcb : k'.pcb ≡ k.pcb

append_all_array-SameButTable :
    (proc pid : ℕ) (k : Kernel) → SameButTable k (append_all_array proc pid k).1
unfolding append_all_array
append_all_array-SameButTable proc pid k = elim (Bool-cases (ltb pid (2 ^ 31))) [
  | inl given ↦ rw given (record { links = refl; base = refl; highest = refl; pcb = refl })
  | inr searched ↦ rw searched (slot (free_slot 64 0 k.processes))
]
  where
    slot :
        (r : Option ℕ)
        → let t : ℕ × Kernel = elim r [
          | none ↦ (minus_one, k)
          | some idx ↦ (idx, record k { processes = update k.processes idx proc })
        ] in
          SameButTable k t.1
    slot none = record { links = refl; base = refl; highest = refl; pcb = refl }
    slot (some idx) = record { links = refl; base = refl; highest = refl; pcb = refl }

make_ready_pcb : (proc priority : ℕ) (k : Kernel) → (make_ready proc priority k).pcb ≡ k.pcb
unfolding make_ready
make_ready_pcb proc priority k = refl

-- What the start of the process `proc` leaves.
pub record Started (proc prio : ℕ) (k : Kernel) (q : ℕ → List ℕ) (k' : Kernel) : Type 0 where
  pub queues : Queues k' (added q prio proc)
  pub is_ready : (k'.pcb proc).status ≡ ready
  pub priority : (k'.pcb proc).priority ≡ prio
  pub no_sender : (k'.pcb proc).sendings ≡ 0
  pub others : (x : ℕ) → x ≢ proc → k'.pcb x ≡ k.pcb x

-- With well-formed ready queues, starting a process that is on none of them puts it, READY and
-- without senders, behind the others of its priority, and leaves every other process as it was.
pub start_process-Started :
    (name : List ℕ) (pid priority proc : ℕ) (k : Kernel) (q : ℕ → List ℕ)
    → Queues k q
    → Outside k q proc
    → priority < 5
    → proc ≢ 0
    → Started proc priority k q (start_process name pid priority proc k)
unfolding start_process init_process_info create_process
start_process-Started name pid priority proc k q v out lt real =
    let r = append_all_array proc pid k in
    let t = append_all_array-SameButTable proc pid k in
    let k3 = create_process proc (init_process_info proc name r.0 priority r.1) in
    let same : (x : ℕ) → x ≢ proc → k3.pcb x ≡ k.pcb x = λ x ne.
      update_ne (init_process_info proc name r.0 priority r.1).pcb proc x _ ne
      ∙ update_ne (r.1).pcb proc x _ ne
      ∙ ap (λ f. f x) t.pcb in
    let own : (k3.pcb proc).priority ≡ priority = ground arith in
    let w = Queues-new k k3 q proc v out t.links t.base t.highest same in
    let out' : Outside k3 q proc =
      λ i h. subst (λ b. All (Apart proc) (nodes (b + 16 * i) (q i))) (sym t.base) (out i h) in
    record {
      queues = make_ready-Queues k3 q priority proc w lt out' own real;
      is_ready = ap (λ f. (f proc).status) (make_ready_pcb proc priority k3) ∙ ground arith;
      priority = ap (λ f. (f proc).priority) (make_ready_pcb proc priority k3) ∙ own;
      no_sender = ap (λ f. (f proc).sendings) (make_ready_pcb proc priority k3) ∙ ground arith;
      others = λ x ne. ap (λ f. f x) (make_ready_pcb proc priority k3) ∙ same x ne;
    }
