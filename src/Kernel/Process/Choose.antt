-- ===== src/Kernel/Process/Choose.antt =====
-- The process that `schedule` goes on with, once the process that ran has been settled.
use shmily.Base.{
  ℕ, ◌-◌, ◌≤◌, ◌<◌, ◌≡◌, refl, ◌∙◌, ◌≢◌, inl, inr, List, [], ◌∷◌, false, arith, ◌==◌, leb,
  if◌then◌else◌, update, update_ne, Bool-cases, dec_lt, ==_iff, ==_ne, All, length, lt→ltb, Option,
  some, none, sub32,
}
use shmily.Support.CycleList.{get_elem, next_elem}
use shmily.Support.CycleList.Walk.{first, get_elem-first}
use shmily.Kernel.State.{Kernel, running, queue, priority_kind}
use shmily.Kernel.Process.{pick, choose, switch}
use shmily.Kernel.Process.Queues.{Queues, Queues-switch, set_status_fields}
use shmily.Kernel.Process.Pick.{PassedOver, UsedUp, Picked, pick-Picked}

-- The process whose turn it is at priority `prio`: at the priority of the process that ran, the
-- one given, and elsewhere the first of the queue.
abbrev pub turn : Kernel → (ℕ → List ℕ) → ℕ → ℕ → ℕ
turn k q next prio = if (k.pcb k.cur_proc).priority == prio then next else first (q prio)

-- What a choice at `prio` and the switch to it make of the settled state `k`.
pub record Switched (k : Kernel) (q : ℕ → List ℕ) (next prio : ℕ) (k' : Kernel) : Type 0 where
  pub valid : prio < 5
  pub queues : Queues k' q
  pub ready : (q prio ≢ []) × ¬ UsedUp k prio
  pub passed : (i : ℕ) → k.max_priority ≤ i → i < prio → PassedOver k q i
  pub current : k'.cur_proc ≡ turn k q next prio
  pub previous : k'.prev_proc ≡ k.cur_proc
  pub runs : (k'.pcb k'.cur_proc).status ≡ running
  pub others : (p : ℕ) → p ≢ k'.cur_proc → k'.pcb p ≡ k.pcb p
  pub fields : (p : ℕ) → k'.pcb p ≡ record (k.pcb p) { status = (k'.pcb p).status }
  pub links : k'.links ≡ k.links
  pub messages : k'.messages ≡ k.messages

-- The rest of `schedule`, behind `settle`.
abbrev pub go_on : ℕ → Kernel → Option Kernel
go_on fuel k =
    let (prio, k2) = pick (priority_kind - k.max_priority) k.max_priority k in
    elim (choose fuel prio k2) [ none ↦ none | some k3 ↦ some (switch k3) ]

first-real : (xs : List ℕ) → xs ≢ [] → All (λ p. p ≢ 0) xs → first xs ≢ 0
first-real [] ne h = absurd (ne refl)
first-real (x ∷ xs) ne h = h.0

first_elem :
    (fuel : ℕ) (k : Kernel) (q : ℕ → List ℕ) (prio : ℕ)
    → Queues k q
    → prio < 5
    → q prio ≢ []
    → length (q prio) < fuel
    → get_elem fuel (queue k prio) 0 k.links ≡ some (first (q prio))
first_elem fuel k q prio v lt ne f =
    get_elem-first fuel k.links (queue k prio) 0 (q prio) (v.lists prio lt) f
    ∙ some_first (q prio) ne
  where
    some_first :
        (xs : List ℕ) → xs ≢ [] → some (if leb (length xs) 0 then 0 else first xs) ≡ some (first xs)
    some_first [] ne = absurd (ne refl)
    some_first (x ∷ xs) ne = ground arith

module _ (fuel : ℕ) (k : Kernel) (q : ℕ → List ℕ) (next prio : ℕ) where
  -- `choose` at a priority that has a process, where only rounds have been given out since.
  chosen :
      (r : ℕ → ℕ)
      → Queues k q
      → prio < 5
      → q prio ≢ []
      → length (q prio) < fuel
      → ((k.pcb k.cur_proc).priority ≡ prio → next_elem (queue k prio) k.cur_proc k.links ≡ next)
      → (r' : ℕ → ℕ) × (choose fuel prio (record k { max_rounds = r })
          ≡ some (record k { max_rounds = r'; next_proc = turn k q next prio }))
  unfolding choose
  chosen r v lt ne f ring = elim (Bool-cases ((k.pcb k.cur_proc).priority == prio)) [
    | inl mine ↦
        let e = (==_iff _ _).0 mine in
        (
          update r (k.pcb k.cur_proc).priority (sub32 (r (k.pcb k.cur_proc).priority) 1),
          rw (mine, ring e),
        )
    | inr other ↦ (r, rw (other, lt→ltb prio 5 lt, first_elem fuel k q prio v lt ne f))
  ]

  switched :
      (r : ℕ → ℕ)
      → Queues k q
      → prio < 5
      → (q prio ≢ []) × ¬ UsedUp k prio
      → ((i : ℕ) → k.max_priority ≤ i → i < prio → PassedOver k q i)
      → turn k q next prio ≢ 0
      → Switched k q next prio
          (switch (record k { max_rounds = r; next_proc = turn k q next prio }))
  unfolding switch
  switched r v lt good passed real =
      let e : (turn k q next prio == 0) ≡ false = ==_ne (turn k q next prio) 0 real in
      rw e (record {
        valid = lt;
        queues =
            Queues-switch k q (turn k q next prio) running r (turn k q next prio) k.cur_proc
              (turn k q next prio) v;
        ready = good;
        passed = passed;
        current = refl;
        previous = refl;
        runs = ground arith;
        others = λ p ne. update_ne k.pcb (turn k q next prio) p _ ne;
        fields = set_status_fields k (turn k q next prio) running;
        links = refl;
        messages = refl;
      })

turn-real :
    (k : Kernel) (q : ℕ → List ℕ) (next prio : ℕ)
    → Queues k q
    → prio < 5
    → q prio ≢ []
    → ((k.pcb k.cur_proc).priority ≡ prio → next ≢ 0)
    → turn k q next prio ≢ 0
turn-real k q next prio v lt ne real = elim (Bool-cases ((k.pcb k.cur_proc).priority == prio)) [
  | inl mine ↦ rw mine (real ((==_iff _ _).0 mine))
  | inr other ↦ rw other (first-real (q prio) ne (v.real prio lt))
]

-- A next process in the ring of the current process's own queue, whenever that queue has any.
abbrev pub Ring : Kernel → (ℕ → List ℕ) → ℕ → Type 0
Ring k q next =
    (prio : ℕ)
    → prio < 5
    → (k.pcb k.cur_proc).priority ≡ prio
    → q prio ≢ []
    → (next_elem (queue k prio) k.cur_proc k.links ≡ next) × (next ≢ 0)

highest : (k : Kernel) (q : ℕ → List ℕ) → Queues k q → q 4 ≢ [] → k.max_priority ≤ 4
highest k q v low = elim (dec_lt 4 k.max_priority) [
  | yes h ↦ absurd (low (v.above 4 (omega arith) h))
  | no h ↦ omega arith
]

-- Where the queue of priority 4 has a process, the choice succeeds, and takes the first priority
-- from `max_priority` on that is not passed over.
pub go_on-Switched :
    (fuel : ℕ) (k : Kernel) (q : ℕ → List ℕ) (next : ℕ)
    → Queues k q
    → q 4 ≢ []
    → ((i : ℕ) → i < 5 → length (q i) < fuel)
    → Ring k q next
    → (prio : ℕ) × (k' : Kernel) × (go_on fuel k ≡ some k') × Switched k q next prio k'
go_on-Switched fuel k q next v low f ring =
    go (pick (priority_kind - k.max_priority) k.max_priority k) (
      pick-Picked (priority_kind - k.max_priority) k.max_priority k q v
        (omega (arith, highest k q v low)))
  where
    top : k.max_priority ≤ 4
    top = highest k q v low

    go :
        (r : ℕ × Kernel)
        → Picked k q k.max_priority r.0 r.1
        → (prio : ℕ) × (k' : Kernel) × ((elim (choose fuel r.0 r.1) [
          | none ↦ none
          | some k3 ↦ some (switch k3)
        ])
            ≡ some k')
          × Switched k q next prio k'
    go (prio, k2) h =
        let lt : prio < 5 = elim (dec_lt prio 5) [
          | yes y ↦ y
          | no n ↦ elim (h.passed 4 top (omega (arith, h.upto))) [
            | inl nil ↦ absurd (low nil)
            | inr used ↦ absurd (omega arith)
          ]
        ] in
        let good = h.ready lt in
        let real = turn-real k q next prio v lt good.0 (λ e. (ring prio lt e good.0).1) in
        let (r, e) =
          chosen fuel k q next prio k2.max_rounds v lt good.0 (f prio lt)
            (λ e. (ring prio lt e good.0).0) in
        (
          prio,
          switch (record k { max_rounds = r; next_proc = turn k q next prio }),
          rw (h.same, e) refl,
          switched fuel k q next prio r v lt good h.passed real,
        )
