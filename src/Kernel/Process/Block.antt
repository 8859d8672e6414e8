-- ===== src/Kernel/Process/Block.antt =====
-- What `self_block` does: the process leaves its ready queue, and another one goes on.
use shmily.Base.{
  ℕ, ◌<◌, ◌≡◌, refl, sym, ap, ◌∙◌, ◌≢◌, List, [], ◌∷◌, ◌++◌, update_self, update_twice, length,
  some,
}
use shmily.Support.CycleList.{remove}
use shmily.Support.CycleList.Walk.{first}
use shmily.Kernel.State.{
  Kernel, Status, Status-discrete, running, ready, blocked, waiting, hanging, died, waiting_msg,
  sending_msg, waiting_mid, set_status,
}
use shmily.Kernel.Process.{schedule, self_block, settle}
use shmily.Kernel.Process.Queues.{Queues, with_queue}
use shmily.Kernel.Process.Choose.{Switched, go_on, go_on-Switched}
use shmily.Kernel.Process.Leave.{blocked_with, Queues-left, Ring-left, turn_left}
use shmily.Kernel.Process.Schedule.{schedule-go_on}

settle_other :
    (k : Kernel) (s : Status)
    → (k.pcb k.cur_proc).status ≡ s
    → s ≢ running
    → s ≢ waiting_mid
    → settle k ≡ record k { next_proc = 0 }
unfolding settle
settle_other k running e a b = absurd (a refl)
settle_other k waiting_mid e a b = absurd (b refl)
settle_other k ready e a b = rw (e, settle) refl
settle_other k blocked e a b = rw (e, settle) refl
settle_other k waiting e a b = rw (e, settle) refl
settle_other k hanging e a b = rw (e, settle) refl
settle_other k died e a b = rw (e, settle) refl
settle_other k waiting_msg e a b = rw (e, settle) refl
settle_other k sending_msg e a b = rw (e, settle) refl

settle_lazy :
    (k : Kernel) → (k.pcb k.cur_proc).status ≡ waiting_mid → settle k ≡ blocked_with waiting_msg k
unfolding settle
settle_lazy k e = rw (e, settle) refl

current_status : (k : Kernel) (s : Status) → ((set_status k.cur_proc s k).pcb k.cur_proc).status ≡ s
current_status k s =
    ap (λ c. c.status) (update_self k.pcb k.cur_proc (record (k.pcb k.cur_proc) { status = s }))

blocked_twice :
    (k : Kernel)
    → blocked_with waiting_msg (set_status k.cur_proc waiting_mid k) ≡ blocked_with waiting_msg k
blocked_twice k = rw (update_self k.pcb k.cur_proc, update_twice k.pcb k.cur_proc) refl

-- The process leaves its queue before the choice.
left : Status → Kernel → Kernel
left s k = record (set_status k.cur_proc s k) { links = remove k.cur_proc k.links }

eager :
    (fuel : ℕ) (k : Kernel) (s : Status)
    → s ≢ running
    → s ≢ waiting_mid
    → schedule fuel (left s k) ≡ go_on fuel (blocked_with s k)
unfolding left
eager fuel k s a b =
    schedule-go_on fuel (left s k)
    ∙ ap (go_on fuel) (settle_other (left s k) s (current_status k s) a b)

lazy :
    (fuel : ℕ) (k : Kernel)
    → schedule fuel (set_status k.cur_proc waiting_mid k) ≡ go_on fuel (blocked_with waiting_msg k)
lazy fuel k =
    let w = set_status k.cur_proc waiting_mid k in
    schedule-go_on fuel w
    ∙ ap (go_on fuel) (settle_lazy w (current_status k waiting_mid) ∙ blocked_twice k)

self_block_eager :
    (fuel : ℕ) (k : Kernel) (s : Status)
    → s ≢ waiting_msg
    → self_block fuel s k ≡ schedule fuel (left s k)
unfolding self_block left
self_block_eager fuel k waiting_msg a = absurd (a refl)
self_block_eager fuel k running a = refl
self_block_eager fuel k ready a = refl
self_block_eager fuel k blocked a = refl
self_block_eager fuel k waiting a = refl
self_block_eager fuel k hanging a = refl
self_block_eager fuel k died a = refl
self_block_eager fuel k sending_msg a = refl
self_block_eager fuel k waiting_mid a = refl

self_block_lazy :
    (fuel : ℕ) (k : Kernel)
    → self_block fuel waiting_msg k ≡ schedule fuel (set_status k.cur_proc waiting_mid k)
unfolding self_block
self_block_lazy fuel k = refl

-- Lazily or not, `self_block` goes on in the same state.
self_block-go_on :
    (fuel : ℕ) (k : Kernel) (s : Status)
    → s ≢ running
    → s ≢ waiting_mid
    → self_block fuel s k ≡ go_on fuel (blocked_with s k)
self_block-go_on fuel k s a b = elim (Status-discrete s waiting_msg) [
  | yes e ↦ rw e (self_block_lazy fuel k ∙ lazy fuel k)
  | no ne ↦ self_block_eager fuel k s ne ∙ eager fuel k s a b
]

-- What `self_block` with the status `s` leaves, where `q` are the queues without the process.
pub record Blocked (k : Kernel) (q : ℕ → List ℕ) (s : Status) (next prio : ℕ) (k' : Kernel)
    : Type 0 where
  pub switched : Switched (blocked_with s k) q next prio k'
  pub other : k'.cur_proc ≢ k.cur_proc
  pub kept : (k'.pcb k.cur_proc).status ≡ s

-- With well-formed ready queues and more rounds than any has processes: a process that blocks is
-- taken off its ready queue and keeps the status it blocks with; as long as priority 4 has another
-- process, some other process runs next: at its own priority the one behind it in the ring,
-- elsewhere the first of the queue that is picked.
pub self_block-Blocked :
    (fuel : ℕ) (k : Kernel) (q : ℕ → List ℕ) (s : Status) (xs ys : List ℕ)
    → Queues k q
    → (k.pcb k.cur_proc).priority < 5
    → q (k.pcb k.cur_proc).priority ≡ xs ++ k.cur_proc ∷ ys
    → s ≢ running
    → s ≢ waiting_mid
    → with_queue q (k.pcb k.cur_proc).priority (xs ++ ys) 4 ≢ []
    → ((i : ℕ) → i < 5 → length (with_queue q (k.pcb k.cur_proc).priority (xs ++ ys) i) < fuel)
    → (prio : ℕ) × (k' : Kernel) × (self_block fuel s k ≡ some k')
      × Blocked k (with_queue q (k.pcb k.cur_proc).priority (xs ++ ys)) s (first (ys ++ xs)) prio k'
self_block-Blocked fuel k q s xs ys v lt e a b low f =
    let mine = (k.pcb k.cur_proc).priority in
    let (prio, k', done, h) =
      go_on-Switched fuel (blocked_with s k) (with_queue q mine (xs ++ ys)) (first (ys ++ xs))
        (Queues-left k q s mine xs ys v lt e) low f (Ring-left k q s mine xs ys v refl e) in
    let ne = turn_left k q s mine xs ys v refl lt e prio h.valid h.ready.0 in
    let other : k'.cur_proc ≢ k.cur_proc = λ w. ne (sym h.current ∙ w) in
    (
      prio,
      k',
      self_block-go_on fuel k s a b ∙ done,
      record {
        switched = h;
        other = other;
        kept = ap (λ c. c.status) (h.others k.cur_proc (λ w. other (sym w))) ∙ current_status k s;
      },
    )
