-- ===== src/Kernel/Sync/Waiters.antt =====
-- Waiting for a semaphore and being woken, and a lock that is free.
use mathlib.Core.Path.{subst}
use shmily.Base.{
  ℕ, ◌^◌, ◌<◌, ◌≡◌, refl, sym, ap, ◌∙◌, ◌≢◌, List, [], ◌∷◌, ◌++◌, true, false, arith, ◌==◌, sub32,
  ==_iff, ==_ne, All, All-imp, some, length,
}
use shmily.Kernel.State.{Kernel, Pcb, Status, ready, blocked}
use shmily.Kernel.Process.{unblock_proc}
use shmily.Kernel.Process.Queues.{Queues, with_queue, Queues-pcb, set_status_fields}
use shmily.Kernel.Process.Wake.{unblock_proc_pcb, woken_status}
use shmily.Kernel.Process.Block.{self_block-Blocked}
use shmily.Kernel.Ipc.Senders.{Chained, Chained-same, All-All}
use shmily.Kernel.Sync.{Semaphore, blocks, join_waiters, wait, signal, Lock, held, acquire, release}

-- The current process waits for a semaphore that is taken: `ws` wait already; `q` are the ready
-- queues, with `xs` and `ys` before and behind the process in its own. Priority 4 has a process
-- besides it.
pub record Contended (fuel : ℕ) (s : Semaphore) (k : Kernel) (q : ℕ → List ℕ) (xs ys ws : List ℕ)
    : Type 0 where
  pub taken : s.value ≡ 0
  pub queues : Queues k q
  pub real : k.cur_proc ≢ 0
  pub waiters : Chained k.pcb s.waiters ws
  pub new : All (λ x. x ≢ k.cur_proc) ws
  pub priority : (k.pcb k.cur_proc).priority < 5
  pub place : q (k.pcb k.cur_proc).priority ≡ xs ++ k.cur_proc ∷ ys
  pub low : with_queue q (k.pcb k.cur_proc).priority (xs ++ ys) 4 ≢ []
  pub rounds :
      (i : ℕ) → i < 5 → length (with_queue q (k.pcb k.cur_proc).priority (xs ++ ys) i) < fuel

-- What the process that waits leaves.
pub record Waits (k : Kernel) (ws : List ℕ) (s' : Semaphore) (k' : Kernel) : Type 0 where
  pub waiters : Chained k'.pcb s'.waiters (k.cur_proc ∷ ws)
  pub value : s'.value ≡ 0
  pub status : (k'.pcb k.cur_proc).status ≡ blocked
  pub other : k'.cur_proc ≢ k.cur_proc

join_priority :
    (s : Semaphore) (k : Kernel) (x : ℕ) → ((join_waiters s k).pcb x).priority ≡ (k.pcb x).priority
unfolding join_waiters
join_priority s k x = ground arith

join_next :
    (s : Semaphore) (k : Kernel) → ((join_waiters s k).pcb k.cur_proc).next_ready ≡ s.waiters
unfolding join_waiters
join_next s k = ground arith

join_others :
    (s : Semaphore) (k : Kernel) (x : ℕ)
    → x ≢ k.cur_proc
    → ((join_waiters s k).pcb x).next_ready ≡ (k.pcb x).next_ready
unfolding join_waiters
join_others s k x ne = ground arith

abbrev with_status : Status → Pcb → Pcb
with_status s c = record c { status = s }

module _ (fuel : ℕ) (s : Semaphore) (k : Kernel) (q : ℕ → List ℕ) (xs ys ws : List ℕ)
    (h : Contended fuel s k q xs ys ws) where
  joined_chain : Chained (join_waiters s k).pcb k.cur_proc (k.cur_proc ∷ ws)
  joined_chain = (
    refl,
    h.real,
    rw (join_next s k) (
        Chained-same k.pcb (join_waiters s k).pcb s.waiters ws
          (All-imp (λ x. x ≢ k.cur_proc)
            (λ x. ((join_waiters s k).pcb x).next_ready ≡ (k.pcb x).next_ready) ws (join_others s k)
            h.new)
          h.waiters),
  )

  pub wait-Waits :
      (s' : Semaphore) × (k' : Kernel) × (wait fuel s k ≡ some (blocks s' k')) × Waits k ws s' k'
  unfolding wait join_waiters
  wait-Waits =
      let k1 = join_waiters s k in
      let same = join_priority s k k.cur_proc in
      let (prio, k', e, b) =
        self_block-Blocked fuel k1 q blocked xs ys
          (Queues-pcb k q k1.pcb (join_priority s k) h.queues)
          (subst (λ i. i < 5) (sym same) h.priority)
          (subst (λ i. q i ≡ xs ++ k.cur_proc ∷ ys) (sym same) h.place) (λ w. cc) (λ w. cc)
          (subst (λ i. with_queue q i (xs ++ ys) 4 ≢ []) (sym same) h.low)
          (subst (λ i. (n : ℕ) → n < 5 → length (with_queue q i (xs ++ ys) n) < fuel) (sym same)
            h.rounds) in
      let fields = λ (p : ℕ).
        b.switched.fields p
        ∙ ap (with_status (k'.pcb p).status) (set_status_fields k1 k.cur_proc blocked p) in
      let zero : (s.value == 0) ≡ true = (==_iff _ 0).1 h.taken in
      (
        record s { waiters = k.cur_proc },
        k',
        rw (zero, e) refl,
        record {
          waiters =
              Chained-same k1.pcb k'.pcb k.cur_proc (k.cur_proc ∷ ws)
                (All-All (λ x. (k'.pcb x).next_ready ≡ (k1.pcb x).next_ready) (k.cur_proc ∷ ws)
                  (λ x. ap (λ c. c.next_ready) (fields x)))
                joined_chain;
          value = h.taken;
          status = b.kept;
          other = b.other;
        },
      )

signal_first :
    (s : Semaphore) (k : Kernel) (p : ℕ) (ws : List ℕ)
    → Chained k.pcb s.waiters (p ∷ ws)
    → s.value ≡ 0
    → let (s', k') = signal s k in
      Chained k'.pcb s'.waiters ws × (s'.value ≡ 1) × ((k'.pcb p).status ≡ ready)
unfolding signal
signal_first s k p ws c taken =
    let at : s.waiters ≡ p = c.0 in
    let real : (s.waiters == 0) ≡ false = ==_ne _ 0 (λ e. c.1 (sym at ∙ e)) in
    let kept = λ (x : ℕ).
      ap (λ f. (f x).next_ready) (unblock_proc_pcb s.waiters k)
      ∙ ap (λ d. d.next_ready) (set_status_fields k s.waiters ready x) in
    rw real (
      subst (λ w. Chained (unblock_proc s.waiters k).pcb (k.pcb w).next_ready ws) (sym at)
          (Chained-same k.pcb (unblock_proc s.waiters k).pcb (k.pcb p).next_ready ws
            (All-All (λ x. ((unblock_proc s.waiters k).pcb x).next_ready ≡ (k.pcb x).next_ready) ws
              kept)
            c.2),
      omega (arith, taken),
      subst (λ w. ((unblock_proc s.waiters k).pcb w).status ≡ ready) at
          (ap (λ f. (f s.waiters).status) (unblock_proc_pcb s.waiters k)
            ∙ woken_status k s.waiters ready),
    )

-- Under the conditions of `Contended`, a process that waits for a taken semaphore blocks and
-- another one runs; the next `signal` makes it READY, before those that waited already, which wait
-- still, and the semaphore has the value 1.
pub wait-signal :
    (fuel : ℕ) (s : Semaphore) (k : Kernel) (q : ℕ → List ℕ) (xs ys ws : List ℕ)
    → Contended fuel s k q xs ys ws
    → (s' : Semaphore) × (k' : Kernel) × (wait fuel s k ≡ some (blocks s' k'))
      × ((k'.pcb k.cur_proc).status ≡ blocked)
      × (k'.cur_proc ≢ k.cur_proc)
      × Chained (signal s' k').1.pcb (signal s' k').0.waiters ws
      × ((signal s' k').0.value ≡ 1)
      × (((signal s' k').1.pcb k.cur_proc).status ≡ ready)
wait-signal fuel s k q xs ys ws h =
    let (s', k', e, w) = wait-Waits fuel s k q xs ys ws h in
    let r = signal_first s' k' k.cur_proc ws w.waiters w.value in
    (s', k', e, w.status, w.other, r.0, r.1, r.2)

-- A process that takes a free lock, which nobody waits for, holds it, and releasing it leaves the
-- semaphore as it was; the process goes on.
pub acquire-release :
    (fuel : ℕ) (l : Lock) (k : Kernel)
    → l.sema.value ≢ 0
    → l.sema.value < 2 ^ 31
    → l.sema.waiters ≡ 0
    → l.holder ≢ k.cur_proc
    → (l' : Lock) × (acquire fuel l k ≡ some (held l' k))
      × (l'.holder ≡ k.cur_proc)
      × ((release l' k).0.sema.value ≡ l.sema.value)
      × ((release l' k).0.holder ≡ 0)
      × ((release l' k).1 ≡ k)
unfolding acquire wait release signal
acquire-release fuel l k some_left small nobody free =
    let a : (l.holder == k.cur_proc) ≡ false = ==_ne _ _ free in
    let b : (l.sema.value == 0) ≡ false = ==_ne _ 0 some_left in
    let c : (l.sema.waiters == 0) ≡ true = (==_iff _ 0).1 nobody in
    (
      record { holder = k.cur_proc; sema = record (l.sema) { value = sub32 l.sema.value 1 } },
      rw (a, b) refl,
      refl,
      rw c (omega arith),
      refl,
      rw c refl,
    )
