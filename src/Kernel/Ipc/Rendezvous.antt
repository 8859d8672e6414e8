-- ===== src/Kernel/Ipc/Rendezvous.antt =====
-- `send` to a receiver that does not wait for the message, and the `receive` that answers it.
use mathlib.Core.Path.{subst}
use shmily.Base.{
  ℕ, ◌<◌, ◌≡◌, refl, sym, ap, ◌∙◌, ◌≢◌, List, [], ◌∷◌, ◌++◌, false, ◌==◌, ==_ne, All, some, length,
}
use shmily.Kernel.State.{Kernel, Pcb, Status, waiting_msg, sending_msg}
use shmily.Kernel.Process.{self_block}
use shmily.Kernel.Process.Queues.{Queues, with_queue, Queues-pcb, set_status_fields}
use shmily.Kernel.Process.Block.{self_block-Blocked}
use shmily.Kernel.Ipc.{interrupt, interrupt_net, join_senders, send}
use shmily.Kernel.Ipc.Senders.{
  Senders, Chained, Chained-same, All-All, join_senders-Joined, join_senders-Senders,
}
use shmily.Kernel.Ipc.Deliver.{expected-false}

-- The current process sends `this` to `dst`, which does not wait for a message; `q` are the ready
-- queues, `xs` and `ys` those before and behind the sender in its own, and `ss` the senders that
-- wait for `dst` already. Priority 4 has a process besides the sender.
pub record Busy (fuel this dst : ℕ) (k : Kernel) (q : ℕ → List ℕ) (xs ys ss : List ℕ) : Type 0 where
  pub queues : Queues k q
  pub own : (k.messages this).source ≡ k.cur_proc
  pub no_net : k.cur_proc ≢ interrupt_net
  pub no_interrupt : k.cur_proc ≢ interrupt
  pub real : k.cur_proc ≢ 0
  pub busy : (k.pcb dst).status ≢ waiting_msg
  pub apart : dst ≢ k.cur_proc
  pub senders : Senders k dst ss
  pub new : All (λ x. x ≢ k.cur_proc) ss
  pub priority : (k.pcb k.cur_proc).priority < 5
  pub place : q (k.pcb k.cur_proc).priority ≡ xs ++ k.cur_proc ∷ ys
  pub low : with_queue q (k.pcb k.cur_proc).priority (xs ++ ys) 4 ≢ []
  pub rounds :
      (i : ℕ) → i < 5 → length (with_queue q (k.pcb k.cur_proc).priority (xs ++ ys) i) < fuel

-- What the sender leaves when it blocks.
pub record Pending (this dst : ℕ) (k : Kernel) (q : ℕ → List ℕ) (ss : List ℕ) (k' : Kernel)
    : Type 0 where
  pub senders : Senders k' dst (k.cur_proc ∷ ss)
  pub message : (k'.pcb k.cur_proc).message ≡ this
  pub status : (k'.pcb k.cur_proc).status ≡ sending_msg
  pub messages : k'.messages ≡ k.messages
  pub intr_cnt : (p : ℕ) → (k'.pcb p).intr_cnt ≡ (k.pcb p).intr_cnt
  pub other : k'.cur_proc ≢ k.cur_proc
  pub queues : Queues k' q

abbrev with_status : Status → Pcb → Pcb
with_status s c = record c { status = s }

module _ (fuel this dst : ℕ) (k : Kernel) (q : ℕ → List ℕ) (xs ys ss : List ℕ)
    (h : Busy fuel this dst k q xs ys ss) where
  sends : send fuel this dst k ≡ self_block fuel sending_msg (join_senders this dst k)
  unfolding send
  sends =
      let net : ((k.messages this).source == interrupt_net) ≡ false =
        ==_ne _ _ (λ e. h.no_net (sym h.own ∙ e)) in
      let no_intr : (interrupt == (k.messages this).source) ≡ false =
        ==_ne _ _ (λ e. h.no_interrupt (sym h.own ∙ sym e)) in
      rw (net, expected-false this dst k h.busy, no_intr) refl

  -- A process that sends to one that does not wait blocks; it is the first of the receiver's
  -- senders, its message can be found, and another process runs.
  pub send-Pending :
      (k' : Kernel) × (send fuel this dst k ≡ some k')
      × Pending this dst k (with_queue q (k.pcb k.cur_proc).priority (xs ++ ys)) ss k'
  unfolding join_senders
  send-Pending =
      let k1 = join_senders this dst k in
      let j = join_senders-Joined this dst k h.own h.apart in
      let same = j.priority k.cur_proc in
      let (prio, k', e, b) =
        self_block-Blocked fuel k1 q sending_msg xs ys (Queues-pcb k q k1.pcb j.priority h.queues)
          (subst (λ i. i < 5) (sym same) h.priority)
          (subst (λ i. q i ≡ xs ++ k.cur_proc ∷ ys) (sym same) h.place) (λ w. cc) (λ w. cc)
          (subst (λ i. with_queue q i (xs ++ ys) 4 ≢ []) (sym same) h.low)
          (subst (λ i. (n : ℕ) → n < 5 → length (with_queue q i (xs ++ ys) n) < fuel) (sym same)
            h.rounds) in
      let fields = λ (p : ℕ).
        b.switched.fields p
        ∙ ap (with_status (k'.pcb p).status) (set_status_fields k1 k.cur_proc sending_msg p) in
      let chain = join_senders-Senders this dst k ss h.senders h.own h.apart h.real h.new in
      (
        k',
        sends ∙ e,
        record {
          senders =
              subst (λ p. Chained k'.pcb p (k.cur_proc ∷ ss))
                (sym (ap (λ c. c.sendings) (fields dst)))
                (Chained-same k1.pcb k'.pcb (k1.pcb dst).sendings (k.cur_proc ∷ ss)
                  (All-All (λ x. (k'.pcb x).next_ready ≡ (k1.pcb x).next_ready) (k.cur_proc ∷ ss)
                    (λ x. ap (λ c. c.next_ready) (fields x)))
                  chain);
          message = ap (λ c. c.message) (fields k.cur_proc) ∙ j.message;
          status = b.kept;
          messages = b.switched.messages;
          intr_cnt = λ p. ap (λ c. c.intr_cnt) (fields p) ∙ j.intr_cnt p;
          other = b.other;
          queues = subst (λ i. Queues k' (with_queue q i (xs ++ ys))) same b.switched.queues;
        },
      )
