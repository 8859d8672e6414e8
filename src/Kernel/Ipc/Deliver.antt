-- ===== src/Kernel/Ipc/Deliver.antt =====
-- `send` to a receiver that waits for the message, and to one that does not.
use shmily.Base.{
  ℕ, ◌<◌, ◌≡◌, refl, ap, ◌∙◌, ◌≢◌, ◌⊎◌, inl, inr, List, true, false, arith, ◌==◌, ==_ne, some, ◌||◌,
}
use shmily.Kernel.State.{
  Kernel, Status, running, ready, blocked, waiting, hanging, died, waiting_msg, sending_msg,
  waiting_mid, set_message,
}
use shmily.Kernel.Process.Queues.{Queues, Outside, Queues-messages}
use shmily.Kernel.Process.Wake.{added, unblock_proc-Woken}
use shmily.Kernel.Ipc.{any, interrupt_net, reply_type, is_waiting, expected, deliver, send}

-- `dst` waits, for anybody or for the sender of `this`, or `this` is a reply.
abbrev pub Awaits : ℕ → ℕ → Kernel → Type 0
Awaits this dst k =
    ((k.pcb dst).status ≡ waiting_msg)
    × (((k.messages (k.pcb dst).message).destination ≡ any)
        ⊎ (((k.messages (k.pcb dst).message).destination ≡ (k.messages this).source)
            ⊎ ((k.messages this).type ≡ reply_type)))

expected-true : (this dst : ℕ) (k : Kernel) → Awaits this dst k → expected this dst k ≡ true
unfolding expected
expected-true this dst k h =
    let w : is_waiting (k.pcb dst).status ≡ true = ap is_waiting h.0 in rw w (cases h.1)
  where
    cases :
        (((k.messages (k.pcb dst).message).destination ≡ any)
          ⊎ (((k.messages (k.pcb dst).message).destination ≡ (k.messages this).source)
              ⊎ ((k.messages this).type ≡ reply_type)))
        → (((any == (k.messages (k.pcb dst).message).destination)
              || ((k.messages this).source == (k.messages (k.pcb dst).message).destination))
            || (reply_type == (k.messages this).type))
          ≡ true
    cases (inl a) = ground arith
    cases (inr (inl b)) = ground arith
    cases (inr (inr c)) = ground arith

pub expected-false :
    (this dst : ℕ) (k : Kernel) → (k.pcb dst).status ≢ waiting_msg → expected this dst k ≡ false
unfolding expected
expected-false this dst k h = rw (not_waiting (k.pcb dst).status h) refl
  where
    not_waiting : (s : Status) → s ≢ waiting_msg → is_waiting s ≡ false
    not_waiting waiting_msg n = absurd (n refl)
    not_waiting running n = refl
    not_waiting ready n = refl
    not_waiting blocked n = refl
    not_waiting waiting n = refl
    not_waiting hanging n = refl
    not_waiting died n = refl
    not_waiting sending_msg n = refl
    not_waiting waiting_mid n = refl

-- What the delivery of `this` to `dst` leaves.
pub record Delivered (this dst : ℕ) (k : Kernel) (q : ℕ → List ℕ) (k' : Kernel) : Type 0 where
  pub type : (k'.messages (k.pcb dst).message).type ≡ (k.messages this).type
  pub context : (k'.messages (k.pcb dst).message).context ≡ (k.messages this).context
  pub from : (k'.messages (k.pcb dst).message).destination ≡ (k.messages this).source
  pub source : (k'.messages (k.pcb dst).message).source ≡ (k.messages (k.pcb dst).message).source
  pub other : (a : ℕ) → a ≢ (k.pcb dst).message → k'.messages a ≡ k.messages a
  pub queues : Queues k' (added q (k.pcb dst).priority dst)
  pub is_ready : (k'.pcb dst).status ≡ ready
  pub others : (p : ℕ) → p ≢ dst → k'.pcb p ≡ k.pcb p
  pub current : k'.cur_proc ≡ k.cur_proc

-- With well-formed ready queues, none of which has the receiver: a message to a process that waits
-- for it, sent by any but the network interrupt, is copied to the receiver's own message, with the
-- sender as destination; the receiver is READY, at the end of its ready queue; the sender goes on,
-- and all other messages and processes are as they were.
pub send-Delivered :
    (fuel this dst : ℕ) (k : Kernel) (q : ℕ → List ℕ)
    → Queues k q
    → (k.messages this).source ≢ interrupt_net
    → Awaits this dst k
    → (k.pcb dst).priority < 5
    → Outside k q dst
    → dst ≢ 0
    → (k' : Kernel) × (send fuel this dst k ≡ some k') × Delivered this dst k q k'
unfolding send deliver
send-Delivered fuel this dst k q v ne await lt out real =
    let m = (k.pcb dst).message in
    let mine = k.messages this in
    let k1 =
      set_message m
        (record (k.messages m) {
          type = mine.type;
          context = mine.context;
          destination = mine.source;
        })
        k in
    let w = unblock_proc-Woken dst k1 q (Queues-messages k q k1.messages v) lt out real in
    let net : (mine.source == interrupt_net) ≡ false = ==_ne mine.source interrupt_net ne in
    (
      deliver this dst k,
      rw (net, expected-true this dst k await) refl,
      record {
        type = ap (λ f. (f m).type) w.messages ∙ ground arith;
        context = ap (λ f. (f m).context) w.messages ∙ ground arith;
        from = ap (λ f. (f m).destination) w.messages ∙ ground arith;
        source = ap (λ f. (f m).source) w.messages ∙ ground arith;
        other = λ a far. ap (λ f. f a) w.messages ∙ ground arith;
        queues = w.queues;
        is_ready = w.is_ready;
        others = w.others;
        current = w.current;
      },
    )
