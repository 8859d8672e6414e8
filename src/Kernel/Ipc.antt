-- ===== src/Kernel/Ipc.antt =====
-- kernel/ipc.cc: messages between processes, and from interrupts. A message is an object at an
-- address, `this`; a process is named by the address of its `pcb`. A receiver's senders are a chain
-- through `next_ready`, from its `sendings` on. `send_then_recv` is the two calls one after the
-- other: the second one runs when the process is scheduled again.
pub mod Deliver
pub mod Senders
pub mod Rendezvous
pub mod Interrupts
mod Tests
use shmily.Base.{
  ℕ, zero, suc, ◌+◌, ◌-◌, ◌%◌, Bool, true, false, not, ◌&&◌, ◌||◌, Option, none, some, ◌==◌,
  if◌then◌else◌,
}
use shmily.Kernel.State.{
  Status, running, ready, blocked, waiting, hanging, died, waiting_msg, sending_msg, waiting_mid,
  Pcb, Context, Message, Kernel, set_pcb, set_message,
}
use shmily.Kernel.Process.{self_block, unblock_proc}

abbrev pub interrupt : ℕ
interrupt = 0x98000

abbrev pub interrupt_net : ℕ
interrupt_net = 0x98100

abbrev pub any : ℕ
any = 0

abbrev pub reply_type : ℕ
reply_type = 0xfffffe

abbrev pub intr : ℕ
intr = 0xffffff

-- `WAITING_MSG == status` and `SENDING_MSG == status`.
abbrev pub is_waiting : Status → Bool
is_waiting waiting_msg = true
is_waiting _ = false

abbrev pub is_sending : Status → Bool
is_sending sending_msg = true
is_sending _ = false

unfoldable pub reset_message : ℕ → ℕ → Context → Kernel → Kernel
reset_message this type context k =
    set_message this (record (k.messages this) { type = type; context = context }) k

-- An interrupt of the network card is counted, and wakes a process that waits for anybody.
unfoldable pub send_interrupt_net : ℕ → Kernel → Kernel
unfolding unblock_proc
send_interrupt_net dst k =
    let m = (k.pcb dst).message in
    let k1 = set_pcb dst (record (k.pcb dst) { intr_cnt = ((k.pcb dst).intr_cnt + 1) % 256 }) k in
    if is_waiting (k.pcb dst).status && (any == (k.messages m).destination)
    then unblock_proc dst (set_message m (record (k.messages m) { type = intr }) k1)
    else k1

-- The message is copied to the receiver's, and the receiver goes on.
unfoldable pub deliver : ℕ → ℕ → Kernel → Kernel
unfolding unblock_proc
deliver this dst k =
    let mine = k.messages this in
    let m = (k.pcb dst).message in
    unblock_proc dst (
      set_message m
        (record (k.messages m) {
          type = mine.type;
          context = mine.context;
          destination = mine.source;
        })
        k)

-- The sender joins the receiver's chain, at its front.
unfoldable pub join_senders : ℕ → ℕ → Kernel → Kernel
join_senders this dst k =
    let source = (k.messages this).source in
    let k1 = set_pcb source (record (k.pcb source) { message = this }) k in
    let k2 =
      set_pcb k1.cur_proc (record (k1.pcb k1.cur_proc) { next_ready = (k1.pcb dst).sendings }) k1 in
    set_pcb dst (record (k2.pcb dst) { sendings = k2.cur_proc }) k2

unfoldable pub join_interrupt : ℕ → Kernel → Kernel
join_interrupt dst k =
    let k1 = set_pcb interrupt (record (k.pcb interrupt) { next_ready = (k.pcb dst).sendings }) k in
    set_pcb dst (record (k1.pcb dst) { sendings = interrupt }) k1

-- Whether the receiver waits for this message.
unfoldable pub expected : ℕ → ℕ → Kernel → Bool
expected this dst k =
    let mine = k.messages this in
    let wants = (k.messages (k.pcb dst).message).destination in
    (is_waiting (k.pcb dst).status && ((any == wants) || (mine.source == wants)))
    || (is_waiting (k.pcb dst).status && (reply_type == mine.type))

unfoldable pub send : ℕ → ℕ → ℕ → Kernel → Option Kernel
unfolding send_interrupt_net expected deliver join_interrupt join_senders self_block
send fuel this dst k =
    let source = (k.messages this).source in
    let blocks = self_block fuel sending_msg (join_senders this dst k) in
    if source == interrupt_net
    then some (send_interrupt_net dst k)
    else if expected this dst k
    then some (deliver this dst k)
    else if interrupt == source
    then some (join_interrupt dst k)
    else blocks

-- The loop over the chain, from `prev` on: the process whose `next_ready` is the one wanted, or
-- NULL; `none` when the rounds do not suffice.
unfoldable pub find_before : ℕ → ℕ → ℕ → Kernel → Option ℕ
find_before zero want prev k = none
find_before (suc n) want prev k =
    let next = (k.pcb prev).next_ready in
    let rest = find_before n want next k in
    if prev == 0 then some 0 else if want == next then some prev else rest

-- `type` and `context` of `this` become those of the message of `from`.
abbrev pub copy_from : ℕ → ℕ → Kernel → Kernel
copy_from this from k =
    let theirs = k.messages (k.pcb from).message in
    set_message this (record (k.messages this) { type = theirs.type; context = theirs.context }) k

abbrev pub set_destination : ℕ → ℕ → Kernel → Kernel
set_destination this dst k = set_message this (record (k.messages this) { destination = dst }) k

-- `if (SENDING_MSG == p->status) unblock_proc(p);`
unfoldable pub release : ℕ → Kernel → Kernel
unfolding unblock_proc
release p k = if is_sending (k.pcb p).status then unblock_proc p k else k

-- The first sender's message is taken.
unfoldable pub take_first : ℕ → ℕ → ℕ → Kernel → Kernel
unfolding release
take_first this src sender k =
    let k1 = copy_from this sender k in
    let next = (k1.pcb sender).next_ready in
    let k2 =
      set_pcb src (record (k1.pcb src) { sendings = if next == sender then 0 else next }) k1 in
    release sender (set_destination this sender k2)

-- The message of a later sender, the one behind `prev`, is taken.
unfoldable pub take_later : ℕ → ℕ → ℕ → Kernel → Kernel
unfolding release
take_later this want prev k =
    let k1 = copy_from this want k in
    let k2 = set_pcb prev (record (k1.pcb prev) { next_ready = (k1.pcb want).next_ready }) k1 in
    release prev (set_destination this prev k2)

unfoldable pub take_interrupt : ℕ → ℕ → Kernel → Kernel
take_interrupt this src k =
    set_pcb src (record (k.pcb src) { intr_cnt = (k.pcb src).intr_cnt - 1 })
      (set_message this (record (k.messages this) { type = intr }) k)

unfoldable pub wait_for : ℕ → ℕ → ℕ → ℕ → Kernel → Option Kernel
unfolding self_block
wait_for fuel this src want k =
    let k1 = set_destination this want k in
    self_block fuel waiting_msg (set_pcb src (record (k1.pcb src) { message = this }) k1)

unfoldable pub receive : ℕ → ℕ → ℕ → Kernel → Option Kernel
receive fuel this want k =
    let src = (k.messages this).source in
    let first = (k.pcb src).sendings in
    let waits = wait_for fuel this src want k in
    if not ((k.pcb src).intr_cnt == 0) && (any == want)
    then some (take_interrupt this src k)
    else if first == 0
    then waits
    else if (want == first) || (want == 0)
    then some (take_first this src first k)
    else elim (find_before fuel want first k) [
      | none ↦ none
      | some prev ↦ if prev == 0 then waits else some (take_later this want prev k)
    ]

unfoldable pub reply : ℕ → ℕ → Kernel → Option Kernel
reply fuel this k = send fuel this (k.messages this).destination k
