-- ===== src/Kernel/Process.antt =====
-- kernel/process.cc: creating, blocking, waking and choosing processes. Interrupts are off
-- wherever this code changes the state, so each function is one step; `switch_to` is what it does
-- to `prev_proc` and `cur_proc`. The rounds given to `schedule` are those of the walk in `get_elem`.
pub mod Queues
pub mod Start
pub mod Pick
pub mod Choose
pub mod Schedule
pub mod Leave
pub mod Block
pub mod Wake
pub mod Sample
mod Tests
use shmily.Base.{
  [], ◌∷◌, ℕ, zero, suc, ◌+◌, ◌-◌, ◌*◌, ◌%◌, ◌^◌, ◌≤◌, ◌<◌, Bool, true, false, not, ◌&&◌, Option,
  none, some, List, ◌==◌, ltb, leb, if◌then◌else◌, sub32, minus_one, update,
}
use shmily.Support.CycleList.{Links, initialize, append, remove, is_empty, get_elem, next_elem}
use shmily.Kernel.State.{
  Status, running, ready, blocked, waiting, hanging, died, waiting_msg, sending_msg, waiting_mid,
  Pcb, Kernel, nr_proc, priority_kind, queue, set_pcb, set_status,
}

-- The loop of `init_pm`, with `n` priorities to go.
unfoldable pub init_queues : ℕ → ℕ → Kernel → Kernel
init_queues zero i k = k
init_queues (suc n) i k =
    init_queues n (i + 1)
      (record k { links = initialize (queue k i) k.links; max_rounds = update k.max_rounds i 10 })

unfoldable pub init_pm : Kernel → Kernel
unfolding init_queues
init_pm k = record (init_queues priority_kind 0 k) { max_priority = priority_kind + 1 }

abbrev pub priority2ticks : ℕ → ℕ
priority2ticks priority = sub32 priority_kind priority * 8 % 2 ^ 32

-- The name is a text of at most 15 bytes.
unfoldable pub init_process_info : ℕ → List ℕ → ℕ → ℕ → Kernel → Kernel
init_process_info proc name pid priority k =
    set_pcb proc
      (record (k.pcb proc) {
        priority = priority;
        pid = pid;
        ticks = priority2ticks priority;
        elapsed_ticks = 0;
        name = name;
      })
      k

-- The stack frame that starts the process is left to the assembly code.
unfoldable pub create_process : ℕ → Kernel → Kernel
create_process proc k =
    set_pcb proc (record (k.pcb proc) { status = ready; sendings = 0; message = 0 }) k

-- The loop over `processes`, from `idx` on with `n` slots to go.
unfoldable pub free_slot : ℕ → ℕ → (ℕ → ℕ) → Option ℕ
free_slot zero idx table = none
free_slot (suc n) idx table =
    let rest = free_slot n (idx + 1) table in if table idx == 0 then some idx else rest

-- `pid` is the pattern of an `int`, and so is the result.
unfoldable pub append_all_array : ℕ → ℕ → Kernel → ℕ × Kernel
unfolding free_slot
append_all_array proc pid k =
    if ltb pid (2 ^ 31)
    then (pid, record k { processes = update k.processes pid proc })
    else elim (free_slot nr_proc 0 k.processes) [
      | none ↦ (minus_one, k)
      | some idx ↦ (idx, record k { processes = update k.processes idx proc })
    ]

-- The end of `start_process` and of its kin: into the ready queue.
unfoldable pub make_ready : ℕ → ℕ → Kernel → Kernel
make_ready proc priority k = record k {
  links = append (queue k priority) proc k.links;
  max_priority = if ltb priority k.max_priority then priority else k.max_priority;
}

unfoldable pub start_process : List ℕ → ℕ → ℕ → ℕ → Kernel → Kernel
unfolding append_all_array init_process_info create_process make_ready
start_process name pid priority proc k =
    let (pid_, k1) = append_all_array proc pid k in
    make_ready proc priority (create_process proc (init_process_info proc name pid_ priority k1))

unfoldable pub start_userprocess : List ℕ → ℕ → ℕ → ℕ → ℕ → Kernel → Kernel
unfolding append_all_array init_process_info create_process make_ready
start_userprocess name pid priority proc userstack k =
    let (pid_, k1) = append_all_array proc pid k in
    let k2 = init_process_info proc name pid_ priority k1 in
    let k3 = set_pcb proc (record (k2.pcb proc) { is_userproc = 1; userstack = userstack }) k2 in
    make_ready proc priority (create_process proc k3)

-- The init process, at its fixed address; `PRIORITY_E` is 4. Its slot is taken twice.
unfoldable pub deal_init_process : ℕ → Kernel → Kernel
unfolding append_all_array init_process_info make_ready
deal_init_process pid k =
    let init_proc : ℕ = 0x80000 in
    let (pid_, k1) = append_all_array init_proc pid k in
    let k2 = init_process_info init_proc (b'i' ∷ b'n' ∷ b'i' ∷ b't' ∷ []) pid_ 4 k1 in
    let k3 = set_status init_proc running (record k2 { cur_proc = init_proc }) in
    let (_, k4) = append_all_array init_proc pid k3 in make_ready init_proc 4 k4

-- The search of `schedule` from priority `prio` on, with `n` priorities to go: a priority below 3
-- that has used up its rounds gets new ones and is passed over once.
unfoldable pub pick : ℕ → ℕ → Kernel → ℕ × Kernel
pick zero prio k = (prio, k)
pick (suc n) prio k =
    let refilled = pick n (prio + 1) (record k { max_rounds = update k.max_rounds prio 10 }) in
    let further = pick n (prio + 1) k in
    if (k.max_rounds prio == 0) && ltb prio 3
    then refilled
    else if is_empty (queue k prio) k.links
    then further
    else (prio, k)

-- What `schedule` does first: the process that runs goes back to READY, and one that is about to
-- wait for a message leaves its ready queue now.
unfoldable pub settle : Kernel → Kernel
settle k =
    let cur = k.cur_proc in
    elim (k.pcb cur).status [
      | running ↦ set_status cur ready (record k { next_proc = 0 })
      | waiting_mid ↦
          let k1 = set_status cur waiting_msg (record k { next_proc = 0 }) in
          record k1 { links = remove cur (k1.links) }
      | _ ↦ record k { next_proc = 0 }
    ]

-- The choice of `next_proc` from the queue of priority `prio`.
unfoldable pub choose : ℕ → ℕ → Kernel → Option Kernel
choose fuel prio k =
    let mine = (k.pcb k.cur_proc).priority in
    if mine == prio
    then some (record k {
      next_proc = next_elem (queue k prio) k.cur_proc k.links;
      max_rounds = update k.max_rounds mine (sub32 (k.max_rounds mine) 1);
    })
    else if ltb prio priority_kind
    then elim (get_elem fuel (queue k prio) 0 k.links) [
      | none ↦ none
      | some p ↦ some (record k { next_proc = p })
    ]
    else some k

-- The switch to `next_proc`, where there is one.
unfoldable pub switch : Kernel → Kernel
switch k = if k.next_proc == 0 then k else record (set_status k.next_proc running k) {
  prev_proc = k.cur_proc;
  cur_proc = k.next_proc;
}

unfoldable pub schedule : ℕ → Kernel → Option Kernel
unfolding settle pick choose switch
schedule fuel k =
    let k1 = settle k in
    let (prio, k2) = pick (priority_kind - k1.max_priority) k1.max_priority k1 in
    elim (choose fuel prio k2) [ none ↦ none | some k3 ↦ some (switch k3) ]

unfoldable pub self_block : ℕ → Status → Kernel → Option Kernel
unfolding schedule
self_block fuel stat k =
    let cur = k.cur_proc in
    let lazy = schedule fuel (set_status cur waiting_mid k) in
    let k1 = set_status cur stat k in
    let eager = schedule fuel (record k1 { links = remove cur (k1.links) }) in
    elim stat [ waiting_msg ↦ lazy | _ ↦ eager ]

unfoldable pub proc_yield : ℕ → Kernel → Option Kernel
unfolding schedule
proc_yield fuel k = schedule fuel (set_status k.cur_proc ready k)

-- The test for WAITING_MID comes after the status is set to READY, so it never succeeds.
unfoldable pub unblock_proc : ℕ → Kernel → Kernel
unblock_proc proc k =
    let k1 = set_status proc ready k in
    let prio = (k1.pcb proc).priority in
    let woken = record k1 {
      max_priority = if ltb prio k1.max_priority then prio else k1.max_priority;
      links = append (queue k1 prio) proc k1.links;
    } in
    elim (k1.pcb proc).status [ waiting_mid ↦ k1 | _ ↦ woken ]
