-- ===== src/Kernel/State.antt =====
-- The kernel's state: the fields of kernel/process.h and kernel/ipc.h that the C++ code reads and
-- writes, and the globals of kernel/process.cc. A `struct pcb*`, a `Message*` and a
-- `cyclelist_elem*` is an address; a process's `ready_elem` is the first field of its `pcb`, so
-- both have one address. Stacks, page directories and saved registers belong to the assembly code.
use shmily.Base.{ℕ, ◌+◌, ◌*◌, List, update}
use shmily.Support.CycleList.{Links}

pub data Status : Type 0 where
  running ready blocked waiting hanging died waiting_msg sending_msg waiting_mid : Status

pub Status-discrete : Discrete Status
Status-discrete = hlevel

pub record Pcb : Type 0 where
  pub pid : ℕ
  pub name : List ℕ
  pub status : Status
  pub priority : ℕ
  pub ticks : ℕ
  pub elapsed_ticks : ℕ
  pub next_ready : ℕ
  pub message : ℕ
  pub sendings : ℕ
  pub intr_cnt : ℕ
  pub userstack : ℕ
  pub is_userproc : ℕ

pub record Context : Type 0 where
  pub con_1 : ℕ
  pub con_2 : ℕ
  pub con_3 : ℕ
  pub con_4 : ℕ

pub record Message : Type 0 where
  pub source : ℕ
  pub destination : ℕ
  pub type : ℕ
  pub context : Context

pub record Kernel : Type 0 where
  pub links : Links
  pub pcb : ℕ → Pcb
  pub messages : ℕ → Message
  pub processes : ℕ → ℕ
  pub ready_processes : ℕ
  pub max_rounds : ℕ → ℕ
  pub max_priority : ℕ
  pub cur_proc : ℕ
  pub next_proc : ℕ
  pub prev_proc : ℕ

abbrev pub nr_proc : ℕ
nr_proc = 64

abbrev pub priority_kind : ℕ
priority_kind = 5

-- The `CycleList` of one priority; each takes 16 bytes of the array.
abbrev pub queue : Kernel → ℕ → ℕ
queue k prio = k.ready_processes + 16 * prio

abbrev pub set_pcb : ℕ → Pcb → Kernel → Kernel
set_pcb p c k = record k { pcb = update k.pcb p c }

abbrev pub set_status : ℕ → Status → Kernel → Kernel
set_status p s k = record k { pcb = update k.pcb p (record (k.pcb p) { status = s }) }

abbrev pub set_message : ℕ → Message → Kernel → Kernel
set_message a m k = record k { messages = update k.messages a m }
