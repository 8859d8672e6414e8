-- ===== src/Kernel/Sync.antt =====
-- kernel/sync.cc: semaphores and locks. The waiters of a semaphore are a chain through
-- `next_ready`. `wait` is one round of its loop: a process that blocks tests the value again when
-- it is scheduled again.
pub mod Waiters
mod Tests
use shmily.Base.{
  ℕ, ◌+◌, ◌-◌, ◌<◌, Bool, true, false, Option, none, some, ◌==◌, if◌then◌else◌, add32, sub32,
}
use shmily.Kernel.State.{blocked, Pcb, Kernel, set_pcb}
use shmily.Kernel.Process.{self_block, unblock_proc}

pub record Semaphore : Type 0 where
  pub value : ℕ
  pub waiters : ℕ

abbrev pub new_semaphore : Semaphore
new_semaphore = record { value = 1; waiters = 0 }

-- What a round of `wait` comes to.
pub data Round : Type 0 where
  passed : Semaphore → Kernel → Round
  blocks : Semaphore → Kernel → Round

-- The current process gets in front of the waiters.
unfoldable pub join_waiters : Semaphore → Kernel → Kernel
join_waiters s k = set_pcb k.cur_proc (record (k.pcb k.cur_proc) { next_ready = s.waiters }) k

unfoldable pub wait : ℕ → Semaphore → Kernel → Option Round
wait fuel s k =
    let blocking : Option Round = elim (self_block fuel blocked (join_waiters s k)) [
      | none ↦ none
      | some k' ↦ some (blocks (record s { waiters = k.cur_proc }) k')
    ] in
    if s.value == 0 then blocking else some (passed (record s { value = sub32 s.value 1 }) k)

unfoldable pub signal : Semaphore → Kernel → Semaphore × Kernel
signal s k =
    let woken = unblock_proc s.waiters k in
    if s.waiters == 0
    then (record s { value = add32 s.value 1 }, k)
    else (record { value = add32 s.value 1; waiters = (k.pcb s.waiters).next_ready }, woken)

pub record Lock : Type 0 where
  pub holder : ℕ
  pub sema : Semaphore

abbrev pub new_lock : Lock
new_lock = record { holder = 0; sema = new_semaphore }

-- `acquire`, up to the next round of `wait` where that blocks.
pub data Acquisition : Type 0 where
  held : Lock → Kernel → Acquisition
  blocks : Lock → Kernel → Acquisition

unfoldable pub acquire : ℕ → Lock → Kernel → Option Acquisition
acquire fuel l k =
    let waits : Option Acquisition = elim (wait fuel l.sema k) [
      | none ↦ none
      | some (passed s k') ↦ some (held (record { holder = k'.cur_proc; sema = s }) k')
      | some (blocks s k') ↦ some (Acquisition.blocks (record l { sema = s }) k')
    ] in
    if l.holder == k.cur_proc then some (held l k) else waits

unfoldable pub release : Lock → Kernel → Lock × Kernel
release l k = let (s, k') = signal l.sema k in (record { holder = 0; sema = s }, k')
