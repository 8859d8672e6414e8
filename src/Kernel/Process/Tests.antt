-- ===== src/Kernel/Process/Tests.antt =====
-- Tests of kernel/process.cc on the system of Kernel/Process/Sample.antt.
use shmily.Base.{ℕ, ◌<◌, ◌≡◌, refl, [], ◌∷◌, some, arith, length}
use shmily.Base.Bytes.{all_below}
use shmily.Support.CycleList.{is_empty, append, initialize, next_elem}
use shmily.Kernel.State.{Kernel, waiting_msg, ready, set_status}
use shmily.Kernel.Process.{
  init_pm, start_process, pick, schedule, self_block, proc_yield, priority2ticks,
}
use shmily.Kernel.Process.Queues.{Queues, with_queue}
use shmily.Kernel.Process.Start.{Started, init_pm-Queues, start_process-Started}
use shmily.Kernel.Process.Pick.{Picked, pick-Picked}
use shmily.Kernel.Process.Choose.{Switched}
use shmily.Kernel.Process.Schedule.{schedule-Switched}
use shmily.Kernel.Process.Block.{Blocked, self_block-Blocked}
use shmily.Kernel.Process.Sample.{
  bare, mm_at, fs_at, queues_2, queues_3, booted, booted-Queues, Outside-fs, boot_2,
  queues_2-Queues, short_queues,
}

ticks : priority2ticks 0 ≡ 40
ticks = refl

init_pm-Queues_example : Queues (init_pm bare) (λ i. [])
init_pm-Queues_example = init_pm-Queues bare

start_process-Started_example : Started fs_at 1 boot_2 queues_2 (start_process [] 3 1 fs_at boot_2)
start_process-Started_example =
    start_process-Started [] 3 1 fs_at boot_2 queues_2 queues_2-Queues Outside-fs (omega arith)
      (λ e. absurd (omega arith))

pick-Picked_example : let (p, k') = pick 5 0 booted in Picked booted queues_3 0 p k'
pick-Picked_example = pick-Picked 5 0 booted queues_3 booted-Queues (omega arith)

short : (i : ℕ) → i < 5 → length (queues_3 i) < 64
unfolding all_below
short = short_queues queues_3 refl

schedule-Switched_example :
    (prio : ℕ) × (k' : Kernel) × (schedule 64 booted ≡ some k')
    × Switched (set_status mm_at ready booted) queues_3 fs_at prio k'
unfolding init_pm start_process
schedule-Switched_example =
    schedule-Switched 64 booted queues_3 [] (fs_at ∷ []) booted-Queues refl refl (λ e. cc) short

-- From `mm_at` to `fs_at` and back.
yields :
    (k1 k2 : Kernel) × (proc_yield 64 booted ≡ some k1)
    × (k1.cur_proc ≡ fs_at)
    × (proc_yield 64 k1 ≡ some k2)
    × (k2.cur_proc ≡ mm_at)
unfolding proc_yield init_pm start_process is_empty append initialize next_elem
yields = (_, _, refl, refl, refl, refl)

self_block-Blocked_example :
    (prio : ℕ) × (k' : Kernel) × (self_block 64 waiting_msg booted ≡ some k')
    × Blocked booted (with_queue queues_3 1 (fs_at ∷ [])) waiting_msg fs_at prio k'
unfolding init_pm start_process all_below
self_block-Blocked_example =
    self_block-Blocked 64 booted queues_3 waiting_msg [] (fs_at ∷ []) booted-Queues (omega arith)
      refl (λ e. cc) (λ e. cc) (λ e. cc) (short_queues (with_queue queues_3 1 (fs_at ∷ [])) refl)

-- A process that is not on a queue.
abbrev dr_at : ℕ
dr_at = 0x94000
