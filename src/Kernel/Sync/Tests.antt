-- ===== src/Kernel/Sync/Tests.antt =====
-- Tests of kernel/sync.cc: the process at `mm_at` meets a semaphore that is taken, and a free lock.
use shmily.Base.{◌≡◌, refl, ◌≢◌, [], ◌∷◌, some, arith}
use shmily.Base.Bytes.{all_below}
use shmily.Kernel.State.{Kernel, ready, blocked}
use shmily.Kernel.Process.{init_pm, start_process}
use shmily.Kernel.Process.Queues.{with_queue}
use shmily.Kernel.Process.Sample.{mm_at, fs_at, queues_3, booted, booted-Queues, short_queues}
use shmily.Kernel.Ipc.Senders.{Chained}
use shmily.Kernel.Sync.{Semaphore, blocks, wait, signal}
use shmily.Kernel.Sync.Waiters.{Contended, wait-signal}

abbrev taken : Semaphore
taken = record { value = 0; waiters = 0 }

contended : Contended 64 taken booted queues_3 [] (fs_at ∷ []) []
unfolding init_pm start_process all_below
contended = record {
  taken = refl;
  queues = booted-Queues;
  real = λ e. absurd (omega arith);
  waiters = refl;
  new = tt;
  priority = omega arith;
  place = refl;
  low = λ e. cc;
  rounds = short_queues (with_queue queues_3 1 (fs_at ∷ [])) refl;
}

wait-signal_example :
    (s' : Semaphore) × (k' : Kernel) × (wait 64 taken booted ≡ some (blocks s' k'))
    × ((k'.pcb mm_at).status ≡ blocked)
    × (k'.cur_proc ≢ mm_at)
    × Chained (signal s' k').1.pcb (signal s' k').0.waiters []
    × ((signal s' k').0.value ≡ 1)
    × (((signal s' k').1.pcb mm_at).status ≡ ready)
wait-signal_example = wait-signal 64 taken booted queues_3 [] (fs_at ∷ []) [] contended
