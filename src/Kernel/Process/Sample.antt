-- ===== src/Kernel/Process/Sample.antt =====
-- A small system after boot, for the tests: the init process at priority 4 and two at priority 1,
-- of which the first runs.
use shmily.Base.{
  ℕ, ◌<◌, ◌≡◌, refl, List, [], ◌∷◌, Bool, true, not, ◌&&◌, arith, ◌==◌, ltb, All, length, ltb→lt,
}
use shmily.Base.Bytes.{all_below, all_below_sound}
use shmily.Support.CycleList.Linked.{Apart}
use shmily.Support.CycleList.Refine.{nodes}
use shmily.Kernel.State.{Kernel, Pcb, Message, died, running, queue, set_status}
use shmily.Kernel.Process.{init_pm, start_process}
use shmily.Kernel.Process.Queues.{Queues, Outside, Queues-switch}
use shmily.Kernel.Process.Wake.{added}
use shmily.Kernel.Process.Start.{init_pm-Queues, start_process-Started}

abbrev pub no_pcb : Pcb
no_pcb = record {
  pid = 0;
  name = [];
  status = died;
  priority = 0;
  ticks = 0;
  elapsed_ticks = 0;
  next_ready = 0;
  message = 0;
  sendings = 0;
  intr_cnt = 0;
  userstack = 0;
  is_userproc = 0;
}

abbrev pub no_message : Message
no_message = record {
  source = 0;
  destination = 0;
  type = 0;
  context = record { con_1 = 0; con_2 = 0; con_3 = 0; con_4 = 0 };
}

abbrev pub bare : Kernel
bare = record {
  links = record { prev = λ p. 0; next = λ p. 0 };
  pcb = λ p. no_pcb;
  messages = λ a. no_message;
  processes = λ i. 0;
  ready_processes = 0x100000;
  max_rounds = λ i. 0;
  max_priority = 0;
  cur_proc = 0;
  next_proc = 0;
  prev_proc = 0;
}

abbrev pub init_at : ℕ
init_at = 0x80000

abbrev pub mm_at : ℕ
mm_at = 0x91000

abbrev pub fs_at : ℕ
fs_at = 0x92000

abbrev boot_1 : Kernel
boot_1 = start_process [] 1 4 init_at (init_pm bare)

abbrev pub boot_2 : Kernel
boot_2 = start_process [] 2 1 mm_at boot_1

abbrev pub boot_3 : Kernel
boot_3 = start_process [] 3 1 fs_at boot_2

abbrev queues_0 : ℕ → List ℕ
queues_0 i = []

abbrev queues_1 : ℕ → List ℕ
queues_1 = added queues_0 4 init_at

abbrev pub queues_2 : ℕ → List ℕ
queues_2 = added queues_1 1 mm_at

abbrev pub queues_3 : ℕ → List ℕ
queues_3 = added queues_2 1 fs_at

all_apart : ℕ → List ℕ → Bool
all_apart p [] = true
all_apart p (y ∷ ys) = not (y == p) && all_apart p ys

all_apart-Apart : (p : ℕ) (ys : List ℕ) → all_apart p ys ≡ true → All (Apart p) ys
unfolding all_apart
all_apart-Apart p [] h = tt
all_apart-Apart p (y ∷ ys) h = (ground arith, all_apart-Apart p ys (ground arith))

-- A test for `Outside`.
unfoldable pub is_outside : Kernel → (ℕ → List ℕ) → ℕ → Bool
unfolding all_apart
is_outside k q p = all_below 5 (λ i. all_apart p (nodes (queue k i) (q i)))

pub is_outside-Outside :
    (k : Kernel) (q : ℕ → List ℕ) (p : ℕ) → is_outside k q p ≡ true → Outside k q p
unfolding is_outside
is_outside-Outside k q p h i lt =
    all_apart-Apart p (nodes (queue k i) (q i))
      (all_below_sound 5 (λ j. all_apart p (nodes (queue k j) (q j))) i h lt)

pub short_queues :
    (q : ℕ → List ℕ)
    → all_below 5 (λ i. ltb (length (q i)) 64) ≡ true
    → (i : ℕ) → i < 5
    → length (q i) < 64
short_queues q h i lt =
    ltb→lt (length (q i)) 64 (all_below_sound 5 (λ j. ltb (length (q j)) 64) i h lt)

Outside-init : Outside (init_pm bare) queues_0 init_at
unfolding init_pm is_outside all_below
Outside-init = is_outside-Outside (init_pm bare) queues_0 init_at refl

queues_1-Queues : Queues boot_1 queues_1
queues_1-Queues =
    (start_process-Started [] 1 4 init_at (init_pm bare) queues_0 (init_pm-Queues bare) Outside-init
      (omega arith) (λ e. absurd (omega arith))).queues

Outside-mm : Outside boot_1 queues_1 mm_at
unfolding init_pm start_process is_outside all_below
Outside-mm = is_outside-Outside boot_1 queues_1 mm_at refl

pub queues_2-Queues : Queues boot_2 queues_2
queues_2-Queues =
    (start_process-Started [] 2 1 mm_at boot_1 queues_1 queues_1-Queues Outside-mm (omega arith)
      (λ e. absurd (omega arith))).queues

pub Outside-fs : Outside boot_2 queues_2 fs_at
unfolding init_pm start_process is_outside all_below
Outside-fs = is_outside-Outside boot_2 queues_2 fs_at refl

pub queues_3-Queues : Queues boot_3 queues_3
queues_3-Queues =
    (start_process-Started [] 3 1 fs_at boot_2 queues_2 queues_2-Queues Outside-fs (omega arith)
      (λ e. absurd (omega arith))).queues

-- The system when the process at `mm_at` runs.
abbrev pub booted : Kernel
booted =
    set_status mm_at running
      (record boot_3 { max_rounds = λ i. 10; next_proc = 0; prev_proc = 0; cur_proc = mm_at })

pub booted-Queues : Queues booted queues_3
booted-Queues = Queues-switch boot_3 queues_3 mm_at running (λ i. 10) 0 0 mm_at queues_3-Queues
