-- ===== src/Kernel/Ipc/Tests.antt =====
-- Tests of kernel/ipc.cc: the process at `mm_at` runs, and `dr_at` waits for anybody.
use shmily.Base.{ℕ, ◌≡◌, refl, inl, [], ◌∷◌, some, arith, update}
use shmily.Base.Bytes.{all_below}
use shmily.Kernel.State.{Kernel, Message, Context, ready, waiting_msg, sending_msg, set_pcb}
use shmily.Kernel.Process.{init_pm, start_process}
use shmily.Kernel.Process.Queues.{Queues, Queues-pcb, Queues-messages}
use shmily.Kernel.Process.Sample.{
  mm_at, fs_at, queues_3, booted, booted-Queues, is_outside, is_outside-Outside, no_message,
}
use shmily.Kernel.Ipc.{any, intr, interrupt_net, join_senders, send, receive}
use shmily.Kernel.Ipc.Senders.{Senders, Taken, join_senders-Senders, receive-Taken}
use shmily.Kernel.Ipc.Deliver.{Delivered, send-Delivered}
use shmily.Kernel.Ipc.Interrupts.{send-receive_twice, receive_wanted_later}

abbrev dr_at : ℕ
dr_at = 0x94000

abbrev tty_at : ℕ
tty_at = 0x95000

-- Messages: of `mm_at` to be sent, of `fs_at`, of `dr_at`, and of the network interrupt.
abbrev mm_message : ℕ
mm_message = 0xa000

abbrev fs_message : ℕ
fs_message = 0xb000

abbrev dr_message : ℕ
dr_message = 0xc000

abbrev net_message : ℕ
net_message = 0xd000

abbrev request : Context
request = record { con_1 = 4; con_2 = 3; con_3 = 2; con_4 = 1 }

abbrev messages : ℕ → Message
messages =
    update
      (update
        (update
          (update (λ a. no_message) mm_message
            (record { source = mm_at; destination = 0; type = 7; context = request }))
          fs_message (record no_message { source = fs_at }))
        dr_message (record no_message { source = dr_at }))
      net_message (record no_message { source = interrupt_net })

abbrev mail : Kernel
mail = record booted { messages = messages }

mail-Queues : Queues mail queues_3
mail-Queues = Queues-messages booted queues_3 messages booted-Queues

join_senders-Senders_example : Senders (join_senders mm_message fs_at mail) fs_at (mm_at ∷ [])
unfolding init_pm start_process
join_senders-Senders_example =
    join_senders-Senders mm_message fs_at mail [] refl refl (λ e. absurd (omega arith))
      (λ e. absurd (omega arith)) tt

-- `dr_at` waits for anybody.
abbrev waits : Kernel
waits = set_pcb dr_at (record (mail.pcb dr_at) { status = waiting_msg; message = dr_message }) mail

waits-Queues : Queues waits queues_3
waits-Queues = Queues-pcb mail queues_3 waits.pcb (λ x. ground arith) mail-Queues

send-Delivered_example :
    (k' : Kernel) × (send 64 mm_message dr_at waits ≡ some k')
    × Delivered mm_message dr_at waits queues_3 k'
unfolding init_pm start_process is_outside all_below
send-Delivered_example =
    send-Delivered 64 mm_message dr_at waits queues_3 waits-Queues (λ e. absurd (omega arith))
      (refl, inl refl) (omega arith) (is_outside-Outside waits queues_3 dr_at refl)
      (λ e. absurd (omega arith))

send-receive_twice_example :
    (k' k'' : Kernel) × (send 64 net_message dr_at waits ≡ some k')
    × ((k'.messages dr_message).type ≡ intr)
    × ((k'.pcb dr_at).status ≡ ready)
    × (receive 64 dr_message any k' ≡ some k'')
    × ((k''.messages dr_message).type ≡ intr)
    × ((k''.pcb dr_at).intr_cnt ≡ 0)
unfolding init_pm start_process
send-receive_twice_example =
    send-receive_twice 64 net_message dr_at 64 dr_message waits refl refl refl refl refl

-- Two senders wait for `dr_at`: `mm_at` came last.
abbrev two_senders : Kernel
two_senders =
    set_pcb dr_at (record (mail.pcb dr_at) { sendings = mm_at })
      (set_pcb mm_at
        (record (mail.pcb mm_at) { status = sending_msg; message = mm_message; next_ready = fs_at })
        (set_pcb fs_at (record (mail.pcb fs_at) { status = sending_msg; message = fs_message })
          mail))

receive-Taken_example :
    (k' : Kernel) × (receive 64 dr_message any two_senders ≡ some k')
    × Taken dr_message dr_at mm_at (fs_at ∷ []) two_senders k'
unfolding init_pm start_process
receive-Taken_example =
    receive-Taken 64 dr_message any mm_at (fs_at ∷ []) two_senders
      (refl, λ e. absurd (omega arith), (refl, λ e. absurd (omega arith), refl))
      (λ e. absurd (omega arith), tt) (inl (refl, refl))

-- Three senders wait for `dr_at`, and the last of the chain is wanted.
abbrev three_senders : Kernel
three_senders =
    set_pcb fs_at (record (two_senders.pcb fs_at) { next_ready = tty_at })
      (set_pcb tty_at
        (record (mail.pcb tty_at) { status = sending_msg; message = fs_message; next_ready = 0 })
        two_senders)

receive_wanted_later_example :
    (k' : Kernel) × (receive 64 dr_message tty_at three_senders ≡ some k')
    × ((k'.messages dr_message).type ≡ 0)
    × ((k'.messages dr_message).context ≡ no_message.context)
    × ((k'.messages dr_message).destination ≡ fs_at)
    × Senders k' dr_at (mm_at ∷ fs_at ∷ [])
    × ((k'.pcb tty_at).status ≡ sending_msg)
    × ((k'.pcb fs_at).status ≡ ready)
unfolding init_pm start_process
receive_wanted_later_example =
    receive_wanted_later 64 dr_message tty_at fs_at (mm_at ∷ []) [] three_senders
      (
        refl,
        λ e. absurd (omega arith),
        (refl, λ e. absurd (omega arith), (refl, λ e. absurd (omega arith), refl)),
      )
      (
        (λ e. absurd (omega arith), (λ e. absurd (omega arith), tt)),
        ((λ e. absurd (omega arith), tt), (tt, tt)),
      )
      (omega arith) refl
