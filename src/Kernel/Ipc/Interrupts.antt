-- ===== src/Kernel/Ipc/Interrupts.antt =====
-- Interrupts as messages, and a wanted sender that is not the first of the chain.
use mathlib.Core.List.{append_assoc}
use shmily.Base.{
  zero, [], ◌++◌, ◌<◌, length, All, All-imp, All-append_left, All-append_right, Distinct,
  Distinct-delete, ℕ, suc, ◌+◌, ◌-◌, ◌%◌, ◌≡◌, refl, sym, ap, ◌∙◌, ◌≢◌, List, ◌∷◌, true, false,
  arith, ◌==◌, ==_iff, ==_ne, some, not, ◌&&◌,
}
use shmily.Kernel.State.{Kernel, Pcb, ready, waiting_msg, sending_msg, set_pcb, set_message}
use shmily.Kernel.Process.{unblock_proc}
use shmily.Kernel.Process.Wake.{unblock_proc_pcb, unblock_proc_messages, woken_status}
use shmily.Kernel.Process.Queues.{set_status_fields}
use shmily.Kernel.Ipc.{
  any, intr, interrupt_net, is_waiting, send, send_interrupt_net, receive, take_interrupt,
  find_before, release, take_later, copy_from, set_destination,
}
use shmily.Kernel.Ipc.Senders.{
  Senders, Chained, Chained-same, and_false, released, release_kept, release_status, release_other,
}

-- The state that a network interrupt leaves before the receiver is woken.
abbrev interrupted : ℕ → Kernel → Kernel
interrupted dst k =
    let m = (k.pcb dst).message in
    set_message m (record (k.messages m) { type = intr })
      (set_pcb dst (record (k.pcb dst) { intr_cnt = ((k.pcb dst).intr_cnt + 1) % 256 }) k)

send_net :
    (fuel this dst : ℕ) (k : Kernel)
    → (k.messages this).source ≡ interrupt_net
    → send fuel this dst k ≡ some (send_interrupt_net dst k)
unfolding send
send_net fuel this dst k net =
    let test : ((k.messages this).source == interrupt_net) ≡ true = (==_iff _ _).1 net in
    rw test refl

wakes :
    (dst : ℕ) (k : Kernel)
    → (k.pcb dst).status ≡ waiting_msg
    → (k.messages (k.pcb dst).message).destination ≡ any
    → send_interrupt_net dst k ≡ unblock_proc dst (interrupted dst k)
unfolding send_interrupt_net
wakes dst k waits anybody =
    let w : is_waiting (k.pcb dst).status ≡ true = ap is_waiting waits in
    let a : (any == (k.messages (k.pcb dst).message).destination) ≡ true =
      (==_iff _ _).1 (sym anybody) in
    rw (w, a) refl

counted :
    (dst : ℕ) (k : Kernel) → (k.pcb dst).intr_cnt ≡ 0 → ((interrupted dst k).pcb dst).intr_cnt ≡ 1
counted dst k quiet = ground arith

interrupted_type :
    (dst : ℕ) (k : Kernel) → ((interrupted dst k).messages (k.pcb dst).message).type ≡ intr
interrupted_type dst k = ground arith

interrupted_source :
    (dst : ℕ) (k : Kernel) (a : ℕ) → ((interrupted dst k).messages a).source ≡ (k.messages a).source
interrupted_source dst k a = ground arith

receive_interrupt :
    (fuel this src : ℕ) (k : Kernel)
    → (k.messages this).source ≡ src
    → (k.pcb src).intr_cnt ≡ 1
    → receive fuel this any k ≡ some (take_interrupt this src k)
unfolding receive
receive_interrupt fuel this src k mine once = rw (mine, once) refl

take_interrupt-Taken :
    (this src : ℕ) (k : Kernel)
    → (((take_interrupt this src k).messages this).type ≡ intr)
      × (((take_interrupt this src k).pcb src).intr_cnt ≡ (k.pcb src).intr_cnt - 1)
unfolding take_interrupt
take_interrupt-Taken this src k = (ground arith, ground arith)

-- A network interrupt is counted even where it wakes the process that waits for anybody, so that
-- the process meets it twice: its message has the type INTR, and the next `receive` from anybody
-- returns at once with INTR again.
pub send-receive_twice :
    (fuel this dst fuel' this' : ℕ) (k : Kernel)
    → (k.messages this).source ≡ interrupt_net
    → (k.pcb dst).status ≡ waiting_msg
    → (k.messages (k.pcb dst).message).destination ≡ any
    → (k.pcb dst).intr_cnt ≡ 0
    → (k.messages this').source ≡ dst
    → (k' k'' : Kernel) × (send fuel this dst k ≡ some k')
      × ((k'.messages (k.pcb dst).message).type ≡ intr)
      × ((k'.pcb dst).status ≡ ready)
      × (receive fuel' this' any k' ≡ some k'')
      × ((k''.messages this').type ≡ intr)
      × ((k''.pcb dst).intr_cnt ≡ 0)
send-receive_twice fuel this dst fuel' this' k net waits anybody quiet mine =
    let m = (k.pcb dst).message in
    let k1 = interrupted dst k in
    let k' = unblock_proc dst k1 in
    let same = unblock_proc_messages dst k1 in
    let kept : (p : ℕ) → (k'.pcb p).intr_cnt ≡ (k1.pcb p).intr_cnt = λ p.
      ap (λ f. (f p).intr_cnt) (unblock_proc_pcb dst k1)
      ∙ ap (λ c. c.intr_cnt) (set_status_fields k1 dst ready p) in
    let once : (k'.pcb dst).intr_cnt ≡ 1 = kept dst ∙ counted dst k quiet in
    let at : (k'.messages this').source ≡ dst =
      ap (λ f. (f this').source) same ∙ interrupted_source dst k this' ∙ mine in
    let taken = take_interrupt-Taken this' dst k' in
    (
      k',
      take_interrupt this' dst k',
      send_net fuel this dst k net ∙ ap some (wakes dst k waits anybody),
      ap (λ f. (f m).type) same ∙ interrupted_type dst k,
      ap (λ f. (f dst).status) (unblock_proc_pcb dst k1) ∙ woken_status k1 dst ready,
      receive_interrupt fuel' this' dst k' at once,
      taken.0,
      taken.1 ∙ ap (λ n. n - 1) once ∙ omega arith,
    )

-- The state of `take_later` before the sender is released.
abbrev passed : ℕ → ℕ → ℕ → Kernel → Kernel
passed this want prev k =
    let k1 = copy_from this want k in
    let k2 = set_pcb prev (record (k1.pcb prev) { next_ready = (k1.pcb want).next_ready }) k1 in
    set_destination this prev k2

passed_status :
    (this want prev x : ℕ) (k : Kernel)
    → ((passed this want prev k).pcb x).status ≡ (k.pcb x).status
passed_status this want prev x k = ground arith

passed_sendings :
    (this want prev x : ℕ) (k : Kernel)
    → ((passed this want prev k).pcb x).sendings ≡ (k.pcb x).sendings
passed_sendings this want prev x k = ground arith

passed_next :
    (this want prev : ℕ) (k : Kernel)
    → ((passed this want prev k).pcb prev).next_ready ≡ (k.pcb want).next_ready
passed_next this want prev k = ground arith

passed_others :
    (this want prev x : ℕ) (k : Kernel)
    → x ≢ prev
    → ((passed this want prev k).pcb x).next_ready ≡ (k.pcb x).next_ready
passed_others this want prev x k ne = ground arith

-- A chain whose first members are other processes than `want` does not start with it.
chain_start :
    (f : ℕ → Pcb) (p want prev : ℕ) (us ys : List ℕ)
    → Chained f p (us ++ prev ∷ ys)
    → All (λ y. y ≢ want) us
    → prev ≢ want
    → p ≢ want
chain_start f p want prev [] ys c far ne = λ e. ne (sym c.0 ∙ e)
chain_start f p want prev (u ∷ us) ys c far ne = λ e. far.0 (sym c.0 ∙ e)

-- The search through the chain ends at the process before the one wanted.
find_before-chain :
    (fuel want prev p : ℕ) (us xs : List ℕ) (k : Kernel)
    → Chained k.pcb p (us ++ prev ∷ want ∷ xs)
    → All (λ y. y ≢ want) us
    → prev ≢ want
    → length us < fuel
    → find_before fuel want p k ≡ some prev
unfolding find_before
find_before-chain zero want prev p us xs k c far ne enough = absurd (omega arith)
find_before-chain (suc n) want prev p [] xs k c far ne enough =
    let a : (prev == 0) ≡ false = ==_ne prev 0 c.1 in
    let b : (want == (k.pcb prev).next_ready) ≡ true = (==_iff _ _).1 (sym c.2.0) in
    rw (c.0, a, b) refl
find_before-chain (suc n) want prev p (u ∷ us) xs k c far ne enough =
    let a : (u == 0) ≡ false = ==_ne u 0 c.1 in
    let away : (k.pcb u).next_ready ≢ want =
      chain_start k.pcb (k.pcb u).next_ready want prev us (want ∷ xs) c.2 far.1 ne in
    let b : (want == (k.pcb u).next_ready) ≡ false = ==_ne _ _ (λ e. away (sym e)) in
    rw (c.0, a, b)
      (find_before-chain n want prev (k.pcb u).next_ready us xs k c.2 far.1 ne (omega arith))

-- A member is unlinked when the one before it leads to the one behind it.
Chained-unlink :
    (f g : ℕ → Pcb) (p prev want : ℕ) (us xs : List ℕ)
    → Chained f p (us ++ prev ∷ want ∷ xs)
    → All (λ x. (g x).next_ready ≡ (f x).next_ready) us
    → All (λ x. (g x).next_ready ≡ (f x).next_ready) xs
    → (g prev).next_ready ≡ (f want).next_ready
    → Chained g p (us ++ prev ∷ xs)
Chained-unlink f g p prev want [] xs c front back at =
    (c.0, c.1, Chained-same f g (g prev).next_ready xs back (rw at c.2.2))
Chained-unlink f g p prev want (u ∷ us) xs c front back at =
    (c.0, c.1, Chained-unlink f g (g u).next_ready prev want us xs (rw front.0 c.2) front.1 back at)

receive_later :
    (fuel this want first prev : ℕ) (k : Kernel)
    → (k.pcb (k.messages this).source).sendings ≡ first
    → first ≢ 0
    → want ≢ 0
    → want ≢ first
    → prev ≢ 0
    → find_before fuel want first k ≡ some prev
    → receive fuel this want k ≡ some (take_later this want prev k)
unfolding receive
receive_later fuel this want first prev k at real named ne there found =
    let a : (any == want) ≡ false = ==_ne any want (λ e. named (sym e)) in
    let b : (first == 0) ≡ false = ==_ne first 0 real in
    let d : (want == first) ≡ false = ==_ne want first ne in
    let f : (want == 0) ≡ false = ==_ne want 0 named in
    let g : (prev == 0) ≡ false = ==_ne prev 0 there in
    let n : (not ((k.pcb (k.messages this).source).intr_cnt == 0) && false) ≡ false = and_false _ in
    rw (a, n, at, b, d, f, found, g) refl

-- Of a chain: the members other than `e` where `e` stands between `us` and `ys`.
Distinct-apart :
    (e : ℕ) (us ys : List ℕ) → Distinct (us ++ e ∷ ys) → All (λ y. y ≢ e) us × All (λ y. y ≢ e) ys
Distinct-apart e us ys d =
    let h = (Distinct-delete e us ys d).1 in
    (All-append_left (λ y. y ≢ e) us ys h, All-append_right (λ y. y ≢ e) us ys h)

-- The members of a chain are processes.
Chained-real : (f : ℕ → Pcb) (p x : ℕ) (us ys : List ℕ) → Chained f p (us ++ x ∷ ys) → x ≢ 0
Chained-real f p x [] ys c = c.1
Chained-real f p x (u ∷ us) ys c = Chained-real f (f u).next_ready x us ys c.2

-- A sender that is wanted by name and stands anywhere behind the first of the chain, `prev` before
-- it, with more rounds than senders stand before `prev`: its message's type and context are taken
-- and it is off the chain, on which the others stay in their order. Yet the destination becomes
-- `prev`, the wanted sender itself stays blocked on sending, and `prev`, which stays on the chain, is
-- READY if it was blocked on sending.
pub receive_wanted_later :
    (fuel this want prev : ℕ) (us xs : List ℕ) (k : Kernel)
    → Senders k (k.messages this).source (us ++ prev ∷ want ∷ xs)
    → Distinct (us ++ prev ∷ want ∷ xs)
    → length us < fuel
    → (k.pcb want).status ≡ sending_msg
    → (k' : Kernel) × (receive fuel this want k ≡ some k')
      × ((k'.messages this).type ≡ (k.messages (k.pcb want).message).type)
      × ((k'.messages this).context ≡ (k.messages (k.pcb want).message).context)
      × ((k'.messages this).destination ≡ prev)
      × Senders k' (k.messages this).source (us ++ prev ∷ xs)
      × ((k'.pcb want).status ≡ sending_msg)
      × ((k'.pcb prev).status ≡ released (k.pcb prev).status)
unfolding take_later
receive_wanted_later fuel this want prev us xs k c d enough sends =
    let src = (k.messages this).source in
    let first = (k.pcb src).sendings in
    let w = passed this want prev k in
    let (before, behind) = Distinct-apart prev us (want ∷ xs) d in
    let whole : Distinct ((us ++ prev ∷ []) ++ want ∷ xs) = rw append_assoc d in
    let ahead = (Distinct-apart want (us ++ prev ∷ []) xs whole).0 in
    let us_apart = All-append_left (λ y. y ≢ want) us (prev ∷ []) ahead in
    let ne : prev ≢ want = (All-append_right (λ y. y ≢ want) us (prev ∷ []) ahead).0 in
    let named : want ≢ 0 = Chained-real k.pcb first want (us ++ prev ∷ []) xs (rw append_assoc c) in
    let away : first ≢ want = chain_start k.pcb first want prev us (want ∷ xs) c us_apart ne in
    let there = Chained-real k.pcb first prev us (want ∷ xs) c in
    let real : first ≢ 0 = chain_real us c in
    let kept = release_kept prev w in
    let same = λ (x : ℕ) (far : x ≢ prev). (kept x).0 ∙ passed_others this want prev x k far in
    let unlinked : Chained (release prev w).pcb first (us ++ prev ∷ xs) =
      Chained-unlink k.pcb (release prev w).pcb first prev want us xs c (All-imp _ _ us same before)
        (All-imp _ _ xs same behind.1) ((kept prev).0 ∙ passed_next this want prev k) in
    (
      take_later this want prev k,
      receive_later fuel this want first prev k refl real named (λ e. away (sym e)) there
          (find_before-chain fuel want prev first us xs k c us_apart ne enough),
      ap (λ f. (f this).type) (kept prev).2 ∙ ground arith,
      ap (λ f. (f this).context) (kept prev).2 ∙ ground arith,
      ap (λ f. (f this).destination) (kept prev).2 ∙ ground arith,
      rw ((kept src).1, passed_sendings this want prev src k) unlinked,
      ap (λ e. e.status) (release_other prev w want (λ e. ne (sym e)))
          ∙ passed_status this want prev want k
          ∙ sends,
      release_status prev w ∙ ap released (passed_status this want prev prev k),
    )
  where
    chain_real :
        (vs : List ℕ)
        → Chained k.pcb (k.pcb (k.messages this).source).sendings (vs ++ prev ∷ want ∷ xs)
        → (k.pcb (k.messages this).source).sendings ≢ 0
    chain_real [] h = λ e. h.1 (sym h.0 ∙ e)
    chain_real (v ∷ vs) h = λ e. h.1 (sym h.0 ∙ e)
