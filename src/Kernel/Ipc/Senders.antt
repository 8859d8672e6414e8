-- ===== src/Kernel/Ipc/Senders.antt =====
-- The chain of senders that wait for a receiver: the last one to come is served first.
use shmily.Base.{
  ℕ, ◌≡◌, refl, sym, ap, ◌∙◌, ◌≢◌, ◌⊎◌, inl, inr, List, [], ◌∷◌, true, false, arith, ◌==◌,
  if◌then◌else◌, update_ne, ==_ne, All, All-imp, Bool-cases, some, Bool, not, ◌&&◌, ◌||◌,
}
use shmily.Kernel.State.{Kernel, Pcb, Status, ready, set_pcb}
use shmily.Kernel.Process.Queues.{set_status_fields}
use shmily.Kernel.Process.Wake.{unblock_proc_pcb, unblock_proc_messages, woken_status}
use shmily.Kernel.Ipc.{
  any, is_sending, join_senders, copy_from, set_destination, release, take_first, receive,
}

-- The processes from `p` on through `next_ready`, up to NULL.
abbrev pub Chained : (ℕ → Pcb) → ℕ → List ℕ → Type 0
Chained pcb p [] = p ≡ 0
Chained pcb p (x ∷ xs) = (p ≡ x) × (x ≢ 0) × Chained pcb (pcb x).next_ready xs

-- The senders that wait for `dst`.
abbrev pub Senders : Kernel → ℕ → List ℕ → Type 0
Senders k dst xs = Chained k.pcb (k.pcb dst).sendings xs

pub Chained-same :
    (f g : ℕ → Pcb) (p : ℕ) (xs : List ℕ)
    → All (λ x. (g x).next_ready ≡ (f x).next_ready) xs
    → Chained f p xs
    → Chained g p xs
Chained-same f g p [] h c = c
Chained-same f g p (x ∷ xs) h c = (c.0, c.1, Chained-same f g (g x).next_ready xs h.1 (rw h.0 c.2))

-- The `pcb`s once the current process has joined the senders.
pub record Joined (this dst : ℕ) (k k' : Kernel) : Type 0 where
  pub sendings : (k'.pcb dst).sendings ≡ k.cur_proc
  pub next : (k'.pcb k.cur_proc).next_ready ≡ (k.pcb dst).sendings
  pub message : (k'.pcb k.cur_proc).message ≡ this
  pub others : (x : ℕ) → x ≢ k.cur_proc → (k'.pcb x).next_ready ≡ (k.pcb x).next_ready
  pub priority : (x : ℕ) → (k'.pcb x).priority ≡ (k.pcb x).priority
  pub intr_cnt : (x : ℕ) → (k'.pcb x).intr_cnt ≡ (k.pcb x).intr_cnt

pub join_senders-Joined :
    (this dst : ℕ) (k : Kernel)
    → (k.messages this).source ≡ k.cur_proc
    → dst ≢ k.cur_proc
    → Joined this dst k (join_senders this dst k)
unfolding join_senders
join_senders-Joined this dst k own ne = record {
  sendings = ground arith;
  next = ground arith;
  message = ground arith;
  others = λ x far. ground arith;
  priority = λ x. ground arith;
  intr_cnt = λ x. ground arith;
}

-- A process other than the receiver and not yet on the chain gets in front of the others when it
-- sends.
pub join_senders-Senders :
    (this dst : ℕ) (k : Kernel) (xs : List ℕ)
    → Senders k dst xs
    → (k.messages this).source ≡ k.cur_proc
    → dst ≢ k.cur_proc
    → k.cur_proc ≢ 0
    → All (λ x. x ≢ k.cur_proc) xs
    → Senders (join_senders this dst k) dst (k.cur_proc ∷ xs)
join_senders-Senders this dst k xs c own ne real apart =
    let h = join_senders-Joined this dst k own ne in
    (
      h.sendings,
      real,
      rw h.next (
          Chained-same k.pcb (join_senders this dst k).pcb (k.pcb dst).sendings xs
            (All-imp (λ x. x ≢ k.cur_proc)
              (λ x. ((join_senders this dst k).pcb x).next_ready ≡ (k.pcb x).next_ready) xs h.others
              apart)
            c),
    )

pub release_kept :
    (p : ℕ) (k : Kernel) (x : ℕ)
    → (((release p k).pcb x).next_ready ≡ (k.pcb x).next_ready)
      × (((release p k).pcb x).sendings ≡ (k.pcb x).sendings)
      × ((release p k).messages ≡ k.messages)
unfolding release
release_kept p k x = elim (Bool-cases (is_sending (k.pcb p).status)) [
  | inl sends ↦
      let woken = unblock_proc_pcb p k in
      let same = set_status_fields k p ready x in
      rw sends (
        ap (λ f. (f x).next_ready) woken ∙ ap (λ c. c.next_ready) same,
        ap (λ f. (f x).sendings) woken ∙ ap (λ c. c.sendings) same,
        unblock_proc_messages p k,
      )
  | inr other ↦ rw other (refl, refl, refl)
]

-- The status of a process that was released: READY if it was blocked on sending.
abbrev pub released : Status → Status
released s = if is_sending s then ready else s

pub release_status : (p : ℕ) (k : Kernel) → ((release p k).pcb p).status ≡ released (k.pcb p).status
unfolding release
release_status p k = elim (Bool-cases (is_sending (k.pcb p).status)) [
  | inl sends ↦
      rw (sends, ap (λ f. (f p).status) (unblock_proc_pcb p k) ∙ woken_status k p ready) refl
  | inr other ↦ rw other refl
]

pub release_other : (p : ℕ) (k : Kernel) (x : ℕ) → x ≢ p → (release p k).pcb x ≡ k.pcb x
unfolding release
release_other p k x ne = elim (Bool-cases (is_sending (k.pcb p).status)) [
  | inl sends ↦ rw sends (ap (λ f. f x) (unblock_proc_pcb p k) ∙ update_ne k.pcb p x _ ne)
  | inr other ↦ rw other refl
]

-- What receiving from the first sender `x` leaves; `this` belongs to `src`.
pub record Taken (this src x : ℕ) (xs : List ℕ) (k k' : Kernel) : Type 0 where
  pub type : (k'.messages this).type ≡ (k.messages (k.pcb x).message).type
  pub context : (k'.messages this).context ≡ (k.messages (k.pcb x).message).context
  pub from : (k'.messages this).destination ≡ x
  pub source : (k'.messages this).source ≡ (k.messages this).source
  pub other : (a : ℕ) → a ≢ this → k'.messages a ≡ k.messages a
  pub senders : Senders k' src xs
  pub status : (k'.pcb x).status ≡ released (k.pcb x).status

-- The state of `take_first` before the sender is released.
abbrev taken : ℕ → ℕ → ℕ → Kernel → Kernel
taken this src x k =
    let k1 = copy_from this x k in
    let next = (k1.pcb x).next_ready in
    let k2 = set_pcb src (record (k1.pcb src) { sendings = if next == x then 0 else next }) k1 in
    set_destination this x k2

next_apart :
    (f : ℕ → Pcb) (p x : ℕ) (xs : List ℕ) → x ≢ 0 → Chained f p xs → All (λ y. y ≢ x) xs → p ≢ x
next_apart f p x [] real c apart = λ e. real (sym e ∙ c)
next_apart f p x (y ∷ xs) real c apart = λ e. apart.0 (sym c.0 ∙ e)

taken_sendings :
    (this src x : ℕ) (k : Kernel)
    → (k.pcb x).next_ready ≢ x
    → ((taken this src x k).pcb src).sendings ≡ (k.pcb x).next_ready
taken_sendings this src x k ne = ground arith

taken_next :
    (this src x y : ℕ) (k : Kernel) → ((taken this src x k).pcb y).next_ready ≡ (k.pcb y).next_ready
taken_next this src x y k = ground arith

taken_status :
    (this src x y : ℕ) (k : Kernel) → ((taken this src x k).pcb y).status ≡ (k.pcb y).status
taken_status this src x y k = ground arith

pub All-All : (P : ℕ → Type 0) (xs : List ℕ) → ((x : ℕ) → P x) → All P xs
All-All P [] h = tt
All-All P (x ∷ xs) h = (h x, All-All P xs h)

pub and_false : (b : Bool) → (b && false) ≡ false
and_false true = refl
and_false false = refl

pub take_first-Taken :
    (this src x : ℕ) (xs : List ℕ) (k : Kernel)
    → Senders k src (x ∷ xs)
    → All (λ y. y ≢ x) xs
    → Taken this src x xs k (take_first this src x k)
unfolding take_first
take_first-Taken this src x xs k c apart =
    let w = taken this src x k in
    let kept = release_kept x w in
    let ne : (k.pcb x).next_ready ≢ x = next_apart k.pcb (k.pcb x).next_ready x xs c.1 c.2 apart in
    record {
      type = ap (λ f. (f this).type) (kept src).2 ∙ ground arith;
      context = ap (λ f. (f this).context) (kept src).2 ∙ ground arith;
      from = ap (λ f. (f this).destination) (kept src).2 ∙ ground arith;
      source = ap (λ f. (f this).source) (kept src).2 ∙ ground arith;
      other = λ a far. ap (λ f. f a) (kept src).2 ∙ ground arith;
      senders =
          rw ((kept src).1, taken_sendings this src x k ne)
            (Chained-same k.pcb (release x w).pcb (k.pcb x).next_ready xs
              (All-All (λ y. ((release x w).pcb y).next_ready ≡ (k.pcb y).next_ready) xs
                (λ y. (kept y).0 ∙ taken_next this src x y k))
              c.2);
      status = release_status x w ∙ ap released (taken_status this src x x k);
    }

-- A process that receives from anybody and has no interrupt counted, or that wants the first of
-- its senders, goes on at once: it has the type and the context of that sender's message and the
-- sender as destination, the sender is off the chain and, if it was blocked on sending, READY.
pub receive-Taken :
    (fuel this want x : ℕ) (xs : List ℕ) (k : Kernel)
    → Senders k (k.messages this).source (x ∷ xs)
    → All (λ y. y ≢ x) xs
    → ((want ≡ any) × ((k.pcb (k.messages this).source).intr_cnt ≡ 0)) ⊎ (want ≡ x)
    → (k' : Kernel) × (receive fuel this want k ≡ some k')
      × Taken this (k.messages this).source x xs k k'
unfolding receive
receive-Taken fuel this want x xs k c apart w =
    let src = (k.messages this).source in
    let at : (k.pcb src).sendings ≡ x = c.0 in
    let interrupts : (not ((k.pcb src).intr_cnt == 0) && (any == want)) ≡ false = calm w in
    let real : (x == 0) ≡ false = ==_ne x 0 c.1 in
    let this_one : ((want == x) || (want == 0)) ≡ true = wanted w in
    (
      take_first this src x k,
      rw (interrupts, at, real, this_one) refl,
      take_first-Taken this src x xs k c apart,
    )
  where
    calm :
        ((want ≡ any) × ((k.pcb (k.messages this).source).intr_cnt ≡ 0)) ⊎ (want ≡ x)
        → (not ((k.pcb (k.messages this).source).intr_cnt == 0) && (any == want)) ≡ false
    calm (inl h) = rw h.1 refl
    calm (inr h) =
        let other : (any == want) ≡ false = ==_ne any want (λ e. c.1 (sym h ∙ sym e)) in
        rw other (and_false (not ((k.pcb (k.messages this).source).intr_cnt == 0)))

    wanted :
        ((want ≡ any) × ((k.pcb (k.messages this).source).intr_cnt ≡ 0)) ⊎ (want ≡ x)
        → ((want == x) || (want == 0)) ≡ true
    wanted (inl h) = ground arith
    wanted (inr h) = ground arith
