-- ===== src/Support/RingBuffer/Refine.antt =====
-- A valid ring buffer behaves as the queue of the bytes that it holds.
use shmily.Base.{
  ℕ, suc, ◌+◌, ◌-◌, ◌%◌, ◌<◌, ◌≡◌, refl, ◌∙◌, true, false, List, [], ◌∷◌, arith, length, Bool-cases,
  inl, inr, ltb-false, lt→ltb, ◌==◌,
}
use shmily.Support.Slots.{slots, length-slots, slots_pos, slots-update}
use shmily.Support.RingBuffer.{
  RingBuffer, init_ringbuffer, ringbuffer_put, ringbuffer_get, Op, put, get, run,
}
use shmily.Support.RingBuffer.Queue

pub record IsValid (rb : RingBuffer) : Type 0 where
  pub head_in : rb.head < 64
  pub tail_in : rb.tail < 64

abbrev pub held : RingBuffer → ℕ
held rb = (rb.head + 64 - rb.tail) % 64

abbrev pub contents : RingBuffer → List ℕ
contents rb = slots 64 rb.buffer rb.tail (held rb)

pub init-IsValid :
    (rb : RingBuffer) → IsValid (init_ringbuffer rb) × (contents (init_ringbuffer rb) ≡ [])
unfolding init_ringbuffer
init-IsValid rb = (record { head_in = omega arith; tail_in = omega arith }, refl)

pub put-IsValid : (rb : RingBuffer) (ch : ℕ) → IsValid rb → IsValid (ringbuffer_put rb ch)
unfolding ringbuffer_put
put-IsValid rb ch v = ground arith

pub get-IsValid : (rb : RingBuffer) → IsValid rb → IsValid (ringbuffer_get rb).1
unfolding ringbuffer_get
get-IsValid rb v = ground arith

put_full :
    (rb : RingBuffer) (ch : ℕ)
    → IsValid rb
    → (rb.tail == (rb.head + 1) % 64) ≡ true
    → contents (ringbuffer_put rb ch) ≡ Queue.push (contents rb) ch
unfolding ringbuffer_put Queue.push
put_full rb ch v e =
    let h : length (contents rb) ≡ 63 =
      length-slots 64 rb.buffer rb.tail (held rb) ∙ ground arith in
    rw (e, ltb-false (length (contents rb)) 63 (omega arith))

put_free :
    (rb : RingBuffer) (ch : ℕ)
    → IsValid rb
    → (rb.tail == (rb.head + 1) % 64) ≡ false
    → contents (ringbuffer_put rb ch) ≡ Queue.push (contents rb) ch
unfolding ringbuffer_put Queue.push
put_free rb ch v e =
    let n : held rb < 63 = ground arith in
    let h : length (contents rb) ≡ held rb = length-slots 64 rb.buffer rb.tail (held rb) in
    let more : ((rb.head + 1) % 64 + 64 - rb.tail) % 64 ≡ suc (held rb) = ground arith in
    rw (e, lt→ltb (length (contents rb)) 63 (omega arith), more)
      (slots-update 64 rb.buffer ch (held rb) rb.tail rb.head v.tail_in (omega arith)
        (omega (arith, v.head_in, v.tail_in)))

-- `ringbuffer_put` leaves the buffer holding its bytes and the new one behind them, or as it was
-- if it holds 63 bytes.
pub put_refines :
    (rb : RingBuffer) (ch : ℕ)
    → IsValid rb
    → contents (ringbuffer_put rb ch) ≡ Queue.push (contents rb) ch
put_refines rb ch v = elim (Bool-cases (rb.tail == (rb.head + 1) % 64)) [
  | inl e ↦ put_full rb ch v e
  | inr e ↦ put_free rb ch v e
]

-- `ringbuffer_get` returns the oldest byte and leaves the others, or returns 0 if there is none.
pub get_refines :
    (rb : RingBuffer)
    → IsValid rb
    → let (ch, rb') = ringbuffer_get rb in (ch, contents rb') ≡ Queue.pop (contents rb)
unfolding ringbuffer_get Queue.pop
get_refines rb v = ground (arith, slots_pos 64 rb.buffer rb.tail (held rb))

-- For every order of puts and gets the consumer sees what the bounded queue yields.
pub run_refines :
    (ops : List Op) (rb : RingBuffer) → IsValid rb → run rb ops ≡ Queue.run (contents rb) ops
unfolding run Queue.run
run_refines [] rb v = refl
run_refines (put ch ∷ ops) rb v =
    rw (run_refines ops (ringbuffer_put rb ch) (put-IsValid rb ch v), put_refines rb ch v)
run_refines (get ∷ ops) rb v =
    rw (run_refines ops (ringbuffer_get rb).1 (get-IsValid rb v), ← get_refines rb v)
