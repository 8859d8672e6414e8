-- ===== src/Support/RingBuffer.antt =====
-- lib/ring_buffer.h and lib/ring_buffer.cc: the byte queue between the keyboard interrupt and its
-- reader. `head` and `tail` are `unsigned char`; an index sum stays an `int`, so it cannot wrap.
pub mod Queue
pub mod Refine
mod Tests
use shmily.Base.{
  ℕ, ◌+◌, ◌-◌, ◌%◌, ◌≤◌, ◌<◌, Bool, Option, none, some, List, [], ◌∷◌, ◌++◌, ◌==◌, ltb,
  if◌then◌else◌, length, update,
}

pub record RingBuffer : Type 0 where
  pub buffer : ℕ → ℕ
  pub head : ℕ
  pub tail : ℕ

unfoldable pub init_ringbuffer : RingBuffer → RingBuffer
init_ringbuffer rb = record {
  buffer = λ i. if ltb i 64 then 0 else rb.buffer i;
  head = 0;
  tail = 0;
}

unfoldable pub ringbuffer_is_full : RingBuffer → Bool
ringbuffer_is_full rb = rb.tail == (rb.head + 1) % 64

unfoldable pub ringbuffer_is_empty : RingBuffer → Bool
ringbuffer_is_empty rb = rb.tail == rb.head

unfoldable pub ringbuffer_put : RingBuffer → ℕ → RingBuffer
unfolding ringbuffer_is_full
ringbuffer_put rb ch =
    if ringbuffer_is_full rb
    then rb
    else record rb { buffer = update rb.buffer rb.head ch; head = (rb.head + 1) % 64 }

unfoldable pub ringbuffer_get : RingBuffer → ℕ × RingBuffer
unfolding ringbuffer_is_empty
ringbuffer_get rb =
    if ringbuffer_is_empty rb
    then (0, rb)
    else (rb.buffer rb.tail, record rb { tail = (rb.tail + 1) % 64 })

-- What the producer and the consumer do, in the order in which they do it.
pub data Op : Type 0 where
  put : ℕ → Op
  get : Op

-- The bytes that the consumer sees.
unfoldable pub run : RingBuffer → List Op → List ℕ
run rb [] = []
run rb (put ch ∷ ops) = run (ringbuffer_put rb ch) ops
run rb (get ∷ ops) = let (ch, rb') = ringbuffer_get rb in ch ∷ run rb' ops
