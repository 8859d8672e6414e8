-- ===== src/Support/IndirectRingBuffer.antt =====
-- lib/indirect_ring_buffer.h and lib/indirect_ring_buffer.cc: ten buffers, handed to a producer and
-- then to a consumer in turn. A `char*` is a number, and 0 is NULL.
pub mod Fifo
mod Tests
use shmily.Base.{ℕ, ◌+◌, ◌-◌, ◌%◌, ◌≤◌, ◌<◌, Bool, ◌==◌, ltb, if◌then◌else◌, update}

pub record IndirectRingBuffer : Type 0 where
  pub buf : ℕ → ℕ
  pub head : ℕ
  pub tail : ℕ

abbrev pub max_len : ℕ
max_len = 10

-- The constructor without an argument.
unfoldable pub empty : IndirectRingBuffer → IndirectRingBuffer
empty rb = record { buf = λ i. if ltb i max_len then 0 else rb.buf i; head = 0; tail = 0 }

unfoldable pub initialize : IndirectRingBuffer → (ℕ → ℕ) → IndirectRingBuffer
initialize rb buf_ = record {
  buf = λ i. if ltb i max_len then buf_ i else rb.buf i;
  head = 0;
  tail = 0;
}

unfoldable pub is_full : IndirectRingBuffer → Bool
is_full rb = rb.tail == (rb.head + 1) % max_len

unfoldable pub is_empty : IndirectRingBuffer → Bool
is_empty rb = rb.tail == rb.head

unfoldable pub get_first_free_buffer : IndirectRingBuffer → ℕ × IndirectRingBuffer
unfolding is_full
get_first_free_buffer rb =
    if is_full rb then (0, rb) else (rb.buf rb.head, record rb { head = (rb.head + 1) % max_len })

unfoldable pub get_first_used_buffer : IndirectRingBuffer → ℕ × IndirectRingBuffer
unfolding is_empty
get_first_used_buffer rb =
    if is_empty rb then (0, rb) else (rb.buf rb.tail, record rb { tail = (rb.tail + 1) % max_len })
