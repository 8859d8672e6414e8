-- ===== src/Support/IndirectRingBuffer/Tests.antt =====
-- Tests of lib/indirect_ring_buffer.cc.
use shmily.Base.{◌+◌, ◌*◌, ◌≡◌, refl, [], ◌∷◌, arith}
use shmily.Support.IndirectRingBuffer.{IndirectRingBuffer}
use shmily.Support.IndirectRingBuffer.Fifo.{IsValid, contents}

-- The buffers at 8 and 9 wait.
abbrev two_wait : IndirectRingBuffer
two_wait = record { buf = λ i. 4096 + 2048 * i; head = 0; tail = 8 }

two_wait-IsValid : IsValid two_wait
two_wait-IsValid = record { head_in = omega arith; tail_in = omega arith }

waiting : contents two_wait ≡ 20480 ∷ 22528 ∷ []
waiting = refl
