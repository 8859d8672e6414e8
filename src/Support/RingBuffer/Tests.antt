-- ===== src/Support/RingBuffer/Tests.antt =====
-- Tests of lib/ring_buffer.cc.
use shmily.Base.{◌≡◌, refl, List, [], ◌∷◌, arith}
use shmily.Support.RingBuffer.{RingBuffer, ringbuffer_put, ringbuffer_get, Op, put, get, run}
use shmily.Support.RingBuffer.Refine.{IsValid, run_refines}
use shmily.Support.RingBuffer.Queue

-- The indices are at the end of the array.
abbrev at_end : RingBuffer
at_end = record { buffer = λ i. 0; head = 63; tail = 63 }

at_end-IsValid : IsValid at_end
at_end-IsValid = record { head_in = omega arith; tail_in = omega arith }

abbrev ops : List Op
ops = put 5 ∷ put 6 ∷ get ∷ get ∷ get ∷ []

round_the_end : run at_end ops ≡ 5 ∷ 6 ∷ 0 ∷ []
unfolding run ringbuffer_put ringbuffer_get
round_the_end = refl

run_refines_example : run at_end ops ≡ Queue.run [] ops
run_refines_example = run_refines ops at_end at_end-IsValid
