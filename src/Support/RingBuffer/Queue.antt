-- ===== src/Support/RingBuffer/Queue.antt =====
-- The contract of the ring buffer: a queue of at most 63 bytes that drops what does not fit, and
-- yields 0 when it is empty.
use shmily.Base.{ℕ, List, [], ◌∷◌, ◌++◌, ltb, if◌then◌else◌, length}
use shmily.Support.RingBuffer.{Op, put, get}

unfoldable pub push : List ℕ → ℕ → List ℕ
push q ch = if ltb (length q) 63 then q ++ (ch ∷ []) else q

unfoldable pub pop : List ℕ → ℕ × List ℕ
pop [] = (0, [])
pop (ch ∷ q) = (ch, q)

unfoldable pub run : List ℕ → List Op → List ℕ
run q [] = []
run q (put ch ∷ ops) = run (push q ch) ops
run q (get ∷ ops) = let (ch, q') = pop q in ch ∷ run q' ops
