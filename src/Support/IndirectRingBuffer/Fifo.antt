-- ===== src/Support/IndirectRingBuffer/Fifo.antt =====
-- The buffers that the producer took and the consumer has not yet taken, oldest first.
use shmily.Base.{
  ℕ, suc, ◌+◌, ◌-◌, ◌%◌, ◌<◌, ◌≡◌, refl, ◌≢◌, ◌∙◌, false, List, [], ◌∷◌, ◌++◌, arith, length, ◌==◌,
  All, Bool-cases, inl, inr, ◌⊎◌,
}
use shmily.Support.Slots.{slots, length-slots, slots_pos, slots_snoc, slots-All}
use shmily.Support.IndirectRingBuffer.{
  IndirectRingBuffer, get_first_free_buffer, get_first_used_buffer,
}

pub record IsValid (rb : IndirectRingBuffer) : Type 0 where
  pub head_in : rb.head < 10
  pub tail_in : rb.tail < 10

abbrev pub held : IndirectRingBuffer → ℕ
held rb = (rb.head + 10 - rb.tail) % 10

abbrev pub contents : IndirectRingBuffer → List ℕ
contents rb = slots 10 rb.buf rb.tail (held rb)

-- `ret` is put behind the waiting buffers, or nine are waiting and nothing is taken.
abbrev pub Taken : IndirectRingBuffer → ℕ × IndirectRingBuffer → Type 0
Taken rb (ret, rb') =
    ((length (contents rb) < 9) × (contents rb' ≡ contents rb ++ ret ∷ []))
    ⊎ ((length (contents rb) ≡ 9) × (ret ≡ 0) × (rb' ≡ rb))

-- Taking a free buffer puts the buffer returned behind those that wait, unless nine are waiting:
-- then it returns NULL and changes nothing.
pub free_buffer-Taken : (rb : IndirectRingBuffer) → IsValid rb → Taken rb (get_first_free_buffer rb)
unfolding get_first_free_buffer
free_buffer-Taken rb v = elim (Bool-cases (rb.tail == (rb.head + 1) % 10)) [
  | inl e ↦
      let n : held rb ≡ 9 = ground arith in
      rw e (inr (length-slots 10 rb.buf rb.tail (held rb) ∙ n, refl, refl))
  | inr e ↦
      let n : held rb < 9 = ground arith in
      let more : ((rb.head + 1) % 10 + 10 - rb.tail) % 10 ≡ suc (held rb) = ground arith in
      rw (e, more)
        (inl (
          rw (length-slots 10 rb.buf rb.tail (held rb)) n,
          slots_snoc 10 rb.buf (held rb) rb.tail rb.head v.tail_in (omega arith)
              (omega (arith, v.head_in, v.tail_in)),
        ))
]

-- `ret` is taken from the front of the waiting buffers, or none waits.
abbrev pub Consumed : IndirectRingBuffer → ℕ × IndirectRingBuffer → Type 0
Consumed rb (ret, rb') =
    (contents rb ≡ ret ∷ contents rb') ⊎ ((contents rb ≡ []) × (ret ≡ 0) × (rb' ≡ rb))

-- Taking a used buffer takes the one that has waited longest; it gives NULL and changes nothing
-- if none waits.
pub used_buffer-Consumed :
    (rb : IndirectRingBuffer) → IsValid rb → Consumed rb (get_first_used_buffer rb)
unfolding get_first_used_buffer
used_buffer-Consumed rb v = elim (Bool-cases (rb.tail == rb.head)) [
  | inl e ↦ let n : held rb ≡ 0 = ground arith in rw (e, n) (inr (refl, refl, refl))
  | inr e ↦
      let n : held rb ≢ 0 = ground arith in
      let fewer : (rb.head + 10 - (rb.tail + 1) % 10) % 10 ≡ held rb - 1 = ground arith in
      rw (e, fewer) (inl (slots_pos 10 rb.buf rb.tail (held rb) n))
]

pub free-IsValid : (rb : IndirectRingBuffer) → IsValid rb → IsValid (get_first_free_buffer rb).1
unfolding get_first_free_buffer
free-IsValid rb v = ground arith

pub used-IsValid : (rb : IndirectRingBuffer) → IsValid rb → IsValid (get_first_used_buffer rb).1
unfolding get_first_used_buffer
used-IsValid rb v = ground arith

abbrev pub DistinctBuffers : IndirectRingBuffer → Type 0
DistinctBuffers rb = (i j : ℕ) → i < 10 → j < 10 → rb.buf i ≡ rb.buf j → i ≡ j

-- Where the ten buffers are distinct, a producer that is given one is not given one that still
-- waits for the consumer.
pub free_buffer_fresh :
    (rb : IndirectRingBuffer)
    → IsValid rb
    → DistinctBuffers rb
    → held rb < 9
    → All (λ b. b ≢ (get_first_free_buffer rb).0) (contents rb)
unfolding get_first_free_buffer
free_buffer_fresh rb v d h =
    let e : (rb.tail == (rb.head + 1) % 10) ≡ false = ground arith in
    rw e (
      slots-All (λ b. b ≢ rb.buf rb.head) 10 rb.buf (held rb) rb.tail v.tail_in (omega arith)
        λ k lt same.
          let i = d ((rb.tail + k) % 10) rb.head (omega arith) v.head_in same in
          omega (arith, v.head_in, v.tail_in))
