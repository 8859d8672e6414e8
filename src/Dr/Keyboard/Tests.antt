-- ===== src/Dr/Keyboard/Tests.antt =====
-- Tests of the keyboard's handler: shift, a, 1, shift up, caps lock, a, 1 is typed A!A1.
use shmily.Base.{ℕ, ◌≡◌, refl, false, List, [], ◌∷◌, arith}
use shmily.Support.RingBuffer.{RingBuffer, init_ringbuffer}
use shmily.Dr.Keyboard.{Status}
use shmily.Dr.Keyboard.Events.{watch, key_of, up, down, typed, watch_all}
use shmily.Dr.Keyboard.Refine.{handle_all, put_all, handle_all-watch_all}

abbrev no_key : Status
no_key = record {
  ctrl_status = false;
  shift_status = false;
  alt_status = false;
  caps_lock_status = false;
  ext_scancode = false;
}

abbrev codes : List ℕ
codes = 0x2a ∷ 0x1e ∷ 0x02 ∷ 0xaa ∷ 0x3a ∷ 0x1e ∷ 0x02 ∷ []

abbrev queue : RingBuffer
queue = init_ringbuffer (record { buffer = λ i. 0; head = 0; tail = 0 })

what_is_typed : (watch_all no_key codes).1 ≡ 0x41 ∷ 0x21 ∷ 0x41 ∷ 0x31 ∷ []
unfolding watch_all watch key_of down up typed
what_is_typed = refl

handle_all-watch_all_example :
    ((handle_all queue no_key codes).0 ≡ put_all queue (watch_all no_key codes).1)
    × ((handle_all queue no_key codes).1 ≡ (watch_all no_key codes).0)
handle_all-watch_all_example = handle_all-watch_all codes queue no_key (
  omega arith,
  (omega arith, (omega arith, (omega arith, (omega arith, (omega arith, (omega arith, tt)))))),
)
