-- ===== src/Dr/Keyboard/Refine.antt =====
-- The handler does what the scan codes mean. A single step is compared with its meaning in every
-- status and for every byte.
use Prim.Native.Nat.{bit_and, bit_or}
use shmily.Base.{
  ℕ, ◌<◌, ◌≡◌, refl, ap, sym, ◌∙◌, Bool, true, false, not, ◌&&◌, ◌||◌, ◌==◌, ltb, if◌then◌else◌,
  List, [], ◌∷◌, ◌++◌, All, ==_iff, arith,
}
use shmily.Base.Bytes.{all_below, all_below_sound, bool_eq, bool_eq_sound}
use shmily.Support.RingBuffer.{RingBuffer, ringbuffer_put}
use shmily.Dr.Keyboard.{
  Status, keymap_at, release_key, caps_ignored, column, press_key, make, keyboard_handler,
  alt_r_make, ctrl_r_make,
}
use shmily.Dr.Keyboard.Events.{key_of, up, down, typed, watch, watch_all}

-- Two statuses, field by field.
abbrev same : Status → Status → Bool
same s t =
    bool_eq s.ctrl_status t.ctrl_status
    && (bool_eq s.shift_status t.shift_status
        && (bool_eq s.alt_status t.alt_status
            && (bool_eq s.caps_lock_status t.caps_lock_status
                && bool_eq s.ext_scancode t.ext_scancode)))

agree : (a b rest : Bool) → (bool_eq a b && rest) ≡ true → (a ≡ b) × (rest ≡ true)
agree a b rest h = ground arith

same_sound : (s t : Status) → same s t ≡ true → s ≡ t
same_sound s t h =
    let (ctrl, h1) = agree s.ctrl_status t.ctrl_status _ h in
    let (shift, h2) = agree s.shift_status t.shift_status _ h1 in
    let (alt, h3) = agree s.alt_status t.alt_status _ h2 in
    let (caps, h4) = agree s.caps_lock_status t.caps_lock_status _ h3 in
    let ext = bool_eq_sound s.ext_scancode t.ext_scancode h4 in
    λ i. record {
      ctrl_status = ctrl i;
      shift_status = shift i;
      alt_status = alt i;
      caps_lock_status = caps i;
      ext_scancode = ext i;
    }

both : (a b : Bool) → (a && b) ≡ true → (a ≡ true) × (b ≡ true)
both a b h = ground arith

-- A test that holds in every status.
abbrev either_way : (Bool → Bool) → Bool
either_way test = test true && test false

either_way_sound : (test : Bool → Bool) (b : Bool) → either_way test ≡ true → test b ≡ true
either_way_sound test true h = (both (test true) (test false) h).0
either_way_sound test false h = (both (test true) (test false) h).1

abbrev status : Bool → Bool → Bool → Bool → Bool → Status
status ctrl shift alt caps ext = record {
  ctrl_status = ctrl;
  shift_status = shift;
  alt_status = alt;
  caps_lock_status = caps;
  ext_scancode = ext;
}

abbrev always : (Status → Bool) → Bool
always test = either_way (λ a.
    either_way (λ b. either_way (λ c. either_way (λ d. either_way (λ e. test (status a b c d e))))))

always_sound : (test : Status → Bool) (s : Status) → always test ≡ true → test s ≡ true
always_sound test s h =
    let a = s.ctrl_status in
    let b = s.shift_status in
    let c = s.alt_status in
    let d = s.caps_lock_status in
    either_way_sound (λ e. test (status a b c d e)) s.ext_scancode
      (either_way_sound (λ d. either_way (λ e. test (status a b c d e))) d
        (either_way_sound (λ c. either_way (λ d. either_way (λ e. test (status a b c d e)))) c
          (either_way_sound
            (λ b. either_way (λ c. either_way (λ d. either_way (λ e. test (status a b c d e))))) b
            (either_way_sound
              (λ a. either_way (λ b.
                either_way (λ c. either_way (λ d. either_way (λ e. test (status a b c d e))))))
              a h))))

-- The status after one scan code.
status_table :
    (rb : RingBuffer)
    → always (λ s. all_below 256 (λ code. same (keyboard_handler rb s code).1 (watch s code).0))
      ≡ true
unfolding keyboard_handler make release_key caps_ignored column press_key watch key_of up down typed
    all_below
status_table rb = refl

-- What the handler puts into the queue at a scan code, by its own tests.
abbrev put_chars : Status → ℕ → List ℕ
put_chars s code =
    if 0xe0 == code
    then []
    else (let scancode = if s.ext_scancode then bit_or code 0xe000 else code in
        let cur_char = keymap_at (bit_and scancode 0x00ff) (column s scancode) in
        if not (bit_and scancode 0x0080 == 0)
        then []
        else if (ltb 0 scancode && ltb scancode 0x3b)
            || (scancode == alt_r_make)
            || (scancode == ctrl_r_make)
        then (if cur_char == 0 then [] else cur_char ∷ [])
        else [])

-- Characters in the order in which they are put.
unfoldable pub put_all : RingBuffer → List ℕ → RingBuffer
put_all rb [] = rb
put_all rb (ch ∷ chars) = put_all (ringbuffer_put rb ch) chars

handler_puts :
    (rb : RingBuffer) (s : Status) (code : ℕ)
    → (keyboard_handler rb s code).0 ≡ put_all rb (put_chars s code)
unfolding keyboard_handler make put_all
handler_puts rb s code = ground arith

abbrev same_chars : List ℕ → List ℕ → Bool
same_chars [] [] = true
same_chars (x ∷ xs) (y ∷ ys) = (x == y) && same_chars xs ys
same_chars _ _ = false

same_chars_sound : (xs ys : List ℕ) → same_chars xs ys ≡ true → xs ≡ ys
same_chars_sound [] [] h = refl
same_chars_sound (x ∷ xs) (y ∷ ys) h =
    let (head, tail) = both (x == y) (same_chars xs ys) h in
    rw ((==_iff x y).0 head, same_chars_sound xs ys tail) refl
same_chars_sound [] (y ∷ ys) h = absurd (cc h)
same_chars_sound (x ∷ xs) [] h = absurd (cc h)

chars_table :
    always (λ s. all_below 256 (λ code. same_chars (put_chars s code) (watch s code).1)) ≡ true
unfolding caps_ignored column watch key_of up down typed all_below
chars_table = refl

put_all-++ : (rb : RingBuffer) (xs ys : List ℕ) → put_all rb (xs ++ ys) ≡ put_all (put_all rb xs) ys
unfolding put_all
put_all-++ rb [] ys = refl
put_all-++ rb (x ∷ xs) ys = put_all-++ (ringbuffer_put rb x) xs ys

keyboard_handler-watch :
    (rb : RingBuffer) (s : Status) (code : ℕ)
    → code < 256
    → ((keyboard_handler rb s code).0 ≡ put_all rb (watch s code).1)
      × ((keyboard_handler rb s code).1 ≡ (watch s code).0)
keyboard_handler-watch rb s code byte = (
  handler_puts rb s code
      ∙ ap (put_all rb) (
          same_chars_sound (put_chars s code) (watch s code).1 (
            all_below_sound 256 (λ c. same_chars (put_chars s c) (watch s c).1) code
              (always_sound (λ s. all_below 256 (λ c. same_chars (put_chars s c) (watch s c).1)) s
                chars_table)
              byte)),
  same_sound (keyboard_handler rb s code).1 (watch s code).0 (
      all_below_sound 256 (λ c. same (keyboard_handler rb s c).1 (watch s c).0) code
        (always_sound (λ s. all_below 256 (λ c. same (keyboard_handler rb s c).1 (watch s c).0)) s
          (status_table rb))
        byte),
)

-- The interrupts of a sequence of scan codes.
unfoldable pub handle_all : RingBuffer → Status → List ℕ → RingBuffer × Status
handle_all rb s [] = (rb, s)
handle_all rb s (code ∷ codes) =
    let (rb', s') = keyboard_handler rb s code in handle_all rb' s' codes

-- Over any sequence of scan codes, which are bytes, the handler puts exactly the characters into the
-- queue that the codes type, in order, and leaves the keys as the codes say: a letter is in upper
-- case if just one of shift and caps lock is on, any other key depends on shift alone, ctrl, shift
-- and alt are on from a code for a press of either key to one for a release of either, caps lock
-- changes at each press, and of the keys with the prefix 0xe0 only ctrl and alt count. A full queue
-- drops a character.
pub handle_all-watch_all :
    (codes : List ℕ) (rb : RingBuffer) (s : Status)
    → All (λ code. code < 256) codes
    → ((handle_all rb s codes).0 ≡ put_all rb (watch_all s codes).1)
      × ((handle_all rb s codes).1 ≡ (watch_all s codes).0)
unfolding handle_all watch_all put_all
handle_all-watch_all [] rb s bytes = (refl, refl)
handle_all-watch_all (code ∷ codes) rb s (byte, bytes) =
    let (puts, keys) = keyboard_handler-watch rb s code byte in
    let (later_puts, later_keys) =
      handle_all-watch_all codes (keyboard_handler rb s code).0 (keyboard_handler rb s code).1
        bytes in
    (
      later_puts
          ∙ rw (keys, puts)
              (sym (put_all-++ rb (watch s code).1 (watch_all (watch s code).0 codes).1)),
      later_keys ∙ ap (λ s'. (watch_all s' codes).0) keys,
    )
