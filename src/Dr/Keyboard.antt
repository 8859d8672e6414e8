-- ===== src/Dr/Keyboard.antt =====
-- dr/keyboard.cc: the handler of the keyboard's interrupt. The scan code that `inb` reads is an
-- argument, a byte; the message for an unknown key is left out.
pub mod Events
pub mod Refine
mod Tests
use Prim.Native.Nat.{bit_and, bit_or}
use shmily.Base.{
  ℕ, Bool, true, false, not, ◌&&◌, ◌||◌, ◌==◌, ltb, if◌then◌else◌, List, [], ◌∷◌, get_or,
}
use shmily.Support.RingBuffer.{RingBuffer, ringbuffer_put}

abbrev shift_l_make : ℕ
shift_l_make = 0x2a

abbrev shift_r_make : ℕ
shift_r_make = 0x36

abbrev alt_l_make : ℕ
alt_l_make = 0x38

abbrev pub alt_r_make : ℕ
alt_r_make = 0xe038

abbrev ctrl_l_make : ℕ
ctrl_l_make = 0x1d

abbrev pub ctrl_r_make : ℕ
ctrl_r_make = 0xe01d

abbrev caps_lock_make : ℕ
caps_lock_make = 0x3a

-- The two characters of each key from 0x00 on: alone and with shift.
abbrev pub keymap : List (ℕ × ℕ)
keymap =
    (0, 0)
    ∷ (27, 27)
    ∷ (49, 33)
    ∷ (50, 64)
    ∷ (51, 35)
    ∷ (52, 36)
    ∷ (53, 37)
    ∷ (54, 94)
    ∷ (55, 38)
    ∷ (56, 42)
    ∷ (57, 40)
    ∷ (48, 41)
    ∷ (45, 95)
    ∷ (61, 43)
    ∷ (8, 8)
    ∷ (9, 9)
    ∷ (113, 81)
    ∷ (119, 87)
    ∷ (101, 69)
    ∷ (114, 82)
    ∷ (116, 84)
    ∷ (121, 89)
    ∷ (117, 85)
    ∷ (105, 73)
    ∷ (111, 79)
    ∷ (112, 80)
    ∷ (91, 123)
    ∷ (93, 125)
    ∷ (13, 13)
    ∷ (0, 0)
    ∷ (97, 65)
    ∷ (115, 83)
    ∷ (100, 68)
    ∷ (102, 70)
    ∷ (103, 71)
    ∷ (104, 72)
    ∷ (106, 74)
    ∷ (107, 75)
    ∷ (108, 76)
    ∷ (59, 58)
    ∷ (39, 34)
    ∷ (96, 126)
    ∷ (0, 0)
    ∷ (92, 124)
    ∷ (122, 90)
    ∷ (120, 88)
    ∷ (99, 67)
    ∷ (118, 86)
    ∷ (98, 66)
    ∷ (110, 78)
    ∷ (109, 77)
    ∷ (44, 60)
    ∷ (46, 62)
    ∷ (47, 63)
    ∷ (0, 0)
    ∷ (42, 42)
    ∷ (0, 0)
    ∷ (32, 32)
    ∷ (0, 0)
    ∷ []

abbrev pub keymap_at : ℕ → Bool → ℕ
keymap_at index shift =
    let (plain, shifted) = get_or keymap index (0, 0) in if shift then shifted else plain

-- The static variables of the file.
pub record Status : Type 0 where
  pub ctrl_status : Bool
  pub shift_status : Bool
  pub alt_status : Bool
  pub caps_lock_status : Bool
  pub ext_scancode : Bool

-- The case of a break code.
unfoldable pub release_key : Status → ℕ → Status
release_key s make_code =
    if (make_code == ctrl_l_make) || (make_code == ctrl_r_make)
    then record s { ctrl_status = false }
    else if (make_code == alt_l_make) || (make_code == alt_r_make)
    then record s { alt_status = false }
    else if (make_code == shift_l_make) || (make_code == shift_r_make)
    then record s { shift_status = false }
    else s

-- The keys that caps lock does not change.
unfoldable pub caps_ignored : ℕ → Bool
caps_ignored c =
    ltb c 0x0e
    || (c == 0x29)
    || (c == 0x1a)
    || (c == 0x1b)
    || (c == 0x2b)
    || (c == 0x27)
    || (c == 0x28)
    || (c == 0x33)
    || (c == 0x34)
    || (c == 0x35)

-- The column of the key map.
unfoldable pub column : Status → ℕ → Bool
unfolding caps_ignored
column s scancode =
    if caps_ignored scancode
    then s.shift_status
    else if s.shift_status && s.caps_lock_status
    then false
    else s.shift_status || s.caps_lock_status

-- A key without a character.
unfoldable pub press_key : Status → ℕ → Status
press_key s scancode =
    if (scancode == ctrl_r_make) || (scancode == ctrl_l_make)
    then record s { ctrl_status = true }
    else if (scancode == shift_r_make) || (scancode == shift_l_make)
    then record s { shift_status = true }
    else if (scancode == alt_r_make) || (scancode == alt_l_make)
    then record s { alt_status = true }
    else if scancode == caps_lock_make
    then record s { caps_lock_status = not s.caps_lock_status }
    else s

-- The case of a make code that the table knows.
unfoldable pub make : RingBuffer → Status → ℕ → RingBuffer × Status
unfolding column press_key
make keyboard_buf s scancode =
    let index = bit_and scancode 0x00ff in
    let cur_char = keymap_at index (column s scancode) in
    if cur_char == 0
    then (keyboard_buf, press_key s index)
    else (ringbuffer_put keyboard_buf cur_char, s)

unfoldable pub keyboard_handler : RingBuffer → Status → ℕ → RingBuffer × Status
unfolding make release_key
keyboard_handler keyboard_buf s code =
    if 0xe0 == code
    then (keyboard_buf, record s { ext_scancode = true })
    else (let scancode = if s.ext_scancode then bit_or code 0xe000 else code in
        let now : Status = record s { ext_scancode = false } in
        if not (bit_and scancode 0x0080 == 0)
        then (keyboard_buf, release_key now (bit_and scancode 0xff7f))
        else if (ltb 0 scancode && ltb scancode 0x3b)
            || (scancode == alt_r_make)
            || (scancode == ctrl_r_make)
        then make keyboard_buf now scancode
        else (keyboard_buf, now))
