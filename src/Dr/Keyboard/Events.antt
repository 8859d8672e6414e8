-- ===== src/Dr/Keyboard/Events.antt =====
-- What a keyboard's scan codes mean: keys that go down and up, and the characters that are typed.
use shmily.Base.{
  ℕ, ◌-◌, Bool, true, false, not, ◌&&◌, ◌||◌, ◌==◌, ltb, if◌then◌else◌, List, [], ◌∷◌, ◌++◌, get_or,
}
use shmily.Dr.Keyboard.{Status, keymap}

-- A key with a character has one alone and one with shift.
pub data Key : Type 0 where
  ctrl shift alt caps_lock unknown : Key
  char : ℕ → ℕ → Key

-- The key with a make code, with or without the prefix 0xe0: of the keys with the prefix, the right
-- ctrl and the right alt are known.
unfoldable pub key_of : Bool → ℕ → Key
key_of true c = if c == 0x1d then ctrl else if c == 0x38 then alt else unknown
key_of false c =
    if c == 0x1d
    then ctrl
    else if (c == 0x2a) || (c == 0x36)
    then shift
    else if c == 0x38
    then alt
    else if c == 0x3a
    then caps_lock
    else if (c == 0) || ltb 0x3a c
    then unknown
    else (let (plain, shifted) = get_or keymap c (0, 0) in char plain shifted)

unfoldable pub up : Key → Status → Status
up ctrl s = record s { ctrl_status = false }
up shift s = record s { shift_status = false }
up alt s = record s { alt_status = false }
up _ s = s

unfoldable pub down : Key → Status → Status
down ctrl s = record s { ctrl_status = true }
down shift s = record s { shift_status = true }
down alt s = record s { alt_status = true }
down caps_lock s = record s { caps_lock_status = not s.caps_lock_status }
down _ s = s

-- A letter is in upper case if just one of shift and caps lock is on; any other key depends on
-- shift alone.
unfoldable pub typed : Key → Status → List ℕ
typed (char plain shifted) s =
    let is_letter = ltb 0x60 plain && ltb plain 0x7b in
    let flipped = if s.caps_lock_status then not s.shift_status else s.shift_status in
    (if (if is_letter then flipped else s.shift_status) then shifted else plain) ∷ []
typed _ s = []

-- The status after a scan code, and what it types. A key's code when it goes up is 128 higher.
unfoldable pub watch : Status → ℕ → Status × List ℕ
unfolding key_of up down typed
watch s code =
    if code == 0xe0
    then (record s { ext_scancode = true }, [])
    else (let now : Status = record s { ext_scancode = false } in
        if ltb code 128
        then (down (key_of s.ext_scancode code) now, typed (key_of s.ext_scancode code) now)
        else (up (key_of s.ext_scancode (code - 128)) now, []))

unfoldable pub watch_all : Status → List ℕ → Status × List ℕ
unfolding watch
watch_all s [] = (s, [])
watch_all s (code ∷ codes) =
    let (s', chars) = watch s code in let (s'', rest) = watch_all s' codes in (s'', chars ++ rest)
