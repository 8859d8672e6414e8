-- ===== src/Mm/DoublebitMap.antt =====
-- mm/doublebit_map.cc: the map of the pages, with two bits for each. `base` is the memory from the
-- pointer on. The loops over the slots have their bound from the code, except that of `free_slots`,
-- which takes rounds.
pub mod Slots
pub mod Alloc
pub mod Search
pub mod Free
mod Tests
use Prim.Native.Nat.{bit_and, bit_or}
use shmily.Base.{
  ℕ, zero, suc, ◌+◌, ◌-◌, ◌*◌, ◌/◌, ◌%◌, ◌^◌, ◌<◌, Bool, true, false, not, ◌&&◌, Option, none, some,
  ◌==◌, ltb, if◌then◌else◌, add32, sub32, mul32, minus_one, update,
}

pub record DoublebitMap : Type 0 where
  pub bytes_len : ℕ
  pub base : ℕ → ℕ

abbrev pub slot_free : ℕ
slot_free = 0

abbrev pub slot_used_single : ℕ
slot_used_single = 1

abbrev pub slot_seq_start : ℕ
slot_seq_start = 2

abbrev pub slot_seq_end : ℕ
slot_seq_end = 3

-- The arguments of `memset` are in the wrong order: no byte is written.
unfoldable pub initialize : ℕ → (ℕ → ℕ) → DoublebitMap → DoublebitMap
initialize bytes_len_ base_ m = record { bytes_len = bytes_len_; base = base_ }

-- `(byte & (3 << bit)) >> bit`
unfoldable pub field : ℕ → ℕ → ℕ
field byte bit = bit_and byte (3 * 2 ^ bit) / 2 ^ bit

-- `byte &= ~(3 << bit); byte |= val << bit;`
unfoldable pub with_field : ℕ → ℕ → ℕ → ℕ
with_field byte bit val = bit_or (bit_and byte (255 - 3 * 2 ^ bit)) (val * 2 ^ bit) % 256

unfoldable pub get_slot_status : ℕ → DoublebitMap → ℕ
get_slot_status idx m = let idx = mul32 idx 2 in field (m.base (idx / 8)) (idx % 8)

unfoldable pub set_slot_value : ℕ → ℕ → DoublebitMap → DoublebitMap
set_slot_value idx val m =
    let idx = mul32 idx 2 in
    record m { base = update m.base (idx / 8) (with_field (m.base (idx / 8)) (idx % 8) val) }

-- The loop of `sync`, from `i` on.
unfoldable pub sync_middle : ℕ → ℕ → ℕ → DoublebitMap → DoublebitMap
sync_middle zero start i m = m
sync_middle (suc n) start i m =
    sync_middle n start (i + 1) (set_slot_value (add32 start i) slot_used_single m)

unfoldable pub sync : ℕ → ℕ → DoublebitMap → DoublebitMap
sync start cnt m =
    let middle = sync_middle (sub32 cnt 1 - 1) start 1 (set_slot_value start slot_seq_start m) in
    if cnt == 1
    then set_slot_value start slot_used_single m
    else set_slot_value (sub32 (add32 start cnt) 1) slot_seq_end middle

-- The loop of `get_free_slots`, from slot `idx` on. The result is the pattern of an `int`.
unfoldable pub search : ℕ → ℕ → ℕ → ℕ → DoublebitMap → ℕ × DoublebitMap
search zero cnt idx found_cnt m = (minus_one, m)
search (suc n) cnt idx found_cnt m =
    let free = get_slot_status idx m == slot_free in
    let longer = search n cnt (idx + 1) (add32 found_cnt 1) m in
    let again = search n cnt (idx + 1) 0 m in
    let start = add32 (sub32 idx cnt) 1 in
    if free && (cnt == 1)
    then (idx, sync idx cnt m)
    else if free
    then if add32 found_cnt 1 == cnt then (start, sync start cnt m) else longer
    else again

unfoldable pub get_free_slots : ℕ → DoublebitMap → ℕ × DoublebitMap
get_free_slots cnt m = search (mul32 m.bytes_len 8) cnt 0 0 m

-- The loop of `free_slots` and what comes behind it.
unfoldable pub clear_slots : ℕ → ℕ → ℕ → DoublebitMap → Option (ℕ × DoublebitMap)
clear_slots zero idx cnt m = none
clear_slots (suc k) idx cnt m =
    let rest = clear_slots k (add32 idx 1) (add32 cnt 1) (set_slot_value idx slot_free m) in
    if slot_seq_end == get_slot_status idx m
    then some (add32 cnt 1, set_slot_value idx slot_free m)
    else rest

unfoldable pub free_slots : ℕ → ℕ → DoublebitMap → Option (ℕ × DoublebitMap)
free_slots fuel idx m =
    let run = clear_slots fuel idx 0 m in
    if slot_used_single == get_slot_status idx m
    then some (1, set_slot_value idx slot_free m)
    else if not (slot_seq_start == get_slot_status idx m)
    then some (0, m)
    else run
