-- ===== src/Support/Bitmap.antt =====
-- lib/bitmap.h and lib/bitmap.cc. `base` is the memory from the pointer on, so that a read past
-- `bytes_len` finds what stands there.
pub mod Bits
pub mod Scan
pub mod Runs
mod Tests
use Prim.Native.Nat.{bit_and}
use shmily.Base.{
  ℕ, zero, suc, ◌+◌, ◌-◌, ◌*◌, ◌/◌, ◌%◌, ◌^◌, ◌≤◌, ◌<◌, Bool, true, false, not, ◌&&◌, ◌==◌, ltb,
  if◌then◌else◌, add32, sub32, mul32, minus_one, update,
}
use shmily.Base.Bytes.{test_bit, raise_bit, lower_bit}

pub record Bitmap : Type 0 where
  pub bytes_len : ℕ
  pub base : ℕ → ℕ

-- `memset(base, 0, bytes_len)`
unfoldable pub init_bitmap : Bitmap → Bitmap
init_bitmap m = record m { base = λ i. if ltb i m.bytes_len then 0 else m.base i }

unfoldable pub bitmap_verify_bit : Bitmap → ℕ → Bool
bitmap_verify_bit m idx = test_bit (m.base (idx / 8)) (idx % 8)

unfoldable pub bitmap_set_bit : Bitmap → ℕ → ℕ → Bitmap
bitmap_set_bit m idx val =
    let byte = m.base (idx / 8) in
    record m {
      base =
          update m.base (idx / 8)
            (if not (val == 0) then raise_bit byte (idx % 8) else lower_bit byte (idx % 8));
    }

-- `while ((0xff == base[byte_idx]) && (byte_idx < bytes_len)) byte_idx++;`
unfoldable pub first_byte : ℕ → Bitmap → ℕ → ℕ
first_byte zero m i = i
first_byte (suc k) m i =
    let rest = first_byte k m (i + 1) in if (m.base i == 255) && ltb i m.bytes_len then rest else i

-- `while ((unsigned char)(1 << bit_idx) & base[byte_idx]) bit_idx++;`
unfoldable pub first_bit : ℕ → ℕ → ℕ → ℕ
first_bit zero byte i = i
first_bit (suc k) byte i =
    let rest = first_bit k byte (i + 1) in if not (bit_and (2 ^ i % 256) byte == 0) then rest else i

-- The search for more bits: `left` is `left_bits`, and the result is the pattern of an `int`.
unfoldable pub find_run : ℕ → Bitmap → ℕ → ℕ → ℕ → ℕ
find_run zero m cnt next_bit count = minus_one
find_run (suc left) m cnt next_bit count =
    let count' = if not (bitmap_verify_bit m next_bit) then add32 count 1 else 0 in
    let rest = find_run left m cnt (add32 next_bit 1) count' in
    if cnt == count' then add32 (sub32 next_bit cnt) 1 else rest

-- The result is the pattern of an `int`. The loops have all the rounds that they can use.
unfoldable pub bitmap_scan : Bitmap → ℕ → ℕ
unfolding first_byte first_bit find_run
bitmap_scan m cnt =
    let byte_idx = first_byte (m.bytes_len + 1) m 0 in
    let bit_idx = first_bit 9 (m.base byte_idx) 0 in
    let ret = add32 (mul32 byte_idx 8) bit_idx in
    let more = find_run (sub32 (mul32 m.bytes_len 8) ret) m cnt (add32 ret 1) 1 in
    if byte_idx == m.bytes_len then minus_one else if cnt == 1 then ret else more

-- Every byte of the memory is a byte, and bit indices fit an `int`.
pub record IsValid (m : Bitmap) : Type 0 where
  pub bytes : (i : ℕ) → m.base i < 256
  pub small : m.bytes_len < 2 ^ 28
