-- ===== src/Support/Clock.antt =====
-- lib/time.cc and `struct time` of include/cmos.h: a time packed into an `unsigned long long`.
-- `x & 0x3f` is `x % 2 ^ 6`, and `x << k` is `x * 2 ^ k`.
pub mod RoundTrip
mod Tests
use Prim.Native.Nat.{bit_or}
use shmily.Base.{ℕ, ◌+◌, ◌-◌, ◌*◌, ◌/◌, ◌%◌, ◌^◌, ◌≤◌, ◌<◌, ltb, if◌then◌else◌}

pub record Time : Type 0 where
  pub second : ℕ
  pub minute : ℕ
  pub hour : ℕ
  pub day : ℕ
  pub month : ℕ
  pub year : ℕ

unfoldable pub num2time : ℕ → Time
num2time num = record {
  second = num % 2 ^ 8;
  minute = num / 2 ^ 8 % 2 ^ 6;
  hour = num / 2 ^ 16 % 2 ^ 6;
  day = num / 2 ^ 22 % 2 ^ 6;
  month = num / 2 ^ 28 % 2 ^ 4;
  year = num / 2 ^ 32 % 2 ^ 32;
}

-- An `int`, as its 32-bit pattern, widened to 64 bits with its sign.
abbrev pub widen : ℕ → ℕ
widen x = if ltb x (2 ^ 31) then x else x + 2 ^ 64 - 2 ^ 32

-- Only the year is cast before it is shifted: the other fields are shifted as `int`.
unfoldable pub time2num : Time → ℕ
time2num t =
    bit_or
      (bit_or
        (bit_or
          (bit_or (bit_or (t.year * 2 ^ 32) (widen (t.month % 2 ^ 4 * 2 ^ 28)))
            (widen (t.day % 2 ^ 6 * 2 ^ 22)))
          (widen (t.hour % 2 ^ 6 * 2 ^ 16)))
        (widen (t.minute * 2 ^ 8)))
      (widen t.second)

-- The fields hold what their C types can, and no more bits than the packed form keeps of them.
pub record Fits (t : Time) : Type 0 where
  pub second : t.second < 2 ^ 8
  pub minute : t.minute < 2 ^ 6
  pub hour : t.hour < 2 ^ 6
  pub day : t.day < 2 ^ 6
  pub month : t.month < 2 ^ 4
  pub year : t.year < 2 ^ 32
