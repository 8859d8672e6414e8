-- ===== src/Support/Clock/RoundTrip.antt =====
-- Packing a time and unpacking it.
use Prim.Native.Nat.{bit_or}
use shmily.Base.{ℕ, ◌+◌, ◌-◌, ◌*◌, ◌%◌, ◌^◌, ◌≤◌, ◌<◌, ◌≡◌, ap, ◌∙◌, arith}
use shmily.Base.Bits.{or_fields, or_split, or_ones}
use shmily.Support.Clock.{Time, Fits, num2time, time2num, widen}

-- `high` stands for the year and the month as they end up in the packed form.
packed :
    (high : ℕ) (t : Time)
    → Fits t
    → bit_or (t.year * 2 ^ 32) (widen (t.month % 2 ^ 4 * 2 ^ 28)) ≡ high * 2 ^ 28
    → time2num t ≡ high * 2 ^ 28 + t.day * 2 ^ 22 + t.hour * 2 ^ 16 + t.minute * 2 ^ 8 + t.second
unfolding time2num
packed high t f h =
    let wd : widen (t.day % 2 ^ 6 * 2 ^ 22) ≡ t.day * 2 ^ 22 = ground (arith, f.day) in
    let wh : widen (t.hour % 2 ^ 6 * 2 ^ 16) ≡ t.hour * 2 ^ 16 = ground (arith, f.hour) in
    let wm : widen (t.minute * 2 ^ 8) ≡ t.minute * 2 ^ 8 = ground (arith, f.minute) in
    let ws : widen t.second ≡ t.second = ground (arith, f.second) in
    let d : bit_or (high * 2 ^ 28) (t.day * 2 ^ 22) ≡ (high * 2 ^ 6 + t.day) * 2 ^ 22 =
      or_fields 28 high (t.day * 2 ^ 22) (omega (arith, f.day)) ∙ omega arith in
    let u : bit_or ((high * 2 ^ 6 + t.day) * 2 ^ 22) (t.hour * 2 ^ 16)
        ≡ ((high * 2 ^ 6 + t.day) * 2 ^ 6 + t.hour) * 2 ^ 16 =
      or_fields 22 (high * 2 ^ 6 + t.day) (t.hour * 2 ^ 16) (omega (arith, f.hour)) ∙ omega arith in
    let n : bit_or (((high * 2 ^ 6 + t.day) * 2 ^ 6 + t.hour) * 2 ^ 16) (t.minute * 2 ^ 8)
        ≡ (((high * 2 ^ 6 + t.day) * 2 ^ 6 + t.hour) * 2 ^ 8 + t.minute) * 2 ^ 8 =
      or_fields 16 ((high * 2 ^ 6 + t.day) * 2 ^ 6 + t.hour) (t.minute * 2 ^ 8)
        (omega (arith, f.minute))
      ∙ omega arith in
    rw (h, wd, wh, wm, ws, d, u, n)
      (or_fields 8 (((high * 2 ^ 6 + t.day) * 2 ^ 6 + t.hour) * 2 ^ 8 + t.minute) t.second f.second
        ∙ omega arith)

low_month :
    (t : Time)
    → Fits t
    → t.month < 8
    → bit_or (t.year * 2 ^ 32) (widen (t.month % 2 ^ 4 * 2 ^ 28))
      ≡ (t.year * 2 ^ 4 + t.month) * 2 ^ 28
low_month t f h =
    let w : widen (t.month % 2 ^ 4 * 2 ^ 28) ≡ t.month * 2 ^ 28 = ground arith in
    rw w (or_fields 32 t.year (t.month * 2 ^ 28) (omega arith) ∙ omega arith)

-- In the months 8 to 15 the shifted month is a negative `int`, whose sign fills the upper half.
high_month :
    (t : Time)
    → Fits t
    → 8 ≤ t.month
    → bit_or (t.year * 2 ^ 32) (widen (t.month % 2 ^ 4 * 2 ^ 28))
      ≡ ((2 ^ 32 - 1) * 2 ^ 4 + t.month) * 2 ^ 28
high_month t f h =
    let w : widen (t.month % 2 ^ 4 * 2 ^ 28) ≡ (2 ^ 32 - 1) * 2 ^ 32 + t.month * 2 ^ 28 =
      ground (arith, f.month) in
    rw w (
      or_split 32 t.year (2 ^ 32 - 1) (t.month * 2 ^ 28) (omega (arith, f.month))
      ∙ ap (λ x. x * 2 ^ 32 + t.month * 2 ^ 28) (or_ones 32 t.year f.year)
      ∙ omega arith)

abbrev pub SameButYear : Time → Time → Type 0
SameButYear t u =
    (u.second ≡ t.second)
    × (u.minute ≡ t.minute)
    × (u.hour ≡ t.hour)
    × (u.day ≡ t.day)
    × (u.month ≡ t.month)

unpacked :
    (year : ℕ) (t : Time)
    → Fits t
    → year < 2 ^ 32
    → let n =
        (year * 2 ^ 4 + t.month) * 2 ^ 28
        + t.day * 2 ^ 22
        + t.hour * 2 ^ 16
        + t.minute * 2 ^ 8
        + t.second in
      SameButYear t (num2time n) × ((num2time n).year ≡ year)
unfolding num2time
unpacked year t f y = (
  (
    omega (arith, f.second),
    omega (arith, f.second, f.minute),
    omega (arith, f.second, f.minute, f.hour),
    omega (arith, f.second, f.minute, f.hour, f.day),
    omega (arith, f.second, f.minute, f.hour, f.day, f.month),
  ),
  omega (arith, f.second, f.minute, f.hour, f.day, f.month),
)

-- A time in the months 1 to 7 comes back from its packed form unchanged.
pub num2time-time2num :
    (t : Time)
    → Fits t
    → t.month < 8
    → SameButYear t (num2time (time2num t)) × ((num2time (time2num t)).year ≡ t.year)
num2time-time2num t f h =
    rw (packed (t.year * 2 ^ 4 + t.month) t f (low_month t f h)) (unpacked t.year t f f.year)

-- In the months from 8 on the year is lost: whatever it was, it comes back as 2 ^ 32 - 1. The
-- other fields come back unchanged.
pub num2time_year_lost :
    (t : Time)
    → Fits t
    → 8 ≤ t.month
    → SameButYear t (num2time (time2num t)) × ((num2time (time2num t)).year ≡ 2 ^ 32 - 1)
num2time_year_lost t f h =
    rw (packed ((2 ^ 32 - 1) * 2 ^ 4 + t.month) t f (high_month t f h))
      (unpacked (2 ^ 32 - 1) t f (omega arith))
