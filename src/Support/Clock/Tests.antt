-- ===== src/Support/Clock/Tests.antt =====
-- Tests of lib/time.cc.
use shmily.Base.{◌≡◌, refl}
use shmily.Support.Clock.{Time, num2time, time2num}

abbrev may : Time
may = record { second = 59; minute = 30; hour = 12; day = 21; month = 5; year = 2016 }

abbrev october : Time
october = record may { month = 10 }

in_may : num2time (time2num may) ≡ may
unfolding num2time time2num
in_may = refl

-- From August on the year is lost.
in_october : num2time (time2num october) ≡ record october { year = 0xffffffff }
unfolding num2time time2num
in_october = refl
