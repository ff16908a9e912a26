-- ===== src/Examples/Texts.antt =====
-- Dates and escapes at concrete inputs.
use boa.Common.{◌≡◌, arith, ltb}
use boa.HttpDate.{Tm, newer}
use boa.HttpDate.Order.{IsTime, time_key, newer-time_key}

-- Sun, 06 Nov 1994 08:49:37 GMT, and a second later.
abbrev sunday : Tm
sunday = record {
  tm_sec = 37;
  tm_min = 49;
  tm_hour = 8;
  tm_mday = 6;
  tm_mon = 10;
  tm_year = 94;
  tm_wday = 0;
}

abbrev later : Tm
later = record sunday { tm_sec = 38 }

sunday-IsTime : IsTime sunday
sunday-IsTime = record {
  sec = ground arith;
  min = ground arith;
  hour = ground arith;
  mday = ground arith;
  mon = ground arith;
}

later-IsTime : IsTime later
later-IsTime = record {
  sec = ground arith;
  min = ground arith;
  hour = ground arith;
  mday = ground arith;
  mon = ground arith;
}

newer-time_key_example : newer later sunday ≡ ltb (time_key sunday) (time_key later)
newer-time_key_example = newer-time_key later sunday later-IsTime sunday-IsTime
