-- ===== src/Timer/Date.antt =====
-- libtimer/timer_date.h: the fields of a `struct tm`, read and written by unit. The conversions from
-- and to seconds are the C library's.
pub mod Fields
mod Examples
use comm_libs.Common.{Bool, if◌then◌else◌, not}
use comm_libs.Integer.{ℤ, pos, negsuc, ◌+ℤ◌, ◌-ℤ◌, ltb_ℤ, quot}

pub data DateUnit : Type 0 where
  year month week day_of_month day_of_week day_of_year hour minute second : DateUnit

pub record Date : Type 0 where
  pub tm_sec : ℤ
  pub tm_min : ℤ
  pub tm_hour : ℤ
  pub tm_mday : ℤ
  pub tm_mon : ℤ
  pub tm_year : ℤ
  pub tm_wday : ℤ
  pub tm_yday : ℤ

unfoldable pub get : Date → DateUnit → ℤ
get d year = d.tm_year +ℤ pos 1900
get d month = d.tm_mon +ℤ pos 1
get d week = quot d.tm_yday 7 +ℤ pos 1
get d day_of_week = d.tm_wday +ℤ pos 1
get d day_of_month = d.tm_mday
get d day_of_year = d.tm_yday +ℤ pos 1
get d hour = d.tm_hour
get d minute = d.tm_min
get d second = d.tm_sec

-- `value >= bound`
abbrev at_least : ℤ → ℤ → Bool
at_least value bound = not (ltb_ℤ value bound)

-- The `switch` of `Set`, for a value that is not negative.
unfoldable pub set_unsigned : Date → ℤ → DateUnit → Date
set_unsigned d value year = record d { tm_year = value -ℤ pos 1900 }
set_unsigned d value month =
    if at_least value (pos 12) then d else record d { tm_mon = value -ℤ pos 1 }
set_unsigned d value week = d
set_unsigned d value day_of_week =
    if at_least value (pos 7) then d else record d { tm_yday = quot d.tm_yday 7 +ℤ value -ℤ pos 1 }
set_unsigned d value day_of_month = if ltb_ℤ (pos 31) value then d else record d { tm_mday = value }
set_unsigned d value day_of_year =
    if at_least value (pos 366) then d else record d { tm_yday = value -ℤ pos 1 }
set_unsigned d value hour = if at_least value (pos 24) then d else record d { tm_hour = value }
set_unsigned d value minute = if at_least value (pos 60) then d else record d { tm_min = value }
set_unsigned d value second = if at_least value (pos 60) then d else record d { tm_sec = value }

unfoldable pub set : Date → ℤ → DateUnit → Date
unfolding set_unsigned
set d value unit = if ltb_ℤ value (pos 0) then d else set_unsigned d value unit
