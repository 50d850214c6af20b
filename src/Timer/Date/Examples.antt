-- ===== src/Timer/Date/Examples.antt =====
-- The theorems at the first of November 2026, a Sunday.
use comm_libs.Common.{◌≡◌, refl, true, false}
use comm_libs.Integer.{pos, negsuc, ◌+ℤ◌, quot}
use comm_libs.Timer.Date.{DateUnit, month, week, Date, get, set}
use comm_libs.Timer.Date.Fields.{takes, read_back, reads_from, get-set}

abbrev november : Date
november = record {
  tm_sec = pos 0;
  tm_min = pos 30;
  tm_hour = pos 12;
  tm_mday = pos 1;
  tm_mon = pos 10;
  tm_year = pos 126;
  tm_wday = pos 0;
  tm_yday = pos 304;
}

november_fields :
    (get november DateUnit.year ≡ pos 2026)
    × (get november month ≡ pos 11)
    × (get november week ≡ pos 44)
unfolding get ◌+ℤ◌ quot
november_fields = (refl, refl, refl)

get-set_example :
    (takes DateUnit.hour 20 ≡ true
      → get (set november (pos 20) DateUnit.hour) DateUnit.hour
        ≡ read_back november DateUnit.hour 20)
    × ((w : DateUnit)
        → reads_from DateUnit.hour w ≡ false
        → get (set november (pos 20) DateUnit.hour) w ≡ get november w)
    × (takes DateUnit.hour 20 ≡ false → set november (pos 20) DateUnit.hour ≡ november)
    × (set november (negsuc 20) DateUnit.hour ≡ november)
get-set_example = get-set november DateUnit.hour 20
