-- ===== src/Timer/Date/Fields.antt =====
-- What `Get` reads after `Set` in timer_date.h.
use comm_libs.Common.{ℕ, ◌≡◌, Bool, true, false, ltb, arith}
use comm_libs.Integer.{ℤ, pos, negsuc, ◌+ℤ◌, ◌-ℤ◌, long_laws}
use comm_libs.Timer.Date.{
  DateUnit, year, month, week, day_of_month, day_of_week, day_of_year, hour, minute, second, Date,
  get, set,
}

-- The values that `Set` stores. It stores any year, and nothing for the week.
abbrev pub takes : DateUnit → ℕ → Bool
takes year n = true
takes month n = ltb n 12
takes week n = false
takes day_of_month n = ltb n 32
takes day_of_week n = ltb n 7
takes day_of_year n = ltb n 366
takes hour n = ltb n 24
takes minute n = ltb n 60
takes second n = ltb n 60

-- The units that read the field that `Set` of a unit writes: for the day of the week that is the day
-- of the year.
abbrev pub reads_from : DateUnit → DateUnit → Bool
reads_from year year = true
reads_from month month = true
reads_from day_of_month day_of_month = true
reads_from day_of_week week = true
reads_from day_of_week day_of_year = true
reads_from day_of_year week = true
reads_from day_of_year day_of_year = true
reads_from hour hour = true
reads_from minute minute = true
reads_from second second = true
reads_from _ _ = false

-- What is read back as the unit that is set: the value, but for the day of the week what was there.
abbrev pub read_back : Date → DateUnit → ℕ → ℤ
read_back d day_of_week n = get d day_of_week
read_back d _ n = pos n

sub_add : (a b : ℤ) → a -ℤ b +ℤ b ≡ a
sub_add a b = omega long_laws

set_same :
    (d : Date) (u : DateUnit) (n : ℕ) → takes u n ≡ true → get (set d (pos n) u) u ≡ read_back d u n
unfolding set get
set_same d year n h = ground (arith, sub_add (pos n) (pos 1900))
set_same d month n h = ground (arith, sub_add (pos n) (pos 1))
set_same d day_of_year n h = ground (arith, sub_add (pos n) (pos 1))
set_same d _ n h = ground arith

set_others :
    (d : Date) (u w : DateUnit) (n : ℕ) → reads_from u w ≡ false → get (set d (pos n) u) w ≡ get d w
unfolding set get
set_others d year w n h = ground arith
set_others d month w n h = ground arith
set_others d week w n h = ground arith
set_others d day_of_month w n h = ground arith
set_others d day_of_week w n h = ground arith
set_others d day_of_year w n h = ground arith
set_others d hour w n h = ground arith
set_others d minute w n h = ground arith
set_others d second w n h = ground arith

set_refused :
    (d : Date) (u : DateUnit) (n : ℕ)
    → (takes u n ≡ false → set d (pos n) u ≡ d) × (set d (negsuc n) u ≡ d)
unfolding set
set_refused d month n = ground arith
set_refused d _ n = ground arith

-- A value that `Set` stores is read back as its unit, and no other unit changes but the week with the
-- day of the year; but `Set` of the day of the week leaves what is read as the day of the week and
-- changes at most the day of the year and the week. The stored values are, for the year, all that are
-- not negative, for the week none, and for every other unit those below a bound: 12 for the month, 32
-- for the day of the month, 7 and 366 for the days of the week and the year, 24, 60 and 60 for the
-- time. Every other value changes nothing.
pub get-set :
    (d : Date) (u : DateUnit) (n : ℕ)
    → (takes u n ≡ true → get (set d (pos n) u) u ≡ read_back d u n)
      × ((w : DateUnit) → reads_from u w ≡ false → get (set d (pos n) u) w ≡ get d w)
      × (takes u n ≡ false → set d (pos n) u ≡ d)
      × (set d (negsuc n) u ≡ d)
get-set d u n =
    (set_same d u n, (λ w. set_others d u w n), (set_refused d u n).0, (set_refused d u n).1)

-- The last month, the last day of the week and the last day of a leap year can be read but not set, and
-- setting the day of the week never changes what is read as the day of the week.
pub last_values_refused :
    (d : Date) (value : ℤ)
    → (set d (pos 12) month ≡ d)
      × (set d (pos 7) day_of_week ≡ d)
      × (set d (pos 366) day_of_year ≡ d)
      × (get (set d value day_of_week) day_of_week ≡ get d day_of_week)
unfolding set get
last_values_refused d value = ground arith
