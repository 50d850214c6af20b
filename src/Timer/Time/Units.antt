-- ===== src/Timer/Time/Units.antt =====
-- `SetTime`, `GetTime` and `SetNanoSecond` of timer_time.h.
use comm_libs.Common.{ℕ, ◌+◌, ◌*◌, ◌<◌, ◌≤◌, ◌≡◌, refl, ◌∙◌}
use comm_libs.Integer.{ℤ, pos_part, neg_part, ◌+ℤ◌, times, long_laws}
use comm_libs.Timer.Time.{
  TimeUnit, second, millisecond, microsecond, nanosecond, Time, billion, set_time, get_time,
  set_nano_second, carry,
}
use comm_libs.Timer.Time.Arithmetic.{
  carry_bounds, borrow-IsNormal, total, IsNormal, total-carry, total-borrow,
}

-- How many nanoseconds a unit has.
abbrev pub unit_ns : TimeUnit → ℕ
unit_ns second = billion
unit_ns millisecond = 1_000_000
unit_ns microsecond = 1000
unit_ns nanosecond = 1

-- What `SetTime` stores stands for as many of the unit as it was given, of either sign, and `GetTime`
-- in the same unit gives that number back.
pub get_time-set_time :
    (t : ℤ) (u : TimeUnit)
    → (get_time (set_time t u) u ≡ t) × (total (set_time t u) ≡ times (unit_ns u) t)
unfolding get_time set_time
get_time-set_time t second = (refl, omega long_laws)
get_time-set_time t millisecond = (omega long_laws, omega long_laws)
get_time-set_time t microsecond = (omega long_laws, omega long_laws)
get_time-set_time t nanosecond = (omega long_laws, omega long_laws)

-- On a time whose nanoseconds are in range and whose seconds are not negative, `GetTime` gives the
-- number of whole units, rounded down.
pub get_time_lem :
    (t : Time) (u : TimeUnit)
    → IsNormal t
    → neg_part t.second ≡ 0
    → (neg_part (get_time t u) ≡ 0)
      × (unit_ns u * pos_part (get_time t u) ≤ pos_part (total t))
      × (pos_part (total t) < unit_ns u * pos_part (get_time t u) + unit_ns u)
unfolding get_time
get_time_lem t second n z = omega long_laws
get_time_lem t millisecond n z = omega long_laws
get_time_lem t microsecond n z = omega long_laws
get_time_lem t nanosecond n z = omega long_laws

-- `SetNanoSecond` of a number above minus one second carries into the seconds, and leaves a time in
-- range that stands for the seconds there were and that number.
pub set_nano_second_lem :
    (t : Time) (n : ℤ)
    → neg_part n < billion
    → IsNormal (set_nano_second t n) × (total (set_nano_second t n) ≡ times billion t.second +ℤ n)
unfolding set_nano_second
set_nano_second_lem t n h =
    let (l, k) = carry_bounds (record t { nanosecond = n }) h in
    (borrow-IsNormal (carry (record t { nanosecond = n })) l k, total-borrow _ ∙ total-carry _)
