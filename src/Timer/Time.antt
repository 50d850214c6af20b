-- ===== src/Timer/Time.antt =====
-- libtimer/timer_time.h: seconds and nanoseconds. A `long` is an integer without a bound: the code
-- checks for no overflow, which is undefined for `long`.
pub mod Arithmetic
pub mod Comparisons
pub mod Units
mod Examples
use comm_libs.Common.{ℕ, ◌*◌, Bool, true, false, not, ◌&&◌, if◌then◌else◌}
use comm_libs.Integer.{ℤ, pos, ◌+ℤ◌, ◌-ℤ◌, ltb_ℤ, eqb_ℤ, times, quot, rem}

pub data TimeUnit : Type 0 where
  second millisecond microsecond nanosecond : TimeUnit

pub record Time : Type 0 where
  pub second : ℤ
  pub nanosecond : ℤ

abbrev pub billion : ℕ
billion = 1_000_000_000

-- `operator=(long)`
unfoldable pub assign_ns : ℤ → Time
assign_ns n = record { second = quot n billion; nanosecond = rem n billion }

-- The carry of `operator+`.
pub carry : Time → Time
carry t = if ltb_ℤ t.nanosecond (pos billion) then t else record {
  second = t.second +ℤ quot t.nanosecond billion;
  nanosecond = rem t.nanosecond billion;
}

-- The borrow of `operator-` and `operator-=`.
pub borrow : Time → Time
borrow t =
    if ltb_ℤ t.nanosecond (pos 0)
    then record { second = t.second -ℤ pos 1; nanosecond = t.nanosecond +ℤ pos billion }
    else t

-- The carry of `operator+=`, of one second at most.
pub carry_one : Time → Time
carry_one t =
    if ltb_ℤ t.nanosecond (pos billion)
    then t
    else record { second = t.second +ℤ pos 1; nanosecond = t.nanosecond -ℤ pos billion }

-- `operator+(const Time&)`
unfoldable pub plus : Time → Time → Time
unfolding carry
plus a b =
    carry (record { second = a.second +ℤ b.second; nanosecond = a.nanosecond +ℤ b.nanosecond })

-- `operator+(long)`
unfoldable pub plus_ns : Time → ℤ → Time
unfolding carry
plus_ns a n =
    carry
      (record { second = a.second +ℤ quot n billion; nanosecond = a.nanosecond +ℤ rem n billion })

-- `operator-(const Time&)`
unfoldable pub minus : Time → Time → Time
unfolding borrow
minus a b =
    borrow (record { second = a.second -ℤ b.second; nanosecond = a.nanosecond -ℤ b.nanosecond })

-- `operator-(long)`
unfoldable pub minus_ns : Time → ℤ → Time
unfolding borrow
minus_ns a n =
    borrow
      (record { second = a.second -ℤ quot n billion; nanosecond = a.nanosecond -ℤ rem n billion })

-- `operator+=(const Time&)`
unfoldable pub add_assign : Time → Time → Time
unfolding carry_one
add_assign a b =
    carry_one (record { second = a.second +ℤ b.second; nanosecond = a.nanosecond +ℤ b.nanosecond })

-- `operator+=(long)`
unfoldable pub add_assign_ns : Time → ℤ → Time
unfolding carry_one
add_assign_ns a n =
    carry_one
      (record { second = a.second +ℤ quot n billion; nanosecond = a.nanosecond +ℤ rem n billion })

-- `operator-=(const Time&)`
unfoldable pub sub_assign : Time → Time → Time
unfolding borrow
sub_assign a b =
    borrow (record { second = a.second -ℤ b.second; nanosecond = a.nanosecond -ℤ b.nanosecond })

-- `operator-=(long)`
unfoldable pub sub_assign_ns : Time → ℤ → Time
unfolding borrow
sub_assign_ns a n =
    borrow
      (record { second = a.second -ℤ quot n billion; nanosecond = a.nanosecond -ℤ rem n billion })

-- `operator==(const Time&)`
unfoldable pub equal : Time → Time → Bool
equal a b = eqb_ℤ a.second b.second && eqb_ℤ a.nanosecond b.nanosecond

-- `operator==(long)`
unfoldable pub equal_ns : Time → ℤ → Bool
equal_ns a n = eqb_ℤ a.second (quot n billion) && eqb_ℤ a.nanosecond (rem n billion)

-- `operator<`
unfoldable pub less : Time → Time → Bool
less a b =
    if eqb_ℤ a.second b.second then ltb_ℤ a.nanosecond b.nanosecond else ltb_ℤ a.second b.second

unfoldable pub set_time : ℤ → TimeUnit → Time
set_time t second = record { second = t; nanosecond = pos 0 }
set_time t millisecond = record { second = quot t 1000; nanosecond = times 1_000_000 (rem t 1000) }
set_time t microsecond = record {
  second = quot t 1_000_000;
  nanosecond = times 1000 (rem t 1_000_000);
}
set_time t nanosecond = record { second = quot t billion; nanosecond = rem t billion }

unfoldable pub get_time : Time → TimeUnit → ℤ
get_time t second = t.second
get_time t millisecond = times 1000 t.second +ℤ quot t.nanosecond 1_000_000
get_time t microsecond = times 1_000_000 t.second +ℤ quot t.nanosecond 1000
get_time t nanosecond = times billion t.second +ℤ t.nanosecond

unfoldable pub set_second : Time → ℤ → Time
set_second t s = record t { second = s }

unfoldable pub set_nano_second : Time → ℤ → Time
unfolding carry borrow
set_nano_second t n = borrow (carry (record t { nanosecond = n }))

unfoldable pub is_zero : Time → Bool
is_zero t = eqb_ℤ t.second (pos 0) && eqb_ℤ t.nanosecond (pos 0)

unfoldable pub is_positive : Time → Bool
is_positive t = not (ltb_ℤ t.second (pos 0) && ltb_ℤ t.nanosecond (pos 0))
