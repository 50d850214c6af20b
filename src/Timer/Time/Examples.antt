-- ===== src/Timer/Time/Examples.antt =====
-- Half a second past 5 seconds, and the theorems at it.
use comm_libs.Common.{◌≡◌, refl, arith}
use comm_libs.Integer.{pos, negsuc, ◌+ℤ◌, ◌-ℤ◌, quot, rem}
use comm_libs.Timer.Time.{
  Time, assign_ns, plus, plus_ns, minus, minus_ns, add_assign, add_assign_ns, sub_assign,
  sub_assign_ns,
}
use comm_libs.Timer.Time.Arithmetic.{total, IsNormal, total-operators, operators-IsNormal}

abbrev early : Time
early = record { second = pos 5; nanosecond = pos 500_000_000 }

abbrev late : Time
late = record { second = pos 7; nanosecond = pos 700_000_000 }

early-plus-late : plus early late ≡ record { second = pos 13; nanosecond = pos 200_000_000 }
unfolding plus ◌+ℤ◌ quot rem
early-plus-late = refl

early-minus-late : minus early late ≡ record { second = negsuc 2; nanosecond = pos 800_000_000 }
unfolding minus ◌-ℤ◌ ◌+ℤ◌
early-minus-late = refl

total-operators_example :
    (total (plus early late) ≡ total early +ℤ total late)
    × (total (minus early late) ≡ total early -ℤ total late)
    × (total (add_assign early late) ≡ total early +ℤ total late)
    × (total (sub_assign early late) ≡ total early -ℤ total late)
    × (total (plus_ns early (negsuc 6)) ≡ total early +ℤ negsuc 6)
    × (total (minus_ns early (negsuc 6)) ≡ total early -ℤ negsuc 6)
    × (total (add_assign_ns early (negsuc 6)) ≡ total early +ℤ negsuc 6)
    × (total (sub_assign_ns early (negsuc 6)) ≡ total early -ℤ negsuc 6)
    × (total (assign_ns (negsuc 6)) ≡ negsuc 6)
total-operators_example = total-operators early late (negsuc 6)

operators-IsNormal_example :
    IsNormal (plus early late)
    × IsNormal (minus early late)
    × IsNormal (sub_assign early late)
    × IsNormal (add_assign early late)
    × (add_assign early late ≡ plus early late)
operators-IsNormal_example = operators-IsNormal early late (omega arith) (omega arith)
