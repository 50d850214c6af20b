-- ===== src/Timer/Time/Arithmetic.antt =====
-- The operators of timer_time.h against the integer number of nanoseconds that a time stands for.
use comm_libs.Common.{
  ℕ, ◌+◌, ◌*◌, ◌<◌, ◌≡◌, ◌≢◌, refl, ◌↔◌, Bool, true, false, arith, ◌∙◌, ◌≤◌, ◌%◌, Bool-cases, inl,
  inr, ltb, dec_lt, sym, ◌&&◌, ap, ltb→lt, ltb_false→le, if◌then◌else◌,
}
use comm_libs.Integer.{
  ℤ, pos, negsuc, pos_part, neg_part, ◌+ℤ◌, ◌-ℤ◌, ltb_ℤ, eqb_ℤ, times, quot, rem, long_laws,
  +ℤ_parts, -ℤ_parts, eq_of_parts, times_parts, quot_parts, rem_parts, one_part, eqb_ℤ_lem,
}
use comm_libs.Timer.Time.{
  Time, billion, plus, plus_ns, minus, minus_ns, add_assign, add_assign_ns, sub_assign,
  sub_assign_ns, assign_ns, carry, borrow, carry_one,
}

-- The nanoseconds of a time in all.
abbrev pub total : Time → ℤ
total t = times billion t.second +ℤ t.nanosecond

-- The nanoseconds are from 0 to one second.
abbrev pub IsNormal : Time → Type 0
IsNormal t = (neg_part t.nanosecond ≡ 0) × (pos_part t.nanosecond < billion)

pub time_eq :
    {s s' n n' : ℤ}
    → s ≡ s'
    → n ≡ n'
    → ◌≡◌ {A = Time}
        (record { second = s; nanosecond = n })
        (record { second = s'; nanosecond = n' })
time_eq p q = λ i. record { second = p i; nanosecond = q i }

pub total_parts :
    (t : Time)
    → pos_part (total t) + billion * neg_part t.second + neg_part t.nanosecond
      ≡ neg_part (total t) + billion * pos_part t.second + pos_part t.nanosecond
total_parts t = omega long_laws

pub ruleset long_tests = (long_laws, ltb→lt, ltb_false→le)

pub total-carry : (t : Time) → total (carry t) ≡ total t
unfolding carry
total-carry t = elim (Bool-cases (ltb_ℤ t.nanosecond (pos billion))) [
  | inl e ↦ rw e
  | inr e ↦ rw e (omega long_tests)
]

carry-IsNormal : (t : Time) → neg_part t.nanosecond ≡ 0 → IsNormal (carry t)
unfolding carry
carry-IsNormal t h = elim (Bool-cases (ltb_ℤ t.nanosecond (pos billion))) [
  | inl e ↦ rw e (omega long_tests)
  | inr e ↦ rw e (omega long_tests)
]

pub carry_bounds :
    (t : Time)
    → neg_part t.nanosecond < billion
    → (pos_part (carry t).nanosecond < billion) × (neg_part (carry t).nanosecond < billion)
unfolding carry
carry_bounds t h = elim (Bool-cases (ltb_ℤ t.nanosecond (pos billion))) [
  | inl e ↦ rw e (omega long_tests)
  | inr e ↦ rw e (omega long_tests)
]

total-carry_one : (t : Time) → total (carry_one t) ≡ total t
unfolding carry_one
total-carry_one t = elim (Bool-cases (ltb_ℤ t.nanosecond (pos billion))) [
  | inl e ↦ rw e
  | inr e ↦ rw e (omega long_tests)
]

pub total-borrow : (t : Time) → total (borrow t) ≡ total t
unfolding borrow
total-borrow t = elim (Bool-cases (ltb_ℤ t.nanosecond (pos 0))) [
  | inl e ↦ rw e (omega long_tests)
  | inr e ↦ rw e
]

pub borrow-IsNormal :
    (t : Time)
    → pos_part t.nanosecond < billion
    → neg_part t.nanosecond < billion
    → IsNormal (borrow t)
unfolding borrow
borrow-IsNormal t h k = elim (Bool-cases (ltb_ℤ t.nanosecond (pos 0))) [
  | inl e ↦ rw e (omega long_tests)
  | inr e ↦ rw e (omega long_tests)
]

-- Where the nanoseconds are below two seconds, the two carries are one.
carry-eq-carry_one :
    (t : Time)
    → neg_part t.nanosecond ≡ 0
    → pos_part t.nanosecond < 2 * billion
    → carry_one t ≡ carry t
unfolding carry carry_one
carry-eq-carry_one t h k = elim (Bool-cases (ltb_ℤ t.nanosecond (pos billion))) [
  | inl e ↦ rw e
  | inr e ↦ rw e (time_eq (omega long_tests) (omega long_tests))
]

abbrev sum : Time → Time → Time
sum a b = record { second = a.second +ℤ b.second; nanosecond = a.nanosecond +ℤ b.nanosecond }

abbrev difference : Time → Time → Time
difference a b = record { second = a.second -ℤ b.second; nanosecond = a.nanosecond -ℤ b.nanosecond }

total-sum : (a b : Time) → total (sum a b) ≡ total a +ℤ total b
total-sum a b = omega long_laws

total-difference : (a b : Time) → total (difference a b) ≡ total a -ℤ total b
total-difference a b = omega long_laws

pub total-assign_ns : (n : ℤ) → total (assign_ns n) ≡ n
unfolding assign_ns
total-assign_ns n = omega long_laws

-- Every sum and difference, with a time or with a number of nanoseconds of either sign, stands for the
-- sum or difference of what its operands stand for.
pub total-operators :
    (a b : Time) (n : ℤ)
    → (total (plus a b) ≡ total a +ℤ total b)
      × (total (minus a b) ≡ total a -ℤ total b)
      × (total (add_assign a b) ≡ total a +ℤ total b)
      × (total (sub_assign a b) ≡ total a -ℤ total b)
      × (total (plus_ns a n) ≡ total a +ℤ n)
      × (total (minus_ns a n) ≡ total a -ℤ n)
      × (total (add_assign_ns a n) ≡ total a +ℤ n)
      × (total (sub_assign_ns a n) ≡ total a -ℤ n)
      × (total (assign_ns n) ≡ n)
unfolding plus minus add_assign sub_assign plus_ns minus_ns add_assign_ns sub_assign_ns assign_ns
total-operators a b n =
    let e = total-assign_ns n in
    let add : total (sum a (assign_ns n)) ≡ total a +ℤ n =
      total-sum a (assign_ns n) ∙ ap (λ k. total a +ℤ k) e in
    let sub : total (difference a (assign_ns n)) ≡ total a -ℤ n =
      total-difference a (assign_ns n) ∙ ap (λ k. total a -ℤ k) e in
    (
      total-carry (sum a b) ∙ total-sum a b,
      total-borrow (difference a b) ∙ total-difference a b,
      total-carry_one (sum a b) ∙ total-sum a b,
      total-borrow (difference a b) ∙ total-difference a b,
      total-carry (sum a (assign_ns n)) ∙ add,
      total-borrow (difference a (assign_ns n)) ∙ sub,
      total-carry_one (sum a (assign_ns n)) ∙ add,
      total-borrow (difference a (assign_ns n)) ∙ sub,
      e,
    )

-- On times whose nanoseconds are in range, sums and differences of times keep them in range, and `+=`
-- agrees with `+`.
pub operators-IsNormal :
    (a b : Time)
    → IsNormal a
    → IsNormal b
    → IsNormal (plus a b)
      × IsNormal (minus a b)
      × IsNormal (sub_assign a b)
      × IsNormal (add_assign a b)
      × (add_assign a b ≡ plus a b)
unfolding plus minus add_assign sub_assign
operators-IsNormal a b h k =
    let same = carry-eq-carry_one (sum a b) (omega long_laws) (omega long_laws) in
    let up = carry-IsNormal (sum a b) (omega long_laws) in
    let down = borrow-IsNormal (difference a b) (omega long_laws) (omega long_laws) in
    (up, down, down, rw same up, same)

-- Adding or taking away a number of nanoseconds that is not negative keeps the nanoseconds in range.
pub ns_operators-IsNormal :
    (a : Time) (n : ℕ)
    → IsNormal a
    → IsNormal (plus_ns a (pos n))
      × IsNormal (minus_ns a (pos n))
      × IsNormal (add_assign_ns a (pos n))
      × IsNormal (sub_assign_ns a (pos n))
      × IsNormal (assign_ns (pos n))
unfolding plus_ns minus_ns add_assign_ns sub_assign_ns assign_ns
ns_operators-IsNormal a n h =
    let t = assign_ns (pos n) in
    let up = carry-IsNormal (sum a t) (omega long_laws) in
    let down = borrow-IsNormal (difference a t) (omega long_laws) (omega long_laws) in
    (
      up,
      down,
      rw (carry-eq-carry_one (sum a t) (omega long_laws) (omega long_laws)) up,
      down,
      omega long_laws,
    )

carry_low :
    (t : Time) → 0 < neg_part t.nanosecond → pos_part t.nanosecond ≡ 0 → ¬ IsNormal (carry t)
unfolding carry
carry_low t h k = elim (Bool-cases (ltb_ℤ t.nanosecond (pos billion))) [
  | inl e ↦ rw e (omega long_tests)
  | inr e ↦ rw e (omega long_tests)
]

borrow_high :
    (t : Time) → billion ≤ pos_part t.nanosecond → neg_part t.nanosecond ≡ 0 → ¬ IsNormal (borrow t)
unfolding borrow
borrow_high t h k = elim (Bool-cases (ltb_ℤ t.nanosecond (pos 0))) [
  | inl e ↦ rw e (omega long_tests)
  | inr e ↦ rw e (omega long_tests)
]

-- On a time whose nanoseconds are in range, adding a negative number of nanoseconds that takes
-- them below 0, and taking one away that brings them to a second or more, leave the nanoseconds
-- out of range: `+` does not borrow and `-` does not carry.
pub negative_ns-breaks-IsNormal :
    (a : Time) (n : ℤ)
    → IsNormal a
    → (pos_part a.nanosecond < neg_part n % billion → ¬ IsNormal (plus_ns a n))
      × (billion ≤ pos_part a.nanosecond + neg_part n % billion → ¬ IsNormal (minus_ns a n))
unfolding plus_ns minus_ns assign_ns
negative_ns-breaks-IsNormal a n h =
    let t = assign_ns n in
    (
      λ l k. carry_low (sum a t) (omega long_laws) (omega long_laws) k,
      λ l k. borrow_high (difference a t) (omega long_laws) (omega long_laws) k,
    )
