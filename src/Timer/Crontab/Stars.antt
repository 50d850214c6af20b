-- ===== src/Timer/Crontab/Stars.antt =====
-- `Next` of timer_schedue_crontab.cc where the seconds are `*`.
use comm_libs.Common.{
  ℕ, ◌+◌, ◌<◌, ◌≡◌, refl, true, false, some, List, [], ◌∷◌, if◌then◌else◌, ◌==◌, arith, ap, ◌∙◌,
  get_elem?,
}
use comm_libs.Integer.{ℤ, pos, ◌+ℤ◌}
use comm_libs.Timer.Date.{Date, DateUnit, get, set, set_unsigned}
use comm_libs.Timer.Crontab.{
  Field, SubRule, year, month, day_of_month, week, day_of_week, hour, minute, success, sub_next,
  wrap, Crontab, valid, skipped, index, advance, after_sub_next, go_on, rounds, next, second,
  field_to_date,
}

add_one : (n : ℕ) → pos n +ℤ pos 1 ≡ pos (n + 1)
unfolding ◌+ℤ◌
add_one n = ground arith

wrap_second : (n : ℕ) → n < 60 → wrap second (pos (n + 1)) ≡ (success, pos (n + 1))
unfolding wrap
wrap_second n lt = ground arith

sub_next-star :
    (rule : SubRule) (n : ℕ) (garbage : ℤ)
    → rule.field ≡ second
    → rule.frequency_vec ≡ 1 ∷ []
    → n < 60
    → sub_next rule (pos n) garbage ≡ (success, pos (n + 1))
unfolding sub_next
sub_next-star rule n garbage f p lt = rw (p, f, add_one n) (wrap_second n lt)

rounds-stop :
    (garbage : ℤ) (c : Crontab) (f : Field) (fs : List Field) (date : Date) (rule : SubRule)
    (value : ℤ)
    → skipped c f ≡ false
    → get_elem? c.sub_rule_vec (index f) ≡ some rule
    → sub_next rule (get date (field_to_date f)) garbage ≡ (success, value)
    → rounds garbage c (f ∷ fs) date ≡ (success, set date value (field_to_date f))
unfolding rounds advance
rounds-stop garbage c f fs date rule value s q e =
    rw (s, q) (ap (λ o. go_on (after_sub_next o f date) (rounds garbage c fs)) e)

set_next_second :
    (d : Date) (n : ℕ)
    → n < 60
    → set d (pos (n + 1)) DateUnit.second
      ≡ (if n == 59 then d else record d { tm_sec = pos (n + 1) })
unfolding set set_unsigned
set_next_second d n lt = ground arith

-- In a valid rule with `*` for the seconds, `Next` adds a second below 59, and at 59 it succeeds
-- and returns the date it was given: 60 is no carry for the rule and no value that the date takes.
pub next-star_second :
    (garbage : ℤ) (c : Crontab) (rule : SubRule) (curr before : Date) (n : ℕ)
    → valid c ≡ true
    → get_elem? c.sub_rule_vec 7 ≡ some rule
    → rule.field ≡ second
    → rule.frequency_vec ≡ 1 ∷ []
    → curr.tm_sec ≡ pos n
    → n < 60
    → next garbage c curr before
      ≡ (success, (if n == 59 then curr else record curr { tm_sec = pos (n + 1) }))
unfolding next get
next-star_second garbage c rule curr before n v q f p s lt =
    rw (next, v)
      (rounds-stop garbage c second
          (minute ∷ hour ∷ day_of_week ∷ week ∷ day_of_month ∷ month ∷ year ∷ []) curr rule
          (pos (n + 1)) refl q
          (ap (λ k. sub_next rule k garbage) s ∙ sub_next-star rule n garbage f p lt)
        ∙ ap (λ d. (success, d)) (set_next_second curr n lt))
