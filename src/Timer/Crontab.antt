-- ===== src/Timer/Crontab.antt =====
-- libtimer/timer_schedue_crontab.h and .cc: the fields of a rule, and the next date that a parsed rule
-- asks for. `type_` of a sub-rule is written and never read, and is left out.
pub mod Token
pub mod Parse
pub mod Values
pub mod Dates
pub mod Rules
pub mod Stars
mod Examples
use comm_libs.Common.{
  ℕ, ◌≡◌, Bool, true, false, Option, none, some, List, [], ◌∷◌, length, if◌then◌else◌, ◌==◌, ltb,
  get_elem?,
}
use comm_libs.Integer.{ℤ, pos, ◌+ℤ◌, ltb_ℤ, rem}
use comm_libs.Timer.Date.{DateUnit, Date, get, set}

pub data Field : Type 0 where
  year month day_of_month week day_of_week hour minute second : Field

pub data Return : Type 0 where
  success rule_invalid buckle : Return

pub record SubRule : Type 0 where
  pub field : Field
  pub frequency_vec : List ℕ
  pub value_vec : List ℕ

-- `if (next > limit) { buckle_flag = true; next %= limit; }`
abbrev pub wrap_above : ℕ → ℤ → Return × ℤ
wrap_above limit next = if ltb_ℤ (pos limit) next then (buckle, rem next limit) else (success, next)

-- The `switch` of `SubRule::Next`.
unfoldable pub wrap : Field → ℤ → Return × ℤ
wrap year next = (success, next)
wrap month next = wrap_above 12 next
wrap day_of_month next = wrap_above 31 next
wrap week next = wrap_above 56 next
wrap day_of_week next = wrap_above 7 next
wrap hour next = wrap_above 24 next
wrap minute next = if ltb_ℤ next (pos 60) then (success, next) else (buckle, rem next 60)
wrap second next = wrap_above 60 next

-- The loop over `value_vec_`.
unfoldable pub first_above : ℤ → List ℕ → Option ℕ
first_above curr [] = none
first_above curr (it ∷ its) =
    let later = first_above curr its in if ltb_ℤ curr (pos it) then some it else later

unfoldable pub next_of_values : ℤ → ℕ → List ℕ → Return × ℤ
unfolding first_above
next_of_values curr head values = elim (first_above curr values) [
  | some it ↦ (success, pos it)
  | none ↦ (buckle, pos head)
]

-- `SubRule::Next`; the last argument is what `next` refers to before.
unfoldable pub sub_next : SubRule → ℤ → ℤ → Return × ℤ
unfolding next_of_values
sub_next rule curr next = elim rule.frequency_vec [
  | f ∷ fs ↦ wrap rule.field (curr +ℤ pos f)
  | [] ↦ elim rule.value_vec [ v ∷ vs ↦ next_of_values curr v (v ∷ vs) | [] ↦ (rule_invalid, next) ]
]

-- `SubRule::Valid`
abbrev pub sub_valid : SubRule → Bool
sub_valid rule = elim rule.frequency_vec [
  | f ∷ fs ↦ true
  | [] ↦ elim rule.value_vec [ v ∷ vs ↦ true | [] ↦ false ]
]

pub record Crontab : Type 0 where
  pub sub_rule_vec : List SubRule
  pub skip_day_of_month : Bool
  pub skip_day_of_week : Bool
  pub skip_month : Bool
  pub skip_week : Bool

abbrev pub valid : Crontab → Bool
valid c = length c.sub_rule_vec == 8

-- `_field2date`
abbrev pub field_to_date : Field → DateUnit
field_to_date year = DateUnit.year
field_to_date month = DateUnit.month
field_to_date day_of_month = DateUnit.day_of_month
field_to_date week = DateUnit.week
field_to_date day_of_week = DateUnit.day_of_week
field_to_date hour = DateUnit.hour
field_to_date minute = DateUnit.minute
field_to_date second = DateUnit.second

abbrev pub skipped : Crontab → Field → Bool
skipped c week = c.skip_week
skipped c month = c.skip_month
skipped c day_of_week = c.skip_day_of_week
skipped c day_of_month = c.skip_day_of_month
skipped c _ = false

abbrev pub index : Field → ℕ
index year = 0
index month = 1
index day_of_month = 2
index week = 3
index day_of_week = 4
index hour = 5
index minute = 6
index second = 7

-- The values of `i` in the loop of `Crontab::Next`, in its order.
abbrev pub fields : List Field
fields = second ∷ minute ∷ hour ∷ day_of_week ∷ week ∷ day_of_month ∷ month ∷ year ∷ []

-- The `Set` of one round and the code that ends the loop, if it does.
abbrev pub after_sub_next : Return × ℤ → Field → Date → Option Return × Date
after_sub_next (success, value) field date = (some success, set date value (field_to_date field))
after_sub_next (buckle, value) field date = (none, set date value (field_to_date field))
after_sub_next (rule_invalid, value) field date =
    (some rule_invalid, set date value (field_to_date field))

-- One round after the tests for skipped fields; `garbage` is what `next_value` holds before it is set.
unfoldable pub advance : (garbage : ℤ) → SubRule → Field → Date → Option Return × Date
unfolding sub_next
advance garbage rule field date =
    after_sub_next (sub_next rule (get date (field_to_date field)) garbage) field date

abbrev pub go_on : Option Return × Date → (Date → Return × Date) → Return × Date
go_on (some ret, date) more = (ret, date)
go_on (none, date) more = more date

unfoldable pub rounds : (garbage : ℤ) → Crontab → List Field → Date → Return × Date
unfolding advance
rounds garbage c [] date = (success, date)
rounds garbage c (f ∷ fs) date =
    let over = rounds garbage c fs date in
    if skipped c f then over else elim (get_elem? c.sub_rule_vec (index f)) [
      | none ↦ (rule_invalid, date)
      | some rule ↦ go_on (advance garbage rule f date) (rounds garbage c fs)
    ]

-- `Crontab::Next`; the last argument is the date that `next` refers to before.
unfoldable pub next : (garbage : ℤ) → Crontab → (curr : Date) → (before : Date) → Return × Date
unfolding rounds
next garbage c curr before =
    if valid c then rounds garbage c fields curr else (rule_invalid, before)
