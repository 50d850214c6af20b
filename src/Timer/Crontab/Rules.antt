-- ===== src/Timer/Crontab/Rules.antt =====
-- What `Next` of a rule of timer_schedue_crontab.cc returns.
use comm_libs.Common.{
  ℕ, zero, suc, ◌<◌, ◌≡◌, ◌≢◌, refl, ◌⊎◌, inl, inr, Bool, true, false, ◌||◌, Option, none, some,
  List, [], ◌∷◌, ◌++◌, length, ◌==◌, arith, subst, ==_iff, Bool-cases, Option-cases, get_elem?,
}
use comm_libs.Integer.{ℤ}
use comm_libs.Timer.Date.{Date, get}
use comm_libs.Timer.Crontab.{
  Field, SubRule, year, month, day_of_month, week, day_of_week, hour, minute, Return, success,
  buckle, rule_invalid, sub_next, sub_valid, Crontab, valid, skipped, index, fields, advance,
  after_sub_next, go_on, rounds, next, second, field_to_date,
}
use comm_libs.Timer.Crontab.Parse.{
  create, create_sub_rules, create_sub_rule, text_fields, with_rules, guard_rule, no_rules,
  after_weeks, after_days, parse_rule, is_star,
}
use comm_libs.Util.Text.{trim, split}
use comm_libs.Timer.Crontab.Dates.{sub_next-valid}

abbrev AllValid : List SubRule → Type 0
AllValid [] = Unit
AllValid (r ∷ rs) = (sub_valid r ≡ true) × AllValid rs

AllValid-get_elem? :
    (rs : List SubRule) (i : ℕ)
    → AllValid rs
    → i < length rs
    → (r : SubRule) × (get_elem? rs i ≡ some r) × (sub_valid r ≡ true)
AllValid-get_elem? [] i h k = absurd (omega arith)
AllValid-get_elem? (r ∷ rs) zero h k = (r, refl, h.0)
AllValid-get_elem? (r ∷ rs) (suc i) h k = AllValid-get_elem? rs i h.1 (omega arith)

AllValid-append :
    (rs : List SubRule) (r : SubRule) → AllValid rs → sub_valid r ≡ true → AllValid (rs ++ r ∷ [])
AllValid-append [] r h k = (k, h)
AllValid-append (q ∷ rs) r h k = (h.0, AllValid-append rs r h.1 k)

create_sub_rules-AllValid :
    (fs : List Field) (texts : List (List ℕ)) (rules out : List SubRule)
    → AllValid rules
    → create_sub_rules fs texts rules ≡ some out
    → AllValid out
unfolding create_sub_rules
create_sub_rules-AllValid [] texts rules out h k = ground arith
create_sub_rules-AllValid (f ∷ fs) [] rules out h k = ground arith
create_sub_rules-AllValid (f ∷ fs) (t ∷ ts) rules out h k =
    elim (Option-cases (create_sub_rule f t)) [
      | inl e ↦ absurd (ground (arith, rw (create_sub_rules, e) at k))
      | inr (r, e) ↦ elim (Bool-cases (sub_valid r)) [
        | inl v ↦
            create_sub_rules-AllValid fs ts (rules ++ r ∷ []) out (AllValid-append rules r h v)
              (rw (create_sub_rules, e, v) at k)
        | inr v ↦
            let q : [] ≡ out = ground (arith, rw (create_sub_rules, e, v) at k) in
            subst AllValid q (ground arith)
      ]
    ]

index-lt : (f : Field) → index f < 8
index-lt year = omega arith
index-lt month = omega arith
index-lt day_of_month = omega arith
index-lt week = omega arith
index-lt day_of_week = omega arith
index-lt hour = omega arith
index-lt minute = omega arith
index-lt second = omega arith

advance_cases :
    (garbage : ℤ) (r : SubRule) (f : Field) (date : Date)
    → sub_valid r ≡ true
    → ((advance garbage r f date).0 ≡ some success) ⊎ ((advance garbage r f date).0 ≡ none)
unfolding advance
advance_cases garbage r f date v =
    go (sub_next r (get date (field_to_date f)) garbage)
      (sub_next-valid r (get date (field_to_date f)) garbage v)
  where
    go :
        (o : Return × ℤ)
        → o.0 ≢ rule_invalid
        → ((after_sub_next o f date).0 ≡ some success) ⊎ ((after_sub_next o f date).0 ≡ none)
    go (success, n) h = inl refl
    go (buckle, n) h = inr refl
    go (rule_invalid, n) h = absurd (h refl)

go_on-success :
    (o : Option Return × Date) (more : Date → Return × Date)
    → (o.0 ≡ some success) ⊎ (o.0 ≡ none)
    → ((d : Date) → (more d).0 ≡ success)
    → (go_on o more).0 ≡ success
go_on-success (some ret, d) more (inl e) h = ground (arith, e)
go_on-success (some ret, d) more (inr e) h = absurd (ground (arith, e))
go_on-success (none, d) more e h = h d

rounds-success :
    (garbage : ℤ) (c : Crontab) (fs : List Field) (date : Date)
    → AllValid c.sub_rule_vec
    → length c.sub_rule_vec ≡ 8
    → (rounds garbage c fs date).0 ≡ success
unfolding rounds
rounds-success garbage c [] date h k = refl
rounds-success garbage c (f ∷ fs) date h k = elim (Bool-cases (skipped c f)) [
  | inl e ↦ rw e (rounds-success garbage c fs date h k)
  | inr e ↦
      let (r, q, v) = AllValid-get_elem? c.sub_rule_vec (index f) h (rw k (index-lt f)) in
      rw (e, q)
        (go_on-success (advance garbage r f date) (rounds garbage c fs)
          (advance_cases garbage r f date v) (λ d. rounds-success garbage c fs d h k))
]

-- Every crontab that the constructor can give has valid sub-rules.
abbrev Gives : Option Crontab → Type 0
Gives o = (c : Crontab) → o ≡ some c → AllValid c.sub_rule_vec

with_rules-Gives :
    (d : Crontab) (o : Option (List SubRule))
    → ((out : List SubRule) → o ≡ some out → AllValid out)
    → Gives (with_rules d o)
with_rules-Gives d none h c k = absurd (ground arith)
with_rules-Gives d (some rules) h c k =
    let q : rules ≡ c.sub_rule_vec = ground (arith, k) in subst AllValid q (h rules refl)

some-Gives : (d : Crontab) → d.sub_rule_vec ≡ [] → Gives (some d)
some-Gives d e c k =
    let q : [] ≡ c.sub_rule_vec = ground (arith, k, e) in subst AllValid q (ground arith)

guard_rule-Gives :
    (enough weeks days : Bool) (d : Crontab) (full : Option Crontab)
    → d.sub_rule_vec ≡ []
    → Gives full
    → Gives (guard_rule enough weeks days d full)
guard_rule-Gives false weeks days d full e h = some-Gives no_rules refl
guard_rule-Gives true false days d full e h = some-Gives no_rules refl
guard_rule-Gives true true false d full e h = some-Gives d e
guard_rule-Gives true true true d full e h = h

after_weeks-empty : (b : Bool) → (after_weeks b).sub_rule_vec ≡ []
after_weeks-empty true = refl
after_weeks-empty false = refl

parse_rule-Gives : (texts : List (List ℕ)) → Gives (parse_rule texts)
unfolding parse_rule
parse_rule-Gives texts =
    let c = after_weeks (is_star (get_elem? texts 3)) in
    guard_rule-Gives (length texts == 8)
      (is_star (get_elem? texts 1) || is_star (get_elem? texts 3))
      (is_star (get_elem? texts 2) || is_star (get_elem? texts 4)) c
      (with_rules (after_days (is_star (get_elem? texts 4)) c)
        (create_sub_rules text_fields texts []))
      (after_weeks-empty (is_star (get_elem? texts 3)))
      (with_rules-Gives (after_days (is_star (get_elem? texts 4)) c)
        (create_sub_rules text_fields texts [])
        (λ out. create_sub_rules-AllValid text_fields texts [] out (ground arith)))

create-Gives : (text : List ℕ) → Gives (create text)
unfolding create
create-Gives text = parse_rule-Gives (split b' ' (trim text))

-- For every text that the constructor does not throw on: if the rule is valid then `Next` succeeds
-- whatever the date, and if it is not then `Next` says so and leaves the date it was to set.
pub next-create :
    (garbage : ℤ) (text : List ℕ) (c : Crontab) (curr before : Date)
    → create text ≡ some c
    → (valid c ≡ true → (next garbage c curr before).0 ≡ success)
      × (valid c ≡ false → next garbage c curr before ≡ (rule_invalid, before))
unfolding next
next-create garbage text c curr before h = (
  λ v.
      rw (next, v)
        (rounds-success garbage c fields curr (create-Gives text c h)
          ((==_iff (length c.sub_rule_vec) 8).0 v)),
  λ v. rw (next, v) refl,
)
