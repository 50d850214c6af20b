-- ===== src/Timer/Crontab/Examples.antt =====
-- A rule with values for the seconds, and one with `*`.
use comm_libs.Common.{ℕ, ◌≡◌, refl, ◌⊎◌, List, [], ◌∷◌, true, false, some}
use comm_libs.Integer.{pos, ltb_ℤ}
use comm_libs.Util.Text.{trim, split, skip_spaces, split_from}
use comm_libs.Timer.Date.{Date}
use comm_libs.Timer.Crontab.{
  Field, second, minute, SubRule, success, buckle, rule_invalid, sub_next, Crontab, valid, next,
}
use comm_libs.Timer.Crontab.Parse.{
  Vectors, parsed, numbers_from, add_token, add_tokens, insert, sort, unique_after, unique,
  check_vectors, parse_sub_rule, create_sub_rule, create_sub_rules, parse_rule, create,
}
use comm_libs.Timer.Crontab.Token.{digits, number, read_token}
use comm_libs.Timer.Crontab.Values.{member, HasValues, parse_sub_rule-HasValues}
use comm_libs.Timer.Crontab.Dates.{IsLeastOf, sub_next-values}
use comm_libs.Timer.Crontab.Rules.{next-create}

-- `"7,1-3,2"`
abbrev list_text : List ℕ
list_text = b'7' ∷ b',' ∷ b'1' ∷ b'-' ∷ b'3' ∷ b',' ∷ b'2' ∷ []

abbrev list_vectors : Vectors
list_vectors = record { frequency_vec = []; value_vec = 1 ∷ 2 ∷ 3 ∷ 7 ∷ [] }

list_parsed : parse_sub_rule second list_text ≡ parsed list_vectors
unfolding parse_sub_rule trim skip_spaces split split_from read_token digits number add_tokens
    add_token numbers_from insert sort unique_after unique check_vectors
list_parsed = refl

parse_sub_rule-HasValues_example : HasValues second list_text list_vectors
parse_sub_rule-HasValues_example =
    parse_sub_rule-HasValues second list_text list_vectors list_parsed

abbrev list_rule : SubRule
list_rule = record { field = second; frequency_vec = []; value_vec = 1 ∷ 2 ∷ 3 ∷ 7 ∷ [] }

sub_next-values_example :
    ((n : ℕ) × (sub_next list_rule (pos 3) (pos 0) ≡ (success, pos n))
      × IsLeastOf (λ m. ltb_ℤ (pos 3) (pos m)) (1 ∷ 2 ∷ 3 ∷ 7 ∷ []) n)
    ⊎ ((n : ℕ) × (sub_next list_rule (pos 3) (pos 0) ≡ (buckle, pos n))
        × IsLeastOf (λ m. true) (1 ∷ 2 ∷ 3 ∷ 7 ∷ []) n
        × ((m : ℕ) → member m (1 ∷ 2 ∷ 3 ∷ 7 ∷ []) ≡ true → ltb_ℤ (pos 3) (pos m) ≡ false))
sub_next-values_example =
    sub_next-values list_rule 1 (2 ∷ 3 ∷ 7 ∷ []) (pos 3) (pos 0) refl refl
      parse_sub_rule-HasValues_example.0

-- `"* * * * * * * *"`
abbrev star_text : List ℕ
star_text =
    b'*' ∷ b' ' ∷ b'*' ∷ b' ' ∷ b'*' ∷ b' ' ∷ b'*' ∷ b' ' ∷ b'*' ∷ b' ' ∷ b'*' ∷ b' ' ∷ b'*' ∷ b' '
    ∷ b'*' ∷ []

abbrev star_rule : Field → SubRule
star_rule f = record { field = f; frequency_vec = 1 ∷ []; value_vec = [] }

abbrev stars : Crontab
stars = record {
  sub_rule_vec =
      star_rule Field.year
      ∷ star_rule Field.month
      ∷ star_rule Field.day_of_month
      ∷ star_rule Field.week
      ∷ star_rule Field.day_of_week
      ∷ star_rule Field.hour
      ∷ star_rule minute
      ∷ star_rule second
      ∷ [];
  skip_day_of_month = false;
  skip_day_of_week = true;
  skip_month = false;
  skip_week = true;
}

stars_created : create star_text ≡ some stars
unfolding create parse_rule create_sub_rules create_sub_rule parse_sub_rule trim skip_spaces split
    split_from read_token digits number add_tokens add_token insert sort unique_after unique
    check_vectors
stars_created = refl

abbrev last_second : Date
last_second = record {
  tm_sec = pos 59;
  tm_min = pos 30;
  tm_hour = pos 12;
  tm_mday = pos 1;
  tm_mon = pos 0;
  tm_year = pos 120;
  tm_wday = pos 3;
  tm_yday = pos 0;
}

next-create_example :
    (valid stars ≡ true → (next (pos 0) stars last_second last_second).0 ≡ success)
    × (valid stars ≡ false
        → next (pos 0) stars last_second last_second ≡ (rule_invalid, last_second))
next-create_example = next-create (pos 0) star_text stars last_second last_second stars_created
