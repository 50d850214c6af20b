-- ===== src/Timer/Crontab/Parse.antt =====
-- libtimer/timer_schedue_crontab.cc: `_parse_sub_rule` and `_parse_rule`, over the bytes of the rule.
-- The regular expressions are written out as readers.
use comm_libs.Common.{
  ℕ, zero, suc, ◌+◌, ◌-◌, ◌^◌, Bool, true, false, ◌&&◌, ◌||◌, Option, none, some, List, [], ◌∷◌,
  ◌++◌, length, if◌then◌else◌, ◌==◌, ltb, leb, get_elem?,
}
use comm_libs.Util.Text.{trim, split}
use comm_libs.Timer.Crontab.{
  Field, SubRule, Crontab, sub_valid, year, month, day_of_month, week, day_of_week, hour, minute,
  second,
}
use comm_libs.Timer.Crontab.Token.{
  is_rule_char, Token, frequency, frequency_range, range, value, fault, read_token,
}

abbrev pub all {ℓ} : {A : Type ℓ} → (A → Bool) → List A → Bool
all p [] = true
all p (c ∷ cs) = p c && all p cs

pub record Vectors : Type 0 where
  pub frequency_vec : List ℕ
  pub value_vec : List ℕ

-- `refused` is a return of false, `thrown` the exception of `std::stoi`.
pub data Parsed : Type 0 where
  parsed : Vectors → Parsed
  refused : Parsed
  thrown : Parsed

-- `std::stoi` of digits, into an `int` of 32 bits.
abbrev pub stoi : ℕ → (ℕ → Parsed) → Parsed
stoi n next = if ltb n (2 ^ 31) then next n else thrown

-- The loop `for (int i = fa_s; i <= fa_e; i++)`, with the number of rounds. A range up to INT_MAX, where
-- `i++` overflows in the source, ends here.
unfoldable pub numbers_from : ℕ → ℕ → List ℕ
numbers_from i zero = []
numbers_from i (suc k) = i ∷ numbers_from (i + 1) k

abbrev push_values : Vectors → List ℕ → Vectors
push_values v ns = record v { value_vec = v.value_vec ++ ns }

abbrev push_frequency : Vectors → ℕ → Vectors
push_frequency v n = record v { frequency_vec = v.frequency_vec ++ n ∷ [] }

unfoldable pub add_token : Token → Vectors → Parsed
add_token frequency v = parsed (push_frequency v 1)
add_token (frequency_range n) v = stoi n (λ n. parsed (push_frequency v n))
add_token (range a b) v =
    stoi a (λ a. stoi b (λ b. parsed (push_values v (numbers_from a (b + 1 - a)))))
add_token (value n) v = stoi n (λ n. parsed (push_values v (n ∷ [])))
add_token fault v = refused

unfoldable pub add_tokens : List (List ℕ) → Vectors → Parsed
unfolding add_token
add_tokens [] v = parsed v
add_tokens (t ∷ ts) v = elim (add_token (read_token t) v) [
  | parsed v' ↦ add_tokens ts v'
  | refused ↦ refused
  | thrown ↦ thrown
]

unfoldable pub insert : ℕ → List ℕ → List ℕ
insert n [] = n ∷ []
insert n (m ∷ ms) = let rest = insert n ms in if leb n m then n ∷ m ∷ ms else m ∷ rest

-- `std::sort`
unfoldable pub sort : List ℕ → List ℕ
sort [] = []
sort (n ∷ ns) = insert n (sort ns)

unfoldable pub unique_after : ℕ → List ℕ → List ℕ
unique_after last [] = []
unique_after last (n ∷ ns) =
    let same = unique_after last ns in
    let other = unique_after n ns in if last == n then same else n ∷ other

-- `vec.erase(std::unique(vec.begin(), vec.end()), vec.end())`
unfoldable pub unique : List ℕ → List ℕ
unique [] = []
unique (n ∷ ns) = n ∷ unique_after n ns

-- The largest value of a field.
abbrev pub limit : Field → Option ℕ
limit year = none
limit month = some 12
limit day_of_month = some 31
limit week = some 56
limit day_of_week = some 7
limit hour = some 24
limit minute = some 60
limit second = some 60

abbrev pub fits : Option ℕ → ℕ → Bool
fits none n = true
fits (some most) n = leb n most

-- The tests after the loop.
unfoldable pub check_vectors : Field → Vectors → Parsed
check_vectors field v =
    if ltb 0 (length v.value_vec) && ltb 0 (length v.frequency_vec)
    then refused
    else if ltb 1 (length v.frequency_vec)
    then refused
    else if all (fits (limit field)) v.value_vec
    then parsed v
    else refused

abbrev pub sorted_vectors : Vectors → Vectors
sorted_vectors v = record {
  frequency_vec = unique (sort v.frequency_vec);
  value_vec = unique (sort v.value_vec);
}

-- `_parse_sub_rule`
unfoldable pub parse_sub_rule : Field → List ℕ → Parsed
unfolding add_tokens check_vectors
parse_sub_rule field text =
    if ltb 0 (length text) && all is_rule_char text
    then elim (add_tokens (split b',' (trim text))
        (record { frequency_vec = []; value_vec = [] })) [
          | parsed v ↦ check_vectors field (sorted_vectors v)
          | refused ↦ refused
          | thrown ↦ thrown
        ]
    else refused

-- The constructor of `SubRule`; `none` is the exception.
unfoldable pub create_sub_rule : Field → List ℕ → Option SubRule
unfolding parse_sub_rule
create_sub_rule field text = elim (parse_sub_rule field text) [
  | parsed v ↦
      some (record { field = field; frequency_vec = v.frequency_vec; value_vec = v.value_vec })
  | refused ↦ some (record { field = field; frequency_vec = []; value_vec = [] })
  | thrown ↦ none
]

-- The loop over the fields of the rule: `some []` where one of them is not valid.
unfoldable pub create_sub_rules : List Field → List (List ℕ) → List SubRule → Option (List SubRule)
unfolding create_sub_rule
create_sub_rules (f ∷ fs) (text ∷ texts) rules = elim (create_sub_rule f text) [
  | none ↦ none
  | some rule ↦
      let more = create_sub_rules fs texts (rules ++ rule ∷ []) in
      if sub_valid rule then more else some []
]
create_sub_rules fs texts rules = some rules

abbrev pub is_star : Option (List ℕ) → Bool
is_star (some (c ∷ [])) = c == b'*'
is_star _ = false

-- The fields in the order of the text.
abbrev pub text_fields : List Field
text_fields = year ∷ month ∷ day_of_month ∷ week ∷ day_of_week ∷ hour ∷ minute ∷ second ∷ []

abbrev pub no_rules : Crontab
no_rules = record {
  sub_rule_vec = [];
  skip_day_of_month = false;
  skip_day_of_week = false;
  skip_month = false;
  skip_week = false;
}

abbrev pub with_rules : Crontab → Option (List SubRule) → Option Crontab
with_rules c none = none
with_rules c (some rules) = some (record c { sub_rule_vec = rules })

-- The flags after the tests of the week and the month, and after those of the days.
abbrev pub after_weeks : (week_star : Bool) → Crontab
after_weeks true = record no_rules { skip_week = true }
after_weeks false = record no_rules { skip_month = true }

abbrev pub after_days : (day_of_week_star : Bool) → Crontab → Crontab
after_days true c = record c { skip_day_of_week = true }
after_days false c = record c { skip_day_of_month = true }

-- The early returns of `_parse_rule`: they leave the rules empty and the flags that were set.
abbrev pub guard_rule : (enough weeks days : Bool) → Crontab → Option Crontab → Option Crontab
guard_rule false weeks days c full = some no_rules
guard_rule true false days c full = some no_rules
guard_rule true true false c full = some c
guard_rule true true true c full = full

-- `_parse_rule` after the split.
unfoldable pub parse_rule : List (List ℕ) → Option Crontab
unfolding create_sub_rules
parse_rule texts =
    let c = after_weeks (is_star (get_elem? texts 3)) in
    guard_rule (length texts == 8) (is_star (get_elem? texts 1) || is_star (get_elem? texts 3))
      (is_star (get_elem? texts 2) || is_star (get_elem? texts 4)) c
      (with_rules (after_days (is_star (get_elem? texts 4)) c)
        (create_sub_rules text_fields texts []))

-- The constructor of `Crontab`.
unfoldable pub create : List ℕ → Option Crontab
unfolding parse_rule
create text = parse_rule (split b' ' (trim text))
