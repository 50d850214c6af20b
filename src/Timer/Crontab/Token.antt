-- ===== src/Timer/Crontab/Token.antt =====
-- libtimer/timer_schedue_crontab.cc: the regular expressions of a sub-rule as readers of bytes.
use comm_libs.Common.{ℕ, ◌+◌, ◌-◌, ◌*◌, Bool, ◌&&◌, ◌||◌, List, [], ◌∷◌, if◌then◌else◌, ◌==◌, leb}

abbrev pub is_digit : ℕ → Bool
is_digit c = leb b'0' c && leb c b'9'

-- The characters of `RegexSyntax`.
abbrev pub is_rule_char : ℕ → Bool
is_rule_char c = is_digit c || c == b'/' || c == b'*' || c == b'-' || c == b','

-- The longest run of digits, and what follows.
unfoldable pub digits : List ℕ → List ℕ × List ℕ
digits [] = ([], [])
digits (c ∷ cs) = let (ds, rest) = digits cs in if is_digit c then (c ∷ ds, rest) else ([], c ∷ cs)

-- The number that digits stand for, after `n`.
unfoldable pub number : ℕ → List ℕ → ℕ
number n [] = n
number n (d ∷ ds) = number (n * 10 + (d - b'0')) ds

pub data Token : Type 0 where
  frequency : Token
  frequency_range : ℕ → Token
  range : ℕ → ℕ → Token
  value : ℕ → Token
  fault : Token

abbrev one_number : (ℕ → Token) → List ℕ × List ℕ → Token
one_number make (d ∷ ds, []) = make (number 0 (d ∷ ds))
one_number make _ = fault

abbrev after_star : List ℕ → Token
after_star [] = frequency
after_star (c ∷ cs) = if c == b'/' then one_number frequency_range (digits cs) else fault

abbrev after_number : List ℕ × List ℕ → Token
after_number ([], rest) = fault
after_number (d ∷ ds, []) = value (number 0 (d ∷ ds))
after_number (d ∷ ds, c ∷ cs) =
    if c == b'-' then one_number (range (number 0 (d ∷ ds))) (digits cs) else fault

-- Which of the four expressions a part between commas matches.
unfoldable pub read_token : List ℕ → Token
read_token [] = fault
read_token (c ∷ cs) = if c == b'*' then after_star cs else after_number (digits (c ∷ cs))
