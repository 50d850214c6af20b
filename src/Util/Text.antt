-- ===== src/Util/Text.antt =====
-- libutil/string_util.cc: strings as lists of their bytes. `Reverse` and `Distinct` of a string are
-- empty functions there.
pub mod Laws
mod Examples
use comm_libs.Common.{ℕ, List, [], ◌∷◌, ◌++◌, if◌then◌else◌, ◌==◌, ◌&&◌}

-- `str.erase(0, str.find_first_not_of(" "))`: the spaces at the start, all of it if there is no other
-- character.
unfoldable pub skip_spaces : List ℕ → List ℕ
skip_spaces [] = []
skip_spaces (c ∷ cs) = let rest = skip_spaces cs in if c == b' ' then rest else c ∷ cs

unfoldable pub r_trim : List ℕ → List ℕ
r_trim str = skip_spaces str

-- `str.erase(str.find_last_not_of(" ") + 1)`
pub l_trim : List ℕ → List ℕ
l_trim [] = []
l_trim (c ∷ cs) = elim (l_trim cs) [ [] ↦ if c == b' ' then [] else c ∷ [] | d ∷ ds ↦ c ∷ d ∷ ds ]

unfoldable pub trim : List ℕ → List ℕ
trim str = skip_spaces (skip_spaces str)

-- The loop of `Distinct(str)`, after the character `last`.
pub distinct_after : ℕ → List ℕ → List ℕ
distinct_after last [] = []
distinct_after last (c ∷ cs) =
    let same = distinct_after last cs in
    let other = distinct_after c cs in if last == c then same else c ∷ other

unfoldable pub distinct : List ℕ → List ℕ
distinct [] = []
distinct (c ∷ cs) = c ∷ distinct_after c cs

-- The loop of `Distinct(str, target)`.
pub distinct_target_after : ℕ → ℕ → List ℕ → List ℕ
distinct_target_after target last [] = []
distinct_target_after target last (c ∷ cs) =
    let same = distinct_target_after target last cs in
    let other = distinct_target_after target c cs in
    if last == c && last == target then same else c ∷ other

unfoldable pub distinct_target : ℕ → List ℕ → List ℕ
distinct_target target [] = []
distinct_target target (c ∷ cs) = c ∷ distinct_target_after target c cs

abbrev pub flush : List ℕ → List (List ℕ) → List (List ℕ)
flush [] words = words
flush (c ∷ cs) words = (c ∷ cs) ∷ words

-- The matches of `[^sep]+`, for a separator of one character, with the start of a match in `word`.
unfoldable pub split_from : ℕ → List ℕ → List ℕ → List (List ℕ)
split_from sep word [] = flush word []
split_from sep word (c ∷ cs) =
    let next = split_from sep [] cs in
    let more = split_from sep (word ++ c ∷ []) cs in if c == sep then flush word next else more

unfoldable pub split : ℕ → List ℕ → List (List ℕ)
unfolding split_from
split sep str = split_from sep [] str
