-- ===== src/Util/Text/Examples.antt =====
-- Strings with spaces at both ends and with doubled characters.
use comm_libs.Common.{ℕ, ◌≡◌, refl, List, [], ◌∷◌}
use comm_libs.Util.Text.{skip_spaces, l_trim, trim, distinct_after, distinct, split_from, split}

-- `" a b "`
abbrev padded : List ℕ
padded = b' ' ∷ b'a' ∷ b' ' ∷ b'b' ∷ b' ' ∷ []

l_trim-padded : l_trim padded ≡ b' ' ∷ b'a' ∷ b' ' ∷ b'b' ∷ []
unfolding l_trim
l_trim-padded = refl

trim-padded : trim padded ≡ b'a' ∷ b' ' ∷ b'b' ∷ b' ' ∷ []
unfolding trim skip_spaces
trim-padded = refl

split-padded : split b' ' padded ≡ (b'a' ∷ []) ∷ (b'b' ∷ []) ∷ []
unfolding split split_from
split-padded = refl

distinct-aab : distinct (b'a' ∷ b'a' ∷ b'b' ∷ []) ≡ b'a' ∷ b'b' ∷ []
unfolding distinct distinct_after
distinct-aab = refl
