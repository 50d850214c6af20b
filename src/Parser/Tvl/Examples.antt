-- ===== src/Parser/Tvl/Examples.antt =====
-- Two strings, one of them empty.
use comm_libs.Common.{ℕ, ◌≡◌, ◌≢◌, refl, List, [], ◌∷◌, arith, some}
use comm_libs.Parser.Tvl.{success, eformat, four_digits, store_string, load_string}
use comm_libs.Parser.Tvl.RoundTrip.{load_string-store_string}

abbrev hello : List ℕ
hello = b'h' ∷ b'i' ∷ []

abbrev greetings : List (List ℕ)
greetings = hello ∷ [] ∷ []

not_empty : greetings ≢ []
not_empty h = cc

load_string-store_string_example :
    (text : List ℕ) × (store_string greetings ≡ some text)
    × (load_string text (hello ∷ []) ≡ (success, greetings))
load_string-store_string_example =
    load_string-store_string greetings (hello ∷ []) (omega arith) (omega arith, (omega arith, tt))
      not_empty

-- What is stored of no elements is refused.
load_string-nothing : load_string (four_digits 0) [] ≡ (eformat, [])
unfolding load_string four_digits
load_string-nothing = refl
