-- ===== src/Parser/Tvl.antt =====
-- libparser/parser_tvl.cc: a sequence of strings, written as their number and then each with its
-- length, all of them in four digits. Loading and storing files is not supported there. `sscanf` and
-- `sprintf` are written out for the two formats in use.
pub mod RoundTrip
pub mod Bound
mod Examples
use comm_libs.Common.{
  ℕ, zero, suc, ◌+◌, ◌-◌, ◌*◌, ◌/◌, ◌%◌, Bool, true, false, ◌&&◌, ◌||◌, Option, none, some, List,
  [], ◌∷◌, ◌++◌, length, if◌then◌else◌, ◌==◌, ltb, leb, take, drop,
}
use comm_libs.Integer.{ℤ, pos, negsuc, ◌+ℤ◌, neg_ℕ}

-- `PARSER_EFORMAT`, and an exception `std::out_of_range` of `substr`.
pub data Return : Type 0 where
  success eformat out_of_range : Return

abbrev pub max_tvl_element : ℕ
max_tvl_element = 9999

-- `sprintf(slen, "%04lu", n)` into five bytes; `none` is a write behind them.
unfoldable pub four_digits : ℕ → List ℕ
four_digits n =
    (b'0' + n / 1000) ∷ (b'0' + n / 100 % 10) ∷ (b'0' + n / 10 % 10) ∷ (b'0' + n % 10) ∷ []

abbrev pub print_size : ℕ → Option (List ℕ)
print_size n = if ltb n 10000 then some (four_digits n) else none

abbrev pub prepend : List ℕ → Option (List ℕ) → Option (List ℕ)
prepend text none = none
prepend text (some rest) = some (text ++ rest)

-- One piece of `StoreString`: a number, the text it is for, and what follows.
unfoldable pub store_piece : ℕ → List ℕ → Option (List ℕ) → Option (List ℕ)
store_piece n text rest = elim (print_size n) [ none ↦ none | some ds ↦ prepend (ds ++ text) rest ]

pub store_elements : List (List ℕ) → Option (List ℕ)
unfolding store_piece
store_elements [] = some []
store_elements (it ∷ its) = store_piece (length it) it (store_elements its)

-- `StoreString`
pub store_string : List (List ℕ) → Option (List ℕ)
unfolding store_elements
store_string vec = store_piece (length vec) [] (store_elements vec)

abbrev pub is_space : ℕ → Bool
is_space c = c == b' ' || leb 9 c && leb c 13

abbrev pub is_digit : ℕ → Bool
is_digit c = leb b'0' c && leb c b'9'

-- The digits at the start of a text, after those that make `n`.
pub digits_value : ℕ → List ℕ → ℕ
digits_value n [] = n
digits_value n (c ∷ cs) =
    let more = digits_value (n * 10 + (c - b'0')) cs in if is_digit c then more else n

-- A number without a sign; `none` where no digit comes first.
pub scan_digits : List ℕ → Option ℕ
unfolding digits_value
scan_digits [] = none
scan_digits (c ∷ cs) = if is_digit c then some (digits_value 0 (c ∷ cs)) else none

abbrev pub signed : (ℕ → ℤ) → Option ℕ → Option ℤ
signed sign none = none
signed sign (some n) = some (sign n)

-- `sscanf(text, "%d", &x)`; `none` leaves `x` as it was.
pub scan_int : List ℕ → Option ℤ
unfolding scan_digits
scan_int [] = none
scan_int (c ∷ cs) =
    let rest = scan_int cs in
    if is_space c
    then rest
    else if c == b'-'
    then signed neg_ℕ (scan_digits cs)
    else if c == b'+'
    then signed pos (scan_digits cs)
    else signed pos (scan_digits (c ∷ cs))

abbrev pub or_zero : Option ℤ → ℤ
or_zero none = pos 0
or_zero (some n) = n

-- `str.substr(offset, len)`: an `int` below 0 is a `size_t` behind the end of the text; `none` is the
-- exception.
pub substr : List ℕ → ℤ → ℤ → Option (List ℕ)
substr str (negsuc k) len = none
substr str (pos offset) (negsuc k) =
    if ltb (length str) offset then none else some (drop offset str)
substr str (pos offset) (pos len) =
    if ltb (length str) offset then none else some (take len (drop offset str))

-- The number that `sscanf` reads, over a 0.
abbrev pub len_of : Option (List ℕ) → Option ℤ
len_of none = none
len_of (some text) = some (or_zero (scan_int text))

abbrev pub with_offset : Option (List ℕ) → ℤ → Option (List ℕ × ℤ)
with_offset none offset = none
with_offset (some it) offset = some (it, offset)

abbrev pub read_text : List ℕ → ℤ → Option ℤ → Option (List ℕ × ℤ)
read_text str offset none = none
read_text str offset (some len) = with_offset (substr str offset len) (offset +ℤ len)

-- One round of `LoadString`: an element and the next offset, or the exception.
pub read_element : List ℕ → ℤ → Option (List ℕ × ℤ)
unfolding substr scan_int
read_element str offset = read_text str (offset +ℤ pos 4) (len_of (substr str offset (pos 4)))

abbrev pub push_or_throw :
    Option (List ℕ × ℤ)
    → List (List ℕ)
    → (ℤ → List (List ℕ) → Return × List (List ℕ))
    → Return × List (List ℕ)
push_or_throw none vec more = (out_of_range, vec)
push_or_throw (some (it, offset)) vec more = more offset (vec ++ it ∷ [])

-- The loop of `LoadString`, with the rounds to go, the offset and `tvl_vec_`.
pub load_loop : ℕ → List ℕ → ℤ → List (List ℕ) → Return × List (List ℕ)
unfolding read_element
load_loop zero str offset vec = (success, vec)
load_loop (suc rounds) str offset vec =
    push_or_throw (read_element str offset) vec (load_loop rounds str)

abbrev pub rounds_of : ℤ → ℕ
rounds_of (pos n) = n
rounds_of (negsuc n) = 0

-- `LoadString`, over the `tvl_vec_` there was.
pub load_string : List ℕ → List (List ℕ) → Return × List (List ℕ)
unfolding load_loop
load_string str vec =
    if leb (length str) 4
    then (eformat, vec)
    else load_loop (rounds_of (or_zero (scan_int (take 4 str)))) str (pos 4) []

-- `PushHead(ParserTvl&)` and `PushBack(ParserTvl&)`; the same with one element are those of an object,
-- whose text is what `BuildTvlString` gives.
unfoldable pub push_head : (other vec : List (List ℕ)) → List (List ℕ)
push_head other vec = if ltb max_tvl_element (length vec + length other) then vec else other ++ vec

unfoldable pub push_back : (other vec : List (List ℕ)) → List (List ℕ)
push_back other vec = if ltb max_tvl_element (length vec + length other) then vec else vec ++ other

unfoldable pub push_head_object : (text : List ℕ) → List (List ℕ) → List (List ℕ)
push_head_object text vec = if leb max_tvl_element (length vec) then vec else text ∷ vec

unfoldable pub push_back_object : (text : List ℕ) → List (List ℕ) → List (List ℕ)
push_back_object text vec = if leb max_tvl_element (length vec) then vec else vec ++ text ∷ []

unfoldable pub pop_head : List (List ℕ) → List ℕ × List (List ℕ)
pop_head [] = ([], [])
pop_head (it ∷ its) = (it, its)

-- The last element and those before it.
unfoldable pub pop_back : List (List ℕ) → List ℕ × List (List ℕ)
pop_back [] = ([], [])
pop_back (it ∷ its) = elim its [
  | [] ↦ (it, [])
  | _ ∷ _ ↦ let (last, front) = pop_back its in (last, it ∷ front)
]
