-- ===== src/Timer/Crontab/Values.antt =====
-- What the vectors of a parsed sub-rule of timer_schedue_crontab.cc hold.
use comm_libs.Common.{
  ℕ, zero, suc, ◌+◌, ◌-◌, ◌≤◌, ◌<◌, ◌≡◌, refl, ◌⊎◌, inl, inr, Bool, true, false, ◌&&◌, ◌||◌, List,
  [], ◌∷◌, ◌++◌, length, ◌==◌, ltb, leb, arith, Bool-cases, ◌∙◌, ==_iff, sym, subst,
}
use comm_libs.Util.Text.{trim, split}
use comm_libs.Timer.Crontab.{Field}
use comm_libs.Timer.Crontab.Parse.{
  all, Vectors, Parsed, parsed, refused, thrown, numbers_from, add_token, add_tokens, insert, sort,
  unique_after, unique, limit, fits, check_vectors, sorted_vectors, parse_sub_rule,
}
use comm_libs.Timer.Crontab.Token.{
  Token, frequency, frequency_range, range, value, fault, read_token, is_rule_char,
}

abbrev AtLeast : ℕ → List ℕ → Type 0
AtLeast last [] = Unit
AtLeast last (n ∷ ns) = (last ≤ n) × AtLeast n ns

-- Increasing, and all above `last`.
abbrev pub Above : ℕ → List ℕ → Type 0
Above last [] = Unit
Above last (n ∷ ns) = (last < n) × Above n ns

abbrev pub IsIncreasing : List ℕ → Type 0
IsIncreasing [] = Unit
IsIncreasing (n ∷ ns) = Above n ns

insert-AtLeast :
    (last n : ℕ) (ms : List ℕ) → last ≤ n → AtLeast last ms → AtLeast last (insert n ms)
unfolding insert
insert-AtLeast last n [] h k = ground arith
insert-AtLeast last n (m ∷ ms) h k = elim (Bool-cases (leb n m)) [
  | inl e ↦ rw e (h, (ground arith, k.1))
  | inr e ↦ rw e (k.0, insert-AtLeast m n ms (ground arith) k.1)
]

sort-AtLeast : (ns : List ℕ) → AtLeast 0 (sort ns)
unfolding sort
sort-AtLeast [] = ground arith
sort-AtLeast (n ∷ ns) = insert-AtLeast 0 n (sort ns) (omega arith) (sort-AtLeast ns)

unique_after-Above : (last : ℕ) (ns : List ℕ) → AtLeast last ns → Above last (unique_after last ns)
unfolding unique_after
unique_after-Above last [] h = h
unique_after-Above last (n ∷ ns) h = elim (Bool-cases (last == n)) [
  | inl e ↦
      rw e (unique_after-Above last ns (subst (λ k. AtLeast k ns) (sym ((==_iff last n).0 e)) h.1))
  | inr e ↦ rw e (ground arith, unique_after-Above n ns h.1)
]

pub unique-sort-IsIncreasing : (ns : List ℕ) → IsIncreasing (unique (sort ns))
unfolding unique
unique-sort-IsIncreasing ns = go (sort ns) (sort-AtLeast ns)
  where
    go : (ms : List ℕ) → AtLeast 0 ms → IsIncreasing (unique ms)
    go [] h = h
    go (m ∷ ms) h = unique_after-Above m ms h.1

abbrev pub member : ℕ → List ℕ → Bool
member n [] = false
member n (m ∷ ms) = n == m || member n ms

member-append : (n : ℕ) (xs ys : List ℕ) → member n (xs ++ ys) ≡ (member n xs || member n ys)
member-append n [] ys = refl
member-append n (x ∷ xs) ys = ground (arith, member-append n xs ys)

member-insert : (n m : ℕ) (ms : List ℕ) → member n (insert m ms) ≡ (n == m || member n ms)
unfolding insert
member-insert n m [] = refl
member-insert n m (k ∷ ms) = ground (arith, member-insert n m ms)

member-sort : (n : ℕ) (ms : List ℕ) → member n (sort ms) ≡ member n ms
unfolding sort
member-sort n [] = refl
member-sort n (m ∷ ms) = ground (arith, member-insert n m (sort ms), member-sort n ms)

member-unique_after :
    (n last : ℕ) (ms : List ℕ)
    → (n == last || member n (unique_after last ms)) ≡ (n == last || member n ms)
unfolding unique_after
member-unique_after n last [] = refl
member-unique_after n last (m ∷ ms) =
    ground (arith, member-unique_after n last ms, member-unique_after n m ms)

member-unique : (n : ℕ) (ms : List ℕ) → member n (unique ms) ≡ member n ms
unfolding unique
member-unique n [] = refl
member-unique n (m ∷ ms) = member-unique_after n m ms

member-numbers_from : (n i k : ℕ) → member n (numbers_from i k) ≡ (leb i n && ltb n (i + k))
unfolding numbers_from
member-numbers_from n i zero = ground arith
member-numbers_from n i (suc k) = ground (arith, member-numbers_from n (i + 1) k)

-- The values that a part of the text asks for.
abbrev pub covers : Token → ℕ → Bool
covers (value m) n = n == m
covers (range a b) n = leb a n && leb n b
covers _ n = false

abbrev pub any_covers : List (List ℕ) → ℕ → Bool
any_covers [] n = false
any_covers (t ∷ ts) n = covers (read_token t) n || any_covers ts n

add_token_lem :
    (t : Token) (v w : Vectors) (n : ℕ)
    → add_token t v ≡ parsed w
    → member n w.value_vec ≡ (member n v.value_vec || covers t n)
unfolding add_token
add_token_lem frequency v w n h = ground arith
add_token_lem (frequency_range m) v w n h = ground arith
add_token_lem (range a b) v w n h = ground (
  arith,
  member-append n v.value_vec (numbers_from a (b + 1 - a)),
  member-numbers_from n a (b + 1 - a),
)
add_token_lem (value m) v w n h = ground (arith, member-append n v.value_vec (m ∷ []))
add_token_lem fault v w n h = ground arith

add_tokens_lem :
    (ts : List (List ℕ)) (v w : Vectors) (n : ℕ)
    → add_tokens ts v ≡ parsed w
    → member n w.value_vec ≡ (member n v.value_vec || any_covers ts n)
unfolding add_tokens
add_tokens_lem [] v w n h = ground arith
add_tokens_lem (t ∷ ts) v w n h =
    go (add_token (read_token t) v) refl h (λ v'. add_tokens_lem ts v' w n)
  where
    go :
        (o : Parsed)
        → add_token (read_token t) v ≡ o
        → (elim o [ parsed v' ↦ add_tokens ts v' | refused ↦ refused | thrown ↦ thrown ]) ≡ parsed w
        → ((v' : Vectors)
            → add_tokens ts v' ≡ parsed w
            → member n w.value_vec ≡ (member n v'.value_vec || any_covers ts n))
        → member n w.value_vec ≡ (member n v.value_vec || any_covers (t ∷ ts) n)
    go (parsed v') e k ih = ground (arith, add_token_lem (read_token t) v v' n e, ih v' k)
    go refused e k ih = ground arith
    go thrown e k ih = ground arith

-- What a sub-rule that was accepted holds.
abbrev pub HasValues : Field → List ℕ → Vectors → Type 0
HasValues field text v =
    IsIncreasing v.value_vec
    × (all (fits (limit field)) v.value_vec ≡ true)
    × (length v.frequency_vec ≤ 1)
    × ((v.value_vec ≡ []) ⊎ (v.frequency_vec ≡ []))
    × ((n : ℕ) → member n v.value_vec ≡ any_covers (split b',' (trim text)) n)

check_vectors_lem :
    (field : Field) (v w : Vectors)
    → check_vectors field v ≡ parsed w
    → (w ≡ v)
      × (all (fits (limit field)) v.value_vec ≡ true)
      × (length v.frequency_vec ≤ 1)
      × ((v.value_vec ≡ []) ⊎ (v.frequency_vec ≡ []))
unfolding check_vectors
check_vectors_lem field v w h = ground arith

-- If the sub-rule is accepted, then its values are increasing and within the bound of the field, it has
-- at most one frequency and not both, and a number is one of its values exactly when a part of the text
-- between commas is that number or a range that holds it.
pub parse_sub_rule-HasValues :
    (field : Field) (text : List ℕ) (v : Vectors)
    → parse_sub_rule field text ≡ parsed v
    → HasValues field text v
unfolding parse_sub_rule
parse_sub_rule-HasValues field text v h =
    elim (Bool-cases (ltb 0 (length text) && all is_rule_char text)) [
      | inr e ↦ absurd (ground (arith, rw e at h))
      | inl e ↦ go (add_tokens (split b',' (trim text)) nothing) refl (rw e at h)
    ]
  where
    nothing : Vectors
    nothing = record { frequency_vec = []; value_vec = [] }

    go :
        (o : Parsed)
        → add_tokens (split b',' (trim text)) nothing ≡ o
        → (elim o [
          | parsed v ↦ check_vectors field (sorted_vectors v)
          | refused ↦ refused
          | thrown ↦ thrown
        ])
          ≡ parsed v
        → HasValues field text v
    go (parsed u) e k =
        let (q, fit, one, either) = check_vectors_lem field (sorted_vectors u) v k in
        rw q (
          unique-sort-IsIncreasing u.value_vec,
          fit,
          one,
          either,
          λ n.
              member-unique n (sort u.value_vec)
              ∙ member-sort n u.value_vec
              ∙ add_tokens_lem (split b',' (trim text)) nothing u n e,
        )
    go refused e k = absurd (ground arith)
    go thrown e k = absurd (ground arith)
