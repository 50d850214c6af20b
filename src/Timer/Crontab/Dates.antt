-- ===== src/Timer/Crontab/Dates.antt =====
-- What `Next` of a sub-rule of timer_schedue_crontab.cc returns.
use comm_libs.Common.{
  ℕ, ◌≤◌, ◌<◌, ◌≡◌, ◌≢◌, refl, ◌⊎◌, inl, inr, Bool, true, false, none, some, List, [], ◌∷◌, arith,
  Bool-cases, Option-cases,
}
use comm_libs.Integer.{ℤ, pos, ◌+ℤ◌, ltb_ℤ}
use comm_libs.Timer.Crontab.{
  Field, SubRule, year, month, day_of_month, week, day_of_week, hour, minute, success, buckle,
  rule_invalid, first_above, next_of_values, sub_next, sub_valid, wrap, second,
}
use comm_libs.Timer.Crontab.Values.{IsIncreasing, Above, member}

-- `n` is in the list, and no number of the list that passes the test is below it.
abbrev pub IsLeastOf : (ℕ → Bool) → List ℕ → ℕ → Type 0
IsLeastOf p ns n =
    (member n ns ≡ true) × (p n ≡ true) × ((m : ℕ) → member m ns ≡ true → p m ≡ true → n ≤ m)

Above-member : (last m : ℕ) (ns : List ℕ) → Above last ns → member m ns ≡ true → last < m
Above-member last m [] h k = absurd (ground arith)
Above-member last m (n ∷ ns) h k = ground (arith, Above-member n m ns h.1)

Above-IsIncreasing : (last : ℕ) (ns : List ℕ) → Above last ns → IsIncreasing ns
Above-IsIncreasing last [] h = h
Above-IsIncreasing last (n ∷ ns) h = h.1

first_above_lem :
    (curr : ℤ) (ns : List ℕ)
    → IsIncreasing ns
    → ((first_above curr ns ≡ none) × ((m : ℕ) → member m ns ≡ true → ltb_ℤ curr (pos m) ≡ false))
      ⊎ ((n : ℕ) × (first_above curr ns ≡ some n) × IsLeastOf (λ m. ltb_ℤ curr (pos m)) ns n)
unfolding first_above
first_above_lem curr [] h = inl (refl, λ m k. ground arith)
first_above_lem curr (n ∷ ns) h = elim (Bool-cases (ltb_ℤ curr (pos n))) [
  | inl e ↦ inr (n, rw e refl, (ground arith, e, λ m k l. ground (arith, Above-member n m ns h)))
  | inr e ↦ elim (first_above_lem curr ns (Above-IsIncreasing n ns h)) [
    | inl (q, k) ↦ inl (rw e q, λ m l. ground (arith, k m))
    | inr (j, q, (mem, up, least)) ↦
        inr (j, rw e q, (ground arith, up, λ m k l. ground (arith, least m)))
  ]
]

next_of_values-none :
    (curr : ℤ) (head : ℕ) (values : List ℕ)
    → first_above curr values ≡ none
    → next_of_values curr head values ≡ (buckle, pos head)
unfolding next_of_values
next_of_values-none curr head values r = rw (next_of_values, r) refl

next_of_values-some :
    (curr : ℤ) (head : ℕ) (values : List ℕ) {n : ℕ}
    → first_above curr values ≡ some n
    → next_of_values curr head values ≡ (success, pos n)
unfolding next_of_values
next_of_values-some curr head values {n} r = rw (next_of_values, r) refl

-- For a sub-rule without a frequency and with increasing values, of which there is at least one,
-- `Next` gives the least value above the current one and returns success, or, if there is none,
-- gives the least value of all and returns the code for a carry.
pub sub_next-values :
    (rule : SubRule) (v : ℕ) (vs : List ℕ) (curr before : ℤ)
    → rule.frequency_vec ≡ []
    → rule.value_vec ≡ v ∷ vs
    → IsIncreasing (v ∷ vs)
    → ((n : ℕ) × (sub_next rule curr before ≡ (success, pos n))
        × IsLeastOf (λ m. ltb_ℤ curr (pos m)) (v ∷ vs) n)
      ⊎ ((n : ℕ) × (sub_next rule curr before ≡ (buckle, pos n))
          × IsLeastOf (λ m. true) (v ∷ vs) n
          × ((m : ℕ) → member m (v ∷ vs) ≡ true → ltb_ℤ curr (pos m) ≡ false))
unfolding sub_next
sub_next-values rule v vs curr before f q h = elim (first_above_lem curr (v ∷ vs) h) [
  | inl (r, none_above) ↦ inr (
    v,
    rw (f, q) (next_of_values-none curr v (v ∷ vs) r),
    (ground arith, refl, λ m k l. ground (arith, Above-member v m vs h)),
    none_above,
  )
  | inr (j, r, least) ↦ inl (j, rw (f, q) (next_of_values-some curr v (v ∷ vs) r), least)
]

wrap-valid : (field : Field) (n : ℤ) → (wrap field n).0 ≢ rule_invalid
unfolding wrap
wrap-valid year n h = ground arith
wrap-valid month n h = ground arith
wrap-valid day_of_month n h = ground arith
wrap-valid week n h = ground arith
wrap-valid day_of_week n h = ground arith
wrap-valid hour n h = ground arith
wrap-valid minute n h = ground arith
wrap-valid second n h = ground arith

next_of_values-valid :
    (curr : ℤ) (head : ℕ) (values : List ℕ) → (next_of_values curr head values).0 ≢ rule_invalid
next_of_values-valid curr head values h = elim (Option-cases (first_above curr values)) [
  | inl r ↦ ground (arith, next_of_values-none curr head values r)
  | inr (n, r) ↦ ground (arith, next_of_values-some curr head values r)
]

-- A sub-rule that is valid never gives an error.
pub sub_next-valid :
    (rule : SubRule) (curr before : ℤ)
    → sub_valid rule ≡ true
    → (sub_next rule curr before).0 ≢ rule_invalid
unfolding sub_next
sub_next-valid rule curr before = go rule.frequency_vec rule.value_vec
  where
    go :
        (fs vs : List ℕ)
        → sub_valid (record { field = rule.field; frequency_vec = fs; value_vec = vs }) ≡ true
        → (sub_next
            (record { field = rule.field; frequency_vec = fs; value_vec = vs })
            curr
            before).0
          ≢ rule_invalid
    go (f ∷ fs) vs h = wrap-valid rule.field (curr +ℤ pos f)
    go [] (v ∷ vs) h = next_of_values-valid curr v (v ∷ vs)
    go [] [] h = absurd (ground arith)
