-- ===== src/Parser/Tvl/Bound.antt =====
-- The bound on the number of elements in parser_tvl.cc, and what comes out of a sequence.
use comm_libs.Common.{
  ℕ, ◌≤◌, ◌<◌, ◌≡◌, refl, List, [], ◌∷◌, ◌++◌, length, arith, length-append, leb, false,
}
use comm_libs.Parser.Tvl.{
  max_tvl_element, push_head, push_back, push_head_object, push_back_object, pop_head, pop_back,
}

abbrev pub IsBounded : List (List ℕ) → Type 0
IsBounded vec = length vec ≤ max_tvl_element

pop_back-snoc : (vec : List (List ℕ)) (text : List ℕ) → pop_back (vec ++ text ∷ []) ≡ (text, vec)
unfolding pop_back
pop_back-snoc [] text = refl
pop_back-snoc (v ∷ []) text = refl
pop_back-snoc (v ∷ w ∷ vec) text = rw (pop_back-snoc (w ∷ vec) text) refl

length-pop_back : (vec : List (List ℕ)) → length (pop_back vec).1 ≤ length vec
unfolding pop_back
length-pop_back [] = omega arith
length-pop_back (v ∷ []) = omega arith
length-pop_back (v ∷ w ∷ vec) = omega (arith, length-pop_back (w ∷ vec))

length-pop_head : (vec : List (List ℕ)) → length (pop_head vec).1 ≤ length vec
unfolding pop_head
length-pop_head [] = omega arith
length-pop_head (v ∷ vec) = omega arith

-- No operation takes a sequence of at most 9999 elements above that.
pub operations-IsBounded :
    (text : List ℕ) (other vec : List (List ℕ))
    → IsBounded vec
    → IsBounded (push_head other vec)
      × IsBounded (push_back other vec)
      × IsBounded (push_head_object text vec)
      × IsBounded (push_back_object text vec)
      × IsBounded (pop_head vec).1
      × IsBounded (pop_back vec).1
unfolding push_head push_back push_head_object push_back_object
operations-IsBounded text other vec h = (
  ground (arith, length-append other vec),
  ground (arith, length-append vec other),
  ground arith,
  ground (arith, length-append vec (text ∷ [])),
  omega (arith, length-pop_head vec),
  omega (arith, length-pop_back vec),
)

-- Below 9999 elements, what is pushed at one end is what is popped there, and the rest is as it was; at
-- 9999 a push changes nothing.
pub pop-push_object :
    (text : List ℕ) (vec : List (List ℕ))
    → (length vec < max_tvl_element
        → (pop_head (push_head_object text vec) ≡ (text, vec))
          × (pop_back (push_back_object text vec) ≡ (text, vec)))
      × (max_tvl_element ≤ length vec
          → (push_head_object text vec ≡ vec) × (push_back_object text vec ≡ vec))
unfolding push_head_object push_back_object pop_head
pop-push_object text vec = (
  λ h.
      let room : leb 9999 (length vec) ≡ false = ground arith in
      rw room (refl, pop_back-snoc vec text),
  λ h. (ground arith, ground arith),
)
