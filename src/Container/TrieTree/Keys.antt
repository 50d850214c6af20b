-- ===== src/Container/TrieTree/Keys.antt =====
-- The bytes of a key of container_trie_tree.h as slots: bit 5 is cleared, and a byte from 128 on is
-- refused.
use comm_libs.Common.{
  ℕ, zero, suc, ◌-◌, ◌%◌, ◌/◌, ◌≤◌, ◌<◌, ◌≡◌, refl, Bool, true, false, ◌&&◌, List, [], ◌∷◌, arith,
  if◌then◌else◌, ◌==◌, ltb, ==_iff, ltb→lt, Bool-cases, ltb_false→le, ◌⊎◌, inl, inr,
}
use comm_libs.Container.TrieTree.{tt_dict_index, tt_dict_size}

abbrev pub fold_case : ℕ → ℕ
fold_case c = if c / 32 % 2 == 1 then c - 32 else c

all_below : ℕ → (ℕ → Bool) → Bool
all_below zero test = true
all_below (suc n) test = test n && all_below n test

all_below_lem : (n : ℕ) (test : ℕ → Bool) (x : ℕ) → all_below n test ≡ true → x < n → test x ≡ true
unfolding all_below
all_below_lem zero test x holds h = absurd (omega arith)
all_below_lem (suc n) test x holds h = ground (arith, all_below_lem n test x)

abbrev low_test : ℕ → Bool
low_test c = tt_dict_index c == fold_case c

abbrev high_test : ℕ → Bool
high_test c = if ltb c 128 then true else ltb 95 (tt_dict_index c)

index_table : all_below 128 low_test ≡ true
unfolding all_below tt_dict_index
index_table = refl

high_table : all_below 256 high_test ≡ true
unfolding all_below tt_dict_index
high_table = refl

high_index : (c : ℕ) → ltb c 128 ≡ false → high_test c ≡ true → 95 < tt_dict_index c
high_index c high holds = ground (arith, high, holds)

-- The index of a byte below 128 is the byte without its bit 5, so that a letter has one index for both
-- its cases; the index of a byte from 128 on is above 95.
pub tt_dict_index_lem :
    (c : ℕ)
    → c < 256
    → ((c < 128) × (tt_dict_index c ≡ fold_case c)) ⊎ ((128 ≤ c) × (95 < tt_dict_index c))
tt_dict_index_lem c h = elim (Bool-cases (ltb c 128)) [
  | inl low ↦
      let below = ltb→lt c 128 low in
      inl (below, (==_iff _ _).0 (all_below_lem 128 low_test c index_table below))
  | inr high ↦
      inr (ltb_false→le c 128 high, high_index c high (all_below_lem 256 high_test c high_table h))
]

-- Every byte of the key has a slot.
abbrev pub AllSlots : List ℕ → Type 0
AllSlots [] = Unit
AllSlots (c ∷ cs) = (tt_dict_index c < tt_dict_size) × AllSlots cs

abbrev pub slots_of : List ℕ → List ℕ
slots_of [] = []
slots_of (c ∷ cs) = tt_dict_index c ∷ slots_of cs

abbrev pub same_slots : List ℕ → List ℕ → Bool
same_slots [] [] = true
same_slots [] (j ∷ js) = false
same_slots (i ∷ is) [] = false
same_slots (i ∷ is) (j ∷ js) = i == j && same_slots is js

pub same_slots_self : (is : List ℕ) → same_slots is is ≡ true
same_slots_self [] = refl
same_slots_self (i ∷ is) = ground (arith, same_slots_self is)

pub eq_of_same_slots : (is js : List ℕ) → same_slots is js ≡ true → is ≡ js
eq_of_same_slots [] [] h = refl
eq_of_same_slots [] (j ∷ js) h = cc
eq_of_same_slots (i ∷ is) [] h = cc
eq_of_same_slots (i ∷ is) (j ∷ js) h =
    let tail = eq_of_same_slots is js (ground (arith, h)) in
    let head : i ≡ j = ground (arith, h) in cc (head, tail)
