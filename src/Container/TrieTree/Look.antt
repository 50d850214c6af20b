-- ===== src/Container/TrieTree/Look.antt =====
-- What a node of container_trie_tree.h holds at a path of slots.
use comm_libs.Common.{
  ℕ, zero, suc, ◌<◌, ◌≡◌, refl, sym, subst, ◌∙◌, true, Option, none, some, List, [], ◌∷◌, arith,
  if◌then◌else◌, ◌==◌, ltb, ==_iff, Bool-cases, inl, inr, lt→ltb, ltb→lt,
}
use comm_libs.Container.TrieTree.{
  TtNode, node, Slot, absent, child, tt_dict_size, fresh_node, set_slot, is_absent, all_absent,
  clean,
}
use comm_libs.Container.TrieTree.Keys.{same_slots}

module _ {T : Type 0} where
  abbrev pub look : TtNode T → List ℕ → Option T
  look (node d slots) [] = d
  look (node d slots) (i ∷ is) =
      if ltb i tt_dict_size then elim (slots i) [ absent ↦ none | child n ↦ look n is ] else none

  abbrev pub look_slot : Slot T → List ℕ → Option T
  look_slot s is = elim s [ absent ↦ none | child n ↦ look n is ]

  look_step :
      (d : Option T) (slots : ℕ → Slot T) (i : ℕ) (is : List ℕ)
      → look (node d slots) (i ∷ is) ≡ (if ltb i tt_dict_size then look_slot (slots i) is else none)
  look_step d slots i is = refl

  absent_look : (s : Slot T) (is : List ℕ) → is_absent s ≡ true → look_slot s is ≡ none
  absent_look absent is h = refl
  absent_look (child n) is h = cc

  all_absent_lem :
      (n i : ℕ) (slots : ℕ → Slot T) (is : List ℕ)
      → all_absent n slots ≡ true
      → i < n
      → look_slot (slots i) is ≡ none
  unfolding all_absent
  all_absent_lem zero i slots is h lt = absurd (omega arith)
  all_absent_lem (suc n) i slots is h lt = elim (Bool-cases (i == n)) [
    | inl e ↦
        subst (λ k. look_slot (slots k) is ≡ none) (sym ((==_iff i n).0 e))
          (absent_look (slots n) is (ground (arith, h)))
    | inr e ↦ all_absent_lem n i slots is (ground (arith, h)) (ground arith)
  ]

  unused_look :
      (slots : ℕ → Slot T) (is : List ℕ)
      → all_absent tt_dict_size slots ≡ true
      → look (node none slots) is ≡ none
  unused_look slots [] h = refl
  unused_look slots (i ∷ is) h = elim (Bool-cases (ltb i tt_dict_size)) [
    | inl e ↦ rw e (all_absent_lem tt_dict_size i slots is h (ltb→lt i tt_dict_size e))
    | inr e ↦ rw e
  ]

  -- What is cleaned away holds nothing.
  pub clean-look : (n : TtNode T) (is : List ℕ) → look_slot (clean n) is ≡ look n is
  clean-look (node (some d) slots) is = refl
  clean-look (node none slots) is = elim (Bool-cases (all_absent tt_dict_size slots)) [
    | inl unused ↦ rw unused (sym (unused_look slots is unused))
    | inr used ↦ rw used
  ]

  pub fresh_look : (is : List ℕ) → look fresh_node is ≡ none
  fresh_look [] = refl
  fresh_look (i ∷ is) = elim (Bool-cases (ltb i tt_dict_size)) [ inl e ↦ rw e | inr e ↦ rw e ]

  pub set_slot-look :
      (d : Option T) (slots : ℕ → Slot T) (s' : Slot T) (i j : ℕ) (js : List ℕ)
      → i < tt_dict_size
      → look (node d (set_slot i s' slots)) (j ∷ js)
        ≡ (if i == j then look_slot s' js else look (node d slots) (j ∷ js))
  set_slot-look d slots s' i j js h = elim (Bool-cases (i == j)) [
    | inl e ↦ let in_range : ltb j tt_dict_size ≡ true = ground (arith, h, e) in rw (in_range, e)
    | inr e ↦ rw e
  ]

  -- A write below one slot is a write at the paths through it.
  pub write_below :
      (d : Option T) (slots : ℕ → Slot T) (s' : Slot T) (i : ℕ) (ks : List ℕ) (v : Option T)
      → i < tt_dict_size
      → ((js : List ℕ) → look_slot s' js ≡ (if same_slots ks js then v else look_slot (slots i) js))
      → (is : List ℕ)
      → look (node d (set_slot i s' slots)) is
        ≡ (if same_slots (i ∷ ks) is then v else look (node d slots) is)
  write_below d slots s' i ks v h below [] = refl
  write_below d slots s' i ks v h below (j ∷ js) =
      set_slot-look d slots s' i j js h ∙ elim (Bool-cases (i == j)) [
        | inl e ↦ rw e (
            subst
              (λ k.
                look_slot s' js ≡ (if same_slots ks js then v else look (node d slots) (k ∷ js)))
              ((==_iff i j).0 e) (rw (lt→ltb i tt_dict_size h) (below js)))
        | inr e ↦ rw e
      ]
