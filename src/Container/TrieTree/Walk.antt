-- ===== src/Container/TrieTree/Walk.antt =====
-- The loops of container_trie_tree.h over a key, against what the nodes hold at paths of slots.
use comm_libs.Common.{
  ℕ, zero, suc, ◌<◌, ◌≡◌, refl, sym, ap, subst, ◌∙◌, Option, none, some, List, [], ◌∷◌, arith,
  length, if◌then◌else◌, Bool-cases, ◌⊎◌, inl, inr, lt→ltb,
}
use comm_libs.Common.Access.{Access, done}
use comm_libs.Container.TrieTree.{
  TtNode, node, Slot, absent, child, Ret, success, tt_ekey, tt_eindex, tt_enotfound, emalloc,
  tt_dict_index, tt_dict_size, fresh_node, set_slot, find_from, insert_from, after_remove,
  remove_from,
}
use comm_libs.Container.TrieTree.Keys.{AllSlots, slots_of, same_slots, eq_of_same_slots}
use comm_libs.Container.TrieTree.Look.{look, look_slot, clean-look, fresh_look, write_below}

module _ {T : Type 0} where
  -- A loop that ends with this return value, and with a node that holds `v` at the path `ks` and what
  -- `n` holds at every other.
  abbrev pub Writes : Access (Ret × TtNode T) → Ret → TtNode T → List ℕ → Option T → Type 0
  Writes call ret n ks v =
      (n' : TtNode T) × (call ≡ done (ret, n'))
      × ((is : List ℕ) → look n' is ≡ (if same_slots ks is then v else look n is))

  at_end :
      (old new : Option T) (slots : ℕ → Slot T) (is : List ℕ)
      → look (node new slots) is ≡ (if same_slots [] is then new else look (node old slots) is)
  at_end old new slots [] = refl
  at_end old new slots (i ∷ is) = refl

  pub Slot-cases : (s : Slot T) → (s ≡ absent) ⊎ ((n : TtNode T) × (s ≡ child n))
  Slot-cases absent = inl refl
  Slot-cases (child n) = inr (n, refl)

  pub find_from-look :
      (cs : List ℕ) (n : TtNode T)
      → AllSlots cs
      → (ret : Ret) × (find_from cs n ≡ done (look n (slots_of cs), ret))
  unfolding find_from
  find_from-look [] (node d slots) h = (success, refl)
  find_from-look (c ∷ cs) (node d slots) h = elim (Slot-cases (slots (tt_dict_index c))) [
    | inl e ↦ (tt_enotfound, ground (arith, e, h.0))
    | inr (n, e) ↦ let (ret, f) = find_from-look cs n h.1 in (ret, ground (arith, e, h.0, f))
  ]

  insert_child :
      (element : T) (c : ℕ) (cs : List ℕ) (room : ℕ) (d : Option T) (slots : ℕ → Slot T)
      {n n' : TtNode T}
      → tt_dict_index c < tt_dict_size
      → slots (tt_dict_index c) ≡ child n
      → insert_from element cs room n ≡ done (success, n')
      → insert_from element (c ∷ cs) room (node d slots)
        ≡ done (success, node d (set_slot (tt_dict_index c) (child n') slots))
  unfolding insert_from
  insert_child element c cs room d slots h e f = ground (arith, e, f)

  insert_absent :
      (element : T) (c : ℕ) (cs : List ℕ) (left : ℕ) (d : Option T) (slots : ℕ → Slot T)
      {n' : TtNode T}
      → tt_dict_index c < tt_dict_size
      → slots (tt_dict_index c) ≡ absent
      → insert_from element cs left fresh_node ≡ done (success, n')
      → insert_from element (c ∷ cs) (suc left) (node d slots)
        ≡ done (success, node d (set_slot (tt_dict_index c) (child n') slots))
  unfolding insert_from
  insert_absent element c cs left d slots h e f = ground (arith, e, f)

  pub insert_from-look :
      (element : T) (cs : List ℕ) (room : ℕ) (n : TtNode T)
      → AllSlots cs
      → length cs < room
      → Writes (insert_from element cs room n) success n (slots_of cs) (some element)
  unfolding insert_from
  insert_from-look element cs zero n h enough = absurd (omega arith)
  insert_from-look element [] (suc room) (node none slots) h enough =
      (node (some element) slots, refl, at_end none (some element) slots)
  insert_from-look element [] (suc room) (node (some old) slots) h enough =
      (node (some element) slots, refl, at_end (some old) (some element) slots)
  insert_from-look element (c ∷ cs) (suc left) (node d slots) h enough =
      elim (Slot-cases (slots (tt_dict_index c))) [
        | inl e ↦
            let (n', f, same) = insert_from-look element cs left fresh_node h.1 (omega arith) in
            (
              _,
              insert_absent element c cs left d slots h.0 e f,
              write_below d slots (child n') (tt_dict_index c) (slots_of cs) (some element) h.0
                  (λ js. same js ∙ rw (e, fresh_look js)),
            )
        | inr (n, e) ↦
            let (n', f, same) = insert_from-look element cs (suc left) n h.1 (omega arith) in
            (
              _,
              insert_child element c cs (suc left) d slots h.0 e f,
              write_below d slots (child n') (tt_dict_index c) (slots_of cs) (some element) h.0
                  (λ js. same js ∙ rw e),
            )
      ]

  -- What `remove` returns where the key holds this.
  abbrev pub ret_of : Option T → Ret
  ret_of none = tt_enotfound
  ret_of (some d) = success

  after_remove-look :
      (ret : Ret) (n : TtNode T) (is : List ℕ) → look_slot (after_remove ret n) is ≡ look n is
  after_remove-look success n is = clean-look n is
  after_remove-look tt_ekey n is = refl
  after_remove-look tt_eindex n is = refl
  after_remove-look tt_enotfound n is = refl
  after_remove-look emalloc n is = refl

  remove_child :
      (c : ℕ) (cs : List ℕ) (d : Option T) (slots : ℕ → Slot T) {n n' : TtNode T} (ret : Ret)
      → tt_dict_index c < tt_dict_size
      → slots (tt_dict_index c) ≡ child n
      → remove_from cs n ≡ done (ret, n')
      → remove_from (c ∷ cs) (node d slots)
        ≡ done (ret, node d (set_slot (tt_dict_index c) (after_remove ret n') slots))
  unfolding remove_from
  remove_child c cs d slots ret h e f = ground (arith, e, f)

  remove_absent :
      (c : ℕ) (cs : List ℕ) (d : Option T) (slots : ℕ → Slot T)
      → tt_dict_index c < tt_dict_size
      → slots (tt_dict_index c) ≡ absent
      → remove_from (c ∷ cs) (node d slots) ≡ done (tt_enotfound, node d slots)
  unfolding remove_from
  remove_absent c cs d slots h e = ground (arith, e)

  look_below :
      (c : ℕ) (cs : List ℕ) (d : Option T) (slots : ℕ → Slot T)
      → tt_dict_index c < tt_dict_size
      → look (node d slots) (slots_of (c ∷ cs)) ≡ look_slot (slots (tt_dict_index c)) (slots_of cs)
  look_below c cs d slots h = rw (lt→ltb (tt_dict_index c) tt_dict_size h)

  erase_nothing :
      (n : TtNode T) (ks : List ℕ)
      → look n ks ≡ none
      → (is : List ℕ) → look n is ≡ (if same_slots ks is then none else look n is)
  erase_nothing n ks h is = elim (Bool-cases (same_slots ks is)) [
    | inl e ↦ rw e (subst (λ k. look n k ≡ none) (eq_of_same_slots ks is e) h)
    | inr e ↦ rw e
  ]

  pub remove_from-look :
      (cs : List ℕ) (n : TtNode T)
      → AllSlots cs
      → Writes (remove_from cs n) (ret_of (look n (slots_of cs))) n (slots_of cs) none
  unfolding remove_from
  remove_from-look [] (node none slots) h = (node none slots, refl, at_end none none slots)
  remove_from-look [] (node (some d) slots) h = (node none slots, refl, at_end (some d) none slots)
  remove_from-look (c ∷ cs) (node d slots) h = elim (Slot-cases (slots (tt_dict_index c))) [
    | inl e ↦
        let nothing = look_below c cs d slots h.0 ∙ rw e in
        (
          node d slots,
          remove_absent c cs d slots h.0 e ∙ ap (λ x. done (ret_of x, node d slots)) (sym nothing),
          erase_nothing (node d slots) (slots_of (c ∷ cs)) nothing,
        )
    | inr (n, e) ↦
        let ret : Ret = ret_of (look n (slots_of cs)) in
        let (n', f, same) = remove_from-look cs n h.1 in
        let s' = after_remove ret n' in
        let held = look_below c cs d slots h.0 ∙ rw e in
        (
          node d (set_slot (tt_dict_index c) s' slots),
          remove_child c cs d slots ret h.0 e f
              ∙ ap (λ x. done (ret_of x, node d (set_slot (tt_dict_index c) s' slots))) (sym held),
          write_below d slots s' (tt_dict_index c) (slots_of cs) none h.0
              (λ js. after_remove-look ret n' js ∙ same js ∙ rw e),
        )
  ]
