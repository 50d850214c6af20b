-- ===== src/Container/TrieTree/Failure.antt =====
-- What an `insert` of container_trie_tree.h that fails leaves in the tree.
use comm_libs.Common.{
  ℕ, zero, suc, ◌<◌, ◌≡◌, refl, subst, ◌∙◌, true, false, Option, none, some, List, [], ◌∷◌, ◌==◌,
  ltb, ==_iff, Bool-cases, inl, inr, lt→ltb, ltb→lt,
}
use comm_libs.Common.Access.{Access, done, outside}
use comm_libs.Container.TrieTree.{
  TtNode, node, Slot, absent, child, Ret, success, tt_ekey, tt_eindex, tt_enotfound, emalloc,
  tt_dict_index, tt_dict_size, fresh_node, set_slot, clean, put_below, insert_from, TrieTree,
  insert, finish_insert, is_bad_key, set_ret,
}
use comm_libs.Container.TrieTree.Look.{look, look_slot, clean-look, fresh_look, set_slot-look}
use comm_libs.Container.TrieTree.Refinement.{Holds}

module _ {T : Type 0} where
  -- Where the loop fails, the node holds what it held.
  abbrev KeepsContent : Access (Ret × TtNode T) → TtNode T → Type 0
  KeepsContent outside n = Unit
  KeepsContent (done (success, n')) n = Unit
  KeepsContent (done (ret, n')) n = (is : List ℕ) → look n' is ≡ look n is

  same_write :
      (d : Option T) (slots : ℕ → Slot T) (s' : Slot T) (i : ℕ)
      → i < tt_dict_size
      → ((js : List ℕ) → look_slot s' js ≡ look_slot (slots i) js)
      → (is : List ℕ) → look (node d (set_slot i s' slots)) is ≡ look (node d slots) is
  same_write d slots s' i h same [] = refl
  same_write d slots s' i h same (j ∷ js) =
      set_slot-look d slots s' i j js h ∙ elim (Bool-cases (i == j)) [
        | inl e ↦ rw e (
            subst (λ k. look_slot s' js ≡ look (node d slots) (k ∷ js)) ((==_iff i j).0 e)
              (rw (lt→ltb i tt_dict_size h) (same js)))
        | inr e ↦ rw e
      ]

  put_below-KeepsContent :
      (call : Access (Ret × TtNode T)) (d : Option T) (slots : ℕ → Slot T) (i : ℕ) (n : TtNode T)
      → i < tt_dict_size
      → ((js : List ℕ) → look n js ≡ look_slot (slots i) js)
      → KeepsContent call n
      → KeepsContent (put_below d slots i call) (node d slots)
  put_below-KeepsContent outside d slots i n h below keeps = tt
  put_below-KeepsContent (done (success, n')) d slots i n h below keeps = tt
  put_below-KeepsContent (done (tt_ekey, n')) d slots i n h below keeps =
      same_write d slots (child n') i h (λ js. keeps js ∙ below js)
  put_below-KeepsContent (done (tt_eindex, n')) d slots i n h below keeps =
      same_write d slots (child n') i h (λ js. keeps js ∙ below js)
  put_below-KeepsContent (done (tt_enotfound, n')) d slots i n h below keeps =
      same_write d slots (child n') i h (λ js. keeps js ∙ below js)
  put_below-KeepsContent (done (emalloc, n')) d slots i n h below keeps =
      same_write d slots (clean n') i h (λ js. clean-look n' js ∙ keeps js ∙ below js)

  insert_slot :
      (element : T) (c : ℕ) (cs : List ℕ) (room : ℕ) (d : Option T) (slots : ℕ → Slot T)
      (s : Slot T)
      → ((n : TtNode T) (left : ℕ) → KeepsContent (insert_from element cs left n) n)
      → slots (tt_dict_index c) ≡ s
      → ltb tt_dict_size (tt_dict_index c) ≡ false
      → ltb (tt_dict_index c) tt_dict_size ≡ true
      → KeepsContent (insert_from element (c ∷ cs) room (node d slots)) (node d slots)
  unfolding insert_from
  insert_slot element c cs zero d slots absent ih e small got = rw (small, got, e) (λ is. refl)
  insert_slot element c cs (suc left) d slots absent ih e small got =
      rw (small, got, e)
        (put_below-KeepsContent (insert_from element cs left fresh_node) d slots (tt_dict_index c)
          fresh_node (ltb→lt (tt_dict_index c) tt_dict_size got) (λ js. rw e (fresh_look js))
          (ih fresh_node left))
  insert_slot element c cs room d slots (child n) ih e small got =
      rw (small, got, e)
        (put_below-KeepsContent (insert_from element cs room n) d slots (tt_dict_index c) n
          (ltb→lt (tt_dict_index c) tt_dict_size got) (λ js. rw e) (ih n room))

  insert_step :
      (element : T) (c : ℕ) (cs : List ℕ) (room : ℕ) (d : Option T) (slots : ℕ → Slot T)
      → ((n : TtNode T) (left : ℕ) → KeepsContent (insert_from element cs left n) n)
      → KeepsContent (insert_from element (c ∷ cs) room (node d slots)) (node d slots)
  unfolding insert_from
  insert_step element c cs room d slots ih =
      elim (Bool-cases (ltb tt_dict_size (tt_dict_index c))) [
        | inl refused ↦ rw refused (λ is. refl)
        | inr small ↦ elim (Bool-cases (ltb (tt_dict_index c) tt_dict_size)) [
          | inl got ↦
              insert_slot element c cs room d slots (slots (tt_dict_index c)) ih refl small got
          | inr behind ↦ rw (small, behind) tt
        ]
      ]

  insert_from-KeepsContent :
      (element : T) (cs : List ℕ) (room : ℕ) (n : TtNode T)
      → KeepsContent (insert_from element cs room n) n
  unfolding insert_from
  insert_from-KeepsContent element [] zero (node none slots) = tt
  insert_from-KeepsContent element [] (suc room) (node none slots) = tt
  insert_from-KeepsContent element [] zero (node (some old) slots) = tt
  insert_from-KeepsContent element [] (suc room) (node (some old) slots) = tt
  insert_from-KeepsContent element (c ∷ cs) room (node d slots) =
      insert_step element c cs room d slots (λ n left. insert_from-KeepsContent element cs left n)

  kept :
      (ret : Ret) (n : TtNode T) (t t' : TrieTree T)
      → ((is : List ℕ) → look n is ≡ look t.root is)
      → record t { root = n; last_return = ret; count = t.count } ≡ t'
      → Holds t' (look t.root) × (t'.count ≡ t.count)
  kept ret n t t' keeps q = subst (λ u. Holds u (look t.root) × (u.count ≡ t.count)) q (keeps, refl)

  failed :
      (call : Access (Ret × TtNode T)) (t t' : TrieTree T)
      → KeepsContent call t.root
      → finish_insert t call ≡ done (false, t')
      → Holds t' (look t.root) × (t'.count ≡ t.count)
  failed outside t t' keeps e = cc
  failed (done (success, n)) t t' keeps e = cc
  failed (done (tt_ekey, n)) t t' keeps e = kept tt_ekey n t t' keeps (cc (e))
  failed (done (tt_eindex, n)) t t' keeps e = kept tt_eindex n t t' keeps (cc (e))
  failed (done (tt_enotfound, n)) t t' keeps e = kept tt_enotfound n t t' keeps (cc (e))
  failed (done (emalloc, n)) t t' keeps e = kept emalloc n t t' keeps (cc (e))

  -- Where `insert` returns a null pointer, for whatever key and however many calls of `Malloc` succeed,
  -- the tree holds what it held, and its count is what it was.
  pub insert_failure-Holds :
      (element : T) (key : List ℕ) (room : ℕ) (t t' : TrieTree T)
      → insert element key room t ≡ done (false, t')
      → Holds t' (look t.root) × (t'.count ≡ t.count)
  unfolding insert
  insert_failure-Holds element key room t t' e = elim (Bool-cases (is_bad_key key t)) [
    | inl bad ↦
        let q : set_ret tt_ekey t ≡ t' = cc (rw bad at e) in
        subst (λ u. Holds u (look t.root) × (u.count ≡ t.count)) q ((λ is. refl), refl)
    | inr good ↦
        failed (insert_from element key room t.root) t t'
          (insert_from-KeepsContent element key room t.root) (rw good at e)
  ]
