-- ===== src/Container/TrieTree/Refinement.antt =====
-- container_trie_tree.h as a partial map from the slots that a key goes through.
use comm_libs.Common.{
  ℕ, ◌+◌, ◌-◌, ◌%◌, ◌^◌, ◌≤◌, ◌<◌, ◌≡◌, ap, ◌∙◌, true, false, Option, none, some, List, arith,
  length, if◌then◌else◌,
}
use comm_libs.Common.Access.{done}
use comm_libs.Container.TrieTree.{
  Ret, success, TrieTree, insert, remove, find, create, set_ret, is_bad_key, is_success,
}
use comm_libs.Container.TrieTree.Keys.{AllSlots, slots_of, same_slots}
use comm_libs.Container.TrieTree.Look.{look, fresh_look}
use comm_libs.Container.TrieTree.Walk.{find_from-look, insert_from-look, remove_from-look, ret_of}

module _ {T : Type 0} where
  abbrev pub put : List ℕ → Option T → (List ℕ → Option T) → List ℕ → Option T
  put ks v m is = if same_slots ks is then v else m is

  abbrev pub Holds : TrieTree T → (List ℕ → Option T) → Type 0
  Holds t m = (is : List ℕ) → look t.root is ≡ m is

  -- A key that is not empty, not too long, and has a slot for every byte.
  abbrev pub IsKey : List ℕ → TrieTree T → Type 0
  IsKey key t = (0 < length key) × (length key ≤ t.max_key_length) × AllSlots key

  good_key : (key : List ℕ) (t : TrieTree T) → IsKey key t → is_bad_key key t ≡ false
  good_key key t h = ground arith

  insert-Holds :
      (element : T) (key : List ℕ) (room : ℕ) (t : TrieTree T) (m : List ℕ → Option T)
      → IsKey key t
      → length key < room
      → Holds t m
      → (t' : TrieTree T) × (insert element key room t ≡ done (true, t'))
        × Holds t' (put (slots_of key) (some element) m)
  unfolding insert
  insert-Holds element key room t m k enough h =
      let (n', e, same) = insert_from-look element key room t.root k.2 enough in
      (
        record t { root = n'; last_return = success; count = (t.count + 1) % 2 ^ 32 },
        rw (good_key key t k, e),
        λ is. same is ∙ ap (λ x. if same_slots (slots_of key) is then some element else x) (h is),
      )

  abbrev count_after : Ret → TrieTree T → ℕ
  count_after ret t = if is_success ret then (t.count + 2 ^ 32 - 1) % 2 ^ 32 else t.count

  remove-Holds :
      (key : List ℕ) (t : TrieTree T) (m : List ℕ → Option T)
      → IsKey key t
      → Holds t m
      → (t' : TrieTree T) × (remove key t ≡ done (ret_of (m (slots_of key)), t'))
        × Holds t' (put (slots_of key) none m)
  unfolding remove
  remove-Holds key t m k h =
      let (n', e, same) = remove_from-look key t.root k.2 in
      let ret : Ret = ret_of (m (slots_of key)) in
      let e' = e ∙ ap (λ x. done (ret_of x, n')) (h (slots_of key)) in
      (
        record t { root = n'; last_return = ret; count = count_after ret t },
        rw (good_key key t k, e'),
        λ is. same is ∙ ap (λ x. if same_slots (slots_of key) is then none else x) (h is),
      )

  find-Holds :
      (key : List ℕ) (t : TrieTree T) (m : List ℕ → Option T)
      → IsKey key t
      → Holds t m
      → (ret : Ret) × (find key t ≡ done (m (slots_of key), set_ret ret t))
  unfolding find
  find-Holds key t m k h =
      let (ret, e) = find_from-look key t.root k.2 in
      let e' = e ∙ ap (λ x. done (x, ret)) (h (slots_of key)) in (ret, rw (good_key key t k, e'))

  -- On a tree that holds a partial map from paths of slots, with a key that is not empty, not too long
  -- and has a slot for every byte: where `Malloc` succeeds once more than the key has bytes, `insert`
  -- returns the element and writes the map at the key's path; `remove` erases the map there and
  -- returns success exactly where the map had an element; `find` gives what the map has there. No
  -- call leaves the slots.
  pub operations-Hold :
      (element : T) (key : List ℕ) (room : ℕ) (t : TrieTree T) (m : List ℕ → Option T)
      → IsKey key t
      → length key < room
      → Holds t m
      → ((t' : TrieTree T) × (insert element key room t ≡ done (true, t'))
          × Holds t' (put (slots_of key) (some element) m))
        × ((t' : TrieTree T) × (remove key t ≡ done (ret_of (m (slots_of key)), t'))
            × Holds t' (put (slots_of key) none m))
        × ((ret : Ret) × (find key t ≡ done (m (slots_of key), set_ret ret t)))
  operations-Hold element key room t m k enough h = (
    insert-Holds element key room t m k enough h,
    remove-Holds key t m k h,
    find-Holds key t m k h,
  )

  -- A new tree holds the empty map.
  pub create-Holds : (garbage : Ret) (max_len : ℕ) → Holds (create garbage max_len) (λ is. none)
  unfolding create
  create-Holds garbage max_len is = fresh_look is
