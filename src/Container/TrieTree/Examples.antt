-- ===== src/Container/TrieTree/Examples.antt =====
-- Runs of container_trie_tree.h with the keys "ab", "AB" and "a_".
use comm_libs.Common.{ℕ, ◌≡◌, refl, true, none, some, List, [], ◌∷◌, arith}
use comm_libs.Common.Access.{done, outside}
use comm_libs.Container.TrieTree.{
  TrieTree, Ret, success, emalloc, tt_enotfound, create, insert, remove, find, set_ret,
  tt_dict_index, tt_default_max_key_length,
}
use comm_libs.Container.TrieTree.Keys.{slots_of}
use comm_libs.Container.TrieTree.Look.{look}
use comm_libs.Container.TrieTree.Refinement.{Holds, IsKey, put, operations-Hold, create-Holds}
use comm_libs.Container.TrieTree.Failure.{insert_failure-Holds}

abbrev ab : List ℕ
ab = b'a' ∷ b'b' ∷ []

abbrev new_tree : TrieTree ℕ
unfolding create
new_tree = create success tt_default_max_key_length

ab-IsKey : IsKey ab new_tree
unfolding create tt_dict_index
ab-IsKey = (omega arith, omega arith, omega arith)

operations-Hold_example :
    ((t' : TrieTree ℕ) × (insert 7 ab 3 new_tree ≡ done (true, t'))
      × Holds t' (put (slots_of ab) (some 7) (λ is. none)))
    × ((t' : TrieTree ℕ) × (remove ab new_tree ≡ done (tt_enotfound, t'))
        × Holds t' (put (slots_of ab) none (λ is. none)))
    × ((ret : Ret) × (find ab new_tree ≡ done (none, set_ret ret new_tree)))
unfolding create
operations-Hold_example =
    operations-Hold 7 ab 3 new_tree (λ is. none) ab-IsKey (omega arith)
      (create-Holds success tt_default_max_key_length)

abbrev no_memory : TrieTree ℕ
no_memory = set_ret emalloc new_tree

insert_failure-Holds_example :
    Holds no_memory (look new_tree.root) × (no_memory.count ≡ new_tree.count)
unfolding create insert tt_dict_index
insert_failure-Holds_example = insert_failure-Holds 7 ab 0 new_tree no_memory refl

-- No node is reached before the underscore.
underscore_second : find (b'a' ∷ b'_' ∷ []) new_tree ≡ done (none, set_ret tt_enotfound new_tree)
unfolding create find tt_dict_index
underscore_second = refl

-- The slot of the underscore is behind the last.
underscore_first : find (b'_' ∷ []) new_tree ≡ outside
unfolding create find tt_dict_index
underscore_first = refl
