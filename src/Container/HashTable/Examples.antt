-- ===== src/Container/HashTable/Examples.antt =====
-- Runs of the table of container_hash_table.h: elements that are their own first byte, in four slots.
use comm_libs.Common.{ℕ, ◌%◌, ◌≡◌, refl, none, some, List, [], ◌∷◌, arith, if◌then◌else◌, ◌==◌}
use comm_libs.Common.Access.{done, outside}
use comm_libs.Container.HashTable.{
  success, ehashindex, Table, create, set_ret, insert_at, remove_at, find_at, find, bkdr_hash,
}
use comm_libs.Container.HashTable.Content.{Refines}
use comm_libs.Container.HashTable.Refinement.{
  Command, inserted, removed, run, effect, calls-find, create-Refines,
}
use comm_libs.Container.HashTable.Empty.{index_beyond}

abbrev same : ℕ → ℕ
same x = x

abbrev fresh : Table ℕ
unfolding create
fresh = create success 4

-- The keys 2 and 6 share a slot.
abbrev calls : List (Command ℕ ℕ)
calls = inserted 7 2 ∷ inserted 8 6 ∷ inserted 9 1 ∷ removed 1 ∷ []

fresh-Refines : Refines same 4 fresh (λ j. none)
unfolding create
fresh-Refines = create-Refines same success 4 (omega arith)

calls-find_example :
    (t' : Table ℕ) × (run same same calls fresh ≡ done t')
    × Refines same 4 t' (effect same 4 calls (λ j. none))
    × (find same same 2 t' ≡ done (effect same 4 calls (λ j. none) (same 2 % 4), t'))
calls-find_example =
    calls-find same same calls 2 fresh (λ j. none) (omega arith) fresh-Refines (omega arith)

calls_meaning : effect same 4 calls (λ j. none) 2 ≡ some 8
calls_meaning = refl

index_beyond_example :
    (insert_at same 7 4 fresh ≡ (if 4 == 4 then outside else done (none, set_ret ehashindex fresh)))
    × (remove_at same 4 fresh ≡ (if 4 == 4 then outside else done (set_ret ehashindex fresh)))
    × (find_at same 4 fresh ≡ (if 4 == 4 then outside else done (none, set_ret ehashindex fresh)))
unfolding create
index_beyond_example = index_beyond same 7 4 fresh fresh-Refines.valid (omega arith)

-- The hash of "ab", as 97 * 31 + 98.
bkdr_hash_ab : bkdr_hash (some (b'a' ∷ b'b' ∷ 0 ∷ [])) ≡ 3105
unfolding bkdr_hash
bkdr_hash_ab = refl
