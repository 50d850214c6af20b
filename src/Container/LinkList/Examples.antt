-- ===== src/Container/LinkList/Examples.antt =====
-- Runs of the list of container_link_list.h: nodes at the addresses 1 to 3, and a pool that hands
-- out the address 4.
use comm_libs.Common.{ℕ, refl, Option, none, some, [], ◌∷◌, arith, if◌then◌else◌, ◌==◌}
use comm_libs.Container.LinkList.{
  Node, Store, LinkList, create, push_before, push_after, pop, popfront, popback, clear,
}
use comm_libs.Container.LinkList.Segment.{Cells, Represents, Gives}
use comm_libs.Container.LinkList.Pushes.{IsFresh, push_beside-Represents}
use comm_libs.Container.LinkList.Removal.{pop-Represents}
use comm_libs.Container.LinkList.Clear.{pop_ends-Represents, clear-Represents}

abbrev node : ℕ → ℕ → ℕ → Option (Node ℕ)
node element prev next = some (record { element = element; prev = prev; next = next })

abbrev three_nodes : Store ℕ
three_nodes p =
    if p == 1
    then node 7 0 2
    else if p == 2
    then node 8 1 3
    else if p == 3
    then node 9 2 0
    else none

abbrev three : LinkList ℕ
three = record { store = three_nodes; head = 1; tail = 3; count = 3 }

abbrev three_cells : Cells ℕ
three_cells = (1, 7) ∷ (2, 8) ∷ (3, 9) ∷ []

three-Represents : Represents three three_cells
three-Represents = record {
  linked = (refl, (refl, (refl, tt)));
  distinct = omega arith;
  at_head = refl;
  at_tail = refl;
  counted = refl;
}

abbrev pool : Store ℕ → ℕ
pool store = 4

abbrev stale_node : Node ℕ
stale_node = record { element = 0; prev = 0; next = 0 }

pool-IsFresh : IsFresh pool stale_node three_nodes
pool-IsFresh = ((λ e. absurd (omega arith)), refl)

push_beside-Represents_example :
    Gives (push_before pool stale_node 2 5 three) ((1, 7) ∷ (4, 5) ∷ (2, 8) ∷ (3, 9) ∷ [])
    × Gives (push_after pool stale_node 2 5 three) ((1, 7) ∷ (2, 8) ∷ (4, 5) ∷ (3, 9) ∷ [])
push_beside-Represents_example =
    push_beside-Represents pool stale_node ((1, 7) ∷ []) ((3, 9) ∷ []) 2 8 5 three pool-IsFresh
      three-Represents

pop-Represents_example : Gives (pop 2 three) ((1, 7) ∷ (3, 9) ∷ [])
pop-Represents_example = pop-Represents ((1, 7) ∷ []) ((3, 9) ∷ []) 2 8 three three-Represents

pop_ends-Represents_example :
    Gives (popfront three) ((2, 8) ∷ (3, 9) ∷ []) × Gives (popback three) ((1, 7) ∷ (2, 8) ∷ [])
pop_ends-Represents_example = pop_ends-Represents three_cells three three-Represents

clear-Represents_example : Gives (clear 3 three) []
clear-Represents_example = clear-Represents three_cells three 3 three-Represents (omega arith)

new-Represents : Represents (create three_nodes) []
unfolding create
new-Represents = record {
  linked = tt;
  distinct = tt;
  at_head = refl;
  at_tail = refl;
  counted = refl;
}
