-- ===== src/Ipc/ShmList/Links.antt =====
-- How `_push_before`, `_push_after` and `_pop` of libipc/ipc_shm_list.h write links between two nodes.
use comm_libs.Common.{ℕ, ◌≡◌, ◌≢◌, some, arith}
use mathlib.Core.Path.{fun_ext}
use comm_libs.Container.LinkList.{Node, Store, with_prev, with_next}
use comm_libs.Ipc.ShmList.{
  ShmList, with_nodes, set_head, set_tail, unlink, unlink_inside, unlink_first, unlink_last,
  unlink_only, link_at_left, link_at_right, join_left, join_right,
}

-- The writes of a push in the order of container_link_list.h give the same links.
pub before_order :
    {T : Type 0} (p c q : ℕ) (s : Store T)
    → q ≢ p
    → with_next p c (with_prev c p (with_prev p q (with_next q p s)))
      ≡ with_prev c p (with_next q p (with_prev p q (with_next p c s)))
before_order p c q s apart = fun_ext (λ j. ground arith)

pub after_order :
    {T : Type 0} (p c q : ℕ) (s : Store T)
    → q ≢ p
    → with_prev p c (with_next c p (with_next p q (with_prev q p s)))
      ≡ with_next c p (with_prev q p (with_next p q (with_prev p c s)))
after_order p c q s apart = fun_ext (λ j. ground arith)

-- A new node `p` after the last node `c`.
pub link_at_tail_lem :
    {T : Type 0} (l : ShmList T) (p c : ℕ) (np nc : Node T)
    → l.shared.index c ≡ c
    → l.shared.index p ≡ p
    → c ≢ p
    → l.shared.nodes p ≡ some np
    → l.shared.nodes c ≡ some nc
    → nc.next ≡ 0
    → l.tail ≡ c
    → link_at_right c p l
      ≡ some
          (set_tail p (with_nodes (with_next c p (with_next p 0 (with_prev p c l.shared.nodes))) l))
unfolding link_at_right join_right
link_at_tail_lem l p c np nc numbered_c numbered_p apart hp hc link at_tail = ground arith

module _ {T : Type 0} (l : ShmList T) (p c q : ℕ) (numbered_p : l.shared.index p ≡ p)
    (numbered_c : l.shared.index c ≡ c) (numbered_q : l.shared.index q ≡ q) (new_apart : c ≢ p)
    (left_apart : q ≢ p) (apart : q ≢ c) (present : q ≢ 0) where
  join_left_lem :
      (s : Store T) (np nq : Node T)
      → s p ≡ some np
      → s q ≡ some nq
      → join_left p q l s ≡ some (with_next q p (with_prev p q s))
  unfolding join_left
  join_left_lem s np nq hp hq = ground arith

  join_right_lem :
      (s : Store T) (np nq : Node T)
      → s p ≡ some np
      → s q ≡ some nq
      → join_right p q l s ≡ some (with_prev q p (with_next p q s))
  unfolding join_right
  join_right_lem s np nq hp hq = ground arith

  -- A new node `p` between the node `q` and the node `c` that comes after it.
  pub link_at_left_lem :
      (np nc nq : Node T)
      → l.shared.nodes p ≡ some np
      → l.shared.nodes c ≡ some nc
      → l.shared.nodes q ≡ some nq
      → nc.prev ≡ q
      → c ≢ l.head
      → link_at_left c p l
        ≡ some (
            with_nodes
              (with_prev c p (with_next q p (with_prev p q (with_next p c l.shared.nodes))))
              l)
  unfolding link_at_left
  link_at_left_lem np nc nq hp hc hq link inner =
      ground (arith, join_left_lem (with_next p c l.shared.nodes) (record np { next = c }) nq)

  -- A new node `p` between the node `c` and the node `q` that comes after it.
  pub link_at_right_lem :
      (np nc nq : Node T)
      → l.shared.nodes p ≡ some np
      → l.shared.nodes c ≡ some nc
      → l.shared.nodes q ≡ some nq
      → nc.next ≡ q
      → c ≢ l.tail
      → link_at_right c p l
        ≡ some (
            with_nodes
              (with_next c p (with_prev q p (with_next p q (with_prev p c l.shared.nodes))))
              l)
  unfolding link_at_right
  link_at_right_lem np nc nq hp hc hq link inner =
      ground (arith, join_right_lem (with_prev p c l.shared.nodes) (record np { prev = c }) nq)

-- `_pop` of a node, by its neighbours.
module _ {T : Type 0} (l : ShmList T) (c p q : ℕ) where
  pub unlink_only_lem : (n : Node T) → n.prev ≡ 0 → n.next ≡ 0 → unlink c n l ≡ some (unlink_only l)
  unfolding unlink
  unlink_only_lem n hp hn = ground arith

  pub unlink_first_lem :
      (n nq : Node T)
      → n.prev ≡ 0
      → n.next ≡ q
      → q ≢ 0
      → l.shared.nodes q ≡ some nq
      → unlink c n l ≡ some (set_head q (with_nodes (with_prev q 0 l.shared.nodes) l))
  unfolding unlink unlink_first
  unlink_first_lem n nq hp hn present hq = ground arith

  pub unlink_last_lem :
      (n np : Node T)
      → n.prev ≡ p
      → n.next ≡ 0
      → p ≢ 0
      → l.shared.nodes p ≡ some np
      → unlink c n l ≡ some (set_tail p (with_nodes (with_next p 0 l.shared.nodes) l))
  unfolding unlink unlink_last
  unlink_last_lem n np hp hn present hq = ground arith

  pub unlink_inside_lem :
      (n np nq : Node T)
      → n.prev ≡ p
      → n.next ≡ q
      → p ≢ 0
      → q ≢ 0
      → p ≢ c
      → p ≢ q
      → l.shared.nodes c ≡ some n
      → l.shared.nodes p ≡ some np
      → l.shared.nodes q ≡ some nq
      → unlink c n l ≡ some (with_nodes (with_prev q p (with_next p q l.shared.nodes)) l)
  unfolding unlink unlink_inside
  unlink_inside_lem n np nq hp hn p0 q0 pc pq sc sp sq = ground arith
