-- ===== src/Container/LinkList/Runs.antt =====
-- The calls that link a node into a list of container_link_list.h come to an end.
use comm_libs.Common.{ℕ, ◌≡◌, sym, some, [], ◌∷◌, arith}
use comm_libs.Container.LinkList.{
  Node, LinkList, with_prev, with_next, link_before, link_first, link_inside_before, link_after,
  link_last, link_inside_after, count_up,
}
use comm_libs.Container.LinkList.Segment.{Cells, first, last, Distinct-left, Distinct-right}
use comm_libs.Container.LinkList.Links.{last_avoided, last_nonnull, last_stored}
use comm_libs.Container.LinkList.Insertion.{Ready}

module _ {T : Type 0} (l : LinkList T) (c new_node : ℕ) (d : T) (old : Node T) where
  pub link_before_first :
      (ys : Cells T)
      → Ready l.store [] c d ys new_node
      → l.store new_node ≡ some old
      → link_before c new_node l
        ≡ some (record l {
          store = with_prev c new_node (with_next new_node c (with_prev new_node 0 l.store));
          head = new_node;
          count = count_up l.count;
        })
  unfolding link_before link_first
  link_before_first ys r n = ground (arith, r.here, n, r.fresh, r.nonnull, r.fresh_here)

  pub link_before_inside :
      (x : ℕ × T) (xs ys : Cells T)
      → Ready l.store (x ∷ xs) c d ys new_node
      → l.store new_node ≡ some old
      → link_before c new_node l
        ≡ some (record l {
          store = with_next new_node c (
              with_prev c new_node (
                with_prev new_node
                  (last 0 (x ∷ xs))
                  (with_next (last 0 (x ∷ xs)) new_node l.store)));
          count = count_up l.count;
        })
  unfolding link_before link_inside_before
  link_before_inside x xs ys r n =
      let (np, e) = last_stored l.store 0 c x xs r.left in
      let p = last_nonnull x xs (Distinct-left (x ∷ xs) ys r.others) in
      let not_c = last_avoided 0 c (x ∷ xs) (λ q. r.nonnull (sym q)) r.left_side in
      let not_new = last_avoided 0 new_node (x ∷ xs) (λ q. r.fresh (sym q)) r.fresh_left in
      ground (arith, r.here, n, e, p, r.fresh, r.nonnull, r.fresh_here, not_c, not_new)

  pub link_after_last :
      (xs : Cells T)
      → Ready l.store xs c d [] new_node
      → l.store new_node ≡ some old
      → link_after c new_node l
        ≡ some (record l {
          store = with_next c new_node (with_prev new_node c (with_next new_node 0 l.store));
          tail = new_node;
          count = count_up l.count;
        })
  unfolding link_after link_last
  link_after_last xs r n = ground (arith, r.here, n, r.fresh, r.nonnull, r.fresh_here)

  pub link_after_inside :
      (xs : Cells T) (y : ℕ × T) (ys : Cells T)
      → Ready l.store xs c d (y ∷ ys) new_node
      → l.store new_node ≡ some old
      → link_after c new_node l
        ≡ some (record l {
          store = with_prev new_node c (
              with_next c new_node (
                with_next new_node
                  (first (y ∷ ys) 0)
                  (with_prev (first (y ∷ ys) 0) new_node l.store)));
          count = count_up l.count;
        })
  unfolding link_after link_inside_after
  link_after_inside xs (q, f) ys r n =
      let nonnull = (Distinct-right xs ((q, f) ∷ ys) r.others).0 in
      ground (
        arith, r.here, n, r.right.0, nonnull, r.fresh, r.nonnull, r.fresh_here, r.right_side.0,
        r.fresh_right.0,
      )
