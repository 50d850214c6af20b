-- ===== src/Container/LinkList/Insertion.antt =====
-- Pushing into a list of container_link_list.h.
use comm_libs.Common.{ℕ, ◌≡◌, ◌≢◌, sym, some, [], ◌∷◌, ◌++◌, arith}
use comm_libs.Container.LinkList.{Node, Store, with_prev, with_next}
use comm_libs.Container.LinkList.Segment.{
  Cells, first, last, Segment, Avoids, Distinct, Segment-append, Distinct-left, Distinct-right,
}
use comm_libs.Container.LinkList.Links.{
  frame_next, frame_prev, last_avoided, last-Avoids, last_next, first_prev, first-Avoids,
}

-- The nodes left and right of the node `c` in a store, before a new node is linked in.
pub record Ready {T : Type 0} (s : Store T) (xs : Cells T) (c : ℕ) (d : T) (ys : Cells T)
    (new_node : ℕ) : Type 0 where
  pub left : Segment s 0 xs c
  pub here : s c ≡ some (record { element = d; prev = last 0 xs; next = first ys 0 })
  pub right : Segment s c ys 0
  pub nonnull : c ≢ 0
  pub others : Distinct (xs ++ ys)
  pub left_side : Avoids c xs
  pub right_side : Avoids c ys
  pub fresh : new_node ≢ 0
  pub fresh_left : Avoids new_node xs
  pub fresh_here : c ≢ new_node
  pub fresh_right : Avoids new_node ys

module _ {T : Type 0} (s : Store T) (c new_node : ℕ) (d e : T) (old : Node T) where
  pub link_first_Segment :
      (ys : Cells T)
      → Ready s [] c d ys new_node
      → s new_node ≡ some old
      → Segment
          (with_prev c new_node (with_next new_node c (with_prev new_node 0 s)))
          0
          ((new_node, old.element) ∷ (c, d) ∷ ys)
          0
  link_first_Segment ys r n = (
    ground (arith, n, r.fresh_here),
    (
      ground (arith, r.here, r.fresh_here),
      frame_prev _ c 0 c new_node ys r.right_side (
          frame_next _ c 0 new_node c ys r.fresh_right
            (frame_prev s c 0 new_node 0 ys r.fresh_right r.right)),
    ),
  )

  pub link_last_Segment :
      (xs : Cells T)
      → Ready s xs c d [] new_node
      → s new_node ≡ some old
      → Segment
          (with_next c new_node (with_prev new_node c (with_next new_node 0 s)))
          0
          (xs ++ (c, d) ∷ (new_node, old.element) ∷ [])
          0
  link_last_Segment xs r n =
      let left = frame_next _ 0 c c new_node xs r.left_side (
        frame_prev _ 0 c new_node c xs r.fresh_left
          (frame_next s 0 c new_node 0 xs r.fresh_left r.left)) in
      Segment-append _ 0 0 xs _ left
        (ground (arith, r.here, r.fresh_here), (ground (arith, n, r.fresh_here), tt))

  pub link_inside_before_Segment :
      (x : ℕ × T) (xs ys : Cells T)
      → Ready s (x ∷ xs) c d ys new_node
      → s new_node ≡ some old
      → Segment
          (with_next new_node c (
            with_prev c new_node
              (with_prev new_node (last 0 (x ∷ xs)) (with_next (last 0 (x ∷ xs)) new_node s))))
          0
          ((x ∷ xs) ++ (new_node, old.element) ∷ (c, d) ∷ ys)
          0
  link_inside_before_Segment x xs ys r n =
      let zs = x ∷ xs in
      let p = last 0 zs in
      let not_c : p ≢ c = last_avoided 0 c zs (λ q. r.nonnull (sym q)) r.left_side in
      let not_new : p ≢ new_node = last_avoided 0 new_node zs (λ q. r.fresh (sym q)) r.fresh_left in
      let left = frame_next _ 0 new_node new_node c zs r.fresh_left (
        frame_prev _ 0 new_node c new_node zs r.left_side (
          frame_prev _ 0 new_node new_node p zs r.fresh_left
            (last_next s 0 c new_node zs (Distinct-left zs ys r.others) r.left))) in
      let right = frame_next _ c 0 new_node c ys r.fresh_right (
        frame_prev _ c 0 c new_node ys r.right_side (
          frame_prev _ c 0 new_node p ys r.fresh_right
            (frame_next s c 0 p new_node ys (last-Avoids x xs ys r.others) r.right))) in
      Segment-append _ 0 0 zs _ left (
        ground (arith, n, not_new, r.fresh_here),
        (ground (arith, r.here, not_c, r.fresh_here), right),
      )

  pub link_inside_after_Segment :
      (xs : Cells T) (y : ℕ × T) (ys : Cells T)
      → Ready s xs c d (y ∷ ys) new_node
      → s new_node ≡ some old
      → Segment
          (with_prev new_node c (
            with_next c new_node
              (with_next new_node (first (y ∷ ys) 0) (with_prev (first (y ∷ ys) 0) new_node s))))
          0
          (xs ++ (c, d) ∷ (new_node, old.element) ∷ y ∷ ys)
          0
  link_inside_after_Segment xs (q, f) ys r n =
      let left = frame_prev _ 0 c new_node c xs r.fresh_left (
        frame_next _ 0 c c new_node xs r.left_side (
          frame_next _ 0 c new_node q xs r.fresh_left
            (frame_prev s 0 c q new_node xs (first-Avoids xs q f ys r.others) r.left))) in
      let right = frame_prev _ new_node 0 new_node c ((q, f) ∷ ys) r.fresh_right (
        frame_next _ new_node 0 c new_node ((q, f) ∷ ys) r.right_side (
          frame_next _ new_node 0 new_node q ((q, f) ∷ ys) r.fresh_right (
            first_prev s c 0 new_node 0 ((q, f) ∷ ys) (Distinct-right xs ((q, f) ∷ ys) r.others)
              r.right))) in
      Segment-append _ 0 0 xs _ left (
        ground (arith, r.here, r.fresh_here, r.right_side.0),
        (ground (arith, n, r.fresh_right.0, r.fresh_here), right),
      )
