-- ===== src/Container/LinkList/Removal.antt =====
-- Removal from a list of container_link_list.h.
use comm_libs.Common.{ℕ, ◌%◌, ◌^◌, ◌≡◌, ◌≢◌, refl, sym, ◌∙◌, some, [], ◌∷◌, ◌++◌, length, arith}
use comm_libs.Container.LinkList.{
  Store, LinkList, with_prev, with_next, count_down, unlink, unlink_inside, unlink_first,
  unlink_last, unlink_only, pop, free,
}
use comm_libs.Container.LinkList.Segment.{
  Cells, first, last, Segment, Avoids, Distinct, Represents, Gives, Segment-append, Segment-split,
  last-append, Distinct-around, length-insert, Distinct-left, Distinct-right,
}
use comm_libs.Container.LinkList.Links.{
  frame_next, frame_prev, frame_free, last_avoided, last_nonnull, last-Avoids, last_next,
  first_prev, first-Avoids, last_stored,
}

-- The nodes left and right of the node `c` that is taken out.
record Around {T : Type 0} (s : Store T) (xs : Cells T) (c : ℕ) (d : T) (ys : Cells T)
    : Type 0 where
  left : Segment s 0 xs c
  here : s c ≡ some (record { element = d; prev = last 0 xs; next = first ys 0 })
  right : Segment s c ys 0
  nonnull : c ≢ 0
  others : Distinct (xs ++ ys)
  left_side : Avoids c xs
  right_side : Avoids c ys

module _ {T : Type 0} where
  around :
      (xs ys : Cells T) (c : ℕ) (d : T) (l : LinkList T)
      → Represents l (xs ++ (c, d) ∷ ys)
      → Around l.store xs c d ys
  around xs ys c d l r =
      let (left, mid) = Segment-split l.store 0 0 xs ((c, d) ∷ ys) r.linked in
      let (nonnull, a, b, others) = Distinct-around xs ys c d r.distinct in
      record {
        left = left;
        here = mid.0;
        right = mid.1;
        nonnull = nonnull;
        others = others;
        left_side = a;
        right_side = b;
      }

  popped_counted :
      (xs ys : Cells T) (c : ℕ × T) (l : LinkList T)
      → Represents l (xs ++ c ∷ ys)
      → count_down l.count ≡ length (xs ++ ys) % 2 ^ 32
  popped_counted xs ys c l r = omega (arith, r.counted, length-insert xs ys c)

  pop_only : (c : ℕ) (d : T) (l : LinkList T) → Represents l ((c, d) ∷ []) → Gives (pop c l) []
  unfolding pop unlink unlink_only
  pop_only c d l r =
      let k = around [] [] c d l r in
      (
        free c (unlink_only l),
        ground (arith, k.here, k.nonnull),
        record {
          linked = tt;
          distinct = tt;
          at_head = refl;
          at_tail = refl;
          counted = popped_counted [] [] (c, d) l r;
        },
      )

  pop_first :
      (y : ℕ × T) (ys : Cells T) (c : ℕ) (d : T) (l : LinkList T)
      → Represents l ((c, d) ∷ y ∷ ys)
      → Gives (pop c l) (y ∷ ys)
  unfolding pop unlink unlink_first
  pop_first (q, f) ys c d l r =
      let k = around [] ((q, f) ∷ ys) c d l r in
      let s' = with_prev q 0 l.store in
      (
        free c (record l { store = s'; head = q; count = count_down l.count }),
        ground (arith, k.here, k.right.0, k.nonnull, k.others.0),
        record {
          linked =
              frame_free s' 0 0 c ((q, f) ∷ ys) k.right_side
                (first_prev l.store c 0 0 0 ((q, f) ∷ ys) k.others k.right);
          distinct = k.others;
          at_head = refl;
          at_tail = r.at_tail;
          counted = popped_counted [] ((q, f) ∷ ys) (c, d) l r;
        },
      )

  pop_last :
      (x : ℕ × T) (xs : Cells T) (c : ℕ) (d : T) (l : LinkList T)
      → Represents l ((x ∷ xs) ++ (c, d) ∷ [])
      → Gives (pop c l) ((x ∷ xs) ++ [])
  unfolding pop unlink unlink_last
  pop_last x xs c d l r =
      let k = around (x ∷ xs) [] c d l r in
      let p = last 0 (x ∷ xs) in
      let s' = with_next p 0 l.store in
      let (np, e) = last_stored l.store 0 c x xs k.left in
      let full = Distinct-left (x ∷ xs) [] k.others in
      (
        free c (record l { store = s'; tail = p; count = count_down l.count }),
        ground (arith, k.here, e, k.nonnull, last_nonnull x xs full),
        record {
          linked =
              Segment-append _ 0 0 (x ∷ xs) []
                (frame_free s' 0 0 c (x ∷ xs) k.left_side
                  (last_next l.store 0 c 0 (x ∷ xs) full k.left))
                tt;
          distinct = k.others;
          at_head = r.at_head;
          at_tail = sym (last-append 0 (x ∷ xs) []);
          counted = popped_counted (x ∷ xs) [] (c, d) l r;
        },
      )

  pop_inside :
      (x : ℕ × T) (xs : Cells T) (y : ℕ × T) (ys : Cells T) (c : ℕ) (d : T) (l : LinkList T)
      → Represents l ((x ∷ xs) ++ (c, d) ∷ y ∷ ys)
      → Gives (pop c l) ((x ∷ xs) ++ y ∷ ys)
  unfolding pop unlink unlink_inside
  pop_inside x xs (q, f) ys c d l r =
      let k = around (x ∷ xs) ((q, f) ∷ ys) c d l r in
      let p = last 0 (x ∷ xs) in
      let s' = with_next p q l.store in
      let s'' = with_prev q p s' in
      let (np, e) = last_stored l.store 0 c x xs k.left in
      let full = Distinct-left (x ∷ xs) ((q, f) ∷ ys) k.others in
      let rest = Distinct-right (x ∷ xs) ((q, f) ∷ ys) k.others in
      let not_c = last_avoided 0 c (x ∷ xs) (λ z. k.nonnull (sym z)) k.left_side in
      let p_right = last-Avoids x xs ((q, f) ∷ ys) k.others in
      let left = frame_free s'' 0 q c (x ∷ xs) k.left_side (
        frame_prev s' 0 q q p (x ∷ xs) (first-Avoids (x ∷ xs) q f ys k.others)
          (last_next l.store 0 c q (x ∷ xs) full k.left)) in
      let right = frame_free s'' p 0 c ((q, f) ∷ ys) k.right_side (
        first_prev s' c 0 p 0 ((q, f) ∷ ys) rest
          (frame_next l.store c 0 p q ((q, f) ∷ ys) p_right k.right)) in
      (
        free c (record l { store = s''; count = count_down l.count }),
        ground (
          arith,
          k.here,
          e,
          k.right.0,
          k.nonnull,
          last_nonnull x xs full,
          rest.0,
          not_c,
          p_right.0,
        ),
        record {
          linked = Segment-append _ 0 0 (x ∷ xs) ((q, f) ∷ ys) left right;
          distinct = k.others;
          at_head = r.at_head;
          at_tail =
              r.at_tail
              ∙ last-append 0 (x ∷ xs) ((c, d) ∷ (q, f) ∷ ys)
              ∙ sym (last-append 0 (x ∷ xs) ((q, f) ∷ ys));
          counted = popped_counted (x ∷ xs) ((q, f) ∷ ys) (c, d) l r;
        },
      )

  -- A pop of a node of a list, wherever it stands, takes that node away and leaves the others in
  -- their order.
  pub pop-Represents :
      (xs ys : Cells T) (c : ℕ) (d : T) (l : LinkList T)
      → Represents l (xs ++ (c, d) ∷ ys)
      → Gives (pop c l) (xs ++ ys)
  pop-Represents [] [] c d l r = pop_only c d l r
  pop-Represents [] (y ∷ ys) c d l r = pop_first y ys c d l r
  pop-Represents (x ∷ xs) [] c d l r = pop_last x xs c d l r
  pop-Represents (x ∷ xs) (y ∷ ys) c d l r = pop_inside x xs y ys c d l r
