-- ===== src/Ipc/ShmList/After.antt =====
-- `PushAfter`, `PushTail` and `PushHead` of libipc/ipc_shm_list.h against lists of elements.
use comm_libs.Common.{
  ℕ, ◌<◌, ◌≡◌, ◌≢◌, refl, sym, subst, ap, ◌∙◌, List, some, [], ◌∷◌, ◌++◌, append_assoc, length,
  arith, true,
}
use mathlib.Core.Path.{fun_ext}
use comm_libs.Container.Bitmap.{Bitmap}
use comm_libs.Container.LinkList.{Store, with_prev, with_next}
use comm_libs.Container.LinkList.Segment.{
  Cells, first, last, Segment, Distinct-right, last-append, first-append,
}
use comm_libs.Container.LinkList.Links.{last_avoided}
use comm_libs.Container.LinkList.Insertion.{link_last_Segment, link_inside_after_Segment}
use comm_libs.Ipc.ShmList.{ShmList, count_up, with_nodes, set_tail, link_after, push_after}
use comm_libs.Ipc.ShmList.Slots.{Attaches}
use comm_libs.Ipc.ShmList.Members.{Represents, Numbered-split, is_stored}
use comm_libs.Ipc.ShmList.Reservation.{slot, placed, IsReserved, reserved}
use comm_libs.Ipc.ShmList.Links.{link_at_right_lem, link_at_tail_lem, after_order}
use comm_libs.Ipc.ShmList.Joining.{
  joined, stored-with_next, two_writes_stored, four_writes_stored, joined-Represents, ready,
}
use comm_libs.Ipc.ShmList.Before.{==_false, number_self, numbered_new, numbered_at, Pushes}

module _ {T : Type 0} (attach : ℕ → List ℕ → Bitmap) (e : T) (l : ShmList T) where
  same_first : (xs ys zs : Cells T) (c : ℕ × T) → first (xs ++ c ∷ ys) 0 ≡ first (xs ++ c ∷ zs) 0
  same_first xs ys zs c = first-append xs (c ∷ ys) 0 ∙ sym (first-append xs (c ∷ zs) 0)

  -- `_push_after` at the tail.
  module _ (xs : Cells T) (c : ℕ) (d : T) (r : Represents l (xs ++ (c, d) ∷ []))
      (k : IsReserved attach e l (xs ++ (c, d) ∷ [])) where
    abbrev last_store : Store T
    last_store =
        with_next c (slot attach l) (
          with_next (slot attach l) 0
            (with_prev (slot attach l) c (placed attach e l).shared.nodes))

    at_last : l.tail ≡ c
    at_last = r.at_tail ∙ last-append 0 xs ((c, d) ∷ [])

    last_link :
        link_after c (slot attach l) (placed attach e l)
        ≡ some (set_tail (slot attach l) (with_nodes last_store (placed attach e l)))
    unfolding link_after
    last_link =
        let g = ready attach e l xs [] c d r k in
        rw (==_false c 0 g.nonnull) (
          link_at_tail_lem (placed attach e l) (slot attach l) c _ _
            (numbered_new (slot attach l) l.shared.index c (numbered_at attach e l xs [] c d r))
            (number_self (slot attach l) l.shared.index) g.fresh_here k.built g.here refl at_last)

    last_joined :
        set_tail (slot attach l) (with_nodes last_store (placed attach e l))
        ≡ joined last_store (xs ++ (c, d) ∷ (slot attach l, e) ∷ []) (placed attach e l)
    last_joined =
        let heads = same_first xs [] ((slot attach l, e) ∷ []) (c, d) in
        ground (
          arith,
          r.at_head ∙ heads,
          r.head_shared ∙ heads,
          last-append 0 xs ((c, d) ∷ (slot attach l, e) ∷ []),
        )

    last_same :
        with_next c (slot attach l) (
          with_prev
            (slot attach l)
            c
            (with_next (slot attach l) 0 (placed attach e l).shared.nodes))
        ≡ last_store
    last_same = fun_ext (λ j. ground arith)

    last_linked : Segment last_store 0 (xs ++ (c, d) ∷ (slot attach l, e) ∷ []) 0
    last_linked =
        subst (λ s. Segment s 0 (xs ++ (c, d) ∷ (slot attach l, e) ∷ []) 0) last_same
          (link_last_Segment (placed attach e l).shared.nodes c (slot attach l) d e _ xs
            (ready attach e l xs [] c d r k) k.built)

  -- `_push_after` at another node.
  module _ (xs : Cells T) (q : ℕ) (f : T) (ys : Cells T) (c : ℕ) (d : T)
      (r : Represents l (xs ++ (c, d) ∷ (q, f) ∷ ys))
      (k : IsReserved attach e l (xs ++ (c, d) ∷ (q, f) ∷ ys)) where
    abbrev inside_store : Store T
    inside_store = with_next c (slot attach l) (
        with_prev q (slot attach l) (
          with_next (slot attach l) q
            (with_prev (slot attach l) c (placed attach e l).shared.nodes)))

    tails :
        last 0 (xs ++ (c, d) ∷ (q, f) ∷ ys)
        ≡ last 0 (xs ++ (c, d) ∷ (slot attach l, e) ∷ (q, f) ∷ ys)
    tails =
        last-append 0 xs ((c, d) ∷ (q, f) ∷ ys)
        ∙ sym (last-append 0 xs ((c, d) ∷ (slot attach l, e) ∷ (q, f) ∷ ys))

    inside_link :
        link_after c (slot attach l) (placed attach e l)
        ≡ some (with_nodes inside_store (placed attach e l))
    unfolding link_after
    inside_link =
        let g = ready attach e l xs ((q, f) ∷ ys) c d r k in
        let rest = Distinct-right xs ((q, f) ∷ ys) g.others in
        let not_tail : c ≢ l.tail = λ z.
          last_avoided q c ys (g.right_side.0) (g.right_side.1)
            (sym (z ∙ r.at_tail ∙ last-append 0 xs ((c, d) ∷ (q, f) ∷ ys))) in
        let q_numbered =
          (Numbered-split l.shared.max_num l.shared.index xs ((c, d) ∷ (q, f) ∷ ys)
            r.numbered).1.3.2 in
        rw (==_false c 0 g.nonnull) (
          link_at_right_lem (placed attach e l) (slot attach l) c q
            (number_self (slot attach l) l.shared.index)
            (numbered_new (slot attach l) l.shared.index c
              (numbered_at attach e l xs ((q, f) ∷ ys) c d r))
            (numbered_new (slot attach l) l.shared.index q q_numbered) g.fresh_here g.fresh_right.0
            g.right_side.0 rest.0 _ _ _ k.built g.here g.right.0 refl not_tail)

    inside_joined :
        with_nodes inside_store (placed attach e l)
        ≡ joined inside_store (xs ++ (c, d) ∷ (slot attach l, e) ∷ (q, f) ∷ ys) (placed attach e l)
    inside_joined =
        let heads = same_first xs ((q, f) ∷ ys) ((slot attach l, e) ∷ (q, f) ∷ ys) (c, d) in
        ground (
          arith,
          r.at_head ∙ heads,
          r.head_shared ∙ heads,
          r.at_tail ∙ tails,
          r.tail_shared ∙ tails,
        )

    inside_linked : Segment inside_store 0 (xs ++ (c, d) ∷ (slot attach l, e) ∷ (q, f) ∷ ys) 0
    inside_linked =
        let g = ready attach e l xs ((q, f) ∷ ys) c d r k in
        subst (λ s. Segment s 0 (xs ++ (c, d) ∷ (slot attach l, e) ∷ (q, f) ∷ ys) 0)
          (after_order (slot attach l) c q (placed attach e l).shared.nodes g.fresh_right.0)
          (link_inside_after_Segment (placed attach e l).shared.nodes c (slot attach l) d e _ xs
            (q, f) ys g k.built)

module _ {T : Type 0} (attach : ℕ → List ℕ → Bitmap) (w : Attaches attach) (e : T)
    (l : ShmList T) where
  pub pushed_after :
      (node : ℕ) (s : Store T) (ws : Cells T) {xs : Cells T}
      → IsReserved attach e l xs
      → link_after node (slot attach l) (placed attach e l) ≡ some (joined s ws (placed attach e l))
      → push_after attach node (some e) l
        ≡ some (slot attach l, count_up (joined s ws (placed attach e l)))
  unfolding push_after
  pushed_after node s ws k link = rw (k.result, link) refl

  -- The same nodes, with the left ones up to `c` in one list.
  after_Represents :
      (xs ys : Cells T) (c : ℕ × T) (s : Store T)
      → Represents l (xs ++ c ∷ ys)
      → IsReserved attach e l (xs ++ c ∷ ys)
      → length (xs ++ c ∷ ys) < l.shared.max_num
      → Segment s 0 (xs ++ c ∷ (slot attach l, e) ∷ ys) 0
      → ((j : ℕ) → is_stored ((placed attach e l).shared.nodes j) ≡ true → is_stored (s j) ≡ true)
      → Represents
          (count_up (joined s (xs ++ c ∷ (slot attach l, e) ∷ ys) (placed attach e l)))
          (xs ++ c ∷ (slot attach l, e) ∷ ys)
  after_Represents xs ys c s r k space linked stored =
      let there = sym (append_assoc xs (c ∷ []) ys) in
      let back = append_assoc xs (c ∷ []) ((slot attach l, e) ∷ ys) in
      subst (λ ws. Represents (count_up (joined s ws (placed attach e l))) ws) back
        (joined-Represents attach e l (xs ++ c ∷ []) ys s (subst (Represents l) there r)
          (subst (IsReserved attach e l) there k)
          (subst (λ ws. length ws < l.shared.max_num) there space)
          (subst (λ ws. Segment s 0 ws 0) (sym back) linked) stored)

  pub push_after-Represents :
      (xs ys : Cells T) (c : ℕ) (d : T)
      → Represents l (xs ++ (c, d) ∷ ys)
      → length (xs ++ (c, d) ∷ ys) < l.shared.max_num
      → Pushes attach w e l
          (push_after attach c (some e) l)
          (xs ++ (c, d) ∷ (slot attach l, e) ∷ ys)
  push_after-Represents xs [] c d r space =
      let k = reserved attach w e l (xs ++ (c, d) ∷ []) r space in
      let s = last_store attach e l xs c d r k in
      let nodes = (placed attach e l).shared.nodes in
      (
        _,
        pushed_after c s (xs ++ (c, d) ∷ (slot attach l, e) ∷ []) k
            (last_link attach e l xs c d r k ∙ ap some (last_joined attach e l xs c d r k)),
        after_Represents xs [] (c, d) s r k space (last_linked attach e l xs c d r k)
            (λ j h.
              stored-with_next c (slot attach l) j
                (with_next (slot attach l) 0 (with_prev (slot attach l) c nodes))
                (two_writes_stored (slot attach l) c 0 j nodes h).1),
      )
  push_after-Represents xs ((q, f) ∷ ys) c d r space =
      let k = reserved attach w e l (xs ++ (c, d) ∷ (q, f) ∷ ys) r space in
      let s = inside_store attach e l xs q f ys c d r k in
      (
        _,
        pushed_after c s (xs ++ (c, d) ∷ (slot attach l, e) ∷ (q, f) ∷ ys) k (
            inside_link attach e l xs q f ys c d r k
            ∙ ap some (inside_joined attach e l xs q f ys c d r k)),
        after_Represents xs ((q, f) ∷ ys) (c, d) s r k space
            (inside_linked attach e l xs q f ys c d r k)
            (λ j h.
              (four_writes_stored (slot attach l) c q j (placed attach e l).shared.nodes h).1),
      )
