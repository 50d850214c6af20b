-- ===== src/Ipc/ShmList/Before.antt =====
-- `PushBefore` of libipc/ipc_shm_list.h against lists of elements.
use comm_libs.Common.{
  ℕ, ◌<◌, ◌≡◌, ◌≢◌, refl, sym, subst, ap, Option, ◌∙◌, List, some, [], ◌∷◌, ◌++◌, length, arith,
  false, if◌then◌else◌, ◌==◌,
}
use mathlib.Core.Path.{fun_ext}
use comm_libs.Container.Bitmap.{Bitmap}
use comm_libs.Container.LinkList.{Store, with_prev, with_next}
use comm_libs.Container.LinkList.Segment.{Cells, last, Segment, Distinct-left, last-append}
use comm_libs.Container.LinkList.Links.{last_avoided, last_nonnull, last_stored}
use comm_libs.Container.LinkList.Insertion.{link_first_Segment, link_inside_before_Segment}
use comm_libs.Ipc.ShmList.{
  ShmList, count_up, with_nodes, link_before, link_at_left, join_left, push_before,
}
use comm_libs.Ipc.ShmList.Slots.{Attaches}
use comm_libs.Ipc.ShmList.Members.{Represents, Numbered-split, index-last}
use comm_libs.Ipc.ShmList.Reservation.{slot, placed, IsReserved, reserved}
use comm_libs.Ipc.ShmList.Links.{link_at_left_lem, before_order}
use comm_libs.Ipc.ShmList.Joining.{
  joined, stored-with_prev, two_writes_stored, four_writes_stored, Numbered-number,
  joined-Represents, ready,
}

pub ==_false : (a b : ℕ) → a ≢ b → (a == b) ≡ false
==_false a b h = ground arith

pub number_self : (p : ℕ) (index : ℕ → ℕ) → (if p == p then p else index p) ≡ p
number_self p index = ground arith

pub numbered_new :
    (p : ℕ) (index : ℕ → ℕ) (c : ℕ) → index c ≡ c → (if p == c then p else index c) ≡ c
numbered_new p index c h = ground (arith, h)

module _ {T : Type 0} (attach : ℕ → List ℕ → Bitmap) (e : T) (l : ShmList T) where
  -- The numbers of the nodes that a push reads.
  numbered_left :
      (x : ℕ × T) (xs ys : Cells T) (k : Represents l ((x ∷ xs) ++ ys))
      → (placed attach e l).shared.index (last 0 (x ∷ xs)) ≡ last 0 (x ∷ xs)
  numbered_left x xs ys r =
      let old = (Numbered-split l.shared.max_num l.shared.index (x ∷ xs) ys r.numbered).0 in
      index-last l.shared.max_num _ x xs
        (Numbered-number l.shared.max_num (slot attach l) l.shared.index (x ∷ xs) old)

  pub numbered_at :
      (xs ys : Cells T) (c : ℕ) (d : T) (k : Represents l (xs ++ (c, d) ∷ ys))
      → l.shared.index c ≡ c
  numbered_at xs ys c d r =
      (Numbered-split l.shared.max_num l.shared.index xs ((c, d) ∷ ys) r.numbered).1.2

  -- `_push_before` at the head.
  module _ (ys : Cells T) (c : ℕ) (d : T) (r : Represents l ((c, d) ∷ ys))
      (k : IsReserved attach e l ((c, d) ∷ ys)) where
    abbrev first_store : Store T
    first_store =
        with_prev c (slot attach l) (
          with_prev (slot attach l) 0
            (with_next (slot attach l) c (placed attach e l).shared.nodes))

    first_link :
        link_before c (slot attach l) (placed attach e l)
        ≡ some (joined first_store ((slot attach l, e) ∷ (c, d) ∷ ys) (placed attach e l))
    unfolding link_before link_at_left join_left
    first_link =
        let g = ready attach e l [] ys c d r k in
        ground (
          arith,
          g.here,
          k.built,
          g.fresh,
          g.nonnull,
          g.fresh_here,
          numbered_at [] ys c d r,
          r.at_head,
          r.at_tail,
          r.tail_shared,
        )

    first_same :
        with_prev c (slot attach l) (
          with_next
            (slot attach l)
            c
            (with_prev (slot attach l) 0 (placed attach e l).shared.nodes))
        ≡ first_store
    first_same = fun_ext (λ j. ground arith)

    first_linked : Segment first_store 0 ((slot attach l, e) ∷ (c, d) ∷ ys) 0
    first_linked =
        subst (λ s. Segment s 0 ((slot attach l, e) ∷ (c, d) ∷ ys) 0) first_same
          (link_first_Segment (placed attach e l).shared.nodes c (slot attach l) d e _ ys
            (ready attach e l [] ys c d r k) k.built)

  -- `_push_before` at another node.
  module _ (x : ℕ × T) (xs ys : Cells T) (c : ℕ) (d : T)
      (r : Represents l ((x ∷ xs) ++ (c, d) ∷ ys))
      (k : IsReserved attach e l ((x ∷ xs) ++ (c, d) ∷ ys)) where
    abbrev inside_store : Store T
    inside_store = with_prev c (slot attach l) (
        with_next (last 0 (x ∷ xs)) (slot attach l) (
          with_prev (slot attach l) (last 0 (x ∷ xs))
            (with_next (slot attach l) c (placed attach e l).shared.nodes)))

    inside_link :
        link_before c (slot attach l) (placed attach e l)
        ≡ some (with_nodes inside_store (placed attach e l))
    unfolding link_before
    inside_link =
        let g = ready attach e l (x ∷ xs) ys c d r k in
        let (np, h) = last_stored (placed attach e l).shared.nodes 0 c x xs g.left in
        let not_head : c ≢ l.head = λ z. g.left_side.0 (sym (z ∙ r.at_head)) in
        let at_c =
          numbered_new (slot attach l) (l.shared.index) c (numbered_at (x ∷ xs) ys c d r) in
        rw (==_false c 0 g.nonnull) (
          link_at_left_lem (placed attach e l) (slot attach l) c (last 0 (x ∷ xs))
            (number_self (slot attach l) l.shared.index) at_c (numbered_left x xs ((c, d) ∷ ys) r)
            g.fresh_here
            (last_avoided 0 (slot attach l) (x ∷ xs) (λ q. g.fresh (sym q)) g.fresh_left)
            (last_avoided 0 c (x ∷ xs) (λ q. g.nonnull (sym q)) g.left_side)
            (last_nonnull x xs (Distinct-left (x ∷ xs) ys g.others)) _ _ np k.built g.here h refl
            not_head)

    inside_joined :
        with_nodes inside_store (placed attach e l)
        ≡ joined inside_store ((x ∷ xs) ++ (slot attach l, e) ∷ (c, d) ∷ ys) (placed attach e l)
    inside_joined =
        let same =
          last-append 0 (x ∷ xs) ((c, d) ∷ ys)
          ∙ sym (last-append 0 (x ∷ xs) ((slot attach l, e) ∷ (c, d) ∷ ys)) in
        ground (arith, r.at_head, r.head_shared, r.at_tail ∙ same, r.tail_shared ∙ same)

    inside_same :
        with_next (slot attach l) c (
          with_prev c (slot attach l) (
            with_prev
              (slot attach l)
              (last 0 (x ∷ xs))
              (with_next (last 0 (x ∷ xs)) (slot attach l) (placed attach e l).shared.nodes)))
        ≡ inside_store
    inside_same =
        before_order (slot attach l) c (last 0 (x ∷ xs)) (placed attach e l).shared.nodes (
          last_avoided 0 (slot attach l) (x ∷ xs)
            (λ q. (ready attach e l (x ∷ xs) ys c d r k).fresh (sym q))
            (ready attach e l (x ∷ xs) ys c d r k).fresh_left)

    inside_linked : Segment inside_store 0 ((x ∷ xs) ++ (slot attach l, e) ∷ (c, d) ∷ ys) 0
    inside_linked =
        subst (λ s. Segment s 0 ((x ∷ xs) ++ (slot attach l, e) ∷ (c, d) ∷ ys) 0) inside_same
          (link_inside_before_Segment (placed attach e l).shared.nodes c (slot attach l) d e _ x xs
            ys (ready attach e l (x ∷ xs) ys c d r k) k.built)

-- Every write of links of a push leaves the slots with their nodes.
module _ {T : Type 0} (attach : ℕ → List ℕ → Bitmap) (w : Attaches attach) (e : T)
    (l : ShmList T) where
  -- What a push gives: the number of its slot, and the list with these nodes.
  abbrev pub Pushes : Option (ℕ × ShmList T) → Cells T → Type 0
  Pushes call ws = (l' : ShmList T) × (call ≡ some (slot attach l, l')) × Represents l' ws

  pub pushed_before :
      (node : ℕ) (s : Store T) (ws : Cells T) {xs : Cells T}
      → IsReserved attach e l xs
      → link_before node (slot attach l) (placed attach e l)
        ≡ some (joined s ws (placed attach e l))
      → push_before attach node (some e) l
        ≡ some (slot attach l, count_up (joined s ws (placed attach e l)))
  unfolding push_before
  pushed_before node s ws k link = rw (k.result, link) refl

  pub push_before-Represents :
      (xs ys : Cells T) (c : ℕ) (d : T)
      → Represents l (xs ++ (c, d) ∷ ys)
      → length (xs ++ (c, d) ∷ ys) < l.shared.max_num
      → Pushes (push_before attach c (some e) l) (xs ++ (slot attach l, e) ∷ (c, d) ∷ ys)
  push_before-Represents [] ys c d r space =
      let k = reserved attach w e l ((c, d) ∷ ys) r space in
      let s = first_store attach e l ys c d r k in
      (
        _,
        pushed_before c s ((slot attach l, e) ∷ (c, d) ∷ ys) k (first_link attach e l ys c d r k),
        joined-Represents attach e l [] ((c, d) ∷ ys) s r k space
            (first_linked attach e l ys c d r k)
            (λ j h.
              let p = slot attach l in
              let nodes = (placed attach e l).shared.nodes in
              stored-with_prev c p j (with_prev p 0 (with_next p c nodes))
                (two_writes_stored p c 0 j nodes h).0),
      )
  push_before-Represents (x ∷ xs) ys c d r space =
      let k = reserved attach w e l ((x ∷ xs) ++ (c, d) ∷ ys) r space in
      let s = inside_store attach e l x xs ys c d r k in
      let ws = (x ∷ xs) ++ (slot attach l, e) ∷ (c, d) ∷ ys in
      (
        _,
        pushed_before c s ws k (
            inside_link attach e l x xs ys c d r k
            ∙ ap some (inside_joined attach e l x xs ys c d r k)),
        joined-Represents attach e l (x ∷ xs) ((c, d) ∷ ys) s r k space
            (inside_linked attach e l x xs ys c d r k)
            (λ j h.
              (four_writes_stored (slot attach l) c (last 0 (x ∷ xs)) j
                (placed attach e l).shared.nodes h).0),
      )
