-- ===== src/Ipc/ShmList/Pops.antt =====
-- The pops of libipc/ipc_shm_list.h against lists of elements.
use comm_libs.Common.{
  ℕ, ◌≡◌, ◌≢◌, refl, sym, subst, ap, ◌∙◌, List, Option, Bool, true, false, ℕ_discrete, some, [],
  ◌∷◌, ◌++◌, arith, if◌then◌else◌, ◌==◌,
}
use comm_libs.Container.Bitmap.{Bitmap, unset_index, page_list}
use comm_libs.Container.Bitmap.Bits.{bit_of}
use comm_libs.Container.LinkList.{Node, Store, with_prev, with_next}
use comm_libs.Container.LinkList.Segment.{
  Cells, first, last, Segment, Avoids, Distinct, Segment-append, Segment-split, last-append,
  Distinct-around, Distinct-left, Distinct-right, Avoids-append, length-insert,
}
use comm_libs.Container.LinkList.Links.{
  frame_next, frame_prev, last_avoided, last_nonnull, last-Avoids, last_next, first_prev,
  first-Avoids, last_stored,
}
use comm_libs.Ipc.ShmList.{ShmList, bitmap, with_bitmap, count_down, unlink, unlink_only, pop}
use comm_libs.Ipc.ShmList.Slots.{Attaches, unset_slot}
use comm_libs.Ipc.ShmList.Members.{
  Represents, Numbered-split, Numbered-append, holds, holds-Avoids, holds-insert, is_stored,
  index-last,
}
use comm_libs.Ipc.ShmList.Joining.{joined, stored-with_prev, stored-with_next}
use comm_libs.Ipc.ShmList.Links.{
  unlink_only_lem, unlink_first_lem, unlink_last_lem, unlink_inside_lem,
}
use comm_libs.Ipc.ShmList.Before.{numbered_at}

-- The nodes left and right of the node `c` that is taken out.
record Around {T : Type 0} (s : Store T) (xs : Cells T) (c : ℕ) (d : T) (ys : Cells T)
    : Type 0 where
  left : Segment s 0 xs c
  here : s c ≡ some (record { element = d; prev = last 0 xs; next = first ys 0 })
  right : Segment s c ys 0
  nonnull : c ≢ 0
  others : Distinct (xs ++ ys)
  left_side : Avoids c xs
  right_side : Avoids c ys

taken_out :
    {T : Type 0} (c j : ℕ) (b : Bool) (zs : Cells T)
    → b ≡ (if c == j then true else holds j zs)
    → holds c zs ≡ false
    → (if c == j then false else b) ≡ holds j zs
taken_out c j b zs h gone = elim (ℕ_discrete c j) [
  | yes e ↦ ground (arith, subst (λ k. holds k zs ≡ false) e gone)
  | no n ↦ ground arith
]

module _ {T : Type 0} (attach : ℕ → List ℕ → Bitmap) (w : Attaches attach) (l : ShmList T) where
  -- The list without the mark of a slot.
  abbrev unmarked : ℕ → ShmList T
  unmarked c = with_bitmap attach (unset_index c (bitmap attach l)).1 l

  pop-unlink :
      (c : ℕ) (n : Node T) (l' : ShmList T)
      → l.has_info ≡ true
      → c ≢ 0
      → l.shared.nodes c ≡ some n
      → l.shared.index c ≡ c
      → unlink c n (unmarked c) ≡ some l'
      → pop attach c l ≡ some (count_down l')
  unfolding pop
  pop-unlink c n l' opened nonnull here numbered link =
      let same : page_list (unset_index (l.shared.index c) (bitmap attach l)).1
          ≡ page_list (unset_index c (bitmap attach l)).1 =
        ap (λ k. page_list (unset_index k (bitmap attach l)).1) numbered in
      ground (
        arith,
        link,
        ap (λ k. unlink c n (record l { shared = record l.shared { bytes = k } })) same,
      )

  -- A call ends without an access outside the slots, and leaves these nodes.
  abbrev pub Leaves : Option (ShmList T) → Cells T → Type 0
  Leaves call xs = (l' : ShmList T) × (call ≡ some l') × Represents l' xs

  module _ (xs ys : Cells T) (c : ℕ) (d : T) (r : Represents l (xs ++ (c, d) ∷ ys)) where
    around : Around l.shared.nodes xs c d ys
    around =
        let (left, mid) = Segment-split l.shared.nodes 0 0 xs ((c, d) ∷ ys) r.linked in
        let (nonnull, a, b, others) = Distinct-around xs ys c d r.distinct in
        record {
          left = left;
          here = mid.0;
          right = mid.1;
          nonnull = nonnull;
          others = others;
          left_side = a;
          right_side = b;
        }

    -- The pop ends as the change of the links does.
    popped :
        (s : Store T)
        → unlink c (record { element = d; prev = last 0 xs; next = first ys 0 }) (unmarked c)
          ≡ some (joined s (xs ++ ys) (unmarked c))
        → pop attach c l ≡ some (count_down (joined s (xs ++ ys) (unmarked c)))
    popped s link =
        pop-unlink c _ (joined s (xs ++ ys) (unmarked c)) r.opened around.nonnull around.here
          (numbered_at attach d l xs ys c d r) link

    popped-Represents :
        (s : Store T)
        → Segment s 0 (xs ++ ys) 0
        → ((j : ℕ) → is_stored (l.shared.nodes j) ≡ true → is_stored (s j) ≡ true)
        → Represents (count_down (joined s (xs ++ ys) (unmarked c))) (xs ++ ys)
    popped-Represents s linked stored =
        let (left, (lo, hi, _, right)) =
          Numbered-split l.shared.max_num l.shared.index xs ((c, d) ∷ ys) r.numbered in
        let (memory, bits) = unset_slot attach w l.shared.max_num l.shared.bytes r.memory c lo hi in
        let gone : holds c (xs ++ ys) ≡ false =
          holds-Avoids c (xs ++ ys) (Avoids-append c xs ys around.left_side around.right_side) in
        record {
          opened = r.opened;
          linked = linked;
          distinct = around.others;
          at_head = refl;
          at_tail = refl;
          head_shared = refl;
          tail_shared = refl;
          counted = omega (arith, r.counted, r.room, r.memory.small, length-insert xs ys (c, d));
          room = omega (arith, r.room, length-insert xs ys (c, d));
          memory = memory;
          numbered = Numbered-append l.shared.max_num l.shared.index xs ys left right;
          marked = λ j a b.
              bits j a b
              ∙ taken_out c j (bit_of l.shared.bytes j) (xs ++ ys)
                  (r.marked j a b ∙ holds-insert j c d xs ys) gone;
          stored = λ j a b. stored j (r.stored j a b);
        }

  pop_only : (c : ℕ) (d : T) → Represents l ((c, d) ∷ []) → Leaves (pop attach c l) []
  unfolding unlink_only
  pop_only c d r = (
    _,
    popped [] [] c d r l.shared.nodes (unlink_only_lem (unmarked c) c 0 0 _ refl refl),
    popped-Represents [] [] c d r l.shared.nodes tt (λ j h. h),
  )

  pop_first :
      (q : ℕ) (f : T) (ys : Cells T) (c : ℕ) (d : T)
      → Represents l ((c, d) ∷ (q, f) ∷ ys)
      → Leaves (pop attach c l) ((q, f) ∷ ys)
  pop_first q f ys c d r =
      let k = around [] ((q, f) ∷ ys) c d r in
      let s = with_prev q 0 l.shared.nodes in
      let q_numbered =
        (Numbered-split l.shared.max_num l.shared.index ((c, d) ∷ []) ((q, f) ∷ ys)
          r.numbered).1.2 in
      (
        _,
        popped [] ((q, f) ∷ ys) c d r s (
            unlink_first_lem (unmarked c) c 0 q _ _ refl refl k.others.0 k.right.0
            ∙ ground (arith, q_numbered, r.at_tail, r.tail_shared)),
        popped-Represents [] ((q, f) ∷ ys) c d r s
            (first_prev l.shared.nodes c 0 0 0 ((q, f) ∷ ys) k.others k.right)
            (λ j h. stored-with_prev q 0 j l.shared.nodes h),
      )

  pop_last :
      (x : ℕ × T) (xs : Cells T) (c : ℕ) (d : T)
      → Represents l ((x ∷ xs) ++ (c, d) ∷ [])
      → Leaves (pop attach c l) ((x ∷ xs) ++ [])
  pop_last x xs c d r =
      let k = around (x ∷ xs) [] c d r in
      let p = last 0 (x ∷ xs) in
      let s = with_next p 0 l.shared.nodes in
      let (np, h) = last_stored l.shared.nodes 0 c x xs k.left in
      let full = Distinct-left (x ∷ xs) [] k.others in
      let p_numbered =
        index-last l.shared.max_num l.shared.index x xs
          (Numbered-split l.shared.max_num l.shared.index (x ∷ xs) ((c, d) ∷ []) r.numbered).0 in
      (
        _,
        popped (x ∷ xs) [] c d r s (
            unlink_last_lem (unmarked c) c p 0 _ np refl refl (last_nonnull x xs full) h
            ∙ ground (arith, p_numbered, r.at_head, r.head_shared, last-append 0 (x ∷ xs) [])),
        popped-Represents (x ∷ xs) [] c d r s
            (Segment-append s 0 0 (x ∷ xs) [] (last_next l.shared.nodes 0 c 0 (x ∷ xs) full k.left)
              tt)
            (λ j g. stored-with_next p 0 j l.shared.nodes g),
      )

  pop_inside :
      (x : ℕ × T) (xs : Cells T) (q : ℕ) (f : T) (ys : Cells T) (c : ℕ) (d : T)
      → Represents l ((x ∷ xs) ++ (c, d) ∷ (q, f) ∷ ys)
      → Leaves (pop attach c l) ((x ∷ xs) ++ (q, f) ∷ ys)
  pop_inside x xs q f ys c d r =
      let k = around (x ∷ xs) ((q, f) ∷ ys) c d r in
      let p = last 0 (x ∷ xs) in
      let s' = with_next p q l.shared.nodes in
      let s = with_prev q p s' in
      let (np, h) = last_stored l.shared.nodes 0 c x xs k.left in
      let full = Distinct-left (x ∷ xs) ((q, f) ∷ ys) k.others in
      let rest = Distinct-right (x ∷ xs) ((q, f) ∷ ys) k.others in
      let not_c = last_avoided 0 c (x ∷ xs) (λ z. k.nonnull (sym z)) k.left_side in
      let p_right = last-Avoids x xs ((q, f) ∷ ys) k.others in
      let left =
        frame_prev s' 0 q q p (x ∷ xs) (first-Avoids (x ∷ xs) q f ys k.others)
          (last_next l.shared.nodes 0 c q (x ∷ xs) full k.left) in
      let right =
        first_prev s' c 0 p 0 ((q, f) ∷ ys) rest
          (frame_next l.shared.nodes c 0 p q ((q, f) ∷ ys) p_right k.right) in
      let tails =
        last-append 0 (x ∷ xs) ((c, d) ∷ (q, f) ∷ ys)
        ∙ sym (last-append 0 (x ∷ xs) ((q, f) ∷ ys)) in
      (
        _,
        popped (x ∷ xs) ((q, f) ∷ ys) c d r s (
            unlink_inside_lem (unmarked c) c p q _ np _ refl refl (last_nonnull x xs full) rest.0
              not_c (λ z. p_right.0 (sym z)) k.here h k.right.0
            ∙ ground (arith, r.at_head, r.head_shared, r.at_tail ∙ tails, r.tail_shared ∙ tails)),
        popped-Represents (x ∷ xs) ((q, f) ∷ ys) c d r s
            (Segment-append s 0 0 (x ∷ xs) ((q, f) ∷ ys) left right)
            (λ j g. stored-with_prev q p j s' (stored-with_next p q j l.shared.nodes g)),
      )

  -- On a list in shared memory whose bitmap is attached to its memory, a pop of a node, wherever it
  -- stands, gives its slot back, takes that node away and leaves the others in their order.
  pub shared_pop-Represents :
      (xs ys : Cells T) (c : ℕ) (d : T)
      → Represents l (xs ++ (c, d) ∷ ys)
      → Leaves (pop attach c l) (xs ++ ys)
  shared_pop-Represents [] [] c d r = pop_only c d r
  shared_pop-Represents [] ((q, f) ∷ ys) c d r = pop_first q f ys c d r
  shared_pop-Represents (x ∷ xs) [] c d r = pop_last x xs c d r
  shared_pop-Represents (x ∷ xs) ((q, f) ∷ ys) c d r = pop_inside x xs q f ys c d r
