-- ===== src/Ipc/ShmList/Ends.antt =====
-- The pushes of libipc/ipc_shm_list.h beside a node, at the ends of any list, and in a full list.
use comm_libs.Common.{
  ℕ, ◌≡◌, ◌<◌, sym, subst, append_assoc, ◌∙◌, List, Option, some, [], ◌∷◌, ◌++◌, length, arith,
}
use comm_libs.Container.Bitmap.{Bitmap}
use comm_libs.Container.LinkList.{Store, with_prev, with_next}
use comm_libs.Container.LinkList.Segment.{Cells, Segment, last-append}
use comm_libs.Container.LinkList.Ends.{unsnoc}
use comm_libs.Ipc.ShmList.{
  ShmList, enospace, set_ret, link_before, link_after, link_alone, reserve, push_before, push_after,
  push_head, push_tail,
}
use comm_libs.Ipc.ShmList.Slots.{Attaches}
use comm_libs.Ipc.ShmList.Members.{Represents}
use comm_libs.Ipc.ShmList.Reservation.{slot, placed, IsReserved, reserved}
use comm_libs.Ipc.ShmList.Joining.{joined, stored-with_prev, stored-with_next, joined-Represents}
use comm_libs.Ipc.ShmList.Before.{Pushes, pushed_before, push_before-Represents}
use comm_libs.Ipc.ShmList.After.{pushed_after, push_after-Represents}

module _ {T : Type 0} (attach : ℕ → List ℕ → Bitmap) (w : Attaches attach) (e : T)
    (l : ShmList T) where
  -- The links of the first node of an empty list.
  module _ (r : Represents l []) (k : IsReserved attach e l []) where
    abbrev alone_store : Store T
    alone_store =
        with_next (slot attach l) 0 (with_prev (slot attach l) 0 (placed attach e l).shared.nodes)

    alone_link :
        (link_before l.head (slot attach l) (placed attach e l)
          ≡ some (joined alone_store ((slot attach l, e) ∷ []) (placed attach e l)))
        × (link_after l.tail (slot attach l) (placed attach e l)
            ≡ some (joined alone_store ((slot attach l, e) ∷ []) (placed attach e l)))
    unfolding link_before link_after link_alone
    alone_link = ground (arith, k.built, r.at_head, r.at_tail)

    alone_linked : Segment alone_store 0 ((slot attach l, e) ∷ []) 0
    alone_linked = (ground (arith, k.built), tt)

  alone-Represents :
      (r : Represents l [])
      → 0 < l.shared.max_num
      → Pushes attach w e l (push_head attach (some e) l) ((slot attach l, e) ∷ [])
        × Pushes attach w e l (push_tail attach (some e) l) ((slot attach l, e) ∷ [])
  unfolding push_head push_tail
  alone-Represents r space =
      let k = reserved attach w e l [] r space in
      let s = alone_store r k in
      let (before, after) = alone_link r k in
      let held = joined-Represents attach e l [] [] s r k space (alone_linked r k) (λ j h.
        stored-with_next (slot attach l) 0 j
          (with_prev (slot attach l) 0 (placed attach e l).shared.nodes)
          (stored-with_prev (slot attach l) 0 j (placed attach e l).shared.nodes h)) in
      (
        (_, pushed_before attach w e l l.head s ((slot attach l, e) ∷ []) k before, held),
        (_, pushed_after attach w e l l.tail s ((slot attach l, e) ∷ []) k after, held),
      )

  -- On a list in shared memory with fewer elements than slots, whose bitmap is attached to its memory,
  -- `PushBefore` and `PushAfter` at any node put the element into the least free slot and next to that
  -- node, and leave the other nodes in their order; they never fail for the bitmap.
  pub shared_push_beside-Represents :
      (xs ys : Cells T) (c : ℕ) (d : T)
      → Represents l (xs ++ (c, d) ∷ ys)
      → length (xs ++ (c, d) ∷ ys) < l.shared.max_num
      → Pushes attach w e l
          (push_before attach c (some e) l)
          (xs ++ (slot attach l, e) ∷ (c, d) ∷ ys)
        × Pushes attach w e l
            (push_after attach c (some e) l)
            (xs ++ (c, d) ∷ (slot attach l, e) ∷ ys)
  shared_push_beside-Represents xs ys c d r space = (
    push_before-Represents attach w e l xs ys c d r space,
    push_after-Represents attach w e l xs ys c d r space,
  )

  -- On a list in shared memory with fewer elements than slots, empty or not, whose bitmap is attached
  -- to its memory, `PushHead` puts the element before all others and `PushTail` behind them.
  pub shared_push_ends-Represents :
      (xs : Cells T)
      → Represents l xs
      → length xs < l.shared.max_num
      → Pushes attach w e l (push_head attach (some e) l) ((slot attach l, e) ∷ xs)
        × Pushes attach w e l (push_tail attach (some e) l) (xs ++ (slot attach l, e) ∷ [])
  unfolding push_head push_tail
  shared_push_ends-Represents [] r space = alone-Represents r space
  shared_push_ends-Represents ((p, d) ∷ xs) r space =
      let new : ℕ × T = (slot attach l, e) in
      let (zs, (q, f), cut) = unsnoc (p, d) xs in
      let r' : Represents l (zs ++ (q, f) ∷ []) = subst (Represents l) cut r in
      let space' = subst (λ ys. length ys < l.shared.max_num) cut space in
      let at_q : l.tail ≡ q = r'.at_tail ∙ last-append 0 zs ((q, f) ∷ []) in
      let back = push_after-Represents attach w e l zs [] q f r' space' in
      (
        subst (λ h. Pushes attach w e l (push_before attach h (some e) l) (new ∷ (p, d) ∷ xs))
            (sym r.at_head) (push_before-Represents attach w e l [] xs p d r space),
        subst
            (λ h. Pushes attach w e l (push_after attach h (some e) l) (((p, d) ∷ xs) ++ new ∷ []))
            (sym at_q)
            (subst (λ ys. Pushes attach w e l (push_after attach q (some e) l) (ys ++ new ∷ []))
              (sym cut)
              (subst (Pushes attach w e l (push_after attach q (some e) l))
                (sym (append_assoc zs ((q, f) ∷ []) (new ∷ []))) back)),
      )

-- A push into a full list, at any node and with any element, gives a null pointer and leaves the list
-- but for the error value, which says that there is no space.
pub full_list-enospace :
    {T : Type 0} (attach : ℕ → List ℕ → Bitmap) (l : ShmList T) (xs : Cells T) (node : ℕ)
    (element : Option T)
    → Represents l xs
    → length xs ≡ l.shared.max_num
    → (push_before attach node element l ≡ some (0, set_ret enospace l))
      × (push_after attach node element l ≡ some (0, set_ret enospace l))
unfolding push_before push_after reserve
full_list-enospace attach l xs node element r full = ground (arith, r.opened, r.counted)
