-- ===== src/Ipc/ShmList/Joining.antt =====
-- A new node between the nodes of a list of libipc/ipc_shm_list.h, whatever call links it in.
use comm_libs.Common.{
  ℕ, ◌<◌, ◌≡◌, ◌≢◌, refl, sym, ◌∙◌, true, List, [], ◌∷◌, ◌++◌, length, if◌then◌else◌, ◌==◌, arith,
}
use comm_libs.Container.Bitmap.{Bitmap}
use comm_libs.Container.LinkList.{Store, with_prev, with_next}
use comm_libs.Container.LinkList.Segment.{
  Cells, first, last, Segment, Segment-split, Avoids-split, Distinct-around, Distinct-insert,
  length-insert,
}
use comm_libs.Container.LinkList.Links.{frame}
use comm_libs.Container.LinkList.Insertion.{Ready}
use comm_libs.Ipc.ShmList.{ShmList, count_up}
use comm_libs.Ipc.ShmList.Members.{
  Represents, Numbered, is_stored, not_held-Avoids, holds-insert, Numbered-append, Numbered-split,
}
use comm_libs.Ipc.ShmList.Reservation.{slot, placed, IsReserved}

module _ {T : Type 0} where
  -- A list with other links and the nodes `ws`.
  abbrev pub joined : Store T → Cells T → ShmList T → ShmList T
  joined s ws l = record l {
    shared = record l.shared { nodes = s; head_index = first ws 0; tail_index = last 0 ws };
    head = first ws 0;
    tail = last 0 ws;
  }

  -- Writes of links leave every slot with a node.
  pub stored-with_prev :
      (a v j : ℕ) (s : Store T) → is_stored (s j) ≡ true → is_stored (with_prev a v s j) ≡ true
  stored-with_prev a v j s h = ground arith

  pub stored-with_next :
      (a v j : ℕ) (s : Store T) → is_stored (s j) ≡ true → is_stored (with_next a v s j) ≡ true
  stored-with_next a v j s h = ground arith

  pub two_writes_stored :
      (p c q j : ℕ) (s : Store T)
      → is_stored (s j) ≡ true
      → (is_stored (with_prev p q (with_next p c s) j) ≡ true)
        × (is_stored (with_next p q (with_prev p c s) j) ≡ true)
  two_writes_stored p c q j s h = (
    stored-with_prev p q j (with_next p c s) (stored-with_next p c j s h),
    stored-with_next p q j (with_prev p c s) (stored-with_prev p c j s h),
  )

  pub four_writes_stored :
      (p c q j : ℕ) (s : Store T)
      → is_stored (s j) ≡ true
      → (is_stored (with_prev c p (with_next q p (with_prev p q (with_next p c s))) j) ≡ true)
        × (is_stored (with_next c p (with_prev q p (with_next p q (with_prev p c s))) j) ≡ true)
  four_writes_stored p c q j s h =
      let (a, b) = two_writes_stored p c q j s h in
      (
        stored-with_prev c p j (with_next q p (with_prev p q (with_next p c s)))
            (stored-with_next q p j (with_prev p q (with_next p c s)) a),
        stored-with_next c p j (with_prev q p (with_next p q (with_prev p c s)))
            (stored-with_prev q p j (with_next p q (with_prev p c s)) b),
      )

  pub Numbered-number :
      (n p : ℕ) (index : ℕ → ℕ) (xs : Cells T)
      → Numbered n index xs
      → Numbered n (λ q. if p == q then p else index q) xs
  Numbered-number n p index [] a = tt
  Numbered-number n p index ((q, d) ∷ xs) a =
      (a.0, a.1, ground arith, Numbered-number n p index xs a.3)

module _ {T : Type 0} (attach : ℕ → List ℕ → Bitmap) (e : T) (l : ShmList T) where
  pub joined-Represents :
      (xs zs : Cells T) (s : Store T)
      → Represents l (xs ++ zs)
      → IsReserved attach e l (xs ++ zs)
      → length (xs ++ zs) < l.shared.max_num
      → Segment s 0 (xs ++ (slot attach l, e) ∷ zs) 0
      → ((j : ℕ) → is_stored ((placed attach e l).shared.nodes j) ≡ true → is_stored (s j) ≡ true)
      → Represents
          (count_up (joined s (xs ++ (slot attach l, e) ∷ zs) (placed attach e l)))
          (xs ++ (slot attach l, e) ∷ zs)
  joined-Represents xs zs s r k space linked stored =
      let p = slot attach l in
      let (old_left, old_right) = Numbered-split l.shared.max_num l.shared.index xs zs r.numbered in
      let left = Numbered-number l.shared.max_num p l.shared.index xs old_left in
      let right = Numbered-number l.shared.max_num p l.shared.index zs old_right in
      record {
        opened = r.opened;
        linked = linked;
        distinct =
            Distinct-insert xs zs p e (omega (arith, k.above)) (not_held-Avoids p (xs ++ zs) k.free)
              r.distinct;
        at_head = refl;
        at_tail = refl;
        head_shared = refl;
        tail_shared = refl;
        counted = omega (arith, r.counted, r.memory.small, length-insert xs zs (p, e));
        room = omega (arith, length-insert xs zs (p, e));
        memory = k.memory;
        numbered =
            Numbered-append l.shared.max_num _ xs ((p, e) ∷ zs) left
              (k.above, k.below, ground arith, right);
        marked = λ j a b. k.marked j a b ∙ sym (holds-insert j p e xs zs);
        stored = λ j a b. stored j (k.stored j a b);
      }

  -- The nodes beside `c` and the new one before it is linked in.
  pub ready :
      (xs ys : Cells T) (c : ℕ) (d : T)
      → Represents l (xs ++ (c, d) ∷ ys)
      → IsReserved attach e l (xs ++ (c, d) ∷ ys)
      → Ready (placed attach e l).shared.nodes xs c d ys (slot attach l)
  ready xs ys c d r k =
      let p = slot attach l in
      let s = l.shared.nodes in
      let s' = (placed attach e l).shared.nodes in
      let (left, mid) = Segment-split s 0 0 xs ((c, d) ∷ ys) r.linked in
      let (nonnull, a, b, others) = Distinct-around xs ys c d r.distinct in
      let (free_left, free_rest) =
        Avoids-split p xs ((c, d) ∷ ys) (not_held-Avoids p (xs ++ (c, d) ∷ ys) k.free) in
      let same : (q : ℕ) → q ≢ p → s' q ≡ s q = λ q h. ground arith in
      record {
        left = frame s s' 0 c p xs same free_left left;
        here = same c free_rest.0 ∙ mid.0;
        right = frame s s' c 0 p ys same free_rest.1 mid.1;
        nonnull = nonnull;
        others = others;
        left_side = a;
        right_side = b;
        fresh = omega (arith, k.above);
        fresh_left = free_left;
        fresh_here = free_rest.0;
        fresh_right = free_rest.1;
      }
