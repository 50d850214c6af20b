-- ===== src/Ipc/ShmList/Reservation.antt =====
-- What both pushes of libipc/ipc_shm_list.h begin with: a free slot for the element.
use comm_libs.Common.{
  ℕ, ◌≤◌, ◌<◌, ◌≡◌, ◌≢◌, refl, sym, ◌∙◌, true, false, List, Option, none, some, length,
  if◌then◌else◌, ◌==◌, arith,
}
use comm_libs.Container.Bitmap
use comm_libs.Container.Bitmap.{Bitmap, success, set_index, find0, page_list}
use comm_libs.Container.Bitmap.Bits.{bit_of}
use comm_libs.Container.LinkList.{Node}
use comm_libs.Container.LinkList.Segment.{Cells}
use comm_libs.Ipc.ShmList.{ShmList, build, number, bitmap, with_bitmap, mark, reserve}
use comm_libs.Ipc.ShmList.Slots.{IsMemory, Attaches, set_slot, free_slot}
use comm_libs.Ipc.ShmList.Members.{Represents, holds, is_stored, length_of_full}

module _ {T : Type 0} (attach : ℕ → List ℕ → Bitmap) where
  abbrev pub slot : ShmList T → ℕ
  slot l = find0 (bitmap attach l)

  -- The list with the element in its slot, which is not linked yet.
  abbrev pub placed : T → ShmList T → ShmList T
  placed e l =
      number (slot l)
        (with_bitmap attach (set_index (slot l) (bitmap attach l)).1 (build (slot l) e l))

  pub record IsReserved (e : T) (l : ShmList T) (xs : Cells T) : Type 0 where
    pub result : reserve attach (some e) l ≡ (true, slot l, placed e l)
    pub above : 0 < slot l
    pub below : slot l ≤ l.shared.max_num
    pub free : holds (slot l) xs ≡ false
    pub memory : IsMemory l.shared.max_num (placed e l).shared.bytes
    pub marked :
        (j : ℕ)
        → 0 < j
        → j ≤ l.shared.max_num
        → bit_of (placed e l).shared.bytes j ≡ (if slot l == j then true else holds j xs)
    pub stale : Node T
    pub built : (placed e l).shared.nodes (slot l) ≡ some (record stale { element = e })
    pub stored :
        (j : ℕ) → 0 < j → j ≤ l.shared.max_num → is_stored ((placed e l).shared.nodes j) ≡ true

  stored_node : (o : Option (Node T)) → is_stored o ≡ true → (n : Node T) × (o ≡ some n)
  stored_node none h = absurd (ground arith)
  stored_node (some n) h = (n, refl)

  mark-success :
      (p : ℕ) (r : Bitmap.Return × Bitmap) (l : ShmList T)
      → r.0 ≡ success
      → mark attach p r l ≡ (true, p, number p (with_bitmap attach r.1 l))
  mark-success p (Bitmap.success, b) l h = refl
  mark-success p (Bitmap.bitmap_init, b) l h = cc
  mark-success p (Bitmap.bitmap_eoutbound, b) l h = cc

  module _ (w : Attaches attach) (e : T) (l : ShmList T) (xs : Cells T) (r : Represents l xs)
      (space : length xs < l.shared.max_num) where
    slot_nonnull : slot l ≢ 0
    slot_nonnull z =
        let all = (free_slot attach w l.shared.max_num l.shared.bytes r.memory).1 z in
        absurd (
          omega (
            arith,
            length_of_full l.shared.max_num xs (λ j lo hi. sym (r.marked j lo hi) ∙ all j lo hi),
          ))

    at_slot :
        (n : Node T)
        → l.shared.nodes (slot l) ≡ some n
        → (placed e l).shared.nodes (slot l) ≡ some (record n { element = e })
    at_slot n h = ground (arith, h)

    reserve-placed :
        (set_index (slot l) (bitmap attach l)).0 ≡ success
        → reserve attach (some e) l ≡ (true, slot l, placed e l)
    unfolding reserve
    reserve-placed ok = ground (
      arith,
      r.opened,
      r.counted,
      slot_nonnull,
      mark-success (slot l) (set_index (slot l) (bitmap attach l)) (build (slot l) e l) ok,
    )

    pub reserved : IsReserved e l xs
    reserved =
        let (lo, hi, off) =
          (free_slot attach w l.shared.max_num l.shared.bytes r.memory).0 slot_nonnull in
        let (ok, memory, bits) =
          set_slot attach w l.shared.max_num l.shared.bytes r.memory (slot l) lo hi in
        let (old, h) = stored_node _ (r.stored (slot l) lo hi) in
        record {
          result = reserve-placed ok;
          above = lo;
          below = hi;
          free = sym (r.marked (slot l) lo hi) ∙ off;
          memory = memory;
          marked = λ j a b. bits j a b ∙ rw (r.marked j a b);
          stale = old;
          built = at_slot old h;
          stored = λ j a b. ground (arith, r.stored j a b);
        }
