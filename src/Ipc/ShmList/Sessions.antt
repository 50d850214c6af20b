-- ===== src/Ipc/ShmList/Sessions.antt =====
-- Lists of libipc/ipc_shm_list.h that are created, closed and opened again.
use comm_libs.Common.{ℕ, ◌≤◌, ◌<◌, ◌≡◌, refl, true, false, [], arith}
use comm_libs.Container.Bitmap.Bits.{bit_of}
use comm_libs.Container.LinkList.Segment.{Cells}
use comm_libs.Ipc.ShmList.{Shared, ShmList, create, open_list, close_list}
use comm_libs.Ipc.ShmList.Slots.{IsMemory}
use comm_libs.Ipc.ShmList.Members.{Represents, is_stored}

module _ {T : Type 0} where
  -- New shared memory for `n` slots: its bytes are zero, and its slots are there.
  pub record IsNew (n : ℕ) (memory : Shared T) : Type 0 where
    pub sized : IsMemory n memory.bytes
    pub unmarked : (p : ℕ) → 0 < p → p ≤ n → bit_of memory.bytes p ≡ false
    pub slots : (p : ℕ) → 0 < p → p ≤ n → is_stored (memory.nodes p) ≡ true

  -- `Create` over new memory and `Open` give the empty list. Where a list is closed and its memory is
  -- opened, by whatever process, the list there has the same elements in the same slots.
  pub sessions-Represent :
      (n : ℕ) (memory : Shared T) (l : ShmList T) (xs : Cells T)
      → IsNew n memory
      → Represents l xs
      → Represents (open_list (create n memory)) []
        × Represents (open_list (close_list l).shared) xs
  unfolding create open_list close_list
  sessions-Represent n memory l xs new r = (
    record {
      opened = refl;
      linked = tt;
      distinct = tt;
      at_head = refl;
      at_tail = refl;
      head_shared = refl;
      tail_shared = refl;
      counted = refl;
      room = omega arith;
      memory = new.sized;
      numbered = tt;
      marked = new.unmarked;
      stored = new.slots;
    },
    record {
      opened = refl;
      linked = r.linked;
      distinct = r.distinct;
      at_head = r.head_shared;
      at_tail = r.tail_shared;
      head_shared = r.head_shared;
      tail_shared = r.tail_shared;
      counted = r.counted;
      room = r.room;
      memory = r.memory;
      numbered = r.numbered;
      marked = r.marked;
      stored = r.stored;
    },
  )
