-- ===== src/Ipc/ShmList/Examples.antt =====
-- The theorems on libipc/ipc_shm_list.h at small lists.
use comm_libs.Common.{
  ℕ, zero, suc, ◌+◌, ◌/◌, ◌≤◌, ◌<◌, ◌≡◌, refl, true, false, leb, none, some, List, [], ◌∷◌,
  if◌then◌else◌, arith,
}
use comm_libs.Container.Bitmap.{Bitmap}
use comm_libs.Container.Bitmap.Byte.{bit_test}
use comm_libs.Container.Bitmap.Bits.{bit_of}
use comm_libs.Ipc.ShmList.{
  success, enospace, Shared, ShmList, create, open_list, close_list, set_ret, push_before,
  push_after, push_head, push_tail, pop,
}
use comm_libs.Ipc.ShmList.Slots.{Attaches}
use comm_libs.Ipc.ShmList.Members.{Represents, holds}
use comm_libs.Ipc.ShmList.Reservation.{slot}
use comm_libs.Ipc.ShmList.Before.{Pushes}
use comm_libs.Ipc.ShmList.Ends.{
  shared_push_beside-Represents, shared_push_ends-Represents, full_list-enospace,
}
use comm_libs.Ipc.ShmList.Sessions.{IsNew, sessions-Represent}
use comm_libs.Ipc.ShmList.Pops.{Leaves, shared_pop-Represents}

abbrev over : ℕ → List ℕ → Bitmap
over n bytes = record {
  pages = some bytes;
  page_num = (n + 7) / 8;
  bit_max_size = n;
  bit_cur_size = 0;
}

over-Attaches : Attaches over
over-Attaches = record {
  valid = λ n bytes m. record {
    memory = refl;
    pages = m.pages;
    page_count = refl;
    bytes = m.all_bytes;
    small = m.small;
  };
  size = λ n bytes m. refl;
}

-- A list of `max` slots whose first slot holds 7.
abbrev one : ℕ → ShmList ℕ
one max = record {
  has_info = true;
  shared = record {
    max_num = max;
    cur_num = 1;
    head_index = 1;
    tail_index = 1;
    bytes = 1 ∷ [];
    nodes = λ p. if leb p max then some (record { element = 7; prev = 0; next = 0 }) else none;
    index = λ p. p;
  };
  head = 1;
  tail = 1;
  ret = success;
}

one_marked : (p : ℕ) → 0 < p → p ≤ 8 → bit_of (1 ∷ []) p ≡ holds {T = ℕ} p ((1, 7) ∷ [])
unfolding bit_test
one_marked zero lo hi = absurd (omega arith)
one_marked (suc zero) lo hi = refl
one_marked (suc (suc zero)) lo hi = refl
one_marked (suc (suc (suc zero))) lo hi = refl
one_marked (suc (suc (suc (suc zero)))) lo hi = refl
one_marked (suc (suc (suc (suc (suc zero))))) lo hi = refl
one_marked (suc (suc (suc (suc (suc (suc zero)))))) lo hi = refl
one_marked (suc (suc (suc (suc (suc (suc (suc zero))))))) lo hi = refl
one_marked (suc (suc (suc (suc (suc (suc (suc (suc zero)))))))) lo hi = refl
one_marked (suc (suc (suc (suc (suc (suc (suc (suc (suc p))))))))) lo hi = absurd (omega arith)

one-Represents : (max : ℕ) → 0 < max → max ≤ 8 → Represents (one max) ((1, 7) ∷ [])
one-Represents max lo hi = record {
  opened = refl;
  linked = (ground arith, tt);
  distinct = omega arith;
  at_head = refl;
  at_tail = refl;
  head_shared = refl;
  tail_shared = refl;
  counted = refl;
  room = omega arith;
  memory = record { small = omega arith; pages = omega arith; all_bytes = omega arith };
  numbered = omega arith;
  marked = λ p a b. one_marked p a (omega arith);
  stored = λ p a b. ground arith;
}

shared_push_beside-Represents_example :
    Pushes over over-Attaches 9
      (one 4)
      (push_before over 1 (some 9) (one 4))
      ((slot over (one 4), 9) ∷ (1, 7) ∷ [])
    × Pushes over over-Attaches 9
        (one 4)
        (push_after over 1 (some 9) (one 4))
        ((1, 7) ∷ (slot over (one 4), 9) ∷ [])
shared_push_beside-Represents_example =
    shared_push_beside-Represents over over-Attaches 9 (one 4) [] [] 1 7
      (one-Represents 4 (omega arith) (omega arith)) (omega arith)

shared_push_ends-Represents_example :
    Pushes over over-Attaches 9
      (one 4)
      (push_head over (some 9) (one 4))
      ((slot over (one 4), 9) ∷ (1, 7) ∷ [])
    × Pushes over over-Attaches 9
        (one 4)
        (push_tail over (some 9) (one 4))
        ((1, 7) ∷ (slot over (one 4), 9) ∷ [])
shared_push_ends-Represents_example =
    shared_push_ends-Represents over over-Attaches 9 (one 4) ((1, 7) ∷ [])
      (one-Represents 4 (omega arith) (omega arith)) (omega arith)

shared_pop-Represents_example : Leaves over over-Attaches (one 4) (pop over 1 (one 4)) []
shared_pop-Represents_example =
    shared_pop-Represents over over-Attaches (one 4) [] [] 1 7
      (one-Represents 4 (omega arith) (omega arith))

full_list-enospace_example :
    (push_before over 1 (some 9) (one 1) ≡ some (0, set_ret enospace (one 1)))
    × (push_after over 1 (some 9) (one 1) ≡ some (0, set_ret enospace (one 1)))
full_list-enospace_example =
    full_list-enospace over (one 1) ((1, 7) ∷ []) 1 (some 9)
      (one-Represents 1 (omega arith) (omega arith)) refl

-- Zeroed memory of four slots.
abbrev zeroed : Shared ℕ
zeroed = record {
  max_num = 0;
  cur_num = 0;
  head_index = 0;
  tail_index = 0;
  bytes = 0 ∷ [];
  nodes = λ p. if leb p 4 then some (record { element = 0; prev = 0; next = 0 }) else none;
  index = λ p. 0;
}

zero_bits : (p : ℕ) → 0 < p → p ≤ 4 → bit_of (0 ∷ []) p ≡ false
unfolding bit_test
zero_bits zero lo hi = absurd (omega arith)
zero_bits (suc zero) lo hi = refl
zero_bits (suc (suc zero)) lo hi = refl
zero_bits (suc (suc (suc zero))) lo hi = refl
zero_bits (suc (suc (suc (suc zero)))) lo hi = refl
zero_bits (suc (suc (suc (suc (suc p))))) lo hi = absurd (omega arith)

zeroed-IsNew : IsNew 4 zeroed
zeroed-IsNew = record {
  sized = record { small = omega arith; pages = omega arith; all_bytes = omega arith };
  unmarked = zero_bits;
  slots = λ p a b. ground arith;
}

sessions-Represent_example :
    Represents (open_list (create 4 zeroed)) []
    × Represents (open_list (close_list (one 4)).shared) ((1, 7) ∷ [])
sessions-Represent_example =
    sessions-Represent 4 zeroed (one 4) ((1, 7) ∷ []) zeroed-IsNew
      (one-Represents 4 (omega arith) (omega arith))
