-- ===== src/Ipc/ShmList.antt =====
-- libipc/ipc_shm_list.h: a doubly linked list in shared memory. Its links are the numbers of slots
-- from 1, 0 for none, and a bitmap says which slots are in use. A pointer to a node is the number of
-- its slot, 0 for a null pointer. An access outside the slots is no result (`none`). `attach` stands
-- for the constructor of a bitmap over given memory, which container_bitmap.h does not have.
pub mod Slots
pub mod Members
pub mod Reservation
pub mod Joining
pub mod Links
pub mod Before
pub mod After
pub mod Ends
pub mod Pops
pub mod Sessions
mod Examples
use comm_libs.Common.{
  ℕ, ◌+◌, ◌-◌, ◌%◌, ◌^◌, Bool, true, false, not, Option, none, some, List, if◌then◌else◌, ◌==◌,
  ◌&&◌,
}
use comm_libs.Container.Bitmap.{Bitmap, set_index, unset_index, find0, page_list}
use comm_libs.Container.Bitmap
use comm_libs.Container.LinkList.{Node, Store, set_prev, set_next, ◌>>=◌}

pub data Ret : Type 0 where
  success einit enospace ebitmap econstruct ebadargs : Ret

-- `ShmListInfo` with the bitmap and the slots behind it; `index` is that field of every node.
pub record Shared (T : Type 0) : Type 0 where
  pub max_num : ℕ
  pub cur_num : ℕ
  pub head_index : ℕ
  pub tail_index : ℕ
  pub bytes : List ℕ
  pub nodes : Store T
  pub index : ℕ → ℕ

-- `has_info` is false for a null `info_`.
pub record ShmList (T : Type 0) : Type 0 where
  pub has_info : Bool
  pub shared : Shared T
  pub head : ℕ
  pub tail : ℕ
  pub ret : Ret

module _ {T : Type 0} where
  abbrev pub set_ret : Ret → ShmList T → ShmList T
  set_ret r l = record l { ret = r }

  abbrev pub with_nodes : Store T → ShmList T → ShmList T
  with_nodes s l = record l { shared = record l.shared { nodes = s } }

  abbrev pub set_head : ℕ → ShmList T → ShmList T
  set_head p l = record l { shared = record l.shared { head_index = l.shared.index p }; head = p }

  abbrev pub set_tail : ℕ → ShmList T → ShmList T
  set_tail p l = record l { shared = record l.shared { tail_index = l.shared.index p }; tail = p }

  abbrev pub put_element : T → Option (Node T) → Option (Node T)
  put_element e none = none
  put_element e (some n) = some (record n { element = e })

  -- The element built in the slot, and the number of the slot in its node.
  abbrev pub build : ℕ → T → ShmList T → ShmList T
  build p e l =
      with_nodes (λ q. if p == q then put_element e (l.shared.nodes q) else l.shared.nodes q) l

  abbrev pub number : ℕ → ShmList T → ShmList T
  number p l = record l {
    shared = record l.shared { index = λ q. if p == q then p else l.shared.index q };
  }

  -- The first node of an empty list, and a node before the head, at a null pointer.
  unfoldable pub link_alone : (new_node : ℕ) → ShmList T → Option (ShmList T)
  link_alone new_node l = do
    s ← set_prev new_node 0 l.shared.nodes
    s' ← set_next new_node 0 s
    some (set_tail new_node (set_head new_node (with_nodes s' l)))

  unfoldable pub link_head : (new_node : ℕ) → ShmList T → Option (ShmList T)
  link_head new_node l = do
    s ← set_prev l.head (l.shared.index new_node) l.shared.nodes
    s' ← set_next new_node (l.shared.index l.head) s
    s'' ← set_prev new_node 0 s'
    some (set_head new_node (with_nodes s'' l))

  unfoldable pub link_tail : (new_node : ℕ) → ShmList T → Option (ShmList T)
  link_tail new_node l = do
    s ← set_next l.tail (l.shared.index new_node) l.shared.nodes
    s' ← set_prev new_node (l.shared.index l.tail) s
    s'' ← set_next new_node 0 s'
    some (set_tail new_node (with_nodes s'' l))

  -- `_push_before` at a node: first the link to the node on the left, then the rest.
  unfoldable pub join_left : (new_node left : ℕ) → ShmList T → Store T → Option (Store T)
  join_left new_node left l s =
      if left == 0
      then set_prev new_node 0 s
      else set_prev new_node (l.shared.index left) s >>= set_next left (l.shared.index new_node)

  unfoldable pub link_at_left : (node new_node : ℕ) → ShmList T → Option (ShmList T)
  link_at_left node new_node l = do
    s ← set_next new_node (l.shared.index node) l.shared.nodes
    n ← s node
    s' ← join_left new_node n.prev l s
    s'' ← set_prev node (l.shared.index new_node) s'
    some (if node == l.head then set_head new_node (with_nodes s'' l) else with_nodes s'' l)

  unfoldable pub join_right : (new_node right : ℕ) → ShmList T → Store T → Option (Store T)
  join_right new_node right l s =
      if right == 0
      then set_next new_node 0 s
      else set_next new_node (l.shared.index right) s >>= set_prev right (l.shared.index new_node)

  unfoldable pub link_at_right : (node new_node : ℕ) → ShmList T → Option (ShmList T)
  link_at_right node new_node l = do
    s ← set_prev new_node (l.shared.index node) l.shared.nodes
    n ← s node
    s' ← join_right new_node n.next l s
    s'' ← set_next node (l.shared.index new_node) s'
    some (if node == l.tail then set_tail new_node (with_nodes s'' l) else with_nodes s'' l)

  abbrev pub is_empty : ShmList T → Bool
  is_empty l = l.head == 0 && l.tail == 0

  unfoldable pub link_before : (node new_node : ℕ) → ShmList T → Option (ShmList T)
  link_before node new_node l =
      if node == 0
      then if is_empty l then link_alone new_node l else link_head new_node l
      else link_at_left node new_node l

  unfoldable pub link_after : (node new_node : ℕ) → ShmList T → Option (ShmList T)
  link_after node new_node l =
      if node == 0
      then if is_empty l then link_alone new_node l else link_tail new_node l
      else link_at_right node new_node l

  abbrev pub count_up : ShmList T → ShmList T
  count_up l = record l { shared = record l.shared { cur_num = (l.shared.cur_num + 1) % 2 ^ 64 } }

  abbrev pub count_down : ShmList T → ShmList T
  count_down l = record l {
    shared = record l.shared { cur_num = (l.shared.cur_num + 2 ^ 64 - 1) % 2 ^ 64 };
  }

  -- `_pop`, by which links of the node are null.
  unfoldable pub unlink_inside : ℕ → Node T → ShmList T → Option (ShmList T)
  unlink_inside node n l = do
    s ← set_next n.prev n.next l.shared.nodes
    n' ← s node
    s' ← set_prev n'.next n'.prev s
    some (with_nodes s' l)

  unfoldable pub unlink_first : Node T → ShmList T → Option (ShmList T)
  unlink_first n l = do
    s ← set_prev n.next n.prev l.shared.nodes
    some (set_head n.next (with_nodes s l))

  unfoldable pub unlink_last : Node T → ShmList T → Option (ShmList T)
  unlink_last n l = do
    s ← set_next n.prev n.next l.shared.nodes
    some (set_tail n.prev (with_nodes s l))

  unfoldable pub unlink_only : ShmList T → ShmList T
  unlink_only l = record l {
    shared = record l.shared { head_index = 0; tail_index = 0 };
    head = 0;
    tail = 0;
  }

  unfoldable pub unlink : ℕ → Node T → ShmList T → Option (ShmList T)
  unlink node n l =
      if n.next == 0
      then if n.prev == 0 then some (unlink_only l) else unlink_last n l
      else if n.prev == 0
      then unlink_first n l
      else unlink_inside node n l

module _ {T : Type 0} where
  -- `Create`, over what the new shared memory holds, where the calls of the shared memory succeed.
  unfoldable pub create : (obj_num : ℕ) → Shared T → Shared T
  create obj_num memory = record memory {
    max_num = obj_num;
    cur_num = 0;
    head_index = 0;
    tail_index = 0;
  }

  -- `Open` and the constructor of `ShmListHead`, where the calls of the shared memory succeed.
  unfoldable pub open_list : Shared T → ShmList T
  open_list memory = record {
    has_info = true;
    shared = memory;
    head = memory.head_index;
    tail = memory.tail_index;
    ret = success;
  }

  -- `Close`, which leaves the shared memory, where the call of the shared memory succeeds.
  unfoldable pub close_list : ShmList T → ShmList T
  close_list l = record l { has_info = false; head = 0; tail = 0 }

module _ {T : Type 0} (attach : ℕ → List ℕ → Bitmap) where
  abbrev pub bitmap : ShmList T → Bitmap
  bitmap l = attach l.shared.max_num l.shared.bytes

  abbrev pub with_bitmap : Bitmap → ShmList T → ShmList T
  with_bitmap b l = record l { shared = record l.shared { bytes = page_list b } }

  abbrev pub mark : ℕ → Bitmap.Return × Bitmap → ShmList T → Bool × ℕ × ShmList T
  mark p (Bitmap.success, b) l = (true, p, number p (with_bitmap b l))
  mark p (Bitmap.bitmap_init, b) l = (false, 0, set_ret ebitmap (with_bitmap b l))
  mark p (Bitmap.bitmap_eoutbound, b) l = (false, 0, set_ret ebitmap (with_bitmap b l))

  abbrev pub construct : Option T → ℕ → ShmList T → Bool × ℕ × ShmList T
  construct none p l = (false, 0, set_ret econstruct l)
  construct (some e) p l = mark p (set_index p (bitmap l)) (build p e l)

  -- What both pushes begin with: whether there is a slot, its number, and the list with the element in
  -- it. The element is `none` where its construction gives a null pointer.
  unfoldable pub reserve : Option T → ShmList T → Bool × ℕ × ShmList T
  reserve element l =
      if not l.has_info
      then (false, 0, set_ret einit l)
      else if l.shared.max_num == l.shared.cur_num
      then (false, 0, set_ret enospace l)
      else if find0 (bitmap l) == 0
      then (false, 0, set_ret ebitmap l)
      else construct element (find0 (bitmap l)) l

  abbrev pub finish : Option (ShmList T) → ℕ → Option (ℕ × ShmList T)
  finish none p = none
  finish (some l) p = some (p, count_up l)

  -- `_push_before` and `_push_after`; the number of the new element's slot, 0 for a null pointer.
  unfoldable pub push_before : ℕ → Option T → ShmList T → Option (ℕ × ShmList T)
  push_before node element l =
      let (found, p, l') = reserve element l in
      if found then finish (link_before node p l') p else some (0, l')

  unfoldable pub push_after : ℕ → Option T → ShmList T → Option (ℕ × ShmList T)
  push_after node element l =
      let (found, p, l') = reserve element l in
      if found then finish (link_after node p l') p else some (0, l')

  -- `PushHead` and `PushTail`
  unfoldable pub push_head : Option T → ShmList T → Option (ℕ × ShmList T)
  push_head element l = push_before l.head element l

  unfoldable pub push_tail : Option T → ShmList T → Option (ℕ × ShmList T)
  push_tail element l = push_after l.tail element l

  -- `_pop`
  unfoldable pub pop : ℕ → ShmList T → Option (ShmList T)
  pop node l =
      if not l.has_info
      then some (set_ret einit l)
      else if node == 0
      then some (set_ret ebadargs l)
      else l.shared.nodes node >>= λ n.
          unlink node n (with_bitmap (unset_index (l.shared.index node) (bitmap l)).1 l) >>= λ l'.
          some (count_down l')

  -- `PopHead` and `PopTail`
  unfoldable pub pop_head : ShmList T → Option (ShmList T)
  pop_head l = pop l.head l

  unfoldable pub pop_tail : ShmList T → Option (ShmList T)
  pop_tail l = pop l.tail l
