-- ===== src/Container/TrieTree.antt =====
-- libcontainer/container_trie_tree.h: a tree of nodes with 95 slots each, one step down for each byte
-- of a key. Every node has one parent, so a node owns its children here, and the links back to the
-- parent, which are followed up the path of a key, are the returns of the recursion along the key.
-- `room` is how many calls of `Malloc` still succeed; constructing an element at a null pointer, and a
-- slot behind the last, are `outside`.
pub mod Keys
pub mod Look
pub mod Walk
pub mod Refinement
pub mod Failure
mod Examples
use comm_libs.Common.{
  ℕ, zero, suc, ◌+◌, ◌-◌, ◌%◌, ◌^◌, Bool, true, false, not, ◌&&◌, ◌||◌, Option, none, some, List,
  [], ◌∷◌, length, if◌then◌else◌, ◌==◌, ltb,
}
use comm_libs.Common.Access.{Access, done, outside}
use Prim.Native.Nat.{bit_and}

mutual
  -- An element and the slots; no other index than those below 95 is a slot.
  pub data TtNode (T : Type 0) : Type 0 where
    node : Option T → (ℕ → Slot T) → TtNode T

  pub data Slot (T : Type 0) : Type 0 where
    absent : Slot T
    child : TtNode T → Slot T

pub data Ret : Type 0 where
  success tt_ekey tt_eindex tt_enotfound emalloc : Ret

pub record TrieTree (T : Type 0) : Type 0 where
  pub max_key_length : ℕ
  pub count : ℕ
  pub root : TtNode T
  pub last_return : Ret

abbrev pub tt_default_max_key_length : ℕ
tt_default_max_key_length = 128

abbrev pub tt_dict_size : ℕ
tt_dict_size = 95

-- `TT_DICT_INDEX` of a byte as an `unsigned int`: a `char` from 128 on is negative.
unfoldable pub tt_dict_index : ℕ → ℕ
tt_dict_index c = bit_and (if ltb c 128 then c else 2 ^ 32 - (256 - c)) (2 ^ 32 - 1 - 32)

abbrev pub is_success : Ret → Bool
is_success success = true
is_success ret = false

module _ {T : Type 0} where
  -- `_TTNode_init`
  abbrev pub fresh_node : TtNode T
  fresh_node = node none (λ i. absent)

  abbrev pub set_slot : ℕ → Slot T → (ℕ → Slot T) → ℕ → Slot T
  set_slot i v slots j = if i == j then v else slots j

  -- `slots_[curoffset]`
  abbrev pub get_slot : ℕ → (ℕ → Slot T) → Access (Slot T)
  get_slot i slots = if ltb i tt_dict_size then done (slots i) else outside

  abbrev pub is_absent : Slot T → Bool
  is_absent absent = true
  is_absent (child n) = false

  -- The loop over the slots of a node without an element.
  pub all_absent : ℕ → (ℕ → Slot T) → Bool
  all_absent zero slots = true
  all_absent (suc i) slots = is_absent (slots i) && all_absent i slots

  abbrev pub is_unused : TtNode T → Bool
  is_unused (node none slots) = all_absent tt_dict_size slots
  is_unused (node (some d) slots) = false

  -- One round of `_TTNode_clean_reverse`: what the parent's slot holds after it.
  abbrev pub clean : TtNode T → Slot T
  clean n = if is_unused n then absent else child n

  abbrev pub set_ret : Ret → TrieTree T → TrieTree T
  set_ret ret t = record t { last_return = ret }

  abbrev pub is_bad_key : List ℕ → TrieTree T → Bool
  is_bad_key key t = length key == 0 || ltb t.max_key_length (length key)

  -- The loop of `find`: the element at the end, which may be a null pointer, and the return value.
  pub find_from : List ℕ → TtNode T → Access (Option T × Ret)
  find_from [] (node d slots) = done (d, success)
  find_from (c ∷ cs) (node d slots) =
      let found = get_slot (tt_dict_index c) slots in
      if ltb tt_dict_size (tt_dict_index c) then done (none, tt_eindex) else elim found [
        | outside ↦ outside
        | done absent ↦ done (none, tt_enotfound)
        | done (child n) ↦ find_from cs n
      ]

  unfoldable pub find : List ℕ → TrieTree T → Access (Option T × TrieTree T)
  unfolding find_from
  find key t =
      if is_bad_key key t then done (none, set_ret tt_ekey t) else elim (find_from key t.root) [
        | outside ↦ outside
        | done (d, ret) ↦ done (d, set_ret ret t)
      ]

  -- What the parent's slot holds after the part of `insert` below it.
  abbrev pub after_insert : Ret → TtNode T → Slot T
  after_insert emalloc n = clean n
  after_insert ret n = child n

  abbrev pub put_below :
      Option T → (ℕ → Slot T) → ℕ → Access (Ret × TtNode T) → Access (Ret × TtNode T)
  put_below d slots i outside = outside
  put_below d slots i (done (ret, n)) = done (ret, node d (set_slot i (after_insert ret n) slots))

  -- The loop of `insert` and what follows it: the return value, and the node after it.
  pub insert_from : T → List ℕ → (room : ℕ) → TtNode T → Access (Ret × TtNode T)
  insert_from element [] zero (node none slots) = outside
  insert_from element [] (suc room) (node none slots) = done (success, node (some element) slots)
  insert_from element [] room (node (some old) slots) = done (success, node (some element) slots)
  insert_from element (c ∷ cs) room (node d slots) =
      let i = tt_dict_index c in
      if ltb tt_dict_size i then done (tt_eindex, node d slots) else elim (get_slot i slots) [
        | outside ↦ outside
        | done (child n) ↦ put_below d slots i (insert_from element cs room n)
        | done absent ↦ elim room [
          | zero ↦ done (emalloc, node d slots)
          | suc left ↦ put_below d slots i (insert_from element cs left fresh_node)
        ]
      ]

  abbrev pub finish_insert : TrieTree T → Access (Ret × TtNode T) → Access (Bool × TrieTree T)
  finish_insert t outside = outside
  finish_insert t (done (ret, root)) = done (
    is_success ret,
    record t {
      root = root;
      last_return = ret;
      count = if is_success ret then (t.count + 1) % 2 ^ 32 else t.count;
    },
  )

  -- `insert`: whether it returns the element, and the tree after it.
  unfoldable pub insert : T → List ℕ → (room : ℕ) → TrieTree T → Access (Bool × TrieTree T)
  unfolding insert_from
  insert element key room t =
      if is_bad_key key t
      then done (false, set_ret tt_ekey t)
      else finish_insert t (insert_from element key room t.root)

  abbrev pub after_remove : Ret → TtNode T → Slot T
  after_remove success n = clean n
  after_remove ret n = child n

  abbrev pub remove_below :
      Option T → (ℕ → Slot T) → ℕ → Access (Ret × TtNode T) → Access (Ret × TtNode T)
  remove_below d slots i outside = outside
  remove_below d slots i (done (ret, n)) =
      done (ret, node d (set_slot i (after_remove ret n) slots))

  -- The loop of `remove` and what follows it.
  pub remove_from : List ℕ → TtNode T → Access (Ret × TtNode T)
  remove_from [] (node none slots) = done (tt_enotfound, node none slots)
  remove_from [] (node (some d) slots) = done (success, node none slots)
  remove_from (c ∷ cs) (node d slots) =
      let i = tt_dict_index c in
      if ltb tt_dict_size i then done (tt_eindex, node d slots) else elim (get_slot i slots) [
        | outside ↦ outside
        | done absent ↦ done (tt_enotfound, node d slots)
        | done (child n) ↦ remove_below d slots i (remove_from cs n)
      ]

  unfoldable pub remove : List ℕ → TrieTree T → Access (Ret × TrieTree T)
  unfolding remove_from
  remove key t =
      if is_bad_key key t
      then done (tt_ekey, set_ret tt_ekey t)
      else elim (remove_from key t.root) [
        | outside ↦ outside
        | done (ret, root) ↦ done (
          ret,
          record t {
            root = root;
            last_return = ret;
            count = if is_success ret then (t.count + 2 ^ 32 - 1) % 2 ^ 32 else t.count;
          },
        )
      ]

-- The constructor; `garbage` is what `last_return_` holds before it is set.
unfoldable pub create : {T : Type 0} → Ret → ℕ → TrieTree T
create garbage max_len = record {
  max_key_length = max_len;
  count = 0;
  root = fresh_node;
  last_return = garbage;
}
