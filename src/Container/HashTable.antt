-- ===== src/Container/HashTable.antt =====
-- libcontainer/container_hash_table.h: slots for elements, with the hash value as the index. A slot is
-- zeroed memory (`none`) or the bytes of an element; what counts as present is that the first byte is
-- not 0, for which `first_byte` reads an element's memory. The destructor of an element has no effect
-- here, and the lock of the table is a parameter.
pub mod Slots
pub mod Content
pub mod Refinement
pub mod Empty
mod Examples
use comm_libs.Common.{
  ℕ, zero, suc, ◌+◌, ◌-◌, ◌*◌, ◌%◌, ◌^◌, Bool, true, false, not, Option, none, some, List, [], ◌∷◌,
  get_elem?, set, replicate, if◌then◌else◌, ◌==◌, ltb,
}
use comm_libs.Common.Access.{Access, done, outside}

pub data Ret : Type 0 where
  success error ehashindex erlock ewlock eunlock : Ret

pub record Table (T : Type 0) : Type 0 where
  pub size : ℕ
  pub freesize : ℕ
  pub count : ℕ
  pub thread_safe_flag : Bool
  pub memblock : List (Option T)
  pub last_return : Ret

-- `*str++` as a `char` with a sign, added to an `unsigned long`.
abbrev pub char_value : ℕ → ℕ
char_value c = if ltb c 128 then c else 2 ^ 64 - (256 - c)

-- The loop of `BKDRHash`, which ends at a 0.
pub hash_loop : ℕ → List ℕ → ℕ
hash_loop hash [] = hash
hash_loop hash (c ∷ cs) =
    let next = hash_loop ((hash * 31 + char_value c) % 2 ^ 64) cs in if c == 0 then hash else next

-- `BKDRHash`; `none` is a null pointer.
unfoldable pub bkdr_hash : Option (List ℕ) → ℕ
unfolding hash_loop
bkdr_hash none = 0
bkdr_hash (some str) = hash_loop 0 str

-- The constructor; `garbage` is what `last_return_` holds before it is set.
unfoldable pub create : {T : Type 0} → Ret → ℕ → Table T
create garbage size = record {
  size = size;
  freesize = size;
  count = 0;
  thread_safe_flag = false;
  memblock = replicate size none;
  last_return = garbage;
}

abbrev pub set_ret : {T : Type 0} → Ret → Table T → Table T
set_ret ret t = record t { last_return = ret }

module _ {T : Type 0} (first_byte : T → ℕ) where
  -- `*reinterpret_cast<char*>(offset)`
  abbrev pub is_present : Option T → Bool
  is_present none = false
  is_present (some element) = not (first_byte element == 0)

  -- `Construct` over a slot, and the counters.
  abbrev pub construct : Bool → T → ℕ → Table T → Table T
  construct true element hash t = record t { memblock = set t.memblock hash (some element) }
  construct false element hash t = record t {
    memblock = set t.memblock hash (some element);
    count = (t.count + 1) % 2 ^ 64;
    freesize = (t.freesize + 2 ^ 64 - 1) % 2 ^ 64;
  }

  -- `insert` with a hash value: the slot that it returns, or `none` for a null pointer.
  unfoldable pub insert_at : T → ℕ → Table T → Access (Option ℕ × Table T)
  insert_at element hash t =
      if ltb t.size hash
      then done (none, set_ret ehashindex t)
      else elim (get_elem? t.memblock hash) [
        | none ↦ outside
        | some slot ↦ done (some hash, construct (is_present slot) element hash t)
      ]

  abbrev pub destruct : Bool → ℕ → Table T → Table T
  destruct false hash t = t
  destruct true hash t = record t {
    memblock = set t.memblock hash none;
    count = (t.count + 2 ^ 64 - 1) % 2 ^ 64;
    freesize = (t.freesize + 1) % 2 ^ 64;
  }

  -- `remove` with a hash value.
  unfoldable pub remove_at : ℕ → Table T → Access (Table T)
  remove_at hash t =
      if ltb t.size hash then done (set_ret ehashindex t) else elim (get_elem? t.memblock hash) [
        | none ↦ outside
        | some slot ↦ done (destruct (is_present slot) hash t)
      ]

  abbrev pub if_present : Option T → Option T
  if_present none = none
  if_present (some element) = if first_byte element == 0 then none else some element

  -- `find` with a hash value: the element that it points to, or `none` for a null pointer.
  unfoldable pub find_at : ℕ → Table T → Access (Option T × Table T)
  find_at hash t =
      if ltb t.size hash
      then done (none, set_ret ehashindex t)
      else elim (get_elem? t.memblock hash) [
        | none ↦ outside
        | some slot ↦ done (if_present slot, t)
      ]

  -- The loop of `empty`, from the slot `loop` with `rounds` to go.
  pub empty_loop : (rounds loop : ℕ) → Table T → Access (Table T)
  empty_loop zero loop t = done t
  empty_loop (suc rounds) loop t = elim (get_elem? t.memblock loop) [
    | none ↦ outside
    | some slot ↦ empty_loop rounds (loop + 1) (destruct (is_present slot) loop t)
  ]

  unfoldable pub empty : Table T → Access (Table T)
  unfolding empty_loop
  empty t = empty_loop t.size 0 t

  module _ {K : Type 0} (hashcode : K → ℕ) where
    -- `hashcode_(…) % size_`, which is undefined for a table of no slots.
    abbrev pub with_hash : {A : Type 0} → K → Table T → (ℕ → Access A) → Access A
    with_hash key t run = if t.size == 0 then outside else run (hashcode key % t.size)

    unfoldable pub insert : T → K → Table T → Access (Option ℕ × Table T)
    insert element key t = with_hash key t (λ hash. insert_at element hash t)

    unfoldable pub remove : K → Table T → Access (Table T)
    remove key t = with_hash key t (λ hash. remove_at hash t)

    unfoldable pub find : K → Table T → Access (Option T × Table T)
    find key t = with_hash key t (λ hash. find_at hash t)

-- `rlock` and `wlock`; the flag says whether the lock's call succeeds.
unfoldable pub rlock : {T : Type 0} → (locked : Bool) → Table T → Ret
rlock locked t = if t.thread_safe_flag then if locked then success else erlock else success

unfoldable pub wlock : {T : Type 0} → (locked : Bool) → Table T → Ret
wlock locked t = if t.thread_safe_flag then if locked then success else ewlock else success

-- `unlock`, which does not look at the flag of the table.
unfoldable pub unlock : (unlocked : Bool) → Ret
unlock unlocked = if unlocked then success else eunlock
