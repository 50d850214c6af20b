-- ===== src/Memory/Pool.antt =====
-- libmemory/memory_pool_busylist.cc and memory_pool_threadcache.cc: blocks of the C library that a thread
-- has in use. `Heap` says which addresses `malloc` has handed out and `free` has not had back; `free` of
-- any other is undefined (`none`), and so is the result of the pool's own `Alloc`, which has no return.
pub mod Tracking
pub mod Calls
mod Examples
use comm_libs.Common.{
  ℕ, zero, suc, ◌%◌, ◌^◌, Bool, true, false, Option, none, some, List, [], ◌∷◌, length,
  if◌then◌else◌, ◌==◌, ℕ_discrete,
}
use comm_libs.StdMap.{Map}
use comm_libs.StdMap

pub data ItemOri : Type 0 where
  pool os no_origin : ItemOri

pub data Ret : Type 0 where
  success ebusylistdupaddress ebusylistnotfound : Ret

pub record BusyItem : Type 0 where
  pub alloc_time : ℕ
  pub ori : ItemOri

abbrev pub BusyList : Type 0
BusyList = Map ℕ BusyItem

pub record Heap : Type 0 where
  pub live : ℕ → Bool

abbrev pub lookup : ℕ → BusyList → Option BusyItem
lookup ptr busy = StdMap.find ℕ_discrete ptr busy

-- `MempoolBusyList::Insert` at the time `now`.
abbrev pub insert_item : ℕ → BusyItem → BusyList → Option BusyItem → Ret × BusyList
insert_item ptr item busy (some old) = (ebusylistdupaddress, busy)
insert_item ptr item busy none = (success, StdMap.assign ℕ_discrete ptr item busy)

unfoldable pub insert : ℕ → ItemOri → (now : ℕ) → BusyList → Ret × BusyList
insert ptr ori now busy =
    insert_item ptr (record { alloc_time = now; ori = ori }) busy (lookup ptr busy)

abbrev pub remove_item : ℕ → BusyList → Option BusyItem → Ret × BusyList
remove_item ptr busy none = (ebusylistnotfound, busy)
remove_item ptr busy (some item) = (success, StdMap.erase ℕ_discrete ptr busy)

-- `MempoolBusyList::Remove`
unfoldable pub remove : ℕ → BusyList → Ret × BusyList
remove ptr busy = remove_item ptr busy (lookup ptr busy)

abbrev pub ori_of : Option BusyItem → ItemOri
ori_of none = no_origin
ori_of (some item) = item.ori

-- `MempoolBusyList::Origin`
unfoldable pub origin : ℕ → BusyList → ItemOri
origin ptr busy = ori_of (lookup ptr busy)

-- `MempoolBusyList::Size`
unfoldable pub size : BusyList → ℕ
size busy = length busy % 2 ^ 32

pub record ThreadCache : Type 0 where
  pub init_flag : Bool
  pub busy_list : BusyList
  pub heap : Heap

-- The constructor: `Init` returns an error, and the lists are new.
unfoldable pub create : Heap → ThreadCache
create start = record { init_flag = false; busy_list = []; heap = start }

abbrev pub with_live : ℕ → Bool → Heap → Heap
with_live ptr flag s = record { live = λ p. if p == ptr then flag else s.live p }

-- `MempoolOsProxy::Free`, that is, `free`.
abbrev pub heap_free : ℕ → Heap → Option Heap
heap_free ptr s = if s.live ptr then some (with_live ptr false s) else none

abbrev pub keep_block : ℕ → ThreadCache → Ret × BusyList → Option (ℕ × ThreadCache)
keep_block ptr c (success, busy) =
    some (ptr, record c { busy_list = busy; heap = with_live ptr true c.heap })
keep_block ptr c (ret, busy) = elim (heap_free ptr (with_live ptr true c.heap)) [
  | none ↦ none
  | some s ↦ some (0, record c { heap = s })
]

-- `MempoolThreadCache::Alloc`: the address, 0 for a null pointer. `malloc` gives what the C library
-- answers in a state.
unfoldable pub alloc :
    (malloc : Heap → ℕ → ℕ) → (now size : ℕ) → ThreadCache → Option (ℕ × ThreadCache)
unfolding insert
alloc malloc now size c =
    let ptr = malloc c.heap size in
    if c.init_flag
    then none
    else if ptr == 0
    then some (0, c)
    else keep_block ptr c (insert ptr os now c.busy_list)

abbrev pub free_block : ℕ → ThreadCache → ItemOri → Option ThreadCache
free_block ptr c os = elim (heap_free ptr c.heap) [
  | none ↦ none
  | some s ↦ some (record c { heap = s; busy_list = (remove ptr c.busy_list).1 })
]
free_block ptr c pool = some (record c { busy_list = (remove ptr c.busy_list).1 })
free_block ptr c no_origin = some c

-- `MempoolThreadCache::Free`
unfoldable pub free : ℕ → ThreadCache → Option ThreadCache
unfolding origin remove
free ptr c = if ptr == 0 then some c else free_block ptr c (origin ptr c.busy_list)
