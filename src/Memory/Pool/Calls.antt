-- ===== src/Memory/Pool/Calls.antt =====
-- Calls of `Alloc` and `Free` of memory_pool_threadcache.cc in any order.
use comm_libs.Common.{
  ℕ, ◌≡◌, ◌≢◌, refl, sym, subst, ◌∙◌, Bool, true, false, ◌&&◌, Option, none, some, List, [], ◌∷◌,
  arith, if◌then◌else◌, ◌==◌, ==_iff, ℕ_discrete, Bool-cases, Option-cases, inl, inr, ◌⊎◌,
}
use comm_libs.StdMap
use comm_libs.Memory.Pool.{
  os, BusyItem, BusyList, Heap, lookup, remove, origin, ThreadCache, create, with_live, alloc, free,
}
use comm_libs.Memory.Pool.Tracking.{
  IsValid, IsMalloc, lookup-assign, lookup-erase, insert_fresh, untracked, tracked_after,
  tracked_without,
}

-- What `Alloc` gives: a null pointer and no change, or a block that was not in use and is now tracked
-- as one of the C library, with all other addresses tracked as before.
pub data Allocated (now : ℕ) (c : ThreadCache) : ℕ → ThreadCache → Type 0 where
  no_memory : Allocated now c 0 c
  new_block :
      (p : ℕ) (c' : ThreadCache)
      → p ≢ 0
      → c.heap.live p ≡ false
      → lookup p c.busy_list ≡ none
      → ((q : ℕ)
          → lookup q c'.busy_list ≡ (
              if q == p
              then some (record { alloc_time = now; ori = os })
              else lookup q c.busy_list))
      → Allocated now c p c'

unused_block : (p : ℕ) {b : Bool} → (p ≡ 0) ⊎ (b ≡ false) → p ≢ 0 → b ≡ false
unused_block p (inl null) h = absurd (h null)
unused_block p (inr dead) h = dead

-- On a valid cache, where `malloc` answers as the C library says, `Alloc` ends with a result and a
-- valid cache: a block that was not in use and is now tracked as one of the C library, while all others
-- are tracked as before, or a null pointer and no change.
pub alloc-Allocated :
    (malloc : Heap → ℕ → ℕ) (now size : ℕ) (c : ThreadCache)
    → IsMalloc malloc
    → IsValid c
    → (p : ℕ) × (c' : ThreadCache) × (alloc malloc now size c ≡ some (p, c'))
      × Allocated now c p c'
      × IsValid c'
unfolding alloc
alloc-Allocated malloc now size c m v = elim (Bool-cases (malloc c.heap size == 0)) [
  | inl null ↦ (0, c, ground (arith, v.no_pool, null), no_memory, v)
  | inr block ↦
      let p : ℕ = malloc c.heap size in
      let nonnull : p ≢ 0 = ground (arith, block) in
      let dead : c.heap.live p ≡ false = unused_block p (m c.heap size) nonnull in
      let free_key = untracked c p v dead in
      let inserted = insert_fresh p now c.busy_list free_key in
      (
        p,
        record c {
          busy_list =
              StdMap.assign ℕ_discrete p (record { alloc_time = now; ori = os }) c.busy_list;
          heap = with_live p true c.heap;
        },
        ground (arith, v.no_pool, block, inserted),
        new_block p _ nonnull dead free_key
            (λ q. lookup-assign q p (record { alloc_time = now; ori = os }) c.busy_list),
        tracked_after c p now v nonnull,
      )
]

abbrev pub is_tracked : Option BusyItem → Bool
is_tracked none = false
is_tracked (some item) = true

-- `Free` of a block.
pub freed : ℕ → ThreadCache → ThreadCache
freed p c = record c {
  busy_list = StdMap.erase ℕ_discrete p c.busy_list;
  heap = with_live p false c.heap;
}

free_tracked :
    (p : ℕ) (c : ThreadCache) {item : BusyItem}
    → IsValid c
    → lookup p c.busy_list ≡ some item
    → free p c ≡ some (freed p c)
unfolding free freed remove origin
free_tracked p c {item} v e =
    let (is_live, is_os, nonnull) = v.tracked p item e in ground (arith, e, is_live, is_os, nonnull)

free_untracked : (p : ℕ) (c : ThreadCache) → lookup p c.busy_list ≡ none → free p c ≡ some c
unfolding free origin
free_untracked p c e = ground (arith, e)

erase_untracked :
    (p q : ℕ) (busy : BusyList)
    → lookup p busy ≡ none
    → lookup q busy ≡ (if q == p then none else lookup q busy)
erase_untracked p q busy e = elim (Bool-cases (q == p)) [
  | inl same ↦ rw same (subst (λ k. lookup k busy ≡ none) (sym ((==_iff q p).0 same)) e)
  | inr other ↦ rw other
]

-- On a valid cache `Free` of any address ends with a valid cache: the address is then not tracked, all
-- others are as before, an address that was not tracked changes nothing, a tracked one goes back to
-- the C library, and freeing the address once more changes nothing.
pub free_once :
    (p : ℕ) (c : ThreadCache)
    → IsValid c
    → (c' : ThreadCache) × (free p c ≡ some c')
      × IsValid c'
      × ((q : ℕ) → lookup q c'.busy_list ≡ (if q == p then none else lookup q c.busy_list))
      × ((q : ℕ)
          → c'.heap.live q
            ≡ (if q == p && is_tracked (lookup p c.busy_list) then false else c.heap.live q))
      × (free p c' ≡ some c')
unfolding freed
free_once p c v = elim (Option-cases (lookup p c.busy_list)) [
  | inl e ↦
      let run = free_untracked p c e in
      (c, run, v, (λ q. erase_untracked p q c.busy_list e), (λ q. ground (arith, e)), run)
  | inr (item, e) ↦ (
    freed p c,
    free_tracked p c v e,
    tracked_without c p v,
    (λ q. lookup-erase q p c.busy_list),
    (λ q. ground (arith, e)),
    free_untracked p (freed p c) (lookup-erase p p c.busy_list ∙ ground arith),
  )
]

-- Calls of `Alloc`, with the time and the size, and of `Free`.
pub data Call : Type 0 where
  allocs : (now size : ℕ) → Call
  frees : ℕ → Call

pub run : (Heap → ℕ → ℕ) → List Call → ThreadCache → Option ThreadCache
run malloc [] c = some c
run malloc (allocs now size ∷ cs) c = elim (alloc malloc now size c) [
  | none ↦ none
  | some (p, c') ↦ run malloc cs c'
]
run malloc (frees p ∷ cs) c = elim (free p c) [ none ↦ none | some c' ↦ run malloc cs c' ]

run-IsValid :
    (malloc : Heap → ℕ → ℕ) (cs : List Call) (c : ThreadCache)
    → IsMalloc malloc
    → IsValid c
    → (c' : ThreadCache) × (run malloc cs c ≡ some c') × IsValid c'
unfolding run
run-IsValid malloc [] c m v = (c, refl, v)
run-IsValid malloc (allocs now size ∷ cs) c m v =
    let (p, c', e, _, v') = alloc-Allocated malloc now size c m v in
    rw (e, run) (run-IsValid malloc cs c' m v')
run-IsValid malloc (frees p ∷ cs) c m v =
    let (c', e, v', _, _, _) = free_once p c v in rw (e, run) (run-IsValid malloc cs c' m v')

nothing_tracked : (p : ℕ) (item : BusyItem) → lookup p [] ≢ some item
unfolding StdMap.find
nothing_tracked p item e = cc

pub create-IsValid : (start : Heap) → IsValid (create start)
unfolding create
create-IsValid start = record {
  no_pool = refl;
  tracked = λ p item e. absurd (nothing_tracked p item e);
}

-- Where `malloc` answers as the C library says, calls of `Alloc` and `Free` in any order on a new cache,
-- with whatever addresses, never free a block that the C library has not handed out, never use the
-- pool's list of free blocks, and leave a valid cache.
pub calls-IsValid :
    (malloc : Heap → ℕ → ℕ) (cs : List Call) (start : Heap)
    → IsMalloc malloc
    → (c : ThreadCache) × (run malloc cs (create start) ≡ some c) × IsValid c
calls-IsValid malloc cs start m = run-IsValid malloc cs (create start) m (create-IsValid start)
