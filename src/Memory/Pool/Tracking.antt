-- ===== src/Memory/Pool/Tracking.antt =====
-- Which blocks a cache of memory_pool_threadcache.cc tracks.
use comm_libs.Common.{
  ℕ, ◌≡◌, ◌≢◌, refl, sym, ap, ◌∙◌, true, false, none, some, arith, if◌then◌else◌, ◌==◌, ℕ_discrete,
  Bool-cases, Option-cases, inl, inr, ◌⊎◌,
}
use comm_libs.StdMap
use comm_libs.Memory.Pool.{
  os, success, BusyItem, BusyList, Heap, lookup, insert, ori_of, ThreadCache, with_live,
}

-- Every tracked address is a live block of the C library, and not null.
pub record IsValid (c : ThreadCache) : Type 0 where
  pub no_pool : c.init_flag ≡ false
  pub tracked :
      (p : ℕ) (item : BusyItem)
      → lookup p c.busy_list ≡ some item
      → (c.heap.live p ≡ true) × (item.ori ≡ os) × (p ≢ 0)

-- `malloc` answers with a null pointer or with an address that is not in use.
abbrev pub IsMalloc : (Heap → ℕ → ℕ) → Type 0
IsMalloc malloc = (s : Heap) (size : ℕ) → (malloc s size ≡ 0) ⊎ (s.live (malloc s size) ≡ false)

pub lookup-assign :
    (p q : ℕ) (item : BusyItem) (busy : BusyList)
    → lookup p (StdMap.assign ℕ_discrete q item busy)
      ≡ (if p == q then some item else lookup p busy)
lookup-assign p q item busy = ground (arith, StdMap.find-assign ℕ_discrete p q item busy)

pub lookup-erase :
    (p q : ℕ) (busy : BusyList)
    → lookup p (StdMap.erase ℕ_discrete q busy) ≡ (if p == q then none else lookup p busy)
lookup-erase p q busy = ground (arith, StdMap.find-erase ℕ_discrete p q busy)

pub insert_fresh :
    (p now : ℕ) (busy : BusyList)
    → lookup p busy ≡ none
    → insert p os now busy
      ≡ (success, StdMap.assign ℕ_discrete p (record { alloc_time = now; ori = os }) busy)
unfolding insert
insert_fresh p now busy e = rw e

-- A block that is not in use is not tracked.
pub untracked :
    (c : ThreadCache) (p : ℕ) → IsValid c → c.heap.live p ≡ false → lookup p c.busy_list ≡ none
untracked c p v dead = elim (Option-cases (lookup p c.busy_list)) [
  | inl e ↦ e
  | inr (item, e) ↦ absurd (cc (dead, (v.tracked p item e).0))
]

pub tracked_after :
    (c : ThreadCache) (p now : ℕ)
    → IsValid c
    → p ≢ 0
    → IsValid (record c {
      busy_list = StdMap.assign ℕ_discrete p (record { alloc_time = now; ori = os }) c.busy_list;
      heap = with_live p true c.heap;
    })
tracked_after c p now v nonnull = record {
  no_pool = v.no_pool;
  tracked = λ q item e.
      let f : (if q == p
            then some (record { alloc_time = now; ori = os })
            else lookup q c.busy_list)
          ≡ some item =
        sym (lookup-assign q p (record { alloc_time = now; ori = os }) c.busy_list) ∙ e in
      elim (Bool-cases (q == p)) [
        | inl same ↦
            let nonnull_q : q ≢ 0 = ground (arith, same, nonnull) in
            let its : some (record { alloc_time = now; ori = os }) ≡ some item = rw same at f in
            rw same (refl, sym (ap (λ o. ori_of o) its), nonnull_q)
        | inr other ↦ rw other (v.tracked q item (rw other at f))
      ];
}

pub tracked_without :
    (c : ThreadCache) (p : ℕ)
    → IsValid c
    → IsValid (record c {
      busy_list = StdMap.erase ℕ_discrete p c.busy_list;
      heap = with_live p false c.heap;
    })
tracked_without c p v = record {
  no_pool = v.no_pool;
  tracked = λ q item e.
      let f : (if q == p then none else lookup q c.busy_list) ≡ some item =
        sym (lookup-erase q p c.busy_list) ∙ e in
      elim (Bool-cases (q == p)) [
        | inl same ↦ absurd (let g : none ≡ some item = rw same at f in cc (g))
        | inr other ↦ rw other (v.tracked q item (rw other at f))
      ];
}
