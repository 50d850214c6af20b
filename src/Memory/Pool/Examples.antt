-- ===== src/Memory/Pool/Examples.antt =====
-- Runs of memory_pool_threadcache.cc with a C library that has one block, at the address 4096.
use comm_libs.Common.{ℕ, ◌≡◌, false, some, List, [], ◌∷◌, if◌then◌else◌, inl, inr, Bool-cases}
use comm_libs.Memory.Pool.{Heap, ThreadCache, create}
use comm_libs.Memory.Pool.Tracking.{IsValid, IsMalloc}
use comm_libs.Memory.Pool.Calls.{Call, allocs, frees, run, calls-IsValid}

abbrev one_block : Heap → ℕ → ℕ
one_block s size = if s.live 4096 then 0 else 4096

one_block-IsMalloc : IsMalloc one_block
one_block-IsMalloc s size = elim (Bool-cases (s.live 4096)) [
  | inl taken ↦ inl (rw taken)
  | inr unused ↦ inr (rw (unused) unused)
]

abbrev start : Heap
start = record { live = λ p. false }

abbrev calls : List Call
calls = allocs 100 8 ∷ allocs 101 8 ∷ frees 4096 ∷ frees 4096 ∷ frees 7 ∷ []

calls-IsValid_example :
    (c : ThreadCache) × (run one_block calls (create start) ≡ some c) × IsValid c
calls-IsValid_example = calls-IsValid one_block calls start one_block-IsMalloc
