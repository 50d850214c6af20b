-- ===== src/Memory.antt =====
-- libmemory: the memory pool.
pub mod Pool
