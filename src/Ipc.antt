-- ===== src/Ipc.antt =====
-- libipc: the read-write lock that processes share through semaphores and shared memory.
pub mod RwLock
pub mod ShmList
