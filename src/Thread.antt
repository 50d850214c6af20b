-- ===== src/Thread.antt =====
-- libthread: the roles of a thread.
pub mod Role
