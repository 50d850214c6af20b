-- ===== src/Model.antt =====
-- libmodel: the finite state machine that its users extend.
pub mod Efsm
