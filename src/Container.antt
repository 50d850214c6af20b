-- ===== src/Container.antt =====
-- libcontainer: a set of small numbers as bits, and a table of slots by hash value.
pub mod Bitmap
pub mod HashTable
pub mod LinkList
pub mod TrieTree
