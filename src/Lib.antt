-- ===== src/Lib.antt =====
-- Verification of comm-libs: a C++ library of containers, timers, interprocess communication, models
-- of programs and utilities. Each library under lib* is a directory of classes that share the return
-- codes of libbase. The development models the classes whose logic is their own, and takes what they
-- call as parameters or by its documented effect.
--
-- The parts, and the file for each:
--
-- libipc/ipc_sem_rw_lock.h is a read-write lock of several processes, a record in shared memory
-- guarded by three semaphores. Ipc/RwLock has the record (`Shared`) and `RLock`, `WLock` and
-- `UnLock` as one step each under the control mutex (`r_lock`, `w_lock`, `un_lock`); the wait on
-- semaphore 1 or 2 is a step of its own, which ends with a post or is given up, and a call that waits
-- has not returned yet. `whole_r_lock` and `whole_w_lock` are the calls with their wait, where what
-- the other clients do meanwhile is an argument. Ipc/RwLock/System
-- lets any number of clients make their steps in any order (`act`, `step`), Ipc/RwLock/Balance says
-- what the counters mean, and Ipc/RwLock/Exclusion what holds of every reachable state. Counters are
-- `unsigned int` and wrap at 2 ^ 32; the theorems ask that clients and abandoned waits together stay
-- below that. The members `rw_mode_` and `writer_num`, which the code names and the record does not
-- have, are read as `rwlock_mode_` and `writer_num_`. Creating, opening and removing the semaphores
-- and the shared memory is left out.
--
-- libmodel/model_efsm.h is a state machine with callbacks. Model/Efsm has its maps and the registry
-- (`add_event` to `del_transition`), and `Trigger` as its lookups (`targets`), its callbacks
-- (`calls`) and the change of the state (`settle`). A callback is a function on the host; the model
-- assumes that it does not change the machine that runs it. Calling an empty function is the outcome
-- `bad_function_call`. StdMap models `std::map` as an association list, since no function modelled
-- here shows the order of keys.
--
-- libcontainer/container_bitmap.h is a bitmap over bytes from `malloc`. Container/Bitmap has every
-- operation over the list of bytes; Container/Bitmap/Byte has the three expressions on one byte. The
-- size is below 2 ^ 63, so that no index wraps. The loops over a second bitmap run on fuel, and the
-- theorem on them is for any fuel.
--
-- libtimer/timer_time.h is a time as seconds and nanoseconds. Timer/Time has its operators and its
-- conversions over integers without a bound: a `long` that overflows is undefined in the source.
-- Division and remainder round towards zero, as in Integer. libtimer/timer_date.h is Timer/Date:
-- `Get` and `Set` of the fields of `struct tm`.
--
-- libtimer/timer_schedue_crontab.cc reads rules such as `* * 1 * * 0 0 7,1-3` and computes the next
-- date from one. Timer/Crontab/Parse is the parser, over Timer/Crontab/Token, where the regular
-- expressions are readers of bytes, and with `std::sort` and `std::unique` as functions;
-- Timer/Crontab has `Next` of a sub-rule and of a rule, over Timer/Date. The bitmap `type_` is never
-- read and has no model. An `int` that overflows, in `curr + frequency` or in the loop over a range up
-- to INT_MAX, is undefined in the source; the model's integers have no bound. The parser splits and trims with libutil/string_util.cc, which
-- is Util/Text.
--
-- libparser/parser_tvl.cc writes a sequence of strings as one text and reads it back. Parser/Tvl has
-- `StoreString` and `LoadString` with the offset as an integer, so that a length below 0 in the text
-- moves it back as the source does, and the pushes and pops. A write behind the five bytes of `slen`
-- is no result (`none`), and an exception of `substr` leaves what was loaded before it.
--
-- libparser/parser_json.cc is a JSON document behind a lock. rapidjson is a parameter: Parser/Json has
-- the record of the calls that the code makes of it, the object and the lock; Parser/Json/Values reads
-- and writes single values, Parser/Json/Changes has the shape that the calls on arrays and objects
-- share, Parser/Json/Trees those calls, and Parser/Json/Calls all of them as one type of requests. A
-- call yields the events at the lock and at the document in their order, those after `UnLock` too;
-- what the lock answers is an argument. Parser/Json/Locking says what one thread may do.
--
-- libparser/parser_ini.cc keeps a configuration of sections and items: Parser/Ini has the tree of the
-- sections, getConfig and setConfig, _load over the bytes of a file, cut into lines by the buffer of
-- fgets (`read_lines`), and the bytes that Storage writes for a section. The sections stand in a store at the addresses that the memory pool gives, so
-- two sections of one name, of which the tree takes the first, are told apart. Parser/Ini/Sections and
-- Parser/Ini/Setting are about getConfig and setConfig, Parser/Ini/Lines, Parser/Ini/Reading and
-- Parser/Ini/RoundTrip about loading.
--
-- libthread/thread_role.cc keeps the roles of a thread in such a bitmap: Thread/Role. The code of
-- libprocess/process_role.cc is the same.
--
-- libcontainer/container_hash_table.h keeps elements in slots, with the hash value as the index.
-- Container/HashTable has its calls over the list of slots; a call returns, or it reaches memory
-- behind them (`Access`, in Common/Access). An element counts as present when its first byte is not
-- 0, as in the source. Container/HashTable/Refinement reads the table as a partial map.
--
-- libcontainer/container_link_list.h is a doubly linked list of nodes from the memory pool.
-- Container/LinkList has the pushes, the pops and `clear` over a store of nodes by address, with the
-- pool's `Malloc` as a parameter that hands out an unused address; an access of an address without a
-- node is no result. `clear` runs on fuel, and as many rounds as the list has nodes are enough.
-- Container/LinkList/Segment says which nodes a list stands for.
--
-- libcontainer/container_trie_tree.h is a tree of nodes with a slot for each byte of a key.
-- Container/TrieTree has `find`, `insert` and `remove`; a node owns its children, and the walk back
-- to the root is the return of the recursion along the key. A number stands for the calls of `Malloc`
-- that still succeed. Container/TrieTree/Keys has the slots of bytes.
--
-- libipc/ipc_shm_list.h is a doubly linked list in shared memory. Ipc/ShmList has its pushes and pops
-- and the head and tail that each process keeps; slots have the numbers of the bitmap, and its links
-- are read as the runs of nodes of Container/LinkList/Segment. The bitmap is Container/Bitmap, attached
-- to the shared bytes by a parameter (Ipc/ShmList/Slots). Ipc/ShmList/Members says what a list stands
-- for. One process uses the list at a time.
--
-- libcrypt/crypt_snowflake.h makes identifiers. Crypt/Snowflake has the sources of the values over
-- what the system answers, the serial number, and `ID` as its two loops and `_assemble`; a value of a
-- component is not negative, and the error value of a source is `none`. `INVALID_ID` is an outcome of
-- its own, and a shift by a negative number another. The `int` shifts `1 << bit`, undefined from 31
-- bits on, are taken as those of a `long`. Common/Bits has the laws of binary digits.
--
-- libmemory/memory_pool_threadcache.cc gives a thread its blocks and libmemory/memory_pool_busylist.cc
-- remembers them. Memory/Pool has `Alloc` and `Free` over a map of addresses and the blocks that the
-- C library has handed out; `malloc` is a parameter.
--
-- Common has the names that the modules share, Common/Tests the Boolean tests and Common/Lists the
-- lists over native numbers. The files called Examples have tests and runs at concrete inputs.
--
-- Not modelled: the wrappers of system calls (libfile, libio, libprocess, libsignal, libsocket,
-- the rest of libthread and most of libipc), the wrappers of other libraries (the YAML parser, how
-- the JSON parser loads and stores, and the files of the INI parser), logging, and the memory
-- pool's list of free blocks, which has no bodies. Of the containers, the copies of a hash table,
-- a linked list and a trie, and the emptying and printing of a trie, have no model, nor have the
-- node tree and the trie in shared memory. Formatting and the clock are the C library's.
pub mod Common
pub mod Integer
pub mod StdMap
pub mod Timer
pub mod Container
pub mod Crypt
pub mod Memory
pub mod Ipc
pub mod Model
pub mod Util
pub mod Parser
pub mod Thread
