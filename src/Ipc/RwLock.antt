-- ===== src/Ipc/RwLock.antt =====
-- libipc/ipc_sem_rw_lock.h: the read-write lock over three semaphores and a block of shared memory.
-- Semaphore 0 (`_ctrl_mutex_lock`) makes each part of a handler between taking and releasing it
-- one step, so such a part is a function on `Shared`. `V` on semaphore 1 or 2 adds one to its
-- value. The outcome of a `P`, which the operating system decides, is an argument.
pub mod Balance
mod System
pub mod Exclusion
pub mod Results
mod Examples
use comm_libs.Common.{
  Option, none, some, ℕ, zero, suc, ◌+◌, ◌-◌, ◌%◌, ◌^◌, ◌&&◌, ltb, ◌==◌, if◌then◌else◌,
}

pub data Mode : Type 0 where
  prefer_read prefer_write : Mode

pub data LockState : Type 0 where
  r_locked w_locked n_locked : LockState

-- The results that the handlers tell apart; `failed` is any other code of a semaphore call.
pub data Ret : Type 0 where
  success etimeout sem_elocked failed : Ret

-- `SemRWLockInfo` with the values of semaphores 1 and 2.
pub record Shared : Type 0 where
  pub user_num : ℕ
  pub rwlock_mode : Mode
  pub reader_num : ℕ
  pub wait_reader_num : ℕ
  pub writer_num : ℕ
  pub wait_writer_num : ℕ
  pub read_sem : ℕ
  pub write_sem : ℕ

-- What `Create` leaves in the shared memory and in the semaphores.
abbrev pub created : Shared
created = record {
  user_num = 0;
  rwlock_mode = prefer_read;
  reader_num = 0;
  wait_reader_num = 0;
  writer_num = 0;
  wait_writer_num = 0;
  read_sem = 0;
  write_sem = 0;
}

-- `++` and `--` on `unsigned int`.
abbrev pub inc : ℕ → ℕ
inc n = (n + 1) % 2 ^ 32

abbrev pub dec : ℕ → ℕ
dec n = (n + 2 ^ 32 - 1) % 2 ^ 32

-- A client between two calls is in a `LockState`; one whose call has to wait sleeps in `P`.
pub data Client : Type 0 where
  between : LockState → Client
  wait_read : Client
  wait_write : Client

-- The part of `RLock` under the control mutex, and where it leaves the client: in `wait_read` if
-- `_read_mutex_lock` follows.
r_lock_in : Mode → Shared → Client × Shared
r_lock_in prefer_read s =
    if s.writer_num == 0
    then (between r_locked, record s { reader_num = inc s.reader_num })
    else (wait_read, record s { wait_reader_num = inc s.wait_reader_num })
r_lock_in prefer_write s =
    if s.writer_num == 0 && s.wait_writer_num == 0
    then (between r_locked, record s { reader_num = inc s.reader_num })
    else (wait_read, record s { wait_reader_num = inc s.wait_reader_num })

-- The part of `WLock` under the control mutex.
w_lock_in : Mode → Shared → Client × Shared
w_lock_in prefer_read s =
    if s.writer_num == 0 && s.reader_num == 0 && s.wait_reader_num == 0
    then (between w_locked, record s { writer_num = inc s.writer_num })
    else (wait_write, record s { wait_writer_num = inc s.wait_writer_num })
w_lock_in prefer_write s =
    if s.writer_num == 0 && s.reader_num == 0
    then (between w_locked, record s { writer_num = inc s.writer_num })
    else (wait_write, record s { wait_writer_num = inc s.wait_writer_num })

-- The loop that posts semaphore 1 for each waiting reader.
wake_readers : ℕ → Shared → Shared
wake_readers zero s = s
wake_readers (suc loop) s = wake_readers loop (record s {
  read_sem = s.read_sem + 1;
  wait_reader_num = dec s.wait_reader_num;
  reader_num = inc s.reader_num;
})

wake_writer : Shared → Shared
wake_writer s = record s {
  write_sem = s.write_sem + 1;
  wait_writer_num = dec s.wait_writer_num;
  writer_num = inc s.writer_num;
}

-- What `UnLock` does after `reader_num_--` or `writer_num_--`, where readers come first.
pass_on_read : Shared → Shared
pass_on_read s =
    if ltb 0 s.wait_reader_num
    then wake_readers s.wait_reader_num s
    else if s.reader_num == 0 && ltb 0 s.wait_writer_num
    then wake_writer s
    else s

-- The same where writers come first; the argument is the counter that has just been lowered.
pass_on_write : ℕ → Shared → Shared
pass_on_write left s =
    if left == 0
    then if ltb 0 s.wait_writer_num
      then wake_writer s
      else if ltb 0 s.wait_reader_num
      then wake_readers s.wait_reader_num s
      else s
    else s

pass_on : Mode → ℕ → Shared → Shared
unfolding pass_on_read pass_on_write wake_writer
pass_on prefer_read left s = pass_on_read s
pass_on prefer_write left s = pass_on_write left s

un_lock_read : Shared → Shared
unfolding pass_on
un_lock_read s =
    let t = record s { reader_num = dec s.reader_num } in pass_on s.rwlock_mode t.reader_num t

un_lock_write : Shared → Shared
unfolding pass_on
un_lock_write s =
    let t = record s { writer_num = dec s.writer_num } in pass_on s.rwlock_mode t.writer_num t

-- What a call has returned when its client is at a place; a client that waits is still in its call.
abbrev returned : Client → Option Ret
returned (between state) = some success
returned _ = none

-- `RLock` up to its return or to its wait, where it has returned nothing yet; `ctrl` is what
-- `_ctrl_mutex_lock` returned.
pub r_lock : LockState → Ret → Shared → Option Ret × Client × Shared
unfolding r_lock_in
r_lock n_locked success s = let (place, t) = r_lock_in s.rwlock_mode s in (returned place, place, t)
r_lock n_locked ctrl s = (some ctrl, between n_locked, s)
r_lock state _ s = (some sem_elocked, between state, s)

-- `WLock` up to its return or to its wait.
pub w_lock : LockState → Ret → Shared → Option Ret × Client × Shared
unfolding w_lock_in
w_lock n_locked success s = let (place, t) = w_lock_in s.rwlock_mode s in (returned place, place, t)
w_lock n_locked ctrl s = (some ctrl, between n_locked, s)
w_lock state _ s = (some sem_elocked, between state, s)

-- `UnLock`. A failure to take the control mutex leaves everything as it was.
pub un_lock : LockState → Ret → Shared → Ret × Client × Shared
un_lock n_locked ctrl s = (success, between n_locked, s)
un_lock r_locked success s = (success, between n_locked, un_lock_read s)
un_lock w_locked success s = (success, between n_locked, un_lock_write s)
un_lock state ctrl s = (ctrl, between state, s)

-- The end of `RLock` and of `WLock` after a wait: `ret` is what `P` returned, and the state changes
-- only on success.
after_wait : LockState → Ret → Client
after_wait target success = between target
after_wait target ret = between n_locked

-- The rest of `RLock` or `WLock`, from the part before: a call that waits returns what `P` returned.
-- `others` is what becomes of the memory and the semaphores during the wait, by other clients and by
-- this `P`.
complete :
    LockState
    → (others : Shared → Shared) (wait : Ret) → Option Ret × Client × Shared
    → Ret × Client × Shared
unfolding after_wait
complete target others wait (some ret, place, s) = (ret, place, s)
complete target others wait (none, place, s) = (wait, after_wait target wait, others s)

-- The whole of `RLock` and of `WLock`.
pub whole_r_lock :
    LockState
    → (ctrl : Ret) (others : Shared → Shared) (wait : Ret) → Shared
    → Ret × Client × Shared
unfolding r_lock complete
whole_r_lock state ctrl others wait s = complete r_locked others wait (r_lock state ctrl s)

pub whole_w_lock :
    LockState
    → (ctrl : Ret) (others : Shared → Shared) (wait : Ret) → Shared
    → Ret × Client × Shared
unfolding w_lock complete
whole_w_lock state ctrl others wait s = complete w_locked others wait (w_lock state ctrl s)
