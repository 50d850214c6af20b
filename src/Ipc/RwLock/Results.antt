-- ===== src/Ipc/RwLock/Results.antt =====
-- What the handlers of ipc_sem_rw_lock.h return, and what they leave alone on an error.
use comm_libs.Common.{◌≡◌, ◌≢◌, ◌↔◌, Bool, true, false, if◌then◌else◌, arith}
use comm_libs.Ipc.RwLock.{
  LockState, r_locked, w_locked, n_locked, Ret, success, Shared, between, r_lock, w_lock, un_lock,
  whole_r_lock, whole_w_lock, inc, r_lock_in, w_lock_in, after_wait, prefer_read, prefer_write,
}

-- Whether a call got the control mutex and went on: the only way to a wait.
abbrev pub got_ctrl : LockState → Ret → Bool
got_ctrl n_locked success = true
got_ctrl state ctrl = false

-- Where `RLock`, `WLock` or `UnLock` returns an error, the caller holds what it held before. An
-- `UnLock`, or a call that did not get the control mutex, leaves the memory and the semaphores as they
-- were. An `RLock` or `WLock` that got it has failed in its wait: it has raised the number of the
-- waiting readers or writers by one before that wait and changed nothing else; then come the changes of
-- the wait, those of other clients, and after them the call itself lowers no count again.
pub error_lem :
    (state : LockState) (ctrl wait : Ret) (others : Shared → Shared) (s : Shared)
    → ((whole_r_lock state ctrl others wait s).0 ≢ success
        → ((whole_r_lock state ctrl others wait s).1 ≡ between state)
          × ((whole_r_lock state ctrl others wait s).2 ≡ (
              if got_ctrl state ctrl
              then others (record s { wait_reader_num = inc s.wait_reader_num })
              else s)))
      × ((whole_w_lock state ctrl others wait s).0 ≢ success
          → ((whole_w_lock state ctrl others wait s).1 ≡ between state)
            × ((whole_w_lock state ctrl others wait s).2 ≡ (
                if got_ctrl state ctrl
                then others (record s { wait_writer_num = inc s.wait_writer_num })
                else s)))
      × ((un_lock state ctrl s).0 ≢ success
          → ((un_lock state ctrl s).1 ≡ between state) × ((un_lock state ctrl s).2 ≡ s))
unfolding whole_r_lock whole_w_lock un_lock r_lock_in w_lock_in after_wait
error_lem n_locked success wait others s = ground arith
error_lem r_locked success wait others s = ground arith
error_lem w_locked success wait others s = ground arith
error_lem _ _ wait others s = ground arith

-- `RLock` in a free state enters at once exactly when no writer holds the lock and, where writers
-- come first, none waits; `WLock` exactly when nobody holds the lock and, where readers come first,
-- no reader waits.
pub enters_iff :
    (s : Shared)
    → ((r_lock n_locked success s).1 ≡ between r_locked
        ↔ (s.writer_num ≡ 0) × (s.rwlock_mode ≡ prefer_write → s.wait_writer_num ≡ 0))
      × ((w_lock n_locked success s).1 ≡ between w_locked
          ↔ (s.writer_num ≡ 0)
            × (s.reader_num ≡ 0)
            × (s.rwlock_mode ≡ prefer_read → s.wait_reader_num ≡ 0))
unfolding r_lock w_lock
enters_iff s = ground arith
