-- ===== src/Ipc/RwLock/Examples.antt =====
-- Runs of two clients of one lock, and the theorems at them.
use comm_libs.Common.{ℕ, ◌≤◌, ◌<◌, ◌≡◌, ◌≢◌, refl, arith, some, get_elem?}
use comm_libs.Ipc.RwLock.{
  w_locked, n_locked, success, etimeout, inc, Shared, whole_r_lock, whole_w_lock, created, between,
  wait_read, wait_write, w_lock, un_lock, un_lock_read, un_lock_write, wake_readers,
}
use comm_libs.Ipc.RwLock.System.{
  call_r_lock, call_w_lock, call_un_lock, acquire, give_up, act, System, move, step, initial, count,
  is_reading, is_writing, is_wait_read, is_wait_write,
}
use comm_libs.Ipc.RwLock.Exclusion.{
  Reach, start, next, w_locked-excludes, free_lock-HasNoWaiters, abandoned_read-blocks,
}
use comm_libs.Ipc.RwLock.Results.{error_lem}

-- Client 0 holds the lock for writing, and client 1 waits to read.
abbrev held : System
unfolding step act
held = step (move 1 (call_r_lock success)) (step (move 0 (call_w_lock success)) (initial 2))

held-Reach : Reach 2 0 0 held
unfolding step act
held-Reach = next (next start (move 0 (call_w_lock success))) (move 1 (call_r_lock success))

-- The wait of client 1 fails, and client 0 unlocks.
abbrev left : System
unfolding step act
left = step (move 0 (call_un_lock success)) (step (move 1 give_up) held)

left-Reach : Reach 2 1 0 left
unfolding step act
left-Reach = next (next held-Reach (move 1 give_up)) (move 0 (call_un_lock success))

-- Client 0 unlocks, client 1 reads and unlocks.
abbrev quiet : System
unfolding step act
quiet =
    step (move 1 (call_un_lock success))
      (step (move 1 acquire) (step (move 0 (call_un_lock success)) held))

quiet-Reach : Reach 2 0 0 quiet
unfolding step act
quiet-Reach =
    next (next (next held-Reach (move 0 (call_un_lock success))) (move 1 acquire))
      (move 1 (call_un_lock success))

held_clients :
    (get_elem? held.clients 0 ≡ some (between w_locked))
    × (get_elem? held.clients 1 ≡ some wait_read)
unfolding step act
held_clients = (refl, refl)

w_locked-excludes_example :
    (count is_writing held.clients ≤ 1)
    × (0 < count is_writing held.clients → count is_reading held.clients ≡ 0)
w_locked-excludes_example = w_locked-excludes held-Reach (omega arith)

free_lock-HasNoWaiters_example :
    (count is_wait_read quiet.clients ≡ 0)
    × (count is_wait_write quiet.clients ≡ 0)
    × (◌≡◌ {A = ℕ} 0 0)
    × (◌≡◌ {A = ℕ} 0 0)
unfolding step act un_lock_write un_lock_read wake_readers
free_lock-HasNoWaiters_example = free_lock-HasNoWaiters quiet-Reach (omega arith) refl refl

abandoned_read-blocks_example :
    let (ret, place, t) = w_lock n_locked success left.shared in
    (place ≡ wait_write) × (act acquire wait_write t ≡ (wait_write, t))
unfolding step act un_lock_write un_lock_read wake_readers
abandoned_read-blocks_example =
    abandoned_read-blocks left-Reach (omega arith) (omega arith) refl refl refl refl refl

-- A wait that times out while another client holds the lock for writing.
abbrev written : Shared
written = record created { writer_num = 1 }

error_lem_example :
    ((whole_r_lock n_locked success (λ s. s) etimeout written).0 ≢ success
      → ((whole_r_lock n_locked success (λ s. s) etimeout written).1 ≡ between n_locked)
        × ((whole_r_lock n_locked success (λ s. s) etimeout written).2
            ≡ record written { wait_reader_num = inc written.wait_reader_num }))
    × ((whole_w_lock n_locked success (λ s. s) etimeout written).0 ≢ success
        → ((whole_w_lock n_locked success (λ s. s) etimeout written).1 ≡ between n_locked)
          × ((whole_w_lock n_locked success (λ s. s) etimeout written).2
              ≡ record written { wait_writer_num = inc written.wait_writer_num }))
    × ((un_lock n_locked success written).0 ≢ success
        → ((un_lock n_locked success written).1 ≡ between n_locked)
          × ((un_lock n_locked success written).2 ≡ written))
error_lem_example = error_lem n_locked success etimeout (λ s. s) written
