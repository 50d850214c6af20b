-- ===== src/Ipc/RwLock/Balance.antt =====
-- What the counters of ipc_sem_rw_lock.h mean, and that every handler keeps them so.
use comm_libs.Common.{ℕ, zero, suc, ◌+◌, ◌-◌, ◌^◌, ◌≤◌, ◌<◌, ◌≡◌, refl, ◌⊎◌, arith, if◌then◌else◌}
use comm_libs.Ipc.RwLock.{
  Mode, prefer_read, prefer_write, r_locked, w_locked, n_locked, success, Shared, Client, between,
  wait_read, wait_write, inc, dec, r_lock_in, w_lock_in, wake_readers, pass_on, un_lock_read,
  un_lock_write,
}
use comm_libs.Ipc.RwLock.System.{
  Action, call_r_lock, call_w_lock, call_un_lock, acquire, give_up, act, is_reading, is_writing,
  is_wait_read, is_wait_write,
}

-- The counters against `r` readers, `w` writers, `wr` and `ww` sleeping clients, and `lr` and `lw`
-- waits that were given up.
pub record Balanced (lr lw r w wr ww : ℕ) (s : Shared) : Type 0 where
  pub readers : s.reader_num ≡ r + s.read_sem
  pub wait_readers : s.wait_reader_num + s.read_sem ≡ wr + lr
  pub writers : s.writer_num ≡ w + s.write_sem
  pub wait_writers : s.wait_writer_num + s.write_sem ≡ ww + lw
  pub one_writer : s.writer_num ≤ 1
  pub exclusive : (s.writer_num ≡ 0) ⊎ (s.reader_num ≡ 0)

-- A free lock has nobody waiting.
abbrev pub HasNoLost : Shared → Type 0
HasNoLost s =
    s.reader_num ≡ 0 → s.writer_num ≡ 0 → (s.wait_reader_num ≡ 0) × (s.wait_writer_num ≡ 0)

wake_readers_lem :
    (n : ℕ) (s : Shared)
    → n ≤ s.wait_reader_num
    → s.wait_reader_num < 2 ^ 32
    → s.reader_num + n < 2 ^ 32
    → wake_readers n s ≡ record s {
      read_sem = s.read_sem + n;
      wait_reader_num = s.wait_reader_num - n;
      reader_num = s.reader_num + n;
    }
unfolding wake_readers
wake_readers_lem zero s h k l = ground arith
wake_readers_lem (suc n) s h k l = ground (
  arith,
  wake_readers_lem n (record s {
    read_sem = s.read_sem + 1;
    wait_reader_num = dec s.wait_reader_num;
    reader_num = inc s.reader_num;
  }),
)

module _ {lr lw r w wr ww : ℕ} where
  pass_on_lem :
      (mode : Mode) (left : ℕ) (s : Shared)
      → Balanced lr lw r w wr ww s
      → r + w + wr + ww + lr + lw < 2 ^ 32
      → s.writer_num ≡ 0
      → left ≡ s.reader_num
      → Balanced lr lw r w wr ww (pass_on mode left s) × HasNoLost (pass_on mode left s)
  unfolding pass_on
  pass_on_lem prefer_read left s b k z e = ground (arith, wake_readers_lem s.wait_reader_num s)
  pass_on_lem prefer_write left s b k z e = ground (arith, wake_readers_lem s.wait_reader_num s)

-- How much one client adds to each count.
abbrev pub reads : Client → ℕ
reads c = if is_reading c then 1 else 0

abbrev pub writes : Client → ℕ
writes c = if is_writing c then 1 else 0

abbrev pub waits_read : Client → ℕ
waits_read c = if is_wait_read c then 1 else 0

abbrev pub waits_write : Client → ℕ
waits_write c = if is_wait_write c then 1 else 0

-- How many waits a move gives up.
abbrev pub quits_read : Action → Client → ℕ
quits_read give_up wait_read = 1
quits_read _ _ = 0

abbrev pub quits_write : Action → Client → ℕ
quits_write give_up wait_write = 1
quits_write _ _ = 0

-- The counts of the other clients, with room for one more in an `unsigned int`.
module _ (lr lw r w wr ww : ℕ) (room : r + w + wr + ww + lr + lw + 1 < 2 ^ 32) where
  abbrev pub Sound : Client → Shared → Type 0
  Sound c s =
      Balanced lr lw (r + reads c) (w + writes c) (wr + waits_read c) (ww + waits_write c) s
      × HasNoLost s

  r_lock_in-Sound :
      (mode : Mode) (s : Shared)
      → Sound (between n_locked) s
      → Sound (r_lock_in mode s).0 (r_lock_in mode s).1
  unfolding r_lock_in
  r_lock_in-Sound prefer_read s (b, f) = ground arith
  r_lock_in-Sound prefer_write s (b, f) = ground arith

  w_lock_in-Sound :
      (mode : Mode) (s : Shared)
      → Sound (between n_locked) s
      → Sound (w_lock_in mode s).0 (w_lock_in mode s).1
  unfolding w_lock_in
  w_lock_in-Sound prefer_read s (b, f) = ground arith
  w_lock_in-Sound prefer_write s (b, f) = ground arith

  un_lock_read-Sound :
      (s : Shared) → Sound (between r_locked) s → Sound (between n_locked) (un_lock_read s)
  unfolding un_lock_read
  un_lock_read-Sound s (b, f) =
      pass_on_lem s.rwlock_mode (dec s.reader_num) (record s { reader_num = dec s.reader_num })
        (ground arith) (omega arith) (ground arith) refl

  un_lock_write-Sound :
      (s : Shared) → Sound (between w_locked) s → Sound (between n_locked) (un_lock_write s)
  unfolding un_lock_write
  un_lock_write-Sound s (b, f) =
      pass_on_lem s.rwlock_mode (dec s.writer_num) (record s { writer_num = dec s.writer_num })
        (ground arith) (omega arith) (ground arith) (ground arith)

-- Every move of a client keeps the balance and the absence of lost wake-ups.
pub act-Sound :
    (lr lw r w wr ww : ℕ) (room : r + w + wr + ww + lr + lw + 1 < 2 ^ 32) (a : Action) (c : Client)
    (s : Shared)
    → Sound lr lw r w wr ww room c s
    → Balanced
        (lr + quits_read a c)
        (lw + quits_write a c)
        (r + reads (act a c s).0)
        (w + writes (act a c s).0)
        (wr + waits_read (act a c s).0)
        (ww + waits_write (act a c s).0)
        (act a c s).1
      × HasNoLost (act a c s).1
unfolding act
act-Sound lr lw r w wr ww room (call_r_lock success) (between n_locked) s h =
    ground (arith, r_lock_in-Sound lr lw r w wr ww room s.rwlock_mode s)
act-Sound lr lw r w wr ww room (call_w_lock success) (between n_locked) s h =
    ground (arith, w_lock_in-Sound lr lw r w wr ww room s.rwlock_mode s)
act-Sound lr lw r w wr ww room (call_un_lock success) (between r_locked) s h =
    ground (arith, un_lock_read-Sound lr lw r w wr ww room s)
act-Sound lr lw r w wr ww room (call_un_lock success) (between w_locked) s h =
    ground (arith, un_lock_write-Sound lr lw r w wr ww room s)
act-Sound lr lw r w wr ww room acquire wait_read s h = ground arith
act-Sound lr lw r w wr ww room acquire wait_write s h = ground arith
act-Sound lr lw r w wr ww room give_up wait_read s h = ground arith
act-Sound lr lw r w wr ww room give_up wait_write s h = ground arith
act-Sound lr lw r w wr ww room _ _ s h = ground arith
