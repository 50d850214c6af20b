-- ===== src/Ipc/RwLock/System.antt =====
-- Several clients of one lock, as a step function: any client may make any of its moves next.
use comm_libs.Common.{
  ℕ, ◌+◌, ◌-◌, List, [], ◌∷◌, Option, none, some, Bool, true, false, get_elem?, set, replicate,
  ◌==◌, if◌then◌else◌,
}
use comm_libs.Ipc.RwLock.{
  Mode, r_locked, w_locked, n_locked, Ret, success, Shared, created, Client, between, wait_read,
  wait_write, r_lock, w_lock, un_lock, after_wait,
}

-- A move of one client. `acquire` is a `P` that finds the semaphore above 0, and `give_up` one that
-- returns something other than success.
pub data Action : Type 0 where
  call_r_lock : Ret → Action
  call_w_lock : Ret → Action
  call_un_lock : Ret → Action
  acquire : Action
  give_up : Action

-- A move that the client's place does not allow changes nothing.
unfoldable pub act : Action → Client → Shared → Client × Shared
unfolding r_lock w_lock un_lock after_wait
act (call_r_lock ctrl) (between state) s = let (ret, c, t) = r_lock state ctrl s in (c, t)
act (call_w_lock ctrl) (between state) s = let (ret, c, t) = w_lock state ctrl s in (c, t)
act (call_un_lock ctrl) (between state) s = let (ret, c, t) = un_lock state ctrl s in (c, t)
act acquire wait_read s =
    if s.read_sem == 0
    then (wait_read, s)
    else (after_wait r_locked success, record s { read_sem = s.read_sem - 1 })
act acquire wait_write s =
    if s.write_sem == 0
    then (wait_write, s)
    else (after_wait w_locked success, record s { write_sem = s.write_sem - 1 })
act give_up wait_read s = (after_wait r_locked Ret.etimeout, s)
act give_up wait_write s = (after_wait w_locked Ret.etimeout, s)
act _ c s = (c, s)

pub record System : Type 0 where
  pub shared : Shared
  pub clients : List Client

-- `SetPerfer` is `prefer`.
pub data Event : Type 0 where
  move : ℕ → Action → Event
  prefer : Mode → Event

abbrev pub move_client : Option Client → ℕ → Action → System → System
move_client none i a s = s
move_client (some c) i a s = record {
  shared = (act a c s.shared).1;
  clients = set s.clients i (act a c s.shared).0;
}

unfoldable pub step : Event → System → System
step (move i a) s = move_client (get_elem? s.clients i) i a s
step (prefer mode) s = record s { shared = record (s.shared) { rwlock_mode = mode } }

-- A fresh lock with `n` clients that hold nothing.
abbrev pub initial : ℕ → System
initial n = record { shared = created; clients = replicate n (between n_locked) }

-- How many clients satisfy a test.
abbrev pub count : (Client → Bool) → List Client → ℕ
count p [] = 0
count p (c ∷ cs) = (if p c then 1 else 0) + count p cs

abbrev pub is_reading : Client → Bool
is_reading (between r_locked) = true
is_reading _ = false

abbrev pub is_writing : Client → Bool
is_writing (between w_locked) = true
is_writing _ = false

abbrev pub is_wait_read : Client → Bool
is_wait_read wait_read = true
is_wait_read _ = false

abbrev pub is_wait_write : Client → Bool
is_wait_write wait_write = true
is_wait_write _ = false
