-- ===== src/Ipc/RwLock/Exclusion.antt =====
-- What holds of the clients of one lock of ipc_sem_rw_lock.h after any interleaving of their calls.
use comm_libs.Common.{
  ℕ, zero, suc, ◌+◌, ◌^◌, ◌≤◌, ◌<◌, ◌≡◌, refl, List, [], ◌∷◌, Option, none, some, Bool, false,
  arith, length, get_elem?, set, replicate, length-set, length-replicate, Option-cases, inl, inr,
  if◌then◌else◌, ap, sym, ◌∙◌,
}
use native.Mathlib.Nat.{add-zero}
use comm_libs.Ipc.RwLock.{
  created, Client, between, n_locked, r_locked, w_locked, wait_write, wait_read, success, w_lock,
}
use comm_libs.Ipc.RwLock.System.{
  Action, acquire, act, System, Event, move, prefer, step, initial, count, is_reading, is_writing,
  is_wait_read, is_wait_write,
}
use comm_libs.Ipc.RwLock.Balance.{Balanced, HasNoLost, quits_read, quits_write, act-Sound}

abbrev idle : Client
idle = between n_locked

abbrev amount : (Client → Bool) → Client → ℕ
amount p c = if p c then 1 else 0

abbrev pub on_client : (Client → ℕ) → Option Client → ℕ
on_client f none = 0
on_client f (some c) = f c

-- How many waits an event gives up.
abbrev pub quits : (Action → Client → ℕ) → Event → System → ℕ
quits f (move i a) s = on_client (f a) (get_elem? s.clients i)
quits f (prefer mode) s = 0

-- The states that `n` clients can reach, with the numbers of abandoned waits of readers and writers.
pub data Reach (n : ℕ) : ℕ → ℕ → System → Type 0 where
  start : Reach n 0 0 (initial n)
  next :
      {lr lw : ℕ} {s : System}
      → Reach n lr lw s
      → (e : Event) → Reach n (lr + quits quits_read e s) (lw + quits quits_write e s) (step e s)

count-set :
    (p : Client → Bool) (cs : List Client) (i : ℕ) (c : Client) {d : Client}
    → p idle ≡ false
    → get_elem? cs i ≡ some d
    → count p (set cs i c) ≡ count p (set cs i idle) + amount p c
count-set p [] i c h e = ground arith
count-set p (x ∷ xs) zero c h e = rw h (omega arith)
count-set p (x ∷ xs) (suc i) c h e = omega (arith, count-set p xs i c h e)

set_self : (cs : List Client) (i : ℕ) {c : Client} → get_elem? cs i ≡ some c → set cs i c ≡ cs
set_self [] i e = refl
set_self (x ∷ xs) zero e = ground arith
set_self (x ∷ xs) (suc i) e = ground (arith, set_self xs i e)

-- A client is in one place, so there are no more entries in the four counts than clients.
counts-le-length :
    (cs : List Client)
    → count is_reading cs + count is_writing cs + count is_wait_read cs + count is_wait_write cs
      ≤ length cs
counts-le-length [] = omega arith
counts-le-length (between r_locked ∷ cs) = omega (arith, counts-le-length cs)
counts-le-length (between w_locked ∷ cs) = omega (arith, counts-le-length cs)
counts-le-length (between n_locked ∷ cs) = omega (arith, counts-le-length cs)
counts-le-length (wait_read ∷ cs) = omega (arith, counts-le-length cs)
counts-le-length (wait_write ∷ cs) = omega (arith, counts-le-length cs)

counts_of_idle :
    (cs : List Client) (i : ℕ) {c : Client}
    → get_elem? cs i ≡ some c
    → count is_reading (set cs i idle)
        + count is_writing (set cs i idle)
        + count is_wait_read (set cs i idle)
        + count is_wait_write (set cs i idle)
        + 1
      ≤ length cs
counts_of_idle [] i e = ground arith
counts_of_idle (x ∷ cs) zero e = omega (arith, counts-le-length cs)
counts_of_idle (between r_locked ∷ cs) (suc i) e = omega (arith, counts_of_idle cs i e)
counts_of_idle (between w_locked ∷ cs) (suc i) e = omega (arith, counts_of_idle cs i e)
counts_of_idle (between n_locked ∷ cs) (suc i) e = omega (arith, counts_of_idle cs i e)
counts_of_idle (wait_read ∷ cs) (suc i) e = omega (arith, counts_of_idle cs i e)
counts_of_idle (wait_write ∷ cs) (suc i) e = omega (arith, counts_of_idle cs i e)

abbrev IsBalanced : ℕ → ℕ → System → Type 0
IsBalanced lr lw s =
    Balanced lr lw (count is_reading s.clients) (count is_writing s.clients)
      (count is_wait_read s.clients) (count is_wait_write s.clients) s.shared
    × HasNoLost s.shared

move-IsBalanced :
    (lr lw i : ℕ) (a : Action) (s : System) (c : Client)
    → length s.clients + lr + lw < 2 ^ 32
    → get_elem? s.clients i ≡ some c
    → IsBalanced lr lw s
    → IsBalanced
        (lr + quits_read a c)
        (lw + quits_write a c)
        (record { shared = (act a c s.shared).1; clients = set s.clients i (act a c s.shared).0 })
move-IsBalanced lr lw i a s c room e h =
    rw
      (
        there is_reading refl,
        there is_writing refl,
        there is_wait_read refl,
        there is_wait_write refl,
      )
      (act-Sound lr lw _ _ _ _ (omega (arith, counts_of_idle s.clients i e)) a c s.shared (
        rw
          (
            here is_reading refl,
            here is_writing refl,
            here is_wait_read refl,
            here is_wait_write refl,
          )
          at h))
  where
    there :
        (p : Client → Bool)
        → p idle ≡ false
        → count p (set s.clients i (act a c s.shared).0)
          ≡ count p (set s.clients i idle) + amount p (act a c s.shared).0
    there p q = count-set p s.clients i (act a c s.shared).0 q e

    here :
        (p : Client → Bool)
        → p idle ≡ false
        → count p s.clients ≡ count p (set s.clients i idle) + amount p c
    here p q = ap (count p) (sym (set_self s.clients i e)) ∙ count-set p s.clients i c q e

step-IsBalanced :
    (lr lw : ℕ) (e : Event) (s : System)
    → length s.clients + lr + lw < 2 ^ 32
    → IsBalanced lr lw s
    → IsBalanced (lr + quits quits_read e s) (lw + quits quits_write e s) (step e s)
      × (length (step e s).clients ≡ length s.clients)
unfolding step
step-IsBalanced lr lw (prefer mode) s room h = ground arith
step-IsBalanced lr lw (move i a) s room h = elim (Option-cases (get_elem? s.clients i)) [
  | inl e ↦ rw (e, add-zero, add-zero) (h, refl)
  | inr (c, e) ↦ rw e (move-IsBalanced lr lw i a s c room e h, length-set s.clients i _)
]

count_initial : (p : Client → Bool) (n : ℕ) → p idle ≡ false → count p (replicate n idle) ≡ 0
count_initial p zero h = refl
count_initial p (suc n) h = rw h (omega (arith, count_initial p n h))

Reach-IsBalanced :
    {n lr lw : ℕ} {s : System}
    → Reach n lr lw s
    → n + lr + lw < 2 ^ 32
    → IsBalanced lr lw s × (length s.clients ≡ n)
Reach-IsBalanced {n} start room = ground (
  arith,
  count_initial is_reading n,
  count_initial is_writing n,
  count_initial is_wait_read n,
  count_initial is_wait_write n,
  length-replicate n idle,
)
Reach-IsBalanced {n} (next {lr} {lw} {s} r e) room =
    let (h, l) = Reach-IsBalanced r (omega arith) in
    let (h', l') = step-IsBalanced lr lw e s (omega arith) h in (h', l' ∙ l)

-- The theorems, over every state that `n` clients can reach by any sequence of calls, waits that end
-- by a post, waits that are given up, and changes of the preference.
module _ {n lr lw : ℕ} {s : System} (r : Reach n lr lw s) (room : n + lr + lw < 2 ^ 32) where
  -- In every state that the clients of one lock can reach, while clients and abandoned waits are
  -- together fewer than 2 ^ 32: at most one client holds the lock for writing, and while one does
  -- no client holds it for reading, whatever the preference and however many waits were given up.
  pub w_locked-excludes :
      (count is_writing s.clients ≤ 1)
      × (0 < count is_writing s.clients → count is_reading s.clients ≡ 0)
  w_locked-excludes = omega (arith, (Reach-IsBalanced r room).0.0)

  -- In every such state, if no client holds the lock and no post of semaphore 1 or 2 is still to
  -- be taken, then no client waits, and no wait was ever given up: while clients and abandoned
  -- waits are fewer than 2 ^ 32, `UnLock` forgets no waiting client.
  pub free_lock-HasNoWaiters :
      count is_reading s.clients + s.shared.read_sem ≡ 0
      → count is_writing s.clients + s.shared.write_sem ≡ 0
      → (count is_wait_read s.clients ≡ 0)
        × (count is_wait_write s.clients ≡ 0)
        × (lr ≡ 0)
        × (lw ≡ 0)
  free_lock-HasNoWaiters h k = ground (arith, Reach-IsBalanced r room)

  -- In every state that the clients can reach, while clients and abandoned waits are fewer than 2
  -- ^ 32: if a reader once gave up its wait and no writer did, and no client holds the lock or
  -- waits for it, a call of `WLock` still has to wait, and its `P` finds semaphore 2 at 0. The
  -- count of waiting readers is not lowered when a wait fails, and the next `UnLock` turns it into
  -- a reader that never leaves.
  pub abandoned_read-blocks :
      0 < lr
      → lw ≡ 0
      → count is_reading s.clients ≡ 0
      → count is_writing s.clients ≡ 0
      → count is_wait_read s.clients ≡ 0
      → count is_wait_write s.clients ≡ 0
      → let (ret, place, t) = w_lock n_locked success s.shared in
        (place ≡ wait_write) × (act acquire wait_write t ≡ (wait_write, t))
  unfolding act w_lock
  abandoned_read-blocks = ground (arith, Reach-IsBalanced r room)

  -- In every state that fewer than 2 ^ 32 clients can reach, if no wait was given up and no client
  -- holds the lock or waits for it, all counters and both semaphores are 0 as `Create` left them.
  pub quiet-eq-created :
      lr ≡ 0
      → lw ≡ 0
      → count is_reading s.clients ≡ 0
      → count is_writing s.clients ≡ 0
      → count is_wait_read s.clients ≡ 0
      → count is_wait_write s.clients ≡ 0
      → (s.shared.reader_num ≡ created.reader_num)
        × (s.shared.wait_reader_num ≡ created.wait_reader_num)
        × (s.shared.writer_num ≡ created.writer_num)
        × (s.shared.wait_writer_num ≡ created.wait_writer_num)
        × (s.shared.read_sem ≡ created.read_sem)
        × (s.shared.write_sem ≡ created.write_sem)
  quiet-eq-created = ground (arith, Reach-IsBalanced r room)
