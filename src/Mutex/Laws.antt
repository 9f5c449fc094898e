-- ===== src/Mutex/Laws.antt =====
-- Locks and unlocks without a wait.
use rosx.Base.{ℕ, ◌≡◌, ◌≢◌, refl, Bool, true, false, Option, none, some, ◌==◌, ==_refl, ==_ne, ok}
use rosx.Base.Int.{ℤ, pos}
use rosx.Kernel.{os_ok, os_err, e_os_unavail, Kernel}
use rosx.Mutex.{Mutex, lock, unlock, restore, returns}

-- A mutex by the state of its lock, its owner and the head of its wait queue.
abbrev pub mutex_of : Bool → (owner task next : Option ℕ) → Mutex
mutex_of locked owner task next = record {
  locked = locked;
  owner = owner;
  task = task;
  next = next;
}

-- A free mutex that no task waits for is taken at once, whatever the timeout, and the unlock by
-- the same task, if it has its own priority, frees it again, with nothing else changed.
pub unlock-lock :
    (fuel mutex : ℕ) (owner next : Option ℕ) (k : Kernel) (timeout : ℤ) (tm handler : ℕ)
    → k.prio k.curr ≡ k.orig_prio k.curr
    → let taken = mutex_of true (some k.curr) none next in
      (lock fuel mutex (mutex_of false owner none next) k timeout tm handler
        ≡ ok (returns os_ok, taken, k))
      × (unlock fuel taken k ≡ ok (os_ok, mutex_of false (some k.curr) none next, k))
unfolding lock unlock restore
unlock-lock fuel mutex owner next k timeout tm handler own =
    let same : (k.prio k.curr == k.orig_prio k.curr) ≡ true =
      rw own (==_refl (k.orig_prio k.curr)) in
    (refl, rw (==_refl k.curr) (rw same refl))

-- Only the owner unlocks: to another task a locked mutex answers OS_ERR, and it is not taken by a
-- lock that may not wait either; neither call changes anything.
locked-refuses :
    (fuel mutex : ℕ) (owner : ℕ) (task next : Option ℕ) (k : Kernel) (tm handler : ℕ)
    → owner ≢ k.curr
    → let m = mutex_of true (some owner) task next in
      (unlock fuel m k ≡ ok (os_err, m, k))
      × (lock fuel mutex m k (pos 0) tm handler ≡ ok (returns e_os_unavail, m, k))
unfolding lock unlock
locked-refuses fuel mutex owner task next k tm handler other =
    (rw (==_ne owner k.curr other) refl, refl)
