-- ===== src/Mutex.antt =====
-- kernel/rx_mutex.c, with CONFIG_PRIO_INHERITANCE, which apps/rx_defines.h defines. `mutex` is the
-- address that a waiting task's `mutex` field holds; the fields of that one mutex are the record
-- `Mutex`. As for a semaphore, a lock that blocks has two halves.
pub mod Laws
pub mod Inherit
pub mod HandOver
use rosx.Base.{
  ℕ, zero, suc, Bool, true, false, Option, none, some, ◌==◌, ltb, same, update, if◌then◌else◌, Run,
  ok, null_deref, out_of_fuel, ◌>>=◌, deref,
}
use rosx.Base.Int.{ℤ, pos, negsuc}
use rosx.Base.Links.{append_link, unhook}
use rosx.Kernel.{
  TaskState, suspend, ready, Status, os_ok, os_err, e_os_timeout, e_os_unavail, Kernel,
}
use rosx.ReadyQueue.{add_to_ready_q, remove_from_ready_q}
use rosx.Sched.{sched}
use rosx.Task.{suspend_task}
use rosx.Timer.{init_timer, start_timer, stop_timer}

pub record Mutex : Type 0 where
  pub locked : Bool
  pub owner : Option ℕ
  pub task : Option ℕ
  pub next : Option ℕ

-- `rx_create_mutex`
unfoldable create_mutex : Mutex → Status × Mutex
create_mutex m = (os_ok, record { locked = false; owner = none; task = none; next = none })

-- A waiting task's timer is stopped.
unfoldable pub drop_timer : Kernel → ℕ → Run Kernel
drop_timer k t = elim (k.timer t) [
  | none ↦ ok k
  | some tm ↦ do k1 ← stop_timer k tm; ok (record k1 { timer = update k1.timer t none })
]

-- `rx_delete_mutex`: one round for each waiting task.
unfoldable delete_mutex : ℕ → ℕ → Mutex → Kernel → Run (Mutex × Kernel)
unfolding drop_timer
delete_mutex zero fuel m k = out_of_fuel
delete_mutex (suc rounds) fuel m k = elim m.task [
  | none ↦ ok (record m { owner = none }, k)
  | some t ↦ do
    k1 ← drop_timer (record k { state = update k.state t ready; mutex = update k.mutex t none }) t
    let m1 = record m { task = k1.next t }
    (_, k2) ← add_to_ready_q fuel k1 t
    delete_mutex rounds fuel m1 k2
]

-- The walk over the wait queue that gives the owner the priority of its most urgent task.
unfoldable pub inherit :
    ℕ → (next : ℕ → Option ℕ) → (prio : ℕ → ℕ) → (owner : ℕ) → Option ℕ → Run (ℕ → ℕ)
inherit zero next prio owner t = out_of_fuel
inherit (suc fuel) next prio owner none = ok prio
inherit (suc fuel) next prio owner (some t) =
    inherit fuel next (if ltb (prio t) (prio owner) then update prio owner (prio t) else prio) owner
      (next t)

-- The owner gets back its own priority, and its place by it.
unfoldable pub restore : ℕ → Kernel → ℕ → Run Kernel
restore fuel k owner = if k.prio owner == k.orig_prio owner then ok k else (do
  k1 ← remove_from_ready_q fuel (record k { prio = update k.prio owner (k.orig_prio owner) }) owner
  (_, k2) ← add_to_ready_q fuel k1 k1.curr
  ok k2)

-- The mutex goes to the first waiting task.
unfoldable pub hand_over : ℕ → Mutex → Kernel → ℕ → Run (Mutex × Kernel)
unfolding drop_timer inherit
hand_over fuel m k t = do
  let rest = k.next t
  k1 ← drop_timer k t
  prio ← inherit fuel k1.next k1.prio t rest
  (_, k2) ←
      add_to_ready_q fuel
        (record k1 { prio = prio; state = update k1.state t ready; mutex = update k1.mutex t none })
        t
  ok (record m { task = rest; owner = some t; locked = true }, k2)

-- `rx_mutex_unlock`
unfoldable pub unlock : ℕ → Mutex → Kernel → Run (Status × Mutex × Kernel)
unfolding restore hand_over
unlock fuel m k =
    if m.locked
    then elim m.owner [
      | none ↦ null_deref
      | some owner ↦
          if owner == k.curr
          then (do
            k1 ← restore fuel k owner
            elim m.task [
              | none ↦ ok (os_ok, record m { locked = false }, k1)
              | some t ↦ do
                (m1, k2) ← hand_over fuel (record m { locked = false }) k1 t
                ok (os_ok, m1, k2)
            ])
          else ok (os_err, m, k)
    ]
    else ok (os_ok, m, k)

abbrev pub is_ready : TaskState → Bool
is_ready ready = true
is_ready _ = false

-- The owner's place in the ready queue after its priority changed.
unfoldable pub rearrange : ℕ → Kernel → ℕ → Run Kernel
rearrange fuel k owner =
    if is_ready (k.state owner)
    then (do k1 ← remove_from_ready_q fuel k owner; (_, k2) ← add_to_ready_q fuel k1 owner; ok k2)
    else ok k

-- `__rx_mutex_handler`, with the mutex that `task->mutex` points to
unfoldable mutex_handler : ℕ → Mutex → Kernel → ℕ → Run (Mutex × Kernel)
unfolding inherit rearrange
mutex_handler fuel m k task = if same m.owner (some task) then ok (m, k) else (do
  (head, links) ← unhook fuel k.next m.task task
  let k1 = record k { next = links }
  owner ← deref m.owner
  prio ←
      (if k1.prio owner == k1.prio task
        then inherit fuel k1.next (update k1.prio owner (k1.orig_prio owner)) owner head
        else ok k1.prio)
  k2 ← rearrange fuel (record k1 { prio = prio }) owner
  (_, k3) ←
      add_to_ready_q fuel
        (record k2 {
          timer = update k2.timer task none;
          mutex = update k2.mutex task none;
          state = update k2.state task ready;
        })
        task
  ok (record m { task = head }, k3))

-- `__rx_mutex_timeout` up to the switch, with the timer `tm` on the task's stack and the handler's
-- address; `resume_lock` is what follows.
unfoldable mutex_timeout : ℕ → Kernel → (tm handler ticks : ℕ) → Run Kernel
mutex_timeout fuel k tm handler ticks = do
  (_, k1) ← init_timer fuel k tm (some handler) k.curr ticks
  k2 ← start_timer fuel k1 (some tm)
  (_, k3) ← suspend_task fuel (record k2 { timer = update k2.timer k2.curr (some tm) }) none
  ok k3

pub data Outcome : Type 0 where
  returns : Status → Outcome
  sleeps : Outcome

-- The running task leaves the ready queue for the end of the wait queue.
unfoldable pub enqueue : ℕ → ℕ → Mutex → Kernel → Run (Mutex × Kernel)
enqueue fuel mutex m k = do
  k1 ←
      remove_from_ready_q fuel
        (record k {
          state = update k.state k.curr suspend;
          mutex = update k.mutex k.curr (some mutex);
        })
        k.curr
  (head, links) ← append_link fuel (update k1.next k1.curr none) m.task k1.curr
  ok (record m { task = head }, record k1 { next = links })

-- The owner inherits the priority of a more urgent task.
unfoldable pub lend : ℕ → Kernel → ℕ → Run Kernel
unfolding rearrange
lend fuel k owner =
    if ltb (k.prio k.curr) (k.prio owner)
    then rearrange fuel (record k { prio = update k.prio owner (k.prio k.curr) }) owner
    else ok k

-- `rx_mutex_lock` up to the switch
unfoldable pub lock :
    ℕ → (mutex : ℕ) → Mutex → Kernel → ℤ → (tm handler : ℕ) → Run (Outcome × Mutex × Kernel)
unfolding enqueue lend mutex_timeout
lock fuel mutex m k timeout tm handler =
    if m.locked
    then elim timeout [
      | pos zero ↦ ok (returns e_os_unavail, m, k)
      | pos (suc n) ↦ do
        (m1, k1) ← enqueue fuel mutex m k
        owner ← deref m1.owner
        k2 ← lend fuel k1 owner
        k3 ← mutex_timeout fuel k2 tm handler (suc n)
        ok (sleeps, m1, k3)
      | negsuc n ↦ do
        (m1, k1) ← enqueue fuel mutex m k
        owner ← deref m1.owner
        k2 ← lend fuel k1 owner
        k3 ← sched k2
        ok (sleeps, m1, k3)
    ]
    else ok (returns os_ok, record m { locked = true; owner = some k.curr }, k)

-- What the lock returns when its task runs again.
unfoldable resume_lock : Mutex → Kernel → ℤ → Status
resume_lock m k (pos zero) = os_ok
resume_lock m k (pos (suc n)) = if same m.owner (some k.curr) then os_ok else e_os_timeout
resume_lock m k (negsuc n) = os_ok
