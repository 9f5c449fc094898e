-- ===== src/Semaphore.antt =====
-- kernel/rx_semaphore.c. `sem` is the address that a waiting task's `sem` field holds; the fields
-- of that one semaphore are the record `Semaphore`.
-- A wait that blocks has two halves: what is done up to the switch to another task, and, in
-- `resume_wait`, what the task does when it runs again.
pub mod Counting
pub mod Timeouts
pub mod Delete
use rosx.Base.{
  ℕ, zero, suc, ◌+◌, Bool, true, false, Option, none, some, ◌==◌, same, update, if◌then◌else◌, Run,
  ok, null_deref, out_of_fuel, ◌>>=◌, deref,
}
use rosx.Base.Int.{ℤ, pos, negsuc, inc, dec, ltb_ℤ}
use rosx.Base.Links.{append_link, unhook}
use rosx.Kernel.{
  suspend, ready, Status, os_ok, os_err, e_os_timeout, e_os_unavail, Timeout, timer_off, timer_on,
  timed_out, Kernel,
}
use rosx.ReadyQueue.{add_to_ready_q, remove_from_ready_q}
use rosx.Sched.{sched}
use rosx.Task.{suspend_task}
use rosx.Timer.{init_timer, start_timer, remove_from_active}

pub record Semaphore : Type 0 where
  pub init_val : ℤ
  pub curr_val : ℤ
  pub task : Option ℕ

-- `rx_create_semaphore`
unfoldable create_semaphore : Semaphore → ℤ → Status × Semaphore
create_semaphore s (pos zero) = (os_err, s)
create_semaphore s (pos (suc n)) =
    (os_ok, record { init_val = pos (suc n); curr_val = pos (suc n); task = none })
create_semaphore s (negsuc n) = (os_err, s)

-- The timer that a deleted service stops for a waiting task.
unfoldable cancel_timer : Kernel → ℕ → Run Kernel
cancel_timer k t = elim (k.timer t) [
  | none ↦ ok k
  | some tm ↦ do k1 ← remove_from_active k tm; ok (record k1 { timer = update k1.timer t none })
]

-- `rx_delete_semaphore`: one round for each waiting task.
unfoldable pub delete_semaphore : ℕ → ℕ → Semaphore → Kernel → Run (Semaphore × Kernel)
unfolding cancel_timer
delete_semaphore zero fuel s k = out_of_fuel
delete_semaphore (suc rounds) fuel s k = elim s.task [
  | none ↦ ok (s, k)
  | some t ↦ do
    k1 ← cancel_timer (record k { state = update k.state t ready; sem = update k.sem t none }) t
    let s1 = record s { task = k1.next t }
    (_, k2) ← add_to_ready_q fuel k1 t
    delete_semaphore rounds fuel s1 k2
]

-- `rx_semaphore_post`
unfoldable pub post : ℕ → Semaphore → Kernel → Run (Status × Semaphore × Kernel)
post fuel s k = elim s.task [
  | none ↦ ok (os_ok, s, k)
  | some t ↦ do
    (_, k1) ←
        add_to_ready_q fuel (record k { state = update k.state t ready; sem = update k.sem t none })
          t
    ok (os_ok, record s { task = k.next t; curr_val = inc s.curr_val }, k1)
]

-- `__rx_sem_handler`, with the semaphore that `task->sem` points to
unfoldable pub sem_handler : ℕ → Semaphore → Kernel → ℕ → Run (Semaphore × Kernel)
sem_handler fuel s k task = elim (k.sem task) [
  | none ↦ ok (s, k)
  | some sem ↦ do
    (head, links) ← unhook fuel k.next s.task task
    let s1 = record s { task = head; curr_val = inc s.curr_val }
    (_, k1) ←
        add_to_ready_q fuel
          (record k {
            next = links;
            timer = update k.timer task none;
            timeout = update k.timeout task timed_out;
            state = update k.state task ready;
          })
          task
    ok (s1, record k1 { sem = update k1.sem task none })
]

-- How a wait goes on: it returns at once, or another task runs.
pub data Outcome : Type 0 where
  returns : Status → Outcome
  sleeps : Outcome

-- `__rx_sem_timeout`, with the timer `tm` on the task's stack and the handler's address
unfoldable sem_timeout : ℕ → Kernel → (tm handler ticks : ℕ) → Run Kernel
sem_timeout fuel k tm handler ticks = do
  (_, k1) ← init_timer fuel k tm (some handler) k.curr ticks
  k2 ← start_timer fuel k1 (some tm)
  (_, k3) ←
      suspend_task fuel
        (record k2 {
          timeout = update k2.timeout k2.curr timer_on;
          timer = update k2.timer k2.curr (some tm);
        })
        none
  ok k3

-- The part of `rx_semaphore_wait` that puts the running task to sleep on the semaphore.
unfoldable pub enqueue : ℕ → ℕ → Semaphore → Kernel → Run (Semaphore × Kernel)
enqueue fuel sem s k = do
  k1 ←
      remove_from_ready_q fuel
        (record k {
          state = update k.state k.curr suspend;
          sem = update k.sem k.curr (some sem);
          timeout = update k.timeout k.curr timer_off;
        })
        k.curr
  (head, links) ← append_link fuel (update k1.next k1.curr none) s.task k1.curr
  ok (record s { task = head }, record k1 { next = links })

abbrev pub nonneg : ℤ → Bool
nonneg (pos n) = true
nonneg (negsuc n) = false

-- `rx_semaphore_wait` up to the switch
unfoldable pub wait :
    ℕ → (sem : ℕ) → Semaphore → Kernel → ℤ → (tm handler : ℕ) → Run (Outcome × Semaphore × Kernel)
unfolding enqueue sem_timeout
wait fuel sem s k timeout tm handler =
    let s1 = record s { curr_val = dec s.curr_val } in
    if nonneg s1.curr_val then ok (returns os_ok, s1, k) else elim timeout [
      | pos zero ↦ ok (returns e_os_unavail, record s1 { curr_val = inc s1.curr_val }, k)
      | pos (suc n) ↦ do
        (s2, k1) ← enqueue fuel sem s1 k
        k2 ← sem_timeout fuel k1 tm handler (suc n)
        ok (sleeps, s2, k2)
      | negsuc n ↦ do (s2, k1) ← enqueue fuel sem s1 k; k2 ← sched k1; ok (sleeps, s2, k2)
    ]

-- What the wait returns when its task runs again.
unfoldable resume_wait : Kernel → ℤ → Status
resume_wait k (pos zero) = os_ok
resume_wait k (pos (suc n)) = elim (k.timeout k.curr) [ timed_out ↦ e_os_timeout | _ ↦ os_ok ]
resume_wait k (negsuc n) = os_ok
