-- ===== src/WaitQueue.antt =====
-- kernel/rx_wait.c: the wait queues, and the system's list of the wait queues that have a task.
-- A `struct wait_queue` is an address, and its fields are maps. A wait is modelled up to the
-- switch, and in `finish_wait` from there on.
pub mod Woken
pub mod Wakes
pub mod Wakeup
pub mod Waits
pub mod Loops
pub mod Expiry
pub mod Faults
pub mod Condition
pub mod Blocking
use rosx.Base.{
  ℕ, zero, suc, Bool, true, false, ◌||◌, ◌&&◌, Option, none, some, ◌==◌, same, update,
  if◌then◌else◌, Run, ok, null_deref, out_of_fuel, ◌>>=◌, deref,
}
use rosx.Base.Int.{ℤ, pos, negsuc, ltb_ℤ}
use rosx.Base.Links.{append_link}
use rosx.Kernel.{
  TaskState, ready, interruptible, uninterruptible, Status, os_ok, e_os_timeout, Timeout, timer_off,
  timer_on, timed_out, ticks_left, Kernel,
}
use rosx.ReadyQueue.{add_to_ready_q, remove_from_ready_q}
use rosx.Sched.{sched}
use rosx.Timer.{create_timer, start_timer, remove_from_active}

-- `head` is `__rx_sys_wait_list`.
pub record WaitQueues : Type 0 where
  pub task : ℕ → Option ℕ
  pub next : ℕ → Option ℕ
  pub prev : ℕ → Option ℕ
  pub head : Option ℕ

abbrev pub is_interruptible : TaskState → Bool
is_interruptible interruptible = true
is_interruptible _ = false

abbrev is_timed_out : Timeout → Bool
is_timed_out timed_out = true
is_timed_out _ = false

abbrev pub is_off : Timeout → Bool
is_off timer_off = true
is_off _ = false

-- `while(ride->next) { if(ride == wq) break; ride = ride->next; }`
unfoldable pub ride_to : ℕ → (ℕ → Option ℕ) → (wq ride : ℕ) → Run ℕ
ride_to zero nx wq ride = out_of_fuel
ride_to (suc fuel) nx wq ride = elim (nx ride) [
  | none ↦ ok ride
  | some n ↦ elim (ride == wq) [ true ↦ ok ride | false ↦ ride_to fuel nx wq n ]
]

-- The wait queue joins the end of the system's list, unless it is on it.
unfoldable pub join : ℕ → WaitQueues → ℕ → Run WaitQueues
unfolding ride_to
join fuel w wq = elim w.head [
  | none ↦ ok (record w { head = some wq })
  | some h ↦ do
    ride ← ride_to fuel w.next wq h
    if ride == wq
        then ok w
        else ok
            (record w { next = update w.next ride (some wq); prev = update w.prev wq (some ride) })
]

-- `__rx_wait_timeout`, with the address of the handler
unfoldable pub wait_timeout : ℕ → Kernel → (tm handler ticks : ℕ) → Run Kernel
wait_timeout fuel k tm handler ticks = do
  (_, k1) ← create_timer fuel k tm (some handler) k.curr ticks
  k2 ← start_timer fuel (record k1 { timer = update k1.timer k1.curr (some tm) }) (some tm)
  ok (record k2 { timeout = update k2.timeout k2.curr timer_on })

-- `__rx_wait_handler`
unfoldable pub wait_handler : Kernel → ℕ → Kernel
wait_handler k t = record k {
  timeout = update k.timeout t timed_out;
  timer = update k.timer t none;
}

-- The timer of a wait, unless the task has one running.
unfoldable pub start_timeout : ℕ → Kernel → ℤ → (tm handler : ℕ) → Run Kernel
unfolding wait_timeout
start_timeout fuel k (pos zero) tm handler = ok k
start_timeout fuel k (pos (suc n)) tm handler =
    if is_off (k.timeout k.curr)
    then wait_timeout fuel
        (record k { timeout = update k.timeout k.curr (ticks_left (pos (suc n))) }) tm handler
        (suc n)
    else ok k
start_timeout fuel k (negsuc n) tm handler = ok k

-- `__rx_add_to_wait_queue`
unfoldable pub add_to_wait_queue :
    ℕ
    → WaitQueues
    → Kernel
    → (wq : ℕ) → TaskState
    → ℤ
    → (tm handler : ℕ) → Run (WaitQueues × Kernel)
unfolding join start_timeout
add_to_wait_queue fuel w k wq task_state timeout tm handler = do
  k1 ←
      remove_from_ready_q fuel
        (record k { state = update k.state k.curr task_state; wq = update k.wq k.curr (some wq) })
        k.curr
  (first, links) ← append_link fuel (update k1.next k1.curr none) (w.task wq) k1.curr
  w1 ← join fuel (record w { task = update w.task wq first }) wq
  k2 ← start_timeout fuel (record k1 { next = links }) timeout tm handler
  ok (w1, k2)

-- `rx_wait_on` up to the switch
unfoldable pub wait_on : ℕ → WaitQueues → Kernel → (wq : ℕ) → Run (WaitQueues × Kernel)
unfolding add_to_wait_queue
wait_on fuel w k wq = do
  (w1, k1) ← add_to_wait_queue fuel w k wq uninterruptible (pos 0) 0 0
  k2 ← sched k1
  ok (w1, k2)

-- `__rx_finish_wait`
unfoldable pub finish_wait : Kernel → Run (Status × Kernel)
finish_wait k = do
  k1 ← elim (k.timer k.curr) [
    | none ↦ ok k
    | some tm ↦ do
      k0 ← remove_from_active k tm
      ok (record k0 { timer = update k0.timer k0.curr none })
  ]
  let status = if is_timed_out (k1.timeout k1.curr) then e_os_timeout else os_ok
  ok (
    status,
    record k1 { timeout = update k1.timeout k1.curr timer_off; wq = update k1.wq k1.curr none },
  )

-- The loop of `rx_wakeup` over the tasks of the queue.
unfoldable pub wake_every : (rounds fuel : ℕ) → Kernel → Option ℕ → Run Kernel
wake_every zero fuel k t = out_of_fuel
wake_every (suc rounds) fuel k none = ok k
wake_every (suc rounds) fuel k (some t) = do
  (_, k1) ← add_to_ready_q fuel (record k { state = update k.state t ready }) t
  wake_every rounds fuel k1 (k.next t)

-- `wq->prev->next = wq->next; wq->next->prev = wq->prev; wq->prev = wq->next = NULL;`
unfoldable pub take_out : WaitQueues → ℕ → Run WaitQueues
take_out w wq = do
  p ← deref (w.prev wq)
  let nx = update w.next p (w.next wq)
  n ← deref (nx wq)
  let pv = update w.prev n (w.prev wq)
  ok (record w { next = update nx wq none; prev = update pv wq none })

-- `__rx_sys_wait_list = wq->next`, and the new head has none before it.
unfoldable pub pop_front : WaitQueues → ℕ → WaitQueues
pop_front w wq = elim (w.next wq) [
  | none ↦ record w { head = none }
  | some n ↦ record w { head = some n; prev = update w.prev n none }
]

-- `rx_wakeup`
unfoldable pub wakeup :
    (rounds fuel : ℕ) → WaitQueues → Kernel → (wq : ℕ) → Run (WaitQueues × Kernel)
unfolding wake_every take_out pop_front
wakeup rounds fuel w k wq = do
  k1 ← wake_every rounds fuel k (w.task wq)
  let w1 = record w { task = update w.task wq none }
  if same (some wq) w1.head then ok (pop_front w1 wq, k1) else (do w2 ← take_out w1 wq; ok (w2, k1))

-- Who is woken by `__rx_wake`.
abbrev pub wakes : Kernel → ℕ → Bool
wakes k t = is_interruptible (k.state t) || is_timed_out (k.timeout t)

-- `rx_wake_task_in_the_queue`, from the task `tn`, behind `tp`
unfoldable pub wake_tasks :
    (rounds fuel : ℕ)
    → WaitQueues
    → Kernel
    → (wq : ℕ) → (tp tn : Option ℕ) → Run (WaitQueues × Kernel)
wake_tasks zero fuel w k wq tp tn = out_of_fuel
wake_tasks (suc rounds) fuel w k wq tp none = ok (w, k)
wake_tasks (suc rounds) fuel w k wq tp (some t) =
    let k1 = record k { state = update k.state t ready } in
    let n = k.next t in
    elim (wakes k t) [
      | true ↦ elim (same (some t) (w.task wq)) [
        | true ↦ do
          (_, k2) ← add_to_ready_q fuel k1 t
          wake_tasks rounds fuel (record w { task = update w.task wq n }) k2 wq n n
        | false ↦ do
          p ← deref tp
          (_, k2) ← add_to_ready_q fuel (record k1 { next = update k1.next p n }) t
          wake_tasks rounds fuel w k2 wq tp n
      ]
      | false ↦ wake_tasks rounds fuel w k wq (some t) n
    ]

-- The removal of the first queue of the list by `__rx_wake`.
unfoldable pub drop_front : WaitQueues → ℕ → WaitQueues
drop_front w wq =
    let nx = update w.next wq none in
    let pv = update w.prev wq none in
    elim (w.next wq) [
      | none ↦ record w { head = none; next = nx; prev = pv }
      | some n ↦ record w { head = some n; next = nx; prev = update pv n none }
    ]

-- The walk of `__rx_wake` over the system's list.
unfoldable pub wake_queues :
    (rounds fuel : ℕ) → WaitQueues → Kernel → (ride : Option ℕ) → Run (WaitQueues × Kernel)
unfolding wake_tasks take_out drop_front
wake_queues zero fuel w k ride = out_of_fuel
wake_queues (suc rounds) fuel w k none = ok (w, k)
wake_queues (suc rounds) fuel w k (some wq) = do
  (w1, k1) ← wake_tasks fuel fuel w k wq (w.task wq) (w.task wq)
  w2 ← elim (w1.task wq) [
    | some t ↦ ok w1
    | none ↦ elim (same (some wq) w1.head) [ true ↦ ok (drop_front w1 wq) | false ↦ take_out w1 wq ]
  ]
  wake_queues rounds fuel w2 k1 (w2.next wq)

-- `__rx_wake`
unfoldable pub wake_all : (rounds fuel : ℕ) → WaitQueues → Kernel → Run (WaitQueues × Kernel)
unfolding wake_queues
wake_all rounds fuel w k = wake_queues rounds fuel w k w.head
