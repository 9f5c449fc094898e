-- ===== src/WaitQueue/Condition.antt =====
-- `rx_wait_queue` of kernel/include/rx_wait.h, the wait for a condition: the part up to the switch,
-- and the part of each turn from a switch back on. The result is that of the macro, or none when
-- the task has blocked.
use rosx.Base.{ℕ, Bool, Option, none, some, if◌then◌else◌, Run, ok, ◌>>=◌}
use rosx.Base.Int.{pos}
use rosx.Kernel.{interruptible, Status, os_ok, Kernel}
use rosx.Sched.{sched}
use rosx.WaitQueue.{WaitQueues, add_to_wait_queue, finish_wait}

-- `__rx_add_to_wait_queue(wq, RX_TASK_INTERRUPTIBLE, 0, 0); rx_sched();`
unfoldable pub block_on :
    ℕ → WaitQueues → Kernel → (wq : ℕ) → Run (WaitQueues × Kernel × Option Status)
block_on fuel w k wq = do
  (w1, k1) ← add_to_wait_queue fuel w k wq interruptible (pos 0) 0 0
  k2 ← sched k1
  ok (w1, k2, none)

-- `rx_wait_queue`, called where the condition is `holds`
unfoldable pub wait_queue :
    ℕ → WaitQueues → Kernel → (wq : ℕ) → (holds : Bool) → Run (WaitQueues × Kernel × Option Status)
wait_queue fuel w k wq holds = if holds then ok (w, k, some os_ok) else block_on fuel w k wq

-- `rx_wait_queue`, switched back to where the condition is `holds`
unfoldable pub wait_queue_awake :
    ℕ → WaitQueues → Kernel → (wq : ℕ) → (holds : Bool) → Run (WaitQueues × Kernel × Option Status)
wait_queue_awake fuel w k wq holds =
    if holds then (do (st, k1) ← finish_wait k; ok (w, k1, some st)) else block_on fuel w k wq
