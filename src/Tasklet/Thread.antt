-- ===== src/Tasklet/Thread.antt =====
-- `rx_bh_thread` of kernel/rx_tasklet.c: the wait for a tasklet, and the rounds.
use rosx.Base.{ℕ, zero, suc, Bool, true, false, none, some, Run, ok, out_of_fuel, ◌>>=◌}
use rosx.Kernel.{Status, os_ok, Kernel}
use rosx.WaitQueue.{WaitQueues}
use rosx.WaitQueue.Condition.{wait_queue, wait_queue_awake}
use rosx.Tasklet.{Tasklets, Function, run_tasklet}

-- `sys_tasklet_list != NULL`
abbrev pub has_tasklet : Tasklets → Bool
has_tasklet s = elim s.head [ none ↦ false | some t ↦ true ]

-- The thread behind the wait: it runs a tasklet if the wait returned 0.
unfoldable pub serve : {S : Type 0} → Function S → S → Tasklets → Status → Run (S × Tasklets)
serve call m s os_ok = run_tasklet call m s
serve call m s _ = ok (m, s)

-- The thread from the start of a round until it blocks.
unfoldable pub bh_thread :
    {S : Type 0}
    → (rounds fuel : ℕ) → Function S
    → S
    → Tasklets
    → WaitQueues
    → Kernel
    → (wq : ℕ) → Run (S × Tasklets × WaitQueues × Kernel)
unfolding wait_queue serve
bh_thread zero fuel call m s w k wq = out_of_fuel
bh_thread (suc rounds) fuel call m s w k wq = do
  (w1, k1, st) ← wait_queue fuel w k wq (has_tasklet s)
  elim st [
    | none ↦ ok (m, s, w1, k1)
    | some r ↦ do (m1, s1) ← serve call m s r; bh_thread rounds fuel call m1 s1 w1 k1 wq
  ]

-- The thread from a switch back to it until it blocks again.
unfoldable pub bh_thread_awake :
    {S : Type 0}
    → (rounds fuel : ℕ) → Function S
    → S
    → Tasklets
    → WaitQueues
    → Kernel
    → (wq : ℕ) → Run (S × Tasklets × WaitQueues × Kernel)
unfolding wait_queue_awake serve bh_thread
bh_thread_awake rounds fuel call m s w k wq = do
  (w1, k1, st) ← wait_queue_awake fuel w k wq (has_tasklet s)
  elim st [
    | none ↦ ok (m, s, w1, k1)
    | some r ↦ do (m1, s1) ← serve call m s r; bh_thread rounds fuel call m1 s1 w1 k1 wq
  ]
