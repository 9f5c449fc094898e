-- ===== src/MsgQueue/Deletion.antt =====
-- `rx_delete_queue`, one round for each waiting writer. A waiting reader stays noted in the queue.
use rosx.Base.{ℕ, zero, suc, none, some, update, Run, ok, out_of_fuel, ◌>>=◌}
use rosx.Kernel.{ready, Status, os_ok, Kernel}
use rosx.ReadyQueue.{add_to_ready_q}
use rosx.Timer.{stop_timer}
use rosx.MsgQueue.{MsgQueue}

-- What `rx_delete_queue` does for a task that waits.
unfoldable pub release : ℕ → Kernel → ℕ → Run Kernel
release fuel k t = do
  k1 ← elim (k.timer t) [
    | none ↦ ok k
    | some tm ↦ do k0 ← stop_timer k tm; ok (record k0 { timer = update k0.timer t none })
  ]
  (_, k2) ←
      add_to_ready_q fuel (record k1 { state = update k1.state t ready; mq = update k1.mq t none })
        t
  ok k2

-- The writers are released one by one. `write_task->next` is read before the task is entered in
-- the ready queue, and no step before that writes it.
unfoldable release_writers : ℕ → ℕ → MsgQueue → Kernel → Run (MsgQueue × Kernel)
unfolding release
release_writers zero fuel q k = out_of_fuel
release_writers (suc rounds) fuel q k = elim q.write_task [
  | none ↦ ok (q, k)
  | some t ↦ do
    k1 ← release fuel k t
    release_writers rounds fuel (record q { write_task = k.next t }) k1
]

-- `rx_delete_queue`
unfoldable delete_queue : ℕ → ℕ → MsgQueue → Kernel → Run (Status × MsgQueue × Kernel)
unfolding release_writers release
delete_queue rounds fuel q k = do
  (q1, k1) ← release_writers rounds fuel q k
  elim q1.read_task [
    | none ↦ ok (os_ok, q1, k1)
    | some t ↦ do k2 ← release fuel k1 t; ok (os_ok, q1, k2)
  ]
