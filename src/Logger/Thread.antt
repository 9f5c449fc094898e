-- ===== src/Logger/Thread.antt =====
-- `rx_logger_thread` of kernel/rx_logger.c: the opening of the device, the wait for text, and the
-- rounds. A descriptor that is negative is not modelled behind the opening.
use rosx.Base.{
  ℕ, zero, suc, ◌+◌, Option, none, some, List, if◌then◌else◌, Run, ok, out_of_fuel, ◌>>=◌,
}
use rosx.Base.Int.{ℤ, pos, ltb_ℤ}
use rosx.Kernel.{Status, os_ok, Kernel}
use rosx.WaitQueue.{WaitQueues}
use rosx.WaitQueue.Condition.{wait_queue, wait_queue_awake}
use rosx.Device.{Devices, dev_open, dev_write}
use rosx.Logger.{PrintBuffer, has_text, log_byte}

-- The opening of CONFIG_SERIAL: none where the thread spins for ever.
unfoldable open_serial :
    {S : Type 0} → (List ℕ → List ℕ → ℤ) → Devices S → List ℕ → Run (Option ℤ × Devices S)
open_serial strcmp v serial = do
  (dd, v1) ← dev_open strcmp v serial
  ok ((if ltb_ℤ (pos 0) dd then none else some dd), v1)

-- The thread behind the wait: if the wait returned 0, a byte goes to the device.
unfoldable pub log_round :
    {S : Type 0} → Devices S → PrintBuffer → (dd : ℕ) → Status → Run (Devices S × PrintBuffer)
log_round v b dd os_ok = do
  (_, v1) ← dev_write v dd (λ a. b.mem (b.tail + a)) 1
  ok (v1, (log_byte b).1)
log_round v b dd _ = ok (v, b)

-- The thread from the start of a round until it blocks.
unfoldable pub logger_thread :
    {S : Type 0}
    → (rounds fuel : ℕ) → Devices S
    → PrintBuffer
    → WaitQueues
    → Kernel
    → (wq dd : ℕ) → Run (Devices S × PrintBuffer × WaitQueues × Kernel)
unfolding wait_queue log_round
logger_thread zero fuel v b w k wq dd = out_of_fuel
logger_thread (suc rounds) fuel v b w k wq dd = do
  (w1, k1, st) ← wait_queue fuel w k wq (has_text b)
  elim st [
    | none ↦ ok (v, b, w1, k1)
    | some r ↦ do (v1, b1) ← log_round v b dd r; logger_thread rounds fuel v1 b1 w1 k1 wq dd
  ]

-- The thread from a switch back to it until it blocks again.
unfoldable pub logger_thread_awake :
    {S : Type 0}
    → (rounds fuel : ℕ) → Devices S
    → PrintBuffer
    → WaitQueues
    → Kernel
    → (wq dd : ℕ) → Run (Devices S × PrintBuffer × WaitQueues × Kernel)
unfolding wait_queue_awake log_round logger_thread
logger_thread_awake rounds fuel v b w k wq dd = do
  (w1, k1, st) ← wait_queue_awake fuel w k wq (has_text b)
  elim st [
    | none ↦ ok (v, b, w1, k1)
    | some r ↦ do (v1, b1) ← log_round v b dd r; logger_thread rounds fuel v1 b1 w1 k1 wq dd
  ]
