-- ===== src/Sched.antt =====
-- kernel/rx_sched.c, and the clock interrupt's part in it (kernel/rx_timer.c).
-- `__sched__` of the port saves the running task's registers, loads those of the head of the ready
-- queue and enters `__rx_switch_to`; the registers are not modelled.
pub mod Laws
pub mod Slices
use rosx.Base.{
  ℕ, ◌+◌, ◌-◌, ◌%◌, ◌^◌, Bool, true, false, not, ◌&&◌, Option, none, some, ◌==◌, ltb, same, update,
  if◌then◌else◌, Run, ok, null_deref, ◌>>=◌, deref,
}
use rosx.Base.Int.{pos, dec, is_zero, ltb_ℤ}
use rosx.Kernel.{ready, running, Kernel}
use rosx.ReadyQueue.{add_to_ready_q, remove_from_ready_q}

-- `__rx_switch_to`: the head of the ready queue runs, with a full slice if its slice was used up.
unfoldable pub switch_to : Kernel → Run Kernel
switch_to k = do
  h ← deref k.ready_head
  ok (record k {
    curr = h;
    state = update k.state h running;
    ticks =
        if not (is_zero (k.time_slice h)) && is_zero (k.ticks h)
        then update k.ticks h (k.time_slice h)
        else k.ticks;
  })

-- `rx_sched`
unfoldable pub sched : Kernel → Run Kernel
unfolding switch_to
sched k =
    if same (some k.curr) k.ready_head then ok k else switch_to (record k { need_resched = false })

-- The end of a time slice: the task goes behind the others of its priority.
unfoldable pub slice_end : ℕ → Kernel → Run Kernel
slice_end fuel k = do
  k1 ← remove_from_ready_q fuel k k.curr
  let k2 = record k1 { state = update k1.state k1.curr ready }
  (_, k3) ← add_to_ready_q fuel k2 k2.curr
  if same (some k3.curr) k3.ready_head
      then ok (record k3 {
        ticks = update k3.ticks k3.curr (k3.time_slice k3.curr);
        state = update k3.state k3.curr running;
      })
      else ok (record k3 { need_resched = true })

-- `__rx_timer_tick_irq_handler` behind the notification of the timer thread.
unfoldable pub time_slice_tick : ℕ → Kernel → Run Kernel
unfolding slice_end
time_slice_tick fuel k =
    let k1 = record k { ticks = update k.ticks k.curr (dec (k.ticks k.curr)) } in
    if ltb_ℤ (pos 0) (k.time_slice k.curr)
    then if is_zero (k1.ticks k1.curr) then slice_end fuel k1 else ok k1
    else ok k
