-- ===== src/Clock/Notices.antt =====
-- What a tick of the clock sets in motion.
use Prim.Native.Nat.{bit_and}
use rosx.Base.{
  ℕ, zero, suc, ◌+◌, ◌-◌, ◌%◌, ◌^◌, ◌<◌, ◌≡◌, refl, sym, ap, ◌∙◌, subst, false, Option, none, some,
  List, [], ◌∷◌, arith, ◌==◌, ==_ne, ok,
}
use rosx.Base.Int.{pos}
use rosx.Base.Lists.{length, NotIn}
use rosx.Kernel.{Status, ready, os_ok, Kernel}
use rosx.ReadyQueue.Spec.{insert, IsReady}
use rosx.Sched.{time_slice_tick}
use rosx.MsgQueue.{MsgQueue, put_block, read, delivers}
use rosx.MsgQueue.Fifo.{IsQueue, put_block-appends}
use rosx.MsgQueue.Laws.{has_room, write-puts, read-takes_oldest}
use rosx.Event.{EventGroup, process_event}
use rosx.Event.Laws.{process_event-drops_rest}
use rosx.WaitQueue.{WaitQueues, wake_all, wake_queues}
use rosx.Clock.{
  Event, event_size, event_bytes, load_event, notify_event, tick_event, tick_irq_handler,
  handle_event, event_round, handled,
}
use rosx.Clock.Packing.{load_event-event_bytes}

wake_all-idle :
    (rounds fuel : ℕ) (w : WaitQueues) (k : Kernel)
    → 0 < rounds
    → w.head ≡ none
    → wake_all rounds fuel w k ≡ ok (w, k)
unfolding wake_all wake_queues
wake_all-idle zero fuel w k b e = absurd (omega arith)
wake_all-idle (suc f) fuel w k b e = ap (λ o. wake_queues (suc f) fuel w k o) e

-- Without a time slice the tick does nothing else.
pub no_slice : (fuel : ℕ) (k : Kernel) → k.time_slice k.curr ≡ pos 0 → time_slice_tick fuel k ≡ ok k
unfolding time_slice_tick
no_slice fuel k e = rw e refl

pub handle_event_lem :
    (rounds fuel : ℕ) (w : WaitQueues) (g g' : EventGroup) (k k' : Kernel) (e : Event) (st : Status)
    → 0 < rounds
    → 0 < e.group
    → w.head ≡ none
    → process_event rounds fuel g k e.flag ≡ ok (st, g', k')
    → handle_event rounds fuel w g k e ≡ ok (st, w, g', k')
unfolding handle_event
handle_event_lem rounds fuel w g g' k k' e st b nz calm run =
    rw (wake_all-idle rounds fuel w k b calm, handle_event)
      (rw (==_ne e.group 0 (omega arith)) (rw run refl))

-- The event thread's round, for an event at the front of the queue.
round_handles :
    (rounds fuel : ℕ) (q : MsgQueue) (w : WaitQueues) (g g' : EventGroup) (k k' : Kernel)
    (e old : Event) (st : Status) (xs : List (List ℕ))
    → 0 < rounds
    → e.group < 2 ^ 32
    → 0 < e.group
    → e.flag < 2 ^ 32
    → q.size_of_block ≡ event_size
    → IsQueue q (event_bytes e ∷ xs)
    → q.read_task ≡ none
    → q.write_task ≡ none
    → w.head ≡ none
    → process_event rounds fuel g k e.flag ≡ ok (st, g', k')
    → (q' : MsgQueue) × IsQueue q' xs
      × (event_round rounds fuel q w g k old ≡ ok (handled e, q', w, g', k'))
unfolding event_round
round_handles rounds fuel q w g g' k k' e old st xs b bg nz bf size m idle quiet calm run =
    let (q', e', rest) = read-takes_oldest fuel q k (event_bytes e) xs 0 0 m idle quiet in
    let taken : read fuel q k event_size 0 0 ≡ ok (delivers (event_bytes e), q', k) =
      subst (λ s. read fuel q k s 0 0 ≡ ok (delivers (event_bytes e), q', k)) size e' in
    let loaded : load_event (event_bytes e) old ≡ e = load_event-event_bytes e old bg bf in
    let done : handle_event rounds fuel w g k (load_event (event_bytes e) old)
        ≡ ok (st, w, g', k') =
      ap (λ z. handle_event rounds fuel w g k z) loaded
      ∙ handle_event_lem rounds fuel w g g' k k' e st b nz calm run in
    (
      q',
      rest,
      rw (taken, event_round) (rw done (ap (λ (z : Event). ok (handled z, q', w, g', k')) loaded)),
    )

-- A tick while the event queue is empty and no task waits to read or write it, no wait queue has a
-- task and the running task has no time slice counts in `jiffies` and leaves one event; the next round of the event thread takes that
-- event, and makes the task ready that waits for the clock's event, with the flag received.
tick_irq_handler-reaches_timer_thread :
    (rounds fuel : ℕ) (q : MsgQueue) (w : WaitQueues) (k : Kernel) (group t : ℕ) (next : Option ℕ)
    (old : Event) (xs : List ℕ)
    → 0 < rounds
    → length xs < fuel
    → 0 < group
    → group < 2 ^ 32
    → q.size_of_block ≡ event_size
    → IsQueue q []
    → q.read_task ≡ none
    → q.write_task ≡ none
    → w.head ≡ none
    → k.time_slice k.curr ≡ pos 0
    → IsReady k xs
    → NotIn t xs
    → (bit_and (k.event_flag t) 1 == 0) ≡ false
    → let g : EventGroup = record { task = some t; next = next } in
      (q1 q2 : MsgQueue) × (k1 k2 : Kernel) × (tick_irq_handler fuel q k group ≡ ok (q1, k1))
      × (k1.jiffies ≡ (k.jiffies + 1) % 2 ^ 32)
      × IsQueue q1 (event_bytes (tick_event group) ∷ [])
      × (event_round rounds fuel q1 w g k1 old
          ≡ ok (handled (tick_event group), q2, w, record g { task = none }, k2))
      × IsQueue q2 []
      × IsReady k2 (insert k.prio t xs)
      × (k2.state t ≡ ready)
      × (k2.event_recv t ≡ 1)
unfolding tick_irq_handler notify_event put_block
tick_irq_handler-reaches_timer_thread rounds fuel q w k group t next old xs b c nz bg size m idle
      quiet calm slice r n asked =
    let e : Event = tick_event group in
    let k1 : Kernel = record k { jiffies = (k.jiffies + 1) % 2 ^ 32 } in
    let hm : length (event_bytes e) ≡ q.size_of_block = sym size in
    let put : IsQueue (put_block q (event_bytes e)) (event_bytes e ∷ []) =
      put_block-appends q (event_bytes e) [] m hm (omega arith) in
    let r1 : IsReady k1 xs = record {
      linked = r.linked;
      distinct = r.distinct;
      sorted = r.sorted;
    } in
    let (k2, run, r2, awake, received) =
      process_event-drops_rest rounds fuel t 1 next k1 xs b c r1 n asked in
    let (q2, rest, handled_it) =
      round_handles rounds fuel (put_block q (event_bytes e)) w
        (record { task = some t; next = next }) (record { task = none; next = next }) k1 k2 e old
        os_ok [] b bg nz (omega arith) size put idle quiet calm run in
    (
      put_block q (event_bytes e),
      q2,
      k1,
      k2,
      rw
          (
            write-puts fuel q k1 (event_bytes e) (2 ^ 32 - 1) 0 hm (has_room q [] m (omega arith))
                idle,
            tick_irq_handler,
          )
          (rw (no_slice fuel k1 slice) refl),
      refl,
      put,
      handled_it,
      rest,
      r2,
      awake,
      received,
    )
