-- ===== src/Clock/Wakes.antt =====
-- A tick of the clock while the event thread waits for an event.
use Prim.Native.Nat.{bit_and}
use rosx.Base.{
  ℕ, suc, ◌+◌, ◌-◌, ◌%◌, ◌^◌, ◌<◌, ◌≡◌, refl, sym, ap, ◌∙◌, subst, false, Option, none, some, List,
  [], ◌∷◌, arith, ◌==◌, update, ok,
}
use rosx.Base.Int.{pos}
use rosx.Base.Lists.{length, NotIn}
use rosx.Kernel.{Status, ready, os_ok, Kernel}
use rosx.ReadyQueue.Spec.{insert, insert-first, NoneAbove, IsReady}
use rosx.Sched.{sched}
use rosx.Sched.Laws.{sched-most_urgent}
use rosx.MsgQueue.{MsgQueue}
use rosx.MsgQueue.Fifo.{IsQueue}
use rosx.MsgQueue.Laws.{read_awake-takes_oldest}
use rosx.Event.{EventGroup, process_event}
use rosx.Event.Laws.{process_event-drops_rest}
use rosx.WaitQueue.{WaitQueues}
use rosx.Clock.{
  Event, event_size, event_bytes, load_event, tick_event, notify_event, tick_irq_handler,
  handle_event, after_read, event_round_awake, handled,
}
use rosx.Clock.Packing.{load_event-event_bytes}
use rosx.MsgQueue.Waiting.{write-wakes_lem}
use rosx.Clock.Notices.{handle_event_lem, no_slice}

-- The round of the event thread that waited, for an event at the front of the queue.
awake_handles :
    (rounds fuel : ℕ) (q : MsgQueue) (w : WaitQueues) (g g' : EventGroup) (k k' : Kernel)
    (e old : Event) (st : Status) (xs : List (List ℕ))
    → 0 < rounds
    → e.group < 2 ^ 32
    → 0 < e.group
    → e.flag < 2 ^ 32
    → IsQueue q (event_bytes e ∷ xs)
    → q.write_task ≡ none
    → k.err k.curr ≡ os_ok
    → w.head ≡ none
    → process_event rounds fuel g k e.flag ≡ ok (st, g', k')
    → (q' : MsgQueue) × IsQueue q' xs
      × (event_round_awake rounds fuel q w g k old ≡ ok (handled e, q', w, g', k'))
unfolding event_round_awake after_read
awake_handles rounds fuel q w g g' k k' e old st xs b bg nz bf m quiet fine calm run =
    let (q', taken, rest) = read_awake-takes_oldest fuel q k (event_bytes e) xs m quiet fine in
    let loaded : load_event (event_bytes e) old ≡ e = load_event-event_bytes e old bg bf in
    let done : handle_event rounds fuel w g k (load_event (event_bytes e) old)
        ≡ ok (st, w, g', k') =
      ap (λ z. handle_event rounds fuel w g k z) loaded
      ∙ handle_event_lem rounds fuel w g g' k k' e st b nz calm run in
    (
      q',
      rest,
      rw (taken, event_round_awake)
          (rw done (ap (λ (z : Event). ok (handled z, q', w, g', k')) loaded)),
    )

-- A tick while the event thread waits for an event makes that thread ready, in the ready queue by
-- its priority, and leaves one event for it; the running task has no time slice.
tick_irq_handler-wakes_event_thread :
    (fuel : ℕ) (q : MsgQueue) (k : Kernel) (group t : ℕ) (xs : List ℕ)
    → length xs < fuel
    → q.size_of_block ≡ event_size
    → IsQueue q []
    → q.read_task ≡ some t
    → k.timer t ≡ none
    → k.time_slice k.curr ≡ pos 0
    → IsReady k xs
    → NotIn t xs
    → (q' : MsgQueue) × (k' : Kernel) × (tick_irq_handler fuel q k group ≡ ok (q', k'))
      × IsQueue q' (event_bytes (tick_event group) ∷ [])
      × (q'.read_task ≡ none)
      × IsReady k' (insert k.prio t xs)
      × (k'.state t ≡ ready)
      × (k'.jiffies ≡ (k.jiffies + 1) % 2 ^ 32)
      × (q'.write_task ≡ q.write_task)
      × (k' ≡ record k {
        jiffies = (k.jiffies + 1) % 2 ^ 32;
        state = update k.state t ready;
        mq = update k.mq t none;
        next = k'.next;
        ready_head = k'.ready_head;
        need_resched = k'.need_resched;
      })
unfolding tick_irq_handler notify_event
tick_irq_handler-wakes_event_thread fuel q k group t xs c size m waits untimed slice r n =
    let e : Event = tick_event group in
    let k1 : Kernel = record k { jiffies = (k.jiffies + 1) % 2 ^ 32 } in
    let r1 : IsReady k1 xs = record {
      linked = r.linked;
      distinct = r.distinct;
      sorted = r.sorted;
    } in
    let (q', k', run, m', noted, r', awake, frame, same_size, writers) =
      write-wakes_lem fuel q k1 (event_bytes e) [] (2 ^ 32 - 1) 0 t xs m (sym size) (omega arith)
        waits untimed c r1 n in
    let slice' : k'.time_slice k'.curr ≡ pos 0 = ap (λ z. z.time_slice z.curr) frame ∙ slice in
    (
      q',
      k',
      rw (run, tick_irq_handler) (rw (no_slice fuel k' slice') refl),
      m',
      noted,
      r',
      awake,
      ap (λ z. z.jiffies) frame,
      writers,
      frame,
    )

-- A tick while the event thread `v` waits without a timeout to read the empty event queue, with no
-- error noted for it. The thread is more urgent than every ready task, no task waits to write the
-- queue, no wait queue has a task, and the running task has no time slice. Then the tick counts in
-- `jiffies` and makes the thread ready; the scheduler switches to it, and its read returns the
-- tick's event, by which it makes the task `t` ready that waits first for the clock's event, with
-- the flag received. The event queue is empty again.
pub tick_irq_handler-wakes_timer_thread :
    (rounds fuel : ℕ) (q : MsgQueue) (w : WaitQueues) (k : Kernel) (group v t : ℕ) (next : Option ℕ)
    (old : Event) (xs : List ℕ)
    → 0 < rounds
    → suc (length xs) < fuel
    → 0 < group
    → group < 2 ^ 32
    → q.size_of_block ≡ event_size
    → IsQueue q []
    → q.read_task ≡ some v
    → q.write_task ≡ none
    → k.timer v ≡ none
    → k.err v ≡ os_ok
    → w.head ≡ none
    → k.time_slice k.curr ≡ pos 0
    → IsReady k xs
    → NotIn v xs
    → NoneAbove k.prio (suc (k.prio v)) xs
    → NotIn t (v ∷ xs)
    → (bit_and (k.event_flag t) 1 == 0) ≡ false
    → let g : EventGroup = record { task = some t; next = next } in
      (q1 q2 : MsgQueue) × (k1 k2 k3 : Kernel) × (tick_irq_handler fuel q k group ≡ ok (q1, k1))
      × (k1.jiffies ≡ (k.jiffies + 1) % 2 ^ 32)
      × (sched k1 ≡ ok k2)
      × (k2.curr ≡ v)
      × (event_round_awake rounds fuel q1 w g k2 old
          ≡ ok (handled (tick_event group), q2, w, record g { task = none }, k3))
      × IsQueue q2 []
      × IsReady k3 (insert k.prio t (v ∷ xs))
      × (k3.state t ≡ ready)
      × (k3.event_recv t ≡ 1)
tick_irq_handler-wakes_timer_thread rounds fuel q w k group v t next old xs b c nz bg size m waits
      quiet untimed fine calm slice r n top apart asked =
    let (q1, k1, ticked, m1, noted, r1, awake, time, writers, frame) =
      tick_irq_handler-wakes_event_thread fuel q k group v xs (omega arith) size m waits untimed
        slice r n in
    let front : IsReady k1 (v ∷ xs) = rw (insert-first k.prio v xs top) at r1 in
    let (k2, ran, runs, urgent, r2, switched, frame2, states) = sched-most_urgent k1 v xs front in
    let fine2 : k2.err k2.curr ≡ os_ok =
      ap (λ z. k2.err z) runs ∙ ap (λ z. z.err v) frame2 ∙ ap (λ z. z.err v) frame ∙ fine in
    let asked2 : (bit_and (k2.event_flag t) 1 == 0) ≡ false =
      ap (λ z. bit_and (z.event_flag t) 1 == 0) frame2
      ∙ ap (λ z. bit_and (z.event_flag t) 1 == 0) frame
      ∙ asked in
    let prios : k2.prio ≡ k.prio = ap (λ z. z.prio) frame2 ∙ ap (λ z. z.prio) frame in
    let (k3, run, r3, up, received) =
      process_event-drops_rest rounds fuel t 1 next k2 (v ∷ xs) b c r2 apart asked2 in
    let (q2, rest, handled_it) =
      awake_handles rounds fuel q1 w (record { task = some t; next = next })
        (record { task = none; next = next }) k2 k3 (tick_event group) old os_ok [] b bg nz
        (omega arith) m1 (writers ∙ quiet) fine2 calm run in
    (
      q1,
      q2,
      k1,
      k2,
      k3,
      ticked,
      time,
      ran,
      runs,
      handled_it,
      rest,
      subst (λ f. IsReady k3 (insert f t (v ∷ xs))) prios r3,
      up,
      received,
    )
