-- ===== src/Tests/Waits.antt =====
-- Wait queues.
use rosx.Base.{ℕ, ◌≡◌, refl, none, some, [], ◌∷◌, arith, ok, out_of_fuel, update, inl, inr}
use rosx.Base.Int.{pos}
use rosx.Base.Lists.{NotIn, In}
use rosx.Base.Links.{IsList, AgreeOff}
use rosx.Kernel.{interruptible, uninterruptible, ready, timer_on, timer_off, e_os_timeout, Kernel}
use rosx.ReadyQueue.Spec.{insert, IsReady}
use rosx.Timer.Spec
use rosx.Timer.Spec.{IsTimers}
use rosx.WaitQueue.{
  WaitQueues, wake_tasks, wakeup, join, wait_handler, finish_wait, add_to_wait_queue,
}
use rosx.WaitQueue.Woken.{IsWoken}
use rosx.WaitQueue.Wakes.{wake_tasks-filters}
use rosx.WaitQueue.Wakeup.{wakeup-wakes_all, wakeup-makes_circle}
use rosx.WaitQueue.Waits.{IsQueues}
use rosx.WaitQueue.Expiry.{add_to_wait_queue-arms, wait_handler-gives_up}
use rosx.Tests.Demo.{demo, queue, demo-IsReady}

-- The tasks 4 and 6 wait on the queue at address 100, the task 8 on the one at 200; 4 and 8 may
-- be woken by the event thread, 6 may not.
abbrev waiting : Kernel
waiting = record demo {
  next = update demo.next 4 (some 6);
  state = update (update (update demo.state 4 interruptible) 6 uninterruptible) 8 interruptible;
}

waiting-IsReady : IsReady waiting queue
waiting-IsReady = record {
  linked = (refl, (refl, (refl, refl)));
  distinct = demo-IsReady.distinct;
  sorted = demo-IsReady.sorted;
}

abbrev queues : WaitQueues
queues = record {
  task = update (update (λ p. none) 100 (some 4)) 200 (some 8);
  next = update (λ p. none) 100 (some 200);
  prev = update (λ p. none) 200 (some 100);
  head = some 100;
}

wake_tasks-filters_example :
    (w' : WaitQueues) × (k' : Kernel) × (wake_tasks 3 6 queues waiting 100 (some 4) (some 4)
      ≡ ok (w', k'))
    × IsList k'.next (w'.task 100) (6 ∷ [])
    × IsReady k' (1 ∷ 2 ∷ 4 ∷ 3 ∷ [])
    × IsWoken waiting k' (4 ∷ [])
    × ((q : ℕ) → NotIn q (4 ∷ 6 ∷ []) → NotIn q queue → k'.next q ≡ waiting.next q)
    × (w' ≡ record queues { task = w'.task })
    × AgreeOff (100 ∷ []) queues.task w'.task
unfolding insert
wake_tasks-filters_example =
    wake_tasks-filters 3 6 queues waiting 100 (4 ∷ 6 ∷ []) queue (omega arith) (omega arith)
      waiting-IsReady (refl, (refl, refl)) (omega arith) (omega arith)

wakeup-wakes_all_example :
    (w' : WaitQueues) × (k' : Kernel) × (wakeup 3 6 queues waiting 100 ≡ ok (w', k'))
    × IsReady k' (6 ∷ 1 ∷ 2 ∷ 4 ∷ 3 ∷ [])
    × IsWoken waiting k' (4 ∷ 6 ∷ [])
    × (w'.task 100 ≡ none)
    × AgreeOff (100 ∷ []) queues.task w'.task
    × IsList w'.next w'.head (200 ∷ [])
    × (w'.next ≡ queues.next)
    × ((t : ℕ) → NotIn t (4 ∷ 6 ∷ []) → NotIn t queue → k'.next t ≡ waiting.next t)
unfolding insert
wakeup-wakes_all_example =
    wakeup-wakes_all 3 6 queues waiting 100 (4 ∷ 6 ∷ []) (200 ∷ []) queue (omega arith)
      (omega arith) waiting-IsReady (refl, (refl, refl)) (omega arith) (omega arith)
      (refl, (refl, refl))

wakeup-makes_circle_example :
    (w1 w2 : WaitQueues) × (k1 : Kernel) × (wakeup 3 6 queues waiting 100 ≡ ok (w1, k1))
    × (join 2 w1 100 ≡ ok w2)
    × (w2.next 200 ≡ some 100)
    × (w2.next 100 ≡ some 200)
    × ((n : ℕ) → join n w2 300 ≡ out_of_fuel)
wakeup-makes_circle_example =
    wakeup-makes_circle 3 6 1 queues waiting 100 200 300 (4 ∷ 6 ∷ []) queue (omega arith)
      (omega arith) waiting-IsReady (refl, (refl, refl)) (omega arith) (omega arith)
      (refl, (refl, refl)) (omega arith) (omega arith) (omega arith)

add_to_wait_queue-arms_example :
    (w' : WaitQueues) × (k' : Kernel) × (add_to_wait_queue 6 queues waiting 200 interruptible
        (pos 5)
        60
        70
      ≡ ok (w', k'))
    × IsReady k' (2 ∷ 3 ∷ [])
    × IsList k'.next (w'.task 200) (8 ∷ 1 ∷ [])
    × IsQueues w' (100 ∷ 200 ∷ [])
    × IsTimers k' (Spec.insert k'.time_expiry 60 [])
    × (k'.time_expiry 60 ≡ 5)
    × (k'.handler 60 ≡ some 70)
    × (k'.priv 60 ≡ 1)
    × (k'.timer 1 ≡ some 60)
    × (k'.timeout 1 ≡ timer_on)
    × (k'.state 1 ≡ interruptible)
    × (k'.wq 1 ≡ some 200)
    × AgreeOff (200 ∷ []) queues.task w'.task
add_to_wait_queue-arms_example =
    add_to_wait_queue-arms 6 queues waiting 200 interruptible 4 60 70 (8 ∷ []) (2 ∷ 3 ∷ [])
      (100 ∷ 200 ∷ []) [] (omega arith) (omega arith) (omega arith) (omega arith) waiting-IsReady
      (refl, refl) (omega arith) (omega arith)
      (record { linked = (refl, (refl, refl)); distinct = omega arith }) (λ n. refl)
      (record { linked = refl; backed = tt; distinct = tt; sorted = tt }) tt refl

wait_handler-gives_up_example :
    (w' : WaitQueues) × (k' k'' : Kernel) × (wake_tasks 3 6 queues
        (wait_handler waiting 6)
        100
        (some 4)
        (some 4)
      ≡ ok (w', k'))
    × IsReady k' (6 ∷ 1 ∷ 2 ∷ 4 ∷ 3 ∷ [])
    × In 6 (4 ∷ 6 ∷ [])
    × (k'.state 6 ≡ ready)
    × (finish_wait (record k' { curr = 6 }) ≡ ok (e_os_timeout, k''))
    × (k''.timeout 6 ≡ timer_off)
    × (k''.wq 6 ≡ none)
    × (k''.timer 6 ≡ none)
unfolding insert wait_handler
wait_handler-gives_up_example =
    wait_handler-gives_up 3 6 queues waiting 100 6 (4 ∷ 6 ∷ []) queue (omega arith) (omega arith)
      waiting-IsReady (refl, (refl, refl)) (omega arith) (omega arith) (inr (inl refl))
