-- ===== src/Tests/Timers.antt =====
-- The active timers: 60 expires at 20 for task 4, 61 at 25 for task 6 and 62 at 30 for task 7.
use rosx.Base.{ℕ, ◌≡◌, refl, ◌⊎◌, true, none, some, List, [], ◌∷◌, arith, ok, update}
use rosx.Base.Lists.{In}
use rosx.Kernel.{suspend, ready, Kernel, os_ok}
use rosx.ReadyQueue.Spec.{NoneAbove, IsReady}
use rosx.ReadyQueue.Wake.{insert_all}
use rosx.Timer.{add_to_active, remove_from_active, add_timer, msleep, expire}
use rosx.Timer.Spec
use rosx.Timer.Spec.{IsTimers}
use rosx.Timer.Add.{add_to_active-refines}
use rosx.Timer.Remove.{remove_from_active-middle}
use rosx.Timer.Sleep.{add_timer-sleeps, msleep-early}
use rosx.Timer.Expire.{expire-wakes_due}
use rosx.Tests.Demo.{demo, queue, demo-IsReady}

abbrev timed : Kernel
timed = record demo {
  jiffies = 20;
  delay = λ p. 7;
  time_expiry = update (update (update (λ p. 0) 60 20) 61 25) 62 30;
  timer_next = update (update (λ p. none) 60 (some 61)) 61 (some 62);
  timer_prev = update (update (λ p. none) 61 (some 60)) 62 (some 61);
  timer_task = update (update (update (λ p. 0) 60 4) 61 6) 62 7;
  active_timer_head = some 60;
}

abbrev actives : List ℕ
actives = 60 ∷ 61 ∷ 62 ∷ []

timed-IsTimers : IsTimers timed actives
timed-IsTimers = record {
  linked = (refl, (refl, (refl, refl)));
  backed = (refl, (refl, (refl, tt)));
  distinct = omega arith;
  sorted = omega arith;
}

timed-IsReady : IsReady timed queue
timed-IsReady = record {
  linked = demo-IsReady.linked;
  distinct = demo-IsReady.distinct;
  sorted = demo-IsReady.sorted;
}

add_to_active-refines_example :
    (k' : Kernel) × (add_to_active 4 timed 63 ≡ ok k')
    × IsTimers k' (Spec.insert k'.time_expiry 63 actives)
    × (k'.time_expiry 63 ≡ 27)
    × (k'.enabled 63 ≡ true)
    × (k'.ready_head ≡ some 1)
    × (k'.next ≡ timed.next)
add_to_active-refines_example =
    add_to_active-refines 4 timed 63 actives (omega arith) timed-IsTimers (omega arith)

expire-wakes_due_example :
    (k' : Kernel) × (expire 4 7 (λ f v k. ok k) 26 timed ≡ ok k')
    × IsTimers k' (62 ∷ [])
    × NoneAbove timed.time_expiry 27 (62 ∷ [])
    × IsReady k' (insert_all timed.prio (4 ∷ 6 ∷ []) queue)
    × ((q : ℕ) → (timed.state q ≡ ready) ⊎ In q (4 ∷ 6 ∷ []) → k'.state q ≡ ready)
expire-wakes_due_example =
    expire-wakes_due 4 7 (λ f v k. ok k) 26 timed actives queue (omega arith) (omega arith)
      timed-IsReady timed-IsTimers (refl, (refl, (refl, tt))) (omega arith) (omega arith)

remove_from_active-middle_example :
    (k' : Kernel) × (remove_from_active timed 61 ≡ ok k')
    × IsTimers k' (60 ∷ 62 ∷ [])
    × (k'.next ≡ timed.next)
remove_from_active-middle_example = remove_from_active-middle timed 60 [] 61 62 [] timed-IsTimers

add_timer-sleeps_example :
    (k' : Kernel) × (add_timer 4 timed 63 none 9 1 ≡ ok k')
    × IsReady k' (2 ∷ 3 ∷ [])
    × IsTimers k' (Spec.insert k'.time_expiry 63 actives)
    × (k'.time_expiry 63 ≡ 29)
    × (k'.curr ≡ 2)
    × (k'.state 1 ≡ suspend)
    × (k'.timer 1 ≡ some 63)
add_timer-sleeps_example =
    add_timer-sleeps 4 timed 63 9 2 (3 ∷ []) actives (omega arith) (omega arith) timed-IsReady
      timed-IsTimers (omega arith)

-- 500 ms end after 5 ticks, which are 50 ms.
msleep-early_example :
    (k' : Kernel) × (msleep 4 timed 63 500 ≡ ok (os_ok, k'))
    × (k'.time_expiry 63 ≡ 25)
    × (k'.state 1 ≡ suspend)
    × (k'.curr ≡ 2)
    × IsReady k' (2 ∷ 3 ∷ [])
msleep-early_example =
    msleep-early 4 timed 63 500 2 (3 ∷ []) actives (omega arith) (omega arith) timed-IsReady
      timed-IsTimers (omega arith) (omega arith) (omega arith)
