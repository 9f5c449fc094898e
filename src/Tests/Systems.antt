-- ===== src/Tests/Systems.antt =====
-- In the demonstration kernel with a completed task 5, task 2 is suspended, and then the scheduler is
-- called.
use rosx.Base.{ℕ, ◌≡◌, refl, true, none, some, List, [], ◌∷◌, arith, ok, inl, inr, update}
use rosx.Base.Lists.{In}
use rosx.Kernel.{suspend, complete, os_ok, Kernel}
use rosx.ReadyQueue.{is_runnable, remove_from_ready_q, unlink}
use rosx.ReadyQueue.Spec.{IsReady}
use rosx.Sched.{sched}
use rosx.Task.{suspend_task}
use rosx.System.Queue.{Over, Sound, IsReady-Enough}
use rosx.System.{start, step, suspends, schedules, Reach-Sound}
use rosx.Tests.Demo.{demo, queue, demo-IsReady}

abbrev ended : Kernel
ended = record demo { state = update demo.state 5 complete }

ended-runnable : (q : ℕ) → In q queue → is_runnable (ended.state q) ≡ true
ended-runnable q (inl e) = rw e refl
ended-runnable q (inr (inl e)) = rw e refl
ended-runnable q (inr (inr (inl e))) = rw e refl
ended-runnable q (inr (inr (inr z))) = absurd z

ended-Over : Over (5 ∷ []) ended.state ended.curr
ended-Over q (inl e) = (rw e refl, (λ f. omega arith))
ended-Over q (inr z) = absurd z

ended-IsReady : IsReady ended queue
ended-IsReady = record {
  linked = demo-IsReady.linked;
  distinct = demo-IsReady.distinct;
  sorted = demo-IsReady.sorted;
}

ended-Sound : Sound (5 ∷ []) ended queue
ended-Sound = record { queue = ended-IsReady; runnable = ended-runnable; over = ended-Over }

abbrev thinned : Kernel
thinned = record ended {
  next = update (update demo.next 1 (demo.next 2)) 2 none;
  state = update ended.state 2 suspend;
}

suspend_ended : suspend_task 4 ended (some 2) ≡ ok (os_ok, thinned)
unfolding suspend_task remove_from_ready_q unlink
suspend_ended = refl

sched-thinned : sched thinned ≡ ok thinned
unfolding sched
sched-thinned = refl

Reach-Sound_example : (ys : List ℕ) × Sound (5 ∷ []) thinned ys
Reach-Sound_example = Reach-Sound ended thinned queue ended-Sound (
    step
      (step start (
        suspends 4 2 os_ok (IsReady-Enough 4 ended queue (omega arith) ended-IsReady)
          suspend_ended))
      (schedules sched-thinned))
