-- ===== src/System.antt =====
-- Sequences of calls of `rx_suspend_task`, `rx_resume_task`, `rx_abort_task`, `rx_complete_task`,
-- `rx_set_task_prio`, `rx_sched` and the clock interrupt's time slice, in any order, as steps of the
-- kernel. Creating and deleting a task are not among the steps.
pub mod Queue
pub mod Services
pub mod Switches
pub mod Places
use rosx.Base.{ℕ, ◌≡◌, ◌≢◌, none, some, List, ok}
use rosx.Kernel.{running, Status, Kernel}
use rosx.Sched.{sched, time_slice_tick}
use rosx.Task.{suspend_task, resume_task, abort_task, complete_task, set_task_prio}
use rosx.System.Queue.{Enough, Sound}
use rosx.System.Services.{Leaves, resume-Sound, suspend-Sound, abort-Sound}
use rosx.System.Switches.{sched-Sound, suspend_self-Sound, complete-Sound}
use rosx.System.Places.{set_task_prio-Sound, tick-Sound}

-- One call, which returns. A task that is aborted or gets a priority is not in state RUNNING: that
-- state keeps it from being moved or taken off the ready queue (see Task/Stale).
pub data Step (k k' : Kernel) : Type 0 where
  suspends :
      (fuel t : ℕ) (s : Status)
      → Enough fuel k
      → suspend_task fuel k (some t) ≡ ok (s, k')
      → Step k k'
  suspends_self :
      (fuel : ℕ) (s : Status) → Enough fuel k → suspend_task fuel k none ≡ ok (s, k') → Step k k'
  resumes :
      (fuel t : ℕ) (s : Status) → Enough fuel k → resume_task fuel k t ≡ ok (s, k') → Step k k'
  aborts :
      (fuel t : ℕ) (s : Status)
      → Enough fuel k
      → k.state t ≢ running
      → abort_task fuel k t ≡ ok (s, k')
      → Step k k'
  completes :
      (fuel t : ℕ) (s : Status) → Enough fuel k → complete_task fuel k t ≡ ok (s, k') → Step k k'
  prioritizes :
      (fuel t p : ℕ) (s : Status)
      → Enough fuel k
      → k.state t ≢ running
      → set_task_prio fuel k t p ≡ ok (s, k')
      → Step k k'
  ticks : (fuel : ℕ) → Enough fuel k → time_slice_tick fuel k ≡ ok k' → Step k k'
  schedules : sched k ≡ ok k' → Step k k'

pub data Reach (k : Kernel) : Kernel → Type 0 where
  start : Reach k k
  step : {k1 k2 : Kernel} → Reach k k1 → Step k1 k2 → Reach k k2

Step-Sound : {ds : List ℕ} (k k' : Kernel) (xs : List ℕ) → Sound ds k xs → Step k k' → Leaves ds k'
Step-Sound {ds} k k' xs z (suspends fuel t s enough ran) =
    suspend-Sound fuel t k k' s xs (enough xs z.queue) z ran
Step-Sound {ds} k k' xs z (suspends_self fuel s enough ran) =
    suspend_self-Sound fuel k k' s xs (enough xs z.queue) z ran
Step-Sound {ds} k k' xs z (resumes fuel t s enough ran) =
    resume-Sound fuel t k k' s xs (enough xs z.queue) z ran
Step-Sound {ds} k k' xs z (aborts fuel t s enough idle ran) =
    abort-Sound fuel t k k' s xs (enough xs z.queue) z idle ran
Step-Sound {ds} k k' xs z (completes fuel t s enough ran) =
    complete-Sound fuel t k k' s xs (enough xs z.queue) z ran
Step-Sound {ds} k k' xs z (prioritizes fuel t p s enough idle ran) =
    set_task_prio-Sound fuel t p k k' s xs (enough xs z.queue) z idle ran
Step-Sound {ds} k k' xs z (ticks fuel enough ran) =
    tick-Sound fuel k k' xs (enough xs z.queue) z ran
Step-Sound {ds} k k' xs z (schedules ran) = sched-Sound k k' xs z ran

-- Whatever calls of `rx_suspend_task`, `rx_resume_task`, `rx_abort_task`, `rx_complete_task`,
-- `rx_set_task_prio`, `rx_sched` and the clock's time slice return, in any order, as long as no task
-- in state RUNNING is aborted or given a priority and no other call is made, the ready queue stays in
-- order, with only ready and running tasks on it, and each task `ds` that is completed or aborted
-- at the start stays so and never runs.
pub Reach-Sound :
    {ds : List ℕ} (k k' : Kernel) (xs : List ℕ)
    → Sound ds k xs
    → Reach k k'
    → (ys : List ℕ) × Sound ds k' ys
Reach-Sound {ds} k k' xs z start = (xs, z)
Reach-Sound {ds} k k' xs z (step {k1} r s) =
    let (ys, w) = Reach-Sound k k1 xs z r in Step-Sound k1 k' ys w s
