-- ===== src/Tests/Threads.antt =====
-- The threads of the system: tasklets and the logger, and a task that is aborted.
use rosx.Base.{◌+◌, ◌++◌, ℕ, ◌≡◌, refl, true, false, none, some, List, [], ◌∷◌, arith, ok, update}
use rosx.Base.Int.{pos}
use rosx.Kernel.{abort, running, interruptible, os_ok, Kernel}
use rosx.ReadyQueue.Spec.{IsReady}
use rosx.Sched.{sched}
use rosx.Task.{resume_task, abort_task, complete_task}
use rosx.Task.Stale.{abort_task-runs_on}
use rosx.WaitQueue.{WaitQueues}
use rosx.WaitQueue.Blocking.{IsFree}
use rosx.Tasklet.{Tasklets, disable_tasklet}
use rosx.Tasklet.Disabling.{IsChain, disable_tasklet-removes}
use rosx.Tasklet.Thread.{bh_thread_awake}
use rosx.Tasklet.Serving.{bh_thread_awake-serves}
use rosx.Device.{Devices}
use rosx.Device.Simulator.{sim_ops, sim_name}
use rosx.Logger.{PrintBuffer, printk_to_buffer}
use rosx.Logger.Thread.{logger_thread_awake}
use rosx.Logger.Prints.{logger_thread_awake-prints}
use rosx.Tests.Demo.{demo, queue, demo-IsReady}
use rosx.Tests.Events.{pending, pending-IsPending}

-- Task 4 is the most urgent.
abbrev urgent : Kernel
urgent = record demo { prio = update demo.prio 4 2 }

urgent-IsReady : IsReady urgent queue
urgent-IsReady = record {
  linked = demo-IsReady.linked;
  distinct = demo-IsReady.distinct;
  sorted = omega arith;
}

abort_task-runs_on_example :
    (k1 k2 k3 k4 : Kernel) × (resume_task 5 urgent 4 ≡ ok (os_ok, k1))
    × (sched k1 ≡ ok k2)
    × (k2.curr ≡ 4)
    × (abort_task 5 k2 1 ≡ ok (os_ok, k3))
    × (k3.state 1 ≡ abort)
    × (complete_task 5 k3 4 ≡ ok (os_ok, k4))
    × (k4.curr ≡ 1)
    × (k4.state 1 ≡ running)
abort_task-runs_on_example =
    abort_task-runs_on 5 urgent 1 4 (2 ∷ 3 ∷ []) (omega arith) urgent-IsReady (omega arith) refl
      refl refl (omega arith)

abbrev empty : WaitQueues
empty = record { task = λ p. none; next = λ p. none; prev = λ p. none; head = none }

empty-IsFree : IsFree 4 empty 60 []
empty-IsFree = record {
  nobody = refl;
  queues = record { linked = refl; distinct = tt };
  enough = omega arith;
  unlinked = λ n. refl;
}

-- A function notes its data.
abbrev notes : ℕ → ℕ → List ℕ → List ℕ
notes f a m = m ++ f ∷ a ∷ []

abbrev given : Tasklets
given = record pending { arg = λ t. 50 + t }

bh_thread_awake-serves_example :
    (s' : Tasklets) × (w' : WaitQueues) × (k' : Kernel) × (bh_thread_awake 2 4
        (λ f a m z. ok (notes f a m, z))
        []
        given
        empty
        demo
        60
      ≡ ok (9 ∷ 51 ∷ 9 ∷ 52 ∷ [], s', w', k'))
    × (s'.head ≡ none)
    × (IsReady k' (2 ∷ 3 ∷ [])
        × (k'.curr ≡ 2)
        × (k'.state 1 ≡ interruptible)
        × (w'.task 60 ≡ some 1))
bh_thread_awake-serves_example =
    bh_thread_awake-serves (λ f a m z. ok (notes f a m, z)) notes (λ f a m z. refl) (λ t. 9) 2 4 []
      given empty demo 60 2 1 (2 ∷ []) (3 ∷ []) [] (omega arith) (omega arith)
      (record { linked = pending-IsPending.linked; distinct = pending-IsPending.distinct })
      (refl, (refl, tt)) demo-IsReady empty-IsFree refl refl

-- The tasklet 3 is scheduled behind them.
abbrev three : Tasklets
three = record pending {
  scheduled = update pending.scheduled 3 true;
  next = update pending.next 2 (some 3);
  prev = update pending.prev 3 (some 2);
}

three-IsChain : IsChain three (1 ∷ 2 ∷ 3 ∷ [])
three-IsChain = (
  record { linked = (refl, (refl, (refl, refl))); distinct = omega arith },
  (refl, (refl, (refl, tt))),
)

disable_tasklet-removes_example :
    IsChain (disable_tasklet three (some 2)) (1 ∷ 3 ∷ [])
    × ((disable_tasklet three (some 2)).enabled 2 ≡ false)
    × ((disable_tasklet three (some 2)).scheduled 2 ≡ false)
    × ((disable_tasklet three (some 2)).next 2 ≡ none)
    × ((disable_tasklet three (some 2)).prev 2 ≡ none)
disable_tasklet-removes_example =
    disable_tasklet-removes three 2 (1 ∷ []) (3 ∷ []) three-IsChain refl

abbrev opened : Devices (List ℕ)
opened = record {
  table = λ d. record { name = sim_name; ops = some sim_ops; open_count = pos 1 };
  desc = update (λ i. none) 0 (some 0);
  drivers = 76 ∷ [];
}

abbrev read_out : PrintBuffer
read_out = record { mem = λ a. 0; head = 7; tail = 7 }

logger_thread_awake-prints_example :
    (b' : PrintBuffer) × (w' : WaitQueues) × (k' : Kernel) × (logger_thread_awake 3 4 opened
        (printk_to_buffer read_out (72 ∷ 105 ∷ []) [])
        empty
        demo
        60
        0
      ≡ ok (record opened { drivers = 76 ∷ 72 ∷ 105 ∷ 0 ∷ [] }, b', w', k'))
    × (b'.tail ≡ b'.head)
    × (IsReady k' (2 ∷ 3 ∷ [])
        × (k'.curr ≡ 2)
        × (k'.state 1 ≡ interruptible)
        × (w'.task 60 ≡ some 1))
logger_thread_awake-prints_example =
    logger_thread_awake-prints 3 4 opened read_out (72 ∷ 105 ∷ []) [] empty demo 60 0 2 (3 ∷ []) []
      (omega arith) refl (omega arith) (0, refl, refl) (omega arith) demo-IsReady empty-IsFree refl
      refl
