-- ===== src/Tests/Clocks.antt =====
-- The clock, the start-up and the print buffer.
use rosx.Base.{ℕ, ◌+◌, ◌*◌, ◌≡◌, refl, Option, none, some, List, [], ◌∷◌, arith, ok}
use rosx.Base.Int.{pos}
use rosx.Base.Links.{IsList}
use rosx.Kernel.{ready, Kernel, boot}
use rosx.ReadyQueue.Spec.{insert, IsReady}
use rosx.Sched.{sched}
use rosx.MsgQueue.{MsgQueue}
use rosx.MsgQueue.Fifo.{IsQueue}
use rosx.Event.{EventGroup}
use rosx.WaitQueue.{WaitQueues}
use rosx.Clock.{Event, event_size, tick_event, tick_irq_handler, event_round_awake, handled}
use rosx.Clock.Wakes.{tick_irq_handler-wakes_timer_thread}
use rosx.Device.{Devices}
use rosx.Device.Simulator.{simulator_init}
use rosx.Logger.{PrintBuffer}
use rosx.Start.{Machine, Thread, Threads, kernel_enter}
use rosx.Start.Tasks.{kernel_enter-starts}
use rosx.Tests.Demo.{strcmp, demo, queue, demo-IsReady}

abbrev event_queue : MsgQueue
event_queue = record {
  mem = λ a. 0;
  head = 0;
  tail = 0;
  flag = 10;
  size_of_block = event_size;
  num_of_blocks = 8;
  write_task = none;
  read_task = none;
}

-- The task 4 waits for the clock's event, in the group at the address 80; the running task has no slice.
abbrev ticking : Kernel
ticking = record demo { event_flag = λ p. 1; time_slice = λ p. pos 0 }

ticking-IsReady : IsReady ticking queue
ticking-IsReady = record {
  linked = demo-IsReady.linked;
  distinct = demo-IsReady.distinct;
  sorted = demo-IsReady.sorted;
}

abbrev no_queues : WaitQueues
no_queues = record { task = λ p. none; next = λ p. none; prev = λ p. none; head = none }

abbrev no_event : Event
no_event = record { group = 0; flag = 0 }

abbrev group : Option ℕ → EventGroup
group t = record { task = t; next = none }

-- The event thread is the task 6, with priority 0.
abbrev waited : MsgQueue
waited = record event_queue { read_task = some 6 }

waited-IsQueue : IsQueue waited []
waited-IsQueue = record {
  first = 0;
  free = 0;
  sized = omega arith;
  some_blocks = omega arith;
  first_in = omega arith;
  free_in = omega arith;
  at_tail = refl;
  at_head = refl;
  count = omega arith;
  apart = omega arith;
  stored = tt;
  full = λ e. absurd (omega arith);
  empty = λ e. refl;
}

tick_irq_handler-wakes_timer_thread_example :
    (q1 q2 : MsgQueue) × (k1 k2 k3 : Kernel) × (tick_irq_handler 5 waited ticking 80 ≡ ok (q1, k1))
    × (k1.jiffies ≡ 1)
    × (sched k1 ≡ ok k2)
    × (k2.curr ≡ 6)
    × (event_round_awake 1 5 q1 no_queues (group (some 4)) k2 no_event
        ≡ ok (handled (tick_event 80), q2, no_queues, group none, k3))
    × IsQueue q2 []
    × IsReady k3 (insert demo.prio 4 (6 ∷ queue))
    × (k3.state 4 ≡ ready)
    × (k3.event_recv 4 ≡ 1)
tick_irq_handler-wakes_timer_thread_example =
    tick_irq_handler-wakes_timer_thread 1 5 waited no_queues ticking 80 6 4 none no_event queue
      (omega arith) (omega arith) (omega arith) (omega arith) refl waited-IsQueue refl refl refl
      refl refl refl ticking-IsReady (omega arith) (omega arith) (omega arith) refl

abbrev buffer : ℕ → ℕ → PrintBuffer
buffer head tail = record { mem = λ a. 0; head = head; tail = tail }

abbrev thread : ℕ → Thread
thread tcb = record { tcb = tcb; stack = 1000 * tcb; func = 500 + tcb }

abbrev threads : Threads
threads = record {
  timer0 = thread 10;
  event0 = thread 11;
  bh0 = thread 12;
  logger0 = thread 13;
  term0 = thread 14;
  init = 9;
}

abbrev devices : Devices (List ℕ)
devices = record {
  table = λ d. record { name = []; ops = none; open_count = pos 0 };
  desc = λ i. none;
  drivers = [];
}

abbrev machine : Machine
machine = record { kernel = boot; devices = devices; buffer = buffer 0 0 }

kernel_enter-starts_example :
    (m' : Machine) × (kernel_enter 6 strcmp threads (λ m. ok m) machine ≡ ok m')
    × IsReady m'.kernel (10 ∷ 11 ∷ 12 ∷ 14 ∷ 13 ∷ [])
    × IsList m'.kernel.list m'.kernel.list_head (10 ∷ 11 ∷ 12 ∷ 13 ∷ 14 ∷ [])
    × (m'.kernel.num_task ≡ 5)
    × (m'.devices ≡ simulator_init strcmp devices)
    × (m'.buffer.head ≡ m'.buffer.tail)
kernel_enter-starts_example =
    kernel_enter-starts 6 strcmp threads (λ m. ok m) machine (omega arith) (omega arith) refl refl
