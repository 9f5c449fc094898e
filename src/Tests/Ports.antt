-- ===== src/Tests/Ports.antt =====
-- Devices and interrupts.
use rosx.Base.{
  ℕ, suc, ◌≡◌, refl, true, false, Option, none, some, List, [], ◌∷◌, arith, ok, Run, update,
}
use rosx.Base.Int.{pos, negsuc, inc}
use rosx.Kernel.{ready, running, Kernel, os_ok, e_os_unavail}
use rosx.ReadyQueue.Spec.{IsReady, NoneAbove}
use rosx.Device.{Device, Devices, find_device, first_from, dev_open, dev_close, dev_write}
use rosx.Device.Simulator.{sim_ops, sim_name}
use rosx.Device.Counts.{IsCounted, uses}
use rosx.Device.Opening.{dev_close-dev_open}
use rosx.Device.Reach
use rosx.Device.Reach.{Reach-IsCounted}
use rosx.Critical.{enter, leave, work, run_code}
use rosx.Critical.Nesting.{open_masks, run_code-nested}
use rosx.Interrupt.{Irqs, request_irq, free_irq, irq_handler, sig_handler}
use rosx.Interrupt.Lines.{free_irq-request_irq}
use rosx.Interrupt.Preempt.{sig_handler-preempts}
use rosx.Tests.Demo.{strcmp, demo}

abbrev sim : Device (List ℕ)
sim = record { name = sim_name; ops = some sim_ops; open_count = pos 0 }

abbrev idle : Devices (List ℕ)
idle = record { table = λ d. sim; desc = λ i. none; drivers = [] }

idle-IsCounted : IsCounted idle
unfolding uses
idle-IsCounted d = refl

dev_close-dev_open_example :
    (v1 v2 : Devices (List ℕ)) × (dev_open strcmp idle sim_name ≡ ok (pos 0, v1))
    × (v1.desc 0 ≡ some 0)
    × ((v1.table 0).open_count ≡ inc (pos 0))
    × (dev_close v1 0 ≡ ok (pos 0, v2))
    × ((q : ℕ) → v2.desc q ≡ none)
    × ((q : ℕ) → v2.table q ≡ sim)
unfolding find_device first_from
dev_close-dev_open_example =
    dev_close-dev_open strcmp idle sim_name 0 0 sim_ops _ _ refl refl refl refl refl refl refl

-- The device opened, a character written, and an attempt to close a descriptor that is not open.
abbrev opened : Devices (List ℕ)
opened = record idle {
  desc = update idle.desc 0 (some 0);
  table = update idle.table 0 (record sim { open_count = inc (pos 0) });
}

abbrev written : Devices (List ℕ)
written = record opened { drivers = 65 ∷ [] }

written-Reach : Reach.Reach strcmp idle written
unfolding find_device first_from dev_open dev_write dev_close
written-Reach =
    Reach.step
      (Reach.step (Reach.step Reach.start (Reach.opened sim_name (pos 0) refl))
        (Reach.written 0 (λ a. 65) 1 (pos 1) refl))
      (Reach.closed 3 (negsuc 18) (omega arith) refl)

Reach-IsCounted_example : IsCounted written
Reach-IsCounted_example = Reach-IsCounted strcmp idle written idle-IsCounted written-Reach

abbrev no_lines : Irqs
no_lines = record {
  devname = λ i. [];
  handler = λ i. none;
  flags = λ i. 0;
  dev_id = λ i. none;
  next = λ i. none;
  raw_counter = 0;
}

-- Each call is counted.
abbrev counted : (handler irq : ℕ) → Option ℕ → ℕ → Run ℕ
counted h irq dev n = ok (suc n)

free_irq-request_irq_example :
    (r1 r2 : Irqs) × (request_irq 10 no_lines 3 70 0 (97 ∷ []) (some 5) ≡ (os_ok, r1))
    × (irq_handler counted r1 3 0 ≡ ok (record r1 { raw_counter = 1 }, 1))
    × (request_irq 10 r1 3 71 2 [] none ≡ (e_os_unavail, r1))
    × (request_irq 10 r1 3 71 4 [] (some 6) ≡ (os_ok, r1))
    × (free_irq 10 r1 3 ≡ (os_ok, r2))
    × (irq_handler counted r2 3 0 ≡ ok (record r2 { raw_counter = 1 }, 0))
free_irq-request_irq_example =
    free_irq-request_irq counted 10 no_lines 3 70 0 71 2 4 6 (97 ∷ []) [] (some 5) none 0 1
      (omega arith) refl refl refl refl refl

-- A handler that finds the task 2 at the head of the ready queue, 1 having been moved behind it.
abbrev turned : Kernel
turned = record demo {
  next = update (update (update (λ p. none) 2 (some 1)) 1 (some 3)) 3 none;
  ready_head = some 2;
  need_resched = true;
}

turned-IsReady : IsReady turned (2 ∷ 1 ∷ 3 ∷ [])
turned-IsReady = record {
  linked = (refl, (refl, (refl, refl)));
  distinct = omega arith;
  sorted = omega arith;
}

abbrev clock_line : Irqs
clock_line = record no_lines { handler = update no_lines.handler 0 (some 70) }

abbrev turn : (handler irq : ℕ) → Option ℕ → ℕ × Kernel → Run (ℕ × Kernel)
turn h irq dev s = ok (s.0, turned)

sig_handler-preempts_example :
    (r' : Irqs) × (k' : Kernel) × (sig_handler turn clock_line 0 7 demo ≡ ok (r', 7, k'))
    × (k'.curr ≡ 2)
    × (k'.state 2 ≡ running)
    × (k'.state 1 ≡ ready)
    × (k'.need_resched ≡ false)
    × IsReady k' (2 ∷ 1 ∷ 3 ∷ [])
    × NoneAbove k'.prio (k'.prio k'.curr) (1 ∷ 3 ∷ [])
sig_handler-preempts_example =
    sig_handler-preempts turn clock_line 0 70 2 (1 ∷ 3 ∷ []) 7 7 demo turned refl refl refl refl
      (omega arith) turned-IsReady

-- `rx_sem_post`: its list, its state, then `__rx_add_to_ready_q`, then the count.
run_code-nested_example :
    run_code open_masks (enter ∷ work ∷ work ∷ enter ∷ work ∷ leave ∷ work ∷ leave ∷ [])
    ≡ (true ∷ true ∷ true ∷ false ∷ [], open_masks)
run_code-nested_example = run_code-nested 2 1 1
