-- ===== src/Start.antt =====
-- kernel/rx_init.c: `__rx_kernel_enter`, with the print buffer of the configuration.
pub mod Tasks
use rosx.Base.{ℕ, ◌-◌, update, some, List, [], ◌∷◌, Run, ok, ◌>>=◌}
use rosx.Base.Int.{ℤ, pos}
use rosx.Kernel.{ready, Kernel}
use rosx.Task.{least_prio, create_task}
use rosx.Device.{Devices}
use rosx.Device.Simulator.{simulator_init}
use rosx.Logger.{PrintBuffer}

-- The parts of the state that the start-up sets.
pub record Machine : Type 0 where
  pub kernel : Kernel
  pub devices : Devices (List ℕ)
  pub buffer : PrintBuffer

-- What the linker lays out for a system thread: its control block, stack and function.
pub record Thread : Type 0 where
  pub tcb : ℕ
  pub stack : ℕ
  pub func : ℕ

pub record Threads : Type 0 where
  pub timer0 : Thread
  pub event0 : Thread
  pub bh0 : Thread
  pub logger0 : Thread
  pub term0 : Thread
  pub init : ℕ

-- CONFIG_SYS_TIMER_STACK_SIZE, and the same for the other system threads
abbrev pub sys_stack_size : ℕ
sys_stack_size = 8192

-- "init", "timer0", "event0", "bh0", "logger0" and "term0"
abbrev init_name : List ℕ
init_name = 105 ∷ 110 ∷ 105 ∷ 116 ∷ []

abbrev pub timer_name : List ℕ
timer_name = 116 ∷ 105 ∷ 109 ∷ 101 ∷ 114 ∷ 48 ∷ []

abbrev pub event_name : List ℕ
event_name = 101 ∷ 118 ∷ 101 ∷ 110 ∷ 116 ∷ 48 ∷ []

abbrev pub bh_name : List ℕ
bh_name = 98 ∷ 104 ∷ 48 ∷ []

abbrev pub logger_name : List ℕ
logger_name = 108 ∷ 111 ∷ 103 ∷ 103 ∷ 101 ∷ 114 ∷ 48 ∷ []

abbrev pub term_name : List ℕ
term_name = 116 ∷ 101 ∷ 114 ∷ 109 ∷ 48 ∷ []

-- A call of `rx_create_task` whose result is not looked at.
unfoldable pub spawn : ℕ → Kernel → Thread → List ℕ → (prio : ℕ) → Run Kernel
spawn fuel k t name prio = do
  (_, k1) ← create_task fuel k t.tcb name prio (some t.stack) sys_stack_size t.func ready (pos 0)
  ok k1

-- The kernel's fields that are set first.
abbrev pub reset : Kernel → (init : ℕ) → Kernel
reset k init = record k {
  sys_stack_curr = k.sys_stack_start;
  name = update k.name init init_name;
  curr = init;
  num_task = 0;
}

-- The system threads; RX_TASK_HIGH_PRIO is 0.
unfoldable pub spawn_all : ℕ → Kernel → Threads → Run Kernel
unfolding spawn
spawn_all fuel k t = do
  k1 ← spawn fuel k t.timer0 timer_name 0
  k2 ← spawn fuel k1 t.event0 event_name 0
  k3 ← spawn fuel k2 t.bh0 bh_name 0
  k4 ← spawn fuel k3 t.logger0 logger_name (least_prio - 1)
  spawn fuel k4 t.term0 term_name (least_prio - 2)

-- `__rx_kernel_enter`; `application` is `rx_application_init`.
unfoldable pub kernel_enter :
    ℕ
    → (List ℕ → List ℕ → ℤ)
    → Threads
    → (application : Machine → Run Machine) → Machine
    → Run Machine
unfolding spawn_all
kernel_enter fuel strcmp t application m = do
  let devices = simulator_init strcmp m.devices
  k ← spawn_all fuel (reset m.kernel t.init) t
  application
      (record { kernel = k; devices = devices; buffer = record m.buffer { head = 0; tail = 0 } })
