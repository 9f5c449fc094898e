-- ===== src/Kernel.antt =====
-- The kernel's state: kernel/include/rx_task.h, rx_sched.h and rx_timer.h.
-- Structures are held field by field: a field of a task control block or of a timer is a map from
-- the structure's address, so that `p->next = v` is a write to the map `next` at `p`. NULL is `none`. Priorities are natural
-- numbers: the source's `int prio` is taken not to be negative.
use rosx.Base.{ℕ, Bool, false, Option, none, List, []}
use rosx.Base.Int.{ℤ, pos}

pub data TaskState : Type 0 where
  suspend ready running complete abort interruptible uninterruptible : TaskState

-- The error codes of include/rosx/types.h; `os_ok` is 0, the others are negative.
pub data Status : Type 0 where
  os_ok os_err e_os_timeout e_os_busy e_os_unavail e_os_q_del : Status

-- The `int timeout` field of a task: __RX_TIMER_OFF, __RX_TIMER_ON, E_OS_TIMEOUT, or ticks.
pub data Timeout : Type 0 where
  timer_off timer_on timed_out : Timeout
  ticks_left : ℤ → Timeout

pub record Kernel : Type 0 where
  -- struct __rx_task_control_block
  pub next : ℕ → Option ℕ
  pub list : ℕ → Option ℕ
  pub prio : ℕ → ℕ
  pub orig_prio : ℕ → ℕ
  pub state : ℕ → TaskState
  pub time_slice : ℕ → ℤ
  pub ticks : ℕ → ℤ
  pub event_flag : ℕ → ℕ
  pub event_recv : ℕ → ℕ
  pub timeout : ℕ → Timeout
  pub timer : ℕ → Option ℕ
  pub sem : ℕ → Option ℕ
  pub mutex : ℕ → Option ℕ
  pub event : ℕ → Option ℕ
  pub wq : ℕ → Option ℕ
  pub mq : ℕ → Option ℕ
  pub bpool : ℕ → Option ℕ
  pub err : ℕ → Status
  pub name : ℕ → List ℕ
  pub stack_start : ℕ → ℕ
  pub stack_size : ℕ → ℕ
  pub func : ℕ → ℕ
  -- the globals
  pub ready_head : Option ℕ
  pub list_head : Option ℕ
  pub curr : ℕ
  pub num_task : ℕ
  pub need_resched : Bool
  pub jiffies : ℕ
  pub sys_stack_start : ℕ
  pub sys_stack_curr : ℕ
  -- struct timer_list and the head of the active timers
  pub time_expiry : ℕ → ℕ
  pub delay : ℕ → ℕ
  pub enabled : ℕ → Bool
  pub handler : ℕ → Option ℕ
  pub priv : ℕ → ℕ
  pub timer_task : ℕ → ℕ
  pub timer_next : ℕ → Option ℕ
  pub timer_prev : ℕ → Option ℕ
  pub active_timer_head : Option ℕ

-- All memory zero, and task 0 running outside the ready queue, as __rx_kernel_enter sets it up.
abbrev pub boot : Kernel
boot = record {
  next = λ p. none;
  list = λ p. none;
  prio = λ p. 0;
  orig_prio = λ p. 0;
  state = λ p. suspend;
  time_slice = λ p. pos 0;
  ticks = λ p. pos 0;
  event_flag = λ p. 0;
  event_recv = λ p. 0;
  timeout = λ p. timer_off;
  timer = λ p. none;
  sem = λ p. none;
  mutex = λ p. none;
  event = λ p. none;
  wq = λ p. none;
  mq = λ p. none;
  bpool = λ p. none;
  err = λ p. os_ok;
  name = λ p. [];
  stack_start = λ p. 0;
  stack_size = λ p. 0;
  func = λ p. 0;
  ready_head = none;
  list_head = none;
  curr = 0;
  num_task = 0;
  need_resched = false;
  jiffies = 0;
  sys_stack_start = 0;
  sys_stack_curr = 0;
  time_expiry = λ p. 0;
  delay = λ p. 0;
  enabled = λ p. false;
  handler = λ p. none;
  priv = λ p. 0;
  timer_task = λ p. 0;
  timer_next = λ p. none;
  timer_prev = λ p. none;
  active_timer_head = none;
}
