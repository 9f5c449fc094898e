-- ===== src/Task.antt =====
-- The task services of kernel/rx_task.c.
-- A name is the list of its characters before the NUL. Task and stack addresses are numbers;
-- stack arithmetic is that of 32-bit pointers. `__rx_init_tcb__` of the port, which lays out the
-- first stack frame, is not modelled.
pub mod Laws
pub mod Create
pub mod Stale
use rosx.Base.{
  ℕ, zero, suc, ◌+◌, ◌-◌, ◌*◌, ◌%◌, ◌^◌, Bool, true, false, ◌||◌, Option, none, some, List, ◌==◌,
  ltb, same, update, if◌then◌else◌, Run, ok, null_deref, out_of_fuel, ◌>>=◌, deref,
}
use rosx.Base.Int.{ℤ}
use rosx.Base.Lists.{length}
use rosx.Base.Links.{append_link}
use rosx.Kernel.{
  TaskState, suspend, ready, running, complete, abort, interruptible, uninterruptible, Status,
  os_ok, os_err, Kernel, timer_off,
}
use rosx.ReadyQueue.{add_to_ready_q, remove_from_ready_q}
use rosx.Sched.{sched}

-- CONFIG_TASK_STR_LEN, CONFIG_MAX_TASK - 1 and CONFIG_SYSTEM_STACK_SIZE of apps/rx_defines.h
abbrev pub str_len : ℕ
str_len = 8

abbrev pub least_prio : ℕ
least_prio = 31

abbrev system_stack_size : ℕ
system_stack_size = 8192 * 10

abbrev pub is_ready : TaskState → Bool
is_ready ready = true
is_ready _ = false

abbrev pub is_suspended : TaskState → Bool
is_suspended suspend = true
is_suspended _ = false

-- The stack pointer that a new task gets, and the system's stack after it.
unfoldable alloc_stack : Kernel → Option ℕ → ℕ → Option (ℕ × Kernel)
alloc_stack k (some p) size = some ((p + size) % 2 ^ 32, k)
alloc_stack k none size =
    if ltb ((k.sys_stack_curr + 2 ^ 32 - size) % 2 ^ 32)
      ((k.sys_stack_start + 2 ^ 32 - system_stack_size) % 2 ^ 32)
    then none
    else some (
      k.sys_stack_curr,
      record k { sys_stack_curr = (k.sys_stack_curr + 2 ^ 32 - (size + 4)) % 2 ^ 32 },
    )

-- The fields that `rx_create_task` fills in.
abbrev pub init_tcb : Kernel → ℕ → List ℕ → ℕ → ℕ → ℕ → ℕ → TaskState → ℤ → Kernel
init_tcb k tcb name prio stack size func state slice =
    let p = if ltb least_prio prio then least_prio else prio in
    record k {
      name = update k.name tcb name;
      stack_start = update k.stack_start tcb stack;
      prio = update k.prio tcb p;
      orig_prio = update k.orig_prio tcb p;
      stack_size = update k.stack_size tcb size;
      func = update k.func tcb func;
      state = update k.state tcb state;
      timeout = update k.timeout tcb timer_off;
      time_slice = update k.time_slice tcb slice;
      ticks = update k.ticks tcb slice;
      timer = update k.timer tcb none;
      list = update k.list tcb none;
    }

unfoldable add_if_ready : ℕ → Kernel → ℕ → TaskState → Run Kernel
add_if_ready fuel k tcb ready = do (_, k1) ← add_to_ready_q fuel k tcb; ok k1
add_if_ready fuel k tcb _ = ok k

-- `rx_create_task`
unfoldable pub create_task :
    ℕ
    → Kernel
    → (tcb : ℕ) (name : List ℕ) (prio : ℕ) (stack : Option ℕ) (size func : ℕ) → TaskState
    → ℤ
    → Run (Status × Kernel)
unfolding alloc_stack add_if_ready
create_task fuel k tcb name prio stack size func state slice =
    if ltb str_len (length name) then ok (os_err, k) else elim (alloc_stack k stack size) [
      | none ↦ ok (os_err, k)
      | some (sp, k1) ↦ do
        k2 ← add_if_ready fuel (init_tcb k1 tcb name prio sp size func state slice) tcb state
        (head, links) ← append_link fuel k2.list k2.list_head tcb
        ok (os_ok, record k2 { list_head = head; list = links; num_task = suc k2.num_task })
    ]

-- `rx_abort_task`
unfoldable pub abort_task : ℕ → Kernel → ℕ → Run (Status × Kernel)
abort_task fuel k tcb = if tcb == k.curr then ok (os_err, k) else do
  k1 ← (if is_ready (k.state tcb) then remove_from_ready_q fuel k tcb else ok k)
  ok (os_ok, record k1 { state = update k1.state tcb abort })

-- `rx_complete_task`
unfoldable pub complete_task : ℕ → Kernel → ℕ → Run (Status × Kernel)
complete_task fuel k tcb =
    if tcb == k.curr
    then (do
      k1 ← remove_from_ready_q fuel k tcb
      k2 ← sched (record k1 { state = update k1.state tcb complete })
      ok (os_ok, k2))
    else ok (os_err, k)

-- RX_TASK_COMPLETE and RX_TASK_ABORT as the numbers that the enumeration gives them.
abbrev pub task_complete : ℕ
task_complete = 3

abbrev pub task_abort : ℕ
task_abort = 4

-- `rx_set_task_prio`: the guard compares the priority, not the state, with the two states.
unfoldable pub set_task_prio : ℕ → Kernel → ℕ → ℕ → Run (Status × Kernel)
set_task_prio fuel k tcb prio =
    if prio == k.prio tcb || (k.prio tcb == task_complete || k.prio tcb == task_abort)
    then ok (os_ok, k)
    else let k1 = record k { prio = update k.prio tcb prio } in
      if is_ready (k1.state tcb)
      then (do
        k2 ← remove_from_ready_q fuel k1 tcb
        (_, k3) ← add_to_ready_q fuel k2 tcb
        ok (os_ok, k3))
      else ok (os_ok, k1)

-- `while(tmp->list) { if(tmp->list == tcb) break; tmp = tmp->list; }`
unfoldable pub find_before : ℕ → (ℕ → Option ℕ) → ℕ → ℕ → Run ℕ
find_before zero list tcb tmp = out_of_fuel
find_before (suc fuel) list tcb tmp = elim (list tmp) [
  | none ↦ ok tmp
  | some n ↦ if n == tcb then ok tmp else find_before fuel list tcb n
]

-- `rx_delete_task`
unfoldable pub delete_task : ℕ → Kernel → ℕ → Run (Status × Kernel)
unfolding find_before
delete_task fuel k tcb =
    if is_suspended (k.state tcb) || is_ready (k.state tcb)
    then ok (os_err, k)
    else if same (some tcb) k.list_head
    then ok (os_ok, record k { list_head = k.list tcb })
    else do
      head ← deref k.list_head
      tmp ← find_before fuel k.list tcb head
      n ← deref (k.list tmp)
      ok (os_ok, record k { list = update k.list tmp (k.list n) })

-- `rx_suspend_task`; `none` is MYSELF.
unfoldable pub suspend_task : ℕ → Kernel → Option ℕ → Run (Status × Kernel)
suspend_task fuel k none = do
  k1 ← remove_from_ready_q fuel k k.curr
  k2 ← sched (record k1 { state = update k1.state k1.curr suspend })
  ok (os_ok, k2)
suspend_task fuel k (some tcb) =
    if is_ready (k.state tcb)
    then (do
      k1 ← remove_from_ready_q fuel k tcb
      ok (os_ok, record k1 { state = update k1.state tcb suspend }))
    else ok (os_ok, k)

-- `rx_resume_task`
unfoldable pub resume_task : ℕ → Kernel → ℕ → Run (Status × Kernel)
resume_task fuel k tcb =
    if is_suspended (k.state tcb)
    then (do
      (_, k1) ← add_to_ready_q fuel (record k { state = update k.state tcb ready }) tcb
      ok (os_ok, k1))
    else ok (os_err, k)
