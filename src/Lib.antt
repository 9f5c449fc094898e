-- ===== src/Lib.antt =====
-- Verification library of the RosX real-time kernel.
--
-- The parts and how they interact. Every task is a control block (kernel/include/rx_task.h).
-- Ready tasks stand in one list, sorted by priority, whose head runs after each call of the
-- scheduler. A service that blocks takes the running task off that list, enters it in the wait
-- queue of a semaphore, a mutex, a message queue or a block pool, all linked through the same
-- field `next`, and calls the scheduler; a service that wakes enters it in the ready list again.
-- A wait with a timeout also starts a timer. The clock interrupt ends time slices and notifies the
-- event thread through a message queue; that thread wakes the tasks of the wait queues and of the
-- event groups, among them the timer thread, which expires timers.
--
-- Files and sources:
--   Kernel      kernel/include/rx_task.h, rx_timer.h, include/rosx/types.h: the state
--   ReadyQueue  kernel/rx_task.c: __rx_add_to_ready_q, __rx_remove_from_ready_q
--   Sched       kernel/rx_sched.c; the time slice in kernel/rx_timer.c
--   Task        kernel/rx_task.c: rx_create_task, rx_delete_task, rx_suspend_task and the others
--   Timer       kernel/rx_timer.c: the list of active timers, rx_start_timer, rx_stop_timer,
--               rx_mod_timer, rx_msleep, rx_ssleep, the loop of rx_timer_thread (`expire`)
--   Semaphore   kernel/rx_semaphore.c
--   MsgQueue    kernel/rx_queue.c
--   Mutex       kernel/rx_mutex.c, with priority inheritance
--   BlockPool   kernel/rx_blockpool.c
--   Event       kernel/rx_event.c: the event groups
--   Tasklet     kernel/rx_tasklet.c, with the thread that runs the tasklets
--   WaitQueue   kernel/rx_wait.c; rx_wait_queue of kernel/include/rx_wait.h
--   Clock       the clock interrupt of kernel/rx_timer.c; rx_notify_event, rx_process_event and the
--               rounds of rx_event_thread of kernel/rx_event.c
--   Device      kernel/rx_device.c; the simulator's driver, drivers/simulator/x86sim.c
--   Critical    critical sections: __disable_irq_global, __restore_irq_global of arch/x86/osport.c
--   Interrupt   kernel/rx_irq.c; sig_handler of arch/x86/x86_sim.c
--   Logger      kernel/rx_logger.c: the print buffer, and the thread that writes it to a device
--   Start       kernel/rx_init.c
--   System      sequences of calls of the services that move tasks, the scheduler and the time slice
--   Base        lists, singly linked lists in memory, integers, and the results of C code
--   Tests       the theorems at concrete inputs
-- A definition has the name of its function without `rx_` or `__rx_`.
--
-- State. A pointer is a number, NULL is `none`, and a field of a structure is a map from
-- addresses (`next`, `prio`, `state` and so on), so that wait queues and the ready queue share
-- their links as they do in memory. A function that may fault or loop returns a `Run`: a value, a
-- NULL pointer that was followed, or `out_of_fuel`. A loop has a number of rounds, and so has a
-- thread until it blocks; the hypotheses of the theorems say how many are enough, always one or
-- two more than the list has nodes, and the theorems state that the call returns a value. The
-- clock counts modulo 2^32, as `unsigned int` does. Semaphore counts and time slices are integers
-- that stay within `int`. Priorities are not negative: `prio` is a natural number where the
-- source has an `int`. Addresses do not wrap around, and memory has no bounds: a write outside an
-- array, as the code makes some, goes to the memory there. So a message queue is described with
-- the slot behind its storage that the code uses, and a block pool with the blocks that the code
-- puts behind it; the findings and the theorems about bounds say where. The timeout of a message
-- queue's call is its `int` modulo 2^32. The configuration is that of apps/rx_defines.h.
--
-- A call that blocks has two halves, up to the switch and from the return of the task on. A call
-- is one step: interrupts come between calls, also where a critical section inside another one
-- lets them in early, which Critical models on its own. The handlers of timers are a parameter of
-- `expire`, since they are pointers that an application may set; so are the handlers of
-- interrupts, the functions of drivers, the application's start, and `strcmp`.
--
-- Not modelled: the ports (arch), but for the simulator's signal handler and its critical
-- sections: registers, stacks and interrupt controllers, and so `curr_stack_ptr` and the preempt
-- count; messages that are printed, and the terminal (kernel/rx_terminal.c), which prints a
-- banner; the macros of rx_wait.h that wait with a timeout, loops around the functions of
-- kernel/rx_wait.c; negative numbers of interrupts and descriptors, which no function tests for,
-- nor does `rx_dev_close` for those behind the table; the libraries under lib, which are copies
-- of another project's, and their headers.
pub mod Base
pub mod Kernel
pub mod ReadyQueue
pub mod Sched
pub mod Task
pub mod Timer
pub mod Semaphore
pub mod MsgQueue
pub mod Mutex
pub mod BlockPool
pub mod Event
pub mod Tasklet
pub mod WaitQueue
pub mod Clock
pub mod Device
pub mod Critical
pub mod Interrupt
pub mod Logger
pub mod Start
pub mod System
mod Tests
