-- ===== src/Clock.antt =====
-- The clock interrupt of kernel/rx_timer.c, and the event thread of kernel/rx_event.c that it
-- reaches through the event queue. A `struct event` is a pointer and an unsigned int of 32 bits
-- each, the least significant byte first.
pub mod Packing
pub mod Notices
pub mod Wakes
use rosx.Base.{
  ℕ, suc, ◌+◌, ◌-◌, ◌*◌, ◌/◌, ◌%◌, ◌^◌, Option, none, some, List, [], ◌∷◌, ◌==◌, if◌then◌else◌, Run,
  ok, ◌>>=◌,
}
use rosx.Kernel.{Status, os_err, Kernel}
use rosx.MsgQueue.{MsgQueue, Outcome, read, read_awake, write, returns, delivers, sleeps}
use rosx.Event.{EventGroup, process_event}
use rosx.WaitQueue.{WaitQueues, wake_all}
use rosx.Sched.{time_slice_tick}

-- `struct event`; a group that is 0 is NULL.
pub record Event : Type 0 where
  pub group : ℕ
  pub flag : ℕ

-- sizeof(struct event)
abbrev pub event_size : ℕ
event_size = 8

-- An unsigned int of 32 bits in memory, and back.
abbrev word_bytes : ℕ → List ℕ → List ℕ
word_bytes n rest = n % 256 ∷ n / 256 % 256 ∷ n / 65536 % 256 ∷ n / 16777216 % 256 ∷ rest

abbrev pub event_bytes : Event → List ℕ
event_bytes e = word_bytes e.group (word_bytes e.flag [])

abbrev word : (a b c d : ℕ) → ℕ
word a b c d = a + 256 * b + 65536 * c + 16777216 * d

-- The event that a copy of the bytes into `e` leaves.
unfoldable pub load_event : List ℕ → Event → Event
load_event (a ∷ b ∷ c ∷ d ∷ a' ∷ b' ∷ c' ∷ d' ∷ []) e = record {
  group = word a b c d;
  flag = word a' b' c' d';
}
load_event _ e = e

-- `rx_notify_event`; the timeout is OS_WAIT_FOREVER.
unfoldable pub notify_event : ℕ → MsgQueue → Kernel → Event → Run (MsgQueue × Kernel)
notify_event fuel q k e = do
  (_, q1, k1) ← write fuel q k (event_bytes e) (2 ^ 32 - 1) 0
  ok (q1, k1)

-- `__rx_timer_events` at the address `group`, and RX_TIMER_EVENT_IRQ_EVENT
abbrev pub tick_event : ℕ → Event
tick_event group = record { group = group; flag = 1 }

-- `__rx_timer_tick_irq_handler`
unfoldable pub tick_irq_handler : ℕ → MsgQueue → Kernel → (group : ℕ) → Run (MsgQueue × Kernel)
unfolding notify_event
tick_irq_handler fuel q k group = do
  (q1, k1) ←
      notify_event fuel q (record k { jiffies = (k.jiffies + 1) % 2 ^ 32 }) (tick_event group)
  k2 ← time_slice_tick fuel k1
  ok (q1, k2)

-- `rx_process_event`, with the fields of the group that is to be notified.
unfoldable pub handle_event :
    (rounds fuel : ℕ)
    → WaitQueues
    → EventGroup
    → Kernel
    → Event
    → Run (Status × WaitQueues × EventGroup × Kernel)
handle_event rounds fuel w g k e = do
  (w1, k1) ← wake_all rounds fuel w k
  if e.group == 0
      then ok (os_err, w1, g, k1)
      else (do (status, g1, k2) ← process_event rounds fuel g k1 e.flag; ok (status, w1, g1, k2))

-- Where one round of the event thread ends.
pub data Round : Type 0 where
  handled : Event → Round
  blocked : Round

-- A round of `rx_event_thread` behind the read; the local `e` holds the last event.
unfoldable pub after_read :
    (rounds fuel : ℕ)
    → MsgQueue
    → WaitQueues
    → EventGroup
    → Kernel
    → Event
    → Outcome (List ℕ)
    → Run (Round × MsgQueue × WaitQueues × EventGroup × Kernel)
unfolding handle_event load_event
after_read rounds fuel q w g k e sleeps = ok (blocked, q, w, g, k)
after_read rounds fuel q w g k e (returns status) = do
  (_, w1, g1, k1) ← handle_event rounds fuel w g k e
  ok (handled e, q, w1, g1, k1)
after_read rounds fuel q w g k e (delivers msg) = do
  let e1 = load_event msg e
  (_, w1, g1, k1) ← handle_event rounds fuel w g k e1
  ok (handled e1, q, w1, g1, k1)

-- One round of `rx_event_thread` from its start; OS_NO_WAIT is 0.
unfoldable pub event_round :
    (rounds fuel : ℕ)
    → MsgQueue
    → WaitQueues
    → EventGroup
    → Kernel
    → Event
    → Run (Round × MsgQueue × WaitQueues × EventGroup × Kernel)
unfolding after_read
event_round rounds fuel q w g k e = do
  (outcome, q1, k1) ← read fuel q k event_size 0 0
  after_read rounds fuel q1 w g k1 e outcome

-- The round that blocked in its read, from the return of the thread on.
unfoldable pub event_round_awake :
    (rounds fuel : ℕ)
    → MsgQueue
    → WaitQueues
    → EventGroup
    → Kernel
    → Event
    → Run (Round × MsgQueue × WaitQueues × EventGroup × Kernel)
unfolding after_read
event_round_awake rounds fuel q w g k e = do
  (outcome, q1, k1) ← read_awake fuel q k 0
  after_read rounds fuel q1 w g k1 e outcome
