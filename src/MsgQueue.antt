-- ===== src/MsgQueue.antt =====
-- kernel/rx_queue.c. `head` and `tail` are byte offsets from `mq->start`, and `mem` is the memory
-- from there on, the queue's storage being its first `size_of_block * num_of_blocks` bytes.
-- The flags are the bits of `flag`: 1 for RX_QUEUE_FULL, 2 for RX_Q_CYCLIC_FULL, 8 for RX_Q_BLOCK.
-- A call that blocks has two halves, as in `Semaphore`; `read_awake` and `write_awake` are the
-- second ones. The calls with a message of another size return OS_ERR.
pub mod Memory
pub mod Slots
pub mod Fifo
pub mod Laws
pub mod Ring
pub mod Waiting
pub mod Deletion
use Prim.Native.Nat.{bit_or}
use rosx.Base.{
  ℕ, zero, suc, ◌+◌, ◌-◌, ◌*◌, ◌/◌, ◌%◌, ◌^◌, Bool, true, false, not, ◌&&◌, ◌||◌, Option, none,
  some, List, ◌==◌, ltb, same, update, if◌then◌else◌, Run, ok, null_deref, out_of_fuel, ◌>>=◌,
  deref,
}
use rosx.Base.Lists.{length}
use rosx.Base.Links.{append_link}
use rosx.Kernel.{
  suspend, ready, Status, os_ok, os_err, e_os_timeout, e_os_busy, e_os_unavail, Kernel,
}
use rosx.ReadyQueue.{add_to_ready_q, remove_from_ready_q}
use rosx.Sched.{sched}
use rosx.Timer.{add_timer, remove_from_active, stop_timer}
use Memory.{copy_in, copy_out}

pub record MsgQueue : Type 0 where
  pub mem : ℕ → ℕ
  pub head : ℕ
  pub tail : ℕ
  pub flag : ℕ
  pub size_of_block : ℕ
  pub num_of_blocks : ℕ
  pub write_task : Option ℕ
  pub read_task : Option ℕ

abbrev pub is_full : ℕ → Bool
is_full flag = flag % 2 == 1

abbrev pub is_cyclic : ℕ → Bool
is_cyclic flag = flag / 2 % 2 == 1

abbrev pub is_blocking : ℕ → Bool
is_blocking flag = flag / 8 % 2 == 1

-- `flag |= RX_QUEUE_FULL` and `flag &= RX_QUEUE_EMPTY`
abbrev pub set_full : ℕ → ℕ
set_full flag = flag - flag % 2 + 1

abbrev pub set_empty : ℕ → ℕ
set_empty flag = flag - flag % 2

-- `rx_create_queue`, without the copy of the name
unfoldable create_queue : MsgQueue → (size blocks flag : ℕ) → Status × MsgQueue
create_queue q size blocks flag = if ltb 64 size || size == 0 || blocks == 0 then (os_err, q) else (
  os_ok,
  record q {
    size_of_block = size;
    num_of_blocks = blocks;
    head = 0;
    tail = 0;
    flag = bit_or q.flag (set_empty flag);
    write_task = none;
    read_task = none;
  },
)

-- `roll over if end of queue`
unfoldable pub advance : MsgQueue → ℕ → ℕ
advance q p =
    if ltb (q.size_of_block * q.num_of_blocks) (p + q.size_of_block) then 0 else p + q.size_of_block

-- The copy out of the queue, and the tail after it.
unfoldable pub take_block : MsgQueue → List ℕ × MsgQueue
unfolding advance
take_block q =
    let tail' = advance q q.tail in
    (
      copy_out q.mem q.tail q.size_of_block,
      record q { tail = tail'; flag = if q.head == tail' then set_empty q.flag else q.flag },
    )

-- The copy into the queue, and the head after it.
unfoldable pub put_block : MsgQueue → List ℕ → MsgQueue
unfolding advance
put_block q msg =
    let head' = advance q q.head in
    record q {
      mem = copy_in q.mem q.head msg;
      head = head';
      flag = if head' == q.tail then set_full q.flag else q.flag;
    }

abbrev pub no_message : MsgQueue → Bool
no_message q = (q.head == q.tail) && not (is_full q.flag)

-- Waking a task that waits on the queue.
unfoldable pub wake : ℕ → Kernel → ℕ → Run Kernel
wake fuel k t = do
  k1 ← elim (k.timer t) [
    | none ↦ ok k
    | some tm ↦ do k0 ← remove_from_active k tm; ok (record k0 { timer = update k0.timer t none })
  ]
  (_, k2) ←
      add_to_ready_q fuel (record k1 { state = update k1.state t ready; mq = update k1.mq t none })
        t
  ok k2

-- What a call gives: a result, or the state in which the task sleeps.
pub data Outcome (A : Type 0) : Type 0 where
  returns : Status → Outcome A
  delivers : A → Outcome A
  sleeps : Outcome A

-- `rx_read_from_queue` from the copy on
unfoldable pub read_finish : ℕ → MsgQueue → Kernel → Run (Outcome (List ℕ) × MsgQueue × Kernel)
unfolding take_block wake
read_finish fuel q k =
    let (msg, q1) = take_block q in
    elim q1.write_task [
      | none ↦ ok (delivers msg, q1, k)
      | some t ↦ do
        let rest = k.next t
        k1 ← wake fuel k t
        ok (delivers msg, record q1 { write_task = rest }, k1)
    ]

-- `rx_read_from_queue`; `tm` is the timer on the caller's stack.
unfoldable pub read :
    ℕ → MsgQueue → Kernel → (size timeout tm : ℕ) → Run (Outcome (List ℕ) × MsgQueue × Kernel)
unfolding read_finish
read fuel q k size timeout tm =
    if not (size == q.size_of_block) then ok (returns os_err, q, k) else elim q.read_task [
      | some t ↦ ok (returns e_os_busy, q, k)
      | none ↦
          if no_message q
          then if is_blocking q.flag
            then if timeout == 0
              then (do
                k1 ←
                    remove_from_ready_q fuel
                      (record k {
                        state = update k.state k.curr suspend;
                        err = update k.err k.curr os_ok;
                      })
                      k.curr
                k2 ← sched k1
                ok (sleeps, record q { read_task = some k.curr }, k2))
              else (do
                k1 ← add_timer fuel k tm none ((timeout + k.jiffies) % 2 ^ 32) k.curr
                ok (sleeps, record q { read_task = some k.curr }, k1))
            else ok (returns e_os_unavail, q, k)
          else read_finish fuel q k
    ]

abbrev no_error : Status → Bool
no_error os_ok = true
no_error _ = false

-- The reader runs again.
unfoldable pub read_awake :
    ℕ → MsgQueue → Kernel → (timeout : ℕ) → Run (Outcome (List ℕ) × MsgQueue × Kernel)
unfolding read_finish
read_awake fuel q k timeout =
    if timeout == 0
    then if no_error (k.err k.curr) then read_finish fuel q k else ok (returns (k.err k.curr), q, k)
    else if no_message q
    then ok (returns e_os_timeout, q, k)
    else read_finish fuel q k

-- `rx_write_to_queue` from the copy on
unfoldable pub write_finish :
    ℕ → MsgQueue → Kernel → List ℕ → Run (Outcome (Unit {0}) × MsgQueue × Kernel)
unfolding put_block wake
write_finish fuel q k msg =
    let q1 = put_block q msg in
    elim q1.read_task [
      | none ↦ ok (returns os_ok, q1, k)
      | some t ↦ do k1 ← wake fuel k t; ok (returns os_ok, record q1 { read_task = none }, k1)
    ]

abbrev pub must_wait : MsgQueue → Bool
must_wait q = (q.head == q.tail) && (is_full q.flag && not (is_cyclic q.flag))

-- `rx_write_to_queue`; the message has the size that the caller passes.
unfoldable pub write :
    ℕ → MsgQueue → Kernel → List ℕ → (timeout tm : ℕ) → Run (Outcome (Unit {0}) × MsgQueue × Kernel)
unfolding write_finish
write fuel q k msg timeout tm =
    if not (length msg == q.size_of_block)
    then ok (returns os_err, q, k)
    else if must_wait q
    then if is_blocking q.flag
      then (do
        k1 ←
            remove_from_ready_q fuel
              (record k { state = update k.state k.curr suspend; err = update k.err k.curr os_ok })
              k.curr
        (head, links) ← append_link fuel k1.next q.write_task k1.curr
        let q1 = record q { write_task = head }
        let k2 = record k1 { next = links }
        k3 ←
            (if timeout == 0
              then sched k2
              else add_timer fuel k2 tm none ((timeout + k2.jiffies) % 2 ^ 32) k2.curr)
        ok (sleeps, q1, k3))
      else ok (returns e_os_unavail, q, k)
    else write_finish fuel q k msg

-- The writer runs again.
unfoldable write_awake :
    ℕ → MsgQueue → Kernel → List ℕ → (timeout : ℕ) → Run (Outcome (Unit {0}) × MsgQueue × Kernel)
unfolding write_finish
write_awake fuel q k msg timeout =
    if timeout == 0
    then if no_error (k.err k.curr)
      then write_finish fuel q k msg
      else ok (returns (k.err k.curr), q, k)
    else if (q.head == q.tail) && is_full q.flag
    then ok (returns e_os_timeout, q, k)
    else write_finish fuel q k msg
