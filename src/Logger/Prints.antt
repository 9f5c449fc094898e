-- ===== src/Logger/Prints.antt =====
-- The way of a text from `__rx_printk_to_buffer` to the simulator's device.
use rosx.Base.{
  ℕ, zero, suc, ◌+◌, ◌<◌, ◌≤◌, ◌≡◌, refl, sym, ap, ◌∙◌, none, some, List, [], ◌∷◌, ◌++◌, arith,
  update, ok, ltb_no, ==_ne, ==_refl, true, false,
}
use mathlib.Core.List.{append_assoc, append-nil}
use rosx.Base.Int.{pos}
use rosx.Base.Lists.{length}
use rosx.Kernel.{os_ok, timer_off, Kernel}
use rosx.ReadyQueue.Spec.{IsReady}
use rosx.MsgQueue.Memory.{copy_out}
use rosx.WaitQueue.{WaitQueues}
use rosx.WaitQueue.Condition.{wait_queue, wait_queue_awake}
use rosx.WaitQueue.Blocking.{IsFree, Blocked, block_on_lem, finish_wait_lem}
use rosx.Device.{Devices, call, dev_write}
use rosx.Device.Simulator.{sim_ops}
use rosx.Logger.{PrintBuffer, buffer_size, printk_to_buffer, has_text, log_byte}
use rosx.Logger.Texts.{printed}
use rosx.Logger.Thread.{log_round, logger_thread, logger_thread_awake}

-- The descriptor belongs to the simulator's device.
abbrev IsSimulator : Devices (List ℕ) → ℕ → Type 0
IsSimulator v dd = (d : ℕ) × (v.desc dd ≡ some d) × ((v.table d).ops ≡ some sim_ops)

write_lem :
    (v : Devices (List ℕ)) (dd : ℕ) (src : ℕ → ℕ)
    → IsSimulator v dd
    → dev_write v dd src 1 ≡ ok (pos 1, record v { drivers = v.drivers ++ src 0 ∷ [] })
unfolding dev_write
write_lem v dd src (d, used, ops) = rw (used, call) (rw ops refl)

log_round_lem :
    (v : Devices (List ℕ)) (b : PrintBuffer) (dd : ℕ)
    → b.tail < buffer_size
    → IsSimulator v dd
    → log_round v b dd os_ok
      ≡ ok (record v { drivers = v.drivers ++ b.mem b.tail ∷ [] }, record b { tail = suc b.tail })
unfolding log_round log_byte
log_round_lem v b dd lt sim =
    let at_tail : b.tail + 0 ≡ b.tail = omega arith in
    simp
      (write_lem v dd (λ a. b.mem (b.tail + a)) sim, ltb_no buffer_size (suc b.tail) (omega arith))
      (ap
        (λ t. ok (record v { drivers = v.drivers ++ b.mem t ∷ [] }, record b { tail = suc b.tail }))
        at_tail)

text_left : (b : PrintBuffer) → b.tail < b.head → has_text b ≡ true
text_left b lt = rw (==_ne b.head b.tail (omega arith)) refl

none_left : (b : PrintBuffer) → b.tail ≡ b.head → has_text b ≡ false
none_left b e = rw e (rw (==_refl b.head) refl)

-- The thread prints what is before a head that lies behind its tail, and blocks.
logger_thread_lem :
    (n rounds fuel : ℕ) (v : Devices (List ℕ)) (b : PrintBuffer) (w : WaitQueues) (k : Kernel)
    (wq dd y : ℕ) (ys qs : List ℕ)
    → n < rounds
    → b.tail + n ≡ b.head
    → b.head ≤ buffer_size
    → IsSimulator v dd
    → length (k.curr ∷ y ∷ ys) < fuel
    → IsReady k (k.curr ∷ y ∷ ys)
    → IsFree fuel w wq qs
    → (w' : WaitQueues) × (k' : Kernel) × (logger_thread rounds fuel v b w k wq dd
        ≡ ok (
          record v { drivers = v.drivers ++ copy_out b.mem b.tail n },
          record b { tail = b.head },
          w',
          k',
        ))
      × Blocked k wq y ys w' k'
unfolding logger_thread wait_queue copy_out
logger_thread_lem n zero fuel v b w k wq dd y ys qs lt e le sim c r free = absurd (omega arith)
logger_thread_lem zero (suc m) fuel v b w k wq dd y ys qs lt e le sim c r free =
    let same : b.tail ≡ b.head = omega arith in
    let (w1, k1, ran, blocked) = block_on_lem fuel w k wq y ys qs c r free in
    (
      w1,
      k1,
      simp (none_left b same, ran)
          (ap (λ t. ok (v, record b { tail = t }, w1, k1)) same
            ∙ ap (λ o. ok (record v { drivers = o }, record b { tail = b.head }, w1, k1))
                (sym (append-nil v.drivers))),
      blocked,
    )
logger_thread_lem (suc n) (suc m) fuel v b w k wq dd y ys qs lt e le sim c r free =
    let v1 : Devices (List ℕ) = record v { drivers = v.drivers ++ b.mem b.tail ∷ [] } in
    let b1 : PrintBuffer = record b { tail = suc b.tail } in
    let (w1, k1, ran, blocked) =
      logger_thread_lem n m fuel v1 b1 w k wq dd y ys qs (omega arith) (omega arith) le sim c r
        free in
    (
      w1,
      k1,
      simp (text_left b (omega arith), log_round_lem v b dd (omega arith) sim, ran)
          (ap (λ o. ok (record v { drivers = o }, record b { tail = b.head }, w1, k1))
            (append_assoc v.drivers (b.mem b.tail ∷ []) (copy_out b.mem (suc b.tail) n))),
      blocked,
    )

-- The same from a switch back to the thread on.
awake_lem :
    (n rounds fuel : ℕ) (v : Devices (List ℕ)) (b : PrintBuffer) (w : WaitQueues) (k : Kernel)
    (wq dd y : ℕ) (ys qs : List ℕ)
    → n < rounds
    → b.tail + suc n ≡ b.head
    → b.head ≤ buffer_size
    → IsSimulator v dd
    → length (k.curr ∷ y ∷ ys) < fuel
    → IsReady k (k.curr ∷ y ∷ ys)
    → IsFree fuel w wq qs
    → k.timer k.curr ≡ none
    → k.timeout k.curr ≡ timer_off
    → (w' : WaitQueues) × (k' : Kernel) × (logger_thread_awake rounds fuel v b w k wq dd
        ≡ ok (
          record v { drivers = v.drivers ++ copy_out b.mem b.tail (suc n) },
          record b { tail = b.head },
          w',
          k',
        ))
      × Blocked k wq y ys w' k'
unfolding logger_thread_awake wait_queue_awake copy_out
awake_lem n rounds fuel v b w k wq dd y ys qs lt e le sim c r free untimed off =
    let k1 : Kernel = record k {
      timeout = update k.timeout k.curr timer_off;
      wq = update k.wq k.curr none;
    } in
    let r1 : IsReady k1 (k.curr ∷ y ∷ ys) = record {
      linked = r.linked;
      distinct = r.distinct;
      sorted = r.sorted;
    } in
    let v1 : Devices (List ℕ) = record v { drivers = v.drivers ++ b.mem b.tail ∷ [] } in
    let b1 : PrintBuffer = record b { tail = suc b.tail } in
    let (w2, k2, ran, blocked) =
      logger_thread_lem n rounds fuel v1 b1 w k1 wq dd y ys qs lt (omega arith) le sim c r1 free in
    (
      w2,
      k2,
      simp
          (
            text_left b (omega arith),
            finish_wait_lem k untimed off,
            log_round_lem v b dd (omega arith) sim,
            ran,
          )
          (ap (λ o. ok (record v { drivers = o }, record b { tail = b.head }, w2, k2))
            (append_assoc v.drivers (b.mem b.tail ∷ []) (copy_out b.mem (suc b.tail) n))),
      blocked,
    )

-- A text that is put into a buffer that was read to the end, and that fits behind its head, is
-- printed by the simulator's device when the logger's thread is switched back to: the text, and
-- then its NUL. The thread has then read the buffer to the end, and blocks on its wait queue, and
-- the next ready task runs.
pub logger_thread_awake-prints :
    (rounds fuel : ℕ) (v : Devices (List ℕ)) (b : PrintBuffer) (text complaint : List ℕ)
    (w : WaitQueues) (k : Kernel) (wq dd y : ℕ) (ys qs : List ℕ)
    → length text < rounds
    → b.tail ≡ b.head
    → b.head + (length text + 1) ≤ buffer_size
    → IsSimulator v dd
    → length (k.curr ∷ y ∷ ys) < fuel
    → IsReady k (k.curr ∷ y ∷ ys)
    → IsFree fuel w wq qs
    → k.timer k.curr ≡ none
    → k.timeout k.curr ≡ timer_off
    → (b' : PrintBuffer) × (w' : WaitQueues) × (k' : Kernel) × (logger_thread_awake rounds fuel v
          (printk_to_buffer b text complaint)
          w
          k
          wq
          dd
        ≡ ok (record v { drivers = v.drivers ++ (text ++ 0 ∷ []) }, b', w', k'))
      × (b'.tail ≡ b'.head)
      × Blocked k wq y ys w' k'
logger_thread_awake-prints rounds fuel v b text complaint w k wq dd y ys qs lt read fits sim c r
      free untimed off =
    let (b1, put, tail, head, out) = printed b text complaint read fits in
    let (w', k', ran, blocked) =
      awake_lem (length text) rounds fuel v b1 w k wq dd y ys qs lt (omega arith) (omega arith) sim
        c r free untimed off in
    (
      record b1 { tail = b1.head },
      w',
      k',
      ap (λ z. logger_thread_awake rounds fuel v z w k wq dd) put
          ∙ ran
          ∙ ap
              (λ o.
                ok (record v { drivers = v.drivers ++ o }, record b1 { tail = b1.head }, w', k'))
              out,
      refl,
      blocked,
    )
