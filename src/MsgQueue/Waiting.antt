-- ===== src/MsgQueue/Waiting.antt =====
-- Tasks that wait on a queue: the sleep of a reader, and the wake-up by a writer.
use rosx.Base.{
  ℕ, suc, ◌+◌, ◌*◌, ◌%◌, ◌^◌, ◌<◌, ◌≤◌, ◌≡◌, refl, ap, ◌∙◌, true, false, Option, none, some, List,
  [], ◌∷◌, ◌++◌, arith, ◌==◌, ==_refl, ==_ne, update, update_self, Run, ok, ◌>>=◌,
}
use rosx.Base.Lists.{length, NotIn}
use rosx.Kernel.{suspend, ready, os_ok, Kernel}
use rosx.ReadyQueue.Spec.{IsReady}
use rosx.ReadyQueue.Spec
use rosx.ReadyQueue.Add.{add_to_ready_q-refines}
use rosx.Timer.{add_timer}
use rosx.Timer.Spec.{IsTimers}
use rosx.Timer.Sleep.{add_timer-sleeps}
use rosx.MsgQueue.{
  MsgQueue, is_blocking, put_block, must_wait, no_message, Outcome, read, write, write_finish, wake,
  returns, sleeps,
}
use rosx.MsgQueue.Fifo.{IsQueue, put_block-appends}
use rosx.MsgQueue.Laws.{is_empty, has_room}

-- The state in which the caller sleeps, noted as the reader, after its timer was added.
abbrev slept : MsgQueue → Kernel → Run Kernel → Run (Outcome (List ℕ) × MsgQueue × Kernel)
slept q k added = do k1 ← added; ok (sleeps, record q { read_task = some k.curr }, k1)

read-blocks :
    (fuel : ℕ) (q : MsgQueue) (k : Kernel) (timeout tm : ℕ)
    → q.read_task ≡ none
    → no_message q ≡ true
    → is_blocking q.flag ≡ true
    → (timeout == 0) ≡ false
    → read fuel q k q.size_of_block timeout tm
      ≡ slept q k (add_timer fuel k tm none ((timeout + k.jiffies) % 2 ^ 32) k.curr)
unfolding read
read-blocks fuel q k timeout tm idle empty may later =
    rw (==_refl q.size_of_block) (rw idle (rw empty (rw may (rw later refl))))

-- A reader of an empty queue that may block, with a timeout, sleeps and is noted as the reader.
-- Its timer is set to `jiffies` twice: it expires that many ticks later than the timeout says.
pub read-sleeps_long :
    (fuel : ℕ) (q : MsgQueue) (k : Kernel) (timeout tm y : ℕ) (ys ts : List ℕ)
    → IsQueue q []
    → q.read_task ≡ none
    → is_blocking q.flag ≡ true
    → 0 < timeout
    → length (k.curr ∷ y ∷ ys) < fuel
    → length ts < suc fuel
    → IsReady k (k.curr ∷ y ∷ ys)
    → IsTimers k ts
    → NotIn tm ts
    → (k' : Kernel) × (read fuel q k q.size_of_block timeout tm
        ≡ ok (sleeps, record q { read_task = some k.curr }, k'))
      × IsReady k' (y ∷ ys)
      × (k'.state k.curr ≡ suspend)
      × (k'.time_expiry tm ≡ (timeout + 2 * k.jiffies) % 2 ^ 32)
read-sleeps_long fuel q k timeout tm y ys ts m idle may some_time b c r t n =
    let delay : ℕ = (timeout + k.jiffies) % 2 ^ 32 in
    let (k', e, r', t', expires, runs, asleep, held) =
      add_timer-sleeps fuel k tm delay y ys ts b c r t n in
    (
      k',
      read-blocks fuel q k timeout tm idle (is_empty q [] m refl) may
            (==_ne timeout 0 (omega arith))
          ∙ ap (slept q k) e,
      r',
      asleep,
      expires ∙ omega arith,
    )

-- What a wake-up leaves of the kernel's state.
abbrev IsWakened : Kernel → Kernel → ℕ → Type 0
IsWakened k k' t = k' ≡ record k {
  state = update k.state t ready;
  mq = update k.mq t none;
  next = k'.next;
  ready_head = k'.ready_head;
  need_resched = k'.need_resched;
}

wake_lem :
    (fuel : ℕ) (k : Kernel) (t : ℕ) (xs : List ℕ)
    → length xs < fuel
    → IsReady k xs
    → NotIn t xs
    → k.timer t ≡ none
    → (k' : Kernel) × (wake fuel k t ≡ ok k')
      × IsReady k' (Spec.insert k.prio t xs)
      × (k'.state t ≡ ready)
      × (k'.mq t ≡ none)
      × IsWakened k k' t
unfolding wake
wake_lem fuel k t xs b r n untimed =
    let k0 : Kernel = record k { state = update k.state t ready; mq = update k.mq t none } in
    let r0 : IsReady k0 xs = record {
      linked = r.linked;
      distinct = r.distinct;
      sorted = r.sorted;
    } in
    let (k', e, r', off, frame) =
      add_to_ready_q-refines fuel k0 t xs b r0 n (rw (update_self k.state t ready) refl) in
    (
      k',
      rw untimed (rw e refl),
      r',
      ap (λ z. z.state t) frame ∙ update_self k.state t ready,
      ap (λ z. z.mq t) frame ∙ update_self k.mq t none,
      frame,
    )

write-finishes :
    (fuel : ℕ) (q : MsgQueue) (k : Kernel) (msg : List ℕ) (timeout tm : ℕ)
    → length msg ≡ q.size_of_block
    → must_wait q ≡ false
    → write fuel q k msg timeout tm ≡ write_finish fuel q k msg
unfolding write
write-finishes fuel q k msg timeout tm hm passes = rw (hm, ==_refl q.size_of_block) (rw passes refl)

-- The end of a write, after the reader was woken, and with the reader given.
abbrev woken : MsgQueue → List ℕ → Run Kernel → Run (Outcome (Unit {0}) × MsgQueue × Kernel)
woken q msg waking = do
  k1 ← waking
  ok (returns os_ok, record (put_block q msg) { read_task = none }, k1)

abbrev ended :
    ℕ → MsgQueue → Kernel → List ℕ → Option ℕ → Run (Outcome (Unit {0}) × MsgQueue × Kernel)
ended fuel q k msg reader = elim reader [
  | none ↦ ok (returns os_ok, put_block q msg, k)
  | some t ↦ woken q msg (wake fuel k t)
]

write_finish_lem :
    (fuel : ℕ) (q : MsgQueue) (k : Kernel) (msg : List ℕ) (t : ℕ)
    → q.read_task ≡ some t
    → write_finish fuel q k msg ≡ woken q msg (wake fuel k t)
unfolding write_finish put_block
write_finish_lem fuel q k msg t waits = ap (ended fuel q k msg) waits

-- A write while a task without a timer waits to read, with all that it changes.
pub write-wakes_lem :
    (fuel : ℕ) (q : MsgQueue) (k : Kernel) (msg : List ℕ) (xs : List (List ℕ)) (timeout tm t : ℕ)
    (ready_tasks : List ℕ)
    → IsQueue q xs
    → length msg ≡ q.size_of_block
    → length xs ≤ q.num_of_blocks
    → q.read_task ≡ some t
    → k.timer t ≡ none
    → length ready_tasks < fuel
    → IsReady k ready_tasks
    → NotIn t ready_tasks
    → (q' : MsgQueue) × (k' : Kernel) × (write fuel q k msg timeout tm ≡ ok (returns os_ok, q', k'))
      × IsQueue q' (xs ++ msg ∷ [])
      × (q'.read_task ≡ none)
      × IsReady k' (Spec.insert k.prio t ready_tasks)
      × (k'.state t ≡ ready)
      × IsWakened k k' t
      × (q'.size_of_block ≡ q.size_of_block)
      × (q'.write_task ≡ q.write_task)
unfolding put_block
write-wakes_lem fuel q k msg xs timeout tm t tasks m hm room waits untimed b r n =
    let (k', e, r', awake, free, frame) = wake_lem fuel k t tasks b r n untimed in
    let m' : IsQueue (put_block q msg) (xs ++ msg ∷ []) = put_block-appends q msg xs m hm room in
    (
      record (put_block q msg) { read_task = none },
      k',
      write-finishes fuel q k msg timeout tm hm (has_room q xs m room)
          ∙ write_finish_lem fuel q k msg t waits
          ∙ ap (woken q msg) e,
      record {
        first = m'.first;
        free = m'.free;
        sized = m'.sized;
        some_blocks = m'.some_blocks;
        first_in = m'.first_in;
        free_in = m'.free_in;
        at_tail = m'.at_tail;
        at_head = m'.at_head;
        count = m'.count;
        apart = m'.apart;
        stored = m'.stored;
        full = m'.full;
        empty = m'.empty;
      },
      refl,
      r',
      awake,
      frame,
      refl,
      refl,
    )
