-- ===== src/WaitQueue/Expiry.antt =====
-- A wait with a timeout: the timer that is armed, and its expiry, seen by the waiting task.
use rosx.Base.{
  ℕ, suc, subst, ◌+◌, ◌%◌, ◌^◌, ◌<◌, ◌≡◌, refl, sym, ap, ◌∙◌, inl, inr, Bool, true, false, ◌||◌,
  none, some, List, [], ◌∷◌, ◌++◌, update, update_self, ==_ne, arith, Bool-cases, ok,
}
use rosx.Base.Int.{pos}
use rosx.Base.Lists.{length, NotIn, Distinct, Apart, In}
use rosx.Base.Links.{IsList, AgreeOff, IsList-update}
use rosx.Kernel.{
  TaskState, os_ok, ready, timed_out, timer_on, timer_off, ticks_left, e_os_timeout, Kernel,
}
use rosx.ReadyQueue.Wake.{insert_all}
use rosx.ReadyQueue.Spec.{IsReady, IsSorted, IsSorted-update}
use rosx.Timer.{create_timer, start_timer, add_timer, arm}
use rosx.Timer.Spec.{insert, Backed-update, IsTimers}
use rosx.Timer.Add.{add_active_lem}
use rosx.WaitQueue.{
  WaitQueues, wakes, wake_tasks, wait_handler, finish_wait, is_interruptible, is_off, start_timeout,
  wait_timeout, add_to_wait_queue,
}
use rosx.WaitQueue.Waits.{IsQueues, insert_end, parked_lem}
use rosx.WaitQueue.Wakes.{woken, wake_tasks-filters}

module _ (p : ℕ → Bool) where
  In-woken : (t : ℕ) (ts : List ℕ) → p t ≡ true → In t ts → In t (woken p ts)
  In-woken t [] h i = absurd i
  In-woken t (x ∷ ts) h (inl e) = rw (subst (λ z. p z ≡ true) e h) (inl e)
  In-woken t (x ∷ ts) h (inr i) = elim (Bool-cases (p x)) [
    | inl e ↦ rw e (inr (In-woken t ts h i))
    | inr e ↦ rw e (In-woken t ts h i)
  ]

or_true : (b : Bool) → (b || true) ≡ true
or_true true = refl
or_true false = refl

-- The timer of a wait is on the list of active timers, for the waiting task.
start_timeout_lem :
    (fuel : ℕ) (k : Kernel) (n tm handler : ℕ) (ts : List ℕ)
    → length ts < suc fuel
    → IsTimers k ts
    → NotIn tm ts
    → is_off (k.timeout k.curr) ≡ true
    → (k' : Kernel) × (start_timeout fuel k (pos (suc n)) tm handler ≡ ok k')
      × IsTimers k' (insert k'.time_expiry tm ts)
      × (k'.time_expiry tm ≡ (suc n + k.jiffies) % 2 ^ 32)
      × (k'.handler tm ≡ some handler)
      × (k'.priv tm ≡ k.curr)
      × (k'.timer k.curr ≡ some tm)
      × (k'.timeout k.curr ≡ timer_on)
      × (k'.next ≡ k.next)
      × (k'.ready_head ≡ k.ready_head)
      × (k'.prio ≡ k.prio)
      × (k'.curr ≡ k.curr)
      × (k'.state ≡ k.state)
      × (k'.wq ≡ k.wq)
unfolding start_timeout wait_timeout create_timer add_timer start_timer
start_timeout_lem fuel k n tm handler ts b t fresh idle =
    let k1 : Kernel = record k {
      timeout = update k.timeout k.curr (ticks_left (pos (suc n)));
      priv = update k.priv tm k.curr;
      delay = update k.delay tm (suc n);
      time_expiry = update k.time_expiry tm 0;
      timer_task = update k.timer_task tm k.curr;
      handler = update k.handler tm (some handler);
      timer_next = update k.timer_next tm none;
      timer_prev = update k.timer_prev tm none;
      enabled = update k.enabled tm false;
      timer = update k.timer k.curr (some tm);
    } in
    let t1 : IsTimers k1 ts = record {
      linked = IsList-update k.timer_next k.active_timer_head ts tm none fresh t.linked;
      backed = Backed-update k.timer_prev none ts tm none fresh t.backed;
      distinct = t.distinct;
      sorted = IsSorted-update k.time_expiry tm 0 ts fresh t.sorted;
    } in
    let (h, nx, pv, e, t2, off, off') = add_active_lem fuel k1 tm ts b t1 fresh in
    let k0 : Kernel = record k { timeout = update k.timeout k.curr (ticks_left (pos (suc n))) } in
    let created : create_timer fuel k0 tm (some handler) k.curr (suc n)
        ≡ ok (os_ok, record k1 { timer = k.timer }) =
      rw (==_ne (suc n) 0 (omega arith), create_timer) refl in
    let started : start_timer fuel k1 (some tm)
        ≡ ok (record (arm k1 tm) { timer_next = nx; timer_prev = pv; active_timer_head = some h }) =
      rw (update_self k.enabled tm false, start_timer) e in
    (
      record (arm k1 tm) {
        timer_next = nx;
        timer_prev = pv;
        active_timer_head = some h;
        timeout = update k1.timeout k.curr timer_on;
      },
      rw (idle, start_timeout) (rw (created, wait_timeout) (rw started refl)),
      record { linked = t2.linked; backed = t2.backed; distinct = t2.distinct; sorted = t2.sorted },
      update_self k1.time_expiry tm ((k1.delay tm + k.jiffies) % 2 ^ 32)
          ∙ ap (λ d. (d + k.jiffies) % 2 ^ 32) (update_self k.delay tm (suc n)),
      update_self k.handler tm (some handler),
      update_self k.priv tm k.curr,
      update_self k.timer k.curr (some tm),
      update_self k1.timeout k.curr timer_on,
      refl,
      refl,
      refl,
      refl,
      refl,
      refl,
    )

-- A wait with a timeout of `n + 1` ticks, of a task that has no timer running, takes the task off
-- the ready queue to the end of the wait queue, in the state that it waits in; the wait queue is at
-- the end of the system's list, unless it was on it, the other wait queues keep their heads, and
-- the task's timer is on the list of active timers in the place of its
-- expiry, `n + 1` ticks from now, to call the handler with the task.
pub add_to_wait_queue-arms :
    (fuel : ℕ) (w : WaitQueues) (k : Kernel) (wq : ℕ) (st : TaskState) (n tm handler : ℕ)
    (ws xs qs ts : List ℕ)
    → length (k.curr ∷ xs) < fuel
    → length ws < suc fuel
    → length qs < suc fuel
    → length ts < suc fuel
    → IsReady k (k.curr ∷ xs)
    → IsList k.next (w.task wq) ws
    → Distinct ws
    → Apart ws (k.curr ∷ xs)
    → IsQueues w qs
    → (NotIn wq qs → w.next wq ≡ none)
    → IsTimers k ts
    → NotIn tm ts
    → is_off (k.timeout k.curr) ≡ true
    → (w' : WaitQueues) × (k' : Kernel) × (add_to_wait_queue fuel w k wq st (pos (suc n)) tm handler
        ≡ ok (w', k'))
      × IsReady k' xs
      × IsList k'.next (w'.task wq) (ws ++ k.curr ∷ [])
      × IsQueues w' (insert_end wq qs)
      × IsTimers k' (insert k'.time_expiry tm ts)
      × (k'.time_expiry tm ≡ (suc n + k.jiffies) % 2 ^ 32)
      × (k'.handler tm ≡ some handler)
      × (k'.priv tm ≡ k.curr)
      × (k'.timer k.curr ≡ some tm)
      × (k'.timeout k.curr ≡ timer_on)
      × (k'.state k.curr ≡ st)
      × (k'.wq k.curr ≡ some wq)
      × AgreeOff (wq ∷ []) w.task w'.task
add_to_wait_queue-arms fuel w k wq st n tm handler ws xs qs ts b c b' bt r l d a i e t fresh idle =
    let (w1, k1, (runnable, queue, queues, others, frame, run)) =
      parked_lem fuel w k wq st ws xs qs b c b' r l d a i e in
    let same_curr : k1.curr ≡ k.curr = ap (λ z. z.curr) frame in
    let timers : IsTimers k1 ts =
      subst (λ z. IsTimers z ts) (sym frame)
        (record {
          linked = t.linked;
          backed = t.backed;
          distinct = t.distinct;
          sorted = t.sorted;
        }) in
    let idle1 : is_off (k1.timeout k1.curr) ≡ true =
      ap (λ z. is_off (z.timeout z.curr)) frame ∙ idle in
    let (k2, armed, timers2, due, calls, whom, noted, on, links, head, prios, curr2, states, wqs) =
      start_timeout_lem fuel k1 n tm handler ts bt timers fresh idle1 in
    (
      w1,
      k2,
      run (pos (suc n)) tm handler ∙ rw armed refl,
      record {
        linked = rw (links, head) runnable.linked;
        distinct = runnable.distinct;
        sorted = subst (λ p. IsSorted p xs) (sym prios) runnable.sorted;
      },
      subst (λ f. IsList f (w1.task wq) (ws ++ k.curr ∷ [])) (sym links) queue,
      queues,
      timers2,
      due ∙ ap (λ z. (suc n + z.jiffies) % 2 ^ 32) frame,
      calls,
      whom ∙ same_curr,
      subst (λ p. k2.timer p ≡ some tm) same_curr noted,
      subst (λ p. k2.timeout p ≡ timer_on) same_curr on,
      ap (λ f. f k.curr) states ∙ ap (λ z. z.state k.curr) frame ∙ update_self k.state k.curr st,
      ap (λ f. f k.curr) wqs ∙ ap (λ z. z.wq k.curr) frame ∙ update_self k.wq k.curr (some wq),
      others,
    )

-- When the timer of a waiting task expires, the next walk over its wait queue makes it ready,
-- even if it waits uninterruptibly, and when it runs its wait returns E_OS_TIMEOUT, with no trace
-- of the wait left in its fields.
pub wait_handler-gives_up :
    (rounds fuel : ℕ) (w : WaitQueues) (k : Kernel) (wq t : ℕ) (ws xs : List ℕ)
    → length ws < rounds
    → length xs + length ws < fuel
    → IsReady k xs
    → IsList k.next (w.task wq) ws
    → Distinct ws
    → Apart ws xs
    → In t ws
    → (w' : WaitQueues) × (k' k'' : Kernel) × (wake_tasks rounds fuel w
          (wait_handler k t)
          wq
          (w.task wq)
          (w.task wq)
        ≡ ok (w', k'))
      × IsReady k' (insert_all k.prio (woken (wakes (wait_handler k t)) ws) xs)
      × In t (woken (wakes (wait_handler k t)) ws)
      × (k'.state t ≡ ready)
      × (finish_wait (record k' { curr = t }) ≡ ok (e_os_timeout, k''))
      × (k''.timeout t ≡ timer_off)
      × (k''.wq t ≡ none)
      × (k''.timer t ≡ none)
unfolding wait_handler finish_wait
wait_handler-gives_up rounds fuel w k wq t ws xs b c r l d a i =
    let k0 : Kernel = wait_handler k t in
    let r0 : IsReady k0 xs = record {
      linked = r.linked;
      distinct = r.distinct;
      sorted = r.sorted;
    } in
    let (w1, k1, e1, queue, r1, woke, off, frame, tasks) =
      wake_tasks-filters rounds fuel w k0 wq ws xs b c r0 l d a in
    let late : k0.timeout t ≡ timed_out = update_self k.timeout t timed_out in
    let found : In t (woken (wakes k0) ws) =
      In-woken (wakes k0) t ws (rw late (or_true (is_interruptible (k.state t)))) i in
    let late1 : k1.timeout t ≡ timed_out = ap (λ z. z.timeout t) woke.frame ∙ late in
    let no_timer : k1.timer t ≡ none =
      ap (λ z. z.timer t) woke.frame ∙ update_self k.timer t none in
    (
      w1,
      k1,
      record k1 { curr = t; timeout = update k1.timeout t timer_off; wq = update k1.wq t none },
      e1,
      r1,
      found,
      woke.made_ready t (inr found),
      rw (no_timer, finish_wait) (rw late1 refl),
      update_self k1.timeout t timer_off,
      update_self k1.wq t none,
      no_timer,
    )
