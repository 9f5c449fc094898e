-- ===== src/WaitQueue/Blocking.antt =====
-- What a task that waits for a condition does before and after it waits.
use rosx.Base.{ℕ, suc, ◌<◌, ◌≡◌, refl, ◌∙◌, none, some, List, [], ◌∷◌, arith, update, ok}
use rosx.Base.Lists.{length, NotIn}
use rosx.Kernel.{interruptible, os_ok, timer_off, Kernel}
use rosx.ReadyQueue.Spec.{IsReady}
use rosx.Sched.Laws.{sched-most_urgent}
use rosx.WaitQueue.{WaitQueues, finish_wait}
use rosx.WaitQueue.Waits.{IsQueues, add_to_wait_queue-parks}
use rosx.WaitQueue.Condition.{block_on}

-- A wait queue that no task waits on, in a list of wait queues that the rounds suffice for.
pub record IsFree (fuel : ℕ) (w : WaitQueues) (wq : ℕ) (qs : List ℕ) : Type 0 where
  pub nobody : w.task wq ≡ none
  pub queues : IsQueues w qs
  pub enough : length qs < suc fuel
  pub unlinked : NotIn wq qs → w.next wq ≡ none

-- The running task has blocked on the wait queue, and the next task runs.
abbrev pub Blocked : Kernel → (wq y : ℕ) → List ℕ → WaitQueues → Kernel → Type 0
Blocked k wq y ys w' k' =
    IsReady k' (y ∷ ys)
    × (k'.curr ≡ y)
    × (k'.state k.curr ≡ interruptible)
    × (w'.task wq ≡ some k.curr)

pub block_on_lem :
    (fuel : ℕ) (w : WaitQueues) (k : Kernel) (wq y : ℕ) (ys qs : List ℕ)
    → length (k.curr ∷ y ∷ ys) < fuel
    → IsReady k (k.curr ∷ y ∷ ys)
    → IsFree fuel w wq qs
    → (w' : WaitQueues) × (k' : Kernel) × (block_on fuel w k wq ≡ ok (w', k', none))
      × Blocked k wq y ys w' k'
unfolding block_on
block_on_lem fuel w k wq y ys qs b r free =
    let (w1, k1, parked, r1, queue, queues, state, at_wq, others) =
      add_to_wait_queue-parks fuel w k wq interruptible 0 0 [] (y ∷ ys) qs b (omega arith)
        free.enough r free.nobody tt tt free.queues free.unlinked in
    let (k2, ran, runs, urgent, r2, switched, frame, states) = sched-most_urgent k1 y ys r1 in
    (
      w1,
      k2,
      rw (parked, ran) refl,
      (r2, runs, states k.curr (λ e. r.distinct.0.0 e) ∙ state, queue.0),
    )

-- The wait is over: no timer was started, and the task forgets its wait queue.
pub finish_wait_lem :
    (k : Kernel)
    → k.timer k.curr ≡ none
    → k.timeout k.curr ≡ timer_off
    → finish_wait k
      ≡ ok (
        os_ok,
        record k { timeout = update k.timeout k.curr timer_off; wq = update k.wq k.curr none },
      )
unfolding finish_wait
finish_wait_lem k e f = simp (e, f) refl
