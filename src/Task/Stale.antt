-- ===== src/Task/Stale.antt =====
-- Tasks in state RUNNING that do not run: `rx_sched` leaves the state of the task it switches from.
use rosx.Base.{
  ℕ, suc, ◌<◌, ◌≡◌, ◌≢◌, refl, sym, ap, ◌∙◌, List, ◌∷◌, arith, ==_ne, update, update_self,
  update_ne, ok,
}
use rosx.Base.Lists.{length, NotIn}
use rosx.Kernel.{suspend, running, abort, os_ok, Kernel}
use rosx.ReadyQueue.Spec.{insert, insert-first, NoneAbove-mono, IsReady}
use rosx.Sched.{sched}
use rosx.Sched.Laws.{sched-most_urgent}
use rosx.Task.{resume_task, abort_task, complete_task}
use rosx.Task.Laws.{resume_task-refines, complete_task-runs_next}

-- A task that resumes a more urgent one and calls the scheduler stays in state RUNNING.
resume_task-switches :
    (fuel : ℕ) (k : Kernel) (t x : ℕ) (xs : List ℕ)
    → length (t ∷ xs) < fuel
    → IsReady k (t ∷ xs)
    → NotIn x (t ∷ xs)
    → k.curr ≡ t
    → k.state t ≡ running
    → k.state x ≡ suspend
    → k.prio x < k.prio t
    → (k1 k2 : Kernel) × (resume_task fuel k x ≡ ok (os_ok, k1))
      × (sched k1 ≡ ok k2)
      × IsReady k2 (x ∷ t ∷ xs)
      × (k2.curr ≡ x)
      × (k2.state t ≡ running)
resume_task-switches fuel k t x xs b r n now is asleep above =
    let (k1, resumed, r1, awake, frame) = resume_task-refines fuel k x (t ∷ xs) b r n asleep in
    let first : insert k.prio x (t ∷ xs) ≡ x ∷ t ∷ xs = insert-first k.prio x (t ∷ xs) (
      omega arith,
      NoneAbove-mono k.prio (suc (k.prio x)) (k.prio t) xs (omega arith) r.sorted.0,
    ) in
    let (k2, ran, runs, urgent, r2, switched, kept, others) =
      sched-most_urgent k1 x (t ∷ xs) (rw first at r1) in
    let other : t ≢ x = (λ e. n.0 (sym e)) in
    (
      k1,
      k2,
      resumed,
      ran,
      r2,
      runs,
      others t other ∙ ap (λ w. w.state t) frame ∙ update_ne k.state x t _ other ∙ is,
    )

-- Aborting a task of the ready queue that is in state RUNNING and does not run leaves it there:
-- when the task before it completes, it runs.
abort_task-leaves :
    (fuel : ℕ) (k : Kernel) (t : ℕ) (xs : List ℕ)
    → length (k.curr ∷ t ∷ xs) < fuel
    → IsReady k (k.curr ∷ t ∷ xs)
    → k.state t ≡ running
    → (k1 k2 : Kernel) × (abort_task fuel k t ≡ ok (os_ok, k1))
      × (k1.state t ≡ abort)
      × (complete_task fuel k1 k.curr ≡ ok (os_ok, k2))
      × (k2.curr ≡ t)
      × (k2.state t ≡ running)
unfolding abort_task
abort_task-leaves fuel k t xs b r is =
    let k1 : Kernel = record k { state = update k.state t abort } in
    let r1 : IsReady k1 (k.curr ∷ t ∷ xs) = record {
      linked = r.linked;
      distinct = r.distinct;
      sorted = r.sorted;
    } in
    let (k2, ran, r2, runs, state) = complete_task-runs_next fuel k1 t xs b r1 in
    (
      k1,
      k2,
      rw (==_ne t k.curr (λ e. r.distinct.0.0 (sym e))) (rw is refl),
      update_self k.state t abort,
      ran,
      runs,
      state,
    )

-- A running task resumes a more urgent one and calls the scheduler; the other one aborts it and
-- completes. Each call succeeds, and after the last one the aborted task runs, as if it had not
-- been aborted.
pub abort_task-runs_on :
    (fuel : ℕ) (k : Kernel) (t x : ℕ) (xs : List ℕ)
    → suc (length (t ∷ xs)) < fuel
    → IsReady k (t ∷ xs)
    → NotIn x (t ∷ xs)
    → k.curr ≡ t
    → k.state t ≡ running
    → k.state x ≡ suspend
    → k.prio x < k.prio t
    → (k1 k2 k3 k4 : Kernel) × (resume_task fuel k x ≡ ok (os_ok, k1))
      × (sched k1 ≡ ok k2)
      × (k2.curr ≡ x)
      × (abort_task fuel k2 t ≡ ok (os_ok, k3))
      × (k3.state t ≡ abort)
      × (complete_task fuel k3 x ≡ ok (os_ok, k4))
      × (k4.curr ≡ t)
      × (k4.state t ≡ running)
abort_task-runs_on fuel k t x xs b r n now is asleep above =
    let (k1, k2, resumed, ran, r2, runs, stale) =
      resume_task-switches fuel k t x xs (omega arith) r n now is asleep above in
    let (k3, k4, aborted, gone, completed, again, state) =
      abort_task-leaves fuel k2 t xs b (rw runs r2) stale in
    (k1, k2, k3, k4, resumed, ran, runs, aborted, gone, rw runs at completed, again, state)
