-- ===== src/Task/Laws.antt =====
-- Suspending, resuming, completing a task and changing its priority, seen on the ready queue.
use rosx.Base.{
  ℕ, ◌<◌, ◌≡◌, refl, ap, ◌∙◌, ◌≢◌, ◌⊎◌, some, List, ◌∷◌, arith, ==_refl, ==_ne, update, update_self,
  ok, ◌>>=◌,
}
use rosx.Base.Lists.{length, NotIn, erase, Distinct-erase, NotIn-erase_self, length-erase}
use rosx.Kernel.{suspend, ready, running, complete, os_ok, Kernel}
use rosx.ReadyQueue.Spec.{insert, IsReady, IsSorted-update}
use rosx.ReadyQueue.Add.{add_to_ready_q-refines}
use rosx.ReadyQueue.Remove.{remove_lem, IsSorted-erase}
use rosx.Sched.Laws.{sched-most_urgent}
use rosx.Task.{task_complete, task_abort, complete_task, set_task_prio, suspend_task, resume_task}

-- Suspending another task that is ready takes it off the queue.
suspend_task-refines :
    (fuel : ℕ) (k : Kernel) (t x : ℕ) (xs : List ℕ)
    → length (x ∷ xs) < fuel
    → IsReady k (x ∷ xs)
    → k.state t ≡ ready
    → (k' : Kernel) × (suspend_task fuel k (some t) ≡ ok (os_ok, k'))
      × IsReady k' (erase t (x ∷ xs))
      × (k'.state t ≡ suspend)
      × (k'.prio ≡ k.prio)
unfolding suspend_task
suspend_task-refines fuel k t x xs b r is =
    let (hd, g, e, linked, off, end) = remove_lem fuel k t x xs b r.linked r.distinct in
    (
      record k { next = g; ready_head = hd; state = update k.state t suspend },
      rw is (rw e refl),
      record {
        linked = linked;
        distinct = Distinct-erase t (x ∷ xs) r.distinct;
        sorted = IsSorted-erase k.prio t (x ∷ xs) r.sorted;
      },
      update_self k.state t suspend,
      refl,
    )

-- Resuming a suspended task puts it into the queue by its priority.
pub resume_task-refines :
    (fuel : ℕ) (k : Kernel) (t : ℕ) (xs : List ℕ)
    → length xs < fuel
    → IsReady k xs
    → NotIn t xs
    → k.state t ≡ suspend
    → (k' : Kernel) × (resume_task fuel k t ≡ ok (os_ok, k'))
      × IsReady k' (insert k.prio t xs)
      × (k'.state t ≡ ready)
      × (k' ≡ record k {
        next = k'.next;
        ready_head = k'.ready_head;
        need_resched = k'.need_resched;
        state = update k.state t ready;
      })
unfolding resume_task
resume_task-refines fuel k t xs b r n is =
    let k1 : Kernel = record k { state = update k.state t ready } in
    let r1 : IsReady k1 xs = record {
      linked = r.linked;
      distinct = r.distinct;
      sorted = r.sorted;
    } in
    let (k', e, r', off, frame) =
      add_to_ready_q-refines fuel k1 t xs b r1 n (rw (update_self k.state t ready) refl) in
    (k', rw is (rw e refl), r', ap (λ s. s.state t) frame ∙ update_self k.state t ready, frame)

-- A ready task that is suspended and resumed stands behind the tasks of its priority.
pub resume-suspend :
    (fuel : ℕ) (k : Kernel) (t x : ℕ) (xs : List ℕ)
    → length (x ∷ xs) < fuel
    → IsReady k (x ∷ xs)
    → k.state t ≡ ready
    → (k' : Kernel) × ((suspend_task fuel k (some t) >>= λ p. resume_task fuel p.1 t)
        ≡ ok (os_ok, k'))
      × IsReady k' (insert k.prio t (erase t (x ∷ xs)))
      × (k'.state t ≡ ready)
resume-suspend fuel k t x xs b r is =
    let (k1, e1, r1, s1, p1) = suspend_task-refines fuel k t x xs b r is in
    let (k', e', r', s', frame) =
      resume_task-refines fuel k1 t (erase t (x ∷ xs)) (omega (arith, length-erase t (x ∷ xs))) r1
        (NotIn-erase_self t (x ∷ xs) r.distinct) s1 in
    (k', rw e1 e', rw p1 at r', s')

-- The new priority of a ready task moves it to its place, unless the task's old priority is 3 or 4.
pub set_task_prio-refines :
    (fuel : ℕ) (k : Kernel) (t p x : ℕ) (xs : List ℕ)
    → length (x ∷ xs) < fuel
    → IsReady k (x ∷ xs)
    → k.state t ≡ ready
    → p ≢ k.prio t
    → k.prio t ≢ task_complete
    → k.prio t ≢ task_abort
    → (k' : Kernel) × (set_task_prio fuel k t p ≡ ok (os_ok, k'))
      × IsReady k' (insert k'.prio t (erase t (x ∷ xs)))
      × (k'.prio ≡ update k.prio t p)
unfolding set_task_prio
set_task_prio-refines fuel k t p x xs b r is ne nc na =
    let k1 : Kernel = record k { prio = update k.prio t p } in
    let (hd, g, e, linked, off, end) = remove_lem fuel k1 t x xs b r.linked r.distinct in
    let k2 : Kernel = record k1 { next = g; ready_head = hd } in
    let gone : NotIn t (erase t (x ∷ xs)) = NotIn-erase_self t (x ∷ xs) r.distinct in
    let r2 : IsReady k2 (erase t (x ∷ xs)) = record {
      linked = linked;
      distinct = Distinct-erase t (x ∷ xs) r.distinct;
      sorted =
          IsSorted-update k.prio t p (erase t (x ∷ xs)) gone
            (IsSorted-erase k.prio t (x ∷ xs) r.sorted);
    } in
    let (k', e', r', off', frame) =
      add_to_ready_q-refines fuel k2 t (erase t (x ∷ xs)) (omega (arith, length-erase t (x ∷ xs)))
        r2 gone (rw is refl) in
    let same_prio : k'.prio ≡ update k.prio t p = ap (λ s. s.prio) frame in
    (
      k',
      rw (==_ne p (k.prio t) ne, ==_ne (k.prio t) 3 nc, ==_ne (k.prio t) 4 na)
          (rw is (rw (e, e') refl)),
      rw same_prio r',
      same_prio,
    )

-- A task whose priority is 3 or 4 keeps it: the call reports success and changes nothing.
pub set_task_prio-stuck :
    (fuel : ℕ) (k : Kernel) (t p : ℕ)
    → (k.prio t ≡ task_complete) ⊎ (k.prio t ≡ task_abort)
    → set_task_prio fuel k t p ≡ ok (os_ok, k)
unfolding set_task_prio
set_task_prio-stuck fuel k t p h = ground arith

-- The running task that completes leaves the queue, and the next one runs.
pub complete_task-runs_next :
    (fuel : ℕ) (k : Kernel) (y : ℕ) (ys : List ℕ)
    → length (k.curr ∷ y ∷ ys) < fuel
    → IsReady k (k.curr ∷ y ∷ ys)
    → (k' : Kernel) × (complete_task fuel k k.curr ≡ ok (os_ok, k'))
      × IsReady k' (y ∷ ys)
      × (k'.curr ≡ y)
      × (k'.state y ≡ running)
unfolding complete_task
complete_task-runs_next fuel k y ys b r =
    let (hd, g, e, linked, off, end) =
      remove_lem fuel k k.curr k.curr (y ∷ ys) b r.linked r.distinct in
    let k2 : Kernel = record k {
      next = g;
      ready_head = hd;
      state = update k.state k.curr complete;
    } in
    let r2 : IsReady k2 (y ∷ ys) = record {
      linked = rw (==_refl k.curr) at linked;
      distinct = r.distinct.1;
      sorted = r.sorted.1;
    } in
    let (k', s, c, urgent, r', switched, frame, others) = sched-most_urgent k2 y ys r2 in
    (k', rw (==_refl k.curr) (rw (e, s) refl), r', c, (switched r.distinct.0.0).1)
