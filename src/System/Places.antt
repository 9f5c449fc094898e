-- ===== src/System/Places.antt =====
-- What `rx_set_task_prio` and the clock interrupt's time slice, which move a task within the ready
-- queue, leave of it.
use rosx.Base.{
  ℕ, zero, suc, ◌<◌, ◌≡◌, ◌≢◌, refl, ap, ◌∙◌, subst, inl, inr, true, ◌||◌, some, List, [], ◌∷◌,
  arith, ◌==◌, Bool-cases, update, update_self, ok, if◌then◌else◌, same, Run, ◌>>=◌,
}
use rosx.Base.Int.{pos, dec, is_zero, ltb_ℤ}
use rosx.Base.Lists.{length, NotIn, erase, length-erase, NotIn-erase_self, Distinct-erase}
use rosx.Kernel.{TaskState, ready, running, Status, os_ok, Kernel}
use rosx.ReadyQueue.{is_runnable, remove_from_ready_q, add_to_ready_q}
use rosx.ReadyQueue.Spec.{insert, IsSorted-update}
use rosx.ReadyQueue.Remove.{remove_lem, remove_from_ready_q-empty, IsSorted-erase}
use rosx.Sched.{slice_end, time_slice_tick}
use rosx.Task.{is_ready, set_task_prio, task_complete, task_abort}
use rosx.System.Queue.{
  Sound, alive_curr, In-erase, NotIn-absent, faults, returned, state_off, prio_off, state_on,
  remove-Sound, add-Sound,
}
use rosx.System.Services.{Leaves, call-Leaves, idle}

may_run : (st : TaskState) → is_ready st ≡ true → is_runnable st ≡ true
may_run st e = ground arith

-- A ready task moves to its place by a new priority.
moved :
    {ds : List ℕ} (fuel t p : ℕ) (k : Kernel) (xs : List ℕ) (r : Run (Status × Kernel))
    → length xs < fuel
    → Sound ds k xs
    → is_ready (k.state t) ≡ true
    → r ≡ (do
      k2 ← remove_from_ready_q fuel (record k { prio = update k.prio t p }) t
      (_, k3) ← add_to_ready_q fuel k2 t
      ok (os_ok, k3))
    → (s : Status) (k' : Kernel) → r ≡ ok (s, k')
    → Leaves ds k'
moved {ds} zero t p k xs r b z e is s k' ran = absurd (omega arith)
moved {ds} (suc f) t p k [] r b z e is s k' ran =
    let k1 : Kernel = record k { prio = update k.prio t p } in
    absurd (faults (is ∙ rw (remove_from_ready_q-empty f k1 t z.queue.linked) refl) ran)
moved {ds} (suc f) t p k (x ∷ xs) r b z e is s k' ran =
    let k1 : Kernel = record k { prio = update k.prio t p } in
    let (hd, g, removed, linked, off, end) =
      remove_lem (suc f) k1 t x xs b z.queue.linked z.queue.distinct in
    let ys : List ℕ = erase t (x ∷ xs) in
    let gone : NotIn t ys = NotIn-erase_self t (x ∷ xs) z.queue.distinct in
    let z2 : Sound ds (record k1 { next = g; ready_head = hd }) ys = record {
      queue = record {
        linked = linked;
        distinct = Distinct-erase t (x ∷ xs) z.queue.distinct;
        sorted =
            IsSorted-update k.prio t p ys gone (IsSorted-erase k.prio t (x ∷ xs) z.queue.sorted);
      };
      runnable = λ q i. z.runnable q (In-erase q t (x ∷ xs) i);
      over = z.over;
    } in
    let (k3, added, z3) =
      add-Sound (suc f) (record k1 { next = g; ready_head = hd }) t ys
        (omega (arith, length-erase t (x ∷ xs))) z2 gone (may_run (k.state t) e) in
    call-Leaves os_ok (insert k1.prio t ys) z3 (is ∙ rw (removed, added) refl) ran

-- A task that is ready, or that is not on the queue, gets its priority and its place by it.
pub set_task_prio-Sound :
    {ds : List ℕ} (fuel t p : ℕ) (k k' : Kernel) (s : Status) (xs : List ℕ)
    → length xs < fuel
    → Sound ds k xs
    → k.state t ≢ running
    → set_task_prio fuel k t p ≡ ok (s, k')
    → Leaves ds k'
unfolding set_task_prio
set_task_prio-Sound {ds} fuel t p k k' s xs b z n ran =
    elim (Bool-cases (p == k.prio t || (k.prio t == task_complete || k.prio t == task_abort))) [
      | inl stuck ↦ call-Leaves os_ok xs z (rw stuck refl) ran
      | inr moves ↦ elim (Bool-cases (is_ready (k.state t))) [
        | inr e ↦
            let away : NotIn t xs =
              NotIn-absent t xs (λ i. idle (k.state t) n e (z.runnable t i)) in
            call-Leaves os_ok xs (prio_off k t p xs away z) (rw moves (rw e refl)) ran
        | inl e ↦
            moved fuel t p k xs (set_task_prio fuel k t p) b z e (rw moves (rw e refl)) s k' ran
      ]
    ]

-- The last steps of `slice_end`.
slice_over :
    {ds : List ℕ} (k : Kernel) (xs : List ℕ)
    → Sound ds k xs
    → {r : Run Kernel}
    → r ≡ (
        if same (some k.curr) k.ready_head
        then ok (record k {
          ticks = update k.ticks k.curr (k.time_slice k.curr);
          state = update k.state k.curr running;
        })
        else ok (record k { need_resched = true }))
    → (k' : Kernel) → r ≡ ok k'
    → Leaves ds k'
slice_over {ds} k xs z is k' ran = elim (Bool-cases (same (some k.curr) k.ready_head)) [
  | inl e ↦
      let z1 = state_on k k.curr running xs refl (alive_curr running z) z in
      let z2 : Sound ds
          (record k {
            ticks = update k.ticks k.curr (k.time_slice k.curr);
            state = update k.state k.curr running;
          })
          xs =
        record {
          queue = record {
            linked = z.queue.linked;
            distinct = z.queue.distinct;
            sorted = z.queue.sorted;
          };
          runnable = z1.runnable;
          over = z1.over;
        } in
      (xs, subst (λ w. Sound ds w xs) (returned (is ∙ rw e refl) ran) z2)
  | inr e ↦
      let z2 : Sound ds (record k { need_resched = true }) xs = record {
        queue = record {
          linked = z.queue.linked;
          distinct = z.queue.distinct;
          sorted = z.queue.sorted;
        };
        runnable = z.runnable;
        over = z.over;
      } in
      (xs, subst (λ w. Sound ds w xs) (returned (is ∙ rw e refl) ran) z2)
]

-- The end of a time slice, whether or not the running task is on the queue.
slice_end-Sound :
    {ds : List ℕ} (fuel : ℕ) (k k' : Kernel) (xs : List ℕ)
    → length xs < fuel
    → Sound ds k xs
    → slice_end fuel k ≡ ok k'
    → Leaves ds k'
unfolding slice_end
slice_end-Sound {ds} zero k k' xs b z ran = absurd (omega arith)
slice_end-Sound {ds} (suc f) k k' [] b z ran =
    absurd (faults (rw (remove_from_ready_q-empty f k k.curr z.queue.linked) refl) ran)
slice_end-Sound {ds} (suc f) k k' (x ∷ xs) b z ran =
    let (k1, removed, z1, gone, frame) = remove-Sound (suc f) k k.curr x xs b z in
    let ys : List ℕ = erase k.curr (x ∷ xs) in
    let away : NotIn k1.curr ys = rw (ap (λ w. w.curr) frame) gone in
    let k2 : Kernel = record k1 { state = update k1.state k1.curr ready } in
    let (k3, added, z3) =
      add-Sound (suc f) k2 k1.curr ys (omega (arith, length-erase k.curr (x ∷ xs)))
        (state_off k1 k1.curr ready ys away (alive_curr ready z1) z1) away
        (rw (update_self k1.state k1.curr ready) refl) in
    let zs : List ℕ = insert k1.prio k1.curr ys in
    slice_over k3 zs z3 (rw (removed, added) refl) k' ran

pub tick-Sound :
    {ds : List ℕ} (fuel : ℕ) (k k' : Kernel) (xs : List ℕ)
    → length xs < fuel
    → Sound ds k xs
    → time_slice_tick fuel k ≡ ok k'
    → Leaves ds k'
unfolding time_slice_tick
tick-Sound {ds} fuel k k' xs b z ran =
    let k1 : Kernel = record k { ticks = update k.ticks k.curr (dec (k.ticks k.curr)) } in
    let z1 : Sound ds k1 xs = record {
      queue = record {
        linked = z.queue.linked;
        distinct = z.queue.distinct;
        sorted = z.queue.sorted;
      };
      runnable = z.runnable;
      over = z.over;
    } in
    elim (Bool-cases (ltb_ℤ (pos 0) (k.time_slice k.curr))) [
      | inr off ↦ (
        xs,
        subst (λ w. Sound ds w xs) (returned {r = time_slice_tick fuel k} (rw off refl) ran) z,
      )
      | inl on ↦ elim (Bool-cases (is_zero (k1.ticks k1.curr))) [
        | inl e ↦ slice_end-Sound fuel k1 k' xs b z1 (simp (on, e) at ran)
        | inr e ↦ (
          xs,
          subst (λ w. Sound ds w xs)
              (returned {r = time_slice_tick fuel k} {a = k1} (rw on (rw e refl)) ran) z1,
        )
      ]
    ]
