-- ===== src/System/Switches.antt =====
-- What the calls that switch tasks leave of the ready queue: `rx_sched`, `rx_complete_task` and
-- `rx_suspend_task` of the running task.
use rosx.Base.{
  true, ◌≢◌, sym, ℕ, zero, suc, ◌<◌, ◌≡◌, refl, ap, ◌∙◌, subst, inl, inr, none, List, [], ◌∷◌,
  arith, ◌==◌, ==→eq, ==→ne, Bool-cases, update, ok, null_deref, out_of_fuel, Run, ◌>>=◌,
}
use rosx.Base.Lists.{length, erase}
use rosx.Kernel.{TaskState, suspend, complete, Status, os_ok, os_err, Kernel}
use rosx.ReadyQueue.{is_runnable, remove_from_ready_q}
use rosx.ReadyQueue.Remove.{remove_from_ready_q-empty}
use rosx.Sched.{sched, switch_to}
use rosx.Sched.Laws.{sched-most_urgent}
use rosx.Task.{suspend_task, complete_task}
use rosx.System.Queue.{Sound, is_over, alive_curr, faults, returned, state_off, remove-Sound}
use rosx.System.Services.{Leaves, call-Leaves}

dead : (st : TaskState) → is_over st ≡ true → is_runnable st ≡ true → ⊥
dead st e f = ground arith

pub sched-Sound :
    {ds : List ℕ} (k k' : Kernel) (xs : List ℕ) → Sound ds k xs → sched k ≡ ok k' → Leaves ds k'
unfolding sched switch_to
sched-Sound {ds} k k' [] z ran = absurd (faults (simp (z.queue.linked) refl) ran)
sched-Sound {ds} k k' (h ∷ xs) z ran = elim (Bool-cases (k.curr == h)) [
  | inl e ↦
      let run : sched k ≡ ok k = simp (z.queue.linked.0, e) refl in
      (h ∷ xs, subst (λ q. Sound ds q (h ∷ xs)) (returned run ran) z)
  | inr e ↦
      let (k2, run, runs, urgent, r', switched, frame, states) = sched-most_urgent k h xs z.queue in
      let next : Sound ds k2 (h ∷ xs) = record {
        queue = r';
        runnable = λ q i. elim (Bool-cases (q == h)) [
          | inl y ↦ rw (==→eq q h y) (rw ((switched (==→ne k.curr h e)).1) refl)
          | inr y ↦ rw (states q (==→ne q h y)) (z.runnable q i)
        ];
        over = λ q i.
            let other : q ≢ h = (λ e.
              dead (k.state h) (subst (λ w. is_over (k.state w) ≡ true) e ((z.over q i).0))
                (z.runnable h (inl refl))) in
            (rw (states q other) ((z.over q i).0), (λ e. other (sym e ∙ runs)));
      } in
      (h ∷ xs, subst (λ q. Sound ds q (h ∷ xs)) (returned run ran) next)
]

-- A call that ends with the scheduler.
rescheduled :
    {ds : List ℕ} (k : Kernel) (ys : List ℕ) (v : Run Kernel)
    → Sound ds k ys
    → sched k ≡ v
    → {r : Run (Status × Kernel)} → r ≡ (v >>= λ w. ok (os_ok, w))
    → (s : Status) (k' : Kernel) → r ≡ ok (s, k')
    → Leaves ds k'
rescheduled {ds} k ys (ok w) z runs is s k' ran =
    let (zs, z1) = sched-Sound k w ys z runs in call-Leaves os_ok zs z1 is ran
rescheduled {ds} k ys null_deref z runs is s k' ran = absurd (faults is ran)
rescheduled {ds} k ys out_of_fuel z runs is s k' ran = cc

-- The running task leaves the queue in a state, and the scheduler is called.
switched_off :
    {ds : List ℕ} (fuel : ℕ) (st : TaskState) (k : Kernel) (xs : List ℕ) (r : Run (Status × Kernel))
    (who : Kernel → ℕ)
    → length xs < fuel
    → Sound ds k xs
    → ((w : Kernel) → w.curr ≡ k.curr → who w ≡ k.curr)
    → r ≡ (do
      k1 ← remove_from_ready_q fuel k k.curr
      k2 ← sched (record k1 { state = update k1.state (who k1) st })
      ok (os_ok, k2))
    → (s : Status) (k' : Kernel) → r ≡ ok (s, k')
    → Leaves ds k'
switched_off {ds} zero st k xs r who b z same_task is s k' ran = absurd (omega arith)
switched_off {ds} (suc f) st k [] r who b z same_task is s k' ran =
    absurd (faults (is ∙ rw (remove_from_ready_q-empty f k k.curr z.queue.linked) refl) ran)
switched_off {ds} (suc f) st k (x ∷ xs) r who b z same_task is s k' ran =
    let (k1, removed, z1, gone, frame) = remove-Sound (suc f) k k.curr x xs b z in
    let k2 : Kernel = record k1 { state = update k1.state k.curr st } in
    let z2 : Sound ds k2 (erase k.curr (x ∷ xs)) =
      state_off k1 k.curr st (erase k.curr (x ∷ xs)) gone (alive_curr st z) z1 in
    let own : who k1 ≡ k.curr = same_task k1 (ap (λ w. w.curr) frame) in
    rescheduled k2 (erase k.curr (x ∷ xs)) (sched k2) z2 refl (is ∙ rw (removed, own) refl) s k' ran

pub suspend_self-Sound :
    {ds : List ℕ} (fuel : ℕ) (k k' : Kernel) (s : Status) (xs : List ℕ)
    → length xs < fuel
    → Sound ds k xs
    → suspend_task fuel k none ≡ ok (s, k')
    → Leaves ds k'
unfolding suspend_task
suspend_self-Sound {ds} fuel k k' s xs b z ran =
    switched_off fuel suspend k xs (suspend_task fuel k none) (λ w. w.curr) b z (λ w e. e) refl s k'
      ran

pub complete-Sound :
    {ds : List ℕ} (fuel t : ℕ) (k k' : Kernel) (s : Status) (xs : List ℕ)
    → length xs < fuel
    → Sound ds k xs
    → complete_task fuel k t ≡ ok (s, k')
    → Leaves ds k'
unfolding complete_task
complete-Sound {ds} fuel t k k' s xs b z ran = elim (Bool-cases (t == k.curr)) [
  | inr other ↦ call-Leaves os_err xs z (rw other refl) ran
  | inl own ↦
      switched_off fuel complete k xs (complete_task fuel k t) (λ w. t) b z
        (λ w e. ==→eq t k.curr own) (rw own (rw (==→eq t k.curr own) refl)) s k' ran
]
