-- ===== src/System/Services.antt =====
-- What the calls that take a task off the ready queue or put it there leave of the queue:
-- `rx_suspend_task` of another task, `rx_resume_task` and `rx_abort_task`.
use rosx.Base.{
  ℕ, zero, suc, ◌<◌, ◌≡◌, ◌≢◌, refl, ap, ◌∙◌, subst, inl, inr, true, false, some, List, [], ◌∷◌,
  arith, ◌==◌, Bool-cases, update, update_self, ok, Run, ◌>>=◌,
}
use rosx.Base.Lists.{length, NotIn, erase}
use rosx.Kernel.{TaskState, suspend, ready, running, abort, Status, os_ok, os_err, Kernel}
use rosx.ReadyQueue.{is_runnable, remove_from_ready_q}
use rosx.ReadyQueue.Spec.{insert}
use rosx.ReadyQueue.Remove.{remove_from_ready_q-empty}
use rosx.Task.{is_ready, is_suspended, suspend_task, resume_task, abort_task}
use rosx.System.Queue.{
  Sound, is_over, alive, NotIn-absent, faults, returned, state_off, remove-Sound, add-Sound,
}

-- What a call makes of the kernel.
abbrev pub Leaves : List ℕ → Kernel → Type 0
Leaves ds k' = (ys : List ℕ) × Sound ds k' ys

slept : (st : TaskState) → is_suspended st ≡ true → is_over st ≡ false
slept st e = ground arith

waits : (st : TaskState) → is_ready st ≡ true → is_over st ≡ false
waits st e = ground arith

asleep : (st : TaskState) → is_suspended st ≡ true → is_runnable st ≡ true → ⊥
asleep st e f = ground arith

pub idle : (st : TaskState) → st ≢ running → is_ready st ≡ false → is_runnable st ≡ true → ⊥
idle st n e f = ground arith

-- A call whose result is known.
pub call-Leaves :
    {ds : List ℕ} {r : Run (Status × Kernel)} {s : Status} {k k' : Kernel} (s' : Status)
    (ys : List ℕ)
    → Sound ds k ys
    → r ≡ ok (s', k)
    → r ≡ ok (s, k')
    → Leaves ds k'
call-Leaves {ds} s' ys z run ran =
    (ys, subst (λ w. Sound ds w ys) (ap (λ p. p.1) (returned run ran)) z)

pub resume-Sound :
    {ds : List ℕ} (fuel t : ℕ) (k k' : Kernel) (s : Status) (xs : List ℕ)
    → length xs < fuel
    → Sound ds k xs
    → resume_task fuel k t ≡ ok (s, k')
    → Leaves ds k'
unfolding resume_task
resume-Sound {ds} fuel t k k' s xs b z ran = elim (Bool-cases (is_suspended (k.state t))) [
  | inr e ↦ call-Leaves os_err xs z (rw e refl) ran
  | inl e ↦
      let away : NotIn t xs = NotIn-absent t xs (λ i. asleep (k.state t) e (z.runnable t i)) in
      let k0 : Kernel = record k { state = update k.state t ready } in
      let (k1, run, z1) =
        add-Sound fuel k0 t xs b
          (state_off k t ready xs away (alive t ready z (slept (k.state t) e)) z) away
          (rw (update_self k.state t ready) refl) in
      call-Leaves os_ok (insert k.prio t xs) z1 (rw e (rw run refl)) ran
]

-- A ready task is taken off the queue and gets a state.
taken_off :
    {ds : List ℕ} (fuel t : ℕ) (st : TaskState) (k : Kernel) (xs : List ℕ)
    (r : Run (Status × Kernel))
    → length xs < fuel
    → Sound ds k xs
    → is_ready (k.state t) ≡ true
    → r ≡ (do
      k1 ← remove_from_ready_q fuel k t
      ok (os_ok, record k1 { state = update k1.state t st }))
    → (s : Status) (k' : Kernel) → r ≡ ok (s, k')
    → Leaves ds k'
taken_off {ds} zero t st k xs r b z e is s k' ran = absurd (omega arith)
taken_off {ds} (suc f) t st k [] r b z e is s k' ran =
    absurd (faults (is ∙ rw (remove_from_ready_q-empty f k t z.queue.linked) refl) ran)
taken_off {ds} (suc f) t st k (x ∷ xs) r b z e is s k' ran =
    let (k1, removed, z1, gone, frame) = remove-Sound (suc f) k t x xs b z in
    let z2 = state_off k1 t st (erase t (x ∷ xs)) gone (alive t st z (waits (k.state t) e)) z1 in
    call-Leaves os_ok (erase t (x ∷ xs)) z2 (is ∙ rw removed refl) ran

pub suspend-Sound :
    {ds : List ℕ} (fuel t : ℕ) (k k' : Kernel) (s : Status) (xs : List ℕ)
    → length xs < fuel
    → Sound ds k xs
    → suspend_task fuel k (some t) ≡ ok (s, k')
    → Leaves ds k'
unfolding suspend_task
suspend-Sound {ds} fuel t k k' s xs b z ran = elim (Bool-cases (is_ready (k.state t))) [
  | inl e ↦ taken_off fuel t suspend k xs (suspend_task fuel k (some t)) b z e (rw e refl) s k' ran
  | inr e ↦ call-Leaves os_ok xs z (rw e refl) ran
]

pub abort-Sound :
    {ds : List ℕ} (fuel t : ℕ) (k k' : Kernel) (s : Status) (xs : List ℕ)
    → length xs < fuel
    → Sound ds k xs
    → k.state t ≢ running
    → abort_task fuel k t ≡ ok (s, k')
    → Leaves ds k'
unfolding abort_task
abort-Sound {ds} fuel t k k' s xs b z n ran = elim (Bool-cases (t == k.curr)) [
  | inl own ↦ call-Leaves os_err xs z (rw own refl) ran
  | inr other ↦ elim (Bool-cases (is_ready (k.state t))) [
    | inl e ↦
        taken_off fuel t abort k xs (abort_task fuel k t) b z e (rw other (rw e refl)) s k' ran
    | inr e ↦
        let away : NotIn t xs = NotIn-absent t xs (λ i. idle (k.state t) n e (z.runnable t i)) in
        call-Leaves os_ok xs (state_off k t abort xs away (λ i. refl) z) (rw other (rw e refl)) ran
  ]
]
