-- ===== src/Interrupt/Preempt.antt =====
-- Preemption at the end of an interrupt.
use rosx.Base.{
  ℕ, ◌+◌, ◌%◌, ◌^◌, ◌≡◌, ◌≢◌, refl, sym, ◌∙◌, true, false, Option, some, List, ◌∷◌, update,
  update_self, Run, ok,
}
use rosx.Kernel.{ready, running, Kernel}
use rosx.ReadyQueue.Spec.{IsReady, NoneAbove}
use rosx.Sched.Laws.{sched-most_urgent}
use rosx.Interrupt.{Irqs, irq_handler, sig_handler}

-- The simulator's entry for a line that has a handler.
entry_lem :
    {S : Type 0} (call : (handler irq : ℕ) → Option ℕ → S → Run S) (r : Irqs) (irq h : ℕ) (s s' : S)
    → r.handler irq ≡ some h
    → call h irq (r.dev_id irq) s ≡ ok s'
    → irq_handler call r irq s ≡ ok (record r { raw_counter = (r.raw_counter + 1) % 2 ^ 32 }, s')
unfolding irq_handler
entry_lem call r irq h s s' held run = simp (held, irq_handler) (simp run refl)

-- If the handler of an interrupt asks for a reschedule and another task heads the ready queue, then
-- after the interrupt that task runs, which no ready task is more urgent than; the interrupted
-- task is ready, and the request is gone.
pub sig_handler-preempts :
    {S : Type 0} (call : (handler irq : ℕ) → Option ℕ → S × Kernel → Run (S × Kernel)) (r : Irqs)
    (irq h y : ℕ) (ys : List ℕ) (s s1 : S) (k k1 : Kernel)
    → r.handler irq ≡ some h
    → call h irq (r.dev_id irq) (s, k) ≡ ok (s1, k1)
    → k1.need_resched ≡ true
    → k1.curr ≡ k.curr
    → k.curr ≢ y
    → IsReady k1 (y ∷ ys)
    → (r' : Irqs) × (k' : Kernel) × (sig_handler call r irq s k ≡ ok (r', s1, k'))
      × (k'.curr ≡ y)
      × (k'.state y ≡ running)
      × (k'.state k.curr ≡ ready)
      × (k'.need_resched ≡ false)
      × IsReady k' (y ∷ ys)
      × NoneAbove k'.prio (k'.prio k'.curr) ys
unfolding sig_handler
sig_handler-preempts call r irq h y ys s s1 k k1 held run asked same ne q =
    let k2 : Kernel = record k1 { need_resched = false; state = update k1.state k.curr ready } in
    let q2 : IsReady k2 (y ∷ ys) = record {
      linked = q.linked;
      distinct = q.distinct;
      sorted = q.sorted;
    } in
    let (k3, e, at_y, urgent, q3, switched, frame, others) = sched-most_urgent k2 y ys q2 in
    let (calm, runs) = switched (λ z. ne (sym same ∙ z)) in
    (
      record r { raw_counter = (r.raw_counter + 1) % 2 ^ 32 },
      k3,
      rw (entry_lem call r irq h (s, k) (s1, k1) held run, sig_handler) (rw asked (rw e refl)),
      at_y,
      runs,
      others k.curr ne ∙ update_self k1.state k.curr ready,
      calm,
      q3,
      urgent,
    )
