-- ===== src/WaitQueue/Loops.antt =====
-- `__rx_wake` over the system's list of wait queues, and a wait whose timeout expired.
use rosx.Base.{
  ℕ, zero, suc, ◌+◌, ◌<◌, ◌≡◌, refl, sym, ap, ◌∙◌, Option, none, some, List, [], ◌∷◌, arith, subst,
  ==_refl, update, update_self, ok,
}
use rosx.Base.Lists.{length, NotIn, Distinct, Apart}
use rosx.Base.Links.{IsList, IsList-update, AgreeOff}
use rosx.Kernel.{Kernel}
use rosx.ReadyQueue.Wake.{insert_all}
use rosx.ReadyQueue.Spec.{IsReady}
use rosx.WaitQueue.{WaitQueues, wakes, wake_queues, wake_all, drop_front}
use rosx.WaitQueue.Woken.{IsWoken}
use rosx.WaitQueue.Wakes.{woken, left, wake_tasks-filters}

-- The first queue of the list, emptied, leaves it.
drop_front_lem :
    (w : WaitQueues) (wq : ℕ) (qs : List ℕ)
    → IsList w.next (w.next wq) qs
    → NotIn wq qs
    → IsList (update w.next wq none) (drop_front w wq).head qs
      × ((drop_front w wq).next ≡ update w.next wq none)
      × ((drop_front w wq).task ≡ w.task)
unfolding drop_front
drop_front_lem w wq [] l n = rw (l, drop_front) (refl, refl, refl)
drop_front_lem w wq (y ∷ ys) l n =
    rw (l.0, drop_front) (IsList-update w.next (some y) (y ∷ ys) wq none n (refl, l.1), refl, refl)

wake_queues-end :
    (m fuel : ℕ) (w : WaitQueues) (k : Kernel) {o : Option ℕ}
    → o ≡ none
    → wake_queues (suc m) fuel w k o ≡ ok (w, k)
unfolding wake_queues
wake_queues-end m fuel w k e = rw (e, wake_queues) refl

-- If every task of the first wait queue is to be woken, the queue leaves the system's list and the
-- walk ends there: the tasks of the queues behind it are not woken, whatever they wait for, and
-- these queues stay on the list.
wake_all-stops_early :
    (rounds fuel : ℕ) (w : WaitQueues) (k : Kernel) (wq : ℕ) (ws qs xs : List ℕ)
    → 1 < rounds
    → length xs + length ws < fuel
    → IsReady k xs
    → IsList w.next w.head (wq ∷ qs)
    → NotIn wq qs
    → IsList k.next (w.task wq) ws
    → Distinct ws
    → Apart ws xs
    → left (wakes k) ws ≡ []
    → (w' : WaitQueues) × (k' : Kernel) × (wake_all rounds fuel w k ≡ ok (w', k'))
      × IsReady k' (insert_all k.prio (woken (wakes k) ws) xs)
      × IsWoken k k' (woken (wakes k) ws)
      × IsList w'.next w'.head qs
      × AgreeOff (wq ∷ []) w.task w'.task
unfolding wake_all wake_queues
wake_all-stops_early zero fuel w k wq ws qs xs b c r i n l d a all = absurd (omega arith)
wake_all-stops_early (suc zero) fuel w k wq ws qs xs b c r i n l d a all = absurd (omega arith)
wake_all-stops_early (suc (suc m)) fuel w k wq ws qs xs b c r i n l d a all =
    let (w1, k1, e1, queue, r1, woke, off, frame, tasks) =
      wake_tasks-filters fuel fuel w k wq ws xs (omega arith) c r l d a in
    let empty : w1.task wq ≡ none = subst (λ ts. IsList k1.next (w1.task wq) ts) all queue in
    let links : IsList w1.next (w1.next wq) qs =
      subst (λ (f : ℕ → Option ℕ). IsList f (f wq) qs) (sym (ap (λ z. z.next) frame)) i.1 in
    let at_head : w1.head ≡ some wq = ap (λ z. z.head) frame ∙ i.0 in
    let (rest, nx, same_tasks) = drop_front_lem w1 wq qs links n in
    let end : (drop_front w1 wq).next wq ≡ none = ap (λ f. f wq) nx ∙ update_self w1.next wq none in
    (
      drop_front w1 wq,
      k1,
      ap (λ o. wake_queues (suc (suc m)) fuel w k o) i.0
          ∙ rw (e1, wake_queues)
              (rw (empty, at_head)
                (rw (==_refl wq) (wake_queues-end m fuel (drop_front w1 wq) k1 end))),
      r1,
      woke,
      subst (λ f. IsList f (drop_front w1 wq).head qs) (sym nx) rest,
      (λ q m. ap (λ f. f q) same_tasks ∙ tasks q m),
    )
