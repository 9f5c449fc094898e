-- ===== src/WaitQueue/Wakeup.antt =====
-- `rx_wakeup`: the first wait queue of the system's list, and any other one.
use rosx.Base.{
  ℕ, zero, suc, ◌+◌, ◌<◌, ◌≡◌, refl, sym, ap, ◌∙◌, ◌≢◌, inl, inr, false, Option, none, some, List,
  [], ◌∷◌, same, ◌==◌, ==_refl, ==_ne, update, update_self, update_ne, Bool-cases, Option-cases,
  subst, ok, null_deref, out_of_fuel,
}
use rosx.Base.Lists.{length, NotIn, Distinct, Apart}
use rosx.Base.Links.{IsList, AgreeOff}
use rosx.Kernel.{Kernel}
use rosx.ReadyQueue.Wake.{insert_all}
use rosx.ReadyQueue.Spec.{IsReady}
use rosx.WaitQueue.{WaitQueues, wakeup, take_out, pop_front, join, ride_to}
use rosx.WaitQueue.Woken.{IsWoken, wake_every_lem}

pop_front_lem :
    (w : WaitQueues) (wq : ℕ) (qs : List ℕ)
    → IsList w.next (w.next wq) qs
    → IsList w.next (pop_front w wq).head qs
      × ((pop_front w wq).next ≡ w.next)
      × ((pop_front w wq).task ≡ w.task)
unfolding pop_front
pop_front_lem w wq [] l = rw (l, pop_front) (refl, refl, refl)
pop_front_lem w wq (y ∷ ys) l = rw (l.0, pop_front) ((refl, l.1), refl, refl)

-- A wake-up of the first wait queue makes all its tasks ready, whatever they wait for, and takes
-- the queue off the system's list. The other wait queues keep their heads, and the links of all
-- tasks but the ready ones and those woken are unchanged, so that they lose no task.
pub wakeup-wakes_all :
    (rounds fuel : ℕ) (w : WaitQueues) (k : Kernel) (wq : ℕ) (ts qs xs : List ℕ)
    → length ts < rounds
    → length xs + length ts < fuel
    → IsReady k xs
    → IsList k.next (w.task wq) ts
    → Distinct ts
    → Apart ts xs
    → IsList w.next w.head (wq ∷ qs)
    → (w' : WaitQueues) × (k' : Kernel) × (wakeup rounds fuel w k wq ≡ ok (w', k'))
      × IsReady k' (insert_all k.prio ts xs)
      × IsWoken k k' ts
      × (w'.task wq ≡ none)
      × AgreeOff (wq ∷ []) w.task w'.task
      × IsList w'.next w'.head qs
      × (w'.next ≡ w.next)
      × ((t : ℕ) → NotIn t ts → NotIn t xs → k'.next t ≡ k.next t)
unfolding wakeup pop_front
wakeup-wakes_all rounds fuel w k wq ts qs xs b c r l d a q =
    let (k1, e1, r1, woke, off) = wake_every_lem rounds fuel k (w.task wq) ts xs b c r l d a in
    let w1 : WaitQueues = record w { task = update w.task wq none } in
    let (rest, links, tasks) = pop_front_lem w1 wq qs q.1 in
    (
      pop_front w1 wq,
      k1,
      rw (e1, wakeup) (rw (q.0, ==_refl wq) refl),
      r1,
      woke,
      ap (λ f. f wq) tasks ∙ update_self w.task wq none,
      (λ p m. ap (λ f. f p) tasks ∙ update_ne w.task wq p none m.0),
      subst (λ f. IsList f (pop_front w1 wq).head qs) (sym links) rest,
      links,
      off,
    )

-- A wake-up of a wait queue that is not the first and has none behind it, as the last queue of the
-- list and a queue on which no task waits, dereferences NULL, once its tasks are ready.
wakeup-faults :
    (rounds fuel : ℕ) (w : WaitQueues) (k : Kernel) (wq : ℕ) (ts xs : List ℕ)
    → length ts < rounds
    → length xs + length ts < fuel
    → IsReady k xs
    → IsList k.next (w.task wq) ts
    → Distinct ts
    → Apart ts xs
    → same (some wq) w.head ≡ false
    → w.next wq ≡ none
    → wakeup rounds fuel w k wq ≡ null_deref
unfolding wakeup take_out
wakeup-faults rounds fuel w k wq ts xs b c r l d a other end =
    let (k1, e1, r1, woke, off) = wake_every_lem rounds fuel k (w.task wq) ts xs b c r l d a in
    rw (e1, wakeup)
      (rw other (elim (Option-cases (w.prev wq)) [
        | inl idle ↦ rw (idle, take_out) refl
        | inr found ↦
            rw (found.1, take_out)
              (elim (Bool-cases (wq == found.0)) [
                | inl e ↦ rw (end, e) refl
                | inr e ↦ rw (end, e) refl
              ])
      ]))

-- A wait queue that is woken while another one is behind it keeps its link. When a task waits on
-- it again the two queues follow each other in a circle, and a wait on a third queue never gets to
-- the end of the list.
pub wakeup-makes_circle :
    (rounds fuel m : ℕ) (w : WaitQueues) (k : Kernel) (p q other : ℕ) (ts xs : List ℕ)
    → length ts < rounds
    → length xs + length ts < fuel
    → IsReady k xs
    → IsList k.next (w.task p) ts
    → Distinct ts
    → Apart ts xs
    → IsList w.next w.head (p ∷ q ∷ [])
    → p ≢ q
    → other ≢ p
    → other ≢ q
    → (w1 w2 : WaitQueues) × (k1 : Kernel) × (wakeup rounds fuel w k p ≡ ok (w1, k1))
      × (join (suc m) w1 p ≡ ok w2)
      × (w2.next q ≡ some p)
      × (w2.next p ≡ some q)
      × ((n : ℕ) → join n w2 other ≡ out_of_fuel)
unfolding join ride_to
wakeup-makes_circle rounds fuel m w k p q other ts xs b c r l d a on ne op oq =
    let (w1, k1, e1, r1, woke, empty, tasks, rest, links, off) =
      wakeup-wakes_all rounds fuel w k p ts (q ∷ []) xs b c r l d a on in
    let w2 : WaitQueues = record w1 {
      next = update w1.next q (some p);
      prev = update w1.prev p (some q);
      head = some q;
    } in
    let next_q : w2.next q ≡ some p = update_self w1.next q (some p) in
    let next_p : w2.next p ≡ some q =
      update_ne w1.next q p (some p) ne ∙ (ap (λ f. f p) links ∙ on.1.0) in
    (
      w1,
      w2,
      k1,
      e1,
      ap (λ (o : Option ℕ). join (suc m) (record w1 { head = o }) p) rest.0
          ∙ rw (rest.1, ride_to, ==_ne q p (λ e. ne (sym e))) refl,
      next_q,
      next_p,
      (λ n. rw (circle w2.next next_p next_q n).1 refl),
    )
  where
    circle :
        (nx : ℕ → Option ℕ)
        → nx p ≡ some q
        → nx q ≡ some p
        → (n : ℕ) → (ride_to n nx other p ≡ out_of_fuel) × (ride_to n nx other q ≡ out_of_fuel)
    circle nx ep eq zero = (refl, refl)
    circle nx ep eq (suc n) =
        let (fst, snd) = circle nx ep eq n in
        (
          rw (ep, ride_to) (rw (==_ne p other (λ e. op (sym e))) snd),
          rw (eq, ride_to) (rw (==_ne q other (λ e. oq (sym e))) fst),
        )
