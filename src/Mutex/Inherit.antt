-- ===== src/Mutex/Inherit.antt =====
-- Priority inheritance in `rx_mutex_lock`.
use rosx.Base.{
  ℕ, suc, ◌<◌, ◌≡◌, ◌≢◌, refl, sym, ap, ◌∙◌, subst, true, Option, some, List, [], ◌∷◌, ◌++◌, arith,
  ltb_yes, leb, Bool-cases, inl, inr, update, update_self, update_ne, Run, ok, ◌>>=◌, deref,
}
use rosx.Base.Int.{negsuc}
use rosx.Base.Lists.{
  length, NotIn, Distinct, Distinct-erase, Apart, Apart-sym, Apart-cons, Apart-tail, Apart-snoc,
  erase, In, length-erase, NotIn-erase, NotIn-erase_self, NotIn-Apart,
}
use rosx.Base.Links.{IsList, IsList-agree, AgreeOff}
use rosx.Kernel.{suspend, ready, Kernel}
use rosx.ReadyQueue.Spec.{insert, NotIn-insert, IsReady, IsSorted-update, NoneAbove}
use rosx.ReadyQueue.Add.{add_to_ready_q-refines}
use rosx.ReadyQueue.Remove.{remove_lem, IsSorted-erase}
use rosx.ReadyQueue.Park.{park_lem}
use rosx.Sched.{sched}
use rosx.Sched.Laws.{sched-most_urgent}
use rosx.Mutex.{Mutex, lock, enqueue, lend, rearrange, Outcome, sleeps}
use rosx.Mutex.Laws.{mutex_of}

-- The owner, ready and with a new priority, gets the place in the ready queue that this gives it.
rearrange_lem :
    (fuel : ℕ) (k : Kernel) (o p x : ℕ) (xs : List ℕ)
    → length (x ∷ xs) < fuel
    → IsReady k (x ∷ xs)
    → k.state o ≡ ready
    → (k' : Kernel) × (rearrange fuel (record k { prio = update k.prio o p }) o ≡ ok k')
      × IsReady k' (insert (update k.prio o p) o (erase o (x ∷ xs)))
      × AgreeOff (o ∷ x ∷ xs) k.next k'.next
      × (k' ≡ record k {
        prio = update k.prio o p;
        next = k'.next;
        ready_head = k'.ready_head;
        need_resched = k'.need_resched;
      })
unfolding rearrange
rearrange_lem fuel k o p x xs b r is =
    let k1 : Kernel = record k { prio = update k.prio o p } in
    let (hd, g, e, linked, off, end) = remove_lem fuel k1 o x xs b r.linked r.distinct in
    let k2 : Kernel = record k1 { next = g; ready_head = hd } in
    let gone : NotIn o (erase o (x ∷ xs)) = NotIn-erase_self o (x ∷ xs) r.distinct in
    let r2 : IsReady k2 (erase o (x ∷ xs)) = record {
      linked = linked;
      distinct = Distinct-erase o (x ∷ xs) r.distinct;
      sorted =
          IsSorted-update k.prio o p (erase o (x ∷ xs)) gone
            (IsSorted-erase k.prio o (x ∷ xs) r.sorted);
    } in
    let (k', e', r', off', frame) =
      add_to_ready_q-refines fuel k2 o (erase o (x ∷ xs)) (omega (arith, length-erase o (x ∷ xs)))
        r2 gone (rw is refl) in
    (
      k',
      rw is (rw (e, e') refl),
      r',
      (λ q m. off' q (m.0, NotIn-erase q o (x ∷ xs) m.1) ∙ off q m),
      frame,
    )

enqueue_lem :
    (fuel mutex : ℕ) (m : Mutex) (k : Kernel) (xs ws : List ℕ)
    → length (k.curr ∷ xs) < fuel
    → length ws < suc fuel
    → IsReady k (k.curr ∷ xs)
    → IsList k.next m.task ws
    → Distinct ws
    → Apart ws (k.curr ∷ xs)
    → (head hd : Option ℕ) × (g : ℕ → Option ℕ) × (enqueue fuel mutex m k
        ≡ ok (
          record m { task = head },
          record k {
            next = g;
            ready_head = hd;
            state = update k.state k.curr suspend;
            mutex = update k.mutex k.curr (some mutex);
          },
        ))
      × IsList g head (ws ++ k.curr ∷ [])
      × IsList g hd xs
unfolding enqueue
enqueue_lem fuel mutex m k xs ws b c r l d a =
    let (head, hd, g, g', e, e', queue, distinct, others) =
      park_lem fuel
        (record k {
          state = update k.state k.curr suspend;
          mutex = update k.mutex k.curr (some mutex);
        })
        m.task xs ws b c r.linked r.distinct l d a in
    (head, hd, g', rw (e, e') refl, queue, others)

insert-cons :
    (prio : ℕ → ℕ) (new : ℕ) (xs : List ℕ) → (z : ℕ) × (zs : List ℕ) × (insert prio new xs ≡ z ∷ zs)
unfolding insert
insert-cons prio new [] = (new, [], refl)
insert-cons prio new (x ∷ xs) = elim (Bool-cases (leb (prio x) (prio new))) [
  | inl e ↦ (x, insert prio new xs, rw e refl)
  | inr e ↦ (new, x ∷ xs, rw e refl)
]

-- The rest of a lock that waits for ever.
abbrev lent : ℕ → Mutex × Kernel → Run (Outcome × Mutex × Kernel)
lent fuel =
    λ p. do owner ← deref p.0.owner; k2 ← lend fuel p.1 owner; k3 ← sched k2; ok (sleeps, p.0, k3)

-- A task that waits for ever on a mutex held by a ready task of less urgent priority joins the
-- end of the wait queue and sleeps. The owner gets its priority, and the place in the ready queue
-- that this priority gives; the first task of that queue runs, and none in it is more urgent.
pub lock-lends :
    (fuel mutex o : ℕ) (task next : Option ℕ) (k : Kernel) (n tm handler y : ℕ) (ys ws : List ℕ)
    → length (k.curr ∷ y ∷ ys) < fuel
    → length ws < suc fuel
    → IsReady k (k.curr ∷ y ∷ ys)
    → IsList k.next task ws
    → Distinct ws
    → Apart ws (k.curr ∷ y ∷ ys)
    → In o (y ∷ ys)
    → k.state o ≡ ready
    → k.prio k.curr < k.prio o
    → (head : Option ℕ) × (k' : Kernel) × (zs : List ℕ) × (lock fuel mutex
          (mutex_of true (some o) task next)
          k
          (negsuc n)
          tm
          handler
        ≡ ok (sleeps, mutex_of true (some o) head next, k'))
      × IsList k'.next head (ws ++ k.curr ∷ [])
      × (k'.prio ≡ update k.prio o (k.prio k.curr))
      × (insert k'.prio o (erase o (y ∷ ys)) ≡ k'.curr ∷ zs)
      × IsReady k' (k'.curr ∷ zs)
      × (k'.state k.curr ≡ suspend)
      × NoneAbove k'.prio (k'.prio k'.curr) zs
unfolding lock lend
lock-lends fuel mutex o task next k n tm handler y ys ws b c r l d a i is less =
    let m : Mutex = mutex_of true (some o) task next in
    let (head, hd, g, e, queue, others) = enqueue_lem fuel mutex m k (y ∷ ys) ws b c r l d a in
    let k1 : Kernel = record k {
      next = g;
      ready_head = hd;
      state = update k.state k.curr suspend;
      mutex = update k.mutex k.curr (some mutex);
    } in
    let r1 : IsReady k1 (y ∷ ys) = record {
      linked = others;
      distinct = r.distinct.1;
      sorted = r.sorted.1;
    } in
    let ne : o ≢ k.curr = (λ e. absurd (omega (arith, ap k.prio e))) in
    let still : k1.state o ≡ ready = update_ne k.state k.curr o suspend ne ∙ is in
    let (k2, e2, r2, off2, frame2) =
      rearrange_lem fuel k1 o (k.prio k.curr) y ys (omega arith) r1 still in
    let (z, zs, split) = insert-cons (update k.prio o (k.prio k.curr)) o (erase o (y ∷ ys)) in
    let r3 : IsReady k2 (z ∷ zs) = subst (λ q. IsReady k2 q) split r2 in
    let (k', e', runs, urgent, r', switched, frame, states) = sched-most_urgent k2 z zs r3 in
    let prios : k'.prio ≡ update k.prio o (k.prio k.curr) =
      ap (λ q. q.prio) frame ∙ ap (λ q. q.prio) frame2 in
    let away : NotIn k.curr (z ∷ zs) =
      subst (λ q. NotIn k.curr q) split
        (NotIn-insert (update k.prio o (k.prio k.curr)) k.curr o (erase o (y ∷ ys))
          (λ e. ne (sym e)) (NotIn-erase k.curr o (y ∷ ys) r.distinct.0)) in
    let waiters : List ℕ = ws ++ k.curr ∷ [] in
    let clear : Apart waiters (y ∷ ys) =
      Apart-snoc ws k.curr (y ∷ ys) (Apart-tail k.curr ws (y ∷ ys) a) r.distinct.0 in
    let clear' : Apart waiters (o ∷ y ∷ ys) =
      Apart-cons o waiters (y ∷ ys)
        (NotIn-Apart o (y ∷ ys) waiters i (Apart-sym waiters (y ∷ ys) clear)) clear in
    (
      head,
      k',
      zs,
      ap (λ q. q >>= lent fuel) e ∙ rw (ltb_yes (k.prio k.curr) (k.prio o) less) (rw (e2, e') refl),
      subst (λ f. IsList f head waiters) (sym (ap (λ q. q.next) frame))
          (IsList-agree g k2.next head (o ∷ y ∷ ys) waiters off2 clear' queue),
      prios,
      rw (prios, runs) split,
      subst (λ q. IsReady k' (q ∷ zs)) (sym runs) r',
      states k.curr away.0 ∙ ap (λ q. q.state k.curr) frame2 ∙ update_self k.state k.curr suspend,
      urgent,
    )
