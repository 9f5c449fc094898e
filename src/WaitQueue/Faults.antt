-- ===== src/WaitQueue/Faults.antt =====
-- `__rx_wake` with two wait queues on the system's list.
use rosx.Base.{
  ℕ, zero, suc, ◌+◌, ◌≤◌, ◌<◌, ◌≡◌, refl, sym, ap, ◌∙◌, ◌≢◌, inl, inr, Bool, false, none, some,
  List, [], ◌∷◌, ◌++◌, arith, subst, same, ◌==◌, ==_ne, Bool-cases, Option-cases, ok, null_deref,
}
use rosx.Base.Lists.{
  length, NotIn, Distinct, Apart, Apart-sym, Apart-tail, NotIn-append, NotIn-append_left,
  NotIn-append_right,
}
use rosx.Base.Links.{IsList, IsList-agree}
use rosx.Kernel.{Kernel}
use rosx.ReadyQueue.Wake.{insert_all, Apart-insert}
use rosx.ReadyQueue.Spec.{insert, IsReady, length-insert}
use rosx.WaitQueue.{WaitQueues, wakes, wake_tasks, wake_queues, wake_all, take_out}
use rosx.WaitQueue.Woken.{IsWoken}
use rosx.WaitQueue.Wakes.{woken, left, wake_tasks-filters}

module _ (p : ℕ → Bool) where
  NotIn-woken : (a : ℕ) (ts : List ℕ) → NotIn a ts → NotIn a (woken p ts)
  NotIn-woken a [] n = tt
  NotIn-woken a (t ∷ ts) n = elim (Bool-cases (p t)) [
    | inl e ↦ rw e (n.0, NotIn-woken a ts n.1)
    | inr e ↦ rw e (NotIn-woken a ts n.1)
  ]

  length-woken : (ts : List ℕ) → length (woken p ts) ≤ length ts
  length-woken [] = omega arith
  length-woken (t ∷ ts) = elim (Bool-cases (p t)) [
    | inl e ↦ rw e (omega (arith, length-woken ts))
    | inr e ↦ rw e (omega (arith, length-woken ts))
  ]

  Apart-woken : (bs ts : List ℕ) → Apart bs ts → Apart bs (woken p ts)
  Apart-woken [] ts a = tt
  Apart-woken (b ∷ bs) ts a = (NotIn-woken b ts a.0, Apart-woken bs ts a.1)

length-insert_all :
    (prio : ℕ → ℕ) (ts xs : List ℕ) → length (insert_all prio ts xs) ≡ length ts + length xs
length-insert_all prio [] xs = omega arith
length-insert_all prio (t ∷ ts) xs =
    omega (arith, length-insert_all prio ts (insert prio t xs), length-insert prio t xs)

Apart-append : (bs ts xs : List ℕ) → Apart bs ts → Apart bs xs → Apart bs (ts ++ xs)
Apart-append [] ts xs a h = tt
Apart-append (b ∷ bs) ts xs a h = (NotIn-append b ts xs a.0 h.0, Apart-append bs ts xs a.1 h.1)

Apart-insert_all :
    (prio : ℕ → ℕ) (bs ts xs : List ℕ)
    → Apart bs ts
    → Apart bs xs
    → Apart bs (insert_all prio ts xs)
Apart-insert_all prio bs [] xs a h = h
Apart-insert_all prio bs (t ∷ ts) xs a h =
    Apart-insert_all prio bs ts (insert prio t xs) (Apart-tail t bs ts a)
      (Apart-insert prio t bs xs (Apart-sym bs (t ∷ ts) a).0 h)

left_same :
    (k k1 : Kernel) (ts bs : List ℕ)
    → IsWoken k k1 ts
    → Apart bs ts
    → left (wakes k1) bs ≡ left (wakes k) bs
left_same k k1 ts [] w a = refl
left_same k k1 ts (b ∷ bs) w a =
    let same_wakes : wakes k1 b ≡ wakes k b =
      rw (w.others b a.0) (rw (ap (λ z. z.timeout) w.frame) refl) in
    rw same_wakes (rw (left_same k k1 ts bs w a.1) refl)

take_out-faults : (w : WaitQueues) (wq : ℕ) → w.next wq ≡ none → take_out w wq ≡ null_deref
unfolding take_out
take_out-faults w wq end = elim (Option-cases (w.prev wq)) [
  | inl idle ↦ rw (idle, take_out) refl
  | inr found ↦
      rw (found.1, take_out)
        (elim (Bool-cases (wq == found.0)) [ inl e ↦ rw (end, e) refl | inr e ↦ rw (end, e) refl ])
]

module _ (m fuel : ℕ) (w w1 : WaitQueues) (k k1 : Kernel) (wq : ℕ)
    (e : wake_tasks fuel fuel w k wq (w.task wq) (w.task wq) ≡ ok (w1, k1)) where
  wake_queues-stays :
      (t : ℕ)
      → w1.task wq ≡ some t
      → wake_queues (suc m) fuel w k (some wq) ≡ wake_queues m fuel w1 k1 (w1.next wq)
  unfolding wake_queues
  wake_queues-stays t s = rw e (rw s refl)

  wake_queues-stuck :
      w1.task wq ≡ none
      → same (some wq) w1.head ≡ false
      → w1.next wq ≡ none
      → wake_queues (suc m) fuel w k (some wq) ≡ null_deref
  unfolding wake_queues
  wake_queues-stuck s n end = rw e (rw s (rw n (rw (take_out-faults w1 wq end) refl)))

-- If a task stays in the first of two wait queues and all the tasks of the second one are to be
-- woken, the event thread dereferences NULL: the second queue is to be taken out of the list, and
-- there is none behind it.
wake_all-faults :
    (rounds fuel : ℕ) (w : WaitQueues) (k : Kernel) (a b t : ℕ) (ts us bs xs : List ℕ)
    → 1 < rounds
    → length xs + length us + length bs < fuel
    → IsReady k xs
    → IsList w.next w.head (a ∷ b ∷ [])
    → a ≢ b
    → IsList k.next (w.task a) us
    → IsList k.next (w.task b) bs
    → Distinct us
    → Distinct bs
    → Apart us xs
    → Apart bs xs
    → Apart bs us
    → left (wakes k) us ≡ t ∷ ts
    → left (wakes k) bs ≡ []
    → wake_all rounds fuel w k ≡ null_deref
unfolding wake_all
wake_all-faults zero fuel w k a b t ts us bs xs m c r i ne l l' d d' ax bx ba stay all =
    absurd (omega arith)
wake_all-faults (suc zero) fuel w k a b t ts us bs xs m c r i ne l l' d d' ax bx ba stay all =
    absurd (omega arith)
wake_all-faults (suc (suc m)) fuel w k a b t ts us bs xs two c r i ne l l' d d' ax bx ba stay all =
    let (w1, k1, e1, queue, r1, woke, off, frame, tasks) =
      wake_tasks-filters fuel fuel w k a us xs (omega arith) (omega arith) r l d ax in
    let stays : w1.task a ≡ some t = (subst (λ zs. IsList k1.next (w1.task a) zs) stay queue).0 in
    let gone : List ℕ = woken (wakes k) us in
    let apart : Apart bs gone = Apart-woken (wakes k) bs us ba in
    let at_b : w1.task b ≡ w.task b = tasks b ((λ e. ne (sym e)), tt) in
    let queue_b : IsList k1.next (w1.task b) bs =
      subst (λ o. IsList k1.next o bs) (sym at_b)
        (IsList-agree k.next k1.next (w.task b) (us ++ xs) bs
          (λ q n. off q (NotIn-append_left q us xs n) (NotIn-append_right q us xs n))
          (Apart-append bs us xs ba bx) l') in
    let (w2, k2, e2, queue2, r2, woke2, off2, frame2, tasks2) =
      wake_tasks-filters fuel fuel w1 k1 b bs (insert_all k.prio gone xs) (omega arith)
        (omega (arith, length-insert_all k.prio gone xs, length-woken (wakes k) us)) r1 queue_b d'
        (Apart-insert_all k.prio bs gone xs apart bx) in
    let empty : w2.task b ≡ none =
      subst (λ zs. IsList k2.next (w2.task b) zs) (left_same k k1 gone bs woke apart ∙ all)
        queue2 in
    let head2 : w2.head ≡ some a = ap (λ z. z.head) frame2 ∙ (ap (λ z. z.head) frame ∙ i.0) in
    let end : w2.next b ≡ none = ap (λ z. z.next b) frame2 ∙ (ap (λ z. z.next b) frame ∙ i.1.1) in
    let next1 : w1.next a ≡ some b = ap (λ z. z.next a) frame ∙ i.1.0 in
    ap (λ o. wake_queues (suc (suc m)) fuel w k o) i.0
    ∙ (wake_queues-stays (suc m) fuel w w1 k k1 a e1 t stays
        ∙ (ap (λ o. wake_queues (suc m) fuel w1 k1 o) next1
            ∙ wake_queues-stuck m fuel w1 w2 k1 k2 b e2 empty
                (ap (λ o. same (some b) o) head2 ∙ ==_ne b a (λ e. ne (sym e))) end))
