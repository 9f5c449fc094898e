-- ===== src/WaitQueue/Wakes.antt =====
-- The tasks that leave a wait queue: `rx_wake_task_in_the_queue`.
use rosx.Base.{
  ℕ, zero, suc, ◌+◌, ◌<◌, ◌≡◌, refl, sym, ap, ◌∙◌, inl, inr, Bool, some, List, [], ◌∷◌, arith,
  subst, ==_refl, ==_ne, update, update_self, update_ne, if◌then◌else◌, Bool-cases, ok,
}
use rosx.Base.Lists.{length, NotIn, Distinct, Apart, Apart-cons}
use rosx.Base.Links.{IsList, IsList-update, IsList-agree, AgreeOff}
use rosx.Kernel.{ready, Kernel}
use rosx.ReadyQueue.Wake.{insert_all, Apart-insert}
use rosx.ReadyQueue.Spec.{insert, IsReady, length-insert, NotIn-insert}
use rosx.ReadyQueue.Add.{add_to_ready_q-refines}
use rosx.WaitQueue.Woken.{IsWoken, IsWoken-nil, IsWoken-cons}
use rosx.WaitQueue.{WaitQueues, wakes, wake_tasks}

module _ (decide : ℕ → Bool) where
  -- The tasks that are woken, and those that stay.
  abbrev pub woken : List ℕ → List ℕ
  woken [] = []
  woken (t ∷ ts) = if decide t then t ∷ woken ts else woken ts

  abbrev pub left : List ℕ → List ℕ
  left [] = []
  left (t ∷ ts) = if decide t then left ts else t ∷ left ts

  abbrev Decides : Kernel → List ℕ → Type 0
  Decides k [] = Unit
  Decides k (t ∷ ts) = (wakes k t ≡ decide t) × Decides k ts

  -- A task that is not on the list becomes ready.
  Decides-ready :
      (k k1 : Kernel) (t : ℕ) (ts : List ℕ)
      → k1.state ≡ update k.state t ready
      → k1.timeout ≡ k.timeout
      → NotIn t ts
      → Decides k ts
      → Decides k1 ts
  Decides-ready k k1 t [] e e' n d = tt
  Decides-ready k k1 t (u ∷ ts) e e' n d = (
    rw (e, e') (rw (update_ne k.state t u ready (λ q. n.0 (sym q))) d.0),
    Decides-ready k k1 t ts e e' n.1 d.1,
  )

  -- Behind the task `p`, which stays and is not the last node before the head `h`.
  behind_lem :
      (rounds fuel : ℕ) (w : WaitQueues) (k : Kernel) (wq h p : ℕ) (ws xs : List ℕ)
      → length ws < rounds
      → length xs + length ws < fuel
      → IsReady k xs
      → IsList k.next (k.next p) ws
      → Distinct (p ∷ ws)
      → Apart (p ∷ ws) xs
      → w.task wq ≡ some h
      → NotIn h ws
      → Decides k ws
      → (k' : Kernel) × (wake_tasks rounds fuel w k wq (some p) (k.next p) ≡ ok (w, k'))
        × IsList k'.next (k'.next p) (left ws)
        × IsReady k' (insert_all k.prio (woken ws) xs)
        × IsWoken k k' (woken ws)
        × ((q : ℕ) → NotIn q (p ∷ ws) → NotIn q xs → k'.next q ≡ k.next q)
  unfolding wake_tasks
  behind_lem zero fuel w k wq h p ws xs b c r l d a e n y = absurd (omega arith)
  behind_lem (suc f) fuel w k wq h p [] xs b c r l d a e n y =
      (k, rw (l, wake_tasks) refl, l, r, IsWoken-nil k, (λ q m m'. refl))
  behind_lem (suc f) fuel w k wq h p (t ∷ ws) xs b c r l d a e n y = elim (Bool-cases (decide t)) [
    | inl hit ↦
        let k0 : Kernel = record k {
          state = update k.state t ready;
          next = update k.next p (k.next t);
        } in
        let r0 : IsReady k0 xs = record {
          linked = IsList-update k.next k.ready_head xs p (k.next t) a.0 r.linked;
          distinct = r.distinct;
          sorted = r.sorted;
        } in
        let (k1, e1, r1, off, frame) =
          add_to_ready_q-refines fuel k0 t xs (omega arith) r0 a.1.0
            (rw (update_self k.state t ready) refl) in
        let at_p : k1.next p ≡ k.next t = off p (d.0.0, a.0) ∙ update_self k.next p (k.next t) in
        let prios : k1.prio ≡ k.prio = ap (λ z. z.prio) frame in
        let rest : IsList k1.next (k.next t) ws =
          IsList-agree k0.next k1.next (k.next t) (t ∷ xs) ws off (Apart-cons t ws xs d.1.0 a.1.1)
            (IsList-update k.next (k.next t) ws p (k.next t) d.0.1 l.1) in
        let (k', e', queue, r', w', off') =
          behind_lem f fuel w k1 wq h p ws (insert k.prio t xs) (omega arith)
            (omega (arith, length-insert k.prio t xs)) r1
            (subst (λ o. IsList k1.next o ws) (sym at_p) rest) (d.0.1, d.1.1)
            (NotIn-insert k.prio p t xs d.0.0 a.0, Apart-insert k.prio t ws xs d.1.0 a.1.1) e n.1
            (Decides-ready k k1 t ws (ap (λ z. z.state) frame) (ap (λ z. z.timeout) frame) d.1.0
              y.1) in
        (
          k',
          rw (l.0, wake_tasks)
              (rw (y.0 ∙ hit) (
                rw (e, ==_ne t h (λ q. n.0 (sym q)))
                  (rw e1
                    (subst (λ o. wake_tasks f fuel w k1 wq (some p) o ≡ ok (w, k')) at_p e')))),
          rw hit queue,
          rw hit (subst (λ f. IsReady k' (insert_all f (woken ws) (insert k.prio t xs))) prios r'),
          rw hit (IsWoken-cons k t k1 k' (woken ws) frame w'),
          (λ q m m'.
              off' q (m.0, m.1.1) (NotIn-insert k.prio q t xs m.1.0 m')
              ∙ (off q (m.1.0, m') ∙ update_ne k.next p q (k.next t) m.0)),
        )
    | inr miss ↦
        let (k', e', queue, r', w', off') =
          behind_lem f fuel w k wq h t ws xs (omega arith) (omega arith) r l.1 d.1 a.1 e n.1 y.1 in
        (
          k',
          rw (l.0, wake_tasks) (rw (y.0 ∙ miss) e'),
          rw miss (off' p d.0 a.0 ∙ l.0, queue),
          rw miss r',
          rw miss w',
          (λ q m m'. off' q m.1 m'),
        )
  ]

  -- What the walk leaves, from the head of the queue on.
  abbrev Filtered : (rounds fuel : ℕ) → WaitQueues → Kernel → (wq : ℕ) → (ws xs : List ℕ) → Type 0
  Filtered rounds fuel w k wq ws xs =
      (w' : WaitQueues) × (k' : Kernel) × (wake_tasks rounds fuel w k wq (w.task wq) (w.task wq)
        ≡ ok (w', k'))
      × IsList k'.next (w'.task wq) (left ws)
      × IsReady k' (insert_all k.prio (woken ws) xs)
      × IsWoken k k' (woken ws)
      × ((q : ℕ) → NotIn q ws → NotIn q xs → k'.next q ≡ k.next q)
      × (w' ≡ record w { task = w'.task })
      × AgreeOff (wq ∷ []) w.task w'.task

  front_lem :
      (rounds fuel : ℕ) (w : WaitQueues) (k : Kernel) (wq : ℕ) (ws xs : List ℕ)
      → length ws < rounds
      → length xs + length ws < fuel
      → IsReady k xs
      → IsList k.next (w.task wq) ws
      → Distinct ws
      → Apart ws xs
      → Decides k ws
      → Filtered rounds fuel w k wq ws xs
  unfolding wake_tasks
  front_lem zero fuel w k wq ws xs b c r l d a y = absurd (omega arith)
  front_lem (suc f) fuel w k wq [] xs b c r l d a y =
      (w, k, rw (l, wake_tasks) refl, l, r, IsWoken-nil k, (λ q m m'. refl), refl, (λ q m. refl))
  front_lem (suc f) fuel w k wq (t ∷ ws) xs b c r l d a y = elim (Bool-cases (decide t)) [
    | inl hit ↦
        let k0 : Kernel = record k { state = update k.state t ready } in
        let r0 : IsReady k0 xs = record {
          linked = r.linked;
          distinct = r.distinct;
          sorted = r.sorted;
        } in
        let (k1, e1, r1, off, frame) =
          add_to_ready_q-refines fuel k0 t xs (omega arith) r0 a.0
            (rw (update_self k.state t ready) refl) in
        let w1 : WaitQueues = record w { task = update w.task wq (k.next t) } in
        let first : w1.task wq ≡ k.next t = update_self w.task wq (k.next t) in
        let prios : k1.prio ≡ k.prio = ap (λ z. z.prio) frame in
        let rest : IsList k1.next (k.next t) ws =
          IsList-agree k.next k1.next (k.next t) (t ∷ xs) ws off (Apart-cons t ws xs d.0 a.1) l.1 in
        let (w', k', e', queue, r', woke, off', same_list, tasks) =
          front_lem f fuel w1 k1 wq ws (insert k.prio t xs) (omega arith)
            (omega (arith, length-insert k.prio t xs)) r1
            (subst (λ o. IsList k1.next o ws) (sym first) rest) d.1
            (Apart-insert k.prio t ws xs d.0 a.1)
            (Decides-ready k k1 t ws (ap (λ z. z.state) frame) (ap (λ z. z.timeout) frame) d.0
              y.1) in
        (
          w',
          k',
          rw (l.0, wake_tasks)
              (rw (y.0 ∙ hit) (
                rw (l.0, ==_refl t)
                  (rw e1 (subst (λ o. wake_tasks f fuel w1 k1 wq o o ≡ ok (w', k')) first e')))),
          rw hit queue,
          rw hit (subst (λ f. IsReady k' (insert_all f (woken ws) (insert k.prio t xs))) prios r'),
          rw hit (IsWoken-cons k t k1 k' (woken ws) frame woke),
          (λ q m m'. off' q m.1 (NotIn-insert k.prio q t xs m.0 m') ∙ off q (m.0, m')),
          same_list,
          (λ q m. tasks q m ∙ update_ne w.task wq q (k.next t) m.0),
        )
    | inr miss ↦
        let (k', e', queue, r', w', off') =
          behind_lem f fuel w k wq t t ws xs (omega arith) (omega arith) r l.1 d a l.0 d.0 y.1 in
        (
          w,
          k',
          rw (l.0, wake_tasks) (rw (y.0 ∙ miss) e'),
          rw miss (l.0, queue),
          rw miss r',
          rw miss w',
          off',
          refl,
          (λ q m. refl),
        )
  ]

Decides-self : (k : Kernel) (ws : List ℕ) → Decides (wakes k) k ws
Decides-self k [] = tt
Decides-self k (t ∷ ws) = (refl, Decides-self k ws)

-- The walk over one wait queue makes the tasks ready that wait interruptibly or have timed out, in
-- the order in which they wait; the others stay in the wait queue, in their order. No link of
-- another task changes, and no other wait queue.
pub wake_tasks-filters :
    (rounds fuel : ℕ) (w : WaitQueues) (k : Kernel) (wq : ℕ) (ws xs : List ℕ)
    → length ws < rounds
    → length xs + length ws < fuel
    → IsReady k xs
    → IsList k.next (w.task wq) ws
    → Distinct ws
    → Apart ws xs
    → (w' : WaitQueues) × (k' : Kernel) × (wake_tasks rounds fuel w k wq (w.task wq) (w.task wq)
        ≡ ok (w', k'))
      × IsList k'.next (w'.task wq) (left (wakes k) ws)
      × IsReady k' (insert_all k.prio (woken (wakes k) ws) xs)
      × IsWoken k k' (woken (wakes k) ws)
      × ((q : ℕ) → NotIn q ws → NotIn q xs → k'.next q ≡ k.next q)
      × (w' ≡ record w { task = w'.task })
      × AgreeOff (wq ∷ []) w.task w'.task
wake_tasks-filters rounds fuel w k wq ws xs b c r l d a =
    front_lem (wakes k) rounds fuel w k wq ws xs b c r l d a (Decides-self k ws)
