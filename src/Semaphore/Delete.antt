-- ===== src/Semaphore/Delete.antt =====
-- `rx_delete_semaphore` with tasks waiting.
use rosx.Base.{
  ℕ, zero, suc, ◌+◌, ◌<◌, ◌≡◌, refl, ap, ◌∙◌, ◌⊎◌, inl, inr, none, List, [], ◌∷◌, arith, subst,
  update, update_self, ok,
}
use rosx.Base.Lists.{length, Distinct, Apart, Apart-cons, In}
use rosx.Base.Links.{IsList, IsList-agree}
use rosx.Kernel.{ready, Kernel}
use rosx.ReadyQueue.Wake.{insert_all, Apart-insert, update_ready}
use rosx.ReadyQueue.Spec.{insert, IsReady, length-insert}
use rosx.ReadyQueue.Add.{add_to_ready_q-refines}
use rosx.Semaphore.{Semaphore, delete_semaphore}

-- None of the tasks has a running timer.
abbrev Untimed : Kernel → List ℕ → Type 0
Untimed k [] = Unit
Untimed k (w ∷ ws) = (k.timer w ≡ none) × Untimed k ws

Untimed-eq : (k k' : Kernel) (ws : List ℕ) → k'.timer ≡ k.timer → Untimed k ws → Untimed k' ws
Untimed-eq k k' [] e u = tt
Untimed-eq k k' (w ∷ ws) e u = (ap (λ f. f w) e ∙ u.0, Untimed-eq k k' ws e u.1)

-- If none of the waiting tasks has a timer, deleting the semaphore empties its wait queue and
-- makes every waiting task ready, in the ready queue by its priority; the count is left as it was.
pub delete_semaphore-wakes_all :
    (rounds fuel : ℕ) (s : Semaphore) (k : Kernel) (ws xs : List ℕ)
    → length ws < rounds
    → length xs + length ws < fuel
    → IsReady k xs
    → IsList k.next s.task ws
    → Distinct ws
    → Apart ws xs
    → Untimed k ws
    → (s' : Semaphore) × (k' : Kernel) × (delete_semaphore rounds fuel s k ≡ ok (s', k'))
      × (s'.task ≡ none)
      × (s'.curr_val ≡ s.curr_val)
      × IsReady k' (insert_all k.prio ws xs)
      × ((q : ℕ) → (k.state q ≡ ready) ⊎ In q ws → k'.state q ≡ ready)
unfolding delete_semaphore
delete_semaphore-wakes_all zero fuel s k ws xs c b r l d a u = absurd (omega arith)
delete_semaphore-wakes_all (suc f) fuel s k [] xs c b r l d a u = (
  s,
  k,
  simp (l, delete_semaphore) refl,
  l,
  refl,
  r,
  (λ q h. elim h [ inl e ↦ e | inr i ↦ absurd i ]),
)
delete_semaphore-wakes_all (suc f) fuel s k (t ∷ ws) xs c b r l d a u =
    let k0 : Kernel = record k { state = update k.state t ready; sem = update k.sem t none } in
    let r0 : IsReady k0 xs = record {
      linked = r.linked;
      distinct = r.distinct;
      sorted = r.sorted;
    } in
    let (k1, e1, r1, off, frame) =
      add_to_ready_q-refines fuel k0 t xs (omega arith) r0 a.0
        (rw (update_self k.state t ready) refl) in
    let prios : k1.prio ≡ k.prio = ap (λ q. q.prio) frame in
    let (s', k', e', empty, count, r', all) =
      delete_semaphore-wakes_all f fuel (record s { task = k.next t }) k1 ws (insert k.prio t xs)
        (omega arith) (omega (arith, length-insert k.prio t xs)) r1
        (IsList-agree k.next k1.next (k.next t) (t ∷ xs) ws off (Apart-cons t ws xs d.0 a.1) l.1)
        d.1 (Apart-insert k.prio t ws xs d.0 a.1)
        (Untimed-eq k k1 ws (ap (λ q. q.timer) frame) u.1) in
    (
      s',
      k',
      rw (l.0, delete_semaphore) (rw u.0 (rw e1 e')),
      empty,
      count,
      subst (λ p. IsReady k' (insert_all p ws (insert k.prio t xs))) prios r',
      (λ q h. all q (later k1 q (ap (λ z. z.state q) frame) h)),
    )
  where
    later :
        (k1 : Kernel) (q : ℕ)
        → k1.state q ≡ update k.state t ready q
        → (k.state q ≡ ready) ⊎ In q (t ∷ ws)
        → (k1.state q ≡ ready) ⊎ In q ws
    later k1 q e (inl h) = inl (e ∙ update_ready k.state t q (inl h))
    later k1 q e (inr (inl h)) = inl (e ∙ update_ready k.state t q (inr h))
    later k1 q e (inr (inr h)) = inr h
