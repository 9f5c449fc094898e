-- ===== src/WaitQueue/Woken.antt =====
-- Tasks that are made ready one after the other, by `rx_wakeup` and by `__rx_wake`.
use rosx.Base.{
  ℕ, suc, ◌+◌, ◌<◌, ◌≡◌, refl, ap, ◌∙◌, ◌⊎◌, inl, inr, zero, Option, List, [], ◌∷◌, arith, subst,
  update, update_self, update_ne, ok,
}
use rosx.Base.Lists.{length, NotIn, Distinct, Apart, Apart-cons, In}
use rosx.Base.Links.{IsList, IsList-agree}
use rosx.Kernel.{ready, Kernel}
use rosx.ReadyQueue.Wake.{insert_all, Apart-insert, update_ready}
use rosx.ReadyQueue.Spec.{insert, IsReady, length-insert, NotIn-insert}
use rosx.ReadyQueue.Add.{add_to_ready_q-refines}
use rosx.WaitQueue.{wake_every}

-- The tasks of `ts` are ready, and only the ready queue's fields and states are new.
pub record IsWoken (k k' : Kernel) (ts : List ℕ) : Type 0 where
  pub made_ready : (q : ℕ) → (k.state q ≡ ready) ⊎ In q ts → k'.state q ≡ ready
  pub others : (q : ℕ) → NotIn q ts → k'.state q ≡ k.state q
  pub frame : k' ≡ record k {
    next = k'.next;
    ready_head = k'.ready_head;
    need_resched = k'.need_resched;
    state = k'.state;
  }

pub IsWoken-nil : (k : Kernel) → IsWoken k k []
IsWoken-nil k = record {
  made_ready = λ q h. elim h [ inl e ↦ e | inr i ↦ absurd i ];
  others = λ q n. refl;
  frame = refl;
}

-- One task enters the ready queue, and then the others.
pub IsWoken-cons :
    (k : Kernel) (t : ℕ) (k1 k' : Kernel) (ts : List ℕ)
    → k1 ≡ record k {
      state = update k.state t ready;
      next = k1.next;
      ready_head = k1.ready_head;
      need_resched = k1.need_resched;
    }
    → IsWoken k1 k' ts
    → IsWoken k k' (t ∷ ts)
IsWoken-cons k t k1 k' ts e w = record {
  made_ready = λ q h. w.made_ready q (now q h);
  others = λ q n. w.others q n.1 ∙ (ap (λ z. z.state q) e ∙ update_ne k.state t q ready n.0);
  frame = w.frame ∙ ap rebuilt e;
}
  where
    rebuilt : Kernel → Kernel
    rebuilt z = record z {
      next = k'.next;
      ready_head = k'.ready_head;
      need_resched = k'.need_resched;
      state = k'.state;
    }

    now : (q : ℕ) → (k.state q ≡ ready) ⊎ In q (t ∷ ts) → (k1.state q ≡ ready) ⊎ In q ts
    now q (inl h) = inl (ap (λ z. z.state q) e ∙ update_ready k.state t q (inl h))
    now q (inr (inl h)) = inl (ap (λ z. z.state q) e ∙ update_ready k.state t q (inr h))
    now q (inr (inr h)) = inr h

-- The loop of `rx_wakeup`.
pub wake_every_lem :
    (rounds fuel : ℕ) (k : Kernel) (o : Option ℕ) (ts xs : List ℕ)
    → length ts < rounds
    → length xs + length ts < fuel
    → IsReady k xs
    → IsList k.next o ts
    → Distinct ts
    → Apart ts xs
    → (k' : Kernel) × (wake_every rounds fuel k o ≡ ok k')
      × IsReady k' (insert_all k.prio ts xs)
      × IsWoken k k' ts
      × ((q : ℕ) → NotIn q ts → NotIn q xs → k'.next q ≡ k.next q)
unfolding wake_every
wake_every_lem zero fuel k o ts xs b c r l d a = absurd (omega arith)
wake_every_lem (suc f) fuel k o [] xs b c r l d a =
    (k, rw (l, wake_every) refl, r, IsWoken-nil k, (λ q m m'. refl))
wake_every_lem (suc f) fuel k o (t ∷ ts) xs b c r l d a =
    let k0 : Kernel = record k { state = update k.state t ready } in
    let r0 : IsReady k0 xs = record {
      linked = r.linked;
      distinct = r.distinct;
      sorted = r.sorted;
    } in
    let (k1, e1, r1, off, frame) =
      add_to_ready_q-refines fuel k0 t xs (omega arith) r0 a.0
        (rw (update_self k.state t ready) refl) in
    let (k', e', r', woke, off') =
      wake_every_lem f fuel k1 (k.next t) ts (insert k.prio t xs) (omega arith)
        (omega (arith, length-insert k.prio t xs)) r1
        (IsList-agree k.next k1.next (k.next t) (t ∷ xs) ts off (Apart-cons t ts xs d.0 a.1) l.1)
        d.1 (Apart-insert k.prio t ts xs d.0 a.1) in
    (
      k',
      rw (l.0, wake_every) (rw e1 e'),
      subst (λ f. IsReady k' (insert_all f ts (insert k.prio t xs))) (ap (λ z. z.prio) frame) r',
      IsWoken-cons k t k1 k' ts frame woke,
      (λ q m m'. off' q m.1 (NotIn-insert k.prio q t xs m.0 m') ∙ off q (m.0, m')),
    )
