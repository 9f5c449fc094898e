-- ===== src/ReadyQueue/Wake.antt =====
-- Several tasks that enter the ready queue one after the other.
use rosx.Base.{ℕ, ◌≡◌, ◌⊎◌, inl, inr, refl, sym, Bool-cases, List, [], ◌∷◌, ◌==◌, ==→ne, update}
use rosx.Base.Lists.{NotIn, Apart}
use rosx.Kernel.{TaskState, ready}
use rosx.ReadyQueue.Spec.{insert, NotIn-insert}

-- The tasks of `ws`, one after the other, in the ready queue.
abbrev pub insert_all : (ℕ → ℕ) → List ℕ → List ℕ → List ℕ
insert_all prio [] xs = xs
insert_all prio (w ∷ ws) xs = insert_all prio ws (insert prio w xs)

pub Apart-insert :
    (prio : ℕ → ℕ) (t : ℕ) (ws xs : List ℕ) → NotIn t ws → Apart ws xs → Apart ws (insert prio t xs)
Apart-insert prio t [] xs n a = tt
Apart-insert prio t (w ∷ ws) xs n a =
    (NotIn-insert prio w t xs (λ e. n.0 (sym e)) a.0, Apart-insert prio t ws xs n.1 a.1)

pub update_ready :
    (f : ℕ → TaskState) (t q : ℕ) → (f q ≡ ready) ⊎ (q ≡ t) → update f t ready q ≡ ready
update_ready f t q h = elim (Bool-cases (q == t)) [
  | inl e ↦ rw e refl
  | inr e ↦ elim h [ inl r ↦ rw e r | inr s ↦ absurd (==→ne q t e s) ]
]
