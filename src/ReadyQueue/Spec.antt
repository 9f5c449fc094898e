-- ===== src/ReadyQueue/Spec.antt =====
-- What the ready queue promises: the tasks by priority, those of one priority in the order of
-- their arrival.
use rosx.Base.{
  ℕ, suc, ◌≤◌, ◌≡◌, refl, sym, ◌≢◌, inl, inr, List, [], ◌∷◌, ◌++◌, arith, leb, if◌then◌else◌,
  update, update_ne, Bool-cases, leb→le, leb→lt,
}
use rosx.Base.Lists.{length, NotIn, Distinct}
use rosx.Base.Links.{IsList}
use rosx.Kernel.{Kernel}

module _ (prio : ℕ → ℕ) where
  -- Behind every task of the same or a more urgent priority (a smaller number).
  unfoldable pub insert : ℕ → List ℕ → List ℕ
  insert new [] = new ∷ []
  insert new (x ∷ xs) = if leb (prio x) (prio new) then x ∷ insert new xs else new ∷ x ∷ xs

  -- No task of `xs` is more urgent than `p`.
  abbrev pub NoneAbove : ℕ → List ℕ → Type 0
  NoneAbove p [] = Unit
  NoneAbove p (x ∷ xs) = (p ≤ prio x) × NoneAbove p xs

  abbrev pub IsSorted : List ℕ → Type 0
  IsSorted [] = Unit
  IsSorted (x ∷ xs) = NoneAbove (prio x) xs × IsSorted xs

  pub NoneAbove-mono : (p q : ℕ) (xs : List ℕ) → p ≤ q → NoneAbove q xs → NoneAbove p xs
  NoneAbove-mono p q [] h n = tt
  NoneAbove-mono p q (x ∷ xs) h n = (omega arith, NoneAbove-mono p q xs h n.1)

  NoneAbove-insert :
      (p new : ℕ) (xs : List ℕ) → p ≤ prio new → NoneAbove p xs → NoneAbove p (insert new xs)
  unfolding insert
  NoneAbove-insert p new [] h n = (h, tt)
  NoneAbove-insert p new (x ∷ xs) h n = elim (Bool-cases (leb (prio x) (prio new))) [
    | inl e ↦ rw e (n.0, NoneAbove-insert p new xs h n.1)
    | inr e ↦ rw e (h, n)
  ]

  pub IsSorted-insert : (new : ℕ) (xs : List ℕ) → IsSorted xs → IsSorted (insert new xs)
  unfolding insert
  IsSorted-insert new [] s = (tt, tt)
  IsSorted-insert new (x ∷ xs) s = elim (Bool-cases (leb (prio x) (prio new))) [
    | inl e ↦ rw e (NoneAbove-insert (prio x) new xs (leb→le _ _ e) s.0, IsSorted-insert new xs s.1)
    | inr e ↦
        let near : prio new ≤ prio x = omega (arith, leb→lt _ _ e) in
        rw e ((near, NoneAbove-mono (prio new) (prio x) xs near s.0), s)
  ]

  pub NotIn-insert : (a new : ℕ) (xs : List ℕ) → a ≢ new → NotIn a xs → NotIn a (insert new xs)
  unfolding insert
  NotIn-insert a new [] h n = (h, tt)
  NotIn-insert a new (x ∷ xs) h n = elim (Bool-cases (leb (prio x) (prio new))) [
    | inl e ↦ rw e (n.0, NotIn-insert a new xs h n.1)
    | inr e ↦ rw e (h, n)
  ]

  pub Distinct-insert :
      (new : ℕ) (xs : List ℕ) → NotIn new xs → Distinct xs → Distinct (insert new xs)
  unfolding insert
  Distinct-insert new [] n d = (tt, tt)
  Distinct-insert new (x ∷ xs) n d = elim (Bool-cases (leb (prio x) (prio new))) [
    | inl e ↦ rw e (NotIn-insert x new xs (λ q. n.0 (sym q)) d.0, Distinct-insert new xs n.1 d.1)
    | inr e ↦ rw e (n, d)
  ]

  pub length-insert : (new : ℕ) (xs : List ℕ) → length (insert new xs) ≡ suc (length xs)
  unfolding insert
  length-insert new [] = refl
  length-insert new (x ∷ xs) = ground (arith, length-insert new xs)

  pub insert-later :
      (new y : ℕ) (ys : List ℕ) → prio y ≤ prio new → insert new (y ∷ ys) ≡ y ∷ insert new ys
  unfolding insert
  insert-later new y ys h = ground arith

  pub insert-first :
      (new : ℕ) (xs : List ℕ) → NoneAbove (suc (prio new)) xs → insert new xs ≡ new ∷ xs
  unfolding insert
  insert-first new [] n = refl
  insert-first new (x ∷ xs) n = ground arith

NoneAbove-drop :
    (prio : ℕ → ℕ) (q : ℕ) (xs : List ℕ) (p : ℕ) (ys : List ℕ)
    → NoneAbove prio q (xs ++ p ∷ ys)
    → NoneAbove prio q (xs ++ ys)
NoneAbove-drop prio q [] p ys n = n.1
NoneAbove-drop prio q (x ∷ xs) p ys n = (n.0, NoneAbove-drop prio q xs p ys n.1)

pub IsSorted-drop :
    (prio : ℕ → ℕ) (xs : List ℕ) (p : ℕ) (ys : List ℕ)
    → IsSorted prio (xs ++ p ∷ ys)
    → IsSorted prio (xs ++ ys)
IsSorted-drop prio [] p ys s = s.1
IsSorted-drop prio (x ∷ xs) p ys s =
    (NoneAbove-drop prio (prio x) xs p ys s.0, IsSorted-drop prio xs p ys s.1)

-- A change of the priority of a task that is not on the list leaves the list sorted.
NoneAbove-update :
    (prio : ℕ → ℕ) (t v p : ℕ) (xs : List ℕ)
    → NotIn t xs
    → NoneAbove prio p xs
    → NoneAbove (update prio t v) p xs
NoneAbove-update prio t v p [] n h = tt
NoneAbove-update prio t v p (x ∷ xs) n h =
    (rw (update_ne prio t x v (λ q. n.0 (sym q))) h.0, NoneAbove-update prio t v p xs n.1 h.1)

pub IsSorted-update :
    (prio : ℕ → ℕ) (t v : ℕ) (xs : List ℕ)
    → NotIn t xs
    → IsSorted prio xs
    → IsSorted (update prio t v) xs
IsSorted-update prio t v [] n s = tt
IsSorted-update prio t v (x ∷ xs) n s = (
  rw (update_ne prio t x v (λ q. n.0 (sym q))) (NoneAbove-update prio t v (prio x) xs n.1 s.0),
  IsSorted-update prio t v xs n.1 s.1,
)

-- The ready queue as a list: its links, and its order.
pub record IsReady (k : Kernel) (xs : List ℕ) : Type 0 where
  pub linked : IsList k.next k.ready_head xs
  pub distinct : Distinct xs
  pub sorted : IsSorted k.prio xs
