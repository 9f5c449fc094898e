-- ===== src/ReadyQueue/Walk.antt =====
-- The walk of `__rx_add_to_ready_q` behind a node of the queue.
use rosx.Base.{
  ℕ, zero, suc, ◌<◌, ◌≡◌, refl, sym, ap, ◌∙◌, ◌≢◌, inl, inr, true, false, Option, none, some, List,
  [], ◌∷◌, arith, leb, ◌==◌, update, update_self, update_ne, Bool-cases, ==_ne, ok,
}
use rosx.Base.Lists.{length, NotIn, Distinct}
use rosx.Base.Links.{IsList, AgreeOff, IsList-update}
use rosx.Kernel.{Kernel}
use rosx.ReadyQueue.{Spot, after, before, at_end, ready_spot, place}
use rosx.ReadyQueue.Spec.{insert, IsSorted}

-- The walk, from a node `a` that is not below the new task, stops at a place where the writes
-- link the new task in by the sorted insertion, and touch no other node.
abbrev pub Placed : ℕ → Kernel → ℕ → ℕ → List ℕ → Type 0
Placed fuel k new a xs =
    (spot : Spot) × (g : ℕ → Option ℕ) × (ready_spot fuel k (k.prio new) (some a) (k.next a)
      ≡ ok spot)
    × (place k new spot ≡ ok (record k { next = g }))
    × IsList g (g a) (insert k.prio new xs)
    × AgreeOff (new ∷ a ∷ xs) k.next g

module _ (f : ℕ) (k : Kernel) (new a x : ℕ) (xs : List ℕ) (l : IsList k.next (k.next a) (x ∷ xs))
    (d : Distinct (a ∷ x ∷ xs)) (n : NotIn new (a ∷ x ∷ xs)) where
  advance :
      ready_spot (suc f) k (k.prio new) (some a) (some x)
        ≡ ready_spot f k (k.prio new) (some x) (k.next x)
      → leb (k.prio x) (k.prio new) ≡ true
      → Placed f k new x xs
      → Placed (suc f) k new a (x ∷ xs)
  unfolding insert
  advance e le (spot, g, found, put, tail, off) = (
    spot,
    g,
    rw l.0 (e ∙ found),
    put,
    rw le (off a ((λ q. n.0 (sym q)), d.0) ∙ l.0, tail),
    (λ q m. off q (m.0, m.1.1)),
  )

  stop_after :
      ready_spot (suc f) k (k.prio new) (some a) (some x) ≡ ok (after x)
      → leb (k.prio x) (k.prio new) ≡ true
      → insert k.prio new xs ≡ new ∷ xs
      → Placed (suc f) k new a (x ∷ xs)
  unfolding insert place
  stop_after e le ins = (
    after x,
    update nx x (some new),
    rw l.0 e,
    refl,
    rw (le, ins)
        (
          update_ne nx x a (some new) d.0.0
              ∙ update_ne k.next new a (k.next x) (λ q. n.0 (sym q))
              ∙ l.0,
          (
            update_self nx x (some new),
            rw (update_ne nx x new (some new) n.1.0, update_self k.next new (k.next x))
                (IsList-update nx (k.next x) xs x (some new) d.1.0
                  (IsList-update k.next (k.next x) xs new (k.next x) n.1.1 l.1)),
          ),
        ),
    (λ q m. update_ne nx x q (some new) m.1.1.0 ∙ update_ne k.next new q (k.next x) m.0),
  )
    where
      nx : ℕ → Option ℕ
      nx = update k.next new (k.next x)

  stop_before :
      (h : ℕ)
      → k.ready_head ≡ some h
      → h ≢ x
      → ready_spot (suc f) k (k.prio new) (some a) (some x) ≡ ok (before (some a) x)
      → leb (k.prio x) (k.prio new) ≡ false
      → Placed (suc f) k new a (x ∷ xs)
  unfolding insert place
  stop_before h eh ne e gt = (
    before (some a) x,
    update nx a (some new),
    rw l.0 e,
    rw (eh, ==_ne x h (λ q. ne (sym q))) refl,
    rw gt (
      update_self nx a (some new),
      (
        update_ne nx a new (some new) n.0 ∙ update_self k.next new (some x),
        rw
            (
              update_ne nx a x (some new) (λ q. d.0.0 (sym q)),
              update_ne k.next new x (some x) (λ q. n.1.0 (sym q)),
            )
            (IsList-update nx (k.next x) xs a (some new) d.0.1
              (IsList-update k.next (k.next x) xs new (some x) n.1.1 l.1)),
      ),
    ),
    (λ q m. update_ne nx a q (some new) m.1.0 ∙ update_ne k.next new q (some x) m.0),
  )
    where
      nx : ℕ → Option ℕ
      nx = update k.next new (some x)

-- Among tasks of the new task's priority the walk goes on to the last of them.
step_equal :
    (f : ℕ) (k : Kernel) (new a x : ℕ) (xs : List ℕ)
    → IsList k.next (k.next a) (x ∷ xs)
    → Distinct (a ∷ x ∷ xs)
    → NotIn new (a ∷ x ∷ xs)
    → IsSorted k.prio (x ∷ xs)
    → leb (k.prio new) (k.prio x) ≡ true
    → (k.prio x == k.prio new) ≡ true
    → Placed f k new x xs
    → Placed (suc f) k new a (x ∷ xs)
unfolding ready_spot insert
step_equal f k new a x [] l d n s le eq ih =
    stop_after f k new a x [] l d n (rw (le, eq, l.1) refl) (ground arith) refl
step_equal f k new a x (y ∷ ys) l d n s le eq ih = elim (Bool-cases (k.prio y == k.prio new)) [
  | inl more ↦
      advance f k new a x (y ∷ ys) l d n
        (rw (le, eq, l.1.0, more) (ap (ready_spot f k (k.prio new) (some x)) l.1.0)) (ground arith)
        ih
  | inr above ↦
      let past : leb (k.prio y) (k.prio new) ≡ false = ground arith in
      stop_after f k new a x (y ∷ ys) l d n (rw (le, eq, l.1.0, above) refl) (ground arith)
        (rw past refl)
]

step_behind :
    (f : ℕ) (k : Kernel) (new h a x : ℕ) (xs : List ℕ)
    → k.ready_head ≡ some h
    → IsList k.next (k.next a) (x ∷ xs)
    → h ≢ x
    → Distinct (a ∷ x ∷ xs)
    → NotIn new (a ∷ x ∷ xs)
    → IsSorted k.prio (x ∷ xs)
    → Placed f k new x xs
    → Placed (suc f) k new a (x ∷ xs)
unfolding ready_spot
step_behind f k new h a x xs eh l ne d n s ih = elim (Bool-cases (leb (k.prio new) (k.prio x))) [
  | inr below ↦ advance f k new a x xs l d n (rw below refl) (ground arith) ih
  | inl le ↦ elim (Bool-cases (k.prio x == k.prio new)) [
    | inl eq ↦ step_equal f k new a x xs l d n s le eq ih
    | inr above ↦ stop_before f k new a x xs l d n h eh ne (rw (le, above) refl) (ground arith)
  ]
]

pub place_behind :
    (fuel : ℕ) (k : Kernel) (new h a : ℕ) (xs : List ℕ)
    → length xs < fuel
    → k.ready_head ≡ some h
    → IsList k.next (k.next a) xs
    → NotIn h xs
    → Distinct (a ∷ xs)
    → NotIn new (a ∷ xs)
    → IsSorted k.prio xs
    → k.next new ≡ none
    → Placed fuel k new a xs
unfolding ready_spot place insert
place_behind zero k new h a xs b eh l nh d n s e = absurd (omega arith)
place_behind (suc f) k new h a [] b eh l nh d n s e = (
  at_end (some a),
  update k.next a (some new),
  rw (l, ready_spot) refl,
  refl,
  (update_self k.next a (some new), update_ne k.next a new (some new) n.0 ∙ e),
  (λ q m. update_ne k.next a q (some new) m.1.0),
)
place_behind (suc f) k new h a (x ∷ xs) b eh l nh d n s e =
    step_behind f k new h a x xs eh l nh.0 d n s
      (place_behind f k new h x xs (omega arith) eh l.1 nh.1 d.1 n.1 s.1 e)
