-- ===== src/ReadyQueue/Front.antt =====
-- The walk of `__rx_add_to_ready_q` from the head of the queue.
use rosx.Base.{
  ℕ, suc, ◌<◌, ◌≡◌, refl, sym, ap, ◌∙◌, inl, inr, true, false, Option, none, some, List, [], ◌∷◌,
  arith, leb, ◌==◌, update, update_self, update_ne, Bool-cases, ==_refl, ok,
}
use rosx.Base.Lists.{length, NotIn}
use rosx.Base.Links.{IsList, AgreeOff, IsList-update}
use rosx.Kernel.{Kernel}
use rosx.ReadyQueue.{Spot, after, before, ready_spot, place}
use rosx.ReadyQueue.Spec.{insert, IsReady}
use rosx.ReadyQueue.Walk.{Placed, place_behind}

-- From the head the walk gives the same, or puts the new task before the head.
abbrev pub Fronted : ℕ → Kernel → ℕ → ℕ → List ℕ → Type 0
Fronted fuel k new h xs =
    (spot : Spot) × (h' : ℕ) × (g : ℕ → Option ℕ) × (ready_spot fuel k (k.prio new) none (some h)
      ≡ ok spot)
    × (place k new spot ≡ ok (record k { next = g; ready_head = some h' }))
    × IsList g (some h') (insert k.prio new (h ∷ xs))
    × AgreeOff (new ∷ h ∷ xs) k.next g

module _ (f : ℕ) (k : Kernel) (new h : ℕ) (xs : List ℕ) (r : IsReady k (h ∷ xs))
    (n : NotIn new (h ∷ xs)) where
  front_advance :
      ready_spot (suc f) k (k.prio new) none (some h)
        ≡ ready_spot f k (k.prio new) (some h) (k.next h)
      → leb (k.prio h) (k.prio new) ≡ true
      → Placed f k new h xs
      → Fronted (suc f) k new h xs
  unfolding insert
  front_advance e le (spot, g, found, put, tail, off) = (
    spot,
    h,
    g,
    e ∙ found,
    put ∙ ap (λ t. ok (record k { next = g; ready_head = t })) r.linked.0,
    rw le (refl, tail),
    off,
  )

  front_after :
      ready_spot (suc f) k (k.prio new) none (some h) ≡ ok (after h)
      → leb (k.prio h) (k.prio new) ≡ true
      → insert k.prio new xs ≡ new ∷ xs
      → Fronted (suc f) k new h xs
  unfolding insert place
  front_after e le ins = (
    after h,
    h,
    update nx h (some new),
    e,
    ap (λ t. ok (record k { next = update nx h (some new); ready_head = t })) r.linked.0,
    rw (le, ins)
        (
          refl,
          (
            update_self nx h (some new),
            rw (update_ne nx h new (some new) n.0, update_self k.next new (k.next h))
                (IsList-update nx (k.next h) xs h (some new) r.distinct.0
                  (IsList-update k.next (k.next h) xs new (k.next h) n.1 r.linked.1)),
          ),
        ),
    (λ q m. update_ne nx h q (some new) m.1.0 ∙ update_ne k.next new q (k.next h) m.0),
  )
    where
      nx : ℕ → Option ℕ
      nx = update k.next new (k.next h)

  front_before :
      ready_spot (suc f) k (k.prio new) none (some h) ≡ ok (before none h)
      → leb (k.prio h) (k.prio new) ≡ false
      → Fronted (suc f) k new h xs
  unfolding insert place
  front_before e gt = (
    before none h,
    new,
    update k.next new (some h),
    e,
    rw (r.linked.0, ==_refl h) refl,
    rw gt (
      refl,
      (
        update_self k.next new (some h),
        rw (update_ne k.next new h (some h) (λ q. n.0 (sym q)))
            (IsList-update k.next (k.next h) xs new (some h) n.1 r.linked.1),
      ),
    ),
    (λ q m. update_ne k.next new q (some h) m.0),
  )

front_equal :
    (f : ℕ) (k : Kernel) (new h : ℕ) (xs : List ℕ)
    → IsReady k (h ∷ xs)
    → NotIn new (h ∷ xs)
    → leb (k.prio new) (k.prio h) ≡ true
    → (k.prio h == k.prio new) ≡ true
    → Placed f k new h xs
    → Fronted (suc f) k new h xs
unfolding ready_spot insert
front_equal f k new h [] r n le eq ih =
    front_after f k new h [] r n (rw (le, eq, r.linked.1) refl) (ground arith) refl
front_equal f k new h (y ∷ ys) r n le eq ih = elim (Bool-cases (k.prio y == k.prio new)) [
  | inl more ↦
      front_advance f k new h (y ∷ ys) r n
        (rw (le, eq, r.linked.1.0, more) (ap (ready_spot f k (k.prio new) (some h)) r.linked.1.0))
        (ground arith) ih
  | inr above ↦
      let past : leb (k.prio y) (k.prio new) ≡ false = ground arith in
      front_after f k new h (y ∷ ys) r n (rw (le, eq, r.linked.1.0, above) refl) (ground arith)
        (rw past refl)
]

pub place_front :
    (f : ℕ) (k : Kernel) (new h : ℕ) (xs : List ℕ)
    → length xs < f
    → IsReady k (h ∷ xs)
    → NotIn new (h ∷ xs)
    → k.next new ≡ none
    → Fronted (suc f) k new h xs
unfolding ready_spot
place_front f k new h xs b r n e =
    let behind : Placed f k new h xs =
      place_behind f k new h h xs b r.linked.0 r.linked.1 r.distinct.0 r.distinct n r.sorted.1 e in
    elim (Bool-cases (leb (k.prio new) (k.prio h))) [
      | inr below ↦ front_advance f k new h xs r n (rw below refl) (ground arith) behind
      | inl le ↦ elim (Bool-cases (k.prio h == k.prio new)) [
        | inl eq ↦ front_equal f k new h xs r n le eq behind
        | inr above ↦ front_before f k new h xs r n (rw (le, above) refl) (ground arith)
      ]
    ]
