-- ===== src/ReadyQueue/Remove.antt =====
-- `__rx_remove_from_ready_q` on the ready queue as a list.
use rosx.Base.{
  ℕ, zero, suc, ◌<◌, ◌≡◌, ◌≢◌, refl, sym, ap, ◌∙◌, inl, inr, Option, none, some, List, [], ◌∷◌,
  arith, ◌==◌, ==_refl, ==_ne, ==→eq, ==→ne, update, update_self, update_ne, Bool-cases, ok,
  null_deref,
}
use rosx.Base.Lists.{length, NotIn, Distinct, erase, Distinct-erase, NotIn-erase_self}
use rosx.Base.Links.{IsList, AgreeOff, IsList-update}
use rosx.Kernel.{Kernel}
use rosx.ReadyQueue.{unlink, remove_from_ready_q}
use rosx.ReadyQueue.Spec.{NoneAbove, IsSorted, IsReady}

abbrev Unlinked : ℕ → Kernel → ℕ → ℕ → List ℕ → Type 0
Unlinked fuel k rmv a xs =
    (g : ℕ → Option ℕ) × (unlink fuel k rmv (some a) (k.next a) ≡ ok (record k { next = g }))
    × IsList g (g a) (erase rmv xs)
    × AgreeOff (rmv ∷ a ∷ xs) k.next g
    × (g rmv ≡ none)

module _ (k : Kernel) (rmv h : ℕ) (eh : k.ready_head ≡ some h) where
  unlink_behind :
      (fuel a : ℕ) (xs : List ℕ)
      → length xs < fuel
      → IsList k.next (k.next a) xs
      → NotIn h xs
      → Distinct (a ∷ xs)
      → rmv ≢ a
      → Unlinked fuel k rmv a xs
  unfolding unlink
  unlink_behind zero a xs b l nh d ne = absurd (omega arith)
  unlink_behind (suc f) a [] b l nh d ne = (
    update (update k.next a none) rmv none,
    rw (l, unlink) refl,
    update_ne (update k.next a none) rmv a none (λ q. ne (sym q)) ∙ update_self k.next a none,
    (λ q m. update_ne (update k.next a none) rmv q none m.0 ∙ update_ne k.next a q none m.1.0),
    update_self (update k.next a none) rmv none,
  )
  unlink_behind (suc f) a (x ∷ xs) b l nh d ne = elim (Bool-cases (x == rmv)) [
    | inl hit ↦
        let e : x ≡ rmv = ==→eq x rmv hit in
        let nx : (ℕ → Option ℕ) = update k.next a (k.next x) in
        (
          update nx rmv none,
          rw (l.0, unlink) (rw (hit, eh, ==_ne x h (λ q. nh.0 (sym q))) refl),
          rw hit (
              rw (update_ne nx rmv a none (λ q. ne (sym q)), update_self k.next a (k.next x))
                (IsList-update nx (k.next x) xs rmv none (rw (← e) d.1.0)
                  (IsList-update k.next (k.next x) xs a (k.next x) d.0.1 l.1))),
          (λ q m. update_ne nx rmv q none m.0 ∙ update_ne k.next a q (k.next x) m.1.0),
          update_self nx rmv none,
        )
    | inr miss ↦
        let (g, e, tail, off, end) =
          unlink_behind f x xs (omega arith) l.1 nh.1 d.1 (λ q. ground arith) in
        (
          g,
          rw (l.0, unlink) (rw miss e),
          rw miss (off a ((λ q. ne (sym q)), d.0) ∙ l.0, tail),
          (λ q m. off q (m.0, m.1.1)),
          end,
        )
  ]

-- What the call leaves, for a queue `xs` that is not empty.
abbrev Removed : ℕ → Kernel → ℕ → List ℕ → Type 0
Removed fuel k rmv xs =
    (hd : Option ℕ) × (g : ℕ → Option ℕ) × (remove_from_ready_q fuel k rmv
      ≡ ok (record k { next = g; ready_head = hd }))
    × IsList g hd (erase rmv xs)
    × AgreeOff (rmv ∷ xs) k.next g
    × (g rmv ≡ none)

pub remove_lem :
    (fuel : ℕ) (k : Kernel) (rmv x : ℕ) (xs : List ℕ)
    → length (x ∷ xs) < fuel
    → IsList k.next k.ready_head (x ∷ xs)
    → Distinct (x ∷ xs)
    → Removed fuel k rmv (x ∷ xs)
unfolding remove_from_ready_q unlink
remove_lem zero k rmv x xs b l d = absurd (omega arith)
remove_lem (suc f) k rmv x xs b l d = elim (Bool-cases (x == rmv)) [
  | inl hit ↦
      let e : x ≡ rmv = ==→eq x rmv hit in
      (
        k.next x,
        update k.next rmv none,
        ap (unlink (suc f) k rmv none) l.0 ∙ rw hit (rw (l.0, ==_refl x) refl),
        rw hit (IsList-update k.next (k.next x) xs rmv none (rw (← e) d.0) l.1),
        (λ q m. update_ne k.next rmv q none m.0),
        update_self k.next rmv none,
      )
  | inr miss ↦
      let (g, e, tail, off, end) =
        unlink_behind k rmv x l.0 f x xs (omega arith) l.1 d.0 d (λ q. ==→ne x rmv miss (sym q)) in
      (
        some x,
        g,
        ap (unlink (suc f) k rmv none) l.0
            ∙ rw miss (e ∙ ap (λ t. ok (record k { next = g; ready_head = t })) l.0),
        rw miss (refl, tail),
        off,
        end,
      )
]

NoneAbove-erase :
    (prio : ℕ → ℕ) (p a : ℕ) (xs : List ℕ) → NoneAbove prio p xs → NoneAbove prio p (erase a xs)
NoneAbove-erase prio p a [] n = tt
NoneAbove-erase prio p a (x ∷ xs) n = elim (Bool-cases (x == a)) [
  | inl e ↦ rw e n.1
  | inr e ↦ rw e (n.0, NoneAbove-erase prio p a xs n.1)
]

pub IsSorted-erase :
    (prio : ℕ → ℕ) (a : ℕ) (xs : List ℕ) → IsSorted prio xs → IsSorted prio (erase a xs)
IsSorted-erase prio a [] s = tt
IsSorted-erase prio a (x ∷ xs) s = elim (Bool-cases (x == a)) [
  | inl e ↦ rw e s.1
  | inr e ↦ rw e (NoneAbove-erase prio (prio x) a xs s.0, IsSorted-erase prio a xs s.1)
]

-- On a queue that is not empty the call returns, the task is on the queue no more and its `next`
-- is NULL, the others stay in their order, and nothing else changes but the head. A task that
-- was not on the queue leaves the queue as it was.
pub remove_from_ready_q-refines :
    (fuel : ℕ) (k : Kernel) (rmv x : ℕ) (xs : List ℕ)
    → length (x ∷ xs) < fuel
    → IsReady k (x ∷ xs)
    → (k' : Kernel) × (remove_from_ready_q fuel k rmv ≡ ok k')
      × IsReady k' (erase rmv (x ∷ xs))
      × NotIn rmv (erase rmv (x ∷ xs))
      × (k'.next rmv ≡ none)
      × AgreeOff (rmv ∷ x ∷ xs) k.next k'.next
      × (k' ≡ record k { next = k'.next; ready_head = k'.ready_head })
remove_from_ready_q-refines fuel k rmv x xs b r =
    let (hd, g, e, linked, off, end) = remove_lem fuel k rmv x xs b r.linked r.distinct in
    (
      record k { next = g; ready_head = hd },
      e,
      record {
        linked = linked;
        distinct = Distinct-erase rmv (x ∷ xs) r.distinct;
        sorted = IsSorted-erase k.prio rmv (x ∷ xs) r.sorted;
      },
      NotIn-erase_self rmv (x ∷ xs) r.distinct,
      end,
      off,
      refl,
    )

-- On an empty queue it writes through a NULL pointer.
pub remove_from_ready_q-empty :
    (fuel : ℕ) (k : Kernel) (rmv : ℕ)
    → k.ready_head ≡ none
    → remove_from_ready_q (suc fuel) k rmv ≡ null_deref
unfolding remove_from_ready_q unlink
remove_from_ready_q-empty fuel k rmv e = rw e refl
