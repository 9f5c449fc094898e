-- ===== src/ReadyQueue/Add.antt =====
-- `__rx_add_to_ready_q` and the sorted insertion.
use rosx.Base.{
  ℕ, zero, suc, ◌<◌, ◌≡◌, refl, ◌∙◌, inl, inr, Bool, true, Option, none, some, List, [], ◌∷◌, arith,
  same, update, update_self, update_ne, Bool-cases, ok,
}
use rosx.Base.Lists.{length, NotIn}
use rosx.Base.Links.{IsList, AgreeOff, IsList-update}
use rosx.Kernel.{os_ok, Kernel}
use rosx.ReadyQueue.{mark_resched, is_runnable, add_to_ready_q}
use rosx.ReadyQueue.Spec.{insert, IsReady, IsSorted-insert, Distinct-insert}
use rosx.ReadyQueue.Front.{place_front}

-- What the call leaves: new links and a new head, and a new mark for rescheduling.
abbrev Added : ℕ → Kernel → ℕ → List ℕ → Type 0
Added fuel k new xs =
    (h' : ℕ) × (g : ℕ → Option ℕ) × (b : Bool) × (add_to_ready_q fuel k new
      ≡ ok (os_ok, record k { next = g; ready_head = some h'; need_resched = b }))
    × IsList g (some h') (insert k.prio new xs)
    × AgreeOff (new ∷ xs) k.next g

mark_resched_lem :
    (k : Kernel) (h : ℕ)
    → k.ready_head ≡ some h
    → (b : Bool) × (mark_resched k ≡ record k { need_resched = b })
mark_resched_lem k h e = elim (Bool-cases (same (some k.curr) k.ready_head)) [
  | inl eq ↦ (k.need_resched, rw eq refl)
  | inr ne ↦ (true, rw ne refl)
]

pub add_lem :
    (fuel : ℕ) (k : Kernel) (new : ℕ) (xs : List ℕ)
    → length xs < fuel
    → IsReady k xs
    → NotIn new xs
    → is_runnable (k.state new) ≡ true
    → Added fuel k new xs
unfolding add_to_ready_q insert
add_lem fuel k new [] b r n run = (
  new,
  update k.next new none,
  k.need_resched,
  rw (run, r.linked) refl,
  (refl, update_self k.next new none),
  (λ q m. update_ne k.next new q none m.0),
)
add_lem zero k new (h ∷ xs) b r n run = absurd (omega arith)
add_lem (suc f) k new (h ∷ xs) b r n run =
    let k1 : Kernel = record k { next = update k.next new none } in
    let r1 : IsReady k1 (h ∷ xs) = record {
      linked = IsList-update k.next k.ready_head (h ∷ xs) new none n r.linked;
      distinct = r.distinct;
      sorted = r.sorted;
    } in
    let (spot, h', g, found, put, linked, off) =
      place_front f k1 new h xs (omega arith) r1 n (update_self k.next new none) in
    let (resched, marked) =
      mark_resched_lem (record k1 { next = g; ready_head = some h' }) h' refl in
    (
      h',
      g,
      resched,
      rw (run, r.linked.0, found, put, marked) refl,
      linked,
      (λ q m. off q m ∙ update_ne k.next new q none m.0),
    )

-- Adding a runnable task that is not on the queue keeps the queue linked, without repetition and
-- sorted, and its tasks are those of the sorted insertion; `next` changes at no other task, and no
-- field but `next`, `ready_head` and `need_resched` changes.
pub add_to_ready_q-refines :
    (fuel : ℕ) (k : Kernel) (new : ℕ) (xs : List ℕ)
    → length xs < fuel
    → IsReady k xs
    → NotIn new xs
    → is_runnable (k.state new) ≡ true
    → (k' : Kernel) × (add_to_ready_q fuel k new ≡ ok (os_ok, k'))
      × IsReady k' (insert k.prio new xs)
      × AgreeOff (new ∷ xs) k.next k'.next
      × (k'
          ≡ record k { next = k'.next; ready_head = k'.ready_head; need_resched = k'.need_resched })
add_to_ready_q-refines fuel k new xs b r n run =
    let (h', g, resched, e, linked, off) = add_lem fuel k new xs b r n run in
    (
      record k { next = g; ready_head = some h'; need_resched = resched },
      e,
      record {
        linked = linked;
        distinct = Distinct-insert k.prio new xs n r.distinct;
        sorted = IsSorted-insert k.prio new xs r.sorted;
      },
      off,
      refl,
    )
