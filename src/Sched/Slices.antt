-- ===== src/Sched/Slices.antt =====
-- Round robin among tasks of one priority.
use rosx.Base.{
  ℕ, suc, ◌<◌, ◌≡◌, refl, ◌∙◌, true, false, some, List, ◌∷◌, arith, ◌==◌, ==_refl, ==_ne, update,
  update_self, ok, some_inj,
}
use rosx.Base.Int.{pos, dec, ltb_ℤ}
use rosx.Base.Lists.{length}
use rosx.Base.Links.{IsList}
use rosx.Kernel.{ready, running, Kernel}
use rosx.ReadyQueue.Spec.{
  insert, NoneAbove, IsSorted-insert, Distinct-insert, IsReady, insert-later, insert-first,
}
use rosx.Sched.{slice_end, time_slice_tick}
use rosx.Sched.Laws.{slice_lem}

-- The tick that uses up a slice runs `slice_end`.
tick_expires :
    (fuel : ℕ) (k : Kernel)
    → ltb_ℤ (pos 0) (k.time_slice k.curr) ≡ true
    → k.ticks k.curr ≡ pos 1
    → time_slice_tick fuel k
      ≡ slice_end fuel (record k { ticks = update k.ticks k.curr (dec (k.ticks k.curr)) })
unfolding time_slice_tick dec
tick_expires fuel k on last =
    rw on (rw (update_self k.ticks k.curr (dec (k.ticks k.curr)), last) refl)

-- When the running task's slice runs out while another task of its priority is next, that task
-- becomes the head of the queue, the running task goes behind the last task of its priority,
-- is ready again, and a reschedule is asked for.
pub round_robin :
    (fuel : ℕ) (k : Kernel) (y : ℕ) (ys : List ℕ)
    → length (k.curr ∷ y ∷ ys) < fuel
    → IsReady k (k.curr ∷ y ∷ ys)
    → k.prio y ≡ k.prio k.curr
    → ltb_ℤ (pos 0) (k.time_slice k.curr) ≡ true
    → k.ticks k.curr ≡ pos 1
    → (k' : Kernel) × (time_slice_tick fuel k ≡ ok k')
      × IsReady k' (y ∷ insert k.prio k.curr ys)
      × (k'.need_resched ≡ true)
      × (k'.state k.curr ≡ ready)
round_robin fuel k y ys b r peer on last =
    let k1 : Kernel = record k { ticks = update k.ticks k.curr (dec (k.ticks k.curr)) } in
    let r1 : IsReady k1 (k.curr ∷ y ∷ ys) = record {
      linked = r.linked;
      distinct = r.distinct;
      sorted = r.sorted;
    } in
    let (h', g, resched, ended, linked) = slice_lem fuel k1 (y ∷ ys) b r1 in
    let back : insert k.prio k.curr (y ∷ ys) ≡ y ∷ insert k.prio k.curr ys =
      insert-later k.prio k.curr y ys (omega arith) in
    let linked' : IsList g (some h') (y ∷ insert k.prio k.curr ys) = rw back at linked in
    let first : h' ≡ y = some_inj linked'.0 in
    let ne : (k.curr == h') ≡ false = ==_ne k.curr h' (λ q. r.distinct.0.0 (q ∙ first)) in
    (
      record k1 {
        next = g;
        ready_head = some h';
        need_resched = true;
        state = update k.state k.curr ready;
      },
      tick_expires fuel k on last ∙ ended ∙ rw ne refl,
      record {
        linked = linked';
        distinct = rw back at (Distinct-insert k.prio k.curr (y ∷ ys) r.distinct.0 r.distinct.1);
        sorted = rw back at (IsSorted-insert k.prio k.curr (y ∷ ys) r.sorted.1);
      },
      refl,
      update_self k.state k.curr ready,
    )

-- When no other ready task is as urgent as the running one, the end of its slice leaves the queue
-- in order and the task running, with a full slice.
pub slice_renewed :
    (fuel : ℕ) (k : Kernel) (xs : List ℕ)
    → length (k.curr ∷ xs) < fuel
    → IsReady k (k.curr ∷ xs)
    → NoneAbove k.prio (suc (k.prio k.curr)) xs
    → ltb_ℤ (pos 0) (k.time_slice k.curr) ≡ true
    → k.ticks k.curr ≡ pos 1
    → (k' : Kernel) × (time_slice_tick fuel k ≡ ok k')
      × IsReady k' (k.curr ∷ xs)
      × (k'.curr ≡ k.curr)
      × (k'.state k.curr ≡ running)
      × (k'.ticks k.curr ≡ k.time_slice k.curr)
slice_renewed fuel k xs b r alone on last =
    let k1 : Kernel = record k { ticks = update k.ticks k.curr (dec (k.ticks k.curr)) } in
    let r1 : IsReady k1 (k.curr ∷ xs) = record {
      linked = r.linked;
      distinct = r.distinct;
      sorted = r.sorted;
    } in
    let (h', g, resched, ended, linked) = slice_lem fuel k1 xs b r1 in
    let linked' : IsList g (some h') (k.curr ∷ xs) =
      rw (insert-first k.prio k.curr xs alone) at linked in
    let first : (k.curr == h') ≡ true = rw (some_inj linked'.0) (==_refl k.curr) in
    (
      record k1 {
        next = g;
        ready_head = some h';
        need_resched = resched;
        ticks = update k1.ticks k.curr (k.time_slice k.curr);
        state = update (update k.state k.curr ready) k.curr running;
      },
      tick_expires fuel k on last ∙ ended ∙ rw first refl,
      record { linked = linked'; distinct = r.distinct; sorted = r.sorted },
      refl,
      update_self (update k.state k.curr ready) k.curr running,
      update_self k1.ticks k.curr (k.time_slice k.curr),
    )
