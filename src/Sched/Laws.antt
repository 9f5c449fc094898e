-- ===== src/Sched/Laws.antt =====
-- Who runs: the most urgent task, and among tasks of one priority each in its turn.
use rosx.Base.{
  ℕ, ◌<◌, ◌≡◌, refl, ap, ◌∙◌, ◌≢◌, inl, inr, Bool, true, false, Option, some, List, ◌∷◌, arith,
  ◌==◌, ==_refl, ==→eq, same, update, update_self, update_ne, if◌then◌else◌, Bool-cases, Run, deref,
  ok, ◌>>=◌,
}
use mathlib.Core.Bool.{not, ◌&&◌}
use rosx.Base.Int.{is_zero}
use rosx.Base.Lists.{length}
use rosx.Base.Links.{IsList}
use rosx.Kernel.{ready, running, Kernel}
use rosx.ReadyQueue.Spec.{insert, NoneAbove, IsReady}
use rosx.ReadyQueue.Add.{add_lem}
use rosx.ReadyQueue.Remove.{remove_lem}
use rosx.Sched.{switch_to, sched, slice_end}

-- The switch to a given head of the queue, as `sched` makes it.
abbrev switched : Kernel → Option ℕ → Run Kernel
switched k t = do
  h ← deref t
  ok (record k {
    curr = h;
    state = update k.state h running;
    ticks =
        if not (is_zero (k.time_slice h)) && is_zero (k.ticks h)
        then update k.ticks h (k.time_slice h)
        else k.ticks;
    need_resched = false;
  })

-- After `rx_sched` the head of the ready queue runs: a task that no other ready task is more
-- urgent than. The queue is unchanged, and no request to reschedule is left if the task changed.
-- Nothing else changes but slices, and no other task's state.
pub sched-most_urgent :
    (k : Kernel) (h : ℕ) (xs : List ℕ)
    → IsReady k (h ∷ xs)
    → (k' : Kernel) × (sched k ≡ ok k')
      × (k'.curr ≡ h)
      × NoneAbove k'.prio (k'.prio k'.curr) xs
      × IsReady k' (h ∷ xs)
      × (k.curr ≢ h → (k'.need_resched ≡ false) × (k'.state h ≡ running))
      × (k' ≡ record k {
        curr = k'.curr;
        state = k'.state;
        ticks = k'.ticks;
        need_resched = k'.need_resched;
      })
      × ((q : ℕ) → q ≢ h → k'.state q ≡ k.state q)
unfolding sched switch_to
sched-most_urgent k h xs r = elim (Bool-cases (same (some k.curr) (some h))) [
  | inl e ↦ (
    k,
    ap (λ t. if same (some k.curr) t then ok k else switched k t) r.linked.0 ∙ rw e refl,
    ==→eq k.curr h e,
    rw (==→eq k.curr h e) r.sorted.0,
    r,
    (λ ne. absurd (ne (==→eq k.curr h e))),
    refl,
    (λ q ne. refl),
  )
  | inr e ↦
      let refill =
        if not (is_zero (k.time_slice h)) && is_zero (k.ticks h)
        then update k.ticks h (k.time_slice h)
        else k.ticks in
      (
        record k {
          curr = h;
          state = update k.state h running;
          ticks = refill;
          need_resched = false;
        },
        ap (λ t. if same (some k.curr) t then ok k else switched k t) r.linked.0 ∙ rw e refl,
        refl,
        r.sorted.0,
        record { linked = r.linked; distinct = r.distinct; sorted = r.sorted },
        (λ ne. (refl, update_self k.state h running)),
        refl,
        (λ q ne. update_ne k.state h q running ne),
      )
]

-- The end of a slice, whatever the queue behind the running task.
pub slice_lem :
    (fuel : ℕ) (k : Kernel) (xs : List ℕ)
    → length (k.curr ∷ xs) < fuel
    → IsReady k (k.curr ∷ xs)
    → (h' : ℕ) × (g : ℕ → Option ℕ) × (b : Bool) × (slice_end fuel k
        ≡ ok (
            if k.curr == h'
            then record k {
              next = g;
              ready_head = some h';
              need_resched = b;
              ticks = update k.ticks k.curr (k.time_slice k.curr);
              state = update (update k.state k.curr ready) k.curr running;
            }
            else record k {
              next = g;
              ready_head = some h';
              need_resched = true;
              state = update k.state k.curr ready;
            }))
      × IsList g (some h') (insert k.prio k.curr xs)
unfolding slice_end
slice_lem fuel k xs b r =
    let (hd, g, removed, linked, off, end) =
      remove_lem fuel k k.curr k.curr xs b r.linked r.distinct in
    let k2 : Kernel = record k { next = g; ready_head = hd; state = update k.state k.curr ready } in
    let r2 : IsReady k2 xs = record {
      linked = rw (==_refl k.curr) at linked;
      distinct = r.distinct.1;
      sorted = r.sorted.1;
    } in
    let (h', g', resched, added, linked', off') =
      add_lem fuel k2 k.curr xs (omega arith) r2 r.distinct.0 (rw (==_refl k.curr) refl) in
    (
      h',
      g',
      resched,
      rw (removed, added)
          (elim (Bool-cases (k.curr == h')) [ inl e ↦ rw e refl | inr e ↦ rw e refl ]),
      linked',
    )
