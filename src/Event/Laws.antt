-- ===== src/Event/Laws.antt =====
-- The tasks that wait for an event: how they come to wait, and what a notification does.
use Prim.Native.Nat.{bit_and, bit_or}
use rosx.Base.{
  ℕ, zero, suc, ◌<◌, ◌≡◌, refl, sym, ap, ◌∙◌, false, Option, none, some, List, [], ◌∷◌, arith, ◌==◌,
  ==_refl, update, update_self, ok, subst,
}
use rosx.Base.Lists.{length, NotIn, Apart, Apart-sym}
use rosx.Base.Links.{IsList, IsList-update, IsList-agree}
use rosx.Kernel.{suspend, ready, os_ok, Kernel}
use rosx.ReadyQueue.Spec.{insert, IsReady}
use rosx.ReadyQueue.Add.{add_to_ready_q-refines}
use rosx.ReadyQueue.Remove.{remove_lem}
use rosx.Sched.Laws.{sched-most_urgent}
use rosx.Event.{EventGroup, run_out, wait_event_group, notify, process_event}

-- A notification whose flags the first waiting task asked for makes that task ready, in the ready
-- queue by its priority, with the flags received. Whatever tasks wait behind it, none is left in
-- the group after it.
pub process_event-drops_rest :
    (rounds fuel t flag : ℕ) (next : Option ℕ) (k : Kernel) (xs : List ℕ)
    → 0 < rounds
    → length xs < fuel
    → IsReady k xs
    → NotIn t xs
    → (bit_and (k.event_flag t) flag == 0) ≡ false
    → let g : EventGroup = record { task = some t; next = next } in
      (k' : Kernel) × (process_event rounds fuel g k flag
        ≡ ok (os_ok, record g { task = none }, k'))
      × IsReady k' (insert k.prio t xs)
      × (k'.state t ≡ ready)
      × (k'.event_recv t ≡ flag)
unfolding process_event notify
process_event-drops_rest zero fuel t flag next k xs h b r n asked = absurd (omega arith)
process_event-drops_rest (suc f) fuel t flag next k xs h b r n asked =
    let k0 : Kernel = record k {
      event_recv = update k.event_recv t flag;
      state = update k.state t ready;
      event = update k.event t none;
      next = update k.next t none;
    } in
    let r0 : IsReady k0 xs = record {
      linked = IsList-update k.next k.ready_head xs t none n r.linked;
      distinct = r.distinct;
      sorted = r.sorted;
    } in
    let (k', e, r', off, frame) =
      add_to_ready_q-refines fuel k0 t xs b r0 n (rw (update_self k.state t ready) refl) in
    (
      k',
      simp (process_event, notify, asked, ==_refl t, update_self k.next t none, e) refl,
      r',
      ap (λ q. q.state t) frame ∙ update_self k.state t ready,
      ap (λ q. q.event_recv t) frame ∙ update_self k.event_recv t flag,
    )

run_out_lem :
    (fuel : ℕ) (nx : ℕ → Option ℕ) (h : Option ℕ) (ws : List ℕ)
    → length ws < fuel
    → IsList nx h ws
    → run_out fuel nx h ≡ ok none
unfolding run_out
run_out_lem zero nx h ws b l = absurd (omega arith)
run_out_lem (suc f) nx h [] b l = rw (l, run_out) refl
run_out_lem (suc f) nx h (w ∷ ws) b l =
    rw (l.0, run_out) (run_out_lem f nx (nx w) ws (omega arith) l.1)

-- A task that waits for an event while others wait goes to sleep, and the next ready task runs;
-- but the group is as it was: the tasks that waited before are all that it has.
pub wait_event_group-forgets :
    (fuel event w y flag : ℕ) (next : Option ℕ) (k : Kernel) (ys ws : List ℕ)
    → length (k.curr ∷ y ∷ ys) < fuel
    → length (w ∷ ws) < fuel
    → IsReady k (k.curr ∷ y ∷ ys)
    → IsList k.next (some w) (w ∷ ws)
    → Apart (w ∷ ws) (k.curr ∷ y ∷ ys)
    → let g : EventGroup = record { task = some w; next = next } in
      (k' : Kernel) × (wait_event_group fuel event g k flag ≡ ok (g, k'))
      × IsList k'.next (some w) (w ∷ ws)
      × IsReady k' (y ∷ ys)
      × (k'.curr ≡ y)
      × (k'.state k.curr ≡ suspend)
      × (k'.event k.curr ≡ some event)
unfolding wait_event_group
wait_event_group-forgets fuel event w y flag next k ys ws b c r l a =
    let k0 : Kernel = record k {
      event_flag = update k.event_flag k.curr (bit_or (k.event_flag k.curr) flag);
      state = update k.state k.curr suspend;
      event = update k.event k.curr (some event);
    } in
    let (hd, g, e, linked, off, end) =
      remove_lem fuel k0 k.curr k.curr (y ∷ ys) b r.linked r.distinct in
    let others : IsList g hd (y ∷ ys) = rw (==_refl k.curr) at linked in
    let nx : (ℕ → Option ℕ) = update g k.curr none in
    let waiting : IsList nx (some w) (w ∷ ws) =
      IsList-update g (some w) (w ∷ ws) k.curr none (Apart-sym (w ∷ ws) (k.curr ∷ y ∷ ys) a).0
        (IsList-agree k.next g (some w) (k.curr ∷ y ∷ ys) (w ∷ ws) (λ q m. off q (m.0, m)) a l) in
    let k1 : Kernel = record k0 { next = nx; ready_head = hd } in
    let r1 : IsReady k1 (y ∷ ys) = record {
      linked = IsList-update g hd (y ∷ ys) k.curr none r.distinct.0 others;
      distinct = r.distinct.1;
      sorted = r.sorted.1;
    } in
    let (k', e', runs, urgent, r', switched, frame, states) = sched-most_urgent k1 y ys r1 in
    (
      k',
      rw e (rw (run_out_lem fuel nx (some w) (w ∷ ws) c waiting) (rw e' refl)),
      subst (λ f. IsList f (some w) (w ∷ ws)) (sym (ap (λ q. q.next) frame)) waiting,
      r',
      runs,
      states k.curr r.distinct.0.0 ∙ update_self k.state k.curr suspend,
      ap (λ q. q.event k.curr) frame ∙ update_self k.event k.curr (some event),
    )
