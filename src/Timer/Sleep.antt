-- ===== src/Timer/Sleep.antt =====
-- The timers that put a task to sleep: `__rx_add_timer` without a handler, and `rx_msleep`.
use rosx.Base.{
  ℕ, suc, ◌+◌, ◌/◌, ◌%◌, ◌^◌, ◌<◌, ◌≤◌, ◌≡◌, refl, sym, ap, ◌∙◌, subst, none, some, List, ◌∷◌,
  arith, ltb, ltb_no, false, ==_refl, ◌==◌, ==_ne, update, update_self, ok,
}
use rosx.Base.Lists.{length, NotIn}
use rosx.Base.Links.{IsList-update}
use rosx.Kernel.{suspend, os_ok, Kernel}
use rosx.ReadyQueue.Spec.{IsReady, IsSorted-update}
use rosx.ReadyQueue.Remove.{remove_lem}
use rosx.Sched.Laws.{sched-most_urgent}
use rosx.Timer.{arm, add_timer, msleep}
use rosx.Timer.Spec.{insert, Backed-update, IsTimers}
use rosx.Timer.Add.{add_active_lem}

-- A task that sleeps on a timer that is not active is suspended and off the ready queue, the next
-- task runs, and the timer is active, to expire `delay` ticks from now modulo 2^32.
pub add_timer-sleeps :
    (fuel : ℕ) (k : Kernel) (p delay y : ℕ) (ys ts : List ℕ)
    → length (k.curr ∷ y ∷ ys) < fuel
    → length ts < suc fuel
    → IsReady k (k.curr ∷ y ∷ ys)
    → IsTimers k ts
    → NotIn p ts
    → (k' : Kernel) × (add_timer fuel k p none delay k.curr ≡ ok k')
      × IsReady k' (y ∷ ys)
      × IsTimers k' (insert k'.time_expiry p ts)
      × (k'.time_expiry p ≡ (delay + k.jiffies) % 2 ^ 32)
      × (k'.curr ≡ y)
      × (k'.state k.curr ≡ suspend)
      × (k'.timer k.curr ≡ some p)
unfolding add_timer
add_timer-sleeps fuel k p delay y ys ts b c r t n =
    let k1 : Kernel = record k {
      delay = update k.delay p delay;
      time_expiry = update k.time_expiry p 0;
      timer_task = update k.timer_task p k.curr;
      handler = update k.handler p none;
      timer_next = update k.timer_next p none;
      timer_prev = update k.timer_prev p none;
    } in
    let t1 : IsTimers k1 ts = record {
      linked = IsList-update k.timer_next k.active_timer_head ts p none n t.linked;
      backed = Backed-update k.timer_prev none ts p none n t.backed;
      distinct = t.distinct;
      sorted = IsSorted-update k.time_expiry p 0 ts n t.sorted;
    } in
    let (h, nx, pv, e, t2, off, off') = add_active_lem fuel k1 p ts c t1 n in
    let k2 : Kernel = record (arm k1 p) {
      timer_next = nx;
      timer_prev = pv;
      active_timer_head = some h;
      timer = update k.timer k.curr (some p);
      state = update k.state k.curr suspend;
    } in
    let (hd, g, e3, linked, off3, end) =
      remove_lem fuel k2 k.curr k.curr (y ∷ ys) b r.linked r.distinct in
    let k3 : Kernel = record k2 { next = g; ready_head = hd } in
    let r3 : IsReady k3 (y ∷ ys) = record {
      linked = rw (==_refl k.curr) at linked;
      distinct = r.distinct.1;
      sorted = r.sorted.1;
    } in
    let (k', e4, runs, urgent, r', switched, frame, states) = sched-most_urgent k3 y ys r3 in
    let expiry : k'.time_expiry ≡ k3.time_expiry = ap (λ q. q.time_expiry) frame in
    (
      k',
      rw e (rw e3 e4),
      r',
      subst (λ q. IsTimers q (insert q.time_expiry p ts)) (sym frame)
          (record {
            linked = t2.linked;
            backed = t2.backed;
            distinct = t2.distinct;
            sorted = t2.sorted;
          }),
      ap (λ f. f p) expiry
          ∙ update_self k1.time_expiry p ((k1.delay p + k.jiffies) % 2 ^ 32)
          ∙ ap (λ d. (d + k.jiffies) % 2 ^ 32) (update_self k.delay p delay),
      runs,
      states k.curr r.distinct.0.0 ∙ update_self k.state k.curr suspend,
      ap (λ q. q.timer k.curr) frame ∙ update_self k.timer k.curr (some p),
    )

-- `rx_msleep` with 100 ms or more sleeps for a hundredth of the milliseconds in ticks of 10 ms, a
-- tenth of the time it is asked for.
pub msleep-early :
    (fuel : ℕ) (k : Kernel) (p time y : ℕ) (ys ts : List ℕ)
    → length (k.curr ∷ y ∷ ys) < fuel
    → length ts < suc fuel
    → IsReady k (k.curr ∷ y ∷ ys)
    → IsTimers k ts
    → NotIn p ts
    → 100 ≤ time
    → time ≤ 100000
    → (k' : Kernel) × (msleep fuel k p time ≡ ok (os_ok, k'))
      × (k'.time_expiry p ≡ (time / 100 + k.jiffies) % 2 ^ 32)
      × (k'.state k.curr ≡ suspend)
      × (k'.curr ≡ y)
      × IsReady k' (y ∷ ys)
unfolding msleep
msleep-early fuel k p time y ys ts b c r t n lo hi =
    let (k', e, r', t', expires, runs, asleep, held) =
      add_timer-sleeps fuel k p (time / 100) y ys ts b c r t n in
    let guard : ltb 100000 time ≡ false = ltb_no 100000 time hi in
    let some_time : (time == 0) ≡ false = ==_ne time 0 (omega arith) in
    let ticks : (time / 100 == 0) ≡ false = ==_ne (time / 100) 0 (omega arith) in
    (k', rw guard (rw some_time (rw ticks (rw e refl))), expires, asleep, runs, r')
