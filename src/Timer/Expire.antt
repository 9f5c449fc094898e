-- ===== src/Timer/Expire.antt =====
-- The loop of `rx_timer_thread` over active timers that put tasks to sleep.
use rosx.Base.{
  ℕ, zero, suc, ◌+◌, ◌<◌, ◌≡◌, refl, sym, ap, ◌∙◌, subst, ◌⊎◌, inl, inr, true, false, Option, none,
  some, List, [], ◌∷◌, arith, leb, leb→lt, Bool-cases, update, update_self, if◌then◌else◌, Run, ok,
  ◌>>=◌,
}
use rosx.Base.Lists.{length, NotIn, Distinct, Apart, In}
use rosx.Kernel.{ready, Kernel}
use rosx.ReadyQueue.Spec.{insert, NoneAbove, NoneAbove-mono, IsReady, length-insert}
use rosx.ReadyQueue.Add.{add_to_ready_q-refines}
use rosx.ReadyQueue.Wake.{insert_all, Apart-insert, update_ready}
use rosx.ReadyQueue.{add_to_ready_q}
use rosx.Timer.{expire, remove_from_active}
use rosx.Timer.Spec.{IsTimers}
use rosx.Timer.Remove.{remove_from_active-head}

-- The timers that have expired, at the front of the list, and the others.
abbrev due : (expiry : ℕ → ℕ) → ℕ → List ℕ → List ℕ
due expiry tick [] = []
due expiry tick (t ∷ ts) = if leb (expiry t) tick then t ∷ due expiry tick ts else []

abbrev pub later : (expiry : ℕ → ℕ) → ℕ → List ℕ → List ℕ
later expiry tick [] = []
later expiry tick (t ∷ ts) = if leb (expiry t) tick then later expiry tick ts else t ∷ ts

abbrev pub tasks : (ℕ → ℕ) → List ℕ → List ℕ
tasks task [] = []
tasks task (t ∷ ts) = task t ∷ tasks task ts

-- Every timer of the list puts a task to sleep.
abbrev Sleepers : (ℕ → Option ℕ) → List ℕ → Type 0
Sleepers handler [] = Unit
Sleepers handler (t ∷ ts) = (handler t ≡ none) × Sleepers handler ts

-- One expired timer with no handler: its task becomes ready and the timer leaves the list.
abbrev wake_sleeper : ℕ → Kernel → ℕ → Run Kernel
wake_sleeper fuel k p = do
  (_, k1) ←
      add_to_ready_q fuel (record k { state = update k.state (k.timer_task p) ready })
        (k.timer_task p)
  remove_from_active (record k1 { timer = update k1.timer (k.timer_task p) none }) p

module _ (f fuel : ℕ) (run : ℕ → ℕ → Kernel → Run Kernel) (tick : ℕ) (k : Kernel) where
  no_timer : k.active_timer_head ≡ none → expire (suc f) fuel run tick k ≡ ok k
  unfolding expire
  no_timer e = simp (e, expire) refl

  not_yet :
      (p : ℕ)
      → k.active_timer_head ≡ some p
      → leb (k.time_expiry p) tick ≡ false
      → expire (suc f) fuel run tick k ≡ ok k
  unfolding expire
  not_yet p e h = simp (e, h, expire) refl

  first_due :
      (p : ℕ)
      → k.active_timer_head ≡ some p
      → leb (k.time_expiry p) tick ≡ true
      → k.handler p ≡ none
      → expire (suc f) fuel run tick k ≡ (wake_sleeper fuel k p >>= λ k'. expire f fuel run tick k')
  unfolding expire
  first_due p e h s = simp (e, h, s, expire) refl

wake_sleeper_lem :
    (fuel : ℕ) (k : Kernel) (p : ℕ) (ts xs : List ℕ)
    → length xs < fuel
    → IsReady k xs
    → IsTimers k (p ∷ ts)
    → NotIn (k.timer_task p) xs
    → (k' : Kernel) × (wake_sleeper fuel k p ≡ ok k')
      × IsTimers k' ts
      × IsReady k' (insert k.prio (k.timer_task p) xs)
      × (k'.time_expiry ≡ k.time_expiry)
      × (k'.handler ≡ k.handler)
      × (k'.timer_task ≡ k.timer_task)
      × (k'.prio ≡ k.prio)
      × (k'.state ≡ update k.state (k.timer_task p) ready)
wake_sleeper_lem fuel k p ts xs b r t n =
    let w : ℕ = k.timer_task p in
    let k0 : Kernel = record k { state = update k.state w ready } in
    let r0 : IsReady k0 xs = record {
      linked = r.linked;
      distinct = r.distinct;
      sorted = r.sorted;
    } in
    let (k1, e, r1, off, frame) =
      add_to_ready_q-refines fuel k0 w xs b r0 n (rw (update_self k.state w ready) refl) in
    let k2 : Kernel = record k1 { timer = update k1.timer w none } in
    let t1 : IsTimers k1 (p ∷ ts) =
      subst (λ q. IsTimers q (p ∷ ts)) (sym frame)
        (record {
          linked = t.linked;
          backed = t.backed;
          distinct = t.distinct;
          sorted = t.sorted;
        }) in
    let t2 : IsTimers k2 (p ∷ ts) = record {
      linked = t1.linked;
      backed = t1.backed;
      distinct = t1.distinct;
      sorted = t1.sorted;
    } in
    let (k3, e3, t3, frame3) = remove_from_active-head k2 p ts t2 in
    (
      k3,
      rw e e3,
      t3,
      subst (λ q. IsReady q (insert k.prio w xs)) (sym frame3)
          (record { linked = r1.linked; distinct = r1.distinct; sorted = r1.sorted }),
      ap (λ z. z.time_expiry) frame3 ∙ ap (λ z. z.time_expiry) frame,
      ap (λ z. z.handler) frame3 ∙ ap (λ z. z.handler) frame,
      ap (λ z. z.timer_task) frame3 ∙ ap (λ z. z.timer_task) frame,
      ap (λ z. z.prio) frame3 ∙ ap (λ z. z.prio) frame,
      ap (λ z. z.state) frame3 ∙ ap (λ z. z.state) frame,
    )

-- What was to become ready before the first timer was taken is ready now, or still to become so.
still_due :
    (tick : ℕ) (k k1 : Kernel) (q w : ℕ) (ts : List ℕ)
    → k1.time_expiry ≡ k.time_expiry
    → k1.timer_task ≡ k.timer_task
    → k1.state ≡ update k.state w ready
    → (k.state q ≡ ready) ⊎ In q (w ∷ tasks k.timer_task (due k.time_expiry tick ts))
    → (k1.state q ≡ ready) ⊎ In q (tasks k1.timer_task (due k1.time_expiry tick ts))
still_due tick k k1 q w ts e g st (inl h) =
    inl (ap (λ f. f q) st ∙ update_ready k.state w q (inl h))
still_due tick k k1 q w ts e g st (inr (inl h)) =
    inl (ap (λ f. f q) st ∙ update_ready k.state w q (inr h))
still_due tick k k1 q w ts e g st (inr (inr h)) = inr (
    subst (λ f. In q (tasks f (due k1.time_expiry tick ts))) (sym g)
      (subst (λ f. In q (tasks k.timer_task (due f tick ts))) (sym e) h))

-- If all active timers put distinct tasks to sleep that are not in the ready queue, the loop ends
-- with the expired timers off the list and their tasks in the ready queue; the timers that stay
-- all expire after `tick`.
pub expire-wakes_due :
    (rounds fuel : ℕ) (run : ℕ → ℕ → Kernel → Run Kernel) (tick : ℕ) (k : Kernel) (ts xs : List ℕ)
    → length ts < rounds
    → length xs + length ts < fuel
    → IsReady k xs
    → IsTimers k ts
    → Sleepers k.handler ts
    → Distinct (tasks k.timer_task ts)
    → Apart (tasks k.timer_task ts) xs
    → (k' : Kernel) × (expire rounds fuel run tick k ≡ ok k')
      × IsTimers k' (later k.time_expiry tick ts)
      × NoneAbove k.time_expiry (suc tick) (later k.time_expiry tick ts)
      × IsReady k' (insert_all k.prio (tasks k.timer_task (due k.time_expiry tick ts)) xs)
      × ((q : ℕ)
          → (k.state q ≡ ready) ⊎ In q (tasks k.timer_task (due k.time_expiry tick ts))
          → k'.state q ≡ ready)
unfolding expire
expire-wakes_due zero fuel run tick k ts xs b c r t s d a = absurd (omega arith)
expire-wakes_due (suc f) fuel run tick k [] xs b c r t s d a = (
  k,
  no_timer f fuel run tick k t.linked,
  t,
  tt,
  r,
  (λ q h. elim h [ inl e ↦ e | inr i ↦ absurd i ]),
)
expire-wakes_due (suc f) fuel run tick k (p ∷ ts) xs b c r t s d a =
    elim (Bool-cases (leb (k.time_expiry p) tick)) [
      | inr e ↦
          let after : tick < k.time_expiry p = leb→lt (k.time_expiry p) tick e in
          rw e (
            k,
            not_yet f fuel run tick k p t.linked.0 e,
            t,
            (after, NoneAbove-mono k.time_expiry (suc tick) (k.time_expiry p) ts after t.sorted.0),
            r,
            (λ q h. elim h [ inl z ↦ z | inr i ↦ absurd i ]),
          )
      | inl e ↦
          let w : ℕ = k.timer_task p in
          let (k1, woken, t1, r1, expiries, handlers, sleepers, prios, states) =
            wake_sleeper_lem fuel k p ts xs (omega arith) r t a.0 in
          let (k', rest, t', far, r', all) =
            expire-wakes_due f fuel run tick k1 ts (insert k.prio w xs) (omega arith)
              (omega (arith, length-insert k.prio w xs)) r1 t1
              (subst (λ g. Sleepers g ts) (sym handlers) s.1)
              (subst (λ g. Distinct (tasks g ts)) (sym sleepers) d.1)
              (subst (λ g. Apart (tasks g ts) (insert k.prio w xs)) (sym sleepers)
                (Apart-insert k.prio w (tasks k.timer_task ts) xs d.0 a.1)) in
          rw e (
            k',
            first_due f fuel run tick k p t.linked.0 e s.0
                ∙ ap (λ o. o >>= λ q. expire f fuel run tick q) woken
                ∙ rest,
            rw expiries at t',
            rw expiries at far,
            rw (expiries, prios, sleepers) at r',
            (λ q h. all q (still_due tick k k1 q w ts expiries sleepers states h)),
          )
    ]
