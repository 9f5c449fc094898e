-- ===== src/Tasklet/Serving.antt =====
-- What `rx_bh_thread` does with the scheduled tasklets.
use rosx.Base.{
  ap, subst, sym, Option, ℕ, zero, suc, ◌<◌, ◌≡◌, refl, true, false, none, some, List, [], ◌∷◌,
  arith, update, ok,
}
use rosx.Base.Lists.{length}
use rosx.Kernel.{os_ok, timer_off, Kernel}
use rosx.ReadyQueue.Spec.{IsReady}
use rosx.WaitQueue.{WaitQueues}
use rosx.WaitQueue.Blocking.{IsFree, Blocked, block_on_lem, finish_wait_lem}
use rosx.WaitQueue.Condition.{wait_queue, wait_queue_awake}
use rosx.Tasklet.{Tasklets, Function, run_tasklet}
use rosx.Tasklet.Laws.{IsPending}
use rosx.Tasklet.Thread.{has_tasklet, serve, bh_thread, bh_thread_awake}

-- The functions of the tasklets are those of `fs`.
abbrev HasFunc : (ℕ → Option ℕ) → (fs : ℕ → ℕ) → List ℕ → Type 0
HasFunc func fs [] = Unit
HasFunc func fs (t ∷ ts) = (func t ≡ some (fs t)) × HasFunc func fs ts

-- What is left of the memory `m` when the functions of the tasklets have been called with their
-- data, one after the other.
abbrev ran_all : {S : Type 0} → (effect : ℕ → ℕ → S → S) → (fs arg : ℕ → ℕ) → List ℕ → S → S
ran_all effect fs arg [] m = m
ran_all effect fs arg (t ∷ ts) m = ran_all effect fs arg ts (effect (fs t) (arg t) m)

-- What a call of a function does to the memory; it leaves the tasklets as they are.
abbrev Does : {S : Type 0} → Function S → (ℕ → ℕ → S → S) → Type 0
Does {S} call effect = (f a : ℕ) (m : S) (z : Tasklets) → call f a m z ≡ ok (effect f a m, z)

is_idle : (s : Tasklets) → s.head ≡ none → has_tasklet s ≡ false
is_idle s e = rw e refl

is_busy : (s : Tasklets) (t : ℕ) → s.head ≡ some t → has_tasklet s ≡ true
is_busy s t e = rw e refl

module _ {S : Type 0} (call : Function S) (effect : ℕ → ℕ → S → S) (does : Does call effect)
    (fs : ℕ → ℕ) where
  -- One tasklet of the thread.
  serve_lem :
      (m : S) (s : Tasklets) (t : ℕ) (ts : List ℕ)
      → IsPending s (t ∷ ts)
      → HasFunc s.func fs (t ∷ ts)
      → (s' : Tasklets) × (serve call m s os_ok ≡ ok (effect (fs t) (s.arg t) m, s'))
        × IsPending s' ts
        × (s'.func ≡ s.func)
        × (s'.arg ≡ s.arg)
  unfolding serve run_tasklet
  serve_lem m s t ts p f = (
    record s {
      head = s.next t;
      running = update (update s.running t true) t false;
      scheduled = update s.scheduled t false;
    },
    simp (p.linked.0, f.0, does (fs t) (s.arg t) m) refl,
    record { linked = p.linked.1; distinct = p.distinct.1 },
    refl,
    refl,
  )

  bh_thread-serves :
      (rounds fuel : ℕ) (m : S) (s : Tasklets) (w : WaitQueues) (k : Kernel) (wq y : ℕ)
      (ts ys qs : List ℕ)
      → length ts < rounds
      → length (k.curr ∷ y ∷ ys) < fuel
      → IsPending s ts
      → HasFunc s.func fs ts
      → IsReady k (k.curr ∷ y ∷ ys)
      → IsFree fuel w wq qs
      → (s' : Tasklets) × (w' : WaitQueues) × (k' : Kernel) × (bh_thread rounds fuel call m s w k wq
          ≡ ok (ran_all effect fs s.arg ts m, s', w', k'))
        × (s'.head ≡ none)
        × Blocked k wq y ys w' k'
  unfolding bh_thread wait_queue
  bh_thread-serves zero fuel m s w k wq y ts ys qs b c p f r free = absurd (omega arith)
  bh_thread-serves (suc n) fuel m s w k wq y [] ys qs b c p f r free =
      let (w1, k1, ran, blocked) = block_on_lem fuel w k wq y ys qs c r free in
      (s, w1, k1, simp (is_idle s p.linked, ran) refl, p.linked, blocked)
  bh_thread-serves (suc n) fuel m s w k wq y (t ∷ ts) ys qs b c p f r free =
      let (s1, served, p1, funcs, args) = serve_lem m s t ts p f in
      let f1 : HasFunc s1.func fs ts = subst (λ g. HasFunc g fs ts) (sym funcs) f.1 in
      let m1 : S = effect (fs t) (s.arg t) m in
      let (s2, w2, k2, ran, idle, blocked) =
        bh_thread-serves n fuel m1 s1 w k wq y ts ys qs (omega arith) c p1 f1 r free in
      (
        s2,
        w2,
        k2,
        simp (is_busy s t p.linked.0, served, ran)
            (ap (λ g. ok (ran_all effect fs g ts m1, s2, w2, k2)) args),
        idle,
        blocked,
      )

  -- When the thread for tasklets is switched back to while tasklets are scheduled, it calls the
  -- function of each of them once, with the tasklet's data, in the order in which they were
  -- scheduled: the memory that the functions work on is what these calls make of it. Then it
  -- blocks on its wait queue, with no tasklet scheduled, and the next ready task runs. The
  -- tasklets have functions, which leave the tasklets as they are; the thread's wait queue has
  -- no other task, and the thread has no timer.
  pub bh_thread_awake-serves :
      (rounds fuel : ℕ) (m : S) (s : Tasklets) (w : WaitQueues) (k : Kernel) (wq y t : ℕ)
      (ts ys qs : List ℕ)
      → length ts < rounds
      → length (k.curr ∷ y ∷ ys) < fuel
      → IsPending s (t ∷ ts)
      → HasFunc s.func fs (t ∷ ts)
      → IsReady k (k.curr ∷ y ∷ ys)
      → IsFree fuel w wq qs
      → k.timer k.curr ≡ none
      → k.timeout k.curr ≡ timer_off
      → (s' : Tasklets) × (w' : WaitQueues) × (k' : Kernel) × (bh_thread_awake rounds fuel call m s
            w k wq
          ≡ ok (ran_all effect fs s.arg (t ∷ ts) m, s', w', k'))
        × (s'.head ≡ none)
        × Blocked k wq y ys w' k'
  unfolding bh_thread_awake wait_queue_awake
  bh_thread_awake-serves rounds fuel m s w k wq y t ts ys qs b c p f r free untimed off =
      let k1 : Kernel = record k {
        timeout = update k.timeout k.curr timer_off;
        wq = update k.wq k.curr none;
      } in
      let r1 : IsReady k1 (k.curr ∷ y ∷ ys) = record {
        linked = r.linked;
        distinct = r.distinct;
        sorted = r.sorted;
      } in
      let (s1, served, p1, funcs, args) = serve_lem m s t ts p f in
      let f1 : HasFunc s1.func fs ts = subst (λ g. HasFunc g fs ts) (sym funcs) f.1 in
      let m1 : S = effect (fs t) (s.arg t) m in
      let (s2, w2, k2, ran, idle, blocked) =
        bh_thread-serves rounds fuel m1 s1 w k1 wq y ts ys qs b c p1 f1 r1 free in
      (
        s2,
        w2,
        k2,
        simp (is_busy s t p.linked.0, finish_wait_lem k untimed off, served, ran)
            (ap (λ g. ok (ran_all effect fs g ts m1, s2, w2, k2)) args),
        idle,
        blocked,
      )
